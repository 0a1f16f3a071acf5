-- ===== src/Transfer/Loop.antt =====
-- A file from end to end through the server's loop over `ikcp_recv`: what `send_file` queues
-- (code/kcp/kcp_client.cc), received by `startEpoll` (code/kcp/server_epoll.cc).
use kcp_fake_tcp.Base.{
  ℕ, ◌+◌, ◌≤◌, ◌<◌, ◌≡◌, ◌∙◌, sym, ap, subst, List, [], ◌∷◌, ◌++◌, false, some, length, flatten,
  arith,
}
use kcp_fake_tcp.Kcp.{Kcp, Queues, Fit}
use kcp_fake_tcp.Client.Outcome.{returned}
use kcp_fake_tcp.Client.State.{Client}
use kcp_fake_tcp.Client.File.{file_header}
use kcp_fake_tcp.Client.File.Laws.{Holds, Pieces}
use kcp_fake_tcp.Server.Session.{Session}
use kcp_fake_tcp.Server.Receive.{send_finish, path_for, drain}
use kcp_fake_tcp.Server.Receive.Whole.{received, drain-file}
use kcp_fake_tcp.Transfer.{queue_file, queue_file-Pieces}

Pieces-Fit : (limit : ℕ) (ms : List (List ℕ)) → 1024 ≤ limit → Pieces ms → Fit limit ms
Pieces-Fit limit [] l p = tt
Pieces-Fit limit (m ∷ ms) l (p, ps) = (p.0, omega (arith, p.1), Pieces-Fit limit ms l ps)

-- The loop on a file's pieces, by the file.
drain-Pieces :
    {L : Type 0} (server : Kcp L) (inbox outbox : L → List (List ℕ))
    (queues : Queues server inbox outbox) (pid : ℕ) (s : Session L) (k : L) (cnt fuel limit : ℕ)
    (name content : List ℕ) (pieces : List (List ℕ))
    → flatten pieces ≡ content
    → Pieces pieces
    → inbox k ≡ file_header name (length content) ∷ pieces
    → length pieces + 1 < fuel
    → 1024 ≤ limit
    → s.read_file ≡ false
    → s.file_sended ≡ 0
    → length name ≤ 132
    → 0 < length content
    → length content < 4294967296
    → (k' : L) × (drain server pid fuel limit k (s, cnt)
        ≡ returned (
          received server pid inbox outbox queues
              (record s { file_path = path_for pid cnt })
              k'
              content,
          cnt + 1,
        ))
      × (inbox k' ≡ [])
      × (outbox k' ≡ outbox k ++ send_finish ∷ [])
drain-Pieces server inbox outbox queues pid s k cnt fuel limit name content [] whole sizes e hf hl
      hr hs hn some_bytes w =
    absurd (omega (arith, ap length whole))
drain-Pieces server inbox outbox queues pid s k cnt fuel limit name content (m ∷ ms) whole sizes e
      hf hl hr hs hn some_bytes w =
    subst
      (λ r.
        inbox k ≡ file_header name (length r) ∷ m ∷ ms
        → length r < 4294967296
        → (k' : _) × (drain server pid fuel limit k (s, cnt)
            ≡ returned (
              received server pid inbox outbox queues (record s { file_path = path_for pid cnt }) k'
                  r,
              cnt + 1,
            ))
          × (inbox k' ≡ [])
          × (outbox k' ≡ outbox k ++ send_finish ∷ []))
      whole
      (λ e w.
        drain-file server pid inbox outbox queues fuel limit k s cnt name m ms e hr hs hn
          (omega arith) (Pieces-Fit limit (m ∷ ms) hl sizes) w (omega arith))
      e w

-- A file that is neither empty nor of 4 GiB or more, under a name of at most 132 bytes: the client
-- has queued it, in a block that held no messages, while the other threads left the block's
-- messages as they were, and KCP has brought the messages of that block, in their order, to a
-- session that has received nothing. Then the server's loop over `ikcp_recv`, asking for at least
-- 1024 bytes and with more rounds than there are messages, returns: the session has exactly the
-- file's bytes, closed and counted, nothing is left to receive, and "send_finish" is to be sent,
-- once.
pub queue_file-drain :
    {K L : Type 0} (kcp : Kcp K) (sent : K → List (List ℕ))
    (appends : (bytes : List ℕ) (k : K) → sent (kcp.send bytes k) ≡ sent k ++ bytes ∷ [])
    (between : ℕ → Client K → Client K)
    (quiet : (n : ℕ) (ms : List (List ℕ)) (c : Client K)
      → Holds kcp sent appends ms c
      → Holds kcp sent appends ms (between n c))
    (name content : List ℕ) (c c' : Client K) (sender : K) (server : Kcp L)
    (inbox outbox : L → List (List ℕ)) (queues : Queues server inbox outbox) (pid : ℕ)
    (s : Session L) (k : L) (cnt fuel limit : ℕ)
    → Holds kcp sent appends [] c
    → queue_file kcp between name content c ≡ returned c'
    → c'.m_kcp ≡ some sender
    → inbox k ≡ sent sender
    → length (sent sender) < fuel
    → 1024 ≤ limit
    → s.read_file ≡ false
    → s.file_sended ≡ 0
    → length name ≤ 132
    → 0 < length content
    → length content < 4294967296
    → (k' : L) × (drain server pid fuel limit k (s, cnt)
        ≡ returned (
          received server pid inbox outbox queues
              (record s { file_path = path_for pid cnt })
              k'
              content,
          cnt + 1,
        ))
      × (inbox k' ≡ [])
      × (outbox k' ≡ outbox k ++ send_finish ∷ [])
queue_file-drain kcp sent appends between quiet name content c c' sender server inbox outbox queues
      pid s k cnt fuel limit h queued block e hf hl hr hs hn some_bytes w =
    let (c1, pieces, result, holds, whole, sizes) =
      queue_file-Pieces kcp sent appends between quiet name content c h in
    let same : c' ≡ c1 = cc (sym queued ∙ result) in
    let same_block : sender ≡ holds.block =
      cc (sym block ∙ (ap (λ x. x.m_kcp) same ∙ holds.has_block)) in
    let given : sent sender ≡ file_header name (length content) ∷ pieces =
      ap sent same_block ∙ holds.given in
    drain-Pieces server inbox outbox queues pid s k cnt fuel limit name content pieces whole sizes
      (e ∙ given) (omega (arith, ap length given)) hl hr hs hn some_bytes w
