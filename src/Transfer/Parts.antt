-- ===== src/Transfer/Parts.antt =====
-- A file from end to end through one event of a connection: what `send_file` queues
-- (code/kcp/kcp_client.cc), read by `startEpoll` in any number of parts (code/kcp/server_epoll.cc).
use kcp_fake_tcp.Base.{
  ℕ, ◌+◌, ◌≤◌, ◌<◌, ◌≡◌, ◌∙◌, refl, sym, ap, subst, List, [], ◌∷◌, ◌++◌, Bool, false, some, length,
}
use kcp_fake_tcp.Kcp.{Kcp, Queues}
use kcp_fake_tcp.Client.Outcome.{Outcome, returned}
use kcp_fake_tcp.Client.State.{Client}
use kcp_fake_tcp.Client.File.{file_header}
use kcp_fake_tcp.Client.File.Laws.{Holds}
use kcp_fake_tcp.Server.Session.{Session}
use kcp_fake_tcp.Server.Receive.{send_finish, path_for}
use kcp_fake_tcp.Server.Receive.Laws.{on_messages, finished}
use kcp_fake_tcp.Server.Receive.Whole.{received}
use kcp_fake_tcp.Server.Epoll.{read_loop}
use kcp_fake_tcp.Server.Epoll.Parts.{
  Part, reads, all_messages, Delivers, ReadsAgree, read_loop-on_messages,
}
use kcp_fake_tcp.Transfer.{queue_file, queue_file-Pieces, Pieces-on_messages}

module _ {L : Type 0} (server : Kcp L) (pid : ℕ) (inbox outbox : L → List (List ℕ))
    (queues : Queues server inbox outbox) (fuel : ℕ) where
  -- The loop over `read` has left the whole file in the session, closed and counted; nothing is
  -- left to receive, and "send_finish" is to be sent, once.
  abbrev pub HasFile : Session L → L → List ℕ → ℕ → Outcome ((Session L × ℕ) × Bool) → Type 0
  HasFile s k content cnt o =
      (k' : L) × (o
        ≡ returned (
          (
            received server pid inbox outbox queues (record s { file_path = path_for pid cnt }) k'
                content,
            cnt + 1,
          ),
          false,
        ))
      × (inbox k' ≡ [])
      × (outbox k' ≡ outbox k ++ send_finish ∷ [])

  finished-HasFile :
      (s : Session L) (k : L) (content : List ℕ) (cnt : ℕ) (o : Outcome ((Session L × ℕ) × Bool))
      → ReadsAgree server pid inbox outbox queues fuel
          (returned
            (finished server pid (record s { file_path = path_for pid cnt }) k content, cnt + 1))
          o
      → HasFile s k content cnt o
  finished-HasFile s k content cnt o (k', k1, block, result, left, out) =
      let same : server.send send_finish k ≡ k1 = cc block in
      (k', result, left, out ∙ (ap outbox (sym same) ∙ queues.send_out send_finish k))

-- A file that is neither empty nor of 4 GiB or more, under a name of at most 132 bytes: the client
-- has queued it, in a block that held no messages, while the other threads left the block's
-- messages as they were. A session of the server that has received nothing then reads in any number
-- of parts, and KCP makes the messages of the client's block of them, in their order, none longer
-- than what that `read` returned. With more rounds for each loop over `ikcp_recv` than there are
-- messages in a part, the loop over `read` returns: the session has exactly the file's bytes, closed
-- and counted, nothing is left to receive, and "send_finish" is to be sent, once.
pub queue_file-read_loop :
    {K L : Type 0} (kcp : Kcp K) (sent : K → List (List ℕ))
    (appends : (bytes : List ℕ) (k : K) → sent (kcp.send bytes k) ≡ sent k ++ bytes ∷ [])
    (between : ℕ → Client K → Client K)
    (quiet : (n : ℕ) (ms : List (List ℕ)) (c : Client K)
      → Holds kcp sent appends ms c
      → Holds kcp sent appends ms (between n c))
    (name content : List ℕ) (c c' : Client K) (sender : K) (server : Kcp L)
    (inbox outbox : L → List (List ℕ)) (queues : Queues server inbox outbox) (pid fuel : ℕ)
    (s : Session L) (k : L) (cnt : ℕ) (ps : List Part)
    → Holds kcp sent appends [] c
    → queue_file kcp between name content c ≡ returned c'
    → c'.m_kcp ≡ some sender
    → all_messages ps ≡ sent sender
    → inbox k ≡ []
    → Delivers server pid inbox outbox queues fuel ps (record s { m_kcp = some k }, cnt)
    → s.read_file ≡ false
    → s.file_sended ≡ 0
    → length name ≤ 132
    → 0 < length content
    → length content < 4294967296
    → HasFile server pid inbox outbox queues fuel s k content cnt
        (read_loop server pid fuel (reads ps) (record s { m_kcp = some k }, cnt))
queue_file-read_loop kcp sent appends between quiet name content c c' sender server inbox outbox
      queues pid fuel s k cnt ps h queued block e left delivers hr hs hn some_bytes w =
    let (c1, pieces, result, holds, whole, sizes) =
      queue_file-Pieces kcp sent appends between quiet name content c h in
    let same : c' ≡ c1 = cc (sym queued ∙ result) in
    let same_block : sender ≡ holds.block =
      cc (sym block ∙ (ap (λ x. x.m_kcp) same ∙ holds.has_block)) in
    let given : all_messages ps ≡ file_header name (length content) ∷ pieces =
      e ∙ (ap sent same_block ∙ holds.given) in
    let handled =
      ap (λ ms. on_messages server pid ms (record s { m_kcp = some k }, cnt)) given
      ∙ Pieces-on_messages server pid (record s { m_kcp = some k }) k cnt name content pieces refl
          hr hs hn whole sizes some_bytes w in
    let o = read_loop server pid fuel (reads ps) (record s { m_kcp = some k }, cnt) in
    finished-HasFile server pid inbox outbox queues fuel s k content cnt o (
      subst (λ x. ReadsAgree server pid inbox outbox queues fuel x o) handled
        (read_loop-on_messages server pid inbox outbox queues fuel ps k k s cnt left refl delivers))
