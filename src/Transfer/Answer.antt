-- ===== src/Transfer/Answer.antt =====
-- The server's answer to a file: what `startEpoll` queues (code/kcp/server_epoll.cc), received by
-- `run_tcp_client` (code/kcp/kcp_client.cc).
use kcp_fake_tcp.Base.{
  ℕ, ◌≤◌, ◌<◌, ◌≡◌, ◌∙◌, sym, ap, String, List, [], ◌∷◌, ◌++◌, true, false, some, length, arith,
}
use kcp_fake_tcp.Kcp.{Kcp, Queues}
use kcp_fake_tcp.Client.Outcome.{returned, waiting, aborted}
use kcp_fake_tcp.Client.State.{Client}
use kcp_fake_tcp.Client.File.Laws.{Holds}
use kcp_fake_tcp.Client.Loop.{is_finish, recv_messages}
use kcp_fake_tcp.Client.Loop.Laws.{or_true, any_finish, recv_messages-Got}
use kcp_fake_tcp.Server.Session.{Session}
use kcp_fake_tcp.Server.Receive.{send_finish}
use kcp_fake_tcp.Server.Epoll.{read_loop}
use kcp_fake_tcp.Server.Epoll.Parts.{Part, reads, all_messages, Delivers}
use kcp_fake_tcp.Transfer.{queue_file}
use kcp_fake_tcp.Transfer.Parts.{queue_file-read_loop}

-- The loop over `ikcp_recv` on the server's answer.
recv_messages-answer :
    {K : Type 0} (kcp : Kcp K) (inbox outbox : K → List (List ℕ)) (queues : Queues kcp inbox outbox)
    (inet_addr : String → ℕ) (fuel limit : ℕ) (k : K) (c : Client K)
    → inbox k ≡ send_finish ∷ []
    → 11 ≤ limit
    → 1 < fuel
    → (k' : K) × (recv_messages kcp inet_addr fuel (some limit) k c
        ≡ returned (record c { m_kcp = some k'; finish_send = true }))
      × (inbox k' ≡ [])
      × (outbox k' ≡ outbox k)
unfolding any_finish is_finish
recv_messages-answer kcp inbox outbox queues inet_addr fuel limit k c e l f =
    let (k', result, left, kept) =
      recv_messages-Got kcp inbox outbox queues inet_addr fuel limit (send_finish ∷ []) k c
        (omega arith, omega (arith, l), tt) (omega (arith, f)) e in
    (
      k',
      result
          ∙ ap (λ b. returned (record c { m_kcp = some k'; finish_send = b }))
              (or_true c.finish_send),
      left,
      kept,
    )

-- A file that is neither empty nor of 4 GiB or more, under a name of at most 132 bytes, is queued by
-- the client and read by the server as in `queue_file-read_loop`, in a session whose block has
-- nothing to send; and KCP then brings what the session is to send to the client. Then the server
-- has exactly the file's bytes, closed, and the client's loop over `ikcp_recv`, asking for at least
-- 11 bytes and with at least two rounds, returns and has set `finishSend`, which `send_file` waits
-- for.
pub queue_file-answered :
    {K L : Type 0} (kcp : Kcp K) (sent : K → List (List ℕ))
    (appends : (bytes : List ℕ) (k : K) → sent (kcp.send bytes k) ≡ sent k ++ bytes ∷ [])
    (between : ℕ → Client K → Client K)
    (quiet : (n : ℕ) (ms : List (List ℕ)) (c : Client K)
      → Holds kcp sent appends ms c
      → Holds kcp sent appends ms (between n c))
    (name content : List ℕ) (c c' : Client K) (sender : K) (server : Kcp L)
    (inbox outbox : L → List (List ℕ)) (queues : Queues server inbox outbox) (pid fuel : ℕ)
    (s s' : Session L) (k k' : L) (cnt cnt' : ℕ) (ps : List Part) (coming going : K → List (List ℕ))
    (client_queues : Queues kcp coming going) (inet_addr : String → ℕ) (rounds limit : ℕ)
    (receiver : K) (d : Client K)
    → Holds kcp sent appends [] c
    → queue_file kcp between name content c ≡ returned c'
    → c'.m_kcp ≡ some sender
    → all_messages ps ≡ sent sender
    → inbox k ≡ []
    → outbox k ≡ []
    → Delivers server pid inbox outbox queues fuel ps (record s { m_kcp = some k }, cnt)
    → s.read_file ≡ false
    → s.file_sended ≡ 0
    → length name ≤ 132
    → 0 < length content
    → length content < 4294967296
    → read_loop server pid fuel (reads ps) (record s { m_kcp = some k }, cnt)
      ≡ returned ((s', cnt'), false)
    → s'.m_kcp ≡ some k'
    → coming receiver ≡ outbox k'
    → 11 ≤ limit
    → 1 < rounds
    → (s'.file ≡ content)
      × (s'.file_open ≡ false)
      × ((j : K) × (recv_messages kcp inet_addr rounds (some limit) receiver d
            ≡ returned (record d { m_kcp = some j; finish_send = true }))
          × (coming j ≡ [])
          × (going j ≡ going receiver))
queue_file-answered kcp sent appends between quiet name content c c' sender server inbox outbox
      queues pid fuel s s' k k' cnt cnt' ps coming going client_queues inet_addr rounds limit
      receiver d h queued block e left nothing delivers hr hs hn some_bytes w read block' brought l
      f =
    let (j, result, none_left, out) =
      queue_file-read_loop kcp sent appends between quiet name content c c' sender server inbox
        outbox queues pid fuel s k cnt ps h queued block e left delivers hr hs hn some_bytes w in
    let same = sym read ∙ result in
    let session = ap (λ o. elim o [ returned t ↦ t.0.0 | waiting t ↦ s' | aborted ↦ s' ]) same in
    let same_block : k' ≡ j = cc (sym block' ∙ ap (λ (x : Session _). x.m_kcp) session) in
    let answer : coming receiver ≡ send_finish ∷ [] =
      brought ∙ (ap outbox same_block ∙ (out ∙ ap (λ ms. ms ++ send_finish ∷ []) nothing)) in
    (
      ap (λ (x : Session _). x.file) session,
      ap (λ (x : Session _). x.file_open) session,
      recv_messages-answer kcp coming going client_queues inet_addr rounds limit receiver d answer l
          f,
    )
