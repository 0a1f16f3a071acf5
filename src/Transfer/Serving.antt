-- ===== src/Transfer/Serving.antt =====
-- A connection of the server from `accept` to the whole file (code/kcp/server_epoll.cc), for a file
-- that `send_file` has queued (code/kcp/kcp_client.cc).
use kcp_fake_tcp.Base.{
  ℕ, ◌+◌, ◌≤◌, ◌<◌, ◌≡◌, ◌≢◌, ◌∙◌, refl, ap, String, List, [], ◌∷◌, ◌++◌, Bool, true, false, ◌==◌,
  if◌then◌else◌, some, u16, length, arith,
}
use kcp_fake_tcp.Kcp.{Kcp, Queues}
use kcp_fake_tcp.Client.Outcome.{returned}
use kcp_fake_tcp.Client.State.{Client}
use kcp_fake_tcp.Client.File.Laws.{Holds}
use kcp_fake_tcp.Server.Session.{Session, kcp_handle_client, start_kcp_server}
use kcp_fake_tcp.Server.Receive.{send_finish, path_for}
use kcp_fake_tcp.Server.Epoll.{
  Clients, ServerEpoll, connection, entry, store, on_accept, after_reads, on_client, read_loop,
}
use kcp_fake_tcp.Server.Epoll.Laws.{entry-store, entry-store-same}
use kcp_fake_tcp.Server.Epoll.Parts.{Part, reads, all_messages, Delivers}
use kcp_fake_tcp.Transfer.{queue_file}
use kcp_fake_tcp.Transfer.Parts.{HasFile, queue_file-read_loop}

module _ {L : Type 0} (server : Kcp L) where
  -- The block that `start_kcp_server` leaves to a client from `port`.
  abbrev pub fresh_block : ℕ → L
  fresh_block port = server.nodelay 1 10 0 0 (server.wndsize 256 256 (server.create (u16 port)))

  -- The session of an accepted connection.
  abbrev pub accepted_session : ServerEpoll L → ℕ → String → ℕ → Session L
  accepted_session e fd ip port =
      record (kcp_handle_client server fd e.server_port e.server_ip port ip false) {
        m_kcp = some (fresh_block port);
      }

  -- The server behind the acceptance.
  abbrev accepting : ServerEpoll L → ℕ → String → ℕ → ServerEpoll L
  accepting e fd ip port = record e {
    clients = store fd (some (accepted_session e fd ip port)) e.clients;
    watched = e.watched ++ fd ∷ [];
  }

  accepts :
      (e : ServerEpoll L) (fd : ℕ) (ip : String) (port : ℕ) (leftover : Bool)
      → fd ≢ 0
      → on_accept server (connection fd ip port true true leftover) e
        ≡ returned (accepting e fd ip port)
  unfolding on_accept kcp_handle_client start_kcp_server
  accepts e fd ip port leftover positive = let t : (fd == 0) ≡ false = ground arith in rw t refl

  reads_session :
      (fuel fd : ℕ) (ps : List Part) (e : ServerEpoll L) (s : Session L)
      (t : (Session L × ℕ) × Bool)
      → entry fd e.clients ≡ some s
      → read_loop server e.m_pid fuel (reads ps) (s, e.file_count) ≡ returned t
      → on_client server fuel fd false true (reads ps) e ≡ returned (after_reads server fd e t)
  unfolding on_client
  reads_session fuel fd ps e s t found result = rw (found, on_client) (rw result refl)

  -- From the server `e` to `e'` a connection `fd` from `port` has come and brought the file: its
  -- session has exactly the file's bytes, under a path of its own, closed, and is to send
  -- "send_finish" once; the count of files is one higher, the connection is watched, and the other
  -- sessions are as they were.
  pub record Serves (outbox : L → List (List ℕ)) (fd port : ℕ) (content : List ℕ)
      (e e' : ServerEpoll L) : Type 0 where
    pub session : Session L
    pub block : L
    pub found : entry fd e'.clients ≡ some session
    pub has_block : session.m_kcp ≡ some block
    pub whole : session.file ≡ content
    pub is_closed : session.file_open ≡ false
    pub path : session.file_path ≡ path_for e.m_pid e.file_count
    pub answers : outbox block ≡ outbox (fresh_block port) ++ send_finish ∷ []
    pub counted : e'.file_count ≡ e.file_count + 1
    pub watched : e'.watched ≡ e.watched ++ fd ∷ []
    pub others : (other : ℕ) → other ≢ fd → entry other e'.clients ≡ entry other e.clients

  entry-store-other :
      (fd other : ℕ) (s : Session L) (clients : Clients L)
      → other ≢ fd
      → entry other (store fd (some s) clients) ≡ entry other clients
  entry-store-other fd other s clients differs =
      let t : (fd == other) ≡ false = ground arith in
      entry-store fd other (some s) clients ∙ ap (λ b. if b then some s else entry other clients) t

  reads-Serves :
      (inbox outbox : L → List (List ℕ)) (queues : Queues server inbox outbox) (e : ServerEpoll L)
      (fd port fuel : ℕ) (ip : String) (content : List ℕ) (ps : List Part)
      → HasFile server e.m_pid inbox outbox queues fuel
          (accepted_session e fd ip port)
          (fresh_block port)
          content
          e.file_count
          (read_loop server e.m_pid fuel (reads ps) (accepted_session e fd ip port, e.file_count))
      → (e' : ServerEpoll L) × (on_client server fuel fd false true
            (reads ps)
            (accepting e fd ip port)
          ≡ returned e')
        × Serves outbox fd port content e e'
  unfolding after_reads
  reads-Serves inbox outbox queues e fd port fuel ip content ps (k', result, left, out) =
      let s = accepted_session e fd ip port in
      let e1 = accepting e fd ip port in
      (
        _,
        reads_session fuel fd ps e1 s _ (entry-store-same fd (some s) e.clients) result,
        record {
          session = _;
          block = k';
          found = entry-store-same fd _ e1.clients;
          has_block = refl;
          whole = refl;
          is_closed = refl;
          path = refl;
          answers = out;
          counted = refl;
          watched = refl;
          others = λ other differs.
              entry-store-other fd other _ e1.clients differs
              ∙ entry-store-other fd other s e.clients differs;
        },
      )

  -- A file that is neither empty nor of 4 GiB or more, under a name of at most 132 bytes, that the
  -- client has queued as in `queue_file-read_loop`. The server accepts a connection, whose
  -- descriptor is not 0, and its next event there reads in any number of parts of which KCP makes
  -- the client's messages. Then both events are dealt with to the end, and the server has the file:
  -- the session has exactly its bytes, under a path of its own, closed, and is to send "send_finish"
  -- once; the count of files is one higher, the connection is watched, and the sessions of other
  -- descriptors are as they were.
  pub queue_file-Serves :
      {K : Type 0} (kcp : Kcp K) (sent : K → List (List ℕ))
      (appends : (bytes : List ℕ) (k : K) → sent (kcp.send bytes k) ≡ sent k ++ bytes ∷ [])
      (between : ℕ → Client K → Client K)
      (quiet : (n : ℕ) (ms : List (List ℕ)) (c : Client K)
        → Holds kcp sent appends ms c
        → Holds kcp sent appends ms (between n c))
      (name content : List ℕ) (c c' : Client K) (sender : K) (inbox outbox : L → List (List ℕ))
      (queues : Queues server inbox outbox) (e : ServerEpoll L) (fd port fuel : ℕ) (ip : String)
      (leftover : Bool) (ps : List Part)
      → Holds kcp sent appends [] c
      → queue_file kcp between name content c ≡ returned c'
      → c'.m_kcp ≡ some sender
      → all_messages ps ≡ sent sender
      → inbox (fresh_block port) ≡ []
      → Delivers server e.m_pid inbox outbox queues fuel ps
          (accepted_session e fd ip port, e.file_count)
      → fd ≢ 0
      → length name ≤ 132
      → 0 < length content
      → length content < 4294967296
      → (e1 : ServerEpoll L) × (e2 : ServerEpoll L) × (on_accept server
            (connection fd ip port true true leftover)
            e
          ≡ returned e1)
        × (on_client server fuel fd false true (reads ps) e1 ≡ returned e2)
        × Serves outbox fd port content e e2
  unfolding kcp_handle_client
  queue_file-Serves kcp sent appends between quiet name content c c' sender inbox outbox queues e fd
        port fuel ip leftover ps h queued block given left delivers positive hn some_bytes w =
      let (e2, result, serves) = reads-Serves inbox outbox queues e fd port fuel ip content ps (
        queue_file-read_loop kcp sent appends between quiet name content c c' sender server inbox
          outbox queues e.m_pid fuel (accepted_session e fd ip port) (fresh_block port) e.file_count
          ps h queued block given left delivers refl refl hn some_bytes w) in
      (accepting e fd ip port, e2, accepts e fd ip port leftover positive, result, serves)
