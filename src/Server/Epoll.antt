-- ===== src/Server/Epoll.antt =====
-- `ServerEpoll` (code/kcp/server_epoll.h, code/kcp/server_epoll.cc): the map of sessions, the
-- events of `startEpoll` and a round of `updateKcp`, as steps of one state.
pub mod Laws
pub mod Update
pub mod Round
pub mod Reads
pub mod Invariant
pub mod Order
pub mod Steps
pub mod Reach
pub mod Start
pub mod Watches
pub mod Batches
pub mod Cleanup
pub mod Survival
pub mod Parts
pub mod Stuck
pub mod Short
pub mod Ends
use kcp_fake_tcp.Base.{
  ℕ, String, List, [], ◌∷◌, ◌++◌, Bool, true, false, ltb, ◌==◌, if◌then◌else◌, Option, none, some,
  take, length, u16,
}
use kcp_fake_tcp.Kcp.{Kcp}
use kcp_fake_tcp.Client.Outcome.{Outcome, returned, waiting, aborted}
use kcp_fake_tcp.Server.Session.{Session, kcp_handle_client, start_kcp_server, close}
use kcp_fake_tcp.Server.Output.{SendResult, tcp_server_send_cb}
use kcp_fake_tcp.Server.Receive.{send_finish, drain}

-- `std::map<int, std::shared_ptr<KcpHandleClient>>` in the order of its keys; a null pointer is
-- `none`.
abbrev pub Clients : Type 0 → Type 0
Clients K = List (ℕ × Option (Session K))

-- `file_count` is the variable `cnt` of `startEpoll`, an `std::atomic<int>` there, which would turn
-- negative behind 2^31 - 1 files in one process; here it goes on. `watched` and `closed` are not members: they
-- list the connections that the epoll instance watches, and the descriptors that were closed.
pub record ServerEpoll (K : Type 0) : Type 0 where
  pub m_pid : ℕ
  pub server_ip : String
  pub server_port : ℕ
  pub stop_flag : Bool
  pub clients : Clients K
  pub file_count : ℕ
  pub watched : List ℕ
  pub closed : List ℕ

-- The constructor, and then `create_thread`.
unfoldable pub server_epoll : {K : Type 0} → ℕ → String → ℕ → ServerEpoll K
server_epoll pid server_ip server_port = record {
  m_pid = pid;
  server_ip = server_ip;
  server_port = u16 server_port;
  stop_flag = true;
  clients = [];
  file_count = 0;
  watched = [];
  closed = [];
}

unfoldable pub create_thread : {K : Type 0} → ServerEpoll K → ServerEpoll K
create_thread e = record e { stop_flag = false }

-- What `clients[fd]` finds; a key that is not in the map gets a null pointer.
unfoldable pub entry : {K : Type 0} → ℕ → Clients K → Option (Session K)
entry fd [] = none
entry fd ((key, client) ∷ rest) = let found = entry fd rest in if key == fd then client else found

-- `clients[fd] = client`. Where the key has a session already, the source would also destroy that
-- session and with it close `fd`, unless a thread holds it still: `accept` does not return a
-- descriptor that is open, so this does not happen, and here the old session is only replaced.
unfoldable pub store : {K : Type 0} → ℕ → Option (Session K) → Clients K → Clients K
store fd client [] = (fd, client) ∷ []
store fd client ((key, old) ∷ rest) =
    let later = store fd client rest in
    if key == fd
    then (fd, client) ∷ rest
    else if ltb fd key
    then (fd, client) ∷ (key, old) ∷ rest
    else (key, old) ∷ later

-- The other descriptors.
unfoldable pub remove : ℕ → List ℕ → List ℕ
remove fd [] = []
remove fd (other ∷ rest) =
    let others = remove fd rest in if other == fd then others else other ∷ others

-- What `accept` answers: an error, or a descriptor with the address and port of the peer. The
-- Booleans say whether `setNonBlocking` and `epoll_ctl` succeed, and what the memory of `stopFlag`
-- held.
pub data Accepted : Type 0 where
  accept_failed : Accepted
  connection : ℕ → String → ℕ → Bool → Bool → Bool → Accepted

-- What one `read` answers: an error, or bytes, none at the end of the stream. The number is how
-- many bytes the kernel takes if a `send` follows.
pub data ReadResult : Type 0 where
  read_failed : ReadResult
  got : List ℕ → ℕ → ReadResult

module _ {K : Type 0} (kcp : Kcp K) where
  -- The event of the listening socket.
  unfoldable pub on_accept : Accepted → ServerEpoll K → Outcome (ServerEpoll K)
  unfolding kcp_handle_client start_kcp_server store
  on_accept accept_failed e = returned e
  on_accept (connection fd ip port nonblocking added leftover) e =
      let fresh_client = kcp_handle_client kcp fd e.server_port e.server_ip port ip leftover in
      let shut = record e { closed = e.closed ++ fd ∷ [] } in
      if nonblocking
      then if added
        then elim (start_kcp_server kcp fresh_client) [
          | aborted ↦ aborted
          | waiting s ↦ waiting e
          | returned s ↦
              returned
                (record e { clients = store fd (some s) e.clients; watched = e.watched ++ fd ∷ [] })
        ]
        else returned shut
      else returned shut

  -- The loop over `read` on a session; the `Bool` says that the stream has ended. Every message
  -- loop has `fuel` rounds.
  unfoldable pub read_loop :
      ℕ → ℕ → List ReadResult → Session K × ℕ → Outcome ((Session K × ℕ) × Bool)
  unfolding drain
  read_loop pid fuel [] (s, cnt) = waiting ((s, cnt), false)
  read_loop pid fuel (read_failed ∷ rs) (s, cnt) = returned ((s, cnt), false)
  read_loop pid fuel (got [] taken ∷ rs) (s, cnt) =
      returned ((record s { stop_flag = true }, cnt), true)
  read_loop pid fuel (got (b ∷ bs) taken ∷ rs) (s, cnt) =
      let bytes = take 2048 (b ∷ bs) in
      elim s.m_kcp [
        | none ↦ aborted
        | some k ↦
            let (k', accepted) = kcp.input (some bytes) k in
            let s' = record s { m_kcp = some k' } in
            elim accepted [
              | false ↦
                  read_loop pid fuel rs
                    (record s' { wire = s.wire ++ take taken send_finish ∷ [] }, cnt)
              | true ↦ elim (drain kcp pid fuel (length bytes) k' (s', cnt)) [
                | aborted ↦ aborted
                | waiting t ↦ waiting (t, false)
                | returned t ↦ read_loop pid fuel rs t
              ]
            ]
      ]

  -- The loop with a null pointer for the session.
  unfoldable pub null_read : List ReadResult → ServerEpoll K → Outcome (ServerEpoll K)
  null_read [] e = waiting e
  null_read (read_failed ∷ rs) e = returned e
  null_read (got bytes taken ∷ rs) e = aborted

  -- `EPOLL_CTL_DEL`.
  unfoldable pub unwatch : ℕ → ServerEpoll K → ServerEpoll K
  unfolding remove
  unwatch fd e = record e { watched = remove fd e.watched }

  -- What a finished loop over `read` leaves in the server.
  unfoldable pub after_reads : ℕ → ServerEpoll K → (Session K × ℕ) × Bool → ServerEpoll K
  unfolding store unwatch
  after_reads fd e ((s, cnt), ended) =
      let e' = record e { clients = store fd (some s) e.clients; file_count = cnt } in
      if ended then unwatch fd e' else e'

  -- The event of a connection: `EPOLLHUP`, `EPOLLIN` or neither.
  unfoldable pub on_client :
      ℕ → ℕ → Bool → Bool → List ReadResult → ServerEpoll K → Outcome (ServerEpoll K)
  unfolding entry store unwatch read_loop null_read after_reads
  on_client fuel fd hup readable rs e = elim (entry fd e.clients) [
    | none ↦
        let e' = record e { clients = store fd none e.clients } in
        if hup then aborted else if readable then null_read rs e' else returned e'
    | some s ↦
        if hup
        then returned (
            unwatch fd
              (record e { clients = store fd (some (record s { stop_flag = true })) e.clients }))
        else if readable
        then elim (read_loop e.m_pid fuel rs (s, e.file_count)) [
          | aborted ↦ aborted
          | waiting t ↦ waiting (after_reads fd e t)
          | returned t ↦ returned (after_reads fd e t)
        ]
        else returned e
  ]

  -- The buffers that `ikcp_update` hands to the output callback, with the answers to each one.
  unfoldable pub emit : List (List ℕ) → List (List SendResult) → Session K → Outcome (Session K)
  unfolding tcp_server_send_cb
  emit [] answers s = returned s
  emit (buffer ∷ buffers) [] s = waiting s
  emit (buffer ∷ buffers) (rs ∷ answers) s = elim (tcp_server_send_cb buffer (length buffer) rs s) [
    | aborted ↦ aborted
    | waiting t ↦ waiting t.0
    | returned t ↦ emit buffers answers t.0
  ]

  -- `ikcp_update` of one session.
  unfoldable pub update_session : ℕ → List (List SendResult) → Session K → Outcome (Session K)
  unfolding emit
  update_session clock answers s = elim s.m_kcp [
    | none ↦ aborted
    | some k ↦
        let (k', buffers) = kcp.update clock k in
        emit buffers answers (record s { m_kcp = some k' })
  ]

  -- The walk of `updateKcp` over the map: the sessions that are done, then those to come.
  unfoldable pub update_clients :
      ℕ
      → (ℕ → List (List SendResult))
      → Clients K
      → Clients K
      → List ℕ
      → Outcome (Clients K × List ℕ)
  unfolding update_session close
  update_clients clock answers done [] shut = returned (done, shut)
  update_clients clock answers done ((fd, none) ∷ rest) shut = aborted
  update_clients clock answers done ((fd, some s) ∷ rest) shut = elim s.stop_flag [
    | true ↦ update_clients clock answers done rest (shut ++ (close s).1)
    | false ↦ elim (update_session clock (answers fd) s) [
      | aborted ↦ aborted
      | waiting s' ↦ waiting (done ++ (fd, some s') ∷ rest, shut)
      | returned s' ↦ update_clients clock answers (done ++ (fd, some s') ∷ []) rest shut
    ]
  ]

  -- One round of `updateKcp`.
  unfoldable pub update_kcp :
      ℕ → (ℕ → List (List SendResult)) → ServerEpoll K → Outcome (ServerEpoll K)
  unfolding update_clients
  update_kcp clock answers e = elim (update_clients clock answers [] e.clients e.closed) [
    | aborted ↦ aborted
    | waiting (clients, closed) ↦ waiting (record e { clients = clients; closed = closed })
    | returned (clients, closed) ↦ returned (record e { clients = clients; closed = closed })
  ]
