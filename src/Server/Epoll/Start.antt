-- ===== src/Server/Epoll/Start.antt =====
-- The calls of `ServerEpoll` that set its descriptors up, the loop of `startEpoll` over
-- `epoll_wait`, and the destructor (code/kcp/server_epoll.cc).
use kcp_fake_tcp.Base.{
  ℕ, ◌+◌, ◌/◌, ◌%◌, List, [], ◌∷◌, ◌++◌, Bool, false, ◌==◌, if◌then◌else◌, Option, none, some, map,
}
use kcp_fake_tcp.Kcp.{Kcp}
use kcp_fake_tcp.Client.Outcome.{Outcome, returned, waiting, ◌>>=◌}
use kcp_fake_tcp.Sockets.{
  any_addr, sock_stream, so_reuseaddr, so_reuseport, Call, socket, setsockopt, bind, listen,
  get_flags, set_flags, epoll_create, epoll_add, close,
}
use kcp_fake_tcp.Server.Session
use kcp_fake_tcp.Server.Output.{SendResult}
use kcp_fake_tcp.Server.Epoll.{
  Clients, ServerEpoll, Accepted, ReadResult, create_thread, on_accept, on_client, update_kcp,
}

-- `flags | O_NONBLOCK`.
unfoldable pub with_nonblock : ℕ → ℕ
with_nonblock flags = if flags / 2048 % 2 == 1 then flags else flags + 2048

-- `setNonBlocking`, on the flags that the descriptor has and whether new ones are accepted; the
-- `Bool` says whether it returns 0.
unfoldable pub set_non_blocking : ℕ → Option ℕ → Bool → Bool × List Call
unfolding with_nonblock
set_non_blocking fd none accepted = (false, get_flags fd ∷ [])
set_non_blocking fd (some flags) accepted =
    (accepted, get_flags fd ∷ set_flags fd (with_nonblock flags) ∷ [])

-- What a step of the set-up came to: it returned, -1 or 0, or it ended the process.
pub data Setup : Type 0 where
  failed : Setup
  done : Setup
  exited : Setup

-- `startServer`, with the descriptor that `listen_sock` then holds: on the socket that it gets,
-- whether `SO_REUSEPORT` is accepted and whether `bind` succeeds. What `listen` answers is not
-- looked at.
unfoldable pub start_listening : ℕ → Option ℕ → Bool → Bool → Setup × List Call
unfolding any_addr
start_listening port none shared bound = (failed, socket sock_stream none ∷ [])
start_listening port (some sock) shared bound =
    let opened =
      socket sock_stream (some sock)
      ∷ setsockopt sock so_reuseaddr
      ∷ setsockopt sock so_reuseport
      ∷ [] in
    if shared
    then if bound
      then (done, opened ++ bind sock (any_addr port) ∷ listen sock 4096 ∷ [])
      else (failed, opened ++ bind sock (any_addr port) ∷ [])
    else (exited, opened)

-- The first part of `startEpoll`, on the descriptor that it gets and whether the listening socket
-- is taken into it.
unfoldable pub start_watching : ℕ → Option ℕ → Bool → Setup × List Call
start_watching listen_sock none added = (exited, epoll_create none ∷ close listen_sock ∷ [])
start_watching listen_sock (some epoll_fd) added =
    let calls = epoll_create (some epoll_fd) ∷ epoll_add epoll_fd listen_sock ∷ [] in
    if added then (done, calls) else (exited, calls ++ close listen_sock ∷ close epoll_fd ∷ [])

-- A round of `updateKcp`: its clock and the answers to its `send`s.
abbrev pub UpdateRound : Type 0
UpdateRound = ℕ × (ℕ → List (List SendResult))

-- One event of `epoll_wait`: its descriptor; what `accept` answers, if it is the listening socket;
-- `EPOLLHUP`, `EPOLLIN` and the answers of `read`, if it is not. `updates` are the rounds of the
-- other thread that come before it.
pub record Event : Type 0 where
  pub updates : List UpdateRound
  pub fd : ℕ
  pub accepted : Accepted
  pub hup : Bool
  pub readable : Bool
  pub reads : List ReadResult

-- What `epoll_wait` answers.
pub data EpollAnswer : Type 0 where
  wait_failed : EpollAnswer
  ready : List Event → EpollAnswer

module _ {K : Type 0} (kcp : Kcp K) (fuel : ℕ) (listen_sock : ℕ) where
  unfoldable pub run_updates : List UpdateRound → ServerEpoll K → Outcome (ServerEpoll K)
  unfolding update_kcp
  run_updates [] e = returned e
  run_updates ((clock, answers) ∷ updates) e =
      update_kcp kcp clock answers e >>= run_updates updates

  -- The body of the loop over the events.
  unfoldable pub handle_event : Event → ServerEpoll K → Outcome (ServerEpoll K)
  unfolding on_accept on_client
  handle_event ev e =
      if ev.fd == listen_sock
      then on_accept kcp ev.accepted e
      else on_client kcp fuel ev.fd ev.hup ev.readable ev.reads e

  unfoldable pub handle_events : List Event → ServerEpoll K → Outcome (ServerEpoll K)
  unfolding run_updates handle_event
  handle_events [] e = returned e
  handle_events (ev ∷ evs) e = run_updates ev.updates e >>= handle_event ev >>= handle_events evs

  -- The loop over `epoll_wait`.
  unfoldable pub epoll_loop : List EpollAnswer → ServerEpoll K → Outcome (ServerEpoll K)
  unfolding handle_events
  epoll_loop [] e = waiting e
  epoll_loop (wait_failed ∷ waits) e = returned e
  epoll_loop (ready evs ∷ waits) e = handle_events evs e >>= epoll_loop waits

  -- `startEpoll` behind its set-up.
  unfoldable pub start_epoll : List EpollAnswer → ServerEpoll K → Outcome (ServerEpoll K)
  unfolding create_thread epoll_loop
  start_epoll waits e = epoll_loop waits (create_thread e)

-- `clients.clear()` ends the life of each session, whose destructor calls `Close`: the descriptors
-- that this closes, in the order of the keys.
unfoldable pub close_sessions : {K : Type 0} → Clients K → List ℕ
unfolding Session.close
close_sessions [] = []
close_sessions ((key, none) ∷ rest) = close_sessions rest
close_sessions ((key, some s) ∷ rest) = (Session.close s).1 ++ close_sessions rest

-- The destructor: the descriptors that it closes.
unfoldable pub destroy : {K : Type 0} → ℕ → Clients K → List ℕ
unfolding close_sessions
destroy listen_sock clients = map (λ c. c.0) clients ++ (close_sessions clients ++ listen_sock ∷ [])
