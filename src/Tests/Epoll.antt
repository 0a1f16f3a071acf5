-- ===== src/Tests/Epoll.antt =====
-- The theorems on the server's event loop at concrete inputs.
use kcp_fake_tcp.Base.{
  ◌∙◌, ◌++◌, sym, subst, inr, map, ℕ, ◌≡◌, refl, List, [], ◌∷◌, true, false, some, inl,
}
use kcp_fake_tcp.Client.Outcome.{returned, Returns}
use kcp_fake_tcp.Server.Session.{Session, kcp_handle_client, start_kcp_server}
use kcp_fake_tcp.Server.Output.{SendResult}
use kcp_fake_tcp.Server.Epoll.{
  ServerEpoll, accept_failed, connection, server_epoll, create_thread, entry, store, on_accept,
  on_client, update_kcp, update_clients, unwatch, remove, update_session, emit,
}
use kcp_fake_tcp.Server.Epoll.Round.{HasBlock}
use kcp_fake_tcp.Server.Epoll.Start.{
  Event, EpollAnswer, wait_failed, ready, run_updates, handle_event, handle_events, epoll_loop,
  start_epoll, destroy,
}
use kcp_fake_tcp.Server.Epoll.Reach.{
  accepting, Reach, started, next, Sweeps, Closes, Reach-serves, Reach-Sweeps, Reach-hangs_up,
}
use kcp_fake_tcp.Server.Epoll.Batches.{Reports, start_epoll-Reach}
use kcp_fake_tcp.Server.Epoll.Cleanup.{destroy-twice}
use kcp_fake_tcp.Tests.Data.{Messages, log_kcp}

-- One connection has been accepted.
abbrev one_session : Session Messages
one_session = record {
  fd = 5;
  s_port = 9000;
  s_ip = "10.0.0.1";
  c_port = 4321;
  c_ip = "10.0.0.9";
  read_file = false;
  file = [];
  file_open = false;
  file_sended = 0;
  file_size = 0;
  file_path = [];
  m_kcp = some (log_kcp.nodelay 1 10 0 0 (log_kcp.wndsize 256 256 (log_kcp.create 4321)));
  stop_flag = false;
  wire = [];
}

abbrev one_client : ServerEpoll Messages
one_client = record {
  m_pid = 7;
  server_ip = "10.0.0.1";
  server_port = 9000;
  stop_flag = false;
  clients = (5, some one_session) ∷ [];
  file_count = 0;
  watched = 5 ∷ [];
  closed = [];
}

one_client-Reach : Reach log_kcp one_client
unfolding on_accept create_thread server_epoll kcp_handle_client start_kcp_server store
one_client-Reach =
    next (started 7 "10.0.0.1" 9000) (accepting (connection 5 "10.0.0.9" 4321 true true false) refl)

Reach-serves_example :
    (s : Session Messages) × (entry 5 one_client.clients ≡ some s)
    × (s.stop_flag ≡ false)
    × HasBlock 5 s
Reach-serves_example = Reach-serves 5 one_client-Reach (inl refl)

Reach-Sweeps_example : Sweeps one_client (update_kcp log_kcp 10 (λ fd. []) one_client)
Reach-Sweeps_example = Reach-Sweeps 10 (λ fd. []) one_client-Reach

Reach-hangs_up_example :
    (e' : ServerEpoll Messages) × (on_client log_kcp 3 5 true false [] one_client ≡ returned e')
    × ((clock : ℕ) (answers : ℕ → List (List SendResult))
        → Closes 5 e' (update_kcp log_kcp clock answers e'))
Reach-hangs_up_example = Reach-hangs_up 3 5 false [] one_client-Reach (inl refl)

-- A connection is accepted, and hangs up behind a round of `updateKcp`; then `epoll_wait` fails.
abbrev arrival : Event
arrival = record {
  updates = [];
  fd = 3;
  accepted = connection 5 "10.0.0.9" 4321 true true false;
  hup = false;
  readable = true;
  reads = [];
}

abbrev hang_up : Event
hang_up = record {
  updates = (10, λ fd. []) ∷ [];
  fd = 5;
  accepted = accept_failed;
  hup = true;
  readable = false;
  reads = [];
}

abbrev waits : List EpollAnswer
waits = ready (arrival ∷ []) ∷ ready (hang_up ∷ []) ∷ wait_failed ∷ []

-- Where `startEpoll` returns.
abbrev gone_client : ServerEpoll Messages
gone_client = record one_client {
  clients = (5, some (record one_session { stop_flag = true })) ∷ [];
  watched = [];
}

start_epoll-waits :
    start_epoll log_kcp 4 3 waits (server_epoll 7 "10.0.0.1" 9000) ≡ returned gone_client
unfolding start_epoll epoll_loop handle_events handle_event run_updates on_accept on_client
    update_kcp update_clients create_thread server_epoll kcp_handle_client start_kcp_server store
    entry unwatch remove update_session emit
start_epoll-waits = refl

arrival-events :
    handle_events log_kcp 4 3 (arrival ∷ []) (create_thread (server_epoll 7 "10.0.0.1" 9000))
    ≡ returned one_client
unfolding handle_events handle_event run_updates on_accept create_thread server_epoll
    kcp_handle_client start_kcp_server store
arrival-events = refl

waits-Reports : Reports log_kcp 4 3 waits (create_thread (server_epoll 7 "10.0.0.1" 9000))
unfolding create_thread server_epoll
waits-Reports = (
  (inl refl, tt, tt),
  λ e' h.
      let same : one_client ≡ e' = cc (sym arrival-events ∙ h) in
      subst (Reports log_kcp 4 3 (ready (hang_up ∷ []) ∷ wait_failed ∷ [])) same
        ((inr (inl refl), tt, tt), λ e'' h'. tt),
)

start_epoll-Reach_example :
    Returns (Reach log_kcp) (start_epoll log_kcp 4 3 waits (server_epoll 7 "10.0.0.1" 9000))
start_epoll-Reach_example = start_epoll-Reach log_kcp 4 3 waits 7 "10.0.0.1" 9000 waits-Reports

destroy-twice_example :
    destroy 3 one_client.clients
    ≡ map (λ c. c.0) one_client.clients ++ (map (λ c. c.0) one_client.clients ++ 3 ∷ [])
destroy-twice_example = destroy-twice 3 one_client-Reach
