-- ===== src/Tests/Survival.antt =====
-- A session in the middle of a file, and what it survives.
use kcp_fake_tcp.Base.{
  arith, ntohl, ℕ, ◌≡◌, refl, List, [], ◌∷◌, ◌++◌, Bool, true, false, Option, none, some, inl,
}
use kcp_fake_tcp.Kcp.{Kcp}
use kcp_fake_tcp.Client.Outcome.{returned, aborted}
use kcp_fake_tcp.Client.File.{file_header}
use kcp_fake_tcp.Server.Session.{Session, kcp_handle_client, start_kcp_server}
use kcp_fake_tcp.Server.Receive.{path_for, drain, on_message, open_file}
use kcp_fake_tcp.Server.Epoll.{
  ServerEpoll, connection, read_failed, got, server_epoll, create_thread, entry, store, on_accept,
  on_client, read_loop, after_reads,
}
use kcp_fake_tcp.Server.Epoll.Reach.{Reach, started, next, accepting, serving}
use kcp_fake_tcp.Server.Epoll.Short.{on_client-aborts}
use kcp_fake_tcp.Server.Epoll.Survival.{GoesOn, Reach-GoesOn}
use kcp_fake_tcp.Tests.Post.{Post, post_kcp, post_session}

-- What comes in is a message at once.
abbrev pub arrive : Option (List ℕ) → Post → Post × Bool
arrive none k = (k, false)
arrive (some m) k = ((k.0 ++ m ∷ [], k.1), true)

abbrev pub direct_kcp : Kcp Post
direct_kcp = record post_kcp { input = arrive }

abbrev header : List ℕ
header = file_header (97 ∷ []) 3

-- The connection 9 has been accepted, and then its header has come in.
abbrev accepted_server : ServerEpoll Post
accepted_server = record {
  m_pid = 7;
  server_ip = "127.0.0.1";
  server_port = 6666;
  stop_flag = false;
  clients = (9, some post_session) ∷ [];
  file_count = 0;
  watched = 9 ∷ [];
  closed = [];
}

abbrev open_session : Session Post
open_session = record post_session {
  read_file = true;
  file_open = true;
  file_size = 3;
  file_path = path_for 7 0;
}

abbrev open_server : ServerEpoll Post
open_server = record accepted_server { clients = (9, some open_session) ∷ []; file_count = 1 }

accepted_server-Reach : Reach direct_kcp accepted_server
unfolding on_accept create_thread server_epoll kcp_handle_client start_kcp_server store
accepted_server-Reach =
    next (started 7 "127.0.0.1" 6666)
      (accepting (connection 9 "127.0.0.1" 4242 true true false) refl)

header-on_client :
    on_client direct_kcp 3 9 false true (got header 0 ∷ read_failed ∷ []) accepted_server
    ≡ returned open_server
unfolding on_client entry store read_loop after_reads drain on_message open_file file_header
    path_for ntohl
header-on_client = refl

open_server-Reach : Reach direct_kcp open_server
open_server-Reach =
    next accepted_server-Reach
      (serving 3 9 false true (got header 0 ∷ read_failed ∷ []) (inl refl) header-on_client)

open_session-entry : entry 9 open_server.clients ≡ some open_session
unfolding entry
open_session-entry = refl

Reach-GoesOn_example :
    GoesOn (on_client direct_kcp 3 9 false true (got (1 ∷ 2 ∷ []) 0 ∷ read_failed ∷ []) open_server)
Reach-GoesOn_example =
    Reach-GoesOn direct_kcp 3 9 false true (got (1 ∷ 2 ∷ []) 0 ∷ read_failed ∷ []) open_session
      open_server-Reach (inl refl) open_session-entry refl

accepted_session-entry : entry 9 accepted_server.clients ≡ some post_session
unfolding entry
accepted_session-entry = refl

-- A first message of two bytes.
on_client-aborts_example :
    on_client direct_kcp 3 9 false true (got (1 ∷ 2 ∷ []) 0 ∷ []) accepted_server ≡ aborted
on_client-aborts_example =
    on_client-aborts direct_kcp 2 9 (1 ∷ 2 ∷ []) 0 [] accepted_server post_session ([], [])
      ((1 ∷ 2 ∷ []) ∷ [], []) ([], []) (1 ∷ 2 ∷ []) accepted_session-entry refl refl (omega arith)
      (omega arith) refl refl (omega arith) (omega arith)
