-- ===== src/Tests/Parts.antt =====
-- The theorems on a file that is read in two parts at a concrete input.
use kcp_fake_tcp.Base.{
  ℕ, ◌≡◌, ◌∙◌, refl, sym, subst, ntohl, List, [], ◌∷◌, true, false, some, arith,
}
use kcp_fake_tcp.Kcp.{Queues}
use kcp_fake_tcp.Client.Outcome.{returned}
use kcp_fake_tcp.Client.State.{Client}
use kcp_fake_tcp.Client.File.{file_header, queue, send_pieces}
use kcp_fake_tcp.Client.Loop.{recv_messages}
use kcp_fake_tcp.Server.Session.{Session, kcp_handle_client}
use kcp_fake_tcp.Server.Receive.{send_finish, path_for, drain, open_file}
use kcp_fake_tcp.Server.Receive.Laws.{on_messages}
use kcp_fake_tcp.Server.Epoll.{ServerEpoll, connection, read_loop, on_accept, on_client}
use kcp_fake_tcp.Server.Epoll.Parts.{
  Part, reads, all_messages, Delivers, ReadsAgree, read_loop-on_messages,
}
use kcp_fake_tcp.Transfer.{queue_file}
use kcp_fake_tcp.Transfer.Parts.{HasFile, queue_file-read_loop}
use kcp_fake_tcp.Transfer.Answer.{queue_file-answered}
use kcp_fake_tcp.Transfer.Serving.{accepted_session, Serves, queue_file-Serves}
use kcp_fake_tcp.Tests.Data.{address, log_kcp, open_client}
use kcp_fake_tcp.Tests.Post.{Post, post_kcp, post_kcp-Queues, post_session, post_client}
use kcp_fake_tcp.Tests.Survival.{direct_kcp}
use kcp_fake_tcp.Tests.Transfer.{
  name, content, given, appended, alone, alone-Holds, nothing_yet, queued, queued_client,
  queue_file-queued,
}

abbrev coming : Post → List (List ℕ)
coming k = k.0

abbrev going : Post → List (List ℕ)
going k = k.1

direct_kcp-Queues : Queues direct_kcp coming going
direct_kcp-Queues = record {
  recv_none = post_kcp-Queues.recv_none;
  recv_some = post_kcp-Queues.recv_some;
  send_in = post_kcp-Queues.send_in;
  send_out = post_kcp-Queues.send_out;
}

abbrev header : List ℕ
header = file_header name 5

-- The header and the file come in one after the other.
abbrev two_parts : List Part
two_parts =
    record { bytes = header; taken = 0; messages = header ∷ [] }
    ∷ record { bytes = content; taken = 0; messages = content ∷ [] }
    ∷ []

abbrev empty_session : Session Post
empty_session = record post_session { m_kcp = some ([], []) }

abbrev opened : Session Post
opened = open_file direct_kcp 7 0 header empty_session

first_drain :
    drain direct_kcp 7 3 136
      (header ∷ [], [])
      (record post_session { m_kcp = some (header ∷ [], []) }, 0)
    ≡ returned (opened, 1)
unfolding drain file_header
first_drain = refl

opened_block : opened.m_kcp ≡ some ([], [])
unfolding open_file
opened_block = refl

second_part :
    Delivers direct_kcp 7 coming going direct_kcp-Queues 3
      (record { bytes = content; taken = 0; messages = content ∷ [] } ∷ [])
      (opened, 1)
second_part = (
  ([], []),
  (content ∷ [], []),
  opened_block,
  refl,
  refl,
  refl,
  omega arith,
  omega arith,
  (omega arith, omega arith, tt),
  omega arith,
  λ t e. tt,
)

delivers : Delivers direct_kcp 7 coming going direct_kcp-Queues 3 two_parts (empty_session, 0)
unfolding file_header
delivers = (
  ([], []),
  (header ∷ [], []),
  refl,
  refl,
  refl,
  refl,
  omega arith,
  omega arith,
  (omega arith, omega arith, tt),
  omega arith,
  λ t e.
      let same : (opened, 1) ≡ t = cc (sym first_drain ∙ e) in
      subst
        (Delivers direct_kcp 7 coming going direct_kcp-Queues 3
          (record { bytes = content; taken = 0; messages = content ∷ [] } ∷ []))
        same second_part,
)

queue_file-read_loop_example :
    HasFile direct_kcp 7 coming going direct_kcp-Queues 3 post_session
      ([], [])
      content
      0
      (read_loop direct_kcp 7 3 (reads two_parts) (empty_session, 0))
queue_file-read_loop_example =
    queue_file-read_loop log_kcp given appended alone alone-Holds name content open_client
      queued_client queued direct_kcp coming going direct_kcp-Queues 7 3 post_session ([], []) 0
      two_parts nothing_yet queue_file-queued refl refl refl delivers refl refl (omega arith)
      (omega arith) (omega arith)

read_loop-on_messages_example :
    ReadsAgree direct_kcp 7 coming going direct_kcp-Queues 3
      (on_messages direct_kcp 7 (all_messages two_parts) (empty_session, 0))
      (read_loop direct_kcp 7 3 (reads two_parts) (empty_session, 0))
read_loop-on_messages_example =
    read_loop-on_messages direct_kcp 7 coming going direct_kcp-Queues 3 two_parts ([], []) ([], [])
      post_session 0 refl refl delivers

-- The session that has the file, and its block.
abbrev answering : Session Post
answering = record post_session {
  read_file = true;
  file = content;
  file_sended = 5;
  file_size = 5;
  file_path = path_for 7 0;
  m_kcp = some ([], send_finish ∷ []);
}

read_whole :
    read_loop direct_kcp 7 3 (reads two_parts) (empty_session, 0) ≡ returned ((answering, 1), false)
unfolding read_loop file_header ntohl
read_whole = refl

abbrev queued_post : Client Post
queued_post = record post_client { m_kcp = some ([], queued) }

queued_result : queue_file post_kcp (λ n c. c) name content post_client ≡ returned queued_post
unfolding queue send_pieces
queued_result = refl

queue_file-answered_example :
    (answering.file ≡ content)
    × (answering.file_open ≡ false)
    × ((j : Post) × (recv_messages post_kcp address 2 (some 24) (send_finish ∷ [], []) post_client
          ≡ returned (record post_client { m_kcp = some j; finish_send = true }))
        × (j.0 ≡ [])
        × (j.1 ≡ []))
queue_file-answered_example =
    queue_file-answered post_kcp going (λ bytes k. refl) (λ n c. c) (λ n ms c h. h) name content
      post_client queued_post ([], queued) direct_kcp coming going direct_kcp-Queues 7 3
      post_session answering ([], []) ([], send_finish ∷ []) 0 1 two_parts coming going
      post_kcp-Queues address 2 24 (send_finish ∷ [], []) post_client
      (record { block = ([], []); has_block = refl; given = refl }) queued_result refl refl refl
      refl delivers refl refl (omega arith) (omega arith) (omega arith) read_whole refl refl
      (omega arith) (omega arith)

-- A server without connections.
abbrev idle_server : ServerEpoll Post
idle_server = record {
  m_pid = 7;
  server_ip = "127.0.0.1";
  server_port = 6666;
  stop_flag = false;
  clients = [];
  file_count = 0;
  watched = [];
  closed = [];
}

Delivers-accepted :
    Delivers direct_kcp 7 coming going direct_kcp-Queues 3 two_parts
      (accepted_session direct_kcp idle_server 9 "127.0.0.1" 4242, 0)
unfolding kcp_handle_client
Delivers-accepted = delivers

queue_file-Serves_example :
    (e1 : ServerEpoll Post) × (e2 : ServerEpoll Post) × (on_accept direct_kcp
        (connection 9 "127.0.0.1" 4242 true true true)
        idle_server
      ≡ returned e1)
    × (on_client direct_kcp 3 9 false true (reads two_parts) e1 ≡ returned e2)
    × Serves direct_kcp going 9 4242 content idle_server e2
queue_file-Serves_example =
    queue_file-Serves direct_kcp log_kcp given appended alone alone-Holds name content open_client
      queued_client queued coming going direct_kcp-Queues idle_server 9 4242 3 "127.0.0.1" true
      two_parts nothing_yet queue_file-queued refl refl refl Delivers-accepted (omega arith)
      (omega arith) (omega arith) (omega arith)
