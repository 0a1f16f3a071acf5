-- ===== src/Tests/Data.antt =====
-- A client, a server's segments and a KCP library for the tests: its control block is the list of
-- the messages that it was given.
use kcp_fake_tcp.Base.{
  ℕ, String, List, [], ◌∷◌, ◌++◌, true, false, none, some, ◌≡◌, refl, length, replicate,
}
use kcp_fake_tcp.Kcp.{Kcp}
use kcp_fake_tcp.Client.State.{Client, kcp_client, tcp_closed, tcp_established}
use kcp_fake_tcp.Server.Session.{Session}

abbrev pub Messages : Type 0
Messages = List (List ℕ)

abbrev pub log_kcp : Kcp Messages
log_kcp = record {
  create = λ conv. [];
  wndsize = λ snd rcv k. k;
  nodelay = λ nodelay interval resend nc k. k;
  update = λ clock k. (k, []);
  input = λ bytes k. (k, true);
  recv = λ limit k. (k, none);
  send = λ bytes k. k ++ bytes ∷ [];
  waitsnd = λ k. length k;
}

abbrev pub address : String → ℕ
address s = 16777343

abbrev pub closed_client : Client Messages
closed_client = record {
  fd = 5;
  ip_id = 1231;
  c_port = 4242;
  s_port = 6666;
  c_ip = "127.0.0.1";
  s_ip = "127.0.0.1";
  file_path = "/tmp/a.txt";
  s_state = tcp_closed;
  read_file = false;
  finish_file = false;
  finish_loop = false;
  m_kcp = some [];
  seq = 7;
  server_ack_seq = 0;
  client_sum_send = 0;
  stop_flag = false;
  finish_send = false;
  wire = [];
}

-- The constructor makes that client.
closed_client-kcp_client :
    kcp_client 5 4242 6666 "127.0.0.1" "127.0.0.1" "/tmp/a.txt" 7 [] false ≡ closed_client
unfolding kcp_client
closed_client-kcp_client = refl

abbrev pub open_client : Client Messages
open_client = record closed_client { s_state = tcp_established; seq = 8; server_ack_seq = 1001 }

-- A segment from port 6666 to `port` (its low byte; the high byte is 16) with the sequence number
-- 1000, an acknowledgement number below 256, and the byte of flags.
abbrev pub segment : ℕ → ℕ → ℕ → List ℕ
segment port acked flags =
    69 ∷ replicate 19 0
    ++ 26 ∷ 10 ∷ 16 ∷ port ∷ 0 ∷ 0 ∷ 3 ∷ 232 ∷ 0 ∷ 0 ∷ 0 ∷ acked ∷ 80 ∷ flags ∷ 0 ∷ 0 ∷ 0 ∷ 0 ∷ 0
      ∷ 0 ∷ []

-- A session that has just been accepted.
abbrev pub fresh_session : Session Messages
fresh_session = record {
  fd = 9;
  s_port = 6666;
  s_ip = "127.0.0.1";
  c_port = 4242;
  c_ip = "127.0.0.1";
  read_file = false;
  file = [];
  file_open = false;
  file_sended = 0;
  file_size = 0;
  file_path = [];
  m_kcp = some [];
  stop_flag = false;
  wire = [];
}
