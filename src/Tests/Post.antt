-- ===== src/Tests/Post.antt =====
-- A KCP library for the tests whose block holds two queues, and a session and a client on it.
use kcp_fake_tcp.Base.{
  ℕ, ◌≡◌, ◌≤◌, refl, ap, List, [], ◌∷◌, ◌++◌, true, false, Option, none, some, length, leb,
  if◌then◌else◌, arith,
}
use kcp_fake_tcp.Kcp.{Kcp, Queues}
use kcp_fake_tcp.Client.State.{Client, tcp_established}
use kcp_fake_tcp.Server.Session.{Session}
use kcp_fake_tcp.Tests.Data.{Messages}

-- A library whose block holds the messages that have come in and those that are to go out.
abbrev pub recv_first : ℕ → Messages × Messages → (Messages × Messages) × Option (List ℕ)
recv_first limit ([], out) = (([], out), none)
recv_first limit (m ∷ ms, out) =
    if leb (length m) limit then ((ms, out), some m) else ((m ∷ ms, out), none)

abbrev pub post_kcp : Kcp (Messages × Messages)
post_kcp = record {
  create = λ conv. ([], []);
  wndsize = λ snd rcv k. k;
  nodelay = λ nodelay interval resend nc k. k;
  update = λ clock k. (k, []);
  input = λ bytes k. (k, true);
  recv = λ limit k. elim limit [ none ↦ (k, none) | some n ↦ recv_first n k ];
  send = λ bytes k. (k.0, k.1 ++ bytes ∷ []);
  waitsnd = λ k. length k.1;
}

recv_first-none :
    (limit : ℕ) (k : Messages × Messages)
    → k.0 ≡ []
    → (k' : Messages × Messages) × (recv_first limit k ≡ (k', none)) × (k'.0 ≡ []) × (k'.1 ≡ k.1)
recv_first-none limit ([], out) e = (([], out), refl, refl, refl)
recv_first-none limit (m ∷ ms, out) e = absurd (omega (arith, ap length e))

recv_first-some :
    (limit : ℕ) (k : Messages × Messages) (m : List ℕ) (ms : Messages)
    → k.0 ≡ m ∷ ms
    → length m ≤ limit
    → (k' : Messages × Messages) × (recv_first limit k ≡ (k', some m)) × (k'.0 ≡ ms) × (k'.1 ≡ k.1)
recv_first-some limit ([], out) m ms e h = absurd (omega (arith, ap length e))
recv_first-some limit (m' ∷ ms', out) m ms e h =
    let same : m' ≡ m = cc e in
    let sized : length m' ≤ limit = rw same h in
    let fits : leb (length m') limit ≡ true = ground arith in
    ((ms', out), rw (fits, same) refl, cc e, refl)

pub post_kcp-Queues : Queues post_kcp (λ k. k.0) (λ k. k.1)
post_kcp-Queues = record {
  recv_none = recv_first-none;
  recv_some = recv_first-some;
  send_in = λ bytes k. refl;
  send_out = λ bytes k. refl;
}

abbrev pub Post : Type 0
Post = Messages × Messages

abbrev pub post_session : Session Post
post_session = record {
  fd = 9;
  s_port = 6666;
  s_ip = "127.0.0.1";
  c_port = 4242;
  c_ip = "127.0.0.1";
  read_file = false;
  file = [];
  file_open = false;
  file_sended = 0;
  file_size = 0;
  file_path = [];
  m_kcp = some ([], []);
  stop_flag = false;
  wire = [];
}

abbrev pub post_client : Client Post
post_client = record {
  fd = 5;
  ip_id = 1231;
  c_port = 4242;
  s_port = 6666;
  c_ip = "127.0.0.1";
  s_ip = "127.0.0.1";
  file_path = "/tmp/a.txt";
  s_state = tcp_established;
  read_file = false;
  finish_file = false;
  finish_loop = false;
  m_kcp = some ([], []);
  seq = 7;
  server_ack_seq = 0;
  client_sum_send = 0;
  stop_flag = false;
  finish_send = false;
  wire = [];
}
