-- ===== src/Tests/Server.antt =====
-- The theorems on the server's loops at concrete inputs.
use kcp_fake_tcp.Base.{
  Bool, true, false, if◌then◌else◌, ℕ, ◌≡◌, ◌<◌, ◌≢◌, ap, List, [], ◌∷◌, ◌++◌, Option, none, some,
  take, flatten, arith,
}
use kcp_fake_tcp.Kcp.{Kcp, Drains}
use kcp_fake_tcp.Client.Outcome.{returned}
use kcp_fake_tcp.Server.Session.{Session}
use kcp_fake_tcp.Server.Output.{took, tcp_server_send_cb}
use kcp_fake_tcp.Server.Output.Laws.{tcp_server_send_cb-delivers}
use kcp_fake_tcp.Server.Receive.Drain.{Ended}
use kcp_fake_tcp.Server.Epoll.{ServerEpoll, ReadResult, read_failed, got, on_client}
use kcp_fake_tcp.Server.Epoll.Ends.{on_client-Ended}
use kcp_fake_tcp.Tests.Data.{Messages, fresh_session}

-- A library whose block says whether a message of one byte has come in.
abbrev one_kcp : Kcp Bool
one_kcp = record {
  create = λ conv. false;
  wndsize = λ snd rcv k. k;
  nodelay = λ nodelay interval resend nc k. k;
  update = λ clock k. (k, []);
  input = λ bytes k. (true, true);
  recv = λ limit k. (false, if k then some (1 ∷ []) else none);
  send = λ bytes k. k;
  waitsnd = λ k. 0;
}

abbrev one_pending : Bool → ℕ
one_pending true = 1
one_pending false = 0

one_falls :
    (len : ℕ) (k k' : Bool) (m : List ℕ)
    → one_kcp.recv (some len) k ≡ (k', some m)
    → one_pending k' < one_pending k
one_falls len true k' m e = let same : k' ≡ false = cc e in rw same (omega arith)
one_falls len false k' m e = absurd (none≢some m (ap (λ r. r.1) e))
  where
    none≢some : (m : List ℕ) → ◌≢◌ {A = Option (List ℕ)} none (some m)
    none≢some m e = cc

one_kcp-Drains : Drains one_kcp one_pending
one_kcp-Drains = record { falls = one_falls; stays = λ bytes k. omega arith }

one_enough : (k : Bool) → one_pending k < 2
one_enough true = omega arith
one_enough false = omega arith

-- A server with a connection in the middle of a file.
abbrev busy_server : ServerEpoll Bool
busy_server = record {
  m_pid = 7;
  server_ip = "127.0.0.1";
  server_port = 6666;
  stop_flag = false;
  clients =
      (
        9,
        some (record {
          fd = 9;
          s_port = 6666;
          s_ip = "127.0.0.1";
          c_port = 4242;
          c_ip = "127.0.0.1";
          read_file = true;
          file = [];
          file_open = true;
          file_sended = 0;
          file_size = 3;
          file_path = [];
          m_kcp = some false;
          stop_flag = false;
          wire = [];
        }),
      )
      ∷ [];
  file_count = 1;
  watched = 9 ∷ [];
  closed = [];
}

-- Two parts of the stream, and then nothing more.
abbrev two_reads : List ReadResult
two_reads = got (8 ∷ []) 0 ∷ got (8 ∷ 9 ∷ []) 0 ∷ read_failed ∷ []

on_client-Ended_example : Ended (on_client one_kcp 2 9 false true two_reads busy_server)
on_client-Ended_example =
    on_client-Ended one_kcp one_pending one_kcp-Drains 2 one_enough 9 false true two_reads
      busy_server tt

tcp_server_send_cb-delivers_example :
    (s' : Session Messages) × (texts : List (List ℕ)) × (tcp_server_send_cb
        (1 ∷ 2 ∷ [])
        2
        (took 1448 ∷ [])
        fresh_session
      ≡ returned (s', some 2))
    × (s'.wire ≡ fresh_session.wire ++ texts)
    × (flatten texts ≡ take 2 (1 ∷ 2 ∷ []))
tcp_server_send_cb-delivers_example =
    tcp_server_send_cb-delivers (1 ∷ 2 ∷ []) 2 (took 1448 ∷ []) fresh_session (omega arith, tt)
      (omega arith)
