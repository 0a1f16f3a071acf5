-- ===== src/Tests/Client.antt =====
-- The theorems on the client's threads at concrete inputs.
use kcp_fake_tcp.Base.{
  ℕ, ◌≤◌, leb, if◌then◌else◌, List, ◌++◌, take, drop, length, replicate, ◌≡◌, refl, [], ◌∷◌, true,
  false, none, some, arith,
}
use kcp_fake_tcp.Kcp.{Kcp}
use kcp_fake_tcp.Client.Loop.{datagram, on_event, loop_buffer}
use kcp_fake_tcp.Client.Loop.Bounds.{on_event-AgreeOn}
use kcp_fake_tcp.Client.File.{Tick, SendRun}
use kcp_fake_tcp.Client.File.Order.{Guarded, after_pieces-Guarded}
use kcp_fake_tcp.Client.File.Closes.{Closed, close-joins, close-Closed}
use kcp_fake_tcp.Server.Session.{Session}
use kcp_fake_tcp.Server.Receive.{on_message}
use kcp_fake_tcp.Server.Single.{Reception, on_reception}
use kcp_fake_tcp.Server.Single.Laws.{SameEnd, on_reception-on_message}
use kcp_fake_tcp.Tests.Data.{address}
use kcp_fake_tcp.Tests.Connection.{ending, ending-Steady}
use kcp_fake_tcp.Tests.Post.{Post, recv_first, post_kcp, post_session, post_client}

-- The server answers at once, and the thread ends at once.
abbrev quick_run : SendRun Post
quick_run = record {
  content = some (1 ∷ []);
  between = λ n c. c;
  finish_send_ticks =
      record {
        others = λ c. record c { finish_send = true; m_kcp = some ([], []) };
        expired = false;
      }
      ∷ [];
  waitsnd_ticks = [];
  finish_loop_ticks =
      record { others = λ c. record c { finish_loop = true }; expired = false } ∷ [];
  close_ticks = [];
  waves = [];
}

after_pieces-Guarded_example : Guarded post_kcp address quick_run post_client
after_pieces-Guarded_example = after_pieces-Guarded post_kcp address quick_run post_client

-- One sleep, in which `run_tcp_client` comes to the head of its loop.
abbrev one_sleep : List (Tick Post)
one_sleep = record { others = ending; expired = false } ∷ []

close-Closed_example :
    Closed one_sleep (record post_client { stop_flag = true; finish_loop = true; m_kcp = none })
close-Closed_example =
    close-Closed one_sleep post_client
      (record post_client { stop_flag = true; finish_loop = true; m_kcp = none }) ([], []) refl
      (ending-Steady, tt) (close-joins post_kcp address 3 loop_buffer [] post_client ([], []) refl)

-- In the middle of a file.
abbrev mid_session : Session Post
mid_session = record post_session { read_file = true; file_open = true; file_size = 2 }

abbrev mid_reception : Reception
mid_reception = record {
  read_file = true;
  content = [];
  is_open = true;
  file_sended = 0;
  file_size = 2;
  file_path = [];
}

on_reception-on_message_example :
    SameEnd
      (on_message post_kcp 7 ([], []) (1 ∷ 2 ∷ []) (mid_session, 0))
      (on_reception [] 13 26 (1 ∷ 2 ∷ []) (mid_session, mid_reception))
on_reception-on_message_example =
    on_reception-on_message post_kcp 7 ([], []) [] 13 26 0 (1 ∷ 2 ∷ []) mid_session mid_reception
      (refl, refl, refl, refl) refl (omega arith) (omega arith)

-- Two bytes behind the headers.
abbrev small_datagram : List ℕ
small_datagram = replicate 40 7 ++ 1 ∷ 2 ∷ []

-- A library that gives another answer where more bytes are asked for than a packet holds.
abbrev other_kcp : Kcp Post
other_kcp = record post_kcp {
  recv = λ limit k. elim limit [
    | none ↦ (k, some (1 ∷ []))
    | some n ↦ if leb n 984 then recv_first n k else (k, some (2 ∷ []))
  ];
}

on_event-AgreeOn_example :
    (on_event post_kcp address 3 (datagram small_datagram) loop_buffer post_client
      ≡ on_event other_kcp address 3 (datagram small_datagram) loop_buffer post_client)
    × (length (drop 40 (take 1024 small_datagram)) ≤ 984)
on_event-AgreeOn_example =
    on_event-AgreeOn post_kcp other_kcp address 3 small_datagram loop_buffer post_client
      (omega arith) (λ k. refl, λ k. refl)
