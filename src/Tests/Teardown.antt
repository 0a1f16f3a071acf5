-- ===== src/Tests/Teardown.antt =====
-- The theorems on the closing handshake at concrete inputs.
use kcp_fake_tcp.Base.{
  ℕ, ◌+◌, ◌≡◌, ◌≢◌, ◌⊎◌, ◌∙◌, sym, u32, refl, List, [], ◌∷◌, ◌++◌, Bool, true, false, ntohs, ntohl,
  arith,
}
use kcp_fake_tcp.Wire.Header.{ip_tcp_header_size, read_tcp, read_ihl}
use kcp_fake_tcp.Wire.Info.{TcpInfo, prase_tcp_packet}
use kcp_fake_tcp.Client.Outcome.{returned, aborted}
use kcp_fake_tcp.Client.State.{Client, tcp_fin_wait1, tcp_fin_wait2, tcp_closing}
use kcp_fake_tcp.Client.Receive.{Poll, received, Heard, recv_info, small_buffer}
use kcp_fake_tcp.Client.Header.Laws.{Carries, flags_of}
use kcp_fake_tcp.Client.Teardown.{
  WaveRound, set_state, send_control, acks_fin, on_ack, waving_send_fin, waving_recv_ack, finish,
  is_closing,
}
use kcp_fake_tcp.Client.Header.{build_ip_tcp_header, packet, next_id}
use kcp_fake_tcp.Client.Teardown.Accept.{AckedBy, past_fin, waving_recv_ack-AckedBy}
use kcp_fake_tcp.Client.Teardown.Hear.{AckOf}
use kcp_fake_tcp.Client.Teardown.Disturbed.{fin_sent, fin_acked, LateFor, finish-reset, finish-late}
use kcp_fake_tcp.Client.Teardown.Complete.{Cooperates, past_both, finish_completes}
use kcp_fake_tcp.Client.Teardown.Diagram.{◌⟶*◌, Late, finish_reaches}
use kcp_fake_tcp.Tests.Data.{Messages, address, open_client, segment}

-- The server's acknowledgement of the FIN with the number 8, and its own FIN.
abbrev pub ack_segment : List ℕ
ack_segment = segment 146 9 16

abbrev pub fin_segment : List ℕ
fin_segment = segment 146 9 17

ack_values :
    (buffer : List ℕ)
    → let info = recv_info 41 buffer ack_segment in
      (info.rst ≡ 0) × (info.port_dst ≡ 4242) × (info.ack_seq ≡ 9) × (info.ack ≡ 1) × (info.fin ≡ 0)
unfolding recv_info prase_tcp_packet read_tcp read_ihl ntohs ntohl
ack_values buffer = (refl, refl, refl, refl, refl)

abbrev fin_info : TcpInfo
fin_info = recv_info 41 small_buffer fin_segment

fin_values : (fin_info.rst ≡ 0) × (fin_info.port_dst ≡ 4242) × (fin_info.fin ≡ 1)
unfolding recv_info prase_tcp_packet read_tcp read_ihl ntohs ntohl
fin_values = (refl, refl, refl)

fin_same : (buffer : List ℕ) → recv_info 41 buffer fin_segment ≡ fin_info
unfolding recv_info prase_tcp_packet read_tcp read_ihl ntohs ntohl
fin_same buffer = refl

abbrev pub round : Bool → List Poll → Bool → WaveRound
round delivered polls expired = record { delivered = delivered; polls = polls; expired = expired }

pub cooperates :
    {K : Type 0} (c : Client K)
    → c.c_port ≡ 4242
    → u32 (c.seq + c.client_sum_send + 1) ≡ 9
    → Cooperates address c ack_segment fin_segment
        (round true [] false)
        (round false (received ack_segment false ∷ []) false)
        (round false (received fin_segment false ∷ []) false)
        (round true [] false)
cooperates c port number = record {
  late1 = false;
  late2 = false;
  before1 = [];
  before2 = [];
  polls1 = [];
  polls2 = [];
  fin_goes = refl;
  in_time1 = refl;
  hears1 = refl;
  passed1 = tt;
  in_time2 = refl;
  hears2 = refl;
  passed2 = tt;
  in_time3 = refl;
  ack_goes = refl;
  ack_of = λ buffer. record {
    no_reset = (ack_values buffer).0;
    for_us = (ack_values buffer).1 ∙ sym port;
    acked = (ack_values buffer).2 ∙ sym number;
    flagged = λ e. absurd (omega (arith, (ack_values buffer).3, e));
    no_fin = (ack_values buffer).4;
  };
  fin_reads = fin_same;
  fin_for = record {
    no_reset = fin_values.0;
    for_us = fin_values.1 ∙ sym port;
    is_fin = λ e. absurd (omega (arith, fin_values.2, e));
  };
}

finish_completes_example :
    (c' : Client Messages) × (fin ack : List ℕ) × (finish address
        (round true [] false
          ∷ round false (received ack_segment false ∷ []) false
          ∷ round false (received fin_segment false ∷ []) false
          ∷ round true [] false
          ∷ [])
        open_client
      ≡ returned c')
    × (c'.s_state ≡ tcp_closing)
    × (c'.wire ≡ open_client.wire ++ fin ∷ ack ∷ [])
    × Carries open_client 1 1 (prase_tcp_packet fin ip_tcp_header_size)
    × Carries
        (past_both address open_client ack_segment fin_segment)
        1
        0
        (prase_tcp_packet ack ip_tcp_header_size)
    × (flags_of fin ≡ 17)
    × (flags_of ack ≡ 16)
finish_completes_example =
    finish_completes address open_client ack_segment fin_segment (round true [] false)
      (round false (received ack_segment false ∷ []) false)
      (round false (received fin_segment false ∷ []) false) (round true [] false) [] refl
      (cooperates open_client refl refl)

-- A client whose FIN is on its way.
abbrev waiting_client : Client Messages
waiting_client = record open_client { s_state = tcp_fin_wait1 }

ack_returns :
    waving_recv_ack (received ack_segment false ∷ []) waiting_client
    ≡ returned (set_state tcp_fin_wait2 waiting_client)
unfolding waving_recv_ack on_ack acks_fin recv_info prase_tcp_packet read_tcp read_ihl ntohs ntohl
ack_returns = refl

acked_past : past_fin (set_state tcp_fin_wait2 waiting_client).s_state ≡ true
unfolding set_state
acked_past = refl

waving_recv_ack-AckedBy_example :
    (info : TcpInfo) × Heard 41 (received ack_segment false ∷ []) info
    × AckedBy waiting_client (set_state tcp_fin_wait2 waiting_client) info
waving_recv_ack-AckedBy_example =
    waving_recv_ack-AckedBy (received ack_segment false ∷ []) waiting_client
      (set_state tcp_fin_wait2 waiting_client) refl ack_returns acked_past

-- The same client as the code makes it: its FIN is taken by the system.
fin_port : (fin_sent address open_client).c_port ≡ 4242
unfolding waving_send_fin send_control build_ip_tcp_header next_id packet
fin_port = refl

fin_number : let c = fin_sent address open_client in u32 (c.seq + c.client_sum_send + 1) ≡ 9
unfolding waving_send_fin send_control build_ip_tcp_header next_id packet
fin_number = refl

-- A reset for another port, and one for the client's behind a packet that is not for it.
foreign_reset : (buffer : List ℕ) → (recv_info 41 buffer (segment 147 9 4)).rst ≢ 0
unfolding recv_info prase_tcp_packet read_tcp read_ihl ntohs ntohl
foreign_reset buffer e = cc

foreign_segment :
    (buffer : List ℕ)
    → ((recv_info 41 buffer (segment 147 9 16)).rst ≡ 0)
      × (acks_fin (recv_info 41 buffer (segment 147 9 16)) (fin_sent address open_client) ≡ false)
unfolding recv_info prase_tcp_packet read_tcp read_ihl ntohs ntohl acks_fin waving_send_fin
    send_control build_ip_tcp_header next_id packet
foreign_segment buffer = (refl, refl)

finish-reset_example :
    (c' : Client Messages) × (fin : List ℕ) × (finish address
        (round true [] false
          ∷ round false
              (received (segment 147 9 16) false ∷ received (segment 147 9 4) false ∷ [])
              false
          ∷ [])
        open_client
      ≡ returned c')
    × (c'.s_state ≡ tcp_closing)
    × (c'.wire ≡ open_client.wire ++ fin ∷ [])
    × Carries open_client 1 1 (prase_tcp_packet fin ip_tcp_header_size)
    × (flags_of fin ≡ 17)
finish-reset_example =
    finish-reset address open_client (round true [] false)
      (round false (received (segment 147 9 16) false ∷ received (segment 147 9 4) false ∷ [])
        false)
      [] (received (segment 147 9 16) false ∷ []) [] (segment 147 9 4) false refl refl refl refl
      (foreign_segment, refl, tt) foreign_reset

ack_of : (buffer : List ℕ) → AckOf (fin_sent address open_client) (recv_info 41 buffer ack_segment)
unfolding recv_info prase_tcp_packet read_tcp read_ihl ntohs ntohl
ack_of buffer = record {
  no_reset = refl;
  for_us = sym fin_port;
  acked = sym fin_number;
  flagged = λ e. cc;
  no_fin = refl;
}

late_for : LateFor (fin_acked address open_client) ack_segment
unfolding recv_info prase_tcp_packet read_tcp read_ihl ntohs ntohl set_state
late_for = record {
  for_us = λ buffer. sym fin_port;
  no_reset = λ buffer. refl;
  no_fin = λ buffer. refl;
}

-- The server's acknowledgement comes a second time.
finish-late_example :
    finish address
      (round true [] false
        ∷ round false (received ack_segment false ∷ []) false
        ∷ round false (received ack_segment false ∷ []) false
        ∷ [])
      open_client
    ≡ aborted
finish-late_example =
    finish-late address open_client (round true [] false)
      (round false (received ack_segment false ∷ []) false)
      (round false (received ack_segment false ∷ []) false) [] [] [] [] [] ack_segment ack_segment
      false false refl refl refl refl tt ack_of refl refl tt late_for

late_returns :
    finish address (round true [] true ∷ []) open_client
    ≡ returned (waving_send_fin address true open_client)
unfolding finish
late_returns = refl

finish_reaches_example :
    (open_client.s_state ⟶* (waving_send_fin address true open_client).s_state)
    × ((is_closing (waving_send_fin address true open_client).s_state ≡ true)
        ⊎ Late (round true [] true ∷ []))
finish_reaches_example =
    finish_reaches address (round true [] true ∷ []) open_client
      (waving_send_fin address true open_client) late_returns
