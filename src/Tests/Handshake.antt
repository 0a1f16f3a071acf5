-- ===== src/Tests/Handshake.antt =====
-- The theorems on `start_hand_shake` at concrete inputs.
use kcp_fake_tcp.Base.{
  ℕ, ◌+◌, ◌≡◌, ◌≢◌, inl, inr, refl, ap, List, [], ◌∷◌, ◌++◌, true, false, u32, ntohs, ntohl, arith,
}
use kcp_fake_tcp.Wire.Header.{ip_tcp_header_size, read_tcp, read_ihl}
use kcp_fake_tcp.Wire.Info.{TcpInfo, prase_tcp_packet}
use kcp_fake_tcp.Client.Outcome.{returned, waiting}
use kcp_fake_tcp.Client.State.{Client, tcp_established}
use kcp_fake_tcp.Client.Receive.{Poll, select_timeout, not_ready, received, recv_info}
use kcp_fake_tcp.Client.Header.Laws.{Carries}
use kcp_fake_tcp.Client.Teardown.{WaveRound}
use kcp_fake_tcp.Client.Handshake.{HandshakeRun, start_hand_shake}
use kcp_fake_tcp.Client.Handshake.Laws.{
  after_syn, sends_both, synchronised, start_hand_shake-connects,
}
use kcp_fake_tcp.Client.Handshake.Refuse.{NoAnswer, start_hand_shake-refuses}
use kcp_fake_tcp.Client.Handshake.Silence.{start_hand_shake-waits}
use kcp_fake_tcp.Tests.Data.{Messages, address, closed_client, segment}

-- A SYN and ACK of the server, which acknowledges the sequence number 7.
abbrev pub syn_ack : List ℕ
syn_ack = segment 146 8 18

abbrev pub syn_ack_info : TcpInfo
syn_ack_info = recv_info 1024 [] syn_ack

abbrev pub no_wave : WaveRound
no_wave = record { delivered = false; polls = []; expired = true }

-- A time-out, and a segment for another port.
abbrev pub quiet : List Poll
quiet = select_timeout ∷ received (segment 147 8 18) false ∷ []

pub syn_ack_port : syn_ack_info.port_dst ≡ 4242
unfolding recv_info prase_tcp_packet read_tcp read_ihl ntohs ntohl
syn_ack_port = refl

pub syn_ack_fin : syn_ack_info.fin ≡ 0
unfolding recv_info prase_tcp_packet read_tcp read_ihl ntohs ntohl
syn_ack_fin = refl

pub syn_ack_acked : syn_ack_info.ack_seq ≡ u32 (closed_client.seq + 1)
unfolding recv_info prase_tcp_packet read_tcp read_ihl ntohs ntohl
syn_ack_acked = refl

pub syn_ack_reads : (buffer : List ℕ) → recv_info 1024 buffer syn_ack ≡ syn_ack_info
unfolding recv_info prase_tcp_packet read_tcp read_ihl ntohs ntohl
syn_ack_reads buffer = refl

other_port_value : (buffer : List ℕ) → (recv_info 1024 buffer (segment 147 8 18)).port_dst ≡ 4243
unfolding recv_info prase_tcp_packet read_tcp read_ihl ntohs ntohl
other_port_value buffer = refl

pub other_port : (buffer : List ℕ) → (recv_info 1024 buffer (segment 147 8 18)).port_dst ≢ 4242
other_port buffer e = absurd (omega (arith, other_port_value buffer, e))

start_hand_shake-connects_example :
    (c' : Client Messages) × (syn ack : List ℕ) × (start_hand_shake address returned
        (sends_both address returned closed_client (quiet ++ received syn_ack false ∷ []) no_wave)
        closed_client
      ≡ returned c')
    × (c'.s_state ≡ tcp_established)
    × (c'.seq ≡ u32 (closed_client.seq + 1))
    × (c'.server_ack_seq ≡ u32 (syn_ack_info.seq + 1))
    × (c'.wire ≡ closed_client.wire ++ syn ∷ ack ∷ [])
    × Carries closed_client 0 0 (prase_tcp_packet syn ip_tcp_header_size)
    × Carries
        (synchronised address returned closed_client syn_ack_info)
        1
        0
        (prase_tcp_packet ack ip_tcp_header_size)
start_hand_shake-connects_example =
    start_hand_shake-connects address returned closed_client quiet [] syn_ack false no_wave
      syn_ack_info refl (other_port, refl, tt) syn_ack_reads syn_ack_port syn_ack_fin syn_ack_acked

-- A handshake in which a segment for the port acknowledges another number.
abbrev wrong_run : HandshakeRun
wrong_run =
    sends_both address returned closed_client (received (segment 146 9 18) false ∷ []) no_wave

wrong_acked : (buffer : List ℕ) → (recv_info 1024 buffer (segment 146 9 18)).ack_seq ≡ 9
unfolding recv_info prase_tcp_packet read_tcp read_ihl ntohs ntohl
wrong_acked buffer = refl

no_answer : NoAnswer 4242 7 (received (segment 146 9 18) false ∷ [])
no_answer info (inl (buffer, e)) port acked =
    absurd (omega (arith, wrong_acked buffer, ap (λ i. i.ack_seq) e, acked))
no_answer info (inr nothing) port acked = absurd nothing

start_hand_shake-refuses_example :
    start_hand_shake address returned wrong_run closed_client
    ≡ start_hand_shake address waiting wrong_run closed_client
start_hand_shake-refuses_example =
    start_hand_shake-refuses address returned waiting wrong_run closed_client no_answer

-- Nothing comes, and it is late.
abbrev silence : List Poll
silence = select_timeout ∷ not_ready true ∷ select_timeout ∷ []

start_hand_shake-waits_example :
    start_hand_shake address returned
      (sends_both address returned closed_client silence no_wave)
      closed_client
    ≡ waiting (after_syn address returned closed_client)
start_hand_shake-waits_example =
    start_hand_shake-waits address returned closed_client silence no_wave refl tt
