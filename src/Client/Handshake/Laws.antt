-- ===== src/Client/Handshake/Laws.antt =====
-- The opening handshake where it succeeds (code/kcp/kcp_client.cc), and what it then has sent.
use mathlib.Core.List.{append_assoc}
use kcp_fake_tcp.Base.{
  ℕ, ◌+◌, ◌≡◌, ◌≢◌, refl, ap, ◌∙◌, String, List, [], ◌∷◌, ◌++◌, Bool, true, false, ◌==◌, Option,
  some, u32, replicate, arith,
}
use kcp_fake_tcp.Wire.Header.{ip_bytes, tcp_bytes, ip_tcp_header_size}
use kcp_fake_tcp.Wire.Info.{TcpInfo, prase_tcp_packet}
use kcp_fake_tcp.Client.Outcome.{Outcome}
use kcp_fake_tcp.Client.State.{tcp_syn_send, tcp_established, Client}
use kcp_fake_tcp.Client.Receive.{Poll, received, recv_into, recv_info}
use kcp_fake_tcp.Client.Header.{build_ip_tcp_header, packet, next_id}
use kcp_fake_tcp.Client.Header.Laws.{
  Carries, flags_of, packet-flags, packet-Carries, Carries-next_id,
}
use kcp_fake_tcp.Client.Output.{sent}
use kcp_fake_tcp.Client.Teardown.{WaveRound, set_state}
use kcp_fake_tcp.Client.Handshake.{
  non_blocking_send, answered, reply_loop, HandshakeRun, is_closed, accept_syn_ack, acknowledge,
  on_reply, start_hand_shake,
}

-- The datagram parses to `info`, whatever stood in the buffer before.
abbrev pub Reads : List ℕ → TcpInfo → Type 0
Reads datagram info = (buffer : List ℕ) → recv_info 1024 buffer datagram ≡ info

-- Rounds that bring nothing for the port: no datagram, or one for another port in time.
abbrev pub Ignored : ℕ → List Poll → Type 0
Ignored port [] = Unit
Ignored port (received datagram expired ∷ ps) =
    ((buffer : List ℕ) → (recv_info 1024 buffer datagram).port_dst ≢ port)
    × (expired ≡ false)
    × Ignored port ps
Ignored port (p ∷ ps) = Ignored port ps

reply_loop-answered :
    (port : ℕ) (quiet : List Poll) (datagram : List ℕ) (late : Bool) (ps : List Poll)
    (buffer : List ℕ) (info : TcpInfo)
    → Ignored port quiet
    → Reads datagram info
    → info.port_dst ≡ port
    → info.fin ≡ 0
    → (buffer' : List ℕ) × (reply_loop port (quiet ++ received datagram late ∷ ps) buffer
        ≡ answered info buffer')
unfolding reply_loop
reply_loop-answered port [] datagram late ps buffer info q reads p f =
    let t1 : (info.port_dst == port) ≡ true = ground arith in
    let t2 : (info.fin == 0) ≡ true = ground arith in
    (recv_into 1024 buffer datagram, rw (reads buffer) (rw t1 (rw t2)))
reply_loop-answered port (received d e ∷ quiet) datagram late ps buffer info q reads p f =
    let other : ((recv_info 1024 buffer d).port_dst == port) ≡ false = ground (arith, q.0 buffer) in
    rw other (rw q.1 (reply_loop-answered port quiet datagram late ps _ info q.2 reads p f))
reply_loop-answered port (q0 ∷ quiet) datagram late ps buffer info q reads p f =
    reply_loop-answered port quiet datagram late ps buffer info q reads p f

module _ {K : Type 0} (inet_addr : String → ℕ) (send_file : Client K → Outcome (Client K))
    (c : Client K) where
  -- The SYN, and the client once it is on its way.
  abbrev pub syn_packet : List ℕ
  syn_packet = packet inet_addr (next_id c) [] [] 0 0 0 1 0

  abbrev pub after_syn : Client K
  after_syn = record c {
    ip_id = c.ip_id + 1;
    client_sum_send = u32 (c.client_sum_send + 0);
    wire = c.wire ++ syn_packet ∷ [];
    s_state = tcp_syn_send;
  }

  abbrev in_sync : TcpInfo → Client K
  in_sync info = accept_syn_ack info after_syn

  abbrev pub ack_packet : TcpInfo → List ℕ
  ack_packet info = packet inet_addr (next_id (in_sync info)) [] [] 0 1 0 0 0

  abbrev pub connected : TcpInfo → Client K
  connected info = record (in_sync info) {
    ip_id = (in_sync info).ip_id + 1;
    client_sum_send = u32 ((in_sync info).client_sum_send + 0);
    wire = (in_sync info).wire ++ ack_packet info ∷ [];
    s_state = tcp_established;
  }

  acknowledge-connected :
      (info : TcpInfo) (buffer : List ℕ)
      → info.ack_seq ≡ u32 (c.seq + 1)
      → acknowledge inet_addr send_file sent info buffer after_syn ≡ send_file (connected info)
  unfolding acknowledge build_ip_tcp_header packet ip_bytes tcp_bytes
  acknowledge-connected info buffer e =
      let t : (info.ack_seq == u32 (c.seq + 1)) ≡ true = ground arith in rw t

  -- Both sends succeed.
  abbrev pub sends_both : List Poll → WaveRound → HandshakeRun
  sends_both polls wave = record { syn_event = sent; polls = polls; wave = wave; ack_event = sent }

  pub syn_buffer : List ℕ
  syn_buffer = (build_ip_tcp_header inet_addr (replicate 1024 0) [] 0 0 0 1 0 c).0

  syn_goes :
      non_blocking_send sent syn_buffer ip_tcp_header_size
        (set_state tcp_syn_send (build_ip_tcp_header inet_addr (replicate 1024 0) [] 0 0 0 1 0 c).1)
      ≡ (after_syn, some ip_tcp_header_size)
  unfolding syn_buffer set_state non_blocking_send build_ip_tcp_header packet ip_bytes tcp_bytes
  syn_goes = refl

  pub sends_syn :
      (polls : List Poll) (wave : WaveRound)
      → is_closed c.s_state ≡ true
      → start_hand_shake inet_addr send_file (sends_both polls wave) c
        ≡ on_reply inet_addr send_file
            (sends_both polls wave)
            (reply_loop c.c_port polls syn_buffer)
            after_syn
  unfolding start_hand_shake syn_buffer
  sends_syn polls wave closed = rw closed (
      ap
        (λ (step : Client K × Option ℕ).
          on_reply inet_addr send_file (sends_both polls wave)
            (reply_loop step.0.c_port polls syn_buffer) step.0)
        syn_goes)

  -- What the handshake comes to, with the client that it makes.
  pub start_hand_shake-connected :
      (quiet ps : List Poll) (datagram : List ℕ) (late : Bool) (wave : WaveRound) (info : TcpInfo)
      → is_closed c.s_state ≡ true
      → Ignored c.c_port quiet
      → Reads datagram info
      → info.port_dst ≡ c.c_port
      → info.fin ≡ 0
      → info.ack_seq ≡ u32 (c.seq + 1)
      → start_hand_shake inet_addr send_file
          (sends_both (quiet ++ received datagram late ∷ ps) wave)
          c
        ≡ send_file (connected info)
  unfolding on_reply
  start_hand_shake-connected quiet ps datagram late wave info closed q reads p f a =
      let (buffer, heard) =
        reply_loop-answered c.c_port quiet datagram late ps syn_buffer info q reads p f in
      sends_syn (quiet ++ received datagram late ∷ ps) wave closed
      ∙ ap (λ r. on_reply inet_addr send_file (sends_both [] wave) r after_syn) heard
      ∙ acknowledge-connected info buffer a

  -- The client that has heard `info`, before it numbers its acknowledgement.
  abbrev pub synchronised : TcpInfo → Client K
  synchronised info = record c { seq = u32 (c.seq + 1); server_ack_seq = u32 (info.seq + 1) }

  pub syn_packet-Carries : Carries c 0 0 (prase_tcp_packet syn_packet ip_tcp_header_size)
  unfolding next_id
  syn_packet-Carries =
      Carries-next_id (packet-Carries inet_addr (next_id c) [] [] 0 0 0 1 0 ip_tcp_header_size)

  pub ack_packet-Carries :
      (info : TcpInfo)
      → Carries (synchronised info) 1 0 (prase_tcp_packet (ack_packet info) ip_tcp_header_size)
  unfolding accept_syn_ack next_id
  ack_packet-Carries info =
      let h =
        packet-Carries inet_addr (next_id (in_sync info)) [] [] 0 1 0 0 0 ip_tcp_header_size in
      record {
        source = h.source;
        dest = h.dest;
        sequence = h.sequence ∙ omega arith;
        acknowledged = h.acknowledged;
        ack_flag = h.ack_flag;
        fin_flag = h.fin_flag;
        no_reset = h.no_reset;
        words = h.words;
      }

  pub syn_packet-flags : flags_of syn_packet ≡ 2
  syn_packet-flags = packet-flags inet_addr (next_id c) [] [] 0 0 0 1 0

  pub ack_packet-flags : (info : TcpInfo) → flags_of (ack_packet info) ≡ 16
  ack_packet-flags info = packet-flags inet_addr (next_id (in_sync info)) [] [] 0 1 0 0 0

  -- From a closed connection, with both packets taken by the system: if the first packet that
  -- reaches the client's port is no FIN and acknowledges the SYN, then the handshake goes on to
  -- `send_file` with the connection established, the two counters moved past the SYNs, and two
  -- packets sent, numbered with the SYN and behind it. Whether that packet has the flags of a SYN,
  -- of an ACK or of a reset does not matter.
  pub start_hand_shake-connects :
      (quiet ps : List Poll) (datagram : List ℕ) (late : Bool) (wave : WaveRound) (info : TcpInfo)
      → is_closed c.s_state ≡ true
      → Ignored c.c_port quiet
      → Reads datagram info
      → info.port_dst ≡ c.c_port
      → info.fin ≡ 0
      → info.ack_seq ≡ u32 (c.seq + 1)
      → (c' : Client K) × (syn ack : List ℕ) × (start_hand_shake inet_addr send_file
            (sends_both (quiet ++ received datagram late ∷ ps) wave)
            c
          ≡ send_file c')
        × (c'.s_state ≡ tcp_established)
        × (c'.seq ≡ u32 (c.seq + 1))
        × (c'.server_ack_seq ≡ u32 (info.seq + 1))
        × (c'.wire ≡ c.wire ++ syn ∷ ack ∷ [])
        × Carries c 0 0 (prase_tcp_packet syn ip_tcp_header_size)
        × Carries (synchronised info) 1 0 (prase_tcp_packet ack ip_tcp_header_size)
  unfolding accept_syn_ack
  start_hand_shake-connects quiet ps datagram late wave info closed q reads p f a = (
    connected info,
    syn_packet,
    ack_packet info,
    start_hand_shake-connected quiet ps datagram late wave info closed q reads p f a,
    refl,
    refl,
    refl,
    append_assoc c.wire (syn_packet ∷ []) (ack_packet info ∷ []),
    syn_packet-Carries,
    ack_packet-Carries info,
  )
