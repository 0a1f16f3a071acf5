-- ===== src/Client/Teardown/Complete.antt =====
-- `finish` against a server that acknowledges the FIN and sends its own (code/kcp/kcp_client.cc).
use mathlib.Core.List.{append_assoc}
use kcp_fake_tcp.Base.{
  ℕ, ◌+◌, ◌≡◌, refl, ap, ◌∙◌, inl, inr, Bool-cases, String, List, [], ◌∷◌, ◌++◌, Bool, true, false,
  u32, arith,
}
use kcp_fake_tcp.Wire.Header.{ip_tcp_header_size}
use kcp_fake_tcp.Wire.Info.{TcpInfo, prase_tcp_packet}
use kcp_fake_tcp.Client.Outcome.{returned}
use kcp_fake_tcp.Client.State.{tcp_established, tcp_fin_wait1, tcp_fin_wait2, tcp_closing, Client}
use kcp_fake_tcp.Client.Header.{next_id}
use kcp_fake_tcp.Client.Header.Laws.{
  Carries, flags_of, packet-flags, packet-Carries, Carries-next_id,
}
use kcp_fake_tcp.Client.Receive.{Poll, received, recv_info, small_buffer}
use kcp_fake_tcp.Client.Teardown.{
  WaveRound, set_state, accept_fin, send_control, waving_send_fin, waving_send_ack, waving_recv_ack,
  waving_recv_fin, wave_in, start_waving, finish, is_closing,
}
use kcp_fake_tcp.Client.Teardown.Hear.{
  control, send_control_lem, finish_step, finish_closing, start_waving_in, AckOf, FinFor,
}
use kcp_fake_tcp.Client.Teardown.Ignored.{NoAck, Foreign, recv_ack_loop-ack, recv_fin_loop-fin}

module _ {K : Type 0} (inet_addr : String → ℕ) where
  pub finish_last :
      (r : WaveRound) (rs : List WaveRound) (c c' : Client K)
      → is_closing c.s_state ≡ false
      → start_waving inet_addr r c ≡ returned c'
      → is_closing c'.s_state ≡ true
      → finish inet_addr (r ∷ rs) c ≡ returned c'
  unfolding finish
  finish_last r rs c c' still step closing = rw still (
      rw step (elim (Bool-cases r.expired) [
        | inl late ↦ rw late refl
        | inr early ↦ rw early (finish_closing inet_addr rs c' closing)
      ]))

  module _ (c : Client K) (ack_packet fin_packet : List ℕ) where
    abbrev server_fin : TcpInfo
    server_fin = recv_info 41 small_buffer fin_packet

    -- The client after each of the four rounds.
    abbrev after_fin : Client K
    after_fin = record c {
      ip_id = c.ip_id + 1;
      client_sum_send = u32 (c.client_sum_send + 0);
      wire = c.wire ++ control inet_addr 1 c ∷ [];
      s_state = tcp_fin_wait1;
    }

    abbrev after_ack : Client K
    after_ack = set_state tcp_fin_wait2 after_fin

    abbrev after_server_fin : Client K
    after_server_fin = accept_fin server_fin after_ack

    abbrev after_last_ack : Client K
    after_last_ack = record after_server_fin {
      ip_id = after_server_fin.ip_id + 1;
      client_sum_send = u32 (after_server_fin.client_sum_send + 0);
      wire = after_server_fin.wire ++ control inet_addr 0 after_server_fin ∷ [];
      s_state = tcp_closing;
    }

    -- The client as it numbers its last acknowledgement.
    abbrev pub past_both : Client K
    past_both = record c { seq = u32 (c.seq + 1); server_ack_seq = u32 (server_fin.seq + 1) }

    -- The system and the server play along: the FIN is sent, the server acknowledges it and sends
    -- its own FIN, the last acknowledgement is sent, and the deadline of `finish` is not passed
    -- before. In front of the server's two packets may be others that the two loops pass over. Both
    -- packets are read as the same whatever was in the buffer.
    pub record Cooperates (r1 r2 r3 r4 : WaveRound) : Type 0 where
      pub late1 : Bool
      pub late2 : Bool
      pub before1 : List Poll
      pub before2 : List Poll
      pub polls1 : List Poll
      pub polls2 : List Poll
      pub fin_goes : r1.delivered ≡ true
      pub in_time1 : r1.expired ≡ false
      pub hears1 : r2.polls ≡ before1 ++ received ack_packet late1 ∷ polls1
      pub passed1 : NoAck after_fin before1
      pub in_time2 : r2.expired ≡ false
      pub hears2 : r3.polls ≡ before2 ++ received fin_packet late2 ∷ polls2
      pub passed2 : Foreign after_ack before2
      pub in_time3 : r3.expired ≡ false
      pub ack_goes : r4.delivered ≡ true
      pub ack_of : (buffer : List ℕ) → AckOf c (recv_info 41 buffer ack_packet)
      pub fin_reads : (buffer : List ℕ) → recv_info 41 buffer fin_packet ≡ server_fin
      pub fin_for : FinFor c server_fin

    round1 :
        (r : WaveRound)
        → c.s_state ≡ tcp_established
        → r.delivered ≡ true
        → start_waving inet_addr r c ≡ returned after_fin
    unfolding wave_in waving_send_fin
    round1 r e d =
        start_waving_in inet_addr tcp_established r c e
        ∙ ap (λ b. returned (send_control inet_addr 1 tcp_fin_wait1 b c)) d
        ∙ ap returned (send_control_lem inet_addr 1 tcp_fin_wait1 c)

    round2 :
        (r : WaveRound) (late : Bool) (before ps : List Poll)
        → r.polls ≡ before ++ received ack_packet late ∷ ps
        → NoAck after_fin before
        → ((buffer : List ℕ) → AckOf c (recv_info 41 buffer ack_packet))
        → start_waving inet_addr r after_fin ≡ returned after_ack
    unfolding start_waving wave_in
    round2 r late before ps e q a =
        ap (λ ps. waving_recv_ack ps after_fin) e
        ∙ recv_ack_loop-ack before ps ack_packet late after_fin q (λ buffer. record {
          no_reset = (a buffer).no_reset;
          for_us = (a buffer).for_us;
          acked = omega (arith, (a buffer).acked);
          flagged = (a buffer).flagged;
          no_fin = (a buffer).no_fin;
        })

    round3 :
        (r : WaveRound) (late : Bool) (before ps : List Poll)
        → r.polls ≡ before ++ received fin_packet late ∷ ps
        → Foreign after_ack before
        → ((buffer : List ℕ) → recv_info 41 buffer fin_packet ≡ server_fin)
        → FinFor c server_fin
        → start_waving inet_addr r after_ack ≡ returned after_server_fin
    unfolding start_waving wave_in set_state
    round3 r late before ps e q reads a =
        ap (λ ps. waving_recv_fin ps after_ack) e
        ∙ recv_fin_loop-fin before ps fin_packet late server_fin after_ack q reads
            (record { no_reset = a.no_reset; for_us = a.for_us; is_fin = a.is_fin })

    round4 :
        (r : WaveRound)
        → r.delivered ≡ true
        → start_waving inet_addr r after_server_fin ≡ returned after_last_ack
    unfolding start_waving wave_in waving_send_ack accept_fin
    round4 r d =
        ap (λ b. returned (send_control inet_addr 0 tcp_closing b after_server_fin)) d
        ∙ ap returned (send_control_lem inet_addr 0 tcp_closing after_server_fin)

    finish_rounds :
        (r1 r2 r3 r4 : WaveRound) (rs : List WaveRound)
        → c.s_state ≡ tcp_established
        → Cooperates r1 r2 r3 r4
        → finish inet_addr (r1 ∷ r2 ∷ r3 ∷ r4 ∷ rs) c ≡ returned after_last_ack
    unfolding set_state accept_fin
    finish_rounds r1 r2 r3 r4 rs e k =
        finish_step inet_addr r1 _ c after_fin (ap is_closing e) (round1 r1 e k.fin_goes) k.in_time1
        ∙ finish_step inet_addr r2 _ after_fin after_ack refl
            (round2 r2 k.late1 k.before1 k.polls1 k.hears1 k.passed1 k.ack_of) k.in_time2
        ∙ finish_step inet_addr r3 _ after_ack after_server_fin refl
            (round3 r3 k.late2 k.before2 k.polls2 k.hears2 k.passed2 k.fin_reads k.fin_for)
            k.in_time3
        ∙ finish_last r4 rs after_server_fin after_last_ack refl (round4 r4 k.ack_goes) refl

    -- From an established connection, where the system and the server play along as `Cooperates`
    -- says: the system takes both packets; behind any packets that are no resets and do not
    -- acknowledge the FIN, the acknowledgement of the FIN is heard in the second round, and is no FIN
    -- itself; behind any packets for other ports, a FIN is heard in the third; both are for the
    -- client's port and no resets; and no deadline is passed before. Then `finish` returns with the connection closing. It has sent two packets and no
    -- more: one with the flags FIN and ACK and the client's next sequence number, and one with the
    -- flag ACK alone, that is numbered one higher and acknowledges the server's FIN.
    pub finish_completes :
        (r1 r2 r3 r4 : WaveRound) (rs : List WaveRound)
        → c.s_state ≡ tcp_established
        → Cooperates r1 r2 r3 r4
        → (c' : Client K) × (fin ack : List ℕ) × (finish inet_addr (r1 ∷ r2 ∷ r3 ∷ r4 ∷ rs) c
            ≡ returned c')
          × (c'.s_state ≡ tcp_closing)
          × (c'.wire ≡ c.wire ++ fin ∷ ack ∷ [])
          × Carries c 1 1 (prase_tcp_packet fin ip_tcp_header_size)
          × Carries past_both 1 0 (prase_tcp_packet ack ip_tcp_header_size)
          × (flags_of fin ≡ 17)
          × (flags_of ack ≡ 16)
    unfolding set_state accept_fin next_id
    finish_completes r1 r2 r3 r4 rs e k = (
      after_last_ack,
      control inet_addr 1 c,
      control inet_addr 0 after_server_fin,
      finish_rounds r1 r2 r3 r4 rs e k,
      refl,
      append_assoc c.wire (control inet_addr 1 c ∷ []) (control inet_addr 0 after_server_fin ∷ []),
      Carries-next_id (packet-Carries inet_addr (next_id c) [] [] 0 1 0 0 1 ip_tcp_header_size),
      renumbered
          (packet-Carries inet_addr (next_id after_server_fin) [] [] 0 1 0 0 0 ip_tcp_header_size),
      packet-flags inet_addr (next_id c) [] [] 0 1 0 0 1,
      packet-flags inet_addr (next_id after_server_fin) [] [] 0 1 0 0 0,
    )
      where
        renumbered :
            {info : TcpInfo}
            → Carries (next_id after_server_fin) 1 0 info
            → Carries past_both 1 0 info
        renumbered h = record {
          source = h.source;
          dest = h.dest;
          sequence = h.sequence ∙ omega arith;
          acknowledged = h.acknowledged;
          ack_flag = h.ack_flag;
          fin_flag = h.fin_flag;
          no_reset = h.no_reset;
          words = h.words;
        }
