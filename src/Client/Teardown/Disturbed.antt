-- ===== src/Client/Teardown/Disturbed.antt =====
-- `finish` where something else than the server's two packets is heard (code/kcp/kcp_client.cc).
use kcp_fake_tcp.Base.{
  ℕ, ◌≡◌, ◌≢◌, ◌∙◌, refl, ap, String, List, [], ◌∷◌, ◌++◌, Bool, true, false, ◌==◌, arith,
}
use kcp_fake_tcp.Wire.Header.{ip_tcp_header_size}
use kcp_fake_tcp.Wire.Info.{prase_tcp_packet}
use kcp_fake_tcp.Client.Outcome.{returned, aborted}
use kcp_fake_tcp.Client.State.{tcp_established, tcp_fin_wait1, tcp_fin_wait2, tcp_closing, Client}
use kcp_fake_tcp.Client.Header.{next_id}
use kcp_fake_tcp.Client.Header.Laws.{
  Carries, flags_of, packet-flags, packet-Carries, Carries-next_id,
}
use kcp_fake_tcp.Client.Receive.{Poll, received, recv_info, small_buffer}
use kcp_fake_tcp.Client.Teardown.{
  WaveRound, set_state, on_fin, recv_ack_loop, recv_fin_loop, waving_send_fin, waving_recv_ack,
  waving_recv_fin, wave_in, start_waving, finish, is_closing,
}
use kcp_fake_tcp.Client.Teardown.Hear.{
  control, send_control_lem, finish_step, start_waving_in, AckOf,
}
use kcp_fake_tcp.Client.Teardown.Ignored.{
  NoAck, Foreign, recv_ack_loop-NoAck, recv_fin_loop-Foreign, recv_ack_loop-ack,
}
use kcp_fake_tcp.Client.Teardown.Complete.{finish_last}

module _ {K : Type 0} where
  recv_ack_loop-reset :
      (quiet ps : List Poll) (datagram : List ℕ) (late : Bool) (c : Client K)
      → NoAck c quiet
      → ((buffer : List ℕ) → (recv_info 41 buffer datagram).rst ≢ 0)
      → waving_recv_ack (quiet ++ received datagram late ∷ ps) c
        ≡ returned (set_state tcp_closing c)
  unfolding waving_recv_ack recv_ack_loop
  recv_ack_loop-reset quiet ps datagram late c q reset =
      let (buffer, heard) =
        recv_ack_loop-NoAck quiet (received datagram late ∷ ps) small_buffer c q in
      let is_reset : ((recv_info 41 buffer datagram).rst == 0) ≡ false =
        ground (arith, reset buffer) in
      heard ∙ rw is_reset refl

  -- A packet for the client's port that is neither a reset nor a FIN.
  pub record LateFor (c : Client K) (datagram : List ℕ) : Type 0 where
    pub for_us : (buffer : List ℕ) → (recv_info 41 buffer datagram).port_dst ≡ c.c_port
    pub no_reset : (buffer : List ℕ) → (recv_info 41 buffer datagram).rst ≡ 0
    pub no_fin : (buffer : List ℕ) → (recv_info 41 buffer datagram).fin ≡ 0

  recv_fin_loop-late :
      (quiet ps : List Poll) (datagram : List ℕ) (late : Bool) (c : Client K)
      → Foreign c quiet
      → LateFor c datagram
      → waving_recv_fin (quiet ++ received datagram late ∷ ps) c ≡ aborted
  unfolding waving_recv_fin recv_fin_loop on_fin
  recv_fin_loop-late quiet ps datagram late c q a =
      let (buffer, heard) =
        recv_fin_loop-Foreign quiet (received datagram late ∷ ps) small_buffer c q in
      let info = recv_info 41 buffer datagram in
      let t1 : (info.port_dst == c.c_port) ≡ true = ground (arith, a.for_us buffer) in
      let t2 : (info.rst == 0) ≡ true = ground (arith, a.no_reset buffer) in
      let t3 : (info.fin == 0) ≡ true = ground (arith, a.no_fin buffer) in
      heard ∙ rw t1 (rw t2 (rw t3 refl))

module _ {K : Type 0} (inet_addr : String → ℕ) where
  finish_aborts :
      (r : WaveRound) (rs : List WaveRound) (c : Client K)
      → is_closing c.s_state ≡ false
      → start_waving inet_addr r c ≡ aborted
      → finish inet_addr (r ∷ rs) c ≡ aborted
  unfolding finish
  finish_aborts r rs c still step = rw still (rw step refl)

module _ {K : Type 0} (inet_addr : String → ℕ) (c : Client K) where
  -- The client whose FIN is taken, and the same once the FIN is acknowledged.
  abbrev pub fin_sent : Client K
  fin_sent = waving_send_fin inet_addr true c

  abbrev pub fin_acked : Client K
  fin_acked = set_state tcp_fin_wait2 fin_sent

  fin_round :
      (r : WaveRound)
      → c.s_state ≡ tcp_established
      → r.delivered ≡ true
      → start_waving inet_addr r c ≡ returned fin_sent
  unfolding wave_in
  fin_round r e d =
      start_waving_in inet_addr tcp_established r c e
      ∙ ap (λ b. returned (waving_send_fin inet_addr b c)) d

  fin_state : fin_sent.s_state ≡ tcp_fin_wait1
  unfolding waving_send_fin
  fin_state = ap (λ c. c.s_state) (send_control_lem inet_addr 1 tcp_fin_wait1 c)

  fin_wire : fin_sent.wire ≡ c.wire ++ control inet_addr 1 c ∷ []
  unfolding waving_send_fin
  fin_wire = ap (λ c. c.wire) (send_control_lem inet_addr 1 tcp_fin_wait1 c)

  -- From an established connection whose FIN the system takes: behind any rounds that the wait for
  -- the acknowledgement ignores, a packet with the RST flag, whatever port it is for, makes `finish`
  -- return with the connection closing; the only packet that was sent is one with the flags FIN and
  -- ACK and the client's next sequence number.
  pub finish-reset :
      (r1 r2 : WaveRound) (rs : List WaveRound) (quiet ps : List Poll) (datagram : List ℕ)
      (late : Bool)
      → c.s_state ≡ tcp_established
      → r1.delivered ≡ true
      → r1.expired ≡ false
      → r2.polls ≡ quiet ++ received datagram late ∷ ps
      → NoAck fin_sent quiet
      → ((buffer : List ℕ) → (recv_info 41 buffer datagram).rst ≢ 0)
      → (c' : Client K) × (fin : List ℕ) × (finish inet_addr (r1 ∷ r2 ∷ rs) c ≡ returned c')
        × (c'.s_state ≡ tcp_closing)
        × (c'.wire ≡ c.wire ++ fin ∷ [])
        × Carries c 1 1 (prase_tcp_packet fin ip_tcp_header_size)
        × (flags_of fin ≡ 17)
  unfolding set_state wave_in next_id
  finish-reset r1 r2 rs quiet ps datagram late e d early polls q reset =
      let heard =
        start_waving_in inet_addr tcp_fin_wait1 r2 fin_sent fin_state
        ∙ ap (λ ps. waving_recv_ack ps fin_sent) polls
        ∙ recv_ack_loop-reset quiet ps datagram late fin_sent q reset in
      (
        set_state tcp_closing fin_sent,
        control inet_addr 1 c,
        finish_step inet_addr r1 (r2 ∷ rs) c fin_sent (ap is_closing e) (fin_round r1 e d) early
            ∙ finish_last inet_addr r2 rs fin_sent (set_state tcp_closing fin_sent)
                (ap is_closing fin_state) heard refl,
        refl,
        fin_wire,
        Carries-next_id (packet-Carries inet_addr (next_id c) [] [] 0 1 0 0 1 ip_tcp_header_size),
        packet-flags inet_addr (next_id c) [] [] 0 1 0 0 1,
      )

  -- From an established connection whose FIN the system takes and the server acknowledges, behind any
  -- rounds that the wait ignores: while the server's FIN is awaited, and behind any packets for other
  -- ports, a packet for the client's port that is neither a reset nor a FIN ends the process in an
  -- `assert`, whatever rounds would follow.
  pub finish-late :
      (r1 r2 r3 : WaveRound) (rs : List WaveRound) (quiet ps others qs : List Poll)
      (ack_datagram datagram : List ℕ) (late1 late2 : Bool)
      → c.s_state ≡ tcp_established
      → r1.delivered ≡ true
      → r1.expired ≡ false
      → r2.polls ≡ quiet ++ received ack_datagram late1 ∷ ps
      → NoAck fin_sent quiet
      → ((buffer : List ℕ) → AckOf fin_sent (recv_info 41 buffer ack_datagram))
      → r2.expired ≡ false
      → r3.polls ≡ others ++ received datagram late2 ∷ qs
      → Foreign fin_acked others
      → LateFor fin_acked datagram
      → finish inet_addr (r1 ∷ r2 ∷ r3 ∷ rs) c ≡ aborted
  unfolding set_state wave_in
  finish-late r1 r2 r3 rs quiet ps others qs ack_datagram datagram late1 late2 e d early1 polls2 q
        ack early2 polls3 q3 late =
      let acked =
        start_waving_in inet_addr tcp_fin_wait1 r2 fin_sent fin_state
        ∙ ap (λ ps. waving_recv_ack ps fin_sent) polls2
        ∙ recv_ack_loop-ack quiet ps ack_datagram late1 fin_sent q ack in
      let fails =
        start_waving_in inet_addr tcp_fin_wait2 r3 fin_acked refl
        ∙ ap (λ ps. waving_recv_fin ps fin_acked) polls3
        ∙ recv_fin_loop-late others qs datagram late2 fin_acked q3 late in
      finish_step inet_addr r1 (r2 ∷ r3 ∷ rs) c fin_sent (ap is_closing e) (fin_round r1 e d) early1
      ∙ finish_step inet_addr r2 (r3 ∷ rs) fin_sent fin_acked (ap is_closing fin_state) acked early2
      ∙ finish_aborts inet_addr r3 rs fin_acked refl fails
