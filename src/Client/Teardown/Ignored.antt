-- ===== src/Client/Teardown/Ignored.antt =====
-- The two receive loops of the closing handshake behind packets that they pass over
-- (code/kcp/kcp_client.cc).
use kcp_fake_tcp.Base.{
  ℕ, ◌+◌, ◌≡◌, ◌≢◌, ◌∙◌, refl, List, [], ◌∷◌, ◌++◌, Bool, true, false, ◌==◌, u32, arith,
}
use kcp_fake_tcp.Wire.Info.{TcpInfo}
use kcp_fake_tcp.Client.Outcome.{returned}
use kcp_fake_tcp.Client.State.{tcp_fin_wait2, Client}
use kcp_fake_tcp.Client.Receive.{
  Poll, not_ready, received, recv_failed, recv_info, recv_into, select_error, select_timeout,
  small_buffer,
}
use kcp_fake_tcp.Client.Teardown.{
  set_state, accept_fin, at_deadline, acks_fin, on_ack, on_fin, recv_ack_loop, recv_fin_loop,
  waving_recv_ack, waving_recv_fin,
}
use kcp_fake_tcp.Client.Teardown.Hear.{AckOf, FinFor}

module _ {K : Type 0} where
  -- Rounds in which the wait for the acknowledgement goes on: there is nothing to read, or a packet
  -- that is no reset and does not acknowledge the FIN, and the deadline is not passed.
  abbrev pub NoAck : Client K → List Poll → Type 0
  NoAck c [] = Unit
  NoAck c (not_ready expired ∷ ps) = (expired ≡ false) × NoAck c ps
  NoAck c (received datagram expired ∷ ps) =
      ((buffer : List ℕ)
        → ((recv_info 41 buffer datagram).rst ≡ 0)
          × (acks_fin (recv_info 41 buffer datagram) c ≡ false))
      × (expired ≡ false)
      × NoAck c ps
  NoAck c (p ∷ ps) = ⊥

  -- Rounds in which the wait for the server's FIN goes on: there is nothing to read, or a packet for
  -- another port, and the deadline is not passed.
  abbrev pub Foreign : Client K → List Poll → Type 0
  Foreign c [] = Unit
  Foreign c (not_ready expired ∷ ps) = (expired ≡ false) × Foreign c ps
  Foreign c (received datagram expired ∷ ps) =
      ((buffer : List ℕ) → (recv_info 41 buffer datagram).port_dst ≢ c.c_port)
      × (expired ≡ false)
      × Foreign c ps
  Foreign c (p ∷ ps) = ⊥

  pub recv_ack_loop-NoAck :
      (quiet ps : List Poll) (buffer : List ℕ) (c : Client K)
      → NoAck c quiet
      → (buffer' : List ℕ) × (recv_ack_loop (quiet ++ ps) buffer c ≡ recv_ack_loop ps buffer' c)
  unfolding recv_ack_loop at_deadline
  recv_ack_loop-NoAck [] ps buffer c q = (buffer, refl)
  recv_ack_loop-NoAck (select_error ∷ quiet) ps buffer c q = absurd q
  recv_ack_loop-NoAck (select_timeout ∷ quiet) ps buffer c q = absurd q
  recv_ack_loop-NoAck (recv_failed ∷ quiet) ps buffer c q = absurd q
  recv_ack_loop-NoAck (not_ready expired ∷ quiet) ps buffer c q =
      let (buffer', rest) = recv_ack_loop-NoAck quiet ps buffer c q.1 in (buffer', rw q.0 rest)
  recv_ack_loop-NoAck (received datagram expired ∷ quiet) ps buffer c q =
      let (buffer', rest) = recv_ack_loop-NoAck quiet ps (recv_into 41 buffer datagram) c q.2 in
      let no_reset : ((recv_info 41 buffer datagram).rst == 0) ≡ true =
        ground (arith, (q.0 buffer).0) in
      (buffer', rw no_reset (rw (q.0 buffer).1 (rw q.1 rest)))

  pub recv_fin_loop-Foreign :
      (quiet ps : List Poll) (buffer : List ℕ) (c : Client K)
      → Foreign c quiet
      → (buffer' : List ℕ) × (recv_fin_loop (quiet ++ ps) buffer c ≡ recv_fin_loop ps buffer' c)
  unfolding recv_fin_loop at_deadline
  recv_fin_loop-Foreign [] ps buffer c q = (buffer, refl)
  recv_fin_loop-Foreign (select_error ∷ quiet) ps buffer c q = absurd q
  recv_fin_loop-Foreign (select_timeout ∷ quiet) ps buffer c q = absurd q
  recv_fin_loop-Foreign (recv_failed ∷ quiet) ps buffer c q = absurd q
  recv_fin_loop-Foreign (not_ready expired ∷ quiet) ps buffer c q =
      let (buffer', rest) = recv_fin_loop-Foreign quiet ps buffer c q.1 in (buffer', rw q.0 rest)
  recv_fin_loop-Foreign (received datagram expired ∷ quiet) ps buffer c q =
      let (buffer', rest) = recv_fin_loop-Foreign quiet ps (recv_into 41 buffer datagram) c q.2 in
      let other : ((recv_info 41 buffer datagram).port_dst == c.c_port) ≡ false =
        ground (arith, q.0 buffer) in
      (buffer', rw other (rw q.1 rest))

  pub recv_ack_loop-ack :
      (quiet ps : List Poll) (datagram : List ℕ) (late : Bool) (c : Client K)
      → NoAck c quiet
      → ((buffer : List ℕ) → AckOf c (recv_info 41 buffer datagram))
      → waving_recv_ack (quiet ++ received datagram late ∷ ps) c
        ≡ returned (set_state tcp_fin_wait2 c)
  unfolding waving_recv_ack recv_ack_loop on_ack acks_fin
  recv_ack_loop-ack quiet ps datagram late c q ack =
      let (buffer, heard) =
        recv_ack_loop-NoAck quiet (received datagram late ∷ ps) small_buffer c q in
      let info = recv_info 41 buffer datagram in
      let a = ack buffer in
      let t1 : (info.rst == 0) ≡ true = ground (arith, a.no_reset) in
      let t2 : (info.port_dst == c.c_port) ≡ true = ground (arith, a.for_us) in
      let t3 : (info.ack_seq == u32 (c.seq + c.client_sum_send + 1)) ≡ true =
        ground (arith, a.acked) in
      let t4 : (info.ack == 0) ≡ false = ground (arith, a.flagged) in
      let t5 : (info.fin == 0) ≡ true = ground (arith, a.no_fin) in
      heard ∙ rw t1 (rw t2 (rw t3 (rw t4 (rw t5 refl))))

  pub recv_fin_loop-fin :
      (quiet ps : List Poll) (datagram : List ℕ) (late : Bool) (info : TcpInfo) (c : Client K)
      → Foreign c quiet
      → ((buffer : List ℕ) → recv_info 41 buffer datagram ≡ info)
      → FinFor c info
      → waving_recv_fin (quiet ++ received datagram late ∷ ps) c ≡ returned (accept_fin info c)
  unfolding waving_recv_fin recv_fin_loop on_fin
  recv_fin_loop-fin quiet ps datagram late info c q reads a =
      let (buffer, heard) =
        recv_fin_loop-Foreign quiet (received datagram late ∷ ps) small_buffer c q in
      let t1 : (info.port_dst == c.c_port) ≡ true = ground (arith, a.for_us) in
      let t2 : (info.rst == 0) ≡ true = ground (arith, a.no_reset) in
      let t3 : (info.fin == 0) ≡ false = ground (arith, a.is_fin) in
      heard ∙ rw (reads buffer) (rw t1 (rw t2 (rw t3 refl)))
