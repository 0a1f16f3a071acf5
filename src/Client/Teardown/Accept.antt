-- ===== src/Client/Teardown/Accept.antt =====
-- `waving_recv_ack` and the packets that it hears (code/kcp/kcp_client.cc).
use kcp_fake_tcp.Base.{
  ℕ, ◌+◌, ◌≡◌, ◌≢◌, ◌⊎◌, inl, inr, refl, subst, List, [], ◌∷◌, ◌==◌, Bool, true, false, Bool-cases,
  u32, arith,
}
use kcp_fake_tcp.Wire.Info.{TcpInfo}
use kcp_fake_tcp.Client.Outcome.{returned, Returns, Returns-map}
use kcp_fake_tcp.Client.State.{ConnState, tcp_fin_wait2, tcp_close_wait, Client}
use kcp_fake_tcp.Client.Receive.{
  Heard, Poll, not_ready, received, recv_failed, recv_info, recv_into, select_error, select_timeout,
  small_buffer,
}
use kcp_fake_tcp.Client.Teardown.{
  set_state, accept_fin, at_deadline, acks_fin, on_ack, recv_ack_loop, waving_recv_ack,
}

-- The states in which the FIN counts as acknowledged.
abbrev pub past_fin : ConnState → Bool
past_fin tcp_fin_wait2 = true
past_fin tcp_close_wait = true
past_fin _ = false

module _ {K : Type 0} where
  -- Why the client moved on from `c` to `c'`.
  pub record AckedBy (c c' : Client K) (info : TcpInfo) : Type 0 where
    pub no_reset : info.rst ≡ 0
    pub for_us : info.port_dst ≡ c.c_port
    pub acked : info.ack_seq ≡ u32 (c.seq + c.client_sum_send + 1)
    pub flagged : info.ack ≢ 0
    pub moved :
        ((info.fin ≡ 0) × (c' ≡ set_state tcp_fin_wait2 c))
        ⊎ ((info.fin ≢ 0) × (c' ≡ accept_fin info c))

  abbrev Reason : List Poll → Client K → Client K → Type 0
  Reason ps c c' =
      past_fin c'.s_state ≡ true → (info : TcpInfo) × Heard 41 ps info × AckedBy c c' info

  abbrev NotPast : Client K → Type 0
  NotPast c = past_fin c.s_state ≡ false

  on_ack-AckedBy :
      (info : TcpInfo) (c : Client K)
      → info.rst ≡ 0
      → acks_fin info c ≡ true
      → Returns (λ c'. AckedBy c c' info) (on_ack info c)
  unfolding on_ack acks_fin
  on_ack-AckedBy info c no_reset acks =
      let for_us : info.port_dst ≡ c.c_port = ground arith in
      let acked : info.ack_seq ≡ u32 (c.seq + c.client_sum_send + 1) = ground arith in
      elim (Bool-cases (info.ack == 0)) [
        | inl unflagged ↦ rw unflagged tt
        | inr flagged ↦ rw flagged (elim (Bool-cases (info.fin == 0)) [
          | inl only_ack ↦ rw only_ack (record {
            no_reset = no_reset;
            for_us = for_us;
            acked = acked;
            flagged = ground arith;
            moved = inl (ground arith, refl);
          })
          | inr with_fin ↦ rw with_fin (record {
            no_reset = no_reset;
            for_us = for_us;
            acked = acked;
            flagged = ground arith;
            moved = inr (ground arith, refl);
          })
        ])
      ]

  later :
      (datagram : List ℕ) (expired : Bool) (ps : List Poll) (c c' : Client K)
      → Reason ps c c'
      → Reason (received datagram expired ∷ ps) c c'
  later datagram expired ps c c' why f = let (info, heard, by) = why f in (info, inr heard, by)

  recv_ack_loop-Reason :
      (ps : List Poll) (buffer : List ℕ) (c : Client K)
      → NotPast c
      → Returns (Reason ps c) (recv_ack_loop ps buffer c)
  unfolding recv_ack_loop at_deadline
  recv_ack_loop-Reason [] buffer c e = tt
  recv_ack_loop-Reason (select_error ∷ ps) buffer c e = λ f. cc
  recv_ack_loop-Reason (select_timeout ∷ ps) buffer c e = λ f. cc
  recv_ack_loop-Reason (recv_failed ∷ ps) buffer c e = λ f. cc
  recv_ack_loop-Reason (not_ready true ∷ ps) buffer c e = λ f. cc
  recv_ack_loop-Reason (not_ready false ∷ ps) buffer c e = recv_ack_loop-Reason ps buffer c e
  recv_ack_loop-Reason (received datagram expired ∷ ps) buffer c e =
      let info = recv_info 41 buffer datagram in
      let buffer' = recv_into 41 buffer datagram in
      elim (Bool-cases (info.rst == 0)) [
        | inr reset ↦ rw reset (λ f. cc)
        | inl no_reset ↦ rw no_reset (elim (Bool-cases (acks_fin info c)) [
          | inl acks ↦ rw acks (
              Returns-map _ _ (on_ack info c) (λ c' by f. (info, inl (buffer, refl), by))
                (on_ack-AckedBy info c (ground arith) acks))
          | inr other ↦ rw other (elim (Bool-cases expired) [
            | inl late ↦ rw late (λ f. cc)
            | inr early ↦ rw early (
                Returns-map _ _ (recv_ack_loop ps buffer' c) (later datagram expired ps c)
                  (recv_ack_loop-Reason ps buffer' c e))
          ])
        ])
      ]

  -- `waving_recv_ack` lets the client past its FIN only on a packet that it received, that is no
  -- reset, is addressed to the client's port, carries the ACK flag and acknowledges exactly the
  -- FIN; and the client then is in FIN_WAIT2 if the packet is no FIN, and otherwise in CLOSE_WAIT
  -- with the FIN accounted for.
  pub waving_recv_ack-AckedBy :
      (ps : List Poll) (c c' : Client K)
      → past_fin c.s_state ≡ false
      → waving_recv_ack ps c ≡ returned c'
      → past_fin c'.s_state ≡ true
      → (info : TcpInfo) × Heard 41 ps info × AckedBy c c' info
  unfolding waving_recv_ack
  waving_recv_ack-AckedBy ps c c' e r =
      subst (Returns (Reason ps c)) r (recv_ack_loop-Reason ps small_buffer c e)
