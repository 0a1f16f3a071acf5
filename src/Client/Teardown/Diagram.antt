-- ===== src/Client/Teardown/Diagram.antt =====
-- The transitions between the connection states that the closing handshake can make.
use kcp_fake_tcp.Base.{
  ℕ, ◌≡◌, ◌⊎◌, refl, subst, String, List, [], ◌∷◌, ◌==◌, Bool, true, false, Bool-cases, inl, inr,
}
use kcp_fake_tcp.Wire.Info.{TcpInfo}
use kcp_fake_tcp.Client.Outcome.{
  Outcome, returned, waiting, aborted, Leaves, Leaves-if, Leaves-map, Leaves-then, Returns,
  Returns-map, Returns-then,
}
use kcp_fake_tcp.Client.State.{
  ConnState, tcp_established, tcp_fin_wait1, tcp_fin_wait2, tcp_close_wait, tcp_closing, Client,
}
use kcp_fake_tcp.Client.Header.{build_ip_tcp_header}
use kcp_fake_tcp.Client.Receive.{
  Poll, not_ready, received, recv_failed, recv_info, recv_into, select_error, select_timeout,
  small_buffer,
}
use kcp_fake_tcp.Client.Teardown.{
  at_deadline, on_ack, on_fin, accept_fin, acks_fin, WaveRound, set_state, send_control,
  waving_send_fin, waving_send_ack, recv_ack_loop, waving_recv_ack, recv_fin_loop, waving_recv_fin,
  wave_in, start_waving, finish, is_closing,
}

-- One call of `start_waving`. A failure of the system leaves the state where it was.
infix 40 ◌⟶◌ ◌⟶*◌
pub data ◌⟶◌ : ConnState → ConnState → Type 0 where
  stay : {s : ConnState} → s ⟶ s
  fin_sent : tcp_established ⟶ tcp_fin_wait1
  fin_acked : tcp_fin_wait1 ⟶ tcp_fin_wait2
  fin_crossed : tcp_fin_wait1 ⟶ tcp_close_wait
  fin_heard : tcp_fin_wait2 ⟶ tcp_close_wait
  ack_sent : tcp_close_wait ⟶ tcp_closing
  reset_wait1 : tcp_fin_wait1 ⟶ tcp_closing
  reset_wait2 : tcp_fin_wait2 ⟶ tcp_closing
  late_wait1 : tcp_fin_wait1 ⟶ tcp_established
  late_wait2 : tcp_fin_wait2 ⟶ tcp_established

pub data ◌⟶*◌ : ConnState → ConnState → Type 0 where
  here : {s : ConnState} → s ⟶* s
  more : {s t u : ConnState} → s ⟶ t → t ⟶* u → s ⟶* u

-- The clock of `finish` passed its deadline after one of the rounds.
abbrev pub Late : List WaveRound → Type 0
Late [] = ⊥
Late (r ∷ rs) = (r.expired ≡ true) ⊎ Late rs

why_later : {A : Type 0} (rs : List WaveRound) → A ⊎ Late rs → A ⊎ ((false ≡ true) ⊎ Late rs)
why_later rs (inl a) = inl a
why_later rs (inr l) = inr (inr l)

module _ {K : Type 0} where
  -- The state of a client can be reached from `s` in one call.
  abbrev pub From : ConnState → Client K → Type 0
  From s c = s ⟶ c.s_state

  deadline-From :
      (s : ConnState) (expired : Bool) (c : Client K) (rest : Outcome (Client K))
      → s ⟶ tcp_established
      → Leaves (From s) rest
      → Leaves (From s) (at_deadline expired c rest)
  unfolding at_deadline
  deadline-From s expired c rest late h =
      Leaves-if (From s) expired (returned (set_state tcp_established c)) rest late h

  on_ack-From : (info : TcpInfo) (c : Client K) → Leaves (From tcp_fin_wait1) (on_ack info c)
  unfolding on_ack
  on_ack-From info c = Leaves-if (From tcp_fin_wait1) (info.ack == 0) aborted _ tt (
      Leaves-if (From tcp_fin_wait1) (info.fin == 0) (returned (set_state tcp_fin_wait2 c))
        (returned (accept_fin info c)) fin_acked fin_crossed)

  on_fin-From : (info : TcpInfo) (c : Client K) → Leaves (From tcp_fin_wait2) (on_fin info c)
  unfolding on_fin
  on_fin-From info c =
      Leaves-if (From tcp_fin_wait2) (info.rst == 0) _ (returned (set_state tcp_closing c))
        (Leaves-if (From tcp_fin_wait2) (info.fin == 0) aborted (returned (accept_fin info c)) tt
          fin_heard)
        reset_wait2

  recv_ack_loop-From :
      (ps : List Poll) (buffer : List ℕ) (c : Client K)
      → From tcp_fin_wait1 c
      → Leaves (From tcp_fin_wait1) (recv_ack_loop ps buffer c)
  unfolding recv_ack_loop
  recv_ack_loop-From [] buffer c e = e
  recv_ack_loop-From (select_error ∷ ps) buffer c e = e
  recv_ack_loop-From (select_timeout ∷ ps) buffer c e = e
  recv_ack_loop-From (recv_failed ∷ ps) buffer c e = e
  recv_ack_loop-From (not_ready expired ∷ ps) buffer c e =
      deadline-From tcp_fin_wait1 expired c _ late_wait1 (recv_ack_loop-From ps buffer c e)
  recv_ack_loop-From (received datagram expired ∷ ps) buffer c e =
      let info = recv_info 41 buffer datagram in
      let rest = recv_ack_loop-From ps (recv_into 41 buffer datagram) c e in
      Leaves-if (From tcp_fin_wait1) (info.rst == 0) _ (returned (set_state tcp_closing c))
        (Leaves-if (From tcp_fin_wait1) (acks_fin info c) (on_ack info c) _ (on_ack-From info c)
          (deadline-From tcp_fin_wait1 expired c _ late_wait1 rest))
        reset_wait1

  recv_fin_loop-From :
      (ps : List Poll) (buffer : List ℕ) (c : Client K)
      → From tcp_fin_wait2 c
      → Leaves (From tcp_fin_wait2) (recv_fin_loop ps buffer c)
  unfolding recv_fin_loop
  recv_fin_loop-From [] buffer c e = e
  recv_fin_loop-From (select_error ∷ ps) buffer c e = e
  recv_fin_loop-From (select_timeout ∷ ps) buffer c e = e
  recv_fin_loop-From (recv_failed ∷ ps) buffer c e = e
  recv_fin_loop-From (not_ready expired ∷ ps) buffer c e =
      deadline-From tcp_fin_wait2 expired c _ late_wait2 (recv_fin_loop-From ps buffer c e)
  recv_fin_loop-From (received datagram expired ∷ ps) buffer c e =
      let info = recv_info 41 buffer datagram in
      let rest = recv_fin_loop-From ps (recv_into 41 buffer datagram) c e in
      Leaves-if (From tcp_fin_wait2) (info.port_dst == c.c_port) (on_fin info c) _
        (on_fin-From info c) (deadline-From tcp_fin_wait2 expired c _ late_wait2 rest)

  module _ (inet_addr : String → ℕ) where
    send_control-From :
        (s : ConnState) (fin : ℕ) (next : ConnState) (delivered : Bool) (c : Client K)
        → s ⟶ next
        → From s c
        → From s (send_control inet_addr fin next delivered c)
    unfolding send_control build_ip_tcp_header
    send_control-From s fin next true c moved e = moved
    send_control-From s fin next false c moved e = e

    wave_in-From :
        (s : ConnState) (r : WaveRound) (c : Client K)
        → From s c
        → Leaves (From s) (wave_in inet_addr s r c)
    unfolding wave_in waving_recv_ack waving_recv_fin waving_send_fin waving_send_ack
    wave_in-From tcp_established r c e =
        send_control-From tcp_established 1 tcp_fin_wait1 r.delivered c fin_sent e
    wave_in-From tcp_fin_wait1 r c e = recv_ack_loop-From r.polls small_buffer c e
    wave_in-From tcp_fin_wait2 r c e = recv_fin_loop-From r.polls small_buffer c e
    wave_in-From tcp_close_wait r c e =
        send_control-From tcp_close_wait 0 tcp_closing r.delivered c ack_sent e
    wave_in-From _ r c e = e

    -- One call of `start_waving`, whatever the system answers, makes no transition outside the
    -- diagram, also where it still waits.
    pub start_waving-From :
        (r : WaveRound) (c : Client K) → Leaves (From c.s_state) (start_waving inet_addr r c)
    unfolding start_waving
    start_waving-From r c = wave_in-From c.s_state r c stay

    finish-path :
        (rs : List WaveRound) (c : Client K)
        → Leaves (λ c'. c.s_state ⟶* c'.s_state) (finish inet_addr rs c)
    unfolding finish
    finish-path [] c = Leaves-if _ (is_closing c.s_state) (returned c) (waiting c) here here
    finish-path (r ∷ rs) c = Leaves-if _ (is_closing c.s_state) (returned c) _ here (
        Leaves-then _ _ (start_waving inet_addr r c) _ (λ c' edge. more edge here)
          (start_waving-From r c)
          (λ c' edge.
            Leaves-map (λ x. c'.s_state ⟶* x.s_state) (λ x. c.s_state ⟶* x.s_state) _
              (λ c'' path. more edge path)
              (Leaves-if _ r.expired (returned c') (finish inet_addr rs c') here
                (finish-path rs c'))))

    finish-why :
        (rs : List WaveRound) (c : Client K)
        → Returns (λ c'. (is_closing c'.s_state ≡ true) ⊎ Late rs) (finish inet_addr rs c)
    unfolding finish
    finish-why [] c = elim (Bool-cases (is_closing c.s_state)) [
      | inl closing ↦ rw closing (inl closing)
      | inr still ↦ rw still tt
    ]
    finish-why (r ∷ rs) c = elim (Bool-cases (is_closing c.s_state)) [
      | inl closing ↦ rw closing (inl closing)
      | inr still ↦ rw still (
          Returns-then _ (start_waving inet_addr r c) _ (λ c'. elim (Bool-cases r.expired) [
            | inl late ↦ rw late (inr (inl refl))
            | inr early ↦
                rw early (
                  Returns-map _ _ (finish inet_addr rs c') (λ c''. why_later rs) (finish-why rs c'))
          ]))
    ]

    -- Where `finish` returns, it has gone along the diagram, and either the connection is closing
    -- or the deadline had passed after one of the rounds.
    pub finish_reaches :
        (rs : List WaveRound) (c c' : Client K)
        → finish inet_addr rs c ≡ returned c'
        → (c.s_state ⟶* c'.s_state) × ((is_closing c'.s_state ≡ true) ⊎ Late rs)
    finish_reaches rs c c' e = (
      subst (Leaves (λ x. c.s_state ⟶* x.s_state)) e (finish-path rs c),
      subst (Returns (λ x. (is_closing x.s_state ≡ true) ⊎ Late rs)) e (finish-why rs c),
    )
