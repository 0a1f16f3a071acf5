-- ===== src/Client/Loop/Guarantee.antt =====
-- `run_tcp_client` beside the other threads of a client (code/kcp/kcp_client.cc).
use kcp_fake_tcp.Base.{
  ℕ, zero, suc, ◌==◌, String, List, [], ◌∷◌, Bool, true, false, Option, none, some, if◌then◌else◌,
  length, take, inl, inr, Bool-cases,
}
use kcp_fake_tcp.Kcp.{Kcp}
use kcp_fake_tcp.Wire.Info.{TcpInfo, prase_tcp_packet}
use kcp_fake_tcp.Client.Outcome.{
  Outcome, returned, waiting, aborted, Survives, Survives-then, Survives-cases,
}
use kcp_fake_tcp.Client.State.{Client}
use kcp_fake_tcp.Client.Receive.{recv_into}
use kcp_fake_tcp.Client.Loop.{
  LoopEvent, idle, recv_error, datagram, LoopRound, is_finish, data_size, payload, next_ack, update,
  on_message, recv_messages, on_data, on_packet, on_event, run_tcp_client,
}
use kcp_fake_tcp.Client.Loop.Steady.{
  HasBlock, Steady, Steady-trans, Steady-counted, nothing_more, Steady-self, Steady-block,
  Steady-answered, Steady-ended, Relies, update-Steady,
}

module _ {K : Type 0} (kcp : Kcp K) (inet_addr : String → ℕ) where
  on_message-Steady :
      (message : List ℕ) (c : Client K) → Steady c (on_message kcp inet_addr message c)
  unfolding on_message
  on_message-Steady message c = elim (Bool-cases (is_finish message)) [
    | inl here ↦ rw here (Steady-answered c)
    | inr there ↦ rw there (Steady-self c)
  ]

  received-Steady :
      (message : Option (List ℕ)) (a c : Client K) (f : List ℕ → Outcome (Client K))
      → Steady a c
      → ((m : List ℕ) → Survives (Steady a) (f m))
      → Survives
          (Steady a)
          (elim message [ none ↦ returned c | some [] ↦ returned c | some (b ∷ bs) ↦ f (b ∷ bs) ])
  received-Steady none a c f h g = h
  received-Steady (some []) a c f h g = h
  received-Steady (some (b ∷ bs)) a c f h g = g (b ∷ bs)

  recv_messages-Steady :
      (fuel : ℕ) (limit : Option ℕ) (k : K) (a c : Client K)
      → Steady a c
      → Survives (Steady a) (recv_messages kcp inet_addr fuel limit k c)
  unfolding recv_messages
  recv_messages-Steady zero limit k a c h = h
  recv_messages-Steady (suc fuel) limit k a c h =
      let (k', message) = kcp.recv limit k in
      let c' = record c { m_kcp = some k' } in
      let h' = Steady-trans h (Steady-block c k') in
      received-Steady message a c'
        (λ m. recv_messages kcp inet_addr fuel limit k' (on_message kcp inet_addr m c')) h'
        (λ m.
          recv_messages-Steady fuel limit k' a (on_message kcp inet_addr m c')
            (Steady-trans h' (on_message-Steady m c')))

  on_data-Steady :
      (fuel : ℕ) (buffer : List ℕ) (size : Option ℕ) (info : TcpInfo) (a c : Client K)
      → HasBlock a
      → Steady a c
      → Survives (λ t. Steady a t.0) (on_data kcp inet_addr fuel buffer size info c)
  unfolding on_data
  on_data-Steady fuel buffer size info a c block h =
      let (k', accepted) = kcp.input (payload buffer size) (h.block block).0 in
      let h' = Steady-trans h (Steady-block c k') in
      rw ((h.block block).1, on_data)
        (Survives-cases (λ t. Steady a t.0) accepted
          (elim (recv_messages kcp inet_addr fuel size k' (record c { m_kcp = some k' })) [
            | aborted ↦ aborted
            | waiting c'' ↦ waiting (c'', false)
            | returned c'' ↦ returned (c'', false)
          ])
          (returned (record c { m_kcp = some k' }, if info.fin == 0 then false else true))
          (λ e.
            Survives-then (Steady a) (λ t. Steady a t.0) (λ c''. (c'', false))
              (λ c''. returned (c'', false))
              (recv_messages kcp inet_addr fuel size k' (record c { m_kcp = some k' }))
              (recv_messages-Steady fuel size k' a (record c { m_kcp = some k' }) h') (λ c'' g. g)
              (λ c'' g. g))
          (λ e. h'))

  on_packet-Steady :
      (fuel : ℕ) (buffer : List ℕ) (len : Option ℕ) (a c : Client K)
      → HasBlock a
      → Steady a c
      → Survives (λ t. Steady a t.0) (on_packet kcp inet_addr fuel buffer len c)
  unfolding on_packet
  on_packet-Steady fuel buffer len a c block h =
      let info = prase_tcp_packet buffer (elim len [ none ↦ 0 | some n ↦ n ]) in
      let c' = record c { server_ack_seq = next_ack info.seq len } in
      let h' : Steady a c' = Steady-trans h (
        Steady-counted c c.ip_id (next_ack info.seq len) c.client_sum_send c.wire
          (nothing_more c)) in
      Survives-cases (λ t. Steady a t.0) (info.port_dst == c.c_port) _ (returned (c, false))
        (λ e. sized (data_size len) info c' h') (λ e. h)
    where
      sized :
          (size : Option ℕ) (info : TcpInfo) (c' : Client K)
          → Steady a c'
          → Survives
              (λ t. Steady a t.0)
              (elim size [
                | none ↦ on_data kcp inet_addr fuel buffer none info c'
                | some zero ↦ returned (c', false)
                | some (suc n) ↦ on_data kcp inet_addr fuel buffer (some (suc n)) info c'
              ])
      sized none info c' g = on_data-Steady fuel buffer none info a c' block g
      sized (some zero) info c' g = g
      sized (some (suc n)) info c' g = on_data-Steady fuel buffer (some (suc n)) info a c' block g

  on_event-Steady :
      (fuel : ℕ) (event : LoopEvent) (buffer : List ℕ) (a c : Client K)
      → HasBlock a
      → Steady a c
      → Survives (λ t. Steady a t.0) (on_event kcp inet_addr fuel event buffer c).1
  unfolding on_event
  on_event-Steady fuel idle buffer a c block h = h
  on_event-Steady fuel recv_error buffer a c block h = on_packet-Steady fuel buffer none a c block h
  on_event-Steady fuel (datagram bytes) buffer a c block h =
      on_packet-Steady fuel (recv_into 1024 buffer bytes) (some (length (take 1024 bytes))) a c
        block h

  -- What follows the event of a round.
  ended-Steady :
      (o : Outcome (Client K × Bool)) (a : Client K) (f : Client K → Outcome (Client K))
      → Survives (λ t. Steady a t.0) o
      → ((c : Client K) → Steady a c → Survives (Steady a) (f c))
      → Survives (Steady a) (elim o [
        | aborted ↦ aborted
        | waiting (c2, _) ↦ waiting c2
        | returned (c2, true) ↦ returned (record c2 { finish_loop = true })
        | returned (c2, false) ↦ f c2
      ])
  ended-Steady (returned (c, true)) a f h g = Steady-trans h (Steady-ended c)
  ended-Steady (returned (c, false)) a f h g = g c h
  ended-Steady (waiting (c, ended)) a f h g = h
  ended-Steady aborted a f h g = h

  rounds-Steady :
      (fuel : ℕ) (rounds : List (LoopRound K)) (buffer : List ℕ) (a c : Client K)
      → Relies kcp inet_addr rounds
      → HasBlock a
      → Steady a c
      → Survives (Steady a) (run_tcp_client kcp inet_addr fuel rounds buffer c)
  unfolding run_tcp_client
  rounds-Steady fuel [] buffer a c r block h =
      Survives-cases (Steady a) c.stop_flag (returned (record c { finish_loop = true })) (waiting c)
        (λ e. Steady-trans h (Steady-ended c)) (λ e. h)
  rounds-Steady fuel (round ∷ rounds) buffer a c r block h =
      let c0 = round.others c in
      let h0 : Steady a c0 = Steady-trans h (r.0 c) in
      Survives-cases (Steady a) c0.stop_flag _ _ (λ e. Steady-trans h0 (Steady-ended c0))
        (λ e.
          Survives-then (Steady a) (Steady a) (λ c1. c1) _
            (update kcp inet_addr round.clock round.answers c0)
            (update-Steady kcp inet_addr round.clock round.answers a c0 (h0.block block) h0)
            (λ c1 g. g)
            (λ c1 g.
              let step = on_event kcp inet_addr fuel round.event buffer c1 in
              ended-Steady step.1 a (run_tcp_client kcp inet_addr fuel rounds step.0)
                (on_event-Steady fuel round.event buffer a c1 block g)
                (λ c2 g2. rounds-Steady fuel rounds step.0 a c2 r.1 block g2)))

  -- `run_tcp_client` of a client with a control block, beside threads that keep what is to be kept,
  -- over any datagrams, those shorter than their headers too: no null pointer ends the process, and
  -- it keeps that as well.
  pub run_tcp_client-Steady :
      (fuel : ℕ) (rounds : List (LoopRound K)) (buffer : List ℕ) (c : Client K)
      → Relies kcp inet_addr rounds
      → HasBlock c
      → Survives (Steady c) (run_tcp_client kcp inet_addr fuel rounds buffer c)
  run_tcp_client-Steady fuel rounds buffer c r block =
      rounds-Steady fuel rounds buffer c c r block (Steady-self c)
