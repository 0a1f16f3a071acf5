-- ===== src/Client/Teardown.antt =====
-- The closing handshake: `waving_send_fin`, `waving_recv_ack`, `waving_recv_fin`,
-- `waving_send_ack`, `start_waving` and `finish` (code/kcp/kcp_client.cc).
pub mod Diagram
pub mod Accept
pub mod Hear
pub mod Ignored
pub mod Complete
pub mod Disturbed
use kcp_fake_tcp.Base.{
  ℕ, ◌+◌, String, List, [], ◌∷◌, ◌++◌, Bool, true, false, ◌==◌, if◌then◌else◌, u32, take, length,
  replicate, memcpy,
}
use kcp_fake_tcp.Wire.Header.{ip_tcp_header_size}
use kcp_fake_tcp.Wire.Info.{TcpInfo, prase_tcp_packet}
use kcp_fake_tcp.Client.Outcome.{Outcome, returned, waiting, aborted, ◌>>=◌}
use kcp_fake_tcp.Client.State.{
  ConnState, tcp_established, tcp_fin_wait1, tcp_fin_wait2, tcp_close_wait, tcp_closing, Client,
}
use kcp_fake_tcp.Client.Receive.{
  Poll, not_ready, received, recv_failed, recv_info, recv_into, select_error, select_timeout,
  small_buffer,
}
use kcp_fake_tcp.Client.Header.{build_ip_tcp_header}

-- `s_state = state`.
unfoldable pub set_state : {K : Type 0} → ConnState → Client K → Client K
set_state state c = record c { s_state = state }

-- `server_ack_seq.store(info.seq + 1); seq++; s_state = TCP_CLOSE_WAIT;`
unfoldable pub accept_fin : {K : Type 0} → TcpInfo → Client K → Client K
accept_fin info c = record c {
  server_ack_seq = u32 (info.seq + 1);
  seq = u32 (c.seq + 1);
  s_state = tcp_close_wait;
}

-- A packet without payload is built in a fresh buffer and its headers are sent. `delivered` says
-- whether `sendto` took them; if it did, the state moves on to `next`.
unfoldable pub send_control :
    {K : Type 0} → (String → ℕ) → ℕ → ConnState → Bool → Client K → Client K
send_control inet_addr fin next delivered c =
    let (bytes, c') = build_ip_tcp_header inet_addr small_buffer [] 0 1 0 0 fin c in
    if delivered
    then record c' { wire = c'.wire ++ take ip_tcp_header_size bytes ∷ []; s_state = next }
    else c'

unfoldable pub waving_send_fin : {K : Type 0} → (String → ℕ) → Bool → Client K → Client K
unfolding send_control
waving_send_fin inet_addr delivered c = send_control inet_addr 1 tcp_fin_wait1 delivered c

unfoldable pub waving_send_ack : {K : Type 0} → (String → ℕ) → Bool → Client K → Client K
unfolding send_control
waving_send_ack inet_addr delivered c = send_control inet_addr 0 tcp_closing delivered c

module _ {K : Type 0} where
  -- The deadline of a receive loop: past it the connection counts as established again.
  unfoldable pub at_deadline : Bool → Client K → Outcome (Client K) → Outcome (Client K)
  unfolding set_state
  at_deadline expired c rest = if expired then returned (set_state tcp_established c) else rest

  -- `info.port_dst == c_port && info.ack_seq == seq + CLIENT_SUM_SEND.load() + 1`
  unfoldable pub acks_fin : TcpInfo → Client K → Bool
  acks_fin info c =
      if info.port_dst == c.c_port
      then info.ack_seq == u32 (c.seq + c.client_sum_send + 1)
      else false

  -- What `waving_recv_ack` does on a packet that acknowledges the FIN.
  unfoldable pub on_ack : TcpInfo → Client K → Outcome (Client K)
  unfolding accept_fin set_state
  on_ack info c =
      if info.ack == 0
      then aborted
      else if info.fin == 0
      then returned (set_state tcp_fin_wait2 c)
      else returned (accept_fin info c)

  -- What `waving_recv_fin` does on a packet for this port.
  unfoldable pub on_fin : TcpInfo → Client K → Outcome (Client K)
  unfolding accept_fin set_state
  on_fin info c =
      if info.rst == 0
      then if info.fin == 0 then aborted else returned (accept_fin info c)
      else returned (set_state tcp_closing c)

  -- The loop of `waving_recv_ack` over its buffer.
  unfoldable pub recv_ack_loop : List Poll → List ℕ → Client K → Outcome (Client K)
  unfolding at_deadline set_state
  recv_ack_loop [] buffer c = waiting c
  recv_ack_loop (select_error ∷ ps) buffer c = returned c
  recv_ack_loop (select_timeout ∷ ps) buffer c = returned c
  recv_ack_loop (recv_failed ∷ ps) buffer c = returned c
  recv_ack_loop (not_ready expired ∷ ps) buffer c =
      at_deadline expired c (recv_ack_loop ps buffer c)
  recv_ack_loop (received datagram expired ∷ ps) buffer c =
      let info = recv_info 41 buffer datagram in
      let rest = recv_ack_loop ps (recv_into 41 buffer datagram) c in
      if info.rst == 0
      then if acks_fin info c then on_ack info c else at_deadline expired c rest
      else returned (set_state tcp_closing c)

  unfoldable pub waving_recv_ack : List Poll → Client K → Outcome (Client K)
  unfolding recv_ack_loop
  waving_recv_ack ps c = recv_ack_loop ps small_buffer c

  -- The loop of `waving_recv_fin` over its buffer.
  unfoldable pub recv_fin_loop : List Poll → List ℕ → Client K → Outcome (Client K)
  unfolding at_deadline
  recv_fin_loop [] buffer c = waiting c
  recv_fin_loop (select_error ∷ ps) buffer c = returned c
  recv_fin_loop (select_timeout ∷ ps) buffer c = returned c
  recv_fin_loop (recv_failed ∷ ps) buffer c = returned c
  recv_fin_loop (not_ready expired ∷ ps) buffer c =
      at_deadline expired c (recv_fin_loop ps buffer c)
  recv_fin_loop (received datagram expired ∷ ps) buffer c =
      let info = recv_info 41 buffer datagram in
      let rest = recv_fin_loop ps (recv_into 41 buffer datagram) c in
      if info.port_dst == c.c_port then on_fin info c else at_deadline expired c rest

  unfoldable pub waving_recv_fin : List Poll → Client K → Outcome (Client K)
  unfolding recv_fin_loop
  waving_recv_fin ps c = recv_fin_loop ps small_buffer c

abbrev pub is_closing : ConnState → Bool
is_closing tcp_closing = true
is_closing _ = false

-- What the system answers to one call of `start_waving`, and whether the clock of `finish` has
-- passed its deadline after it.
pub record WaveRound : Type 0 where
  pub delivered : Bool
  pub polls : List Poll
  pub expired : Bool

module _ {K : Type 0} (inet_addr : String → ℕ) where
  -- The switch on `s_state`.
  unfoldable pub wave_in : ConnState → WaveRound → Client K → Outcome (Client K)
  wave_in tcp_established r c = returned (waving_send_fin inet_addr r.delivered c)
  wave_in tcp_fin_wait1 r c = waving_recv_ack r.polls c
  wave_in tcp_fin_wait2 r c = waving_recv_fin r.polls c
  wave_in tcp_close_wait r c = returned (waving_send_ack inet_addr r.delivered c)
  wave_in _ r c = returned c

  unfoldable pub start_waving : WaveRound → Client K → Outcome (Client K)
  unfolding wave_in
  start_waving r c = wave_in c.s_state r c

  -- `finish`: rounds until the connection is closing or three seconds have passed.
  unfoldable pub finish : List WaveRound → Client K → Outcome (Client K)
  unfolding start_waving
  finish [] c = if is_closing c.s_state then returned c else waiting c
  finish (r ∷ rs) c =
      let next = start_waving r c >>= λ c'. if r.expired then returned c' else finish rs c' in
      if is_closing c.s_state then returned c else next
