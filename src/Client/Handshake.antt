-- ===== src/Client/Handshake.antt =====
-- The opening handshake: `nonBlockingSend` and `start_hand_shake` (code/kcp/kcp_client.cc).
pub mod Laws
pub mod Refuse
pub mod Silence
use kcp_fake_tcp.Base.{
  ℕ, ◌+◌, String, List, [], ◌∷◌, ◌++◌, Bool, true, false, ◌==◌, ltb, if◌then◌else◌, Option, none,
  some, u32, take, replicate,
}
use kcp_fake_tcp.Wire.Header.{ip_tcp_header_size}
use kcp_fake_tcp.Wire.Info.{TcpInfo}
use kcp_fake_tcp.Client.Outcome.{Outcome, returned, waiting, aborted}
use kcp_fake_tcp.Client.State.{ConnState, tcp_closed, tcp_syn_send, tcp_established, Client}
use kcp_fake_tcp.Client.Receive.{
  Poll, select_error, select_timeout, recv_failed, not_ready, received, recv_into, recv_info,
}
use kcp_fake_tcp.Client.Header.{build_ip_tcp_header}
use kcp_fake_tcp.Client.Output.{SendEvent, select_failed, not_writable, send_failed, sent}
use kcp_fake_tcp.Client.Teardown.{WaveRound, set_state, start_waving}

-- The result of `nonBlockingSend`; `none` is the -1 of a failed `sendto`.
unfoldable pub non_blocking_send :
    {K : Type 0} → SendEvent → List ℕ → ℕ → Client K → Client K × Option ℕ
non_blocking_send select_failed bytes len c = (c, some 0)
non_blocking_send not_writable bytes len c = (c, some 0)
non_blocking_send send_failed bytes len c = (c, none)
non_blocking_send sent bytes len c = (record c { wire = c.wire ++ take len bytes ∷ [] }, some len)

-- The negation of `ret <= 0`.
abbrev pub positive : Option ℕ → Bool
positive none = false
positive (some n) = ltb 0 n

-- What the loop that waits for the server's answer ends with: a packet for the client's port (and
-- the buffer it lies in), a FIN for that port, the deadline, or none of these yet.
pub data Reply : Type 0 where
  answered : TcpInfo → List ℕ → Reply
  server_fin gave_up no_reply : Reply

-- The loop over its buffer of 1024 bytes. A failed `select` is reported and not acted on: what
-- counts is whether `FD_ISSET` holds after it.
unfoldable pub reply_loop : ℕ → List Poll → List ℕ → Reply
reply_loop c_port [] buffer = no_reply
reply_loop c_port (received datagram expired ∷ ps) buffer =
    let buffer' = recv_into 1024 buffer datagram in
    let info = recv_info 1024 buffer datagram in
    let rest = reply_loop c_port ps buffer' in
    if info.port_dst == c_port
    then if info.fin == 0 then answered info buffer' else server_fin
    else if expired
    then gave_up
    else rest
reply_loop c_port (p ∷ ps) buffer = reply_loop c_port ps buffer

-- What the system answers in the course of the handshake.
pub record HandshakeRun : Type 0 where
  pub syn_event : SendEvent
  pub polls : List Poll
  pub wave : WaveRound
  pub ack_event : SendEvent

abbrev pub is_closed : ConnState → Bool
is_closed tcp_closed = true
is_closed _ = false

-- `seq++; server_ack_seq.store(info.seq + 1);`
unfoldable pub accept_syn_ack : {K : Type 0} → TcpInfo → Client K → Client K
accept_syn_ack info c = record c { seq = u32 (c.seq + 1); server_ack_seq = u32 (info.seq + 1) }

-- `send_file`, which the handshake ends in, is an argument here.
module _ {K : Type 0} (inet_addr : String → ℕ) (send_file : Client K → Outcome (Client K)) where
  -- From the check of `info.ack_seq` on.
  unfoldable pub acknowledge : SendEvent → TcpInfo → List ℕ → Client K → Outcome (Client K)
  unfolding accept_syn_ack non_blocking_send set_state
  acknowledge event info buffer c =
      let (bytes, c') = build_ip_tcp_header inet_addr buffer [] 0 1 0 0 0 (accept_syn_ack info c) in
      let (c'', ret) = non_blocking_send event bytes ip_tcp_header_size c' in
      if info.ack_seq == u32 (c.seq + 1)
      then if positive ret then send_file (set_state tcp_established c'') else returned c''
      else returned c

  -- What is done with the answer.
  unfoldable pub on_reply : HandshakeRun → Reply → Client K → Outcome (Client K)
  unfolding acknowledge set_state
  on_reply run (answered info buffer) c = acknowledge run.ack_event info buffer c
  on_reply run server_fin c = start_waving inet_addr run.wave (set_state tcp_established c)
  on_reply run gave_up c = returned c
  on_reply run no_reply c = waiting c

  unfoldable pub start_hand_shake : HandshakeRun → Client K → Outcome (Client K)
  unfolding non_blocking_send set_state
  start_hand_shake run c =
      let (bytes, c1) = build_ip_tcp_header inet_addr (replicate 1024 0) [] 0 0 0 1 0 c in
      let (c2, ret) =
        non_blocking_send run.syn_event bytes ip_tcp_header_size (set_state tcp_syn_send c1) in
      if is_closed c.s_state
      then if positive ret
        then on_reply run (reply_loop c2.c_port run.polls bytes) c2
        else returned c2
      else aborted
