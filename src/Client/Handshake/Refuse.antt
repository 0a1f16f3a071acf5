-- ===== src/Client/Handshake/Refuse.antt =====
-- The opening handshake where it does not go on to send the file (code/kcp/kcp_client.cc).
use kcp_fake_tcp.Base.{
  ℕ, ◌+◌, ◌≡◌, ◌≢◌, inl, inr, refl, ap, ◌∙◌, String, List, [], ◌∷◌, false, ◌==◌, if◌then◌else◌, u32,
  replicate, arith, Bool-cases, ==_iff,
}
use kcp_fake_tcp.Wire.Header.{ip_tcp_header_size}
use kcp_fake_tcp.Wire.Info.{TcpInfo}
use kcp_fake_tcp.Client.Outcome.{Outcome, returned, aborted}
use kcp_fake_tcp.Client.State.{tcp_syn_send, Client}
use kcp_fake_tcp.Client.Receive.{
  Poll, select_error, select_timeout, recv_failed, not_ready, received, recv_into, recv_info, Heard,
}
use kcp_fake_tcp.Client.Header.{build_ip_tcp_header}
use kcp_fake_tcp.Client.Output.{SendEvent, select_failed, not_writable, send_failed, sent}
use kcp_fake_tcp.Client.Teardown.{set_state}
use kcp_fake_tcp.Client.Handshake.{
  non_blocking_send, positive, Reply, answered, server_fin, gave_up, no_reply, reply_loop,
  HandshakeRun, is_closed, acknowledge, on_reply, start_hand_shake,
}

-- No packet for the port acknowledges the sequence number `seq`.
abbrev pub NoAnswer : ℕ → ℕ → List Poll → Type 0
NoAnswer port seq ps =
    (info : TcpInfo) → Heard 1024 ps info → info.port_dst ≡ port → info.ack_seq ≢ u32 (seq + 1)

reply_loop-Heard :
    (port : ℕ) (ps : List Poll) (buffer buffer' : List ℕ) (info : TcpInfo)
    → reply_loop port ps buffer ≡ answered info buffer'
    → Heard 1024 ps info × (info.port_dst ≡ port)
unfolding reply_loop
reply_loop-Heard port [] buffer buffer' info e = cc
reply_loop-Heard port (select_error ∷ ps) buffer buffer' info e =
    reply_loop-Heard port ps buffer buffer' info e
reply_loop-Heard port (select_timeout ∷ ps) buffer buffer' info e =
    reply_loop-Heard port ps buffer buffer' info e
reply_loop-Heard port (recv_failed ∷ ps) buffer buffer' info e =
    reply_loop-Heard port ps buffer buffer' info e
reply_loop-Heard port (not_ready x ∷ ps) buffer buffer' info e =
    reply_loop-Heard port ps buffer buffer' info e
reply_loop-Heard port (received d x ∷ ps) buffer buffer' info e =
    let heard = recv_info 1024 buffer d in
    let later = reply_loop-Heard port ps (recv_into 1024 buffer d) buffer' info in
    elim (Bool-cases (heard.port_dst == port)) [
      | inl here ↦
          let same : info ≡ heard = ground arith in
          (inl (buffer, same), ap (λ (i : TcpInfo). i.port_dst) same ∙ (==_iff _ _).0 here)
      | inr elsewhere ↦ let (found, for_us) = later (ground arith) in (inr found, for_us)
    ]

build_keeps :
    {K : Type 0} (inet_addr : String → ℕ) (c : Client K)
    → let c' = (build_ip_tcp_header inet_addr (replicate 1024 0) [] 0 0 0 1 0 c).1 in
      (c'.seq ≡ c.seq) × (c'.c_port ≡ c.c_port)
unfolding build_ip_tcp_header
build_keeps inet_addr c = (refl, refl)

module _ {K : Type 0} (inet_addr : String → ℕ) (f g : Client K → Outcome (Client K)) where
  on_reply-blind :
      (run : HandshakeRun) (reply : Reply) (c : Client K)
      → ((info : TcpInfo) (buffer : List ℕ)
          → reply ≡ answered info buffer
          → info.ack_seq ≢ u32 (c.seq + 1))
      → on_reply inet_addr f run reply c ≡ on_reply inet_addr g run reply c
  unfolding on_reply acknowledge
  on_reply-blind run (answered info buffer) c h =
      let t : (info.ack_seq == u32 (c.seq + 1)) ≡ false = ground (arith, h info buffer refl) in rw t
  on_reply-blind run server_fin c h = refl
  on_reply-blind run gave_up c h = refl
  on_reply-blind run no_reply c h = refl

  send_keeps :
      (e : SendEvent) (bytes : List ℕ) (len : ℕ) (c : Client K)
      → ((non_blocking_send e bytes len c).0.seq ≡ c.seq)
        × ((non_blocking_send e bytes len c).0.c_port ≡ c.c_port)
  unfolding non_blocking_send
  send_keeps select_failed bytes len c = (refl, refl)
  send_keeps not_writable bytes len c = (refl, refl)
  send_keeps send_failed bytes len c = (refl, refl)
  send_keeps sent bytes len c = (refl, refl)

  -- Unless a packet for the client's port acknowledges the SYN, `send_file` is never called: the
  -- handshake does the same whatever `send_file` does.
  pub start_hand_shake-refuses :
      (run : HandshakeRun) (c : Client K)
      → NoAnswer c.c_port c.seq run.polls
      → start_hand_shake inet_addr f run c ≡ start_hand_shake inet_addr g run c
  unfolding start_hand_shake
  start_hand_shake-refuses run c h =
      let built = build_ip_tcp_header inet_addr (replicate 1024 0) [] 0 0 0 1 0 c in
      let c1 = set_state tcp_syn_send built.1 in
      let step = non_blocking_send run.syn_event built.0 ip_tcp_header_size c1 in
      let kept = build_keeps inet_addr c in
      let kept' = send_keeps run.syn_event built.0 ip_tcp_header_size c1 in
      let same_seq : step.0.seq ≡ c.seq = kept'.0 ∙ kept.0 in
      let same_port : step.0.c_port ≡ c.c_port = kept'.1 ∙ kept.1 in
      let reply = reply_loop step.0.c_port run.polls built.0 in
      ap
        (λ (x : Outcome (Client K)).
          if is_closed c.s_state then if positive step.1 then x else returned step.0 else aborted)
        (on_reply-blind run reply step.0 (λ info buffer e acked.
          let (found, for_us) = reply_loop-Heard step.0.c_port run.polls built.0 buffer info e in
          h info found (for_us ∙ same_port) (omega (arith, acked, same_seq))))
