-- ===== src/Client/Connection.antt =====
-- One connection of a client from `start_hand_shake` through `send_file` to the end of `finish`
-- (code/kcp/kcp_client.cc).
use mathlib.Core.List.{append_assoc}
use kcp_fake_tcp.Base.{
  ℕ, ◌+◌, ◌≤◌, ◌<◌, ◌≡◌, refl, ap, ◌∙◌, String, List, [], ◌∷◌, ◌++◌, Bool, true, some, u32, length,
}
use kcp_fake_tcp.Kcp.{Kcp}
use kcp_fake_tcp.Wire.Header.{ip_tcp_header_size}
use kcp_fake_tcp.Wire.Info.{TcpInfo, prase_tcp_packet}
use kcp_fake_tcp.Client.Outcome.{Outcome, returned, waiting}
use kcp_fake_tcp.Client.State.{tcp_closing, Client}
use kcp_fake_tcp.Client.Receive.{Poll, received}
use kcp_fake_tcp.Client.Header.Laws.{Carries, flags_of}
use kcp_fake_tcp.Client.Teardown.{WaveRound}
use kcp_fake_tcp.Client.Teardown.Complete.{past_both, Cooperates}
use kcp_fake_tcp.Client.Handshake.{accept_syn_ack, is_closed, start_hand_shake}
use kcp_fake_tcp.Client.Handshake.Laws.{
  Ignored, Reads, sends_both, connected, syn_packet, ack_packet, synchronised,
  start_hand_shake-connected, syn_packet-Carries, ack_packet-Carries, syn_packet-flags,
  ack_packet-flags,
}
use kcp_fake_tcp.Client.File.{file_header, SendRun, send_file}
use kcp_fake_tcp.Client.File.Finishes.{Answers, AtFinish-from}
use kcp_fake_tcp.Client.File.Whole.{started, name_of, send_file-AtFinish, AtFinish-closes}

module _ {K : Type 0} (kcp : Kcp K) (inet_addr : String → ℕ) where
  -- The handshake, and `send_file` behind it, whose closing handshake has the rounds `waves`.
  abbrev pub connect :
      SendRun K → List Poll → WaveRound → List WaveRound → Client K → Outcome (Client K)
  connect run polls wave waves c =
      let sends = send_file kcp inet_addr (record run { waves = waves }) in
      start_hand_shake inet_addr sends (sends_both inet_addr sends c polls wave) c

  -- A whole connection, from a closed client whose block holds no messages once its windows are set,
  -- with a file of less than 4 GiB under a name of at most 132 bytes. Both packets of the opening
  -- handshake are taken; the first packet for the client's port is no FIN and acknowledges the SYN;
  -- while the file is sent, the other threads keep what `Steady` names, and each of the three waits of
  -- `send_file` passes its test before its deadline, as `Answers` says; `c1` is the client where the
  -- closing handshake begins, and there the system and the server play along as `Cooperates` says.
  -- Then the call returns with the connection closing. The system has taken a packet with the flag
  -- SYN alone, one with ACK alone, what the threads have sent since, one with FIN and ACK, and one
  -- with ACK alone, in this order; the four have the client's ports and the sequence and
  -- acknowledgement numbers of the client as it stood when each was due.
  pub connect-closes :
      (sent : K → List (List ℕ))
      (appends : (bytes : List ℕ) (k : K) → sent (kcp.send bytes k) ≡ sent k ++ bytes ∷ [])
      (run : SendRun K) (content : List ℕ) (c c1 : Client K) (k : K) (quiet ps : List Poll)
      (datagram : List ℕ) (late : Bool) (wave : WaveRound) (info : TcpInfo)
      (ack_datagram fin_datagram : List ℕ) (r1 r2 r3 r4 : WaveRound) (rs : List WaveRound)
      → is_closed c.s_state ≡ true
      → c.m_kcp ≡ some k
      → sent (kcp.nodelay 1 10 2 1 (kcp.wndsize 256 256 k)) ≡ []
      → Ignored c.c_port quiet
      → Reads datagram info
      → info.port_dst ≡ c.c_port
      → info.fin ≡ 0
      → info.ack_seq ≡ u32 (c.seq + 1)
      → run.content ≡ some content
      → length (name_of c) ≤ 132
      → length content < 4294967296
      → Answers kcp sent appends inet_addr run (file_header (name_of c) (length content)) content
      → connect run (quiet ++ received datagram late ∷ ps) wave [] c ≡ waiting c1
      → Cooperates inet_addr c1 ack_datagram fin_datagram r1 r2 r3 r4
      → (c' : Client K) × (between : List (List ℕ)) × (syn ack fin last : List ℕ) × (connect run
            (quiet ++ received datagram late ∷ ps)
            wave
            (r1 ∷ r2 ∷ r3 ∷ r4 ∷ rs)
            c
          ≡ returned c')
        × (c'.s_state ≡ tcp_closing)
        × (c'.wire ≡ c.wire ++ (syn ∷ ack ∷ (between ++ fin ∷ last ∷ [])))
        × Carries c 0 0 (prase_tcp_packet syn ip_tcp_header_size)
        × Carries
            (synchronised inet_addr returned c info)
            1
            0
            (prase_tcp_packet ack ip_tcp_header_size)
        × Carries c1 1 1 (prase_tcp_packet fin ip_tcp_header_size)
        × Carries
            (past_both inet_addr c1 ack_datagram fin_datagram)
            1
            0
            (prase_tcp_packet last ip_tcp_header_size)
        × (flags_of syn ≡ 2)
        × (flags_of ack ≡ 16)
        × (flags_of fin ≡ 17)
        × (flags_of last ≡ 16)
  unfolding accept_syn_ack
  connect-closes sent appends run content c c1 k quiet ps datagram late wave info ack_datagram
        fin_datagram r1 r2 r3 r4 rs closed block fresh q reads p f a readable short w answers stands
        plays =
      let open_client = connected inet_addr returned c info in
      let at =
        AtFinish-from kcp sent appends inet_addr (started kcp k open_client) _
          (λ waves. connect run (quiet ++ received datagram late ∷ ps) wave waves c)
          (λ waves.
            start_hand_shake-connected inet_addr
              (send_file kcp inet_addr (record run { waves = waves })) c quiet ps datagram late wave
              info closed q reads p f a)
          (send_file-AtFinish kcp sent appends inet_addr run content open_client k readable refl
            block fresh short w answers) in
      let (
        c', between, fin, last, result, closing, wire, carries_fin, carries_last, flags_fin,
        flags_last,
      ) =
        AtFinish-closes kcp sent appends inet_addr (started kcp k open_client) c1 _ ack_datagram
          fin_datagram r1 r2 r3 r4 rs refl at stands plays in
      let syn = syn_packet inet_addr returned c in
      let ack = ack_packet inet_addr returned c info in
      (
        c',
        between,
        syn,
        ack,
        fin,
        last,
        result,
        closing,
        wire
            ∙ ap (λ w. w ++ (between ++ fin ∷ last ∷ []))
                (append_assoc c.wire (syn ∷ []) (ack ∷ []))
            ∙ append_assoc c.wire (syn ∷ ack ∷ []) (between ++ fin ∷ last ∷ []),
        syn_packet-Carries inet_addr returned c,
        ack_packet-Carries inet_addr returned c info,
        carries_fin,
        carries_last,
        syn_packet-flags inet_addr returned c,
        ack_packet-flags inet_addr returned c info,
        flags_fin,
        flags_last,
      )
