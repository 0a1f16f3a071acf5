-- ===== src/Client/Teardown/Hear.antt =====
-- The steps of the closing handshake (code/kcp/kcp_client.cc), and what the client makes of a
-- server's two packets.
use kcp_fake_tcp.Base.{ℕ, ◌+◌, ◌≡◌, ◌≢◌, refl, ap, String, List, [], ◌∷◌, ◌++◌, true, false, u32}
use kcp_fake_tcp.Wire.Header.{ip_bytes, tcp_bytes}
use kcp_fake_tcp.Wire.Info.{TcpInfo}
use kcp_fake_tcp.Client.Outcome.{returned}
use kcp_fake_tcp.Client.State.{ConnState, Client}
use kcp_fake_tcp.Client.Header.{build_ip_tcp_header, packet, next_id}
use kcp_fake_tcp.Client.Teardown.{
  WaveRound, send_control, wave_in, start_waving, finish, is_closing,
}

module _ {K : Type 0} (inet_addr : String → ℕ) where
  -- The control packet that goes out, alone.
  abbrev pub control : ℕ → Client K → List ℕ
  control fin c = packet inet_addr (next_id c) [] [] 0 1 0 0 fin

  pub send_control_lem :
      (fin : ℕ) (next : ConnState) (c : Client K)
      → send_control inet_addr fin next true c ≡ record c {
        ip_id = c.ip_id + 1;
        client_sum_send = u32 (c.client_sum_send + 0);
        wire = c.wire ++ control fin c ∷ [];
        s_state = next;
      }
  unfolding send_control build_ip_tcp_header packet ip_bytes tcp_bytes
  send_control_lem fin next c = refl

  pub finish_step :
      (r : WaveRound) (rs : List WaveRound) (c c' : Client K)
      → is_closing c.s_state ≡ false
      → start_waving inet_addr r c ≡ returned c'
      → r.expired ≡ false
      → finish inet_addr (r ∷ rs) c ≡ finish inet_addr rs c'
  unfolding finish
  finish_step r rs c c' still step early = rw still (rw step (rw early))

  pub finish_closing :
      (rs : List WaveRound) (c : Client K)
      → is_closing c.s_state ≡ true
      → finish inet_addr rs c ≡ returned c
  unfolding finish
  finish_closing [] c closing = rw closing
  finish_closing (r ∷ rs) c closing = rw closing

  pub start_waving_in :
      (s : ConnState) (r : WaveRound) (c : Client K)
      → c.s_state ≡ s
      → start_waving inet_addr r c ≡ wave_in inet_addr s r c
  unfolding start_waving
  start_waving_in s r c e = ap (λ (s : ConnState). wave_in inet_addr s r c) e

module _ {K : Type 0} where
  -- The server's two packets, as the client parses them: the acknowledgement of the FIN, and the
  -- server's own FIN.
  pub record AckOf (c : Client K) (info : TcpInfo) : Type 0 where
    pub no_reset : info.rst ≡ 0
    pub for_us : info.port_dst ≡ c.c_port
    pub acked : info.ack_seq ≡ u32 (c.seq + c.client_sum_send + 1)
    pub flagged : info.ack ≢ 0
    pub no_fin : info.fin ≡ 0

  pub record FinFor (c : Client K) (info : TcpInfo) : Type 0 where
    pub no_reset : info.rst ≡ 0
    pub for_us : info.port_dst ≡ c.c_port
    pub is_fin : info.fin ≢ 0
