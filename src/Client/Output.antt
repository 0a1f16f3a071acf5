-- ===== src/Client/Output.antt =====
-- `tcp_client_cb` (code/kcp/kcp_client.cc): the callback through which KCP sends. It cuts the bytes
-- into chunks, puts the two headers in front of each, and hands them to the raw socket.
pub mod Datagrams
pub mod Progress
pub mod Laws
use kcp_fake_tcp.Base.{
  ℕ, ◌+◌, ◌-◌, String, List, [], ◌∷◌, ◌++◌, Bool, true, false, ltb, if◌then◌else◌, u32, take, drop,
}
use kcp_fake_tcp.Client.Outcome.{Outcome, returned, waiting, aborted}
use kcp_fake_tcp.Client.State.{Client}
use kcp_fake_tcp.Client.Header.{next_id, packet}

-- What the system answers in one round: `select` fails or times out, `FD_ISSET` is false, `sendto`
-- fails, or it takes the datagram.
pub data SendEvent : Type 0 where
  select_failed not_writable send_failed sent : SendEvent

-- `UDP_MTU`, 1400 + 48.
abbrev pub udp_mtu : ℕ
udp_mtu = 1448

abbrev pub chunk_len : ℕ → ℕ → ℕ
chunk_len len sended = if ltb udp_mtu (len - sended) then udp_mtu else len - sended

module _ {K : Type 0} (inet_addr : String → ℕ) (buffer : List ℕ) (len : ℕ) where
  -- The datagram of the round that starts at `sended`. The checksum is taken from the start of
  -- `buffer`, the body from `sended`.
  unfoldable pub chunk : ℕ → Client K → List ℕ
  chunk sended c =
      let data_len = chunk_len len sended in
      packet inet_addr c buffer (take data_len (drop sended buffer)) data_len 1 1 0 0

  -- `fetch_add` and `sended += s`, where `sendto` took the datagram.
  unfoldable pub taken : ℕ → Client K → Client K
  taken sended c = record c {
    client_sum_send = u32 (c.client_sum_send + chunk_len len sended);
    wire = c.wire ++ chunk sended c ∷ [];
  }

  -- One round of the loop: the client, the new `sended`, and whether the callback returns 0.
  unfoldable pub send_round : SendEvent → ℕ → Client K → Client K × ℕ × Bool
  unfolding taken
  send_round select_failed sended c = (next_id c, sended, true)
  send_round not_writable sended c = (next_id c, sended, false)
  send_round send_failed sended c = (next_id c, sended, false)
  send_round sent sended c = (taken sended (next_id c), sended + chunk_len len sended, false)

  -- The loop, over the answers that the system gives.
  unfoldable pub send_loop : List SendEvent → ℕ → Client K → Outcome (Client K × ℕ)
  send_loop [] sended c = if ltb sended len then waiting (c, sended) else returned (c, sended)
  send_loop (e ∷ es) sended c =
      let (c', sended', gave_up) = send_round e sended c in
      let rest = send_loop es sended' c' in
      if ltb sended len then if gave_up then returned (c', 0) else rest else returned (c, sended)

  unfoldable pub tcp_client_cb : List SendEvent → Client K → Outcome (Client K × ℕ)
  unfolding send_loop
  tcp_client_cb es c = send_loop es 0 c
