-- ===== src/Tests/Output.antt =====
-- The theorems on `tcp_client_cb` at concrete inputs.
use kcp_fake_tcp.Base.{ℕ, ◌+◌, ◌%◌, ◌≡◌, ◌↔◌, refl, List, [], ◌∷◌, ◌++◌, u32, take, drop, arith}
use kcp_fake_tcp.Wire.Header.{ip_bytes, tcp_bytes}
use kcp_fake_tcp.Wire.Checksum.{calculate_tcp_checksum}
use kcp_fake_tcp.Wire.Checksum.Laws.{payload_sum}
use kcp_fake_tcp.Client.Outcome.{returned}
use kcp_fake_tcp.Client.State.{Client}
use kcp_fake_tcp.Client.Header.{next_id, ip_header_checked, tcp_header_checked}
use kcp_fake_tcp.Client.Output.{
  not_writable, sent, chunk_len, chunk, taken, send_round, tcp_client_cb,
}
use kcp_fake_tcp.Client.Output.Datagrams.{bodies, InSequence}
use kcp_fake_tcp.Client.Output.Laws.{
  tcp_client_cb-delivers, tcp_client_cb-returns, chunk-checksum_iff,
}
use kcp_fake_tcp.Tests.Data.{Messages, address, open_client}

abbrev test_bytes : List ℕ
test_bytes = 104 ∷ 105 ∷ []

-- The client behind one round that finds the socket not writable and one that sends both bytes.
abbrev after_output : Client Messages
after_output = taken address test_bytes 2 0 (next_id (next_id open_client))

output_returns :
    tcp_client_cb address test_bytes 2 (not_writable ∷ sent ∷ []) open_client
    ≡ returned (after_output, 2)
unfolding tcp_client_cb taken send_round
output_returns = refl

tcp_client_cb-delivers_example :
    (new : List (List ℕ)) × (after_output.wire ≡ open_client.wire ++ new)
    × (bodies new ≡ take 2 test_bytes)
    × InSequence (open_client.seq + open_client.client_sum_send) new
    × (u32 after_output.client_sum_send ≡ u32 (open_client.client_sum_send + 2))
tcp_client_cb-delivers_example =
    tcp_client_cb-delivers address test_bytes 2 (not_writable ∷ sent ∷ []) open_client after_output
      (omega arith) (omega arith) output_returns

tcp_client_cb-returns_example :
    (c' : Client Messages) × (tcp_client_cb address test_bytes 2
        (not_writable ∷ sent ∷ [])
        open_client
      ≡ returned (c', 2))
tcp_client_cb-returns_example =
    tcp_client_cb-returns address test_bytes 2 (not_writable ∷ sent ∷ []) open_client (tt, (tt, tt))
      (omega arith)

chunk-checksum_iff_example :
    let n = chunk_len 2 1 in
    let body = take n (drop 1 test_bytes) in
    let ip = ip_header_checked address open_client n in
    let tcp = tcp_header_checked address open_client test_bytes n 1 1 0 0 in
    (chunk address test_bytes 2 1 open_client ≡ ip_bytes ip ++ tcp_bytes tcp ++ body)
    × ((calculate_tcp_checksum ip tcp body n ≡ 0)
        ↔ (payload_sum test_bytes n % 65535 ≡ payload_sum body n % 65535))
chunk-checksum_iff_example = chunk-checksum_iff address test_bytes 2 1 open_client
