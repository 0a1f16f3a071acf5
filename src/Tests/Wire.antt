-- ===== src/Tests/Wire.antt =====
-- The theorems on headers and checksums at concrete inputs.
use kcp_fake_tcp.Base.{◌+◌, ◌/◌, ◌%◌, ◌≡◌, ◌↔◌, [], ◌∷◌, ◌++◌, u32, arith}
use kcp_fake_tcp.Wire.Header.{IpHeader, TcpHeader, ip_bytes, tcp_bytes}
use kcp_fake_tcp.Wire.Info.{InfoOf, prase_tcp_packet, prase_tcp_packet-InfoOf}
use kcp_fake_tcp.Wire.Checksum.{calculate_ip_checksum, calculate_tcp_checksum}
use kcp_fake_tcp.Wire.Checksum.Laws.{payload_sum}
use kcp_fake_tcp.Client.Header.{
  ip_header, tcp_header, ip_header_checked, tcp_header_checked, packet, build_ip_tcp_header,
}
use kcp_fake_tcp.Client.Header.Laws.{
  Carries, flags_of, ip_header_checked_iff, packet-checksum_iff, build_ip_tcp_header-Carries,
}
use kcp_fake_tcp.Tests.Data.{address, open_client}

abbrev test_ip : IpHeader
test_ip = ip_header address open_client 4

abbrev test_tcp : TcpHeader
test_tcp = tcp_header address open_client 1 1 0 0

prase_tcp_packet-InfoOf_example :
    InfoOf test_ip test_tcp (prase_tcp_packet (ip_bytes test_ip ++ tcp_bytes test_tcp ++ 1 ∷ []) 41)
prase_tcp_packet-InfoOf_example = prase_tcp_packet-InfoOf test_ip test_tcp (1 ∷ []) 41

ip_header_checked_iff_example :
    let ip = ip_header_checked address open_client 4 in
    (calculate_ip_checksum ip ≡ 0) ↔ (ip.check / 256 ≡ ip.check % 256)
ip_header_checked_iff_example = ip_header_checked_iff address open_client 4

packet-checksum_iff_example :
    let ip = ip_header_checked address open_client 2 in
    let tcp = tcp_header_checked address open_client (1 ∷ 2 ∷ []) 2 1 1 0 0 in
    (packet address open_client (1 ∷ 2 ∷ []) (3 ∷ 4 ∷ []) 2 1 1 0 0
      ≡ ip_bytes ip ++ tcp_bytes tcp ++ 3 ∷ 4 ∷ [])
    × ((calculate_tcp_checksum ip tcp (3 ∷ 4 ∷ []) 2 ≡ 0)
        ↔ (payload_sum (1 ∷ 2 ∷ []) 2 % 65535 ≡ payload_sum (3 ∷ 4 ∷ []) 2 % 65535))
packet-checksum_iff_example =
    packet-checksum_iff address open_client (1 ∷ 2 ∷ []) (3 ∷ 4 ∷ []) 2 1 1 0 0 (omega arith)

build_ip_tcp_header-Carries_example :
    let (bytes, c') = build_ip_tcp_header address [] (9 ∷ []) 1 1 1 0 0 open_client in
    Carries open_client 1 0 (prase_tcp_packet bytes 41)
    × (flags_of bytes ≡ 24)
    × (c' ≡ record open_client {
      ip_id = open_client.ip_id + 1;
      client_sum_send = u32 (open_client.client_sum_send + 1);
    })
build_ip_tcp_header-Carries_example =
    build_ip_tcp_header-Carries address [] (9 ∷ []) 1 1 1 0 0 41 open_client
