-- ===== src/Wire/Checksum.antt =====
-- `calculate_ip_checksum` and `calculate_tcp_checksum` (code/kcp/kcp_socket.cc). A `uint32_t` sum
-- wraps at 2 ^ 32; `& 0xffff` is `% 65536`, `>> 16` is `/ 65536`, and `~` cut to 16 bits is the
-- distance to 65535.
pub mod Fold
pub mod Laws
use kcp_fake_tcp.Base.{
  ℕ, zero, suc, ◌+◌, ◌-◌, ◌*◌, ◌/◌, ◌%◌, List, [], ◌∷◌, ◌++◌, true, false, ◌==◌, if◌then◌else◌,
  length, take, get_or, u16, u32, u16_bytes, u32_bytes, ntohs,
}
use kcp_fake_tcp.Wire.Header.{IpHeader, TcpHeader, ip_bytes, tcp_bytes, tcp_header_size}

-- The loop `for (i = 0; i < length / 2; ++i) sum += ntohs(buf[i])` over the bytes of `buf`.
unfoldable pub sum_words : ℕ → List ℕ → ℕ
sum_words sum (a ∷ b ∷ rest) = sum_words (u32 (sum + ntohs (a + 256 * b))) rest
sum_words sum (a ∷ []) = sum
sum_words sum [] = sum

-- The loop `while (sum >> 16) sum = (sum & 0xffff) + (sum >> 16)`, on fuel.
unfoldable pub fold_carry : ℕ → ℕ → ℕ
fold_carry zero sum = sum
fold_carry (suc fuel) sum = elim (sum / 65536 == 0) [
  | true ↦ sum
  | false ↦ fold_carry fuel (sum % 65536 + sum / 65536)
]

-- Three rounds are enough for any 32-bit sum (`Fold`).
abbrev pub fold_fuel : ℕ
fold_fuel = 3

unfoldable pub complement : ℕ → ℕ
complement sum = 65535 - u16 (fold_carry fold_fuel sum)

-- With `ihl` at most 5 the words lie inside the struct, which holds no options.
unfoldable pub calculate_ip_checksum : IpHeader → ℕ
calculate_ip_checksum iphdr_packet =
    let len = iphdr_packet.ihl * 4 in
    let sum = sum_words 0 (take len (ip_bytes iphdr_packet)) in
    complement
      (if len % 2 == 0 then sum else u32 (sum + get_or (ip_bytes iphdr_packet) (len - 1) 0))

-- `struct pseudo_header`, filled in by `calculate_tcp_checksum`; IPPROTO_TCP is 6.
unfoldable pub pseudo_bytes : IpHeader → ℕ → List ℕ
pseudo_bytes iphdr_packet data_len =
    u32_bytes iphdr_packet.saddr
    ++ u32_bytes iphdr_packet.daddr
    ++ 0 ∷ 6 ∷ []
    ++ u16_bytes (ntohs (u16 (tcp_header_size + data_len)))

-- The copy of the payload, with a zero byte behind it where its length is odd.
unfoldable pub padded : List ℕ → List ℕ
padded bytes = if length bytes % 2 == 0 then bytes else bytes ++ 0 ∷ []

unfoldable pub calculate_tcp_checksum : IpHeader → TcpHeader → List ℕ → ℕ → ℕ
calculate_tcp_checksum iphdr_packet tcphdr_packet payload data_len =
    let sum = sum_words 0 (pseudo_bytes iphdr_packet data_len) in
    let sum' = sum_words sum (tcp_bytes tcphdr_packet) in
    complement (if data_len == 0 then sum' else sum_words sum' (padded (take data_len payload)))
