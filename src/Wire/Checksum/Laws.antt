-- ===== src/Wire/Checksum/Laws.antt =====
-- What the two checksums are worth to a receiver, who sums the packet again with the stored check
-- field in it and expects 0.
use kcp_fake_tcp.Base.{
  ℕ, ◌+◌, ◌*◌, ◌/◌, ◌%◌, ◌≤◌, ◌<◌, ◌≡◌, ◌↔◌, refl, ap, List, ◌==◌, if◌then◌else◌, take, length-take,
  take_of_le, ntohs, arith,
}
use kcp_fake_tcp.Wire.Header.{
  IpHeader, TcpHeader, ip_bytes, tcp_bytes, length-ip_bytes, length-tcp_bytes,
}
use kcp_fake_tcp.Wire.Checksum.{
  complement, calculate_ip_checksum, pseudo_bytes, padded, calculate_tcp_checksum,
}
use kcp_fake_tcp.Wire.Checksum.Fold.{
  word_sum, word_sum-le, sum_words-eq-add, length-padded, complement-mod, complement-lt,
  complement-eq_zero_iff,
}

-- The words of the payload, as the checksum counts them.
unfoldable pub payload_sum : List ℕ → ℕ → ℕ
payload_sum payload data_len =
    if data_len == 0 then 0 else word_sum (padded (take data_len payload))

pub payload_sum-le : (payload : List ℕ) (n : ℕ) → payload_sum payload n ≤ 65535 * (n + 1)
unfolding payload_sum
payload_sum-le payload n = ground (
  arith,
  word_sum-le (padded (take n payload)),
  length-padded (take n payload),
  length-take n payload,
)

pseudo_sum_bounds :
    (ip : IpHeader) (n : ℕ)
    → (0 < word_sum (pseudo_bytes ip n)) × (word_sum (pseudo_bytes ip n) ≤ 65535 * 12)
unfolding word_sum pseudo_bytes ntohs
pseudo_sum_bounds ip n = (omega arith, omega arith)

-- All the words that the TCP checksum covers.
abbrev pub tcp_total : IpHeader → TcpHeader → List ℕ → ℕ → ℕ
tcp_total ip tcp payload n =
    word_sum (pseudo_bytes ip n) + word_sum (tcp_bytes tcp) + payload_sum payload n

pub tcp_total_bounds :
    (ip : IpHeader) (tcp : TcpHeader) (payload : List ℕ) (n : ℕ)
    → n ≤ 65495
    → (0 < tcp_total ip tcp payload n) × (tcp_total ip tcp payload n < 4294967296)
tcp_total_bounds ip tcp payload n h =
    let p = pseudo_sum_bounds ip n in
    let q = word_sum-le (tcp_bytes tcp) in
    let l = length-tcp_bytes tcp in let r = payload_sum-le payload n in (omega arith, omega arith)

pub calculate_tcp_checksum-eq :
    (ip : IpHeader) (tcp : TcpHeader) (payload : List ℕ) (n : ℕ)
    → n ≤ 65495
    → calculate_tcp_checksum ip tcp payload n ≡ complement (tcp_total ip tcp payload n)
unfolding calculate_tcp_checksum payload_sum
calculate_tcp_checksum-eq ip tcp payload n h = ap complement (
    ground (
      arith,
      tcp_total_bounds ip tcp payload n h,
      sum_words-eq-add 0 (pseudo_bytes ip n),
      sum_words-eq-add (word_sum (pseudo_bytes ip n)) (tcp_bytes tcp),
      sum_words-eq-add (word_sum (pseudo_bytes ip n) + word_sum (tcp_bytes tcp))
          (padded (take n payload)),
    ))

-- A word that is stored in network order is read back as it was.
stored_word : (c : ℕ) → c < 65536 → ntohs (ntohs c % 256 + 256 * (ntohs c / 256 % 256)) ≡ c
unfolding ntohs
stored_word c h = omega arith

zero_word : ntohs 0 ≡ 0
unfolding ntohs
zero_word = refl

pub word_sum-tcp_bytes-check :
    (tcp : TcpHeader) (c : ℕ)
    → c < 65536
    → word_sum (tcp_bytes (record tcp { check = ntohs c }))
      ≡ word_sum (tcp_bytes (record tcp { check = 0 })) + c
unfolding word_sum tcp_bytes
word_sum-tcp_bytes-check tcp c h = omega (arith, stored_word c h, zero_word)

-- A checksum taken over one payload of at most 65495 bytes and stored into a packet that carries
-- another passes exactly when the two payloads agree in their word sums modulo 65535.
pub calculate_tcp_checksum_iff :
    (ip : IpHeader) (tcp : TcpHeader) (summed carried : List ℕ) (n : ℕ)
    → n ≤ 65495
    → let c = calculate_tcp_checksum ip (record tcp { check = 0 }) summed n in
      (calculate_tcp_checksum ip (record tcp { check = ntohs c }) carried n ≡ 0)
      ↔ (payload_sum summed n % 65535 ≡ payload_sum carried n % 65535)
calculate_tcp_checksum_iff ip tcp summed carried n h =
    rw (calculate_tcp_checksum-eq ip (record tcp { check = 0 }) summed n h) (
      rw (calculate_tcp_checksum-eq ip (record tcp { check = ntohs c }) carried n h) (
        λ e. omega (arith, zero_iff.0 e, residue, stored),
        λ e. zero_iff.1 (omega (arith, e, residue, stored)),
      ))
  where
    first : ℕ
    first = tcp_total ip (record tcp { check = 0 }) summed n

    c : ℕ
    c = complement first

    first_bounds : (0 < first) × (first < 4294967296)
    first_bounds = tcp_total_bounds ip (record tcp { check = 0 }) summed n h

    second_bounds :
        (0 < tcp_total ip (record tcp { check = ntohs c }) carried n)
        × (tcp_total ip (record tcp { check = ntohs c }) carried n < 4294967296)
    second_bounds = tcp_total_bounds ip (record tcp { check = ntohs c }) carried n h

    zero_iff :
        (complement (tcp_total ip (record tcp { check = ntohs c }) carried n) ≡ 0)
        ↔ (tcp_total ip (record tcp { check = ntohs c }) carried n % 65535 ≡ 0)
    zero_iff = complement-eq_zero_iff _ second_bounds.1 second_bounds.0

    residue : (c + first) % 65535 ≡ 0
    residue = complement-mod first first_bounds.1 first_bounds.0

    stored :
        word_sum (tcp_bytes (record tcp { check = ntohs c }))
        ≡ word_sum (tcp_bytes (record tcp { check = 0 })) + c
    stored = word_sum-tcp_bytes-check tcp c (complement-lt first)

word_sum-ip_bytes-check :
    (ip : IpHeader) (c : ℕ)
    → word_sum (ip_bytes (record ip { check = c }))
      ≡ word_sum (ip_bytes (record ip { check = 0 })) + ntohs (c % 256 + 256 * (c / 256 % 256))
unfolding word_sum ip_bytes
word_sum-ip_bytes-check ip c = omega (arith, zero_word)

calculate_ip_checksum-eq :
    (ip : IpHeader) → ip.ihl ≡ 5 → calculate_ip_checksum ip ≡ complement (word_sum (ip_bytes ip))
unfolding calculate_ip_checksum
calculate_ip_checksum-eq ip e =
    let whole = take_of_le (ip.ihl * 4) (ip_bytes ip) (omega (arith, length-ip_bytes ip)) in
    let bound = word_sum-le (ip_bytes ip) in
    let sum = sum_words-eq-add 0 (ip_bytes ip) (omega (arith, bound, length-ip_bytes ip)) in
    rw whole (ground (arith, sum))

ip_sum_pos : (ip : IpHeader) → ip.ihl ≡ 5 → 0 < word_sum (ip_bytes ip)
unfolding word_sum ip_bytes ntohs
ip_sum_pos ip e = omega arith

raw_word : (c : ℕ) → c < 65536 → ntohs (c % 256 + 256 * (c / 256 % 256)) ≡ c % 256 * 256 + c / 256
unfolding ntohs
raw_word c h = omega arith

-- For a header without options: the IP checksum is stored without a change of byte order, so a
-- receiver accepts it exactly when its two bytes are the same.
pub calculate_ip_checksum_iff :
    (ip : IpHeader)
    → ip.ihl ≡ 5
    → let c = calculate_ip_checksum (record ip { check = 0 }) in
      (calculate_ip_checksum (record ip { check = c }) ≡ 0) ↔ (c / 256 ≡ c % 256)
calculate_ip_checksum_iff ip e = rw (calculate_ip_checksum-eq (record ip { check = 0 }) e) (
    rw (calculate_ip_checksum-eq (record ip { check = c }) e) (
      λ z. omega (arith, zero_iff.0 z, residue, stored, swapped, below),
      λ z. zero_iff.1 (omega (arith, z, residue, stored, swapped, below)),
    ))
  where
    first : ℕ
    first = word_sum (ip_bytes (record ip { check = 0 }))

    c : ℕ
    c = complement first

    below : c < 65536
    below = complement-lt first

    bound : (check : ℕ) → word_sum (ip_bytes (record ip { check = check })) ≤ 65535 * 20
    bound check = omega (
      arith,
      word_sum-le (ip_bytes (record ip { check = check })),
      length-ip_bytes (record ip { check = check }),
    )

    zero_iff :
        (complement (word_sum (ip_bytes (record ip { check = c }))) ≡ 0)
        ↔ (word_sum (ip_bytes (record ip { check = c })) % 65535 ≡ 0)
    zero_iff =
        complement-eq_zero_iff _ (omega (arith, bound c)) (ip_sum_pos (record ip { check = c }) e)

    residue : (c + first) % 65535 ≡ 0
    residue = complement-mod first (omega (arith, bound 0)) (ip_sum_pos (record ip { check = 0 }) e)

    stored :
        word_sum (ip_bytes (record ip { check = c }))
        ≡ first + ntohs (c % 256 + 256 * (c / 256 % 256))
    stored = word_sum-ip_bytes-check ip c

    swapped : ntohs (c % 256 + 256 * (c / 256 % 256)) ≡ c % 256 * 256 + c / 256
    swapped = raw_word c below
