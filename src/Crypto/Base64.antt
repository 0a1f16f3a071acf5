-- ===== src/Crypto/Base64.antt =====
-- `base64_encode` (code/model.cc) of a text of hexadecimal digits.
pub mod Laws
use kcp_fake_tcp.Base.{
  ℕ, zero, suc, ◌+◌, ◌-◌, ◌*◌, ◌/◌, ◌%◌, List, [], ◌∷◌, ◌++◌, true, false, ◌&&◌, ◌==◌, ltb, leb,
  if◌then◌else◌, length, take, drop, replicate,
}
use kcp_fake_tcp.Crypto.Strings.{char_0, bitset_string}

-- `base64_table`: the letters, the digits, and `+` and `/`.
unfoldable pub base64_char : ℕ → ℕ
base64_char v =
    if ltb v 26
    then b'A' + v
    else if ltb v 52
    then b'a' + (v - 26)
    else if ltb v 62
    then b'0' + (v - 52)
    else if v == 62
    then b'+'
    else b'/'

-- `std::bitset<4>(i >= 'A' ? i - 'A' + 10 : i - '0')`, which keeps the four low bits; a byte at or
-- above 128 is a negative `char`.
unfoldable pub nibble : ℕ → ℕ
nibble c = if leb 65 c && ltb c 128 then (c - 55) % 16 else (c + 256 - 48) % 16

unfoldable pub nibble_bits : List ℕ → List ℕ
unfolding nibble bitset_string
nibble_bits [] = []
nibble_bits (c ∷ cs) = bitset_string 4 (nibble c) ++ nibble_bits cs

-- `while (data.size() % 6 != 0) data += '0'`, which ends within six rounds.
unfoldable pub fill_sextet : ℕ → List ℕ → List ℕ
fill_sextet zero bits = bits
fill_sextet (suc fuel) bits = elim (length bits % 6 == 0) [
  | true ↦ bits
  | false ↦ fill_sextet fuel (bits ++ char_0 ∷ [])
]

-- The value of six bits, as `std::stoul` reads them.
unfoldable pub bits_value : ℕ → List ℕ → ℕ
bits_value acc [] = acc
bits_value acc (b ∷ bs) = bits_value (acc * 2 + (b - char_0)) bs

-- The loop over the groups of six characters; there are no more groups than characters.
unfoldable pub sextets : ℕ → List ℕ → List ℕ
unfolding bits_value base64_char
sextets zero bits = []
sextets (suc fuel) bits = elim bits [
  | [] ↦ []
  | b ∷ bs ↦ base64_char (bits_value 0 (take 6 (b ∷ bs))) ∷ sextets fuel (drop 6 (b ∷ bs))
]

-- The loop that appends one `=` for every six bits of `gap`.
unfoldable pub equal_signs : ℕ → List ℕ
equal_signs gap = replicate (gap / 6) b'='

unfoldable pub base64_encode : List ℕ → List ℕ
unfolding nibble_bits fill_sextet sextets equal_signs
base64_encode input =
    let bits = fill_sextet 6 (nibble_bits input) in
    let res = sextets (length bits) bits in
    if length bits % 24 == 0 then res else res ++ equal_signs (24 - length bits % 24)
