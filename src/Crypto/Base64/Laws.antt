-- ===== src/Crypto/Base64/Laws.antt =====
-- The length of what `base64_encode` writes (code/model.cc).
use kcp_fake_tcp.Base.{
  ℕ, zero, suc, ◌+◌, ◌-◌, ◌*◌, ◌/◌, ◌%◌, ◌≡◌, ◌∙◌, ◌≤◌, ◌<◌, refl, ap, List, [], ◌∷◌, ◌++◌,
  Bool-cases, inl, inr, ◌==◌, ==_iff, length, length-append, length-replicate, length-drop, drop,
  arith,
}
use kcp_fake_tcp.Crypto.Strings.{char_0, bitset_string}
use kcp_fake_tcp.Crypto.Base64.{
  nibble, nibble_bits, fill_sextet, sextets, equal_signs, base64_encode,
}
use kcp_fake_tcp.Crypto.Strings.Laws.{length-bitset_string}

length-nibble_bits : (cs : List ℕ) → length (nibble_bits cs) ≡ 4 * length cs
unfolding nibble_bits
length-nibble_bits [] = refl
length-nibble_bits (c ∷ cs) = omega (
  arith,
  length-append (bitset_string 4 (nibble c)) (nibble_bits cs),
  length-bitset_string 4 (nibble c),
  length-nibble_bits cs,
)

-- As many rounds as are missing to the next multiple of 6.
length-fill_sextet :
    (fuel : ℕ) (bits : List ℕ)
    → (6 - length bits % 6) % 6 ≤ fuel
    → length (fill_sextet fuel bits) ≡ (length bits + 5) / 6 * 6
unfolding fill_sextet
length-fill_sextet zero bits h = omega arith
length-fill_sextet (suc fuel) bits h = elim (Bool-cases (length bits % 6 == 0)) [
  | inl full ↦
      let whole : length bits % 6 ≡ 0 = (==_iff _ _).0 full in rw (full, fill_sextet) (omega arith)
  | inr short ↦
      let part : 0 < length bits % 6 = ground arith in
      let longer = length-append bits (char_0 ∷ []) in
      let fewer : (6 - length (bits ++ char_0 ∷ []) % 6) % 6 ≤ fuel =
        omega (arith, longer, part, h) in
      let rest = length-fill_sextet fuel (bits ++ char_0 ∷ []) fewer in
      rw (short, fill_sextet) (omega (arith, rest, longer, part))
]

-- A character for every group of six that has begun.
length-sextets :
    (fuel : ℕ) (bits : List ℕ)
    → length bits ≤ fuel
    → length (sextets fuel bits) ≡ (length bits + 5) / 6
unfolding sextets
length-sextets zero [] h = refl
length-sextets zero (b ∷ bs) h = absurd (omega arith)
length-sextets (suc fuel) [] h = refl
length-sextets (suc fuel) (b ∷ bs) h =
    let dropped = length-drop 6 (b ∷ bs) in
    omega (arith, dropped, length-sextets fuel (drop 6 (b ∷ bs)) (omega (arith, dropped)))

-- `base64_encode` writes four characters for every three bytes of its input, of two hexadecimal
-- digits each, that have begun: the padding comes to whole groups of four, on an input of any
-- length and any characters.
pub length-base64_encode :
    (input : List ℕ) → length (base64_encode input) ≡ 4 * ((length input + 5) / 6)
unfolding base64_encode equal_signs
length-base64_encode input =
    let bits : List ℕ = fill_sextet 6 (nibble_bits input) in
    let size : length bits ≡ (4 * length input + 5) / 6 * 6 =
      length-fill_sextet 6 (nibble_bits input) (omega arith)
      ∙ ap (λ n. (n + 5) / 6 * 6) (length-nibble_bits input) in
    let groups = length-sextets (length bits) bits (omega arith) in
    elim (Bool-cases (length bits % 24 == 0)) [
      | inl whole ↦
          let even : length bits % 24 ≡ 0 = (==_iff _ _).0 whole in
          rw whole (omega (arith, size, groups, even))
      | inr short ↦
          let part : 0 < length bits % 24 = ground arith in
          let gap : ℕ = 24 - length bits % 24 in
          let padded : length (sextets (length bits) bits ++ equal_signs gap)
              ≡ 4 * ((length input + 5) / 6) =
            omega (
              arith,
              part,
              size,
              groups,
              length-append (sextets (length bits) bits) (equal_signs gap),
              length-replicate {A = ℕ} (gap / 6) b'=',
            ) in
          rw short padded
    ]
