-- ===== src/Crypto/Sm3/Laws.antt =====
-- The padding of SM3 (code/model.cc).
use mathlib.Core.List.{append_assoc}
use kcp_fake_tcp.Base.{
  ℕ, ◌+◌, ◌%◌, ◌<◌, ◌≡◌, ◌∙◌, ap, List, [], ◌∷◌, ◌++◌, length, length-append, length-replicate,
  replicate, arith,
}
use kcp_fake_tcp.Crypto.Strings.{char_0, char_1, bitset_string}
use kcp_fake_tcp.Crypto.Strings.Laws.{length-bitset_string}
use kcp_fake_tcp.Crypto.Sm3.{fill_count, length_bits, sm3_init}

fill_count-mod : (l : ℕ) → (l + 1 + fill_count l + 64) % 512 ≡ 0
unfolding fill_count
fill_count-mod l = ground arith

fill_count-lt : (l : ℕ) → fill_count l < 512
unfolding fill_count
fill_count-lt l = ground arith

length_bits_lem : (l : ℕ) → l < 2147483647 → length_bits l ≡ l
unfolding length_bits
length_bits_lem l h = ground arith

-- Of a message of fewer than 2^31 - 1 bits, `sm3_init` keeps the message in front, puts a 1 and then fewer than 512 zeros and the 64 bits of
-- the message's length behind it, and comes to a whole number of blocks of 512, as its `assert`
-- demands.
pub sm3_init-length :
    (str : List ℕ)
    → length str < 2147483647
    → (length (sm3_init str) % 512 ≡ 0)
      × (zeros : ℕ) × (zeros < 512)
      × (sm3_init str
          ≡ (str ++ char_1 ∷ []) ++ (replicate zeros char_0 ++ bitset_string 64 (length str)))
unfolding sm3_init
sm3_init-length str short =
    let zeros : List ℕ = replicate (fill_count (length str)) char_0 in
    let bits : List ℕ = bitset_string 64 (length_bits (length str)) in
    let whole : sm3_init str ≡ (str ++ char_1 ∷ []) ++ (zeros ++ bits) =
      append_assoc (str ++ char_1 ∷ []) zeros bits in
    (
      omega (
        arith,
        ap length whole,
        length-append (str ++ char_1 ∷ []) (zeros ++ bits),
        length-append str (char_1 ∷ []),
        length-append zeros bits,
        length-replicate (fill_count (length str)) char_0,
        length-bitset_string 64 (length_bits (length str)),
        fill_count-mod (length str),
      ),
      fill_count (length str),
      fill_count-lt (length str),
      whole
          ∙ ap (λ n. (str ++ char_1 ∷ []) ++ (zeros ++ bitset_string 64 n))
              (length_bits_lem (length str) short),
    )
