-- ===== src/Wire/Checksum/Fold.antt =====
-- The sums and the carry loop behind the two checksums (code/kcp/kcp_socket.cc).
use kcp_fake_tcp.Base.{
  ℕ, zero, suc, ◌+◌, ◌*◌, ◌/◌, ◌%◌, ◌≤◌, ◌<◌, ◌≡◌, ◌↔◌, refl, List, [], ◌∷◌, length, length-append,
  u32, ntohs, ntohs-lt, arith,
}
use kcp_fake_tcp.Wire.Checksum.{sum_words, fold_carry, fold_fuel, complement, padded}

-- One round of the loop loses multiples of 65535 alone.
fold_round :
    (sum : ℕ)
    → ((sum % 65536 + sum / 65536) % 65535 ≡ sum % 65535)
      × (0 < sum → 0 < sum % 65536 + sum / 65536)
fold_round sum = (omega arith, λ h. omega arith)

pub fold_carry-mod :
    (fuel sum : ℕ)
    → (fold_carry fuel sum % 65535 ≡ sum % 65535) × (0 < sum → 0 < fold_carry fuel sum)
unfolding fold_carry
fold_carry-mod zero sum = (refl, λ h. h)
fold_carry-mod (suc fuel) sum =
    ground (arith, fold_round sum, fold_carry-mod fuel (sum % 65536 + sum / 65536))

-- After three rounds on a sum of 32 bits the loop has ended: its test `sum >> 16` fails on the
-- result.
pub fold_carry-lt : (sum : ℕ) → sum < 4294967296 → fold_carry fold_fuel sum < 65536
unfolding fold_carry
fold_carry-lt sum h = ground arith

-- The sum of the words of a buffer, without a bound.
unfoldable pub word_sum : List ℕ → ℕ
word_sum (a ∷ b ∷ rest) = ntohs (a + 256 * b) + word_sum rest
word_sum (a ∷ []) = 0
word_sum [] = 0

pub word_sum-le : (bytes : List ℕ) → word_sum bytes ≤ 65535 * length bytes
unfolding word_sum
word_sum-le [] = omega arith
word_sum-le (a ∷ []) = omega arith
word_sum-le (a ∷ b ∷ rest) = omega (arith, ntohs-lt (a + 256 * b), word_sum-le rest)

pub sum_words-eq-add :
    (sum : ℕ) (bytes : List ℕ)
    → sum + word_sum bytes < 4294967296
    → sum_words sum bytes ≡ sum + word_sum bytes
unfolding sum_words word_sum
sum_words-eq-add sum [] h = omega arith
sum_words-eq-add sum (a ∷ []) h = omega arith
sum_words-eq-add sum (a ∷ b ∷ rest) h =
    omega (arith, sum_words-eq-add (u32 (sum + ntohs (a + 256 * b))) rest (omega arith))

pub length-padded : (bytes : List ℕ) → length (padded bytes) ≤ length bytes + 1
unfolding padded
length-padded bytes = ground (arith, length-append bytes (0 ∷ []))

-- The complement, by the residue of the sum: zero exactly for a positive multiple of 65535.
pub complement-mod : (sum : ℕ) → sum < 4294967296 → 0 < sum → (complement sum + sum) % 65535 ≡ 0
unfolding complement
complement-mod sum h p = omega (arith, fold_carry-lt sum h, fold_carry-mod fold_fuel sum)

pub complement-lt : (sum : ℕ) → complement sum < 65536
unfolding complement
complement-lt sum = omega arith

pub complement-eq_zero_iff :
    (sum : ℕ) → sum < 4294967296 → 0 < sum → (complement sum ≡ 0) ↔ (sum % 65535 ≡ 0)
unfolding complement
complement-eq_zero_iff sum h p =
    let (residue, positive) = fold_carry-mod fold_fuel sum in
    let some_left = positive p in
    (
      λ e. omega (arith, fold_carry-lt sum h, residue),
      λ e. omega (arith, fold_carry-lt sum h, residue, some_left),
    )
