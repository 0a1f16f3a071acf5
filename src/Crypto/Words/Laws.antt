-- ===== src/Crypto/Words/Laws.antt =====
-- The laws of the exclusive or of code/model.cc on numbers of any size.
use Prim.Native.Nat.{digits, differ, bit_xor-bitwise}
use kcp_fake_tcp.Base.{
  ℕ, zero, suc, ◌+◌, ◌*◌, ◌/◌, ◌%◌, ◌≤◌, ◌<◌, ◌≡◌, ◌∙◌, refl, sym, ap, Bool-cases, inl, inr, ◌==◌,
  ==_iff, arith,
}
use kcp_fake_tcp.Crypto.Words.{◌xor◌}

-- The exclusive or of the `count` lowest digits of `a`.
abbrev lowest : ℕ → ℕ → ℕ → ℕ
lowest count a b = digits (λ d. d) differ count a b

-- Digits that are not there do not matter.
lowest-suc : (count a b : ℕ) → a ≤ count → lowest (suc count) a b ≡ lowest count a b
lowest-suc zero zero b h = refl
lowest-suc (suc count) zero b h = refl
lowest-suc zero (suc a) b h = absurd (omega arith)
lowest-suc (suc count) (suc a) b h =
    let halves = lowest-suc count (suc a / 2) (b / 2) (omega arith) in
    ap (λ r. r * 2 + differ (suc a % 2) (b % 2)) halves

lowest-enough : (count a b : ℕ) → a ≤ count → lowest count a b ≡ lowest a a b
lowest-enough zero zero b h = refl
lowest-enough zero (suc a) b h = absurd (omega arith)
lowest-enough (suc count) a b h = elim (Bool-cases (a == suc count)) [
  | inl all ↦
      let same : a ≡ suc count = (==_iff a (suc count)).0 all in ap (λ n. lowest n a b) (sym same)
  | inr fewer ↦
      let less : a ≤ count = ground arith in
      lowest-suc count a b less ∙ lowest-enough count a b less
]

differ-lt : (x y : ℕ) → x < 2 → y < 2 → differ x y ≡ (x + y) % 2
differ-lt zero y p q = omega arith
differ-lt (suc zero) zero p q = refl
differ-lt (suc zero) (suc zero) p q = refl
differ-lt (suc zero) (suc (suc y)) p q = absurd (omega arith)
differ-lt (suc (suc x)) y p q = absurd (omega arith)

zero-xor : (b : ℕ) → 0 xor b ≡ b
zero-xor b = bit_xor-bitwise 0 b

-- The halves and the lowest digits.
xor_halves : (a b : ℕ) → a xor b ≡ (a / 2 xor b / 2) * 2 + (a % 2 + b % 2) % 2
xor_halves zero b = omega (arith, zero-xor b, zero-xor (b / 2))
xor_halves (suc a) b = omega (
  arith,
  bit_xor-bitwise (suc a) b,
  bit_xor-bitwise (suc a / 2) (b / 2),
  lowest-enough a (suc a / 2) (b / 2) (omega arith),
  differ-lt (suc a % 2) (b % 2) (omega arith) (omega arith),
)

xor_half : (a b : ℕ) → (a xor b) / 2 ≡ (a / 2 xor b / 2)
xor_half a b = omega (arith, xor_halves a b)

xor_parity : (a b : ℕ) → (a xor b) % 2 ≡ (a + b) % 2
xor_parity a b = omega (arith, xor_halves a b)

xor_comm_below : (bound a b : ℕ) → a + b ≤ bound → a xor b ≡ b xor a
xor_comm_below zero a b h =
    let none_a : a ≡ 0 = omega arith in let none_b : b ≡ 0 = omega arith in rw (none_a, none_b) refl
xor_comm_below (suc bound) a b h = elim (Bool-cases (a + b == 0)) [
  | inl none_left ↦ xor_comm_below bound a b (ground arith)
  | inr some_left ↦
      let less : a / 2 + b / 2 ≤ bound = ground arith in
      omega (arith, xor_halves a b, xor_halves b a, xor_comm_below bound (a / 2) (b / 2) less)
]

pub xor_comm : (a b : ℕ) → a xor b ≡ b xor a
xor_comm a b = xor_comm_below (a + b) a b (omega arith)

xor_assoc_below : (bound a b c : ℕ) → a + b + c ≤ bound → (a xor b) xor c ≡ a xor (b xor c)
xor_assoc_below zero a b c h =
    let none_a : a ≡ 0 = omega arith in
    let none_b : b ≡ 0 = omega arith in
    let none_c : c ≡ 0 = omega arith in rw (none_a, none_b, none_c) refl
xor_assoc_below (suc bound) a b c h = elim (Bool-cases (a + b + c == 0)) [
  | inl none_left ↦ xor_assoc_below bound a b c (ground arith)
  | inr some_left ↦
      let less : a / 2 + b / 2 + c / 2 ≤ bound = ground arith in
      omega (
        arith,
        xor_halves (a xor b) c,
        ap (λ x. x xor c / 2) (xor_half a b),
        xor_parity a b,
        xor_assoc_below bound (a / 2) (b / 2) (c / 2) less,
        ap (λ x. a / 2 xor x) (xor_half b c),
        xor_parity b c,
        xor_halves a (b xor c),
      )
]

pub xor_assoc : (a b c : ℕ) → (a xor b) xor c ≡ a xor (b xor c)
xor_assoc a b c = xor_assoc_below (a + b + c) a b c (omega arith)

xor_self_below : (bound a : ℕ) → a ≤ bound → a xor a ≡ 0
xor_self_below zero a h = let none_left : a ≡ 0 = omega arith in rw none_left refl
xor_self_below (suc bound) a h = elim (Bool-cases (a == 0)) [
  | inl none_left ↦ xor_self_below bound a (ground arith)
  | inr some_left ↦
      let less : a / 2 ≤ bound = ground arith in
      omega (arith, xor_halves a a, xor_self_below bound (a / 2) less)
]

-- An exclusive or with the same number twice changes nothing.
pub xor_twice : (a b : ℕ) → (a xor b) xor b ≡ a
xor_twice a b =
    xor_assoc a b b
    ∙ ap (λ x. a xor x) (xor_self_below b b (omega arith))
    ∙ (xor_comm a 0 ∙ zero-xor a)
