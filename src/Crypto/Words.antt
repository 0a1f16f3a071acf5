-- ===== src/Crypto/Words.antt =====
-- The 32-bit words (`UI`) of code/model.cc: logic, shifts and rotations. A shift by a variable
-- count takes the count modulo 32, as the compiled code does on x86.
pub mod Laws
use Prim.Native.Nat.{bit_and, bit_or, bit_xor}
use kcp_fake_tcp.Base.{ℕ, ◌-◌, ◌*◌, ◌/◌, ◌%◌, ◌^◌, u32}

infixl 61 ◌xor◌
infixl 62 ◌and◌
infixl 60 ◌or◌
abbrev pub ◌xor◌ : ℕ → ℕ → ℕ
x xor y = bit_xor x y

abbrev pub ◌and◌ : ℕ → ℕ → ℕ
x and y = bit_and x y

abbrev pub ◌or◌ : ℕ → ℕ → ℕ
x or y = bit_or x y

-- `~x` of a 32-bit word.
abbrev pub complement32 : ℕ → ℕ
complement32 x = 4294967295 - x

unfoldable pub shl : ℕ → ℕ → ℕ
shl x n = u32 (x * 2 ^ (n % 32))

unfoldable pub shr : ℕ → ℕ → ℕ
shr x n = x / 2 ^ (n % 32)

-- `LL`: a rotation to the left. For a count up to 96, `96 - n` is `32 - n` modulo 32.
unfoldable pub rotate_left : ℕ → ℕ → ℕ
unfolding shl shr
rotate_left x n = shl x n or shr x (96 - n)

-- `S` and `R`: a rotation and a shift to the right.
unfoldable pub rotate_right : ℕ → ℕ → ℕ
unfolding shl shr
rotate_right x n = shr x n or shl x (96 - n)
