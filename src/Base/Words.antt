-- ===== src/Base/Words.antt =====
-- Fixed widths and byte order on the little-endian host: a cast is `% 2 ^ w`, and a word in memory
-- is the list of its bytes, lowest first.
use Prim.Native.Nat.{ℕ, ◌+◌, ◌*◌, ◌/◌, ◌%◌, ◌<◌}
use mathlib.Core.Path.{◌≡◌}
use mathlib.Core.List.{List, [], ◌∷◌}
use native.Mathlib.Omega.{arith}

abbrev pub u16 : ℕ → ℕ
u16 n = n % 65536

abbrev pub u32 : ℕ → ℕ
u32 n = n % 4294967296

abbrev pub u16_bytes : ℕ → List ℕ
u16_bytes w = (w % 256) ∷ (w / 256 % 256) ∷ []

abbrev pub u32_bytes : ℕ → List ℕ
u32_bytes w = (w % 256) ∷ (w / 256 % 256) ∷ (w / 65536 % 256) ∷ (w / 16777216 % 256) ∷ []

-- `htons` and `ntohs`: the two bytes change places.
unfoldable pub ntohs : ℕ → ℕ
ntohs w = w % 256 * 256 + w / 256 % 256

-- `htonl` and `ntohl`: the four bytes in reverse.
unfoldable pub ntohl : ℕ → ℕ
ntohl w = w % 256 * 16777216 + w / 256 % 256 * 65536 + w / 65536 % 256 * 256 + w / 16777216 % 256

pub ntohs-ntohs : (w : ℕ) → w < 65536 → ntohs (ntohs w) ≡ w
unfolding ntohs
ntohs-ntohs w h = omega arith

pub ntohs-lt : (w : ℕ) → ntohs w < 65536
unfolding ntohs
ntohs-lt w = omega arith

pub ntohl-ntohl : (w : ℕ) → w < 4294967296 → ntohl (ntohl w) ≡ w
unfolding ntohl
ntohl-ntohl w h = omega arith

pub ntohl-lt : (w : ℕ) → ntohl w < 4294967296
unfolding ntohl
ntohl-lt w = omega arith

-- A field that is stored in network order is read back as the number that went in.
pub ntohs-u16-ntohs : (w : ℕ) → ntohs (u16 (ntohs (u16 w))) ≡ u16 w
unfolding ntohs
ntohs-u16-ntohs w = omega arith

pub ntohl-u32-ntohl : (w : ℕ) → ntohl (u32 (ntohl (u32 w))) ≡ u32 w
unfolding ntohl
ntohl-u32-ntohl w = omega arith
