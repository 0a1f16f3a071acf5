-- ===== src/Crypto/Sm3.antt =====
-- SM3 (code/model.cc): `sm3_init`, `sm3_init_B` and `sm3`.
pub mod Laws
use kcp_fake_tcp.Base.{
  ℕ, zero, suc, ◌+◌, ◌-◌, ◌*◌, ◌/◌, ◌%◌, List, [], ◌∷◌, ◌++◌, Option, none, some, leb, ltb,
  if◌then◌else◌, length, get_or, replicate, u32,
}
use kcp_fake_tcp.Crypto.Words.{◌xor◌, ◌and◌, ◌or◌, complement32, rotate_left}
use kcp_fake_tcp.Crypto.Strings.{char_0, char_1, bitset_string, stoul, substr, binary_string_to_hex}

-- `k` of `sm3_init` for a string of `size` characters. `int l` has the low 32 bits of the size, and
-- from 2^31 on it is that less 2^32; `%` keeps the sign of `l + 1`. `l + 1` is taken to wrap where
-- `l` is the largest `int`, for which the source is undefined.
unfoldable pub fill_count : ℕ → ℕ
fill_count size =
    let l = u32 size in
    if ltb l 2147483648
    then (448 + 512 - (l + 1) % 512) % 512
    else (448 + (4294967295 - l) % 512 + 512) % 512

-- `l` as `std::bitset<64>` takes it, extended by its sign.
unfoldable pub length_bits : ℕ → ℕ
length_bits size = let l = u32 size in if ltb l 2147483648 then l else l + 18446744069414584320

-- `sm3_init`: the padded string; the block count is its length divided by 512.
unfoldable pub sm3_init : List ℕ → List ℕ
unfolding fill_count length_bits bitset_string
sm3_init str =
    (str ++ char_1 ∷ [])
    ++ replicate (fill_count (length str)) char_0
    ++ bitset_string 64 (length_bits (length str))

-- `sm3_init_B` for one block: `n` words from the word `j` of the block `i` on.
unfoldable pub block_words : ℕ → ℕ → ℕ → List ℕ → Option (List ℕ)
unfolding substr stoul
block_words zero i j str = some []
block_words (suc n) i j str =
    let rest = block_words n i (j + 1) str in
    elim (substr str (i * 512 + j * 32) 32) [
      | none ↦ none
      | some part ↦ elim (stoul 2 part) [
        | none ↦ none
        | some word ↦ elim rest [ none ↦ none | some words ↦ some (word ∷ words) ]
      ]
    ]

unfoldable pub ff : ℕ → ℕ → ℕ → ℕ → ℕ
ff j x y z = if leb j 15 then x xor y xor z else (x and y) or (x and z) or (y and z)

unfoldable pub gg : ℕ → ℕ → ℕ → ℕ → ℕ
gg j x y z = if leb j 15 then x xor y xor z else (x and y) or (complement32 x and z)

unfoldable pub p0 : ℕ → ℕ
unfolding rotate_left
p0 x = x xor rotate_left x 9 xor rotate_left x 17

unfoldable pub p1 : ℕ → ℕ
unfolding rotate_left
p1 x = x xor rotate_left x 15 xor rotate_left x 23

unfoldable pub sm3_t : ℕ → ℕ
sm3_t j = if leb 16 j then 0x7a879d8a else 0x79cc4519

-- `messageExtend`: `W[j]` for the next j.
unfoldable pub extend : ℕ → ℕ → List ℕ → List ℕ
unfolding p1 rotate_left
extend zero j w = w
extend (suc rounds) j w =
    let w16 = get_or w (j - 16) 0 in
    let w9 = get_or w (j - 9) 0 in
    let w3 = rotate_left (get_or w (j - 3) 0) 15 in
    let w13 = rotate_left (get_or w (j - 13) 0) 7 in
    let next = p1 (w16 xor w9 xor w3) xor w13 xor get_or w (j - 6) 0 in
    extend rounds (j + 1) (w ++ next ∷ [])

-- `W1[j]` from `W[j]` and `W[j + 4]`, for `n` words.
unfoldable pub second_words : ℕ → ℕ → List ℕ → List ℕ
second_words zero j w = []
second_words (suc n) j w = (get_or w j 0 xor get_or w (j + 4) 0) ∷ second_words n (j + 1) w

pub record Registers : Type 0 where
  pub a : ℕ
  pub b : ℕ
  pub c : ℕ
  pub d : ℕ
  pub e : ℕ
  pub f : ℕ
  pub g : ℕ
  pub h : ℕ

-- One round of the compression function `CF`.
unfoldable pub sm3_round : ℕ → ℕ → ℕ → Registers → Registers
unfolding rotate_left sm3_t ff gg p0
sm3_round j w w1 v =
    let ss1 = rotate_left (u32 (rotate_left v.a 12 + v.e + rotate_left (sm3_t j) j)) 7 in
    let ss2 = ss1 xor rotate_left v.a 12 in
    let tt1 = u32 (ff j v.a v.b v.c + v.d + ss2 + w1) in
    let tt2 = u32 (gg j v.e v.f v.g + v.h + ss1 + w) in
    record {
      a = tt1;
      b = v.a;
      c = rotate_left v.b 9;
      d = v.c;
      e = p0 tt2;
      f = v.e;
      g = rotate_left v.f 19;
      h = v.g;
    }

unfoldable pub sm3_rounds : ℕ → ℕ → List ℕ → List ℕ → Registers → Registers
unfolding sm3_round
sm3_rounds zero j w w1 v = v
sm3_rounds (suc n) j w w1 v =
    sm3_rounds n (j + 1) w w1 (sm3_round j (get_or w j 0) (get_or w1 j 0) v)

-- `CF` on the words of a block.
unfoldable pub compress : List ℕ → Registers → Registers
unfolding extend second_words sm3_rounds
compress block v =
    let w = extend 52 16 block in
    let t = sm3_rounds 64 0 w (second_words 64 0 w) v in
    record {
      a = t.a xor v.a;
      b = t.b xor v.b;
      c = t.c xor v.c;
      d = t.d xor v.d;
      e = t.e xor v.e;
      f = t.f xor v.f;
      g = t.g xor v.g;
      h = t.h xor v.h;
    }

abbrev pub initial : Registers
initial = record {
  a = 0x7380166f;
  b = 0x4914b2b9;
  c = 0x172442d7;
  d = 0xda8a0600;
  e = 0xa96f30bc;
  f = 0x163138aa;
  g = 0xe38dee4d;
  h = 0xb0fb0e4e;
}

unfoldable pub message_bits : List ℕ → List ℕ
unfolding bitset_string
message_bits [] = []
message_bits (c ∷ cs) = bitset_string 8 c ++ message_bits cs

-- The loop over the blocks, from the block `i` on.
unfoldable pub digest_blocks : ℕ → ℕ → List ℕ → Registers → Option Registers
unfolding block_words compress
digest_blocks zero i str v = some v
digest_blocks (suc n) i str v = elim (block_words 16 i 0 str) [
  | none ↦ none
  | some block ↦ digest_blocks n (i + 1) str (compress block v)
]

unfoldable pub words_string : List ℕ → List ℕ
unfolding bitset_string
words_string [] = []
words_string (x ∷ xs) = bitset_string 32 x ++ words_string xs

-- `sm3`; the eight words are written in hexadecimal one after the other.
unfoldable pub sm3 : List ℕ → Option (List ℕ)
unfolding message_bits sm3_init digest_blocks words_string binary_string_to_hex
sm3 input =
    let str = sm3_init (message_bits input) in
    elim (digest_blocks (length str / 512) 0 str initial) [
      | none ↦ none
      | some v ↦
          binary_string_to_hex (words_string (v.a ∷ v.b ∷ v.c ∷ v.d ∷ v.e ∷ v.f ∷ v.g ∷ v.h ∷ []))
    ]
