-- ===== src/Crypto/Sm4.antt =====
-- SM4 (code/model.cc): the key schedule, the block cipher `sm4_128`, `PKCS7` and the chaining `sm4`.
pub mod Tables
pub mod Rounds
use kcp_fake_tcp.Base.{
  ℕ, zero, suc, ◌+◌, ◌-◌, ◌*◌, ◌/◌, ◌%◌, ◌^◌, List, [], ◌∷◌, ◌++◌, Option, none, some, ◌==◌,
  if◌then◌else◌, length, take, drop, get_or, replicate, u32,
}
use kcp_fake_tcp.Crypto.Words.{◌xor◌, rotate_left}
use kcp_fake_tcp.Crypto.Sm4.Tables.{sbox_table, key_bytes, ck_table, fk_table}
use kcp_fake_tcp.Crypto.Strings.{
  char_0, char_1, bitset_string, stoul, substr, binary_string_to_hex, decimal_string,
}

-- `L` and `L1`.
unfoldable pub linear : ℕ → ℕ
unfolding rotate_left
linear x = x xor rotate_left x 2 xor rotate_left x 10 xor rotate_left x 18 xor rotate_left x 24

unfoldable pub linear_key : ℕ → ℕ
unfolding rotate_left
linear_key x = x xor rotate_left x 13 xor rotate_left x 23

-- `Sbox` of a byte, by its two halves.
unfoldable pub sbox : ℕ → ℕ
sbox a = get_or sbox_table (a / 16 % 16 * 16 + a % 16) 0

-- `NT`: the four bytes of a word, the highest first.
unfoldable pub substitute : ℕ → ℕ
unfolding sbox
substitute x =
    let b0 = sbox (x / 2 ^ 24 % 256) in
    let b1 = sbox (x / 2 ^ 16 % 256) in
    let b2 = sbox (x / 2 ^ 8 % 256) in
    let b3 = sbox (x % 256) in u32 (256 * u32 (256 * u32 (256 * b0 + b1) + b2) + b3)

-- `T` and `T1`.
unfoldable pub mix : ℕ → ℕ
unfolding linear substitute
mix x = linear (substitute x)

unfoldable pub mix_key : ℕ → ℕ
unfolding linear_key substitute
mix_key x = linear_key (substitute x)

-- `toString8` of every byte of `keys`, as `initMK` joins them.
unfoldable pub key_string : List ℕ → List ℕ
unfolding bitset_string
key_string [] = []
key_string (k ∷ ks) = bitset_string 8 k ++ key_string ks

-- The static variables `key`, `MK` and `rk`.
pub record KeyState : Type 0 where
  pub key : List ℕ
  pub mk : List ℕ
  pub rk : List ℕ

abbrev pub no_keys : KeyState
no_keys = record { key = []; mk = replicate 4 0; rk = replicate 32 0 }

-- `initMK`: nothing once the key is there.
unfoldable pub init_mk : KeyState → KeyState
unfolding key_string
init_mk s = if length s.key == 0 then record s { key = key_string key_bytes } else s

-- `MK[i]`; `none` where `substr` or `stoul` throws.
unfoldable pub key_words : ℕ → ℕ → List ℕ → Option (List ℕ)
unfolding substr stoul
key_words zero i key = some []
key_words (suc n) i key =
    let rest = key_words n (i + 1) key in
    elim (substr key (i * 32) 32) [
      | none ↦ none
      | some part ↦ elim (stoul 2 part) [
        | none ↦ none
        | some word ↦ elim rest [ none ↦ none | some words ↦ some (word ∷ words) ]
      ]
    ]

-- The key schedule: the next round key from the last four words.
unfoldable pub round_keys : List ℕ → ℕ → ℕ → ℕ → ℕ → List ℕ
unfolding mix_key
round_keys [] k0 k1 k2 k3 = []
round_keys (ck ∷ cks) k0 k1 k2 k3 =
    let k4 = k0 xor mix_key (k1 xor k2 xor k3 xor ck) in k4 ∷ round_keys cks k1 k2 k3 k4

abbrev pub keyed : List ℕ → ℕ → ℕ
keyed mk i = get_or mk i 0 xor get_or fk_table i 0

unfoldable pub init_rk : KeyState → Option KeyState
unfolding init_mk key_words round_keys
init_rk s =
    let s' = init_mk s in
    elim (key_words 4 0 s'.key) [
      | none ↦ none
      | some mk ↦ some (record s' {
        mk = mk;
        rk = round_keys ck_table (keyed mk 0) (keyed mk 1) (keyed mk 2) (keyed mk 3);
      })
    ]

-- `F`.
unfoldable pub round_function : ℕ → ℕ → ℕ → ℕ → ℕ → ℕ
unfolding mix
round_function x1 x2 x3 x4 x = x1 xor mix (x2 xor x3 xor x4 xor x)

-- The last four words of `X`.
pub record Quad : Type 0 where
  pub x0 : ℕ
  pub x1 : ℕ
  pub x2 : ℕ
  pub x3 : ℕ

unfoldable pub cipher_round : ℕ → Quad → Quad
unfolding round_function
cipher_round k q = record {
  x0 = q.x1;
  x1 = q.x2;
  x2 = q.x3;
  x3 = round_function q.x0 q.x1 q.x2 q.x3 k;
}

unfoldable pub cipher_rounds : List ℕ → Quad → Quad
unfolding cipher_round
cipher_rounds [] q = q
cipher_rounds (k ∷ ks) q = cipher_rounds ks (cipher_round k q)

-- `X[i]` of the `try` block.
unfoldable pub input_word : List ℕ → List ℕ → ℕ → Option ℕ
unfolding substr stoul
input_word ctx iv i = elim (substr ctx (i * 32) 32) [
  | none ↦ none
  | some part ↦ elim (stoul 2 part) [
    | none ↦ none
    | some x ↦ elim (substr iv (i * 8) 8) [
      | none ↦ none
      | some hex ↦ elim (stoul 16 hex) [ none ↦ none | some y ↦ some (x xor y) ]
    ]
  ]
]

-- The first exception leaves the words from there on at 0.
unfoldable pub input_words : ℕ → ℕ → List ℕ → List ℕ → List ℕ
unfolding input_word
input_words zero i ctx iv = []
input_words (suc n) i ctx iv =
    let rest = input_words n (i + 1) ctx iv in
    elim (input_word ctx iv i) [ none ↦ replicate (suc n) 0 | some x ↦ x ∷ rest ]

abbrev pub quad_of : List ℕ → Quad
quad_of xs = record {
  x0 = get_or xs 0 0;
  x1 = get_or xs 1 0;
  x2 = get_or xs 2 0;
  x3 = get_or xs 3 0;
}

-- `sm4_128`; the words come out in reverse.
unfoldable pub sm4_128 : KeyState → List ℕ → List ℕ → Option (KeyState × List ℕ)
unfolding init_rk input_words cipher_rounds bitset_string binary_string_to_hex
sm4_128 s ctx iv = elim (init_rk s) [
  | none ↦ none
  | some s' ↦
      let q = cipher_rounds s'.rk (quad_of (input_words 4 0 ctx iv)) in
      let res =
        bitset_string 32 q.x3
        ++ bitset_string 32 q.x2
        ++ bitset_string 32 q.x1
        ++ bitset_string 32 q.x0 in
      elim (binary_string_to_hex res) [ none ↦ none | some hex ↦ some (s', hex) ]
]

unfoldable pub repeat : ℕ → List ℕ → List ℕ
repeat zero s = []
repeat (suc n) s = s ++ repeat n s

-- `"00010000"`.
abbrev pub pad_16 : List ℕ
pad_16 = char_0 ∷ char_0 ∷ char_0 ∷ char_1 ∷ char_0 ∷ char_0 ∷ char_0 ∷ char_0 ∷ []

-- `PKCS7`, which looks at the number of characters, not of bytes.
unfoldable pub pkcs7 : List ℕ → List ℕ
unfolding repeat decimal_string
pkcs7 ctx =
    if length ctx % 16 == 0
    then ctx ++ repeat 16 pad_16
    else ctx ++ repeat (16 - length ctx % 16) (decimal_string (16 - length ctx % 16))

-- The loop over the blocks of 128 characters; `blocks` is the text written so far.
unfoldable pub chain : ℕ → KeyState → List ℕ → List ℕ → List ℕ → Option (KeyState × List ℕ)
unfolding sm4_128
chain zero s ctx iv blocks = some (s, blocks)
chain (suc fuel) s ctx iv blocks = elim ctx [
  | [] ↦ some (s, blocks)
  | c ∷ cs ↦ elim (sm4_128 s (take 128 (c ∷ cs)) iv) [
    | none ↦ none
    | some (s', block) ↦ chain fuel s' (drop 128 (c ∷ cs)) block (blocks ++ block)
  ]
]

-- The bits of `2, 3, …, 17`.
unfoldable pub iv_bits : ℕ → ℕ → List ℕ
unfolding bitset_string
iv_bits zero i = []
iv_bits (suc n) i = bitset_string 8 (i + 2) ++ iv_bits n (i + 1)

unfoldable pub text_bits : List ℕ → List ℕ
unfolding bitset_string
text_bits [] = []
text_bits (c ∷ cs) = bitset_string 8 c ++ text_bits cs

-- `sm4`; `none` where an exception leaves it. The padded text is written to the log in
-- hexadecimal first, which throws at a character that is no bit.
unfoldable pub sm4 : KeyState → List ℕ → Option (KeyState × List ℕ)
unfolding text_bits pkcs7 iv_bits binary_string_to_hex chain
sm4 s text =
    let ctx = pkcs7 (text_bits text) in
    elim (binary_string_to_hex ctx) [
      | none ↦ none
      | some logged ↦ elim (binary_string_to_hex (iv_bits 16 0)) [
        | none ↦ none
        | some iv16 ↦ chain (length ctx) s ctx iv16 []
      ]
    ]
