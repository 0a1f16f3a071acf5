-- ===== src/Crypto/Sha256.antt =====
-- SHA-256 (code/model.cc): `SHA256_init`, `SHA256_operate` and `encodePwdBySha256`.
pub mod Laws
use kcp_fake_tcp.Base.{
  ℕ, zero, suc, ◌+◌, ◌-◌, ◌*◌, ◌/◌, ◌%◌, ◌^◌, List, [], ◌∷◌, ◌++◌, map, length, take, drop, get_or,
  replicate, u32,
}
use kcp_fake_tcp.Crypto.Words.{◌xor◌, ◌and◌, complement32, shr, rotate_right}
use kcp_fake_tcp.Crypto.Strings.{
  char_0, char_1, nonneg, char_value, get_bin, add_bin, pad_to, hex_string, decimal_string,
}

-- The bits of the message, byte by byte.
unfoldable pub message_bits : List ℕ → List ℕ → List ℕ
message_bits res [] = res
message_bits res (c ∷ cs) = message_bits (add_bin res (char_value c)) cs

-- `((448 - (size + 1) % 512) % 512 + 512) % 512` in 64-bit unsigned arithmetic.
unfoldable pub fill_count : ℕ → ℕ
fill_count size = ((448 + 2 ^ 64 - (size + 1) % 512) % 2 ^ 64 % 512 + 512) % 512

-- `SHA256_init`. The size is below 2 ^ 31, so `getBin` gets it unchanged.
unfoldable pub sha256_init : List ℕ → List ℕ
unfolding message_bits fill_count pad_to
sha256_init ctx =
    let res = message_bits [] ctx in
    let temp = pad_to 64 (get_bin (nonneg (length res))) in
    (res ++ char_1 ∷ []) ++ replicate (fill_count (length res)) char_0 ++ temp

unfoldable pub o1 : ℕ → ℕ → ℕ → ℕ
o1 x y z = (x and y) xor (complement32 x and z)

unfoldable pub o2 : ℕ → ℕ → ℕ → ℕ
o2 x y z = (x and y) xor (x and z) xor (y and z)

unfoldable pub o3 : ℕ → ℕ
unfolding rotate_right
o3 x = rotate_right x 2 xor rotate_right x 13 xor rotate_right x 22

unfoldable pub o4 : ℕ → ℕ
unfolding rotate_right
o4 x = rotate_right x 6 xor rotate_right x 11 xor rotate_right x 25

unfoldable pub o5 : ℕ → ℕ
unfolding rotate_right shr
o5 x = rotate_right x 7 xor rotate_right x 18 xor shr x 3

unfoldable pub o6 : ℕ → ℕ
unfolding rotate_right shr
o6 x = rotate_right x 17 xor rotate_right x 19 xor shr x 10

-- The table `K`.
abbrev pub k_table : List ℕ
k_table =
    0x428a2f98 ∷ 0x71374491 ∷ 0xb5c0fbcf ∷ 0xe9b5dba5 ∷ 0x3956c25b ∷ 0x59f111f1 ∷ 0x923f82a4
    ∷ 0xab1c5ed5 ∷ 0xd807aa98 ∷ 0x12835b01 ∷ 0x243185be ∷ 0x550c7dc3 ∷ 0x72be5d74 ∷ 0x80deb1fe
    ∷ 0x9bdc06a7 ∷ 0xc19bf174 ∷ 0xe49b69c1 ∷ 0xefbe4786 ∷ 0x0fc19dc6 ∷ 0x240ca1cc ∷ 0x2de92c6f
    ∷ 0x4a7484aa ∷ 0x5cb0a9dc ∷ 0x76f988da ∷ 0x983e5152 ∷ 0xa831c66d ∷ 0xb00327c8 ∷ 0xbf597fc7
    ∷ 0xc6e00bf3 ∷ 0xd5a79147 ∷ 0x06ca6351 ∷ 0x14292967 ∷ 0x27b70a85 ∷ 0x2e1b2138 ∷ 0x4d2c6dfc
    ∷ 0x53380d13 ∷ 0x650a7354 ∷ 0x766a0abb ∷ 0x81c2c92e ∷ 0x92722c85 ∷ 0xa2bfe8a1 ∷ 0xa81a664b
    ∷ 0xc24b8b70 ∷ 0xc76c51a3 ∷ 0xd192e819 ∷ 0xd6990624 ∷ 0xf40e3585 ∷ 0x106aa070 ∷ 0x19a4c116
    ∷ 0x1e376c08 ∷ 0x2748774c ∷ 0x34b0bcb5 ∷ 0x391c0cb3 ∷ 0x4ed8aa4a ∷ 0x5b9cca4f ∷ 0x682e6ff3
    ∷ 0x748f82ee ∷ 0x78a5636f ∷ 0x84c87814 ∷ 0x8cc70208 ∷ 0x90befffa ∷ 0xa4506ceb ∷ 0xbef9a3f7
    ∷ 0xc67178f2 ∷ []

-- The eight words of one `H[i]`, or of the loop's variables.
pub record Working : Type 0 where
  pub a : ℕ
  pub b : ℕ
  pub c : ℕ
  pub d : ℕ
  pub e : ℕ
  pub f : ℕ
  pub g : ℕ
  pub h : ℕ

-- One word `M[j]`: `M[j] * 2 + ctx[..] - '0'` over 32 characters.
unfoldable pub word_of : ℕ → List ℕ → ℕ
word_of acc [] = acc
word_of acc (c ∷ cs) = word_of (u32 (acc * 2 + c + 2 ^ 32 - char_0)) cs

unfoldable pub block_words : ℕ → List ℕ → List ℕ
unfolding word_of
block_words zero block = []
block_words (suc n) block = word_of 0 (take 32 block) ∷ block_words n (drop 32 block)

-- `W[j]` for the next j, from the words up to j - 1.
unfoldable pub schedule : ℕ → ℕ → List ℕ → List ℕ
unfolding o5 o6
schedule zero j w = w
schedule (suc rounds) j w =
    let next = u32 (
      o6 (get_or w (j - 2) 0)
      + get_or w (j - 7) 0
      + o5 (get_or w (j - 15) 0)
      + get_or w (j - 16) 0) in
    schedule rounds (j + 1) (w ++ next ∷ [])

-- One round of the compression, with `K[j]` and `W[j]`.
unfoldable pub compress_round : ℕ → ℕ → Working → Working
unfolding o1 o2 o3 o4
compress_round k w v =
    let t1 = u32 (v.h + o4 v.e + o1 v.e v.f v.g + k + w) in
    let t2 = u32 (o3 v.a + o2 v.a v.b v.c) in
    record {
      a = u32 (t1 + t2);
      b = v.a;
      c = v.b;
      d = v.c;
      e = u32 (v.d + t1);
      f = v.e;
      g = v.f;
      h = v.g;
    }

unfoldable pub compress : List ℕ → List ℕ → Working → Working
unfolding compress_round
compress (k ∷ ks) (w ∷ ws) v = compress ks ws (compress_round k w v)
compress _ _ v = v

unfoldable pub add_working : Working → Working → Working
add_working v p = record {
  a = u32 (v.a + p.a);
  b = u32 (v.b + p.b);
  c = u32 (v.c + p.c);
  d = u32 (v.d + p.d);
  e = u32 (v.e + p.e);
  f = u32 (v.f + p.f);
  g = u32 (v.g + p.g);
  h = u32 (v.h + p.h);
}

abbrev pub initial : Working
initial = record {
  a = 0x6a09e667;
  b = 0xbb67ae85;
  c = 0x3c6ef372;
  d = 0xa54ff53a;
  e = 0x510e527f;
  f = 0x9b05688c;
  g = 0x1f83d9ab;
  h = 0x5be0cd19;
}

-- The loop over the blocks of 512 characters.
unfoldable pub digest_blocks : ℕ → List ℕ → Working → Working
unfolding block_words schedule compress add_working
digest_blocks zero ctx hash = hash
digest_blocks (suc n) ctx hash =
    let w = schedule 48 16 (block_words 16 (take 512 ctx)) in
    digest_blocks n (drop 512 ctx) (add_working (compress k_table w hash) hash)

abbrev pub words_of : Working → List ℕ
words_of v = v.a ∷ v.b ∷ v.c ∷ v.d ∷ v.e ∷ v.f ∷ v.g ∷ v.h ∷ []

unfoldable pub concat : List (List ℕ) → List ℕ
concat [] = []
concat (s ∷ ss) = s ++ concat ss

-- `SHA256_operate`: the returned string of decimals, and the hexadecimal string `res16`.
unfoldable pub sha256_operate : List ℕ → List ℕ × List ℕ
unfolding digest_blocks concat hex_string decimal_string pad_to
sha256_operate ctx =
    let hash = digest_blocks (length ctx / 512) ctx initial in
    (
      concat (map (λ x. pad_to 32 (decimal_string x)) (words_of hash)),
      concat (map (hex_string 8) (words_of hash)),
    )

unfoldable pub encode_pwd_by_sha256 : List ℕ → List ℕ × List ℕ
unfolding sha256_operate sha256_init
encode_pwd_by_sha256 pwd = sha256_operate (sha256_init pwd)
