-- ===== src/Crypto/Sha256/Laws.antt =====
-- Pairs of messages under the SHA-256 of code/model.cc.
use mathlib.Core.List.{append-nil}
use kcp_fake_tcp.Base.{ℕ, ◌≡◌, refl, ap, List, [], ◌∷◌, ◌++◌}
use kcp_fake_tcp.Crypto.Strings.{char_value, add_bin}
use kcp_fake_tcp.Crypto.Sha256.{message_bits, sha256_init, encode_pwd_by_sha256}

-- The character 0 has no digits, and no digits are no byte.
add_bin-zero : (res : List ℕ) → add_bin res (char_value 0) ≡ res
unfolding add_bin
add_bin-zero res = append-nil res

message_bits-zero :
    (xs ys res : List ℕ) → message_bits res (xs ++ 0 ∷ ys) ≡ message_bits res (xs ++ ys)
unfolding message_bits
message_bits-zero [] ys res = ap (λ r. message_bits r ys) (add_bin-zero res)
message_bits-zero (x ∷ xs) ys res = message_bits-zero xs ys (add_bin res (char_value x))

-- `encodePwdBySha256` gives the same digest for a password and for that password with a character 0
-- anywhere in it.
pub encode_pwd_by_sha256-zero :
    (xs ys : List ℕ) → encode_pwd_by_sha256 (xs ++ 0 ∷ ys) ≡ encode_pwd_by_sha256 (xs ++ ys)
unfolding encode_pwd_by_sha256 sha256_init
encode_pwd_by_sha256-zero xs ys = rw (message_bits-zero xs ys []) refl
