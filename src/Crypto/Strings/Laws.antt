-- ===== src/Crypto/Strings/Laws.antt =====
-- The lengths of the strings that code/model.cc makes of numbers.
use kcp_fake_tcp.Base.{ℕ, zero, suc, ◌≡◌, refl, length, arith}
use kcp_fake_tcp.Crypto.Strings.{bitset_string}

pub length-bitset_string : (width x : ℕ) → length (bitset_string width x) ≡ width
unfolding bitset_string
length-bitset_string zero x = refl
length-bitset_string (suc width) x = omega (arith, length-bitset_string width x)
