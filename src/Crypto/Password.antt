-- ===== src/Crypto/Password.antt =====
-- `getEncryptPwd_sha256` and `getEncryptPwd_sm3` (code/model.cc). Their log lines are left out.
pub mod Laws
use Prim.Native.Char.{code}
use kcp_fake_tcp.Base.{ℕ, String, List, [], ◌∷◌, Option, none, some}
use kcp_fake_tcp.Crypto.Sha256.{encode_pwd_by_sha256}
use kcp_fake_tcp.Crypto.Sm4.{KeyState, sm4}
use kcp_fake_tcp.Crypto.Base64.{base64_encode}
use kcp_fake_tcp.Crypto.Sm3.{sm3}

-- The bytes of an ASCII literal.
abbrev pub codes : String → List ℕ
codes String.[] = []
codes (String.◌∷◌ c s) = code c ∷ codes s

-- The literal that the code stores over the digest.
abbrev pub fixed_digest : List ℕ
fixed_digest = codes "09117c03ccbdbc66bd49c0158df0ef24deda7808074e9c1b5d1306ddd3403c7c"

-- `none` where an exception leaves the function.
unfoldable pub encrypt_pwd_sha256 : KeyState → List ℕ → Option (KeyState × List ℕ)
encrypt_pwd_sha256 s pwd =
    let digest = encode_pwd_by_sha256 pwd in
    let sha256_16 = fixed_digest in
    elim (sm4 s sha256_16) [
      | none ↦ none
      | some (s', encrypted) ↦ some (s', base64_encode encrypted)
    ]

unfoldable pub encrypt_pwd_sm3 : KeyState → List ℕ → Option (KeyState × List ℕ)
encrypt_pwd_sm3 s pwd = elim (sm3 pwd) [
  | none ↦ none
  | some digest ↦ elim (sm4 s digest) [
    | none ↦ none
    | some (s', encrypted) ↦ some (s', base64_encode encrypted)
  ]
]
