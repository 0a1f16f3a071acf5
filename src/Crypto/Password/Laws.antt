-- ===== src/Crypto/Password/Laws.antt =====
-- What the password helpers of code/model.cc make of different passwords.
use kcp_fake_tcp.Base.{ℕ, ◌≡◌, refl, List}
use kcp_fake_tcp.Crypto.Sm4.{KeyState}
use kcp_fake_tcp.Crypto.Password.{encrypt_pwd_sha256}

-- `getEncryptPwd_sha256` gives the same for all passwords: it writes a literal over the digest.
pub encrypt_pwd_sha256-constant :
    (s : KeyState) (pwd pwd' : List ℕ) → encrypt_pwd_sha256 s pwd ≡ encrypt_pwd_sha256 s pwd'
unfolding encrypt_pwd_sha256
encrypt_pwd_sha256-constant s pwd pwd' = refl
