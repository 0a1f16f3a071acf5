-- ===== src/Crypto/Tests.antt =====
-- Known answers of the password helpers.
use kcp_fake_tcp.Base.{ℕ, ◌%◌, ◌<◌, ◌≡◌, refl, some, ◌++◌, ◌∷◌, [], length, replicate, arith}
use kcp_fake_tcp.Crypto.Password.{codes}
use kcp_fake_tcp.Crypto.Sha256.{encode_pwd_by_sha256}
use kcp_fake_tcp.Crypto.Strings.{add_bin, char_0, char_1, bitset_string}
use kcp_fake_tcp.Crypto.Sm3.{sm3, sm3_init}
use kcp_fake_tcp.Crypto.Sm3.Laws.{sm3_init-length}
use kcp_fake_tcp.Crypto.Base64.{base64_encode}

sha256_abc :
    (encode_pwd_by_sha256 (codes "abc")).1
    ≡ codes "ba7816bf8f01cfea414140de5dae2223b00361a396177a9cb410ff61f20015ad"
unfolding encode_pwd_by_sha256 add_bin
sha256_abc = refl

sm3_abc :
    sm3 (codes "abc")
    ≡ some (codes "66c7f0f462eeedd9d1f2d46bdc10e4e24167c4875cf2f7a2297da02b8f4ba8e0")
unfolding sm3
sm3_abc = refl

base64_foob : base64_encode (codes "666f6f62") ≡ codes "Zm9vYg=="
unfolding base64_encode
base64_foob = refl

sm3_init-length_example :
    (length (sm3_init (codes "01100001")) % 512 ≡ 0)
    × (zeros : ℕ) × (zeros < 512)
    × (sm3_init (codes "01100001")
        ≡ (codes "01100001" ++ char_1 ∷ [])
          ++ (replicate zeros char_0 ++ bitset_string 64 (length (codes "01100001"))))
sm3_init-length_example = sm3_init-length (codes "01100001") (omega arith)
