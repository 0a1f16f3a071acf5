-- ===== src/Crypto/Sm4/Rounds.antt =====
-- The rounds of SM4 (code/model.cc) and the way back.
use mathlib.Core.List.{reverse, reverse_aux}
use kcp_fake_tcp.Base.{ℕ, ◌≡◌, ◌∙◌, refl, sym, ap, List, [], ◌∷◌}
use kcp_fake_tcp.Crypto.Words.{◌xor◌}
use kcp_fake_tcp.Crypto.Words.Laws.{xor_comm, xor_assoc, xor_twice}
use kcp_fake_tcp.Crypto.Sm4.{Quad, mix, round_function, cipher_round, cipher_rounds}

-- The words in reverse, as `sm4_128` puts them out.
abbrev pub turned : Quad → Quad
turned q = record { x0 = q.x3; x1 = q.x2; x2 = q.x1; x3 = q.x0 }

xor_reverse : (x y z : ℕ) → (z xor y) xor x ≡ (x xor y) xor z
xor_reverse x y z = xor_comm (z xor y) x ∙ ap (λ w. x xor w) (xor_comm z y) ∙ sym (xor_assoc x y z)

-- A round undoes itself on the reversed words.
cipher_round-turned : (k : ℕ) (q : Quad) → cipher_round k (turned (cipher_round k q)) ≡ turned q
unfolding cipher_round round_function
cipher_round-turned k q =
    ap {A = ℕ} {B = Quad} (λ x. record { x0 = q.x3; x1 = q.x2; x2 = q.x1; x3 = x })
      (ap (λ m. (q.x0 xor mix (q.x1 xor q.x2 xor q.x3 xor k)) xor mix (m xor k))
          (xor_reverse q.x1 q.x2 q.x3)
        ∙ xor_twice q.x0 (mix (q.x1 xor q.x2 xor q.x3 xor k)))

cipher_rounds-reverse_aux :
    (ks more : List ℕ) (q : Quad)
    → cipher_rounds (reverse_aux ks more) (turned (cipher_rounds ks q))
      ≡ cipher_rounds more (turned q)
unfolding cipher_rounds
cipher_rounds-reverse_aux [] more q = refl
cipher_rounds-reverse_aux (k ∷ ks) more q =
    cipher_rounds-reverse_aux ks (k ∷ more) (cipher_round k q)
    ∙ ap (cipher_rounds more) (cipher_round-turned k q)

-- The rounds of the cipher with the round keys in reverse, on the words that come out, in reverse
-- too, give the words that went in, in reverse: for all words and any number of round keys, the
-- block is deciphered by the same rounds.
pub cipher_rounds-reverse :
    (ks : List ℕ) (q : Quad) → cipher_rounds (reverse ks) (turned (cipher_rounds ks q)) ≡ turned q
unfolding cipher_rounds
cipher_rounds-reverse ks q = cipher_rounds-reverse_aux ks [] q
