-- ===== src/Client/Output/Datagrams.antt =====
-- What a receiver makes of a list of datagrams: the bytes that they carry and their numbering.
use mathlib.Core.List.{append_assoc}
use kcp_fake_tcp.Base.{
  ℕ, ◌+◌, ◌≡◌, ◌∙◌, refl, sym, ap, List, [], ◌∷◌, ◌++◌, arith, u32, drop, length, length-append,
}
use kcp_fake_tcp.Wire.Header.{ip_tcp_header_size}
use kcp_fake_tcp.Wire.Info.{prase_tcp_packet}

-- The bytes that a list of datagrams carries behind the headers.
unfoldable pub bodies : List (List ℕ) → List ℕ
bodies [] = []
bodies (p ∷ ps) = drop ip_tcp_header_size p ++ bodies ps

-- Each datagram has the sequence number of the byte at which the one before it ended.
abbrev pub InSequence : ℕ → List (List ℕ) → Type 0
InSequence start [] = Unit
InSequence start (p ∷ ps) =
    ((prase_tcp_packet p (length p)).seq ≡ u32 start)
    × InSequence (start + length (drop ip_tcp_header_size p)) ps

pub bodies-append : (ps qs : List (List ℕ)) → bodies (ps ++ qs) ≡ bodies ps ++ bodies qs
unfolding bodies
bodies-append [] qs = refl
bodies-append (p ∷ ps) qs =
    ap (λ r. drop ip_tcp_header_size p ++ r) (bodies-append ps qs)
    ∙ sym (append_assoc (drop ip_tcp_header_size p) (bodies ps) (bodies qs))

pub InSequence-mod :
    (a b : ℕ) (ps : List (List ℕ)) → u32 a ≡ u32 b → InSequence a ps → InSequence b ps
InSequence-mod a b [] e h = tt
InSequence-mod a b (p ∷ ps) e h = (
  h.0 ∙ e,
  InSequence-mod (a + length (drop ip_tcp_header_size p)) (b + length (drop ip_tcp_header_size p))
      ps (omega arith) h.1,
)

pub InSequence-append :
    (start : ℕ) (ps qs : List (List ℕ))
    → InSequence start ps
    → InSequence (start + length (bodies ps)) qs
    → InSequence start (ps ++ qs)
unfolding bodies
InSequence-append start [] qs h k = InSequence-mod (start + 0) start qs (omega arith) k
InSequence-append start (p ∷ ps) qs h k = (
  h.0,
  InSequence-append (start + length (drop ip_tcp_header_size p)) ps qs h.1 (
      InSequence-mod _ _ qs (omega (arith, length-append (drop ip_tcp_header_size p) (bodies ps)))
        k),
)
