-- ===== src/Server/Epoll/Order.antt =====
-- The order of the keys in the map of sessions, a `std::map` (code/kcp/server_epoll.h).
use kcp_fake_tcp.Base.{
  ℕ, ◌≡◌, ◌<◌, ◌⊎◌, inl, inr, ◌∙◌, refl, subst, ap, [], ◌∷◌, List, Bool-cases, true, false, ltb,
  ◌==◌, Option, none, some, arith,
}
use kcp_fake_tcp.Server.Session.{Session}
use kcp_fake_tcp.Server.Epoll.{Clients, entry, store}
use kcp_fake_tcp.Server.Epoll.Round.{Swept, end, erased, kept}

-- Every key is greater than `fd`.
abbrev pub Above : {K : Type 0} → ℕ → Clients K → Type 0
Above fd [] = Unit
Above fd ((key, c) ∷ rest) = (fd < key) × Above fd rest

abbrev pub Ascending : {K : Type 0} → Clients K → Type 0
Ascending [] = Unit
Ascending ((key, c) ∷ rest) = Above key rest × Ascending rest

-- `fd` is one of the descriptors.
abbrev pub Among : ℕ → List ℕ → Type 0
Among fd [] = ⊥
Among fd (other ∷ fds) = (other ≡ fd) ⊎ Among fd fds

module _ {K : Type 0} where
  Above-trans : (fd key : ℕ) (clients : Clients K) → fd < key → Above key clients → Above fd clients
  Above-trans fd key [] l h = tt
  Above-trans fd key ((k, c) ∷ rest) l h = (omega arith, Above-trans fd key rest l h.1)

  Above-store :
      (low fd : ℕ) (c : Option (Session K)) (clients : Clients K)
      → low < fd
      → Above low clients
      → Above low (store fd c clients)
  unfolding store
  Above-store low fd c [] l h = (l, tt)
  Above-store low fd c ((key, old) ∷ rest) l h = elim (Bool-cases (key == fd)) [
    | inl here ↦ rw here (l, h.1)
    | inr there ↦ elim (Bool-cases (ltb fd key)) [
      | inl before ↦ rw (there, before) (l, h)
      | inr behind ↦ rw (there, behind) (h.0, Above-store low fd c rest l h.1)
    ]
  ]

  pub Ascending-store :
      (fd : ℕ) (c : Option (Session K)) (clients : Clients K)
      → Ascending clients
      → Ascending (store fd c clients)
  unfolding store
  Ascending-store fd c [] h = (tt, tt)
  Ascending-store fd c ((key, old) ∷ rest) h = elim (Bool-cases (key == fd)) [
    | inl here ↦
        let same : key ≡ fd = ground arith in rw here (subst (λ i. Above i rest) same h.0, h.1)
    | inr there ↦ elim (Bool-cases (ltb fd key)) [
      | inl before ↦
          let less : fd < key = ground arith in
          rw (there, before) ((less, Above-trans fd key rest less h.0), h)
      | inr behind ↦
          let less : key < fd = ground arith in
          rw (there, behind) (Above-store key fd c rest less h.0, Ascending-store fd c rest h.1)
    ]
  ]

  -- What has no key in the map is not found.
  Above-entry : (fd : ℕ) (clients : Clients K) → Above fd clients → entry fd clients ≡ none
  unfolding entry
  Above-entry fd [] h = refl
  Above-entry fd ((key, c) ∷ rest) h =
      let differs : (key == fd) ≡ false = ground arith in rw differs (Above-entry fd rest h.1)

  Swept-Above :
      {clients clients' : Clients K} {shut : List ℕ} (fd : ℕ)
      → Swept clients clients' shut
      → Above fd clients
      → Above fd clients'
  Swept-Above fd end h = tt
  Swept-Above fd (erased t sw) h = Swept-Above fd sw h.1
  Swept-Above fd (kept t u sw) h = (h.0, Swept-Above fd sw h.1)

  pub Swept-Ascending :
      {clients clients' : Clients K} {shut : List ℕ}
      → Swept clients clients' shut
      → Ascending clients
      → Ascending clients'
  Swept-Ascending end h = tt
  Swept-Ascending (erased t sw) h = Swept-Ascending sw h.1
  Swept-Ascending (kept {fd} t u sw) h = (Swept-Above fd sw h.0, Swept-Ascending sw h.1)

  -- A round closes the descriptor of a stopped session and takes the session out of the map.
  pub Swept-closes :
      {clients clients' : Clients K} {shut : List ℕ} (fd : ℕ) (s : Session K)
      → Swept clients clients' shut
      → Ascending clients
      → entry fd clients ≡ some s
      → s.stop_flag ≡ true
      → Among fd shut × (entry fd clients' ≡ none)
  unfolding entry
  Swept-closes fd s end a e h = cc
  Swept-closes fd s (erased {fd = key} {rest'} t sw) a e h = elim (Bool-cases (key == fd)) [
    | inl here ↦
        let same : key ≡ fd = ground arith in
        (inl same, Above-entry fd rest' (subst (λ i. Above i rest') same (Swept-Above key sw a.0)))
    | inr there ↦ let later = Swept-closes fd s sw a.1 (rw there at e) h in (inr later.0, later.1)
  ]
  Swept-closes fd s (kept {fd = key} {s = old} t u sw) a e h = elim (Bool-cases (key == fd)) [
    | inl here ↦
        let same : old ≡ s = cc (rw here at e) in
        let stopped : old.stop_flag ≡ true = ap (λ r. r.stop_flag) same ∙ h in absurd cc
    | inr there ↦ rw there (Swept-closes fd s sw a.1 (rw there at e) h)
  ]
