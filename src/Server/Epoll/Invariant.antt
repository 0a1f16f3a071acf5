-- ===== src/Server/Epoll/Invariant.antt =====
-- The invariant of `ServerEpoll` (code/kcp/server_epoll.cc): on its map of sessions, their control
-- blocks, and what is watched.
use kcp_fake_tcp.Base.{
  ℕ, ◌≡◌, ◌∙◌, inl, inr, refl, sym, subst, ap, List, [], ◌∷◌, Bool, true, false, Bool-cases, ltb,
  ◌==◌, ==_iff, if◌then◌else◌, Option, none, some, arith,
}
use kcp_fake_tcp.Server.Session.{Session}
use kcp_fake_tcp.Server.Epoll.{Clients, ServerEpoll, entry, store, remove}
use kcp_fake_tcp.Server.Epoll.Laws.{entry-store}
use kcp_fake_tcp.Server.Epoll.Round.{HasBlock, Owned, Swept, end, erased, kept}
use kcp_fake_tcp.Server.Epoll.Order.{Ascending}

-- There is a session here that has not been stopped.
abbrev pub Live : {K : Type 0} → Option (Session K) → Type 0
Live none = ⊥
Live (some s) = s.stop_flag ≡ false

-- Each of the descriptors has such a session.
abbrev pub Served : {K : Type 0} → List ℕ → Clients K → Type 0
Served [] clients = Unit
Served (fd ∷ fds) clients = Live (entry fd clients) × Served fds clients

pub record Inv {K : Type 0} (e : ServerEpoll K) : Type 0 where
  pub owned : Owned e.clients
  pub served : Served e.watched e.clients
  pub ascending : Ascending e.clients

pub Live-if :
    {K : Type 0} (b : Bool) (x y : Option (Session K))
    → (b ≡ true → Live x)
    → Live y
    → Live (if b then x else y)
Live-if true x y h k = h refl
Live-if false x y h k = k

module _ {K : Type 0} (fd : ℕ) (s : Session K) where
  pub Owned-store :
      (clients : Clients K) → HasBlock fd s → Owned clients → Owned (store fd (some s) clients)
  unfolding store
  Owned-store [] h o = (h, tt)
  Owned-store ((key, none) ∷ rest) h o = absurd o
  Owned-store ((key, some old) ∷ rest) h o = elim (Bool-cases (key == fd)) [
    | inl here ↦ rw here (h, o.1)
    | inr there ↦ elim (Bool-cases (ltb fd key)) [
      | inl before ↦ rw (there, before) (h, o)
      | inr behind ↦ rw (there, behind) (o.0, Owned-store rest h o.1)
    ]
  ]

  pub Served-store :
      (fds : List ℕ) (clients : Clients K)
      → s.stop_flag ≡ false
      → Served fds clients
      → Served fds (store fd (some s) clients)
  Served-store [] clients h served = tt
  Served-store (other ∷ fds) clients h served = (
    subst Live (sym (entry-store fd other (some s) clients))
        (Live-if (fd == other) (some s) (entry other clients) (λ e. h) served.0),
    Served-store fds clients h served.1,
  )

  -- A descriptor that is no longer watched may have any session.
  pub Served-remove :
      (fds : List ℕ) (clients : Clients K)
      → Served fds clients
      → Served (remove fd fds) (store fd (some s) clients)
  unfolding remove
  Served-remove [] clients served = tt
  Served-remove (other ∷ fds) clients served = elim (Bool-cases (other == fd)) [
    | inl same ↦ rw same (Served-remove fds clients served.1)
    | inr differs ↦ rw differs (
      subst Live (sym (entry-store fd other (some s) clients)) (
          Live-if (fd == other) (some s) (entry other clients) (λ e. absurd (ground arith))
            served.0),
      Served-remove fds clients served.1,
    )
  ]

module _ {K : Type 0} where
  pub Owned-entry :
      (fd : ℕ) (clients : Clients K) (s : Session K)
      → Owned clients
      → entry fd clients ≡ some s
      → HasBlock fd s
  unfolding entry
  Owned-entry fd [] s o e = cc
  Owned-entry fd ((key, none) ∷ rest) s o e = absurd o
  Owned-entry fd ((key, some old) ∷ rest) s o e = elim (Bool-cases (key == fd)) [
    | inl here ↦
        let same : old ≡ s = cc (rw here at e) in
        subst (λ r. HasBlock fd r) same (subst (λ i. HasBlock i old) ((==_iff key fd).0 here) o.0)
    | inr there ↦ Owned-entry fd rest s o.1 (rw there at e)
  ]

  pub Swept-Owned :
      {clients clients' : Clients K} {shut : List ℕ}
      → Swept clients clients' shut
      → Owned clients
      → Owned clients'
  Swept-Owned end o = tt
  Swept-Owned (erased t sw) o = Swept-Owned sw o.1
  Swept-Owned (kept t u sw) o =
      ((u.0, ap (λ r. r.m_kcp) u.2, ap (λ r. r.fd) u.2 ∙ o.0.2), Swept-Owned sw o.1)

  Swept-Live :
      {clients clients' : Clients K} {shut : List ℕ} (fd : ℕ)
      → Swept clients clients' shut
      → Live (entry fd clients)
      → Live (entry fd clients')
  unfolding entry
  Swept-Live fd end h = h
  Swept-Live fd (erased {fd = key} {s} t sw) h = elim (Bool-cases (key == fd)) [
    | inl here ↦ let live : s.stop_flag ≡ false = rw here at h in absurd cc
    | inr there ↦ Swept-Live fd sw (rw there at h)
  ]
  Swept-Live fd (kept {fd = key} t u sw) h = elim (Bool-cases (key == fd)) [
    | inl here ↦ rw here (ap (λ r. r.stop_flag) u.2 ∙ t)
    | inr there ↦ rw there (Swept-Live fd sw (rw there at h))
  ]

  pub Swept-Served :
      {clients clients' : Clients K} {shut : List ℕ} (fds : List ℕ)
      → Swept clients clients' shut
      → Served fds clients
      → Served fds clients'
  Swept-Served [] sw h = tt
  Swept-Served (fd ∷ fds) sw h = (Swept-Live fd sw h.0, Swept-Served fds sw h.1)
