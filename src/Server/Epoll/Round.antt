-- ===== src/Server/Epoll/Round.antt =====
-- A round of `updateKcp` over the map of sessions (code/kcp/server_epoll.cc).
use mathlib.Core.List.{append_assoc, append-nil}
use kcp_fake_tcp.Base.{
  ℕ, ◌≡◌, ◌∙◌, refl, sym, subst, List, [], ◌∷◌, ◌++◌, Bool, true, false, none, some,
}
use kcp_fake_tcp.Kcp.{Kcp}
use kcp_fake_tcp.Client.Outcome.{Outcome, returned, waiting, aborted, Survives}
use kcp_fake_tcp.Server.Session.{Session, close}
use kcp_fake_tcp.Server.Output.{SendResult}
use kcp_fake_tcp.Server.Epoll.{Clients, update_session, update_clients}
use kcp_fake_tcp.Server.Epoll.Update.{Updated, update_session-Updated}

-- The session holds a control block and is the one of the descriptor `fd`.
abbrev pub HasBlock : {K : Type 0} → ℕ → Session K → Type 0
HasBlock {K} fd s = (k : K) × (s.m_kcp ≡ some k) × (s.fd ≡ fd)

-- No pointer of the map is null, and each session is the one of its key.
abbrev pub Owned : {K : Type 0} → Clients K → Type 0
Owned [] = Unit
Owned ((fd, none) ∷ rest) = ⊥
Owned ((fd, some s) ∷ rest) = HasBlock fd s × Owned rest

-- The map after a round, and the descriptors that the round has closed: the stopped sessions are
-- gone and theirs are the descriptors, and the others have been updated.
pub data Swept {K : Type 0} : Clients K → Clients K → List ℕ → Type 0 where
  end : Swept [] [] []
  erased :
      {fd : ℕ} {s : Session K} {rest rest' : Clients K} {shut : List ℕ}
      → s.stop_flag ≡ true
      → Swept rest rest' shut
      → Swept ((fd, some s) ∷ rest) rest' (fd ∷ shut)
  kept :
      {fd : ℕ} {s s' : Session K} {rest rest' : Clients K} {shut : List ℕ}
      → s.stop_flag ≡ false
      → Updated s s'
      → Swept rest rest' shut
      → Swept ((fd, some s) ∷ rest) ((fd, some s') ∷ rest') shut

-- Behind what is done already, an outcome has swept what is to come.
abbrev pub SweptFrom :
    {K : Type 0} → Clients K → Clients K → List ℕ → Outcome (Clients K × List ℕ) → Type 0
SweptFrom {K} done todo shut (returned r) =
    (rest : Clients K) × (more : List ℕ) × Swept todo rest more
    × (r.0 ≡ done ++ rest)
    × (r.1 ≡ shut ++ more)
SweptFrom done todo shut (waiting r) = Unit
SweptFrom done todo shut aborted = ⊥

module _ {K : Type 0} (kcp : Kcp K) (clock : ℕ) (answers : ℕ → List (List SendResult)) where
  close-HasBlock : (fd : ℕ) (s : Session K) → HasBlock fd s → (close s).1 ≡ fd ∷ []
  unfolding close
  close-HasBlock fd s h = rw (h.1, h.2)

  SweptFrom-erased :
      (fd : ℕ) (s : Session K) (done todo : Clients K) (shut : List ℕ)
      (o : Outcome (Clients K × List ℕ))
      → s.stop_flag ≡ true
      → SweptFrom done todo (shut ++ fd ∷ []) o
      → SweptFrom done ((fd, some s) ∷ todo) shut o
  SweptFrom-erased fd s done todo shut (returned r) t h =
      (h.0, fd ∷ h.1, erased t h.2, h.3, h.4 ∙ append_assoc shut (fd ∷ []) h.1)
  SweptFrom-erased fd s done todo shut (waiting r) t h = tt
  SweptFrom-erased fd s done todo shut aborted t h = h

  SweptFrom-kept :
      (fd : ℕ) (s s' : Session K) (done todo : Clients K) (shut : List ℕ)
      (o : Outcome (Clients K × List ℕ))
      → s.stop_flag ≡ false
      → Updated s s'
      → SweptFrom (done ++ (fd, some s') ∷ []) todo shut o
      → SweptFrom done ((fd, some s) ∷ todo) shut o
  SweptFrom-kept fd s s' done todo shut (returned r) t u h = (
    (fd, some s') ∷ h.0,
    h.1,
    kept t u h.2,
    h.3 ∙ append_assoc done ((fd, some s') ∷ []) h.0,
    h.4,
  )
  SweptFrom-kept fd s s' done todo shut (waiting r) t u h = tt
  SweptFrom-kept fd s s' done todo shut aborted t u h = h

  -- What follows the update of one session.
  update-then :
      (fd : ℕ) (s : Session K) (done todo : Clients K) (shut : List ℕ) (o : Outcome (Session K))
      → s.stop_flag ≡ false
      → Survives (Updated s) o
      → ((s' : Session K)
          → SweptFrom
              (done ++ (fd, some s') ∷ [])
              todo
              shut
              (update_clients kcp clock answers (done ++ (fd, some s') ∷ []) todo shut))
      → SweptFrom done ((fd, some s) ∷ todo) shut (elim o [
        | aborted ↦ aborted
        | waiting s' ↦ waiting (done ++ (fd, some s') ∷ todo, shut)
        | returned s' ↦ update_clients kcp clock answers (done ++ (fd, some s') ∷ []) todo shut
      ])
  update-then fd s done todo shut (returned s') t u h =
      SweptFrom-kept fd s s' done todo shut _ t u (h s')
  update-then fd s done todo shut (waiting s') t u h = tt
  update-then fd s done todo shut aborted t u h = u

  -- The two branches on `stopFlag`.
  abbrev on_stop :
      ℕ → Session K → Clients K → Clients K → List ℕ → Bool → Outcome (Clients K × List ℕ)
  on_stop fd s done todo shut true =
      update_clients kcp clock answers done todo (shut ++ (close s).1)
  on_stop fd s done todo shut false = elim (update_session kcp clock (answers fd) s) [
    | aborted ↦ aborted
    | waiting s' ↦ waiting (done ++ (fd, some s') ∷ todo, shut)
    | returned s' ↦ update_clients kcp clock answers (done ++ (fd, some s') ∷ []) todo shut
  ]

  stop-cases :
      (fd : ℕ) (s : Session K) (done todo : Clients K) (shut : List ℕ)
      → HasBlock fd s
      → ((done' : Clients K) (shut' : List ℕ)
          → SweptFrom done' todo shut' (update_clients kcp clock answers done' todo shut'))
      → (b : Bool) → s.stop_flag ≡ b
      → SweptFrom done
          ((fd, some s) ∷ todo)
          shut
          (update_clients kcp clock answers done ((fd, some s) ∷ todo) shut)
  unfolding update_clients
  stop-cases fd s done todo shut h rest true t =
      subst (λ b. SweptFrom done ((fd, some s) ∷ todo) shut (on_stop fd s done todo shut b)) (sym t)
        (rw (close-HasBlock fd s h)
          (SweptFrom-erased fd s done todo shut _ t (rest done (shut ++ fd ∷ []))))
  stop-cases fd s done todo shut h rest false t =
      subst (λ b. SweptFrom done ((fd, some s) ∷ todo) shut (on_stop fd s done todo shut b)) (sym t)
        (update-then fd s done todo shut _ t
          (update_session-Updated kcp clock (answers fd) s h.0 h.1)
          (λ s'. rest (done ++ (fd, some s') ∷ []) shut))

  -- A walk of `updateKcp` over a map without null pointers.
  pub update_clients-Swept :
      (done todo : Clients K) (shut : List ℕ)
      → Owned todo
      → SweptFrom done todo shut (update_clients kcp clock answers done todo shut)
  unfolding update_clients
  update_clients-Swept done [] shut h = ([], [], end, sym (append-nil done), sym (append-nil shut))
  update_clients-Swept done ((fd, none) ∷ rest) shut h = h
  update_clients-Swept done ((fd, some s) ∷ rest) shut h =
      stop-cases fd s done rest shut h.0 (λ done' shut'. update_clients-Swept done' rest shut' h.1)
        s.stop_flag refl
