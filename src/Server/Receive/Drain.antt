-- ===== src/Server/Receive/Drain.antt =====
-- The loop over `ikcp_recv` in `startEpoll` and its end (code/kcp/server_epoll.cc).
use kcp_fake_tcp.Base.{
  ℕ, zero, suc, ◌+◌, ◌<◌, ◌≤◌, ◌≡◌, refl, sym, subst, List, [], ◌∷◌, Bool, true, false, Bool-cases,
  inl, inr, ltb, leb, if◌then◌else◌, Option, none, some, u32, length, arith,
}
use kcp_fake_tcp.Kcp.{Kcp, Drains}
use kcp_fake_tcp.Client.Outcome.{Outcome, returned, waiting, aborted, Ends}
use kcp_fake_tcp.Server.Session.{Session}
use kcp_fake_tcp.Server.Receive.{
  send_finish, header_size, open_file, write_file, finish_file, more_file, on_message, block_of,
  drain,
}

-- The loop does not wait: it has returned, or an `assert` has ended the process.
abbrev pub Ended : {A : Type 0} → Outcome A → Type 0
Ended (returned a) = Unit
Ended (waiting a) = ⊥
Ended aborted = Unit

module _ {K : Type 0} (kcp : Kcp K) (pid : ℕ) where
  -- What follows a message.
  abbrev pub resume : ℕ → ℕ → K → Outcome (Session K × ℕ) → Outcome (Session K × ℕ)
  resume fuel limit k o = elim o [
    | aborted ↦ aborted
    | waiting t ↦ waiting t
    | returned t ↦ drain kcp pid fuel limit (block_of kcp pid t.0 k) (t.0, t.1)
  ]

  -- What follows a call of `ikcp_recv`.
  abbrev pub after_recv : ℕ → ℕ → Session K → ℕ → K × Option (List ℕ) → Outcome (Session K × ℕ)
  after_recv fuel limit s cnt (k', none) = returned (record s { m_kcp = some k' }, cnt)
  after_recv fuel limit s cnt (k', some []) =
      drain kcp pid fuel limit k' (record s { m_kcp = some k' }, cnt)
  after_recv fuel limit s cnt (k', some (b ∷ bs)) =
      resume fuel limit k' (on_message kcp pid k' (b ∷ bs) (record s { m_kcp = some k' }, cnt))

  module _ (Q : Type 0) (P : Session K × ℕ → Type 0) (limit : ℕ) where
    Ends-resume :
        (fuel : ℕ) (k : K) (o : Outcome (Session K × ℕ))
        → ((k : K) (s : Session K) (cnt : ℕ)
            → P (s, cnt)
            → Ends Q P (drain kcp pid fuel limit k (s, cnt)))
        → Ends Q P o
        → Ends Q P (resume fuel limit k o)
    Ends-resume fuel k (returned t) ih h = ih (block_of kcp pid t.0 k) t.0 t.1 h
    Ends-resume fuel k (waiting t) ih h = h
    Ends-resume fuel k aborted ih h = h

    module _
        (received : (s : Session K) (cnt : ℕ) (k : K)
          → P (s, cnt)
          → P (record s { m_kcp = some k }, cnt))
        (handled : (k : K) (message : List ℕ) (s : Session K) (cnt : ℕ)
          → s.m_kcp ≡ some k
          → P (s, cnt)
          → Ends Q P (on_message kcp pid k message (s, cnt))) where
      Ends-after_recv :
          (fuel : ℕ) (s : Session K) (cnt : ℕ) (r : K × Option (List ℕ))
          → ((k : K) (s : Session K) (cnt : ℕ)
              → P (s, cnt)
              → Ends Q P (drain kcp pid fuel limit k (s, cnt)))
          → P (s, cnt)
          → Ends Q P (after_recv fuel limit s cnt r)
      Ends-after_recv fuel s cnt (k, none) ih h = received s cnt k h
      Ends-after_recv fuel s cnt (k, some []) ih h =
          ih k (record s { m_kcp = some k }) cnt (received s cnt k h)
      Ends-after_recv fuel s cnt (k, some (b ∷ bs)) ih h =
          Ends-resume fuel k _ ih
            (handled k (b ∷ bs) (record s { m_kcp = some k }) cnt refl (received s cnt k h))

      -- What every reception and every message keeps, the loop keeps.
      pub drain_inv :
          (fuel : ℕ) (k : K) (s : Session K) (cnt : ℕ)
          → P (s, cnt)
          → Ends Q P (drain kcp pid fuel limit k (s, cnt))
      unfolding drain
      drain_inv zero k s cnt h = h
      drain_inv (suc fuel) k s cnt h =
          Ends-after_recv fuel s cnt (kcp.recv (some limit) k) (drain_inv fuel) h

module _ {K : Type 0} (kcp : Kcp K) (pid : ℕ) (pending : K → ℕ) (drains : Drains kcp pending) where
  -- Where a message leaves the session, no more messages are pending than before.
  abbrev NoMore : K → Outcome (Session K × ℕ) → Type 0
  NoMore k (returned t) = pending (block_of kcp pid t.0 k) ≤ pending k
  NoMore k (waiting t) = ⊥
  NoMore k aborted = Unit

  NoMore-if :
      (k : K) (b : Bool) (x y : Outcome (Session K × ℕ))
      → NoMore k x
      → NoMore k y
      → NoMore k (if b then x else y)
  NoMore-if k true x y h g = h
  NoMore-if k false x y h g = g

  more_file-NoMore :
      (k : K) (message : List ℕ) (s : Session K) (cnt : ℕ)
      → s.m_kcp ≡ some k
      → NoMore k (returned (more_file kcp pid k message s, cnt))
  unfolding more_file write_file finish_file
  more_file-NoMore k message s cnt h =
      elim (Bool-cases (leb s.file_size (u32 (s.file_sended + length message)))) [
        | inl full ↦ rw full (drains.stays send_finish k)
        | inr short ↦ rw (short, h) (omega arith)
      ]

  on_message-NoMore :
      (k : K) (message : List ℕ) (s : Session K) (cnt : ℕ)
      → s.m_kcp ≡ some k
      → NoMore k (on_message kcp pid k message (s, cnt))
  unfolding on_message open_file
  on_message-NoMore k message s cnt h =
      NoMore-if k s.read_file _ _ (more_file-NoMore k message s cnt h)
        (NoMore-if k (ltb (length message) header_size) _ _ tt (rw h (omega arith)))

  -- The loop ends with `fuel` rounds on every block with fewer messages pending.
  abbrev EndsWith : ℕ → ℕ → Type 0
  EndsWith fuel limit =
      (k : K) (s : Session K) (cnt : ℕ)
      → pending k < fuel
      → Ended (drain kcp pid fuel limit k (s, cnt))

  resume-Ended :
      (fuel limit : ℕ) (k : K) (o : Outcome (Session K × ℕ))
      → EndsWith fuel limit
      → pending k < fuel
      → NoMore k o
      → Ended (resume kcp pid fuel limit k o)
  resume-Ended fuel limit k (returned t) ends h less =
      ends (block_of kcp pid t.0 k) t.0 t.1 (omega arith)
  resume-Ended fuel limit k (waiting t) ends h less = absurd less
  resume-Ended fuel limit k aborted ends h less = tt

  drain-Ended-recv :
      (fuel limit : ℕ) (k k' : K) (got : Option (List ℕ)) (s : Session K) (cnt : ℕ)
      → EndsWith fuel limit
      → kcp.recv (some limit) k ≡ (k', got)
      → pending k < suc fuel
      → Ended (drain kcp pid (suc fuel) limit k (s, cnt))
  unfolding drain
  drain-Ended-recv fuel limit k k' none s cnt ends e h =
      subst (λ r. Ended (after_recv kcp pid fuel limit s cnt r)) (sym e) tt
  drain-Ended-recv fuel limit k k' (some []) s cnt ends e h =
      subst (λ r. Ended (after_recv kcp pid fuel limit s cnt r)) (sym e)
        (ends k' _ cnt (omega (arith, drains.falls limit k k' [] e)))
  drain-Ended-recv fuel limit k k' (some (b ∷ bs)) s cnt ends e h =
      subst (λ r. Ended (after_recv kcp pid fuel limit s cnt r)) (sym e)
        (resume-Ended fuel limit k' _ ends (omega (arith, drains.falls limit k k' (b ∷ bs) e))
          (on_message-NoMore k' (b ∷ bs) (record s { m_kcp = some k' }) cnt refl))

  -- The loop over `ikcp_recv` ends, in an `assert` or by returning, within as many rounds as
  -- messages are pending and one more, when each reception takes a message out of a finite queue and
  -- `ikcp_send` puts none in.
  pub drain-Ended :
      (fuel limit : ℕ) (k : K) (s : Session K) (cnt : ℕ)
      → pending k < fuel
      → Ended (drain kcp pid fuel limit k (s, cnt))
  drain-Ended zero limit k s cnt h = absurd (omega arith)
  drain-Ended (suc fuel) limit k s cnt h =
      drain-Ended-recv fuel limit k (kcp.recv (some limit) k).0 (kcp.recv (some limit) k).1 s cnt
        (drain-Ended fuel limit) refl h
