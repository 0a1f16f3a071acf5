-- ===== src/Client/File/Closes.antt =====
-- `Close` and the destructor against `run_tcp_client` (code/kcp/kcp_client.cc).
use kcp_fake_tcp.Base.{
  ℕ, ◌≡◌, ◌⊎◌, inl, inr, refl, ap, subst, String, List, [], ◌∷◌, Bool, true, false, Bool-cases,
  if◌then◌else◌, Option, none, some,
}
use kcp_fake_tcp.Kcp.{Kcp}
use kcp_fake_tcp.Client.Outcome.{returned, waiting, aborted, Returns}
use kcp_fake_tcp.Client.State.{Client}
use kcp_fake_tcp.Client.Loop.{run_tcp_client}
use kcp_fake_tcp.Client.Loop.Steady.{HasBlock, Steady, Steady-trans, Steady-stopped}
use kcp_fake_tcp.Client.File.{
  Tick, Wait, done, timed_out, still, crashed, poll_loop, release, close, destroy_client,
}
use kcp_fake_tcp.Client.File.Waits.{TicksRely}

-- After some sleep the deadline had passed.
abbrev pub Overdue : {K : Type 0} → List (Tick K) → Type 0
Overdue [] = ⊥
Overdue (t ∷ ts) = (t.expired ≡ true) ⊎ Overdue ts

module _ {K : Type 0} where
  -- What `Close` may leave behind: the block is freed and `finish_loop` is set, or the block is there
  -- and the deadline has passed.
  abbrev pub Closed : List (Tick K) → Client K → Type 0
  Closed ticks c = ((c.m_kcp ≡ none) × (c.finish_loop ≡ true)) ⊎ (HasBlock c × Overdue ticks)

  abbrev Polled : Type 0 → Wait K → Type 0
  Polled Q (done c) = c.finish_loop ≡ true
  Polled Q (timed_out c) = HasBlock c × Q
  Polled Q (still c) = Unit
  Polled Q crashed = Unit

  Polled-if :
      (Q : Type 0) (b : Bool) (x y : Wait K)
      → (b ≡ true → Polled Q x)
      → (b ≡ false → Polled Q y)
      → Polled Q (if b then x else y)
  Polled-if Q true x y h g = h refl
  Polled-if Q false x y h g = g refl

  Polled-map : (Q R : Type 0) (w : Wait K) → (Q → R) → Polled Q w → Polled R w
  Polled-map Q R (done c) f h = h
  Polled-map Q R (timed_out c) f h = (h.0, f h.1)
  Polled-map Q R (still c) f h = h
  Polled-map Q R crashed f h = h

  poll_loop-Polled :
      (ticks : List (Tick K)) (a c : Client K)
      → HasBlock a
      → TicksRely ticks
      → Steady a c
      → Polled (Overdue ticks) (poll_loop (λ x. x.finish_loop) ticks c)
  unfolding poll_loop
  poll_loop-Polled [] a c block r h =
      Polled-if _ c.finish_loop (done c) (still c) (λ e. e) (λ e. tt)
  poll_loop-Polled (t ∷ ts) a c block r h =
      Polled-if _ c.finish_loop (done c) _ (λ e. e)
        (λ e.
          Polled-if _ t.expired (timed_out c) _ (λ late. (h.block block, inl late))
            (λ early.
              Polled-map (Overdue ts) _ _ inr
                (poll_loop-Polled ts a (t.others c) block r.1 (Steady-trans h (r.0 c)))))

  release-Closed :
      (ticks : List (Tick K)) (w : Wait K)
      → Polled (Overdue ticks) w
      → Returns (Closed ticks) (release w)
  unfolding release
  release-Closed ticks (done c) h = inl (refl, h)
  release-Closed ticks (timed_out c) h = inr h
  release-Closed ticks (still c) h = tt
  release-Closed ticks crashed h = tt

  -- `Close` of a client that has a control block, beside threads that keep it: where it returns,
  -- either `finish_loop` is set and the block is freed, or the deadline has passed in one of the
  -- sleeps and the block is still there. It never frees the block without having seen `finish_loop`.
  pub close-Closed :
      (ticks : List (Tick K)) (c c' : Client K) (k : K)
      → c.m_kcp ≡ some k
      → TicksRely ticks
      → close ticks c ≡ returned c'
      → Closed ticks c'
  unfolding close
  close-Closed ticks c c' k block r e = subst (Returns (Closed ticks)) e (held c.m_kcp block)
    where
      held :
          (m : Option K)
          → m ≡ some k
          → Returns (Closed ticks) (elim m [
            | none ↦ returned c
            | some k ↦
                release (poll_loop (λ x. x.finish_loop) ticks (record c { stop_flag = true }))
          ])
      held none e = absurd cc
      held (some k') e =
          release-Closed ticks _ (
            poll_loop-Polled ticks c (record c { stop_flag = true }) (k, block) r
              (Steady-stopped c))

  poll_loop-done :
      (test : Client K → Bool) (ticks : List (Tick K)) (c : Client K)
      → test c ≡ true
      → poll_loop test ticks c ≡ done c
  unfolding poll_loop
  poll_loop-done test [] c e = rw e refl
  poll_loop-done test (t ∷ ts) c e = rw e refl

module _ {K : Type 0} (kcp : Kcp K) (inet_addr : String → ℕ) where
  -- What `run_tcp_client` does between two rounds, as an act of another thread.
  abbrev pub thread : ℕ → List ℕ → Client K → Client K
  thread fuel buffer c = elim (run_tcp_client kcp inet_addr fuel [] buffer c) [
    | aborted ↦ c
    | waiting c' ↦ c'
    | returned c' ↦ c'
  ]

  -- `Close` of a client that has a control block, when the other thread comes to the head of its
  -- loop during the first sleep: `finish_loop` is set and the block is freed.
  pub close-joins :
      (fuel : ℕ) (buffer : List ℕ) (ticks : List (Tick K)) (c : Client K) (k : K)
      → c.m_kcp ≡ some k
      → close (record { others = thread fuel buffer; expired = false } ∷ ticks) c
        ≡ returned (record c { stop_flag = true; finish_loop = true; m_kcp = none })
  unfolding close poll_loop release run_tcp_client
  close-joins fuel buffer ticks c k h = elim (Bool-cases c.finish_loop) [
    | inl ended ↦ rw (h, ended) refl
    | inr runs ↦
        rw (h, runs)
          (ap release (
            poll_loop-done (λ x. x.finish_loop) ticks
              (record c { stop_flag = true; finish_loop = true; m_kcp = some k }) refl))
  ]

close_freed :
    {K : Type 0} (ticks : List (Tick K)) (c : Client K)
    → c.m_kcp ≡ none
    → close ticks c ≡ returned c
unfolding close
close_freed ticks c freed =
    ap
      (λ m. elim m [
        | none ↦ returned c
        | some k ↦ release (poll_loop (λ x. x.finish_loop) ticks (record c { stop_flag = true }))
      ])
      freed

-- A client whose block is freed: the destructor waits for nothing and frees nothing a second time;
-- it closes the descriptor.
pub destroy_client-freed :
    {K : Type 0} (ticks : List (Tick K)) (c : Client K)
    → c.m_kcp ≡ none
    → destroy_client ticks c ≡ returned (c, c.fd)
unfolding destroy_client
destroy_client-freed ticks c freed =
    ap
      (λ o. elim o [
        | aborted ↦ aborted
        | waiting x ↦ waiting (x, x.fd)
        | returned x ↦ returned (x, x.fd)
      ])
      (close_freed ticks c freed)
