-- ===== src/Client/File/Waits.antt =====
-- The loops of `send_file` and `Close` that wait, beside threads that keep what is to be kept
-- (code/kcp/kcp_client.cc).
use kcp_fake_tcp.Base.{
  ◌≡◌, List, [], ◌∷◌, Bool, true, false, if◌then◌else◌, ◌==◌, Option, none, some,
}
use kcp_fake_tcp.Kcp.{Kcp}
use kcp_fake_tcp.Client.State.{Client}
use kcp_fake_tcp.Client.Loop.Steady.{HasBlock, Steady, Steady-trans}
use kcp_fake_tcp.Client.File.{
  Tick, Wait, done, timed_out, still, crashed, wait_loop, poll_loop, waitsnd_loop,
}

-- A loop that waits has passed its test.
abbrev pub IsDone : {K : Type 0} → Wait K → Type 0
IsDone w = (c : _) × (w ≡ done c)

-- Whatever a loop that waits comes to satisfies `P`.
abbrev pub Left : {K : Type 0} → (Client K → Type 0) → Wait K → Type 0
Left P (done c) = P c
Left P (timed_out c) = P c
Left P (still c) = P c
Left P crashed = ⊥

Left-if :
    {K : Type 0} (P : Client K → Type 0) (b : Bool) (x y : Wait K)
    → Left P x
    → Left P y
    → Left P (if b then x else y)
Left-if P true x y h k = h
Left-if P false x y h k = k

-- The other threads keep what is to be kept, in every sleep.
abbrev pub TicksRely : {K : Type 0} → List (Tick K) → Type 0
TicksRely [] = Unit
TicksRely (t ∷ ts) = ((c : Client _) → Steady c (t.others c)) × TicksRely ts

module _ {K : Type 0} (test : Client K → Bool) where
  pub wait_loop-Steady :
      (ticks : List (Tick K)) (a c : Client K)
      → TicksRely ticks
      → Steady a c
      → Left (Steady a) (wait_loop test ticks c)
  unfolding wait_loop
  wait_loop-Steady [] a c r h = Left-if (Steady a) (test c) (done c) (still c) h h
  wait_loop-Steady (t ∷ ts) a c r h =
      let h' = Steady-trans h (r.0 c) in
      Left-if (Steady a) (test c) (done c) _ h (
        Left-if (Steady a) t.expired (timed_out (t.others c)) _ h'
          (wait_loop-Steady ts a (t.others c) r.1 h'))

  pub poll_loop-Steady :
      (ticks : List (Tick K)) (a c : Client K)
      → TicksRely ticks
      → Steady a c
      → Left (Steady a) (poll_loop test ticks c)
  unfolding poll_loop
  poll_loop-Steady [] a c r h = Left-if (Steady a) (test c) (done c) (still c) h h
  poll_loop-Steady (t ∷ ts) a c r h =
      let h' = Steady-trans h (r.0 c) in
      Left-if (Steady a) (test c) (done c) _ h
        (Left-if (Steady a) t.expired (timed_out c) _ h (poll_loop-Steady ts a (t.others c) r.1 h'))

module _ {K : Type 0} (kcp : Kcp K) where
  Left-held :
      (P : Client K → Type 0) (m : Option K) (f : K → Wait K)
      → (k : K) × (m ≡ some k)
      → ((k : K) → Left P (f k))
      → Left P (elim m [ none ↦ crashed | some k ↦ f k ])
  Left-held P none f (k, e) h = absurd cc
  Left-held P (some k) f held h = h k

  -- The loop over `ikcp_waitsnd` does not crash, as nobody frees the block.
  pub waitsnd_loop-Steady :
      (ticks : List (Tick K)) (a c : Client K)
      → HasBlock a
      → TicksRely ticks
      → Steady a c
      → Left (Steady a) (waitsnd_loop kcp ticks c)
  unfolding waitsnd_loop
  waitsnd_loop-Steady [] a c block r h =
      Left-held (Steady a) c.m_kcp _ (h.block block)
        (λ k. Left-if (Steady a) (kcp.waitsnd k == 0) (done c) (still c) h h)
  waitsnd_loop-Steady (t ∷ ts) a c block r h =
      let h' = Steady-trans h (r.0 c) in
      Left-held (Steady a) c.m_kcp _ (h.block block) (λ k.
        Left-if (Steady a) (kcp.waitsnd k == 0) (done c) _ h (
          Left-if (Steady a) t.expired (timed_out (t.others c)) _ h'
            (waitsnd_loop-Steady ts a (t.others c) block r.1 h')))
