-- ===== src/Client/File/Order.antt =====
-- The order of the waits at the end of `send_file` (code/kcp/kcp_client.cc).
use kcp_fake_tcp.Base.{
  ℕ, ◌≡◌, ◌⊎◌, inl, inr, refl, String, List, [], ◌∷◌, Bool, true, false, Bool-cases, if◌then◌else◌,
  ◌==◌, Option, none, some, arith,
}
use kcp_fake_tcp.Kcp.{Kcp}
use kcp_fake_tcp.Client.State.{Client}
use kcp_fake_tcp.Client.Teardown.{WaveRound, finish}
use kcp_fake_tcp.Client.File.{
  Tick, Wait, done, timed_out, still, crashed, wait_loop, poll_loop, waitsnd_loop, SendRun,
  after_pieces,
}

-- A loop that is done has left a client that passes the test.
abbrev pub Passes : {K : Type 0} → (Client K → Bool) → Wait K → Type 0
Passes test (done c) = test c ≡ true
Passes test (timed_out c) = Unit
Passes test (still c) = Unit
Passes test crashed = Unit

-- The client has a control block, and all that was given to it is acknowledged.
abbrev pub AllSent : {K : Type 0} → Kcp K → Client K → Type 0
AllSent kcp c = (k : _) × (c.m_kcp ≡ some k) × (kcp.waitsnd k ≡ 0)

-- A loop that is done has left such a client.
abbrev pub Drained : {K : Type 0} → Kcp K → Wait K → Type 0
Drained kcp (done c) = AllSent kcp c
Drained kcp (timed_out c) = Unit
Drained kcp (still c) = Unit
Drained kcp crashed = Unit

module _ {K : Type 0} (test : Client K → Bool) where
  Passes-if :
      (b : Bool) (x y : Wait K)
      → (b ≡ true → Passes test x)
      → Passes test y
      → Passes test (if b then x else y)
  Passes-if true x y h g = h refl
  Passes-if false x y h g = g

  pub wait_loop-Passes :
      (ticks : List (Tick K)) (c : Client K) → Passes test (wait_loop test ticks c)
  unfolding wait_loop
  wait_loop-Passes [] c = Passes-if (test c) (done c) (still c) (λ e. e) tt
  wait_loop-Passes (t ∷ ts) c =
      Passes-if (test c) (done c) _ (λ e. e)
        (Passes-if t.expired _ _ (λ e. tt) (wait_loop-Passes ts (t.others c)))

  pub poll_loop-Passes :
      (ticks : List (Tick K)) (c : Client K) → Passes test (poll_loop test ticks c)
  unfolding poll_loop
  poll_loop-Passes [] c = Passes-if (test c) (done c) (still c) (λ e. e) tt
  poll_loop-Passes (t ∷ ts) c =
      Passes-if (test c) (done c) _ (λ e. e)
        (Passes-if t.expired _ _ (λ e. tt) (poll_loop-Passes ts (t.others c)))

module _ {K : Type 0} (kcp : Kcp K) where
  Drained-held :
      (c : Client K) (m : Option K) (w : Wait K)
      → c.m_kcp ≡ m
      → Drained kcp w
      → Drained kcp (elim m [ none ↦ crashed | some k ↦ if kcp.waitsnd k == 0 then done c else w ])
  Drained-held c none w e h = tt
  Drained-held c (some k) w e h = elim (Bool-cases (kcp.waitsnd k == 0)) [
    | inl empty ↦ rw empty (k, e, ground arith)
    | inr more ↦ rw more h
  ]

  Drained-if :
      (b : Bool) (c : Client K) (w : Wait K)
      → Drained kcp w
      → Drained kcp (if b then timed_out c else w)
  Drained-if true c w h = tt
  Drained-if false c w h = h

  pub waitsnd_loop-Drained :
      (ticks : List (Tick K)) (c : Client K) → Drained kcp (waitsnd_loop kcp ticks c)
  unfolding waitsnd_loop
  waitsnd_loop-Drained [] c = Drained-held c c.m_kcp (still c) refl tt
  waitsnd_loop-Drained (t ∷ ts) c =
      Drained-held c c.m_kcp _ refl
        (Drained-if t.expired (t.others c) _ (waitsnd_loop-Drained ts (t.others c)))

module _ {K : Type 0} (kcp : Kcp K) (inet_addr : String → ℕ) where
  -- The end of `send_file` on the client `c`: either it comes to the same whatever the rounds of
  -- the closing handshake, or each wait was passed in its turn and `finish` follows.
  abbrev pub Guarded : SendRun K → Client K → Type 0
  Guarded run c =
      ((waves : List WaveRound)
        → after_pieces kcp inet_addr (record run { waves = waves }) c
          ≡ after_pieces kcp inet_addr run c)
      ⊎ ((c1 : Client K) × (c2 : Client K) × (c3 : Client K) × (wait_loop (λ x. x.finish_send)
              run.finish_send_ticks c
            ≡ done c1)
          × (c1.finish_send ≡ true)
          × (waitsnd_loop kcp run.waitsnd_ticks c1 ≡ done c2)
          × AllSent kcp c2
          × (poll_loop (λ x. x.finish_loop) run.finish_loop_ticks (record c2 { stop_flag = true })
              ≡ done c3)
          × (c3.finish_loop ≡ true)
          × (after_pieces kcp inet_addr run c ≡ finish inet_addr run.waves c3))

  module _ (run : SendRun K) (c : Client K) where
    guard_loop :
        (c1 c2 : Client K) (w : Wait K)
        → wait_loop (λ x. x.finish_send) run.finish_send_ticks c ≡ done c1
        → c1.finish_send ≡ true
        → waitsnd_loop kcp run.waitsnd_ticks c1 ≡ done c2
        → AllSent kcp c2
        → poll_loop (λ x. x.finish_loop) run.finish_loop_ticks (record c2 { stop_flag = true }) ≡ w
        → Passes (λ x. x.finish_loop) w
        → Guarded run c
    unfolding after_pieces
    guard_loop c1 c2 (done c3) e1 p1 e2 p2 e3 p3 =
        inr (c1, c2, c3, e1, p1, e2, p2, e3, p3, rw (e1, e2, e3, after_pieces) refl)
    guard_loop c1 c2 (timed_out c3) e1 p1 e2 p2 e3 p3 =
        inl (λ waves. rw (e1, e2, e3, after_pieces) refl)
    guard_loop c1 c2 (still c3) e1 p1 e2 p2 e3 p3 =
        inl (λ waves. rw (e1, e2, e3, after_pieces) refl)
    guard_loop c1 c2 crashed e1 p1 e2 p2 e3 p3 = inl (λ waves. rw (e1, e2, e3, after_pieces) refl)

    guard_sent :
        (c1 : Client K) (w : Wait K)
        → wait_loop (λ x. x.finish_send) run.finish_send_ticks c ≡ done c1
        → c1.finish_send ≡ true
        → waitsnd_loop kcp run.waitsnd_ticks c1 ≡ w
        → Drained kcp w
        → Guarded run c
    unfolding after_pieces
    guard_sent c1 (done c2) e1 p1 e2 p2 = guard_loop c1 c2 _ e1 p1 e2 p2 refl (
        poll_loop-Passes (λ x. x.finish_loop) run.finish_loop_ticks
          (record c2 { stop_flag = true }))
    guard_sent c1 (timed_out c2) e1 p1 e2 p2 = inl (λ waves. rw (e1, e2, after_pieces) refl)
    guard_sent c1 (still c2) e1 p1 e2 p2 = inl (λ waves. rw (e1, e2, after_pieces) refl)
    guard_sent c1 crashed e1 p1 e2 p2 = inl (λ waves. rw (e1, e2, after_pieces) refl)

    guard_send :
        (w : Wait K)
        → wait_loop (λ x. x.finish_send) run.finish_send_ticks c ≡ w
        → Passes (λ x. x.finish_send) w
        → Guarded run c
    unfolding after_pieces
    guard_send (done c1) e1 p1 =
        guard_sent c1 _ e1 p1 refl (waitsnd_loop-Drained kcp run.waitsnd_ticks c1)
    guard_send (timed_out c1) e1 p1 = inl (λ waves. rw (e1, after_pieces) refl)
    guard_send (still c1) e1 p1 = inl (λ waves. rw (e1, after_pieces) refl)
    guard_send crashed e1 p1 = inl (λ waves. rw (e1, after_pieces) refl)

  -- Behind the pieces, `send_file` begins the closing handshake only when the server's message that
  -- it has the file was seen, then the client had a control block for which `ikcp_waitsnd` was 0, and
  -- then `finish_loop` was set: where one of the three waits is not passed, or the block is a null
  -- pointer when `ikcp_waitsnd` is called, nothing depends on the handshake's rounds.
  pub after_pieces-Guarded : (run : SendRun K) (c : Client K) → Guarded run c
  after_pieces-Guarded run c =
      guard_send run c _ refl (wait_loop-Passes (λ x. x.finish_send) run.finish_send_ticks c)
