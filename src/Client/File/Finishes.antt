-- ===== src/Client/File/Finishes.antt =====
-- `send_file` beside the other threads, up to the closing handshake (code/kcp/kcp_client.cc).
use kcp_fake_tcp.Base.{
  ℕ, zero, suc, ◌+◌, ◌≡◌, refl, ◌∙◌, subst, String, List, [], ◌∷◌, ◌++◌, true, ltb, take, drop,
  flatten,
}
use kcp_fake_tcp.Kcp.{Kcp}
use kcp_fake_tcp.Client.Outcome.{Outcome, returned, waiting, aborted, Survives, Survives-if, ◌>>=◌}
use kcp_fake_tcp.Client.State.{Client}
use kcp_fake_tcp.Client.Teardown.{WaveRound, finish}
use kcp_fake_tcp.Client.Loop.Steady.{
  HasBlock, Steady, Steady-trans, Steady-self, Steady-block, Steady-stopped,
}
use kcp_fake_tcp.Client.File.{
  wait_loop, poll_loop, waitsnd_loop, piece_len, queue, send_pieces, after_pieces, SendRun,
}
use kcp_fake_tcp.Client.File.Order.{Passes, wait_loop-Passes, poll_loop-Passes}
use kcp_fake_tcp.Client.File.Laws.{Holds, Pieces}
use kcp_fake_tcp.Client.File.Waits.{
  IsDone, Left, TicksRely, wait_loop-Steady, poll_loop-Steady, waitsnd_loop-Steady,
}

module _ {K : Type 0} (kcp : Kcp K) where
  pub queue-Steady :
      (bytes : List ℕ) (a c : Client K)
      → HasBlock a
      → Steady a c
      → Survives (Steady a) (queue kcp bytes c)
  unfolding queue
  queue-Steady bytes a c block h =
      let (k, e) = h.block block in
      rw (e, queue) (Steady-trans h (Steady-block c (kcp.send bytes k)))

  pub then-Steady :
      (a : Client K) (o : Outcome (Client K)) (f : Client K → Outcome (Client K))
      → Survives (Steady a) o
      → ((c : Client K) → Steady a c → Survives (Steady a) (f c))
      → Survives (Steady a) (o >>= f)
  then-Steady a (returned c) f h g = g c h
  then-Steady a (waiting c) f h g = h
  then-Steady a aborted f h g = h

  pub send_pieces-Steady :
      (between : ℕ → Client K → Client K) (content : List ℕ) (size fuel total : ℕ) (a c : Client K)
      → ((n : ℕ) (c : Client K) → Steady c (between n c))
      → HasBlock a
      → Steady a c
      → Survives (Steady a) (send_pieces kcp between content size fuel total c)
  unfolding send_pieces
  send_pieces-Steady between content size zero total a c keeps block h =
      Survives-if (Steady a) (ltb total size) (waiting c) (returned c) h h
  send_pieces-Steady between content size (suc fuel) total a c keeps block h =
      let s = piece_len size total in
      Survives-if (Steady a) (ltb total size) _ (returned c)
        (then-Steady a (queue kcp (take s (drop total content)) (between total c))
          (send_pieces kcp between content size fuel (total + s))
          (queue-Steady _ a (between total c) block (Steady-trans h (keeps total c)))
          (λ c' g. send_pieces-Steady between content size fuel (total + s) a c' keeps block g))
        h

module _ {K : Type 0} (kcp : Kcp K) (sent : K → List (List ℕ))
    (appends : (bytes : List ℕ) (k : K) → sent (kcp.send bytes k) ≡ sent k ++ bytes ∷ [])
    (inet_addr : String → ℕ) where
  -- The messages of a whole file: its header, and pieces that make up its bytes.
  abbrev pub GivenFile : List ℕ → List ℕ → Client K → Type 0
  GivenFile header content c =
      (pieces : List (List ℕ)) × (flatten pieces ≡ content)
      × Pieces pieces
      × Holds kcp sent appends (header ∷ pieces) c

  -- What `send_file` relies on to come to the closing handshake: the other threads keep what is to
  -- be kept and the messages of the block; once the block was given the whole file, the server's
  -- answer is heard in time; behind that, all is acknowledged in time; and once `stopFlag` is set,
  -- the thread that receives ends in time.
  pub record Answers (run : SendRun K) (header content : List ℕ) : Type 0 where
    pub quiet :
        (n : ℕ) (ms : List (List ℕ)) (c : Client K)
        → Holds kcp sent appends ms c
        → Holds kcp sent appends ms (run.between n c)
    pub keeps : (n : ℕ) (c : Client K) → Steady c (run.between n c)
    pub keep_answer : TicksRely run.finish_send_ticks
    pub keep_acks : TicksRely run.waitsnd_ticks
    pub keep_end : TicksRely run.finish_loop_ticks
    pub answered :
        (c : Client K)
        → GivenFile header content c
        → IsDone (wait_loop (λ x. x.finish_send) run.finish_send_ticks c)
    pub acked :
        (c : Client K)
        → HasBlock c
        → c.finish_send ≡ true
        → IsDone (waitsnd_loop kcp run.waitsnd_ticks c)
    pub ended :
        (c : Client K)
        → c.stop_flag ≡ true
        → IsDone (poll_loop (λ x. x.finish_loop) run.finish_loop_ticks c)

  -- Whatever the rounds of the closing handshake, the outcome is that of `finish` on one client:
  -- what is to be kept was kept since `a`, it has heard the server's answer, and its receiving
  -- thread has ended.
  abbrev pub AtFinish : Client K → (List WaveRound → Outcome (Client K)) → Type 0
  AtFinish a o =
      (c : Client K) × ((waves : List WaveRound) → o waves ≡ finish inet_addr waves c)
      × Steady a c
      × (c.finish_send ≡ true)
      × (c.finish_loop ≡ true)

  pub AtFinish-from :
      (a : Client K) (o o' : List WaveRound → Outcome (Client K))
      → ((waves : List WaveRound) → o' waves ≡ o waves)
      → AtFinish a o
      → AtFinish a o'
  AtFinish-from a o o' e h = (h.0, λ waves. e waves ∙ h.1 waves, h.2, h.3, h.4)

  pub after_pieces-AtFinish :
      (run : SendRun K) (header content : List ℕ) (a c : Client K)
      → Answers run header content
      → Steady a c
      → GivenFile header content c
      → AtFinish a (λ waves. after_pieces kcp inet_addr (record run { waves = waves }) c)
  unfolding after_pieces
  after_pieces-AtFinish run header content a c answers h given =
      let (c1, e1) = answers.answered c given in
      let block : HasBlock c = (given.3.block, given.3.has_block) in
      let h1 = subst (Left (Steady c)) e1 (
        wait_loop-Steady (λ x. x.finish_send) run.finish_send_ticks c c answers.keep_answer
          (Steady-self c)) in
      let p1 =
        subst (Passes (λ x. x.finish_send)) e1
          (wait_loop-Passes (λ x. x.finish_send) run.finish_send_ticks c) in
      let (c2, e2) = answers.acked c1 (h1.block block) p1 in
      let h2 = subst (Left (Steady c1)) e2 (
        waitsnd_loop-Steady kcp run.waitsnd_ticks c1 c1 (h1.block block) answers.keep_acks
          (Steady-self c1)) in
      let c2' = record c2 { stop_flag = true } in
      let (c3, e3) = answers.ended c2' refl in
      let h3 = subst (Left (Steady c2')) e3 (
        poll_loop-Steady (λ x. x.finish_loop) run.finish_loop_ticks c2' c2' answers.keep_end
          (Steady-self c2')) in
      let p3 =
        subst (Passes (λ x. x.finish_loop)) e3
          (poll_loop-Passes (λ x. x.finish_loop) run.finish_loop_ticks c2') in
      let h13 = Steady-trans h2 (Steady-trans (Steady-stopped c2) h3) in
      (
        c3,
        λ waves. rw (e1, e2, e3, after_pieces) refl,
        Steady-trans h (Steady-trans h1 h13),
        h13.stays_answered p1,
        p3,
      )
