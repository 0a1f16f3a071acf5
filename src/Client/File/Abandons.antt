-- ===== src/Client/File/Abandons.antt =====
-- `send_file` where it gives up before the closing handshake (code/kcp/kcp_client.cc).
use kcp_fake_tcp.Base.{
  ℕ, ◌≤◌, ◌≡◌, refl, sym, ap, subst, String, List, [], ◌++◌, true, false, ltb, if◌then◌else◌,
  Option, none, some, u32, length, arith,
}
use kcp_fake_tcp.Kcp.{Kcp}
use kcp_fake_tcp.Client.Outcome.{Outcome, returned, waiting, aborted, Survives, Survives-if, ◌>>=◌}
use kcp_fake_tcp.Client.State.{tcp_established, Client}
use kcp_fake_tcp.Client.Teardown.{is_closing, finish}
use kcp_fake_tcp.Client.Loop.Steady.{HasBlock, Steady, Steady-trans, Steady-self, Steady-stopped}
use kcp_fake_tcp.Client.File.{
  Tick, Wait, done, timed_out, still, crashed, poll_loop, waitsnd_loop, release, close, file_header,
  queue, send_pieces, after_pieces, SendRun, kcp_client_start, send_opened, send_file,
}
use kcp_fake_tcp.Client.File.Finishes.{queue-Steady, then-Steady, send_pieces-Steady}
use kcp_fake_tcp.Client.File.Waits.{
  Left, TicksRely, wait_loop-Steady, poll_loop-Steady, waitsnd_loop-Steady,
}
use kcp_fake_tcp.Client.File.Whole.{started, name_of}

-- The connection stands where it stood, and datagrams were only sent behind those sent before.
abbrev pub Stands : {K : Type 0} → Client K → Client K → Type 0
Stands a c =
    (c.s_state ≡ a.s_state) × (c.seq ≡ a.seq) × ((more : List (List ℕ)) × (c.wire ≡ a.wire ++ more))

-- The other threads keep what is to be kept in all the loops that wait.
abbrev pub RunRelies : {K : Type 0} → SendRun K → Type 0
RunRelies {K} run =
    ((n : ℕ) (c : Client K) → Steady c (run.between n c))
    × TicksRely run.finish_send_ticks
    × TicksRely run.waitsnd_ticks
    × TicksRely run.finish_loop_ticks
    × TicksRely run.close_ticks

module _ {K : Type 0} where
  Steady-Stands : {a c : Client K} → Steady a c → Stands a c
  Steady-Stands h = (h.s_state, h.seq, h.grows)

  release-Stands : (a : Client K) (w : Wait K) → Left (Steady a) w → Survives (Stands a) (release w)
  unfolding release
  release-Stands a (done c) h = Steady-Stands h
  release-Stands a (timed_out c) h = Steady-Stands h
  release-Stands a (still c) h = Steady-Stands h
  release-Stands a crashed h = h

  close-Stands :
      (ticks : List (Tick K)) (a c : Client K)
      → TicksRely ticks
      → Steady a c
      → Survives (Stands a) (close ticks c)
  unfolding close
  close-Stands ticks a c r h = held c.m_kcp
    where
      held :
          (m : Option K)
          → Survives (Stands a) (elim m [
            | none ↦ returned c
            | some k ↦
                release (poll_loop (λ x. x.finish_loop) ticks (record c { stop_flag = true }))
          ])
      held none = Steady-Stands h
      held (some k) = release-Stands a _ (
          poll_loop-Steady (λ x. x.finish_loop) ticks a (record c { stop_flag = true }) r
            (Steady-trans h (Steady-stopped c)))

  finish-Stands :
      (inet_addr : String → ℕ) (a c : Client K)
      → Steady a c
      → Survives (Stands a) (finish inet_addr [] c)
  unfolding finish
  finish-Stands inet_addr a c h =
      Survives-if (Stands a) (is_closing c.s_state) (returned c) (waiting c) (Steady-Stands h)
        (Steady-Stands h)

module _ {K : Type 0} (kcp : Kcp K) (inet_addr : String → ℕ) (run : SendRun K)
    (relies : RunRelies run) (a : Client K) (block : HasBlock a) where
  ended-Stands :
      (w : Wait K)
      → Left (Steady a) w
      → Survives (Stands a) (elim w [
        | crashed ↦ aborted
        | still c3 ↦ waiting c3
        | timed_out c3 ↦ returned c3
        | done c3 ↦ finish inet_addr [] c3
      ])
  ended-Stands (done c) h = finish-Stands inet_addr a c h
  ended-Stands (timed_out c) h = Steady-Stands h
  ended-Stands (still c) h = Steady-Stands h
  ended-Stands crashed h = h

  acked-Stands :
      (w : Wait K)
      → Left (Steady a) w
      → Survives (Stands a) (elim w [
        | crashed ↦ aborted
        | still c2 ↦ waiting c2
        | timed_out c2 ↦ returned c2
        | done c2 ↦
            elim (poll_loop
              (λ x. x.finish_loop)
              run.finish_loop_ticks
              (record c2 { stop_flag = true })) [
                | crashed ↦ aborted
                | still c3 ↦ waiting c3
                | timed_out c3 ↦ returned c3
                | done c3 ↦ finish inet_addr [] c3
              ]
      ])
  acked-Stands (done c) h = ended-Stands _ (
      poll_loop-Steady (λ x. x.finish_loop) run.finish_loop_ticks a (record c { stop_flag = true })
        relies.3 (Steady-trans h (Steady-stopped c)))
  acked-Stands (timed_out c) h = Steady-Stands h
  acked-Stands (still c) h = Steady-Stands h
  acked-Stands crashed h = h

  answered-Stands :
      (w : Wait K)
      → Left (Steady a) w
      → Survives (Stands a) (elim w [
        | crashed ↦ aborted
        | still c1 ↦ waiting c1
        | timed_out c1 ↦ close run.close_ticks c1
        | done c1 ↦ elim (waitsnd_loop kcp run.waitsnd_ticks c1) [
          | crashed ↦ aborted
          | still c2 ↦ waiting c2
          | timed_out c2 ↦ returned c2
          | done c2 ↦
              elim (poll_loop
                (λ x. x.finish_loop)
                run.finish_loop_ticks
                (record c2 { stop_flag = true })) [
                  | crashed ↦ aborted
                  | still c3 ↦ waiting c3
                  | timed_out c3 ↦ returned c3
                  | done c3 ↦ finish inet_addr [] c3
                ]
        ]
      ])
  answered-Stands (done c) h =
      acked-Stands _ (waitsnd_loop-Steady kcp run.waitsnd_ticks a c block relies.2 h)
  answered-Stands (timed_out c) h = close-Stands run.close_ticks a c relies.4 h
  answered-Stands (still c) h = Steady-Stands h
  answered-Stands crashed h = h

  after_pieces-Stands :
      (c : Client K)
      → Steady a c
      → Survives (Stands a) (after_pieces kcp inet_addr (record run { waves = [] }) c)
  unfolding after_pieces
  after_pieces-Stands c h =
      answered-Stands _ (wait_loop-Steady (λ x. x.finish_send) run.finish_send_ticks a c relies.1 h)

  then-Stands :
      (o : Outcome (Client K)) (f : Client K → Outcome (Client K))
      → Survives (Steady a) o
      → ((c : Client K) → Steady a c → Survives (Stands a) (f c))
      → Survives (Stands a) (o >>= f)
  then-Stands (returned c) f h g = g c h
  then-Stands (waiting c) f h g = Steady-Stands h
  then-Stands aborted f h g = h

  opened-Stands :
      (c : Client K)
      → Steady a c
      → length (name_of c) ≤ 132
      → Survives (Stands a) (send_opened kcp inet_addr (record run { waves = [] }) c)
  unfolding send_opened
  opened-Stands c h short = given run.content
    where
      long : ltb 132 (length (name_of c)) ≡ false
      long = ground arith

      given :
          (m : Option (List ℕ))
          → Survives (Stands a) (elim m [
            | none ↦ close run.close_ticks c
            | some content ↦
                if ltb 132 (length (name_of c))
                then aborted
                else queue kcp (file_header (name_of c) (u32 (length content))) c
                  >>= send_pieces kcp run.between content
                      (u32 (length content))
                      (u32 (length content))
                      0
                  >>= after_pieces kcp inet_addr (record run { waves = [] })
          ])
      given none = close-Stands run.close_ticks a c relies.4 h
      given (some content) =
          let size = u32 (length content) in
          let queued = queue kcp (file_header (name_of c) size) c in
          rw long (
            then-Stands (queued >>= send_pieces kcp run.between content size size 0)
              (after_pieces kcp inet_addr (record run { waves = [] }))
              (then-Steady kcp a queued (send_pieces kcp run.between content size size 0)
                (queue-Steady kcp (file_header (name_of c) size) a c block h)
                (λ c1 g.
                  send_pieces-Steady kcp run.between content size size 0 a c1 relies.0 block g))
              after_pieces-Stands)

-- `send_file` of an established client with a control block and a name of at most 132 bytes, beside
-- threads that keep what is to be kept, up to the closing handshake, for which there are no rounds:
-- whatever the file is, whether it can be opened or not, and whichever of the waits comes to its
-- deadline, no `assert` and no null pointer ends the process; the connection is established still,
-- with the number it counts from, and what was sent before is in front of what was sent since.
pub send_file-Stands :
    {K : Type 0} (kcp : Kcp K) (inet_addr : String → ℕ) (run : SendRun K) (c : Client K) (k : K)
    → RunRelies run
    → c.s_state ≡ tcp_established
    → c.m_kcp ≡ some k
    → length (name_of c) ≤ 132
    → Survives (Stands c) (send_file kcp inet_addr (record run { waves = [] }) c)
unfolding send_file kcp_client_start
send_file-Stands kcp inet_addr run c k relies e block short =
    let rest = send_opened kcp inet_addr (record run { waves = [] }) in
    let k' = kcp.nodelay 1 10 2 1 (kcp.wndsize 256 256 k) in
    let begun =
      ap (λ m. elim m [ none ↦ aborted | some k ↦ returned (started kcp k c) ] >>= rest) block in
    subst
      (λ s.
        Survives (Stands c)
          (elim s [ tcp_established ↦ kcp_client_start kcp c >>= rest | _ ↦ aborted ]))
      (sym e)
      (subst (Survives (Stands c)) (sym begun) (
        opened-Stands kcp inet_addr run relies (started kcp k c) (k', refl) (started kcp k c)
          (Steady-self (started kcp k c)) short))
