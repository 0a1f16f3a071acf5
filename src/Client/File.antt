-- ===== src/Client/File.antt =====
-- `kcp_client_start`, `send_file`, `Close` and the destructor (code/kcp/kcp_client.cc): the thread
-- that sends the file.
pub mod Laws
pub mod Order
pub mod Closes
pub mod Waits
pub mod Finishes
pub mod Whole
pub mod Abandons
use kcp_fake_tcp.Base.{
  ℕ, zero, suc, ◌+◌, ◌-◌, min, String, List, [], ◌∷◌, ◌++◌, Bool, true, false, ◌==◌, ltb,
  if◌then◌else◌, Option, none, some, u32, u32_bytes, ntohl, take, drop, length, replicate, memcpy,
}
use kcp_fake_tcp.Kcp.{Kcp}
use kcp_fake_tcp.Client.Outcome.{Outcome, returned, waiting, aborted, ◌>>=◌}
use kcp_fake_tcp.Client.State.{ConnState, tcp_established, Client}
use kcp_fake_tcp.Client.Teardown.{WaveRound, finish}
use kcp_fake_tcp.Crypto.Password.{codes}

-- One sleep of a loop that waits: what the other threads do meanwhile, and whether the deadline
-- has passed when the clock is read.
pub record Tick (K : Type 0) : Type 0 where
  pub others : Client K → Client K
  pub expired : Bool

-- What a loop that waits comes to; it crashes where it reads through a null pointer.
pub data Wait (K : Type 0) : Type 0 where
  done timed_out still : Client K → Wait K
  crashed : Wait K

module _ {K : Type 0} (test : Client K → Bool) where
  -- `while (!test) { isleep(1); if (now >= end) ...; }`
  unfoldable pub wait_loop : List (Tick K) → Client K → Wait K
  wait_loop [] c = if test c then done c else still c
  wait_loop (t ∷ ts) c =
      let c' = t.others c in
      let rest = wait_loop ts c' in
      if test c then done c else if t.expired then timed_out c' else rest

  -- `while (true) { if (test) break; if (now >= end) ...; isleep(1); }`
  unfoldable pub poll_loop : List (Tick K) → Client K → Wait K
  poll_loop [] c = if test c then done c else still c
  poll_loop (t ∷ ts) c =
      let rest = poll_loop ts (t.others c) in
      if test c then done c else if t.expired then timed_out c else rest

-- `ikcp_release` frees the block.
unfoldable pub release : {K : Type 0} → Wait K → Outcome (Client K)
release (done c) = returned (record c { m_kcp = none })
release (timed_out c) = returned c
release (still c) = waiting c
release crashed = aborted

-- `Close`.
unfoldable pub close : {K : Type 0} → List (Tick K) → Client K → Outcome (Client K)
unfolding poll_loop release
close ticks c = elim c.m_kcp [
  | none ↦ returned c
  | some k ↦ release (poll_loop (λ x. x.finish_loop) ticks (record c { stop_flag = true }))
]

-- The destructor: `Close`, and then the descriptor, which is the second component.
unfoldable pub destroy_client : {K : Type 0} → List (Tick K) → Client K → Outcome (Client K × ℕ)
unfolding close
destroy_client ticks c = elim (close ticks c) [
  | aborted ↦ aborted
  | waiting c' ↦ waiting (c', c'.fd)
  | returned c' ↦ returned (c', c'.fd)
]

-- `file_path.substr(file_path.find_last_of("/") + 1)`, where `found` is the part behind the last
-- slash that was passed.
unfoldable pub base_name : List ℕ → List ℕ → List ℕ
base_name found [] = found
base_name found (b ∷ bs) =
    let here = base_name bs bs in let later = base_name found bs in if b == 47 then here else later

-- `temp`: 8 + 128 zeros, and over them the size in network order and the name.
unfoldable pub file_header : List ℕ → ℕ → List ℕ
file_header name size = memcpy (replicate 136 0) (u32_bytes (ntohl size) ++ name)

-- `std::min(file_size - totalBytesRead, (size_t)BUFFER_SIZE)`.
abbrev pub piece_len : ℕ → ℕ → ℕ
piece_len size total = min (size - total) 1024

-- What the outside does while a file is sent: the bytes of the file if it can be opened, the acts
-- of the other threads before the piece at an offset is sent, the sleeps of the loops that wait,
-- and the rounds of the closing handshake.
pub record SendRun (K : Type 0) : Type 0 where
  pub content : Option (List ℕ)
  pub between : ℕ → Client K → Client K
  pub finish_send_ticks : List (Tick K)
  pub waitsnd_ticks : List (Tick K)
  pub finish_loop_ticks : List (Tick K)
  pub close_ticks : List (Tick K)
  pub waves : List WaveRound

module _ {K : Type 0} (kcp : Kcp K) where
  -- Windows of 256, mode 1; the two threads are started.
  unfoldable pub kcp_client_start : Client K → Outcome (Client K)
  kcp_client_start c = elim c.m_kcp [
    | none ↦ aborted
    | some k ↦ returned (record c {
      m_kcp = some (kcp.nodelay 1 10 2 1 (kcp.wndsize 256 256 k));
      stop_flag = false;
    })
  ]

  -- `ikcp_send` under the mutex.
  unfoldable pub queue : List ℕ → Client K → Outcome (Client K)
  queue bytes c = elim c.m_kcp [
    | none ↦ aborted
    | some k ↦ returned (record c { m_kcp = some (kcp.send bytes k) })
  ]

  -- The loop over the file; `fuel` is at least the number of its rounds.
  unfoldable pub send_pieces :
      (ℕ → Client K → Client K) → List ℕ → ℕ → ℕ → ℕ → Client K → Outcome (Client K)
  unfolding queue
  send_pieces between content size zero total c = if ltb total size then waiting c else returned c
  send_pieces between content size (suc fuel) total c =
      let s = piece_len size total in
      let rest =
        queue (take s (drop total content)) (between total c)
        >>= send_pieces between content size fuel (total + s) in
      if ltb total size then rest else returned c

  -- `while (true) { temp = ikcp_waitsnd(m_kcp); if (!temp) break; isleep(1); if (now >= end) return; }`,
  -- where `ikcp_waitsnd` reads through the pointer.
  unfoldable pub waitsnd_loop : List (Tick K) → Client K → Wait K
  waitsnd_loop [] c = elim c.m_kcp [
    | none ↦ crashed
    | some k ↦ if kcp.waitsnd k == 0 then done c else still c
  ]
  waitsnd_loop (t ∷ ts) c =
      let c' = t.others c in
      let rest = waitsnd_loop ts c' in
      elim c.m_kcp [
        | none ↦ crashed
        | some k ↦ if kcp.waitsnd k == 0 then done c else if t.expired then timed_out c' else rest
      ]

  -- Behind the pieces: the loops that wait for the server's message, for the acknowledgements and
  -- for the other thread, then the closing handshake.
  unfoldable pub after_pieces : (String → ℕ) → SendRun K → Client K → Outcome (Client K)
  unfolding wait_loop poll_loop close waitsnd_loop
  after_pieces inet_addr run c = elim (wait_loop (λ x. x.finish_send) run.finish_send_ticks c) [
    | crashed ↦ aborted
    | still c1 ↦ waiting c1
    | timed_out c1 ↦ close run.close_ticks c1
    | done c1 ↦ elim (waitsnd_loop run.waitsnd_ticks c1) [
      | crashed ↦ aborted
      | still c2 ↦ waiting c2
      | timed_out c2 ↦ returned c2
      | done c2 ↦
          elim (poll_loop (λ x. x.finish_loop) run.finish_loop_ticks
            (record c2 { stop_flag = true })) [
              | crashed ↦ aborted
              | still c3 ↦ waiting c3
              | timed_out c3 ↦ returned c3
              | done c3 ↦ finish inet_addr run.waves c3
            ]
    ]
  ]

  -- `send_file` from where the file is opened. A name that runs past the end of `temp` is
  -- undefined behaviour, which counts as an abort here.
  unfoldable pub send_opened : (String → ℕ) → SendRun K → Client K → Outcome (Client K)
  unfolding close base_name file_header queue send_pieces after_pieces
  send_opened inet_addr run c = elim run.content [
    | none ↦ close run.close_ticks c
    | some content ↦
        let name = base_name (codes c.file_path) (codes c.file_path) in
        let size = u32 (length content) in
        if ltb 132 (length name)
        then aborted
        else queue (file_header name size) c
          >>= send_pieces run.between content size size 0
          >>= after_pieces inet_addr run
  ]

  unfoldable pub send_file : (String → ℕ) → SendRun K → Client K → Outcome (Client K)
  unfolding kcp_client_start send_opened
  send_file inet_addr run c = elim c.s_state [
    | tcp_established ↦ kcp_client_start c >>= send_opened inet_addr run
    | _ ↦ aborted
  ]
