-- ===== src/Server/Epoll/Short.antt =====
-- A first message that is shorter than the header of a file, in `startEpoll`
-- (code/kcp/server_epoll.cc).
use kcp_fake_tcp.Base.{
  ℕ, suc, ◌<◌, ◌≤◌, ◌≡◌, ◌∙◌, refl, sym, ap, List, [], ◌∷◌, true, false, ltb, some, length, arith,
}
use kcp_fake_tcp.Kcp.{Kcp}
use kcp_fake_tcp.Client.Outcome.{aborted}
use kcp_fake_tcp.Server.Session.{Session}
use kcp_fake_tcp.Server.Receive.{header_size, on_message, drain}
use kcp_fake_tcp.Server.Receive.Drain.{resume, after_recv}
use kcp_fake_tcp.Server.Epoll.{ServerEpoll, ReadResult, got, entry, read_loop, on_client}
use kcp_fake_tcp.Server.Epoll.Parts.{after_drain, read_loop-accepted}

module _ {K : Type 0} (kcp : Kcp K) where
  on_message-short :
      (pid : ℕ) (k : K) (m : List ℕ) (s : Session K) (cnt : ℕ)
      → s.read_file ≡ false
      → length m < 136
      → on_message kcp pid k m (s, cnt) ≡ aborted
  unfolding on_message
  on_message-short pid k m s cnt first short =
      let t : ltb (length m) header_size ≡ true = ground arith in rw (first, t) refl

  drain-short :
      (pid fuel limit : ℕ) (k k' : K) (m : List ℕ) (s : Session K) (cnt : ℕ)
      → kcp.recv (some limit) k ≡ (k', some m)
      → s.read_file ≡ false
      → 0 < length m
      → length m < 136
      → drain kcp pid (suc fuel) limit k (s, cnt) ≡ aborted
  unfolding drain
  drain-short pid fuel limit k k' [] s cnt r first some_bytes short =
      absurd (omega (arith, some_bytes))
  drain-short pid fuel limit k k' (b ∷ bs) s cnt r first some_bytes short =
      ap (after_recv kcp pid fuel limit s cnt) r
      ∙ ap (resume kcp pid fuel limit k')
          (on_message-short pid k' (b ∷ bs) (record s { m_kcp = some k' }) cnt first short)

  -- A connection whose session has not its header yet: when what is read brings, as the first
  -- message that KCP hands over, one of fewer than 136 bytes, an `assert` ends the process of the
  -- server, whatever the sessions of the others are and whatever else could be read.
  pub on_client-aborts :
      (fuel fd : ℕ) (bytes : List ℕ) (taken : ℕ) (rs : List ReadResult) (e : ServerEpoll K)
      (s : Session K) (k k1 k2 : K) (m : List ℕ)
      → entry fd e.clients ≡ some s
      → s.read_file ≡ false
      → s.m_kcp ≡ some k
      → 0 < length bytes
      → length bytes ≤ 2048
      → kcp.input (some bytes) k ≡ (k1, true)
      → kcp.recv (some (length bytes)) k1 ≡ (k2, some m)
      → 0 < length m
      → length m < 136
      → on_client kcp (suc fuel) fd false true (got bytes taken ∷ rs) e ≡ aborted
  unfolding on_client
  on_client-aborts fuel fd bytes taken rs e s k k1 k2 m found first block some_bytes size input recv
        some_message short =
      let held : (record s { m_kcp = some k }, e.file_count) ≡ (s, e.file_count) =
        ap (λ b. (record s { m_kcp = b }, e.file_count)) (sym block) in
      let ends : read_loop kcp e.m_pid (suc fuel) (got bytes taken ∷ rs) (s, e.file_count)
          ≡ aborted =
        ap (read_loop kcp e.m_pid (suc fuel) (got bytes taken ∷ rs)) (sym held)
        ∙ read_loop-accepted kcp e.m_pid (suc fuel) bytes taken rs k k1 s e.file_count some_bytes
            size input
        ∙ ap (after_drain kcp e.m_pid (suc fuel) rs) (
            drain-short e.m_pid fuel (length bytes) k1 k2 m (record s { m_kcp = some k1 })
              e.file_count recv first some_message short) in
      rw (found, on_client) (rw ends refl)
