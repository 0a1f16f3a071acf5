-- ===== src/Server/Epoll/Reads.antt =====
-- What the loop over `read` leaves of a session (code/kcp/server_epoll.cc).
use kcp_fake_tcp.Base.{
  ◌⊎◌, ℕ, ◌+◌, ◌≡◌, refl, subst, sym, List, [], ◌∷◌, ◌++◌, Bool, true, false, Bool-cases, inl, inr,
  ltb, leb, none, some, u32, take, length,
}
use kcp_fake_tcp.Kcp.{Kcp}
use kcp_fake_tcp.Client.Outcome.{Outcome, returned, waiting, aborted, Ends, Ends-if}
use kcp_fake_tcp.Server.Session.{Session}
use kcp_fake_tcp.Server.Receive.{
  send_finish, header_size, open_file, write_file, finish_file, more_file, on_message, drain,
}
use kcp_fake_tcp.Server.Receive.Drain.{drain_inv}
use kcp_fake_tcp.Server.Epoll.{ReadResult, read_failed, got, read_loop}

-- The session holds a control block, and its descriptor and `stopFlag` are `fd` and `stop`; if `Q`
-- does not hold, it has its header.
abbrev pub Intact : {K : Type 0} → Type 0 → ℕ → Bool → Session K × ℕ → Type 0
Intact {K} Q fd stop t =
    (k : K) × (t.0.m_kcp ≡ some k)
    × (t.0.fd ≡ fd)
    × (t.0.stop_flag ≡ stop)
    × (Q ⊎ (t.0.read_file ≡ true))

-- The same behind the loop, where the flag is raised if the stream has ended.
abbrev pub Read : {K : Type 0} → Type 0 → ℕ → Bool → (Session K × ℕ) × Bool → Type 0
Read {K} Q fd stop (t, true) = (k : K) × (t.0.m_kcp ≡ some k) × (t.0.fd ≡ fd)
Read Q fd stop (t, false) = Intact Q fd stop t

no_header : {Q : Type 0} (b : Bool) → b ≡ false → Q ⊎ (b ≡ true) → Q
no_header b first (inl q) = q
no_header b first (inr e) = absurd cc

module _ {K : Type 0} (kcp : Kcp K) (pid : ℕ) (Q : Type 0) (fd : ℕ) (stop : Bool) where
  more_file-Intact :
      (k : K) (message : List ℕ) (s : Session K) (cnt : ℕ)
      → Intact Q fd stop (s, cnt)
      → Intact Q fd stop (more_file kcp pid k message s, cnt)
  unfolding more_file write_file finish_file
  more_file-Intact k message s cnt h =
      elim (Bool-cases (leb s.file_size (u32 (s.file_sended + length message)))) [
        | inl full ↦ rw full (kcp.send send_finish k, refl, h.2, h.3, h.4)
        | inr short ↦ rw short h
      ]

  on_message-Intact :
      (k : K) (message : List ℕ) (s : Session K) (cnt : ℕ)
      → s.m_kcp ≡ some k
      → Intact Q fd stop (s, cnt)
      → Ends Q (Intact Q fd stop) (on_message kcp pid k message (s, cnt))
  unfolding on_message open_file
  on_message-Intact k message s cnt e h =
      Ends-if Q (Intact Q fd stop) s.read_file _ _ (λ more. more_file-Intact k message s cnt h)
        (λ first.
          Ends-if Q (Intact Q fd stop) (ltb (length message) header_size) _ _
            (λ short. no_header s.read_file first h.4) (λ whole. (h.0, h.1, h.2, h.3, inr refl)))

  drain-Intact :
      (fuel limit : ℕ) (k : K) (s : Session K) (cnt : ℕ)
      → Intact Q fd stop (s, cnt)
      → Ends Q (Intact Q fd stop) (drain kcp pid fuel limit k (s, cnt))
  drain-Intact fuel limit =
      drain_inv kcp pid Q (Intact Q fd stop) limit (λ s cnt k h. (k, refl, h.2, h.3, h.4))
        on_message-Intact fuel

  -- What follows the messages of one `read`.
  abbrev next_read :
      ℕ → List ReadResult → Outcome (Session K × ℕ) → Outcome ((Session K × ℕ) × Bool)
  next_read fuel rs o = elim o [
    | aborted ↦ aborted
    | waiting t ↦ waiting (t, false)
    | returned t ↦ read_loop kcp pid fuel rs t
  ]

  next_read-Read :
      (fuel : ℕ) (rs : List ReadResult) (o : Outcome (Session K × ℕ))
      → ((t : Session K × ℕ)
          → Intact Q fd stop t
          → Ends Q (Read Q fd stop) (read_loop kcp pid fuel rs t))
      → Ends Q (Intact Q fd stop) o
      → Ends Q (Read Q fd stop) (next_read fuel rs o)
  next_read-Read fuel rs (returned t) ih h = ih t h
  next_read-Read fuel rs (waiting t) ih h = h
  next_read-Read fuel rs aborted ih h = h

  -- What follows `ikcp_input`.
  abbrev after_input :
      ℕ → List ReadResult → List ℕ → ℕ → Session K → ℕ → K × Bool → Outcome ((Session K × ℕ) × Bool)
  after_input fuel rs bytes taken s cnt (k, false) =
      read_loop kcp pid fuel rs
        (record s { m_kcp = some k; wire = s.wire ++ take taken send_finish ∷ [] }, cnt)
  after_input fuel rs bytes taken s cnt (k, true) =
      next_read fuel rs (drain kcp pid fuel (length bytes) k (record s { m_kcp = some k }, cnt))

  after_input-Read :
      (fuel : ℕ) (rs : List ReadResult) (bytes : List ℕ) (taken : ℕ) (s : Session K) (cnt : ℕ)
      (r : K × Bool)
      → ((t : Session K × ℕ)
          → Intact Q fd stop t
          → Ends Q (Read Q fd stop) (read_loop kcp pid fuel rs t))
      → Intact Q fd stop (s, cnt)
      → Ends Q (Read Q fd stop) (after_input fuel rs bytes taken s cnt r)
  after_input-Read fuel rs bytes taken s cnt (k, false) ih h =
      ih (record s { m_kcp = some k; wire = s.wire ++ take taken send_finish ∷ [] }, cnt)
        (k, refl, h.2, h.3, h.4)
  after_input-Read fuel rs bytes taken s cnt (k, true) ih h = next_read-Read fuel rs _ ih (
      drain-Intact fuel (length bytes) k (record s { m_kcp = some k }) cnt (k, refl, h.2, h.3, h.4))

  pub read_loop-Read :
      (fuel : ℕ) (rs : List ReadResult) (t : Session K × ℕ)
      → Intact Q fd stop t
      → Ends Q (Read Q fd stop) (read_loop kcp pid fuel rs t)
  unfolding read_loop
  read_loop-Read fuel [] (s, cnt) h = h
  read_loop-Read fuel (read_failed ∷ rs) (s, cnt) h = h
  read_loop-Read fuel (got [] taken ∷ rs) (s, cnt) h = (h.0, h.1, h.2)
  read_loop-Read fuel (got (b ∷ bs) taken ∷ rs) (s, cnt) h =
      subst
        (λ m. Ends Q (Read Q fd stop) (elim m [
          | none ↦ aborted
          | some k ↦
              after_input fuel rs (take 2048 (b ∷ bs)) taken s cnt
                (kcp.input (some (take 2048 (b ∷ bs))) k)
        ]))
        (sym h.1)
        (after_input-Read fuel rs (take 2048 (b ∷ bs)) taken s cnt
          (kcp.input (some (take 2048 (b ∷ bs))) h.0) (read_loop-Read fuel rs) h)
