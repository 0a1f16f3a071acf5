-- ===== src/Server/Receive/Inbox.antt =====
-- The loop over `ikcp_recv` in `startEpoll` against the messages handled one after the other
-- (code/kcp/server_epoll.cc).
use kcp_fake_tcp.Base.{
  ℕ, zero, suc, ◌+◌, ◌<◌, ◌≡◌, ◌⊎◌, ◌∙◌, refl, sym, subst, List, [], ◌∷◌, ◌++◌, true, false,
  Bool-cases, inl, inr, ap, ltb, leb, some, u32, length, arith,
}
use kcp_fake_tcp.Kcp.{Kcp, Queues, Fit}
use kcp_fake_tcp.Client.Outcome.{Outcome, returned, waiting, aborted}
use kcp_fake_tcp.Server.Session.{Session}
use kcp_fake_tcp.Server.Receive.{
  send_finish, header_size, open_file, write_file, finish_file, more_file, on_message, drain,
}
use kcp_fake_tcp.Server.Receive.Laws.{on_messages}
use kcp_fake_tcp.Server.Receive.Drain.{resume, after_recv}

module _ {K : Type 0} (kcp : Kcp K) (pid : ℕ) (inbox outbox : K → List (List ℕ))
    (queues : Queues kcp inbox outbox) where
  -- The outcome of the loop is that of the messages, but for the control block, which has nothing
  -- left to receive and the same to send.
  abbrev pub Agrees : Outcome (Session K × ℕ) → Outcome (Session K × ℕ) → Type 0
  Agrees (returned t) o =
      (k' : K) × (k1 : K) × (t.0.m_kcp ≡ some k1)
      × (o ≡ returned (record t.0 { m_kcp = some k' }, t.1))
      × (inbox k' ≡ [])
      × (outbox k' ≡ outbox k1)
  Agrees (waiting t) o = ⊥
  Agrees aborted o = o ≡ aborted

  -- What one message makes of two blocks that are to send the same.
  abbrev Alike : K → Outcome (Session K × ℕ) → Outcome (Session K × ℕ) → Type 0
  Alike k o1 o =
      ((r : Session K) × (c : ℕ) × (j : K) × (j1 : K) × (o1
          ≡ returned (record r { m_kcp = some j1 }, c))
        × (o ≡ returned (record r { m_kcp = some j }, c))
        × (inbox j ≡ inbox k)
        × (outbox j ≡ outbox j1))
      ⊎ ((o1 ≡ aborted) × (o ≡ aborted))

  on_message-Alike :
      (k k1 : K) (m : List ℕ) (s : Session K) (cnt : ℕ)
      → outbox k ≡ outbox k1
      → Alike k
          (on_message kcp pid k1 m (record s { m_kcp = some k1 }, cnt))
          (on_message kcp pid k m (record s { m_kcp = some k }, cnt))
  unfolding on_message more_file write_file finish_file open_file
  on_message-Alike k k1 m s cnt e = elim (Bool-cases s.read_file) [
    | inl more ↦ elim (Bool-cases (leb s.file_size (u32 (s.file_sended + length m)))) [
      | inl full ↦
          rw (more, full)
            (inl (
              record (write_file kcp pid m s) { read_file = true; file_open = false },
              cnt,
              kcp.send send_finish k,
              kcp.send send_finish k1,
              refl,
              refl,
              queues.send_in send_finish k,
              queues.send_out send_finish k
                  ∙ (ap (λ b. b ++ send_finish ∷ []) e ∙ sym (queues.send_out send_finish k1)),
            ))
      | inr short ↦
          rw (more, short)
            (inl (
              record (write_file kcp pid m s) { read_file = true },
              cnt,
              k,
              k1,
              refl,
              refl,
              refl,
              e,
            ))
    ]
    | inr first ↦ elim (Bool-cases (ltb (length m) header_size)) [
      | inl short ↦ rw (first, short) (inr (refl, refl))
      | inr whole ↦
          rw (first, whole) (inl (open_file kcp pid cnt m s, cnt + 1, k, k1, refl, refl, refl, e))
    ]
  ]

  -- The loop from a state on.
  abbrev AgreesFrom : ℕ → ℕ → List (List ℕ) → Type 0
  AgreesFrom fuel limit ms =
      (k k1 : K) (s : Session K) (cnt : ℕ)
      → inbox k ≡ ms
      → outbox k ≡ outbox k1
      → Agrees (on_messages kcp pid ms (record s { m_kcp = some k1 }, cnt))
          (drain kcp pid fuel limit k (s, cnt))

  -- What follows a message.
  abbrev next_message : List (List ℕ) → Outcome (Session K × ℕ) → Outcome (Session K × ℕ)
  next_message ms o = elim o [
    | aborted ↦ aborted
    | waiting t ↦ waiting t
    | returned t ↦ on_messages kcp pid ms t
  ]

  resume-Agrees :
      (fuel limit : ℕ) (ms : List (List ℕ)) (k : K) (o1 o : Outcome (Session K × ℕ))
      → AgreesFrom fuel limit ms
      → inbox k ≡ ms
      → Alike k o1 o
      → Agrees (next_message ms o1) (resume kcp pid fuel limit k o)
  resume-Agrees fuel limit ms k o1 o ih e (inl (r, c, j, j1, e1, e2, i, out)) =
      subst (λ x. Agrees (next_message ms x) (resume kcp pid fuel limit k o)) (sym e1)
        (subst
          (λ x.
            Agrees (on_messages kcp pid ms (record r { m_kcp = some j1 }, c))
              (resume kcp pid fuel limit k x))
          (sym e2) (ih j j1 (record r { m_kcp = some j }) c (i ∙ e) out))
  resume-Agrees fuel limit ms k o1 o ih e (inr (e1, e2)) =
      subst (λ x. Agrees (next_message ms x) (resume kcp pid fuel limit k o)) (sym e1)
        (ap (resume kcp pid fuel limit k) e2)

  recv-Agrees :
      (fuel limit : ℕ) (m : List ℕ) (ms : List (List ℕ)) (k k1 : K) (s : Session K) (cnt : ℕ)
      → AgreesFrom fuel limit ms
      → 0 < length m
      → inbox k ≡ ms
      → outbox k ≡ outbox k1
      → Agrees
          (on_messages kcp pid (m ∷ ms) (record s { m_kcp = some k1 }, cnt))
          (after_recv kcp pid fuel limit s cnt (k, some m))
  unfolding on_messages
  recv-Agrees fuel limit [] ms k k1 s cnt ih some_bytes e out = absurd (omega (arith, some_bytes))
  recv-Agrees fuel limit (b ∷ bs) ms k k1 s cnt ih some_bytes e out =
      resume-Agrees fuel limit ms k _ _ ih e (on_message-Alike k k1 (b ∷ bs) s cnt out)

  -- When KCP hands the messages that have come in over one by one, and they have at least one byte
  -- and at most as many as the loop asks for, the loop over `ikcp_recv`, with a round for each and
  -- one more, ends as the messages do that are handled one after the other: in an `assert` where
  -- they do, and otherwise in the same session and count, but for a control block that has nothing
  -- left to receive and the same messages to send.
  pub drain-on_messages :
      (fuel limit : ℕ) (ms : List (List ℕ)) (k k1 : K) (s : Session K) (cnt : ℕ)
      → Fit limit ms
      → length ms < fuel
      → inbox k ≡ ms
      → outbox k ≡ outbox k1
      → Agrees
          (on_messages kcp pid ms (record s { m_kcp = some k1 }, cnt))
          (drain kcp pid fuel limit k (s, cnt))
  unfolding drain on_messages
  drain-on_messages zero limit ms k k1 s cnt f less e out = absurd (omega arith)
  drain-on_messages (suc fuel) limit [] k k1 s cnt f less e out =
      let (k', received, left, sent) = queues.recv_none limit k e in
      (k', k1, refl, ap (after_recv kcp pid fuel limit s cnt) received, left, sent ∙ out)
  drain-on_messages (suc fuel) limit (m ∷ ms) k k1 s cnt f less e out =
      let (k', received, left, sent) = queues.recv_some limit k m ms e f.1 in
      subst
        (λ r.
          Agrees (on_messages kcp pid (m ∷ ms) (record s { m_kcp = some k1 }, cnt))
            (after_recv kcp pid fuel limit s cnt r))
        (sym received)
        (recv-Agrees fuel limit m ms k' k1 s cnt
          (λ k k1 s cnt. drain-on_messages fuel limit ms k k1 s cnt f.2 (omega arith)) f.0 left
          (sent ∙ out))
