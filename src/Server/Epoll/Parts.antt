-- ===== src/Server/Epoll/Parts.antt =====
-- The messages of a session over several calls of `read`, as `startEpoll` takes them
-- (code/kcp/server_epoll.cc).
use kcp_fake_tcp.Base.{
  ℕ, ◌<◌, ◌≤◌, ◌≡◌, ◌∙◌, refl, sym, subst, ap, List, [], ◌∷◌, ◌++◌, Bool, true, false, none, some,
  take, take_of_le, length, arith,
}
use kcp_fake_tcp.Kcp.{Kcp, Queues, Fit}
use kcp_fake_tcp.Client.Outcome.{Outcome, returned, waiting, aborted, ◌>>=◌}
use kcp_fake_tcp.Server.Session.{Session}
use kcp_fake_tcp.Server.Receive.{send_finish, on_message, drain}
use kcp_fake_tcp.Server.Receive.Laws.{on_messages}
use kcp_fake_tcp.Server.Receive.Inbox.{Agrees, drain-on_messages}
use kcp_fake_tcp.Server.Epoll.{ReadResult, read_failed, got, read_loop}

-- The bytes of one `read`, what a `send` behind it would take, and the messages that KCP makes of
-- the bytes.
pub record Part : Type 0 where
  pub bytes : List ℕ
  pub taken : ℕ
  pub messages : List (List ℕ)

-- The answers of `read`, up to the one that says that there is nothing more.
abbrev pub reads : List Part → List ReadResult
reads [] = read_failed ∷ []
reads (p ∷ ps) = got p.bytes p.taken ∷ reads ps

abbrev pub all_messages : List Part → List (List ℕ)
all_messages [] = []
all_messages (p ∷ ps) = p.messages ++ all_messages ps

module _ {K : Type 0} (kcp : Kcp K) (pid : ℕ) where
  -- A message, and what follows it.
  abbrev then_message :
      (Session K × ℕ → Outcome (Session K × ℕ)) → Outcome (Session K × ℕ) → Outcome (Session K × ℕ)
  then_message f o = elim o [ aborted ↦ aborted | waiting t ↦ waiting t | returned t ↦ f t ]

  then_message-then :
      (f g h : Session K × ℕ → Outcome (Session K × ℕ)) (o : Outcome (Session K × ℕ))
      → ((t : Session K × ℕ) → f t ≡ (g t >>= h))
      → then_message f o ≡ (then_message g o >>= h)
  then_message-then f g h (returned t) e = e t
  then_message-then f g h (waiting t) e = refl
  then_message-then f g h aborted e = refl

  on_messages-append :
      (ms ns : List (List ℕ)) (t : Session K × ℕ)
      → on_messages kcp pid (ms ++ ns) t ≡ (on_messages kcp pid ms t >>= on_messages kcp pid ns)
  unfolding on_messages
  on_messages-append [] ns (s, cnt) = refl
  on_messages-append (m ∷ ms) ns (s, cnt) =
      elim s.m_kcp
        as (λ b.
          elim b [
            | none ↦ aborted
            | some k ↦
                then_message (on_messages kcp pid (ms ++ ns)) (on_message kcp pid k m (s, cnt))
          ]
          ≡ (elim b [
            | none ↦ aborted
            | some k ↦ then_message (on_messages kcp pid ms) (on_message kcp pid k m (s, cnt))
          ]
              >>= on_messages kcp pid ns)) [
                | none ↦ refl
                | some k ↦
                    then_message-then (on_messages kcp pid (ms ++ ns)) (on_messages kcp pid ms)
                      (on_messages kcp pid ns) (on_message kcp pid k m (s, cnt))
                      (on_messages-append ms ns)
              ]

module _ {K : Type 0} (kcp : Kcp K) (pid fuel : ℕ) where
  -- What follows the loop over `ikcp_recv`.
  abbrev pub after_drain :
      List ReadResult → Outcome (Session K × ℕ) → Outcome ((Session K × ℕ) × Bool)
  after_drain rs o = elim o [
    | aborted ↦ aborted
    | waiting t ↦ waiting (t, false)
    | returned t ↦ read_loop kcp pid fuel rs t
  ]

  -- What follows `ikcp_input`.
  abbrev after_input :
      ℕ → List ReadResult → Session K → ℕ → List ℕ → K × Bool → Outcome ((Session K × ℕ) × Bool)
  after_input taken rs s cnt bytes (k', accepted) = elim accepted [
    | false ↦
        read_loop kcp pid fuel rs
          (record s { m_kcp = some k'; wire = s.wire ++ take taken send_finish ∷ [] }, cnt)
    | true ↦
        after_drain rs (drain kcp pid fuel (length bytes) k' (record s { m_kcp = some k' }, cnt))
  ]

  pub read_loop-accepted :
      (bytes : List ℕ) (taken : ℕ) (rs : List ReadResult) (k k' : K) (s : Session K) (cnt : ℕ)
      → 0 < length bytes
      → length bytes ≤ 2048
      → kcp.input (some bytes) k ≡ (k', true)
      → read_loop kcp pid fuel (got bytes taken ∷ rs) (record s { m_kcp = some k }, cnt)
        ≡ after_drain rs (drain kcp pid fuel (length bytes) k' (record s { m_kcp = some k' }, cnt))
  unfolding read_loop
  read_loop-accepted [] taken rs k k' s cnt some_bytes fits e = absurd (omega (arith, some_bytes))
  read_loop-accepted (b ∷ bs) taken rs k k' s cnt some_bytes fits e =
      ap (λ bytes. after_input taken rs s cnt bytes (kcp.input (some bytes) k))
        (take_of_le 2048 (b ∷ bs) fits)
      ∙ ap (after_input taken rs s cnt (b ∷ bs)) e

module _ {K : Type 0} (kcp : Kcp K) (pid : ℕ) (inbox outbox : K → List (List ℕ))
    (queues : Queues kcp inbox outbox) (fuel : ℕ) where
  -- KCP makes the messages of each part of its bytes, in the state that the session is in by then.
  -- None of them is empty, and none is longer than what that `read` returned.
  abbrev pub Delivers : List Part → Session K × ℕ → Type 0
  Delivers [] t = Unit
  Delivers (p ∷ ps) t =
      (k : K) × (k' : K) × (t.0.m_kcp ≡ some k)
      × (kcp.input (some p.bytes) k ≡ (k', true))
      × (inbox k' ≡ p.messages)
      × (outbox k' ≡ outbox k)
      × (0 < length p.bytes)
      × (length p.bytes ≤ 2048)
      × Fit (length p.bytes) p.messages
      × (length p.messages < fuel)
      × ((t' : Session K × ℕ)
          → drain kcp pid fuel (length p.bytes) k' (record t.0 { m_kcp = some k' }, t.1)
            ≡ returned t'
          → Delivers ps t')

  -- The loop over `read` ends as the messages do that are handled one after the other, but for a
  -- control block that has nothing left to receive and the same messages to send.
  abbrev pub ReadsAgree : Outcome (Session K × ℕ) → Outcome ((Session K × ℕ) × Bool) → Type 0
  ReadsAgree (returned t) o =
      (k' : K) × (k1 : K) × (t.0.m_kcp ≡ some k1)
      × (o ≡ returned ((record t.0 { m_kcp = some k' }, t.1), false))
      × (inbox k' ≡ [])
      × (outbox k' ≡ outbox k1)
  ReadsAgree (waiting t) o = ⊥
  ReadsAgree aborted o = o ≡ aborted

  -- One part, then the others.
  part-Agrees :
      (rs : List ReadResult) (ms : List (List ℕ)) (o1 o : Outcome (Session K × ℕ))
      → Agrees kcp pid inbox outbox queues o1 o
      → ((k k1 : K) (s : Session K) (cnt : ℕ)
          → o ≡ returned (record s { m_kcp = some k }, cnt)
          → inbox k ≡ []
          → outbox k ≡ outbox k1
          → ReadsAgree
              (on_messages kcp pid ms (record s { m_kcp = some k1 }, cnt))
              (read_loop kcp pid fuel rs (record s { m_kcp = some k }, cnt)))
      → ReadsAgree (o1 >>= on_messages kcp pid ms) (after_drain kcp pid fuel rs o)
  part-Agrees rs ms (returned (s, cnt)) o (k, k1, block, result, left, out) ih =
      let same : (record s { m_kcp = some k1 }, cnt) ≡ (s, cnt) =
        ap (λ m. (record s { m_kcp = m }, cnt)) (sym block) in
      subst (λ t. ReadsAgree (on_messages kcp pid ms t) (after_drain kcp pid fuel rs o)) same
        (subst
          (λ x.
            ReadsAgree (on_messages kcp pid ms (record s { m_kcp = some k1 }, cnt))
              (after_drain kcp pid fuel rs x))
          (sym result) (ih k k1 s cnt result left out))
  part-Agrees rs ms (waiting t) o h ih = absurd h
  part-Agrees rs ms aborted o h ih = ap (after_drain kcp pid fuel rs) h

  -- When KCP makes messages of the bytes of each `read`, none of them empty or longer than what
  -- that `read` returned, then the loop over `read`, with more rounds for each loop over `ikcp_recv`
  -- than there are messages, ends as all the messages do that are handled one after the other: in
  -- an `assert` where they do, and otherwise in the same session and count, but for a control block
  -- that has nothing left to receive and the same messages to send.
  pub read_loop-on_messages :
      (ps : List Part) (k k1 : K) (s : Session K) (cnt : ℕ)
      → inbox k ≡ []
      → outbox k ≡ outbox k1
      → Delivers ps (record s { m_kcp = some k }, cnt)
      → ReadsAgree
          (on_messages kcp pid (all_messages ps) (record s { m_kcp = some k1 }, cnt))
          (read_loop kcp pid fuel (reads ps) (record s { m_kcp = some k }, cnt))
  unfolding read_loop on_messages
  read_loop-on_messages [] k k1 s cnt left out d = (k, k1, refl, refl, left, out)
  read_loop-on_messages (p ∷ ps) k k1 s cnt left out
        (j, k', block, input, made, kept, some_bytes, size, fits, enough, rest) =
      let here : kcp.input (some p.bytes) k ≡ (k', true) =
        let same : k ≡ j = cc block in ap (kcp.input (some p.bytes)) same ∙ input in
      let s' = record s { m_kcp = some k' } in
      let out' : outbox k' ≡ outbox k1 =
        let same : k ≡ j = cc block in kept ∙ (ap outbox (sym same) ∙ out) in
      subst
        (λ o.
          ReadsAgree o (read_loop kcp pid fuel (reads (p ∷ ps)) (record s { m_kcp = some k }, cnt)))
        (sym (
          on_messages-append kcp pid p.messages (all_messages ps)
            (record s { m_kcp = some k1 }, cnt)))
        (subst
          (ReadsAgree (
            on_messages kcp pid p.messages (record s { m_kcp = some k1 }, cnt)
            >>= on_messages kcp pid (all_messages ps)))
          (sym (
            read_loop-accepted kcp pid fuel p.bytes p.taken (reads ps) k k' s cnt some_bytes size
              here))
          (part-Agrees (reads ps) (all_messages ps) _
            (drain kcp pid fuel (length p.bytes) k' (s', cnt))
            (drain-on_messages kcp pid inbox outbox queues fuel (length p.bytes) p.messages k' k1 s'
              cnt fits enough made out')
            (λ k2 k3 s2 cnt2 e left2 out2.
              read_loop-on_messages ps k2 k3 s2 cnt2 left2 out2
                (rest (record s2 { m_kcp = some k2 }, cnt2) e))))
