-- ===== src/Client/Loop/Laws.antt =====
-- The messages that a client receives (code/kcp/kcp_client.cc).
use kcp_fake_tcp.Base.{
  ℕ, zero, suc, ◌<◌, ◌≡◌, ◌∙◌, ◌↔◌, refl, sym, ap, String, List, [], ◌∷◌, Bool, true, false,
  Bool-cases, inl, inr, ◌==◌, ==_iff, ◌||◌, Option, none, some, length, arith,
}
use kcp_fake_tcp.Kcp.{Kcp, Queues, Fit}
use kcp_fake_tcp.Crypto.Password.{codes}
use kcp_fake_tcp.Client.Outcome.{Outcome, returned}
use kcp_fake_tcp.Client.State.{Client}
use kcp_fake_tcp.Client.Loop.{c_string, same_bytes, is_finish, on_message, recv_messages}

pub or_true : (b : Bool) → (b || true) ≡ true
or_true true = refl
or_true false = refl

or_false : (b : Bool) → (b || false) ≡ b
or_false true = refl
or_false false = refl

or_assoc : (a b c : Bool) → ((a || b) || c) ≡ (a || (b || c))
or_assoc true b c = refl
or_assoc false b c = refl

-- `strcmp` is 0 on equal strings.
same_bytes_iff : (xs ys : List ℕ) → (same_bytes xs ys ≡ true) ↔ (xs ≡ ys)
unfolding same_bytes
same_bytes_iff [] [] = (λ h. refl, λ h. refl)
same_bytes_iff [] (y ∷ ys) = (λ h. absurd (cc h), λ h. absurd (omega (arith, ap length h)))
same_bytes_iff (x ∷ xs) [] = (λ h. absurd (cc h), λ h. absurd (omega (arith, ap length h)))
same_bytes_iff (x ∷ xs) (y ∷ ys) =
    let rest = same_bytes_iff xs ys in
    elim (Bool-cases (x == y)) [
      | inl here ↦
          let head : x ≡ y = (==_iff x y).0 here in
          rw here (
            λ h. let tail : xs ≡ ys = rest.0 h in rw (head, tail) refl,
            λ h. let tail : xs ≡ ys = cc h in rest.1 tail,
          )
      | inr there ↦
          rw there (λ h. absurd (cc h), λ h. let head : x ≡ y = cc h in absurd (ground arith))
    ]

-- One of the messages is "send_finish".
unfoldable pub any_finish : List (List ℕ) → Bool
unfolding is_finish
any_finish [] = false
any_finish (m ∷ ms) = is_finish m || any_finish ms

-- A message is taken for the end of the transfer exactly if the bytes in front of its first 0 are
-- "send_finish".
pub is_finish_iff :
    (message : List ℕ) → (is_finish message ≡ true) ↔ (c_string message ≡ codes "send_finish")
unfolding is_finish
is_finish_iff message = same_bytes_iff (c_string message) (codes "send_finish")

module _ {K : Type 0} (kcp : Kcp K) (inbox outbox : K → List (List ℕ))
    (queues : Queues kcp inbox outbox) (inet_addr : String → ℕ) where
  -- What the loop over `ikcp_recv` leaves behind some messages.
  abbrev pub Got : K → List (List ℕ) → Client K → Outcome (Client K) → Type 0
  Got k ms c o =
      (k' : K) × (o
        ≡ returned (record c { m_kcp = some k'; finish_send = c.finish_send || any_finish ms }))
      × (inbox k' ≡ [])
      × (outbox k' ≡ outbox k)

  -- What follows a call of `ikcp_recv`.
  abbrev after_recv : ℕ → ℕ → Client K → K × Option (List ℕ) → Outcome (Client K)
  after_recv fuel limit c (k, none) = returned (record c { m_kcp = some k })
  after_recv fuel limit c (k, some []) = returned (record c { m_kcp = some k })
  after_recv fuel limit c (k, some (b ∷ bs)) =
      recv_messages kcp inet_addr fuel (some limit) k
        (on_message kcp inet_addr (b ∷ bs) (record c { m_kcp = some k }))

  on_message-flag :
      (m : List ℕ) (c : Client K)
      → on_message kcp inet_addr m c ≡ record c { finish_send = c.finish_send || is_finish m }
  unfolding on_message
  on_message-flag m c = elim (Bool-cases (is_finish m)) [
    | inl here ↦ rw (here, or_true c.finish_send) refl
    | inr there ↦ rw (there, or_false c.finish_send) refl
  ]

  -- When KCP hands the messages that have come in over one by one, and they have at least one byte
  -- and at most as many as the loop asks for, the loop over `ikcp_recv` returns within a round for
  -- each and one more: the block has nothing left to receive and the same to send, `finishSend` is
  -- set if it was or if one of the messages is "send_finish", and nothing else has changed.
  pub recv_messages-Got :
      (fuel limit : ℕ) (ms : List (List ℕ)) (k : K) (c : Client K)
      → Fit limit ms
      → length ms < fuel
      → inbox k ≡ ms
      → Got k ms c (recv_messages kcp inet_addr fuel (some limit) k c)
  unfolding recv_messages any_finish
  recv_messages-Got zero limit ms k c f less e = absurd (omega arith)
  recv_messages-Got (suc fuel) limit [] k c f less e =
      let (k', received, left, sent) = queues.recv_none limit k e in
      (
        k',
        ap (after_recv fuel limit c) received
            ∙ ap (λ b. returned (record c { m_kcp = some k'; finish_send = b }))
                (sym (or_false c.finish_send)),
        left,
        sent,
      )
  recv_messages-Got (suc fuel) limit ([] ∷ ms) k c f less e = absurd (omega (arith, f.0))
  recv_messages-Got (suc fuel) limit ((b ∷ bs) ∷ ms) k c f less e =
      let (k', received, left, sent) = queues.recv_some limit k (b ∷ bs) ms e f.1 in
      let c1 = record c { m_kcp = some k'; finish_send = c.finish_send || is_finish (b ∷ bs) } in
      let (k'', result, none_left, none_sent) =
        recv_messages-Got fuel limit ms k' c1 f.2 (omega arith) left in
      (
        k'',
        ap (after_recv fuel limit c) received
            ∙ ap (recv_messages kcp inet_addr fuel (some limit) k')
                (on_message-flag (b ∷ bs) (record c { m_kcp = some k' }))
            ∙ result
            ∙ ap (λ x. returned (record c { m_kcp = some k''; finish_send = x }))
                (or_assoc c.finish_send (is_finish (b ∷ bs)) (any_finish ms)),
        none_left,
        none_sent ∙ sent,
      )
