-- ===== src/Server/Output/Laws.antt =====
-- What the server's output callback hands to the kernel (code/kcp/kcp_server.cc).
use mathlib.Core.List.{append_assoc, append-nil}
use kcp_fake_tcp.Base.{
  ℕ, suc, ◌+◌, ◌-◌, ◌*◌, ◌≤◌, ◌<◌, ◌≡◌, inl, inr, refl, sym, ap, ◌∙◌, List, [], ◌∷◌, ◌++◌, true,
  false, ltb, Bool-cases, ltb→lt, lt→ltb, ltb_false→le, Option, some, take, drop, length,
  length-take, take_of_le, slice, slice-append, flatten, arith,
}
use kcp_fake_tcp.Client.Outcome.{Outcome, returned}
use kcp_fake_tcp.Client.Output.{chunk_len}
use kcp_fake_tcp.Server.Session.{Session}
use kcp_fake_tcp.Server.Output.{SendResult, error, took, offered, server_loop, tcp_server_send_cb}

-- Every `send` takes at least as many bytes as a chunk has.
abbrev pub TakesAll : List SendResult → Type 0
TakesAll [] = Unit
TakesAll (error ∷ rs) = ⊥
TakesAll (took n ∷ rs) = (1448 ≤ n) × TakesAll rs

ltb_self : (n : ℕ) → ltb n n ≡ false
ltb_self n = ground arith

chunk_bounds :
    (len a : ℕ)
    → a < len
    → (0 < chunk_len len a) × (a + chunk_len len a ≤ len) × (chunk_len len a ≤ 1448)
chunk_bounds len a h = (ground arith, ground arith, ground arith)

module _ {K : Type 0} (buffer : List ℕ) (len : ℕ) where
  -- An outcome of the loop at `a`: all bytes up to `len` are counted, and the texts that the
  -- kernel has taken since are those bytes.
  pub record Sent (a : ℕ) (s : Session K) (o : Outcome (Session K × Option ℕ)) : Type 0 where
    pub session : Session K
    pub texts : List (List ℕ)
    pub result : o ≡ returned (session, some len)
    pub wires : session.wire ≡ s.wire ++ texts
    pub contents : flatten texts ≡ slice a len buffer

  Sent-nothing : (a : ℕ) (s : Session K) → a ≡ len → Sent a s (returned (s, some a))
  Sent-nothing a s e = record {
    session = s;
    texts = [];
    result = ap (λ (n : ℕ). returned (s, some n)) e;
    wires = sym (append-nil s.wire);
    contents = ap (λ (n : ℕ). take n (drop a buffer)) {x = 0} {y = len - a} (omega arith);
  }

  Sent-cons :
      (a n : ℕ) (s : Session K) (o : Outcome (Session K × Option ℕ))
      → a < len
      → 1448 ≤ n
      → Sent
          (a + chunk_len len a)
          (record s { wire = s.wire ++ take n (offered buffer len a) ∷ [] })
          o
      → Sent a s o
  Sent-cons a n s o lt big q =
      let m : ℕ = chunk_len len a in
      let bounds = chunk_bounds len a lt in
      let text : List ℕ = take n (offered buffer len a) in
      let here : text ≡ slice a (a + m) buffer =
        take_of_le n (offered buffer len a) (omega (arith, length-take m (drop a buffer), bounds.2))
        ∙ ap (λ (i : ℕ). take i (drop a buffer)) {x = m} {y = a + m - a} (omega arith) in
      record {
        session = q.session;
        texts = text ∷ q.texts;
        result = q.result;
        wires = q.wires ∙ append_assoc s.wire (text ∷ []) q.texts;
        contents =
            ap (λ r. text ++ r) q.contents
            ∙ ap (λ r. r ++ slice (a + m) len buffer) here
            ∙ slice-append a (a + m) len buffer (omega arith) (omega (arith, bounds.1));
      }

  server_loop-done :
      (rs : List SendResult) (s : Session K)
      → server_loop buffer len rs len s ≡ returned (s, some len)
  unfolding server_loop
  server_loop-done [] s = rw (ltb_self len) refl
  server_loop-done (error ∷ rs) s = rw (ltb_self len) refl
  server_loop-done (took n ∷ rs) s = rw (ltb_self len) refl

  server_loop-Sent :
      (rs : List SendResult) (a : ℕ) (s : Session K)
      → TakesAll rs
      → a ≤ len
      → len ≤ a + 1448 * length rs
      → Sent a s (server_loop buffer len rs a s)
  unfolding server_loop
  server_loop-Sent [] a s h le enough =
      let e : a ≡ len = omega arith in
      let t : ltb a len ≡ false = ground arith in rw t (Sent-nothing a s e)
  server_loop-Sent (error ∷ rs) a s h le enough = absurd h
  server_loop-Sent (took n ∷ rs) a s h le enough = elim (Bool-cases (ltb a len)) [
    | inr stops ↦ rw stops (Sent-nothing a s (omega (arith, ltb_false→le a len stops)))
    | inl goes ↦
        let lt = ltb→lt a len goes in
        let bounds = chunk_bounds len a lt in
        rw goes (
          Sent-cons a n s _ lt h.0 (
            server_loop-Sent rs (a + chunk_len len a) _ h.1 (omega (arith, bounds.1))
              (step a lt enough)))
  ]
    where
      step :
          (a : ℕ)
          → a < len
          → len ≤ a + 1448 * suc (length rs)
          → len ≤ a + chunk_len len a + 1448 * length rs
      step a lt enough = ground arith

-- The server's callback, where every `send` takes all that it is offered and there are answers for
-- all the chunks: it returns the whole length, and the texts that the kernel has taken since make
-- up the first `len` bytes of the buffer in their order.
pub tcp_server_send_cb-delivers :
    {K : Type 0} (buffer : List ℕ) (len : ℕ) (rs : List SendResult) (s : Session K)
    → TakesAll rs
    → len ≤ 1448 * length rs
    → (s' : Session K) × (texts : List (List ℕ)) × (tcp_server_send_cb buffer len rs s
        ≡ returned (s', some len))
      × (s'.wire ≡ s.wire ++ texts)
      × (flatten texts ≡ take len buffer)
unfolding tcp_server_send_cb
tcp_server_send_cb-delivers buffer len rs s h enough =
    let sent = server_loop-Sent buffer len rs 0 s h (omega arith) (omega arith) in
    let whole : slice 0 len buffer ≡ take len buffer =
      ap (λ (n : ℕ). take n buffer) {x = len - 0} {y = len} (omega arith) in
    (sent.session, sent.texts, sent.result, sent.wires, sent.contents ∙ whole)

-- A positive length of at most one chunk and a `send` that takes `n` bytes: the callback returns
-- the whole length although the kernel has taken no more than the first `n` of the bytes.
pub tcp_server_send_cb-short :
    {K : Type 0} (buffer : List ℕ) (len n : ℕ) (rs : List SendResult) (s : Session K)
    → 0 < len
    → len ≤ 1448
    → tcp_server_send_cb buffer len (took n ∷ rs) s
      ≡ returned (record s { wire = s.wire ++ take n (take len buffer) ∷ [] }, some len)
unfolding tcp_server_send_cb
tcp_server_send_cb-short buffer len n rs s pos small =
    let goes : ltb 0 len ≡ true = lt→ltb 0 len pos in
    let total : 0 + chunk_len len 0 ≡ len = ground arith in
    let whole : chunk_len len 0 ≡ len = ground arith in
    rw goes (rw total (rw whole (server_loop-done buffer len rs _)))
