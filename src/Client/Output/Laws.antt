-- ===== src/Client/Output/Laws.antt =====
-- What `tcp_client_cb` puts on the wire, whatever the system answers.
use kcp_fake_tcp.Base.{
  ℕ, suc, ◌+◌, ◌-◌, ◌*◌, ◌%◌, ◌≤◌, ◌<◌, ◌≡◌, ◌↔◌, ◌⊎◌, inl, inr, ◌∙◌, refl, sym, ap, subst, String,
  List, [], ◌∷◌, ◌++◌, ltb, arith, u32, take, drop, length, Bool-cases, ltb→lt,
}
use kcp_fake_tcp.Wire.Header.{ip_bytes, tcp_bytes}
use kcp_fake_tcp.Wire.Checksum.{calculate_tcp_checksum}
use kcp_fake_tcp.Wire.Checksum.Laws.{payload_sum}
use kcp_fake_tcp.Client.Outcome.{Outcome, returned, waiting, aborted}
use kcp_fake_tcp.Client.State.{Client}
use kcp_fake_tcp.Client.Header.{next_id, ip_header_checked, tcp_header_checked}
use kcp_fake_tcp.Client.Header.Laws.{packet-checksum_iff}
use kcp_fake_tcp.Client.Output.{
  SendEvent, select_failed, not_writable, send_failed, sent, udp_mtu, chunk_len, chunk, taken,
  send_round, send_loop, tcp_client_cb,
}
use kcp_fake_tcp.Client.Output.Datagrams.{bodies, InSequence}
use kcp_fake_tcp.Client.Output.Progress.{
  chunk_bounds, Progress, Progress-refl, Progress-trans, round-Progress,
}

-- How many datagrams the system takes, and that `select` never fails or times out.
abbrev pub sends : List SendEvent → ℕ
sends [] = 0
sends (sent ∷ es) = suc (sends es)
sends (e ∷ es) = sends es

abbrev pub Persistent : List SendEvent → Type 0
Persistent [] = Unit
Persistent (select_failed ∷ es) = ⊥ × Unit {0}
Persistent (e ∷ es) = Unit {0} × Persistent es

abbrev client_of : {K : Type 0} → Client K → Outcome (Client K × ℕ) → Client K
client_of c (returned (c', n)) = c'
client_of c (waiting (c', n)) = c'
client_of c aborted = c

abbrev sent_of : {K : Type 0} → Outcome (Client K × ℕ) → ℕ
sent_of (returned (c, n)) = n
sent_of _ = 0

waiting≢returned {ℓ} : {A : Type ℓ} {a b : A} → waiting a ≡ returned b → ⊥
waiting≢returned e = cc

module _ {K : Type 0} (buffer : List ℕ) (len : ℕ) where
  module _ (fits : len ≤ length buffer) (inet_addr : String → ℕ) where
    -- The three ways in which the callback can stand after some answers of the system.
    abbrev Ends : Outcome (Client K × ℕ) → Client K → ℕ → Type 0
    Ends o c' b =
        ((o ≡ returned (c', len)) × (b ≡ len)) ⊎ ((o ≡ returned (c', 0)) ⊎ (o ≡ waiting (c', b)))

    loop-Progress :
        (es : List SendEvent) (a : ℕ) (c : Client K)
        → a ≤ len
        → (c' : Client K) × (b : ℕ) × Progress buffer len a b c c'
          × Ends (send_loop inet_addr buffer len es a c) c' b
    unfolding send_loop
    loop-Progress [] a c h = (c, a, Progress-refl buffer len fits a c h, ground arith)
    loop-Progress (e ∷ es) a c h = elim (Bool-cases (ltb a len)) [
      | inl more ↦
          let (c', b, gave_up) = send_round inet_addr buffer len e a c in
          let step : Progress buffer len a b c c' =
            round-Progress buffer len fits inet_addr e a c (ltb→lt a len more) in
          rw more (elim (Bool-cases gave_up) [
            | inl stop ↦ rw stop (c', b, step, inr (inl refl))
            | inr go ↦
                let (c'', d, rest, ends) = loop-Progress es b c' step.bounded in
                rw go (c'', d, Progress-trans buffer len fits a b d c c' c'' step rest, ends)
          ])
      | inr done ↦ (c, a, Progress-refl buffer len fits a c h, ground arith)
    ]

    finished :
        (es : List SendEvent) (c c' : Client K)
        → 0 < len
        → send_loop inet_addr buffer len es 0 c ≡ returned (c', len)
        → Progress buffer len 0 len c c'
    finished es c c' pos e =
        let (c'', b, p, ends) = loop-Progress es 0 c (omega arith) in
        elim ends [
          | inl whole ↦
              let same : c'' ≡ c' = ap (client_of c) (sym whole.0 ∙ e) in
              subst (λ x. Progress buffer len 0 len c x) same
                (subst (λ k. Progress buffer len 0 k c c'') whole.1 p)
          | inr (inl none_sent) ↦
              let zero_sent : 0 ≡ len = ap sent_of (sym none_sent ∙ e) in absurd (omega arith)
          | inr (inr still) ↦ absurd (waiting≢returned (sym still ∙ e))
        ]

  -- Enough datagrams taken, whatever failures stand between them, end the loop.
  pub send_loop-returns :
      (inet_addr : String → ℕ) (es : List SendEvent) (a : ℕ) (c : Client K)
      → a ≤ len
      → Persistent es
      → len ≤ a + udp_mtu * sends es
      → (c' : Client K) × (send_loop inet_addr buffer len es a c ≡ returned (c', len))
  unfolding send_loop send_round
  send_loop-returns inet_addr [] a c h p enough = (c, ground arith)
  send_loop-returns inet_addr (select_failed ∷ es) a c h p enough = absurd p.0
  send_loop-returns inet_addr (not_writable ∷ es) a c h p enough = elim (Bool-cases (ltb a len)) [
    | inl more ↦ rw more (send_loop-returns inet_addr es a (next_id c) h p.1 enough)
    | inr done ↦ (c, ground arith)
  ]
  send_loop-returns inet_addr (send_failed ∷ es) a c h p enough = elim (Bool-cases (ltb a len)) [
    | inl more ↦ rw more (send_loop-returns inet_addr es a (next_id c) h p.1 enough)
    | inr done ↦ (c, ground arith)
  ]
  send_loop-returns inet_addr (sent ∷ es) a c h p enough = elim (Bool-cases (ltb a len)) [
    | inl more ↦
        let bounds = chunk_bounds len a (ltb→lt a len more) in
        rw more (
          send_loop-returns inet_addr es (a + chunk_len len a)
            (taken inet_addr buffer len a (next_id c)) bounds.1 p.1 (ground arith))
    | inr done ↦ (c, ground arith)
  ]

-- A callback on a positive length within the buffer that returns the whole length has handed the kernel datagrams whose bodies are, in
-- order, the bytes of the buffer; each has the sequence number of its first byte, and the count of
-- sent bytes has grown by the length modulo 2 ^ 32. This holds for every answer of the system,
-- retries included.
pub tcp_client_cb-delivers :
    {K : Type 0} (inet_addr : String → ℕ) (buffer : List ℕ) (len : ℕ) (es : List SendEvent)
    (c c' : Client K)
    → 0 < len
    → len ≤ length buffer
    → tcp_client_cb inet_addr buffer len es c ≡ returned (c', len)
    → (new : List (List ℕ)) × (c'.wire ≡ c.wire ++ new)
      × (bodies new ≡ take len buffer)
      × InSequence (c.seq + c.client_sum_send) new
      × (u32 c'.client_sum_send ≡ u32 (c.client_sum_send + len))
unfolding tcp_client_cb
tcp_client_cb-delivers inet_addr buffer len es c c' pos fits e =
    let p = finished buffer len fits inet_addr es c c' pos e in
    (
      p.new,
      p.wires,
      p.contents ∙ ap (λ (k : ℕ). take k buffer) {x = len - 0} {y = len} (omega arith),
      p.sequenced,
      omega (arith, p.counted),
    )

-- If `select` never fails and the system takes enough datagrams, the callback returns, and returns
-- the whole length.
pub tcp_client_cb-returns :
    {K : Type 0} (inet_addr : String → ℕ) (buffer : List ℕ) (len : ℕ) (es : List SendEvent)
    (c : Client K)
    → Persistent es
    → len ≤ udp_mtu * sends es
    → (c' : Client K) × (tcp_client_cb inet_addr buffer len es c ≡ returned (c', len))
unfolding tcp_client_cb
tcp_client_cb-returns inet_addr buffer len es c p enough =
    send_loop-returns buffer len inet_addr es 0 c (omega arith) p (omega arith)

-- The datagram for the bytes from `sended` on: a receiver's sum over it comes to 0 exactly when the
-- bytes at the start of the buffer and the bytes that it carries have the same word sum modulo
-- 65535.
pub chunk-checksum_iff :
    {K : Type 0} (inet_addr : String → ℕ) (buffer : List ℕ) (len sended : ℕ) (c : Client K)
    → let n = chunk_len len sended in
      let body = take n (drop sended buffer) in
      let ip = ip_header_checked inet_addr c n in
      let tcp = tcp_header_checked inet_addr c buffer n 1 1 0 0 in
      (chunk inet_addr buffer len sended c ≡ ip_bytes ip ++ tcp_bytes tcp ++ body)
      × ((calculate_tcp_checksum ip tcp body n ≡ 0)
          ↔ (payload_sum buffer n % 65535 ≡ payload_sum body n % 65535))
unfolding chunk
chunk-checksum_iff inet_addr buffer len sended c =
    let n = chunk_len len sended in
    packet-checksum_iff inet_addr c buffer (take n (drop sended buffer)) n 1 1 0 0 (ground arith)
