-- ===== src/Client/Output/Progress.antt =====
-- One round of the loop of `tcp_client_cb`, and how rounds add up.
use mathlib.Core.List.{append_assoc, append-nil}
use kcp_fake_tcp.Base.{
  ℕ, ◌+◌, ◌-◌, ◌≤◌, ◌<◌, ◌≡◌, ◌∙◌, refl, sym, ap, String, List, [], ◌∷◌, ◌++◌, arith, u32, take,
  drop, length, slice, slice-append, length-slice,
}
use kcp_fake_tcp.Client.State.{Client}
use kcp_fake_tcp.Client.Header.{next_id}
use kcp_fake_tcp.Client.Header.Laws.{packet-Carries, packet-body}
use kcp_fake_tcp.Client.Output.{SendEvent, sent, chunk_len, chunk, taken, send_round}
use kcp_fake_tcp.Client.Output.Datagrams.{
  bodies, InSequence, bodies-append, InSequence-mod, InSequence-append,
}

pub chunk_bounds : (len a : ℕ) → a < len → (0 < chunk_len len a) × (a + chunk_len len a ≤ len)
chunk_bounds len a h = (ground arith, ground arith)

module _ {K : Type 0} (buffer : List ℕ) (len : ℕ) where
  -- From the client `c` with `a` bytes sent to `c'` with `b` bytes sent: the new datagrams carry
  -- the bytes from `a` to `b` of the buffer, in sequence, and the counter follows.
  pub record Progress (a b : ℕ) (c c' : Client K) : Type 0 where
    pub new : List (List ℕ)
    pub wires : c'.wire ≡ c.wire ++ new
    pub contents : bodies new ≡ slice a b buffer
    pub forward : a ≤ b
    pub bounded : b ≤ len
    pub counted : u32 c'.client_sum_send ≡ u32 (c.client_sum_send + (b - a))
    pub same_seq : c'.seq ≡ c.seq
    pub sequenced : InSequence (c.seq + c.client_sum_send) new

  module _ (fits : len ≤ length buffer) where
    pub Progress-refl : (a : ℕ) (c : Client K) → a ≤ len → Progress a a c c
    unfolding bodies
    Progress-refl a c h = record {
      new = [];
      wires = sym (append-nil c.wire);
      contents = ap (λ (k : ℕ). take k (drop a buffer)) {x = 0} {y = a - a} (omega arith);
      forward = omega arith;
      bounded = h;
      counted = omega arith;
      same_seq = refl;
      sequenced = tt;
    }

    pub Progress-trans :
        (a b d : ℕ) (c c' c'' : Client K)
        → Progress a b c c'
        → Progress b d c' c''
        → Progress a d c c''
    Progress-trans a b d c c' c'' p q = record {
      new = p.new ++ q.new;
      wires = q.wires ∙ ap (λ w. w ++ q.new) p.wires ∙ append_assoc c.wire p.new q.new;
      contents =
          bodies-append p.new q.new
          ∙ ap (λ r. r ++ bodies q.new) p.contents
          ∙ ap (λ r. slice a b buffer ++ r) q.contents
          ∙ slice-append a b d buffer p.forward q.forward;
      forward = omega arith;
      bounded = q.bounded;
      counted = omega arith;
      same_seq = q.same_seq ∙ p.same_seq;
      sequenced = InSequence-append (c.seq + c.client_sum_send) p.new q.new p.sequenced (
          InSequence-mod (c'.seq + c'.client_sum_send) _ q.new
            (omega
              (arith, p.counted, p.same_seq, ap length p.contents, length-slice a b buffer, fits))
            q.sequenced);
    }

    Progress-next_id : (a : ℕ) (c : Client K) → a ≤ len → Progress a a c (next_id c)
    unfolding next_id bodies
    Progress-next_id a c h = record {
      new = [];
      wires = sym (append-nil c.wire);
      contents = ap (λ (k : ℕ). take k (drop a buffer)) {x = 0} {y = a - a} (omega arith);
      forward = omega arith;
      bounded = h;
      counted = omega arith;
      same_seq = refl;
      sequenced = tt;
    }

    module _ (inet_addr : String → ℕ) where
      Progress-taken :
          (a : ℕ) (c : Client K)
          → a < len
          → Progress a (a + chunk_len len a) c (taken inet_addr buffer len a c)
      unfolding taken chunk bodies
      Progress-taken a c h =
          let size = chunk_len len a in
          let body = take size (drop a buffer) in
          let bounds = chunk_bounds len a h in
          record {
            new = chunk inet_addr buffer len a c ∷ [];
            wires = refl;
            contents =
                append-nil _
                ∙ packet-body inet_addr c buffer body size 1 1 0 0
                ∙ ap (λ (k : ℕ). take k (drop a buffer)) {x = size} {y = a + size - a}
                    (omega arith);
            forward = omega arith;
            bounded = bounds.1;
            counted = omega arith;
            same_seq = refl;
            sequenced = ((packet-Carries inet_addr c buffer body size 1 1 0 0 _).sequence, tt);
          }

      pub round-Progress :
          (e : SendEvent) (a : ℕ) (c : Client K)
          → a < len
          → let (c', b, gave_up) = send_round inet_addr buffer len e a c in Progress a b c c'
      unfolding send_round
      round-Progress sent a c h =
          Progress-trans a a _ c (next_id c) _ (Progress-next_id a c (omega arith))
            (Progress-taken a (next_id c) h)
      round-Progress e a c h = Progress-next_id a c (omega arith)
