-- ===== src/Kcp.antt =====
-- The KCP library (code/kcp/ikcp.h, code/kcp/ikcp.cc, a copy of another project) as the two ends
-- call it: operations on a control block of type `K`. A result below zero is `none` or `false`.
use kcp_fake_tcp.Base.{ℕ, ◌<◌, ◌≤◌, ◌≡◌, Bool, Option, none, some, List, [], ◌∷◌, ◌++◌, length}

pub record Kcp (K : Type 0) : Type 0 where
  -- `ikcp_create(conv, user)`, which the callers assert not to fail.
  pub create : ℕ → K
  pub wndsize : ℕ → ℕ → K → K
  pub nodelay : ℕ → ℕ → ℕ → ℕ → K → K
  -- `ikcp_update(kcp, clock)`: the buffers that it hands to the output callback, in order.
  pub update : ℕ → K → K × List (List ℕ)
  -- `ikcp_input(kcp, data, size)`; `none` is a negative size. `true` is a result of at least zero.
  pub input : Option (List ℕ) → K → K × Bool
  -- `ikcp_recv(kcp, buffer, len)`: the message, whose length is the result. A length of `none` is
  -- negative.
  pub recv : Option ℕ → K → K × Option (List ℕ)
  -- `ikcp_send(kcp, buffer, len)`, whose result every caller ignores.
  pub send : List ℕ → K → K
  pub waitsnd : K → ℕ

-- What the loops over `ikcp_recv` rely on: each message is taken out of a finite queue.
pub record Drains {K : Type 0} (kcp : Kcp K) (pending : K → ℕ) : Type 0 where
  pub falls :
      (len : ℕ) (k k' : K) (message : List ℕ)
      → kcp.recv (some len) k ≡ (k', some message)
      → pending k' < pending k
  -- `ikcp_send` puts nothing into that queue.
  pub stays : (bytes : List ℕ) (k : K) → pending (kcp.send bytes k) ≤ pending k

-- What the loops rely on that take more than one message: `ikcp_recv` takes the first of the
-- messages that have come in, if it fits the limit, and fails when there are none; `ikcp_send` adds
-- to those that are to go out.
pub record Queues {K : Type 0} (kcp : Kcp K) (inbox outbox : K → List (List ℕ)) : Type 0 where
  pub recv_none :
      (limit : ℕ) (k : K)
      → inbox k ≡ []
      → (k' : K) × (kcp.recv (some limit) k ≡ (k', none)) × (inbox k' ≡ []) × (outbox k' ≡ outbox k)
  pub recv_some :
      (limit : ℕ) (k : K) (m : List ℕ) (ms : List (List ℕ))
      → inbox k ≡ m ∷ ms
      → length m ≤ limit
      → (k' : K) × (kcp.recv (some limit) k ≡ (k', some m))
        × (inbox k' ≡ ms)
        × (outbox k' ≡ outbox k)
  pub send_in : (bytes : List ℕ) (k : K) → inbox (kcp.send bytes k) ≡ inbox k
  pub send_out : (bytes : List ℕ) (k : K) → outbox (kcp.send bytes k) ≡ outbox k ++ bytes ∷ []

-- `ikcp_recv` fails on a message that is longer than the limit and leaves it where it is.
abbrev pub Refuses : {K : Type 0} → Kcp K → (K → List (List ℕ)) → Type 0
Refuses {K} kcp inbox =
    (limit : ℕ) (k : K) (m : List ℕ) (ms : List (List ℕ))
    → inbox k ≡ m ∷ ms
    → limit < length m
    → (k' : K) × (kcp.recv (some limit) k ≡ (k', none)) × (inbox k' ≡ m ∷ ms)

-- Every message has bytes, and at most `limit`.
abbrev pub Fit : ℕ → List (List ℕ) → Type 0
Fit limit [] = Unit
Fit limit (m ∷ ms) = (0 < length m) × (length m ≤ limit) × Fit limit ms
