-- ===== src/Client/File/Laws.antt =====
-- The messages that `send_file` queues (code/kcp/kcp_client.cc).
use mathlib.Core.List.{append_assoc, append-nil}
use kcp_fake_tcp.Base.{
  ℕ, zero, suc, ◌+◌, ◌-◌, ◌≤◌, ◌<◌, ◌≡◌, inl, inr, refl, sym, ap, ◌∙◌, subst, List, [], ◌∷◌, ◌++◌,
  false, ltb, Bool-cases, ltb→lt, ltb_false→le, some, take, drop, length, length-take, length-drop,
  slice, slice-append, flatten, arith,
}
use kcp_fake_tcp.Kcp.{Kcp}
use kcp_fake_tcp.Client.Outcome.{Outcome, returned}
use kcp_fake_tcp.Client.State.{Client}
use kcp_fake_tcp.Client.File.{piece_len, queue, send_pieces}

-- No piece is empty, and none is larger than the buffer of 1024 bytes.
abbrev pub Pieces : List (List ℕ) → Type 0
Pieces [] = Unit
Pieces (bs ∷ bss) = ((0 < length bs) × (length bs ≤ 1024)) × Pieces bss

piece_len_bounds :
    (size total : ℕ)
    → total < size
    → (0 < piece_len size total)
      × (total + piece_len size total ≤ size)
      × (piece_len size total ≤ 1024)
piece_len_bounds size total h = (omega arith, omega arith, omega arith)

ltb_self : (n : ℕ) → ltb n n ≡ false
ltb_self n = ground arith

-- `sent` is the queue of the messages that a control block was given, the oldest first.
module _ {K : Type 0} (kcp : Kcp K) (sent : K → List (List ℕ))
    (appends : (bytes : List ℕ) (k : K) → sent (kcp.send bytes k) ≡ sent k ++ bytes ∷ []) where
  -- The client's block was given the messages `ms`.
  pub record Holds (ms : List (List ℕ)) (c : Client K) : Type 0 where
    pub block : K
    pub has_block : c.m_kcp ≡ some block
    pub given : sent block ≡ ms

  -- An outcome of a client that held `ms`: it has returned, and the new messages are pieces that
  -- make up `bytes`.
  pub record Queued (ms : List (List ℕ)) (bytes : List ℕ) (o : Outcome (Client K)) : Type 0 where
    pub client : Client K
    pub pieces : List (List ℕ)
    pub result : o ≡ returned client
    pub holds : Holds (ms ++ pieces) client
    pub contents : flatten pieces ≡ bytes
    pub sizes : Pieces pieces

  -- `queue` gives the block one message more.
  pub queue-Holds :
      (bytes : List ℕ) (ms : List (List ℕ)) (c : Client K)
      → Holds ms c
      → (c' : Client K) × (queue kcp bytes c ≡ returned c') × Holds (ms ++ bytes ∷ []) c'
  unfolding queue
  queue-Holds bytes ms c h = (
    record c { m_kcp = some (kcp.send bytes h.block) },
    rw h.has_block refl,
    record {
      block = kcp.send bytes h.block;
      has_block = refl;
      given = appends bytes h.block ∙ ap (λ r. r ++ bytes ∷ []) h.given;
    },
  )

  Queued-nothing :
      (content : List ℕ) (size total : ℕ) (ms : List (List ℕ)) (c : Client K)
      → total ≡ size
      → Holds ms c
      → Queued ms (slice total size content) (returned c)
  Queued-nothing content size total ms c e h = record {
    client = c;
    pieces = [];
    result = refl;
    holds = subst (λ r. Holds r c) (sym (append-nil ms)) h;
    contents = ap (λ (n : ℕ). take n (drop total content)) {x = 0} {y = size - total} (omega arith);
    sizes = tt;
  }

  Queued-cons :
      (content : List ℕ) (size total : ℕ) (ms : List (List ℕ)) (o : Outcome (Client K))
      → size ≤ length content
      → total < size
      → let s = piece_len size total in
        Queued (ms ++ take s (drop total content) ∷ []) (slice (total + s) size content) o
        → Queued ms (slice total size content) o
  Queued-cons content size total ms o fits lt q =
      let s : ℕ = piece_len size total in
      let piece : List ℕ = take s (drop total content) in
      let bounds = piece_len_bounds size total lt in
      let here : piece ≡ slice total (total + s) content =
        ap (λ (n : ℕ). take n (drop total content)) {x = s} {y = total + s - total} (omega arith) in
      let size_here : length piece ≡ s =
        omega (arith, length-take s (drop total content), length-drop total content) in
      record {
        client = q.client;
        pieces = piece ∷ q.pieces;
        result = q.result;
        holds = subst (λ r. Holds r q.client) (append_assoc ms (piece ∷ []) q.pieces) q.holds;
        contents =
            ap (λ r. piece ++ r) q.contents
            ∙ ap (λ r. r ++ slice (total + s) size content) here
            ∙ slice-append total (total + s) size content (omega arith) (omega (arith, bounds.1));
        sizes = ((omega (arith, size_here, bounds.0), omega (arith, size_here, bounds.2)), q.sizes);
      }

  -- The loop of `send_file` over a file of which at least `size` bytes can be read, when the other
  -- threads leave the messages of the block as they are: with as many rounds as bytes are left it
  -- returns, and has queued the bytes from `total` to `size`, in order, in pieces of 1 to 1024
  -- bytes.
  pub send_pieces-Queued :
      (between : ℕ → Client K → Client K)
      → ((n : ℕ) (ms : List (List ℕ)) (c : Client K) → Holds ms c → Holds ms (between n c))
      → (content : List ℕ) (size fuel total : ℕ) (ms : List (List ℕ)) (c : Client K)
      → size ≤ length content
      → total ≤ size
      → size ≤ total + fuel
      → Holds ms c
      → Queued ms (slice total size content) (send_pieces kcp between content size fuel total c)
  unfolding send_pieces
  send_pieces-Queued between quiet content size zero total ms c fits le enough h =
      let e : total ≡ size = omega arith in
      rw (e, ltb_self size) (Queued-nothing content size size ms c refl h)
  send_pieces-Queued between quiet content size (suc fuel) total ms c fits le enough h =
      elim (Bool-cases (ltb total size)) [
        | inr stops ↦ rw stops (
            Queued-nothing content size total ms c (omega (arith, ltb_false→le total size stops)) h)
        | inl goes ↦
            let lt = ltb→lt total size goes in
            let bounds = piece_len_bounds size total lt in
            let (c', queued, h') =
              queue-Holds (take (piece_len size total) (drop total content)) ms (between total c)
                (quiet total ms c h) in
            rw (goes, queued)
              (Queued-cons content size total ms _ fits lt (
                send_pieces-Queued between quiet content size fuel (total + piece_len size total) _
                  c' fits (omega (arith, bounds.1)) (omega (arith, bounds.0)) h'))
      ]
