-- ===== src/Server/Epoll/Stuck.antt =====
-- Messages longer than what `read` returned, in `startEpoll` (code/kcp/server_epoll.cc), which asks
-- `ikcp_recv` for as many bytes as the last `read` returned.
use kcp_fake_tcp.Base.{
  ℕ, suc, ◌<◌, ◌≤◌, ◌≡◌, ◌∙◌, refl, ap, List, [], ◌∷◌, true, false, none, some, length,
}
use kcp_fake_tcp.Kcp.{Kcp, Refuses}
use kcp_fake_tcp.Client.Outcome.{returned}
use kcp_fake_tcp.Server.Session.{Session}
use kcp_fake_tcp.Server.Receive.{drain}
use kcp_fake_tcp.Server.Receive.Drain.{after_recv}
use kcp_fake_tcp.Server.Epoll.{read_loop}
use kcp_fake_tcp.Server.Epoll.Parts.{Part, reads, after_drain, read_loop-accepted}

module _ {K : Type 0} (kcp : Kcp K) (inbox : K → List (List ℕ)) (refuses : Refuses kcp inbox) where
  -- The reads bring fewer bytes than the message `m` has, and KCP makes no messages of them, in the
  -- state that the block is in by then.
  abbrev pub Trickles : List ℕ → List Part → K → Type 0
  Trickles m [] k = Unit
  Trickles m (p ∷ ps) k =
      (k' : K) × (kcp.input (some p.bytes) k ≡ (k', true))
      × (inbox k' ≡ inbox k)
      × (0 < length p.bytes)
      × (length p.bytes ≤ 2048)
      × (length p.bytes < length m)
      × ((k'' : K) → kcp.recv (some (length p.bytes)) k' ≡ (k'', none) → Trickles m ps k'')

  -- A session whose first message is longer than what any `read` of an event returns, and the rounds
  -- of each loop over `ikcp_recv` are not none: the loop over `read` returns and has taken nothing,
  -- the message and those behind it wait still, and the session is the same but for its block.
  pub read_loop-stuck :
      (pid fuel : ℕ) (ps : List Part) (k : K) (s : Session K) (cnt : ℕ) (m : List ℕ)
      (ms : List (List ℕ))
      → inbox k ≡ m ∷ ms
      → Trickles m ps k
      → (k' : K) × (read_loop kcp pid (suc fuel) (reads ps) (record s { m_kcp = some k }, cnt)
          ≡ returned ((record s { m_kcp = some k' }, cnt), false))
        × (inbox k' ≡ m ∷ ms)
  unfolding read_loop drain
  read_loop-stuck pid fuel [] k s cnt m ms e t = (k, refl, e)
  read_loop-stuck pid fuel (p ∷ ps) k s cnt m ms e
        (k1, input, same, some_bytes, size, short, rest) =
      let (k2, refused, left) = refuses (length p.bytes) k1 m ms (same ∙ e) short in
      let (k', result, waits) = read_loop-stuck pid fuel ps k2 s cnt m ms left (rest k2 refused) in
      (
        k',
        read_loop-accepted kcp pid (suc fuel) p.bytes p.taken (reads ps) k k1 s cnt some_bytes size
              input
            ∙ ap
                (λ r.
                  after_drain kcp pid (suc fuel) (reads ps)
                    (after_recv kcp pid fuel (length p.bytes) (record s { m_kcp = some k1 }) cnt r))
                refused
            ∙ result,
        waits,
      )
