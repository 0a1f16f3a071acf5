-- ===== src/Server/Epoll/Reach.antt =====
-- The states that `startEpoll` and `updateKcp` bring a server into (code/kcp/server_epoll.cc), with
-- their events and rounds one after the other.
use kcp_fake_tcp.Base.{
  ℕ, ◌≡◌, refl, sym, subst, String, List, [], ◌++◌, Bool, true, false, none, some,
}
use kcp_fake_tcp.Kcp.{Kcp}
use kcp_fake_tcp.Client.Outcome.{Outcome, returned, waiting, aborted, Returns}
use kcp_fake_tcp.Server.Session.{Session}
use kcp_fake_tcp.Server.Output.{SendResult}
use kcp_fake_tcp.Server.Epoll.{
  Clients, ServerEpoll, Accepted, ReadResult, server_epoll, create_thread, entry, store, unwatch,
  on_accept, on_client, update_kcp,
}
use kcp_fake_tcp.Server.Epoll.Laws.{entry-store-same}
use kcp_fake_tcp.Server.Epoll.Round.{HasBlock, Swept, SweptFrom, update_clients-Swept}
use kcp_fake_tcp.Server.Epoll.Order.{Among, Ascending, Swept-closes}
use kcp_fake_tcp.Server.Epoll.Invariant.{Inv, Owned-entry}
use kcp_fake_tcp.Server.Epoll.Steps.{
  Live-some, Served-Among, on_accept-Inv, on_client-Inv, update_kcp-Inv,
}

-- One event or round that has run to its end. The system reports events of watched connections
-- only.
pub data Step {K : Type 0} (kcp : Kcp K) : ServerEpoll K → ServerEpoll K → Type 0 where
  accepting :
      {e e' : ServerEpoll K} (a : Accepted) → on_accept kcp a e ≡ returned e' → Step kcp e e'
  serving :
      {e e' : ServerEpoll K} (fuel fd : ℕ) (hup readable : Bool) (rs : List ReadResult)
      → Among fd e.watched
      → on_client kcp fuel fd hup readable rs e ≡ returned e'
      → Step kcp e e'
  updating :
      {e e' : ServerEpoll K} (clock : ℕ) (answers : ℕ → List (List SendResult))
      → update_kcp kcp clock answers e ≡ returned e'
      → Step kcp e e'

-- The states of a server since `create_thread`.
pub data Reach {K : Type 0} (kcp : Kcp K) : ServerEpoll K → Type 0 where
  started :
      (pid : ℕ) (ip : String) (port : ℕ) → Reach kcp (create_thread (server_epoll pid ip port))
  next : {e e' : ServerEpoll K} → Reach kcp e → Step kcp e e' → Reach kcp e'

-- What a round of `updateKcp` may come to in the state `e`: it does not abort, and where it
-- returns it has swept the map.
abbrev pub Rounded : {K : Type 0} → ServerEpoll K → ServerEpoll K → Type 0
Rounded e e' =
    (shut : List ℕ) × Swept e.clients e'.clients shut
    × (e'.closed ≡ e.closed ++ shut)
    × (e'.watched ≡ e.watched)

abbrev pub Sweeps : {K : Type 0} → ServerEpoll K → Outcome (ServerEpoll K) → Type 0
Sweeps e (returned e') = Rounded e e'
Sweeps e (waiting e') = Unit
Sweeps e aborted = ⊥

-- What a round of `updateKcp` may come to, as above, when it is to close `fd`.
abbrev pub Closes : {K : Type 0} → ℕ → ServerEpoll K → Outcome (ServerEpoll K) → Type 0
Closes fd e (returned e') =
    (shut : List ℕ) × (e'.closed ≡ e.closed ++ shut) × Among fd shut × (entry fd e'.clients ≡ none)
Closes fd e (waiting e') = Unit
Closes fd e aborted = ⊥

module _ {K : Type 0} where
  rounds_then :
      (e : ServerEpoll K) (o : Outcome (Clients K × List ℕ))
      → SweptFrom [] e.clients e.closed o
      → Sweeps e (elim o [
        | aborted ↦ aborted
        | waiting (clients, closed) ↦ waiting (record e { clients = clients; closed = closed })
        | returned (clients, closed) ↦ returned (record e { clients = clients; closed = closed })
      ])
  rounds_then e (returned (clients, closed)) h =
      (h.1, subst (λ c. Swept e.clients c h.1) (sym h.3) h.2, h.4, refl)
  rounds_then e (waiting (clients, closed)) h = tt
  rounds_then e aborted h = h

  Sweeps-Closes :
      (fd : ℕ) (s : Session K) (e : ServerEpoll K) (o : Outcome (ServerEpoll K))
      → Ascending e.clients
      → entry fd e.clients ≡ some s
      → s.stop_flag ≡ true
      → Sweeps e o
      → Closes fd e o
  Sweeps-Closes fd s e (returned e') a found t h =
      let closed = Swept-closes fd s h.1 a found t in (h.0, h.2, closed.0, closed.1)
  Sweeps-Closes fd s e (waiting e') a found t h = tt
  Sweeps-Closes fd s e aborted a found t h = h

module _ {K : Type 0} {kcp : Kcp K} where
  Step-Inv : {e e' : ServerEpoll K} → Step kcp e e' → Inv e → Inv e'
  Step-Inv {e} (accepting a r) inv = subst (Returns Inv) r (on_accept-Inv kcp a e inv)
  Step-Inv {e} (serving fuel fd hup readable rs a r) inv =
      subst (Returns Inv) r (on_client-Inv kcp fuel fd hup readable rs e a inv)
  Step-Inv {e} (updating clock answers r) inv =
      subst (Returns Inv) r (update_kcp-Inv kcp clock answers e inv)

  pub Reach-Inv : {e : ServerEpoll K} → Reach kcp e → Inv e
  unfolding create_thread server_epoll
  Reach-Inv (started pid ip port) = record { owned = tt; served = tt; ascending = tt }
  Reach-Inv (next r s) = Step-Inv s (Reach-Inv r)

  -- In every state that a server comes into, a connection that the epoll instance watches has a
  -- session in the map: a running one, of that descriptor, with a control block.
  pub Reach-serves :
      {e : ServerEpoll K} (fd : ℕ)
      → Reach kcp e
      → Among fd e.watched
      → (s : Session K) × (entry fd e.clients ≡ some s) × (s.stop_flag ≡ false) × HasBlock fd s
  Reach-serves {e} fd r a =
      let inv = Reach-Inv r in
      let (s, found, live) =
        Live-some (entry fd e.clients) (Served-Among fd e.watched e.clients a inv.served) in
      (s, found, live, Owned-entry fd e.clients s inv.owned found)

  -- In every state that a server comes into, a round of `updateKcp` does not abort; when it
  -- returns, the stopped sessions are gone from the map and exactly their descriptors have been
  -- closed, in the map's order; the other sessions are there still, with nothing changed but their
  -- control blocks and the texts that the kernel has taken; what is watched has not changed.
  pub Reach-Sweeps :
      {e : ServerEpoll K} (clock : ℕ) (answers : ℕ → List (List SendResult))
      → Reach kcp e
      → Sweeps e (update_kcp kcp clock answers e)
  unfolding update_kcp
  Reach-Sweeps {e} clock answers r =
      let inv = Reach-Inv r in
      rounds_then e _ (update_clients-Swept kcp clock answers [] e.clients e.closed inv.owned)

  -- In every state that a server comes into, the event `EPOLLHUP` of a watched connection is dealt
  -- with to the end, and the next round of `updateKcp` does not abort; when it returns, it has
  -- closed the descriptor and taken the session out of the map.
  pub Reach-hangs_up :
      {e : ServerEpoll K} (fuel fd : ℕ) (readable : Bool) (rs : List ReadResult)
      → Reach kcp e
      → Among fd e.watched
      → (e' : ServerEpoll K) × (on_client kcp fuel fd true readable rs e ≡ returned e')
        × ((clock : ℕ) (answers : ℕ → List (List SendResult))
            → Closes fd e' (update_kcp kcp clock answers e'))
  unfolding on_client unwatch
  Reach-hangs_up {e} fuel fd readable rs r a =
      let (s, found, live, block) = Reach-serves fd r a in
      let s' = record s { stop_flag = true } in
      let e' = unwatch kcp fd (record e { clients = store fd (some s') e.clients }) in
      let step : on_client kcp fuel fd true readable rs e ≡ returned e' =
        rw (found, on_client) refl in
      let r' = next r (serving fuel fd true readable rs a step) in
      (
        e',
        step,
        λ clock answers.
            Sweeps-Closes fd s' e' _ (Reach-Inv r').ascending
              (entry-store-same fd (some s') e.clients) refl (Reach-Sweeps clock answers r'),
      )
