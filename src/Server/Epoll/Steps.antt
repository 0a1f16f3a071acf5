-- ===== src/Server/Epoll/Steps.antt =====
-- The events of `startEpoll` and the rounds of `updateKcp` against the invariant of the server
-- (code/kcp/server_epoll.cc).
use kcp_fake_tcp.Base.{
  ℕ, ◌≡◌, inl, inr, refl, sym, subst, String, List, [], ◌∷◌, ◌++◌, Bool, true, false, ◌==◌, Option,
  none, some,
}
use kcp_fake_tcp.Kcp.{Kcp}
use kcp_fake_tcp.Client.Outcome.{Outcome, returned, waiting, aborted, Leaves, Returns, Returns-if}
use kcp_fake_tcp.Server.Session.{Session, kcp_handle_client, start_kcp_server}
use kcp_fake_tcp.Server.Output.{SendResult}
use kcp_fake_tcp.Server.Epoll.{
  Clients, ServerEpoll, Accepted, accept_failed, connection, ReadResult, entry, store, unwatch,
  on_accept, after_reads, on_client, update_kcp,
}
use kcp_fake_tcp.Server.Epoll.Laws.{entry-store-same}
use kcp_fake_tcp.Server.Epoll.Round.{HasBlock, Swept, SweptFrom, update_clients-Swept}
use kcp_fake_tcp.Server.Epoll.Order.{Among, Ascending-store, Swept-Ascending}
use kcp_fake_tcp.Server.Epoll.Reads.{Read, read_loop-Read}
use kcp_fake_tcp.Server.Epoll.Invariant.{
  Live, Served, Inv, Owned-store, Served-store, Served-remove, Owned-entry, Swept-Owned,
  Swept-Served,
}

module _ {K : Type 0} where
  pub Live-some :
      (m : Option (Session K)) → Live m → (s : Session K) × (m ≡ some s) × (s.stop_flag ≡ false)
  Live-some none h = absurd h
  Live-some (some s) h = (s, refl, h)

  Served-append :
      (fds : List ℕ) (fd : ℕ) (clients : Clients K)
      → Served fds clients
      → Live (entry fd clients)
      → Served (fds ++ fd ∷ []) clients
  Served-append [] fd clients h l = (l, tt)
  Served-append (other ∷ fds) fd clients h l = (h.0, Served-append fds fd clients h.1 l)

  pub Served-Among :
      (fd : ℕ) (fds : List ℕ) (clients : Clients K)
      → Among fd fds
      → Served fds clients
      → Live (entry fd clients)
  Served-Among fd [] clients a h = absurd a
  Served-Among fd (other ∷ fds) clients (inl e) h = subst (λ i. Live (entry i clients)) e h.0
  Served-Among fd (other ∷ fds) clients (inr a) h = Served-Among fd fds clients a h.1

  -- A session that goes on.
  Inv-keep :
      (fd : ℕ) (s : Session K) (cnt : ℕ) (e : ServerEpoll K)
      → HasBlock fd s
      → s.stop_flag ≡ false
      → Inv e
      → Inv (record e { clients = store fd (some s) e.clients; file_count = cnt })
  Inv-keep fd s cnt e h l inv = record {
    owned = Owned-store fd s e.clients h inv.owned;
    served = Served-store fd s e.watched e.clients l inv.served;
    ascending = Ascending-store fd (some s) e.clients inv.ascending;
  }

module _ {K : Type 0} (kcp : Kcp K) where
  -- A session that is done.
  Inv-drop :
      (fd : ℕ) (s : Session K) (cnt : ℕ) (e : ServerEpoll K)
      → HasBlock fd s
      → Inv e
      → Inv (unwatch kcp fd (record e { clients = store fd (some s) e.clients; file_count = cnt }))
  unfolding unwatch
  Inv-drop fd s cnt e h inv = record {
    owned = Owned-store fd s e.clients h inv.owned;
    served = Served-remove fd s e.watched e.clients inv.served;
    ascending = Ascending-store fd (some s) e.clients inv.ascending;
  }

  after_reads-Inv :
      (fd : ℕ) (e : ServerEpoll K) (t : (Session K × ℕ) × Bool)
      → Inv e
      → Read Unit fd false t
      → Inv (after_reads kcp fd e t)
  unfolding after_reads
  after_reads-Inv fd e ((s, cnt), true) inv h = Inv-drop fd s cnt e h inv
  after_reads-Inv fd e ((s, cnt), false) inv h = Inv-keep fd s cnt e (h.0, h.1, h.2) h.3 inv

  -- `start_kcp_server` on a fresh session.
  abbrev Started : ℕ → Session K → Type 0
  Started fd s = HasBlock fd s × (s.stop_flag ≡ false)

  start_kcp_server-Started :
      (fd : ℕ) (s_port : ℕ) (s_ip : String) (c_port : ℕ) (c_ip : String) (leftover : Bool)
      → Returns
          (Started fd)
          (start_kcp_server kcp (kcp_handle_client kcp fd s_port s_ip c_port c_ip leftover))
  unfolding start_kcp_server kcp_handle_client
  start_kcp_server-Started fd s_port s_ip c_port c_ip leftover =
      Returns-if (Started fd) (fd == 0) _ _ tt ((_, refl, refl), refl)

  accept-then :
      (fd : ℕ) (e : ServerEpoll K) (o : Outcome (Session K))
      → Inv e
      → Returns (Started fd) o
      → Returns Inv (elim o [
        | aborted ↦ aborted
        | waiting s ↦ waiting e
        | returned s ↦
            returned
              (record e { clients = store fd (some s) e.clients; watched = e.watched ++ fd ∷ [] })
      ])
  accept-then fd e (returned s) inv h =
      let kept = Inv-keep fd s e.file_count e h.0 h.1 inv in
      record {
        owned = kept.owned;
        served =
            Served-append e.watched fd (store fd (some s) e.clients) kept.served
              (subst Live (sym (entry-store-same fd (some s) e.clients)) h.1);
        ascending = kept.ascending;
      }
  accept-then fd e (waiting s) inv h = tt
  accept-then fd e aborted inv h = tt

  pub on_accept-Inv : (a : Accepted) (e : ServerEpoll K) → Inv e → Returns Inv (on_accept kcp a e)
  unfolding on_accept
  on_accept-Inv accept_failed e inv = inv
  on_accept-Inv (connection fd ip port nonblocking added leftover) e inv =
      let shut : Inv (record e { closed = e.closed ++ fd ∷ [] }) = record {
        owned = inv.owned;
        served = inv.served;
        ascending = inv.ascending;
      } in
      Returns-if Inv nonblocking _ _
        (Returns-if Inv added _ _
          (accept-then fd e _ inv
            (start_kcp_server-Started fd e.server_port e.server_ip port ip leftover))
          shut)
        shut

  reads_then :
      (fd : ℕ) (e : ServerEpoll K) (o : Outcome ((Session K × ℕ) × Bool))
      → Inv e
      → Leaves (Read Unit fd false) o
      → Returns Inv (elim o [
        | aborted ↦ aborted
        | waiting t ↦ waiting (after_reads kcp fd e t)
        | returned t ↦ returned (after_reads kcp fd e t)
      ])
  reads_then fd e (returned t) inv h = after_reads-Inv fd e t inv h
  reads_then fd e (waiting t) inv h = tt
  reads_then fd e aborted inv h = tt

  client-cases :
      (fuel fd : ℕ) (hup readable : Bool) (rs : List ReadResult) (e : ServerEpoll K) (s : Session K)
      → entry fd e.clients ≡ some s
      → s.stop_flag ≡ false
      → Inv e
      → Returns Inv (on_client kcp fuel fd hup readable rs e)
  unfolding on_client
  client-cases fuel fd hup readable rs e s found live inv =
      let h = Owned-entry fd e.clients s inv.owned found in
      rw (found, on_client)
        (Returns-if Inv hup _ _ (Inv-drop fd (record s { stop_flag = true }) e.file_count e h inv) (
          Returns-if Inv readable _ _
            (reads_then fd e _ inv (
              read_loop-Read kcp e.m_pid Unit fd false fuel rs (s, e.file_count)
                (h.0, h.1, h.2, live, inl tt)))
            inv))

  pub on_client-Inv :
      (fuel fd : ℕ) (hup readable : Bool) (rs : List ReadResult) (e : ServerEpoll K)
      → Among fd e.watched
      → Inv e
      → Returns Inv (on_client kcp fuel fd hup readable rs e)
  on_client-Inv fuel fd hup readable rs e a inv =
      let live =
        Live-some (entry fd e.clients) (Served-Among fd e.watched e.clients a inv.served) in
      client-cases fuel fd hup readable rs e live.0 live.1 live.2 inv

  swept-then :
      (e : ServerEpoll K) (o : Outcome (Clients K × List ℕ))
      → Inv e
      → SweptFrom [] e.clients e.closed o
      → Returns Inv (elim o [
        | aborted ↦ aborted
        | waiting (clients, closed) ↦ waiting (record e { clients = clients; closed = closed })
        | returned (clients, closed) ↦ returned (record e { clients = clients; closed = closed })
      ])
  swept-then e (returned (clients, closed)) inv h =
      let swept : Swept e.clients clients h.1 = subst (λ c. Swept e.clients c h.1) (sym h.3) h.2 in
      record {
        owned = Swept-Owned swept inv.owned;
        served = Swept-Served e.watched swept inv.served;
        ascending = Swept-Ascending swept inv.ascending;
      }
  swept-then e (waiting (clients, closed)) inv h = tt
  swept-then e aborted inv h = tt

  pub update_kcp-Inv :
      (clock : ℕ) (answers : ℕ → List (List SendResult)) (e : ServerEpoll K)
      → Inv e
      → Returns Inv (update_kcp kcp clock answers e)
  unfolding update_kcp
  update_kcp-Inv clock answers e inv =
      swept-then e _ inv (update_clients-Swept kcp clock answers [] e.clients e.closed inv.owned)
