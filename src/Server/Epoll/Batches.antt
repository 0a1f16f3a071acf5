-- ===== src/Server/Epoll/Batches.antt =====
-- The loop of `startEpoll` over the events that `epoll_wait` reports (code/kcp/server_epoll.cc).
use kcp_fake_tcp.Base.{
  ℕ, ◌≡◌, ◌⊎◌, ◌≢◌, ◌∙◌, inl, inr, refl, sym, subst, String, List, [], ◌∷◌, false, Bool-cases, ◌==◌,
  arith,
}
use kcp_fake_tcp.Kcp.{Kcp}
use kcp_fake_tcp.Client.Outcome.{
  returned, ◌>>=◌, Returns, Returns-both, Returns-self, Returns-map, Returns-bind,
}
use kcp_fake_tcp.Server.Epoll.{
  ServerEpoll, entry, on_accept, on_client, update_kcp, server_epoll, create_thread,
}
use kcp_fake_tcp.Server.Epoll.Order.{Among}
use kcp_fake_tcp.Server.Epoll.Start.{
  UpdateRound, Event, EpollAnswer, wait_failed, ready, run_updates, handle_event, handle_events,
  epoll_loop, start_epoll,
}
use kcp_fake_tcp.Server.Epoll.Reach.{accepting, serving, updating, Reach, started, next}
use kcp_fake_tcp.Server.Epoll.Watches.{Keeps, on_accept-Keeps, client-Keeps, swept-watched}

-- No event is of the descriptor `fd`.
abbrev pub Apart : ℕ → List Event → Type 0
Apart fd [] = Unit
Apart fd (ev ∷ evs) = (ev.fd ≢ fd) × Apart fd evs

-- The events are of different descriptors, each the listening socket or a watched connection.
abbrev pub Reported : ℕ → List ℕ → List Event → Type 0
Reported listen_sock watched [] = Unit
Reported listen_sock watched (ev ∷ evs) =
    ((ev.fd ≡ listen_sock) ⊎ Among ev.fd watched)
    × Apart ev.fd evs
    × Reported listen_sock watched evs

watched_event :
    (ev : Event) (listen_sock : ℕ) (watched : List ℕ)
    → (ev.fd ≡ listen_sock) ⊎ Among ev.fd watched
    → (ev.fd == listen_sock) ≡ false
    → Among ev.fd watched
watched_event ev listen_sock watched (inl e) there = absurd (ground arith)
watched_event ev listen_sock watched (inr a) there = a

-- What was reported holds on when only `fd`, which no later event is of, may not be watched.
Reported-Keeps :
    (listen_sock fd : ℕ) (watched watched' : List ℕ) (evs : List Event)
    → ((other : ℕ) → other ≢ fd → Among other watched → Among other watched')
    → Apart fd evs
    → Reported listen_sock watched evs
    → Reported listen_sock watched' evs
Reported-Keeps listen_sock fd watched watched' [] k d w = tt
Reported-Keeps listen_sock fd watched watched' (ev ∷ evs) k d (inl e, apart, w) =
    (inl e, apart, Reported-Keeps listen_sock fd watched watched' evs k d.1 w)
Reported-Keeps listen_sock fd watched watched' (ev ∷ evs) k d (inr a, apart, w) =
    (inr (k ev.fd d.0 a), apart, Reported-Keeps listen_sock fd watched watched' evs k d.1 w)

module _ {K : Type 0} (kcp : Kcp K) where
  -- A state that is reached, with the same descriptors watched.
  abbrev Same : ServerEpoll K → ServerEpoll K → Type 0
  Same e e' = Reach kcp e' × (e'.watched ≡ e.watched)

  run_updates-Same :
      (fuel listen_sock : ℕ) (updates : List UpdateRound) (e : ServerEpoll K)
      → Reach kcp e
      → Returns (Same e) (run_updates kcp fuel listen_sock updates e)
  unfolding run_updates update_kcp
  run_updates-Same fuel listen_sock [] e r = (r, refl)
  run_updates-Same fuel listen_sock ((clock, answers) ∷ updates) e r =
      Returns-bind _ (Same e) (update_kcp kcp clock answers e) _
        (Returns-both _ _ _ (Returns-self _) (swept-watched kcp e _))
        (λ e' h.
          Returns-map (Same e') (Same e) _ (λ e'' g. (g.0, g.1 ∙ h.1))
            (run_updates-Same fuel listen_sock updates e' (next r (updating clock answers h.0))))

  handle_event-Reach :
      (fuel listen_sock : ℕ) (ev : Event) (e : ServerEpoll K)
      → Reach kcp e
      → (ev.fd ≡ listen_sock) ⊎ Among ev.fd e.watched
      → Returns (λ e'. Reach kcp e' × Keeps ev.fd e e') (handle_event kcp fuel listen_sock ev e)
  unfolding handle_event
  handle_event-Reach fuel listen_sock ev e r w = elim (Bool-cases (ev.fd == listen_sock)) [
    | inl here ↦ rw here (
        Returns-map _ (λ e'. Reach kcp e' × Keeps ev.fd e e') (on_accept kcp ev.accepted e)
          (λ e' h. (next r (accepting ev.accepted h.0), h.1))
          (Returns-both _ _ _ (Returns-self _) (on_accept-Keeps kcp ev.fd ev.accepted e)))
    | inr there ↦
        let a : Among ev.fd e.watched = watched_event ev listen_sock e.watched w there in
        rw there (
          Returns-map _ (λ e'. Reach kcp e' × Keeps ev.fd e e')
            (on_client kcp fuel ev.fd ev.hup ev.readable ev.reads e)
            (λ e' h. (next r (serving fuel ev.fd ev.hup ev.readable ev.reads a h.0), h.1))
            (Returns-both _ _ _ (Returns-self _) (
              client-Keeps kcp fuel ev.fd ev.hup ev.readable ev.reads e (entry ev.fd e.clients)
                refl)))
  ]

  -- The events that `epoll_wait` reports at once, when they are of different descriptors, each the
  -- listening socket or a connection that was watched at the time of the call: if the server has
  -- worked through them, with any rounds of `updateKcp` before each, then by events and rounds that
  -- are steps, so that each of them has found its connection watched still.
  pub handle_events-Reach :
      (fuel listen_sock : ℕ) (evs : List Event) (e : ServerEpoll K)
      → Reach kcp e
      → Reported listen_sock e.watched evs
      → Returns (Reach kcp) (handle_events kcp fuel listen_sock evs e)
  unfolding handle_events
  handle_events-Reach fuel listen_sock [] e r w = r
  handle_events-Reach fuel listen_sock (ev ∷ evs) e r w =
      Returns-bind _ (Reach kcp)
        (run_updates kcp fuel listen_sock ev.updates e >>= handle_event kcp fuel listen_sock ev) _
        (Returns-bind (Same e) (λ e'. Reach kcp e' × Keeps ev.fd e e') _ _
          (run_updates-Same fuel listen_sock ev.updates e r)
          (λ e' h.
            subst
              (λ fds.
                Returns
                  (λ e''.
                    Reach kcp e''
                    × ((other : ℕ) → other ≢ ev.fd → Among other fds → Among other e''.watched))
                  (handle_event kcp fuel listen_sock ev e'))
              h.1
              (handle_event-Reach fuel listen_sock ev e' h.0
                (subst (λ fds. (ev.fd ≡ listen_sock) ⊎ Among ev.fd fds) (sym h.1) w.0))))
        (λ e' h.
          handle_events-Reach fuel listen_sock evs e' h.0
            (Reported-Keeps listen_sock ev.fd e.watched e'.watched evs h.1 w.1 w.2))

  -- Every answer of `epoll_wait` reports such events.
  abbrev pub Reports : ℕ → ℕ → List EpollAnswer → ServerEpoll K → Type 0
  Reports fuel listen_sock [] e = Unit
  Reports fuel listen_sock (wait_failed ∷ waits) e = Unit
  Reports fuel listen_sock (ready evs ∷ waits) e =
      Reported listen_sock e.watched evs
      × ((e' : ServerEpoll K)
          → handle_events kcp fuel listen_sock evs e ≡ returned e'
          → Reports fuel listen_sock waits e')

  epoll_loop-Reach :
      (fuel listen_sock : ℕ) (waits : List EpollAnswer) (e : ServerEpoll K)
      → Reach kcp e
      → Reports fuel listen_sock waits e
      → Returns (Reach kcp) (epoll_loop kcp fuel listen_sock waits e)
  unfolding epoll_loop
  epoll_loop-Reach fuel listen_sock [] e r w = tt
  epoll_loop-Reach fuel listen_sock (wait_failed ∷ waits) e r w = r
  epoll_loop-Reach fuel listen_sock (ready evs ∷ waits) e r w =
      Returns-bind _ (Reach kcp) (handle_events kcp fuel listen_sock evs e) _
        (Returns-both _ _ _ (Returns-self _) (handle_events-Reach fuel listen_sock evs e r w.0))
        (λ e' h. epoll_loop-Reach fuel listen_sock waits e' h.1 (w.1 e' h.0))

  -- When every answer of `epoll_wait` reports events of different descriptors, each the listening
  -- socket or a connection that is watched at the time of the answer, then `startEpoll` goes from
  -- the constructed server by such steps only: if it returns, it does so in a state that a server
  -- comes into by steps on connections that are watched.
  pub start_epoll-Reach :
      (fuel listen_sock : ℕ) (waits : List EpollAnswer) (pid : ℕ) (ip : String) (port : ℕ)
      → Reports fuel listen_sock waits (create_thread (server_epoll pid ip port))
      → Returns (Reach kcp) (start_epoll kcp fuel listen_sock waits (server_epoll pid ip port))
  unfolding start_epoll
  start_epoll-Reach fuel listen_sock waits pid ip port w =
      epoll_loop-Reach fuel listen_sock waits (create_thread (server_epoll pid ip port))
        (started pid ip port) w
