-- ===== src/Server/Epoll/Watches.antt =====
-- What the events of `startEpoll` and the rounds of `updateKcp` leave watched (code/kcp/server_epoll.cc).
use kcp_fake_tcp.Base.{
  ℕ, ◌≡◌, ◌≢◌, ◌∙◌, inl, inr, refl, sym, List, [], ◌∷◌, ◌++◌, Bool, true, false, Bool-cases, ◌==◌,
  ==_iff, Option, none, some,
}
use kcp_fake_tcp.Kcp.{Kcp}
use kcp_fake_tcp.Client.Outcome.{Outcome, returned, waiting, aborted, Returns, Returns-if}
use kcp_fake_tcp.Server.Session.{Session}
use kcp_fake_tcp.Server.Epoll.{
  Clients, ServerEpoll, Accepted, accept_failed, connection, ReadResult, read_failed, got, entry,
  store, remove, unwatch, on_accept, null_read, after_reads, on_client,
}
use kcp_fake_tcp.Server.Epoll.Order.{Among}

-- What is watched is watched still, but for `fd`.
abbrev pub Keeps : {K : Type 0} → ℕ → ServerEpoll K → ServerEpoll K → Type 0
Keeps fd e e' = (other : ℕ) → other ≢ fd → Among other e.watched → Among other e'.watched

Among-append : (other : ℕ) (fds more : List ℕ) → Among other fds → Among other (fds ++ more)
Among-append other [] more a = absurd a
Among-append other (fd ∷ fds) more (inl e) = inl e
Among-append other (fd ∷ fds) more (inr a) = inr (Among-append other fds more a)

Among-remove :
    (other fd : ℕ) (fds : List ℕ) → other ≢ fd → Among other fds → Among other (remove fd fds)
unfolding remove
Among-remove other fd [] d a = absurd a
Among-remove other fd (key ∷ fds) d (inl e) =
    let differs : (key == fd) ≡ false = elim (Bool-cases (key == fd)) [
      | inl same ↦ absurd (d (sym e ∙ (==_iff key fd).0 same))
      | inr there ↦ there
    ] in
    rw differs (inl e)
Among-remove other fd (key ∷ fds) d (inr a) =
    let later = Among-remove other fd fds d a in
    elim (Bool-cases (key == fd)) [ inl here ↦ rw here later | inr there ↦ rw there (inr later) ]

module _ {K : Type 0} (kcp : Kcp K) where
  Keeps-unwatch :
      (fd : ℕ) (e : ServerEpoll K) (clients : Clients K) (cnt : ℕ)
      → Keeps fd e (unwatch kcp fd (record e { clients = clients; file_count = cnt }))
  unfolding unwatch
  Keeps-unwatch fd e clients cnt = λ other d a. Among-remove other fd e.watched d a

  accept-Keeps :
      (fd fd' : ℕ) (e : ServerEpoll K) (o : Outcome (Session K))
      → Returns (Keeps fd e) (elim o [
        | aborted ↦ aborted
        | waiting s ↦ waiting e
        | returned s ↦
            returned
              (record e { clients = store fd' (some s) e.clients; watched = e.watched ++ fd' ∷ [] })
      ])
  accept-Keeps fd fd' e (returned s) = λ other d a. Among-append other e.watched (fd' ∷ []) a
  accept-Keeps fd fd' e (waiting s) = tt
  accept-Keeps fd fd' e aborted = tt

  pub on_accept-Keeps :
      (fd : ℕ) (a : Accepted) (e : ServerEpoll K) → Returns (Keeps fd e) (on_accept kcp a e)
  unfolding on_accept
  on_accept-Keeps fd accept_failed e = λ other d h. h
  on_accept-Keeps fd (connection fd' ip port nonblocking added leftover) e =
      Returns-if (Keeps fd e) nonblocking _ _
        (Returns-if (Keeps fd e) added _ _ (accept-Keeps fd fd' e _) (λ other d h. h))
        (λ other d h. h)

  null_read-Keeps :
      (fd : ℕ) (rs : List ReadResult) (e : ServerEpoll K) (clients : Clients K)
      → Returns (Keeps fd e) (null_read kcp rs (record e { clients = clients }))
  unfolding null_read
  null_read-Keeps fd [] e clients = tt
  null_read-Keeps fd (read_failed ∷ rs) e clients = λ other d h. h
  null_read-Keeps fd (got bytes taken ∷ rs) e clients = tt

  read-Keeps :
      (fd : ℕ) (e : ServerEpoll K) (o : Outcome ((Session K × ℕ) × Bool))
      → Returns (Keeps fd e) (elim o [
        | aborted ↦ aborted
        | waiting t ↦ waiting (after_reads kcp fd e t)
        | returned t ↦ returned (after_reads kcp fd e t)
      ])
  unfolding after_reads
  read-Keeps fd e (returned ((s, cnt), true)) = Keeps-unwatch fd e (store fd (some s) e.clients) cnt
  read-Keeps fd e (returned ((s, cnt), false)) = λ other d h. h
  read-Keeps fd e (waiting t) = tt
  read-Keeps fd e aborted = tt

  pub client-Keeps :
      (fuel fd : ℕ) (hup readable : Bool) (rs : List ReadResult) (e : ServerEpoll K)
      (m : Option (Session K))
      → entry fd e.clients ≡ m
      → Returns (Keeps fd e) (on_client kcp fuel fd hup readable rs e)
  unfolding on_client
  client-Keeps fuel fd hup readable rs e none found =
      rw (found, on_client)
        (Returns-if (Keeps fd e) hup _ _ tt (
          Returns-if (Keeps fd e) readable _ _ (null_read-Keeps fd rs e (store fd none e.clients))
            (λ other d h. h)))
  client-Keeps fuel fd hup readable rs e (some s) found =
      rw (found, on_client)
        (Returns-if (Keeps fd e) hup _ _
          (Keeps-unwatch fd e (store fd (some (record s { stop_flag = true })) e.clients)
            e.file_count)
          (Returns-if (Keeps fd e) readable _ _ (read-Keeps fd e _) (λ other d h. h)))

  pub swept-watched :
      (e : ServerEpoll K) (o : Outcome (Clients K × List ℕ))
      → Returns
          (λ e'. e'.watched ≡ e.watched)
          (elim o [
            | aborted ↦ aborted
            | waiting (clients, closed) ↦ waiting (record e { clients = clients; closed = closed })
            | returned (clients, closed) ↦
                returned (record e { clients = clients; closed = closed })
          ])
  swept-watched e (returned (clients, closed)) = refl
  swept-watched e (waiting (clients, closed)) = tt
  swept-watched e aborted = tt
