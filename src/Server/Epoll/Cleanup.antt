-- ===== src/Server/Epoll/Cleanup.antt =====
-- What the set-up of `startEpoll` and the destructor of `ServerEpoll` do with the descriptors
-- (code/kcp/server_epoll.cc).
use kcp_fake_tcp.Base.{
  ℕ, ◌≡◌, refl, ap, List, [], ◌∷◌, ◌++◌, Bool, Bool-cases, inl, inr, true, false, ◌==◌, Option,
  none, some, map, arith,
}
use kcp_fake_tcp.Kcp.{Kcp}
use kcp_fake_tcp.Sockets.{Call, socket, epoll_create, close}
use kcp_fake_tcp.Server.Session
use kcp_fake_tcp.Server.Epoll.{Clients, ServerEpoll, remove}
use kcp_fake_tcp.Server.Epoll.Start.{Setup, done, start_watching, close_sessions, destroy}
use kcp_fake_tcp.Server.Epoll.Round.{Owned}
use kcp_fake_tcp.Server.Epoll.Reach.{Reach, Reach-Inv}

-- The descriptors that are open after some calls.
abbrev pub open_after : List Call → List ℕ → List ℕ
open_after [] opened = opened
open_after (socket kind (some fd) ∷ calls) opened = open_after calls (fd ∷ opened)
open_after (epoll_create (some fd) ∷ calls) opened = open_after calls (fd ∷ opened)
open_after (close fd ∷ calls) opened = open_after calls (remove fd opened)
open_after (_ ∷ calls) opened = open_after calls opened

-- What is to be open behind the set-up.
abbrev pub to_be_open : ℕ → Option ℕ → Setup → List ℕ
to_be_open listen_sock (some epoll_fd) done = epoll_fd ∷ listen_sock ∷ []
to_be_open listen_sock _ _ = []

-- The set-up of `startEpoll`, which begins with the listening socket open, leaves it and the epoll
-- instance open if it goes on, and nothing open if it ends the process, on all answers of the
-- system.
pub start_watching-open :
    (listen_sock : ℕ) (epoll_fd : Option ℕ) (added : Bool)
    → open_after (start_watching listen_sock epoll_fd added).1 (listen_sock ∷ [])
      ≡ to_be_open listen_sock epoll_fd (start_watching listen_sock epoll_fd added).0
unfolding start_watching remove
start_watching-open listen_sock none added =
    let same : (listen_sock == listen_sock) ≡ true = ground arith in rw same refl
start_watching-open listen_sock (some epoll_fd) true = refl
start_watching-open listen_sock (some epoll_fd) false =
    let same : (listen_sock == listen_sock) ≡ true = ground arith in
    let same_epoll : (epoll_fd == epoll_fd) ≡ true = ground arith in
    elim (Bool-cases (epoll_fd == listen_sock)) [
      | inl here ↦ rw (here, same) refl
      | inr there ↦ rw (there, same, same_epoll) refl
    ]

module _ {K : Type 0} where
  close_sessions-Owned :
      (clients : Clients K) → Owned clients → close_sessions clients ≡ map (λ c. c.0) clients
  unfolding close_sessions Session.close
  close_sessions-Owned [] o = refl
  close_sessions-Owned ((key, none) ∷ rest) o = absurd o
  close_sessions-Owned ((key, some s) ∷ rest) o =
      rw (o.0.1, o.0.2, close_sessions-Owned rest o.1) refl

  -- In every state that a server comes into, the destructor closes the descriptor of each session
  -- of the map twice, once itself and once through the session's `Close`, and then the listening
  -- socket.
  pub destroy-twice :
      {kcp : Kcp K} {e : ServerEpoll K} (listen_sock : ℕ)
      → Reach kcp e
      → destroy listen_sock e.clients
        ≡ map (λ c. c.0) e.clients ++ (map (λ c. c.0) e.clients ++ listen_sock ∷ [])
  unfolding destroy
  destroy-twice {e = e} listen_sock r =
      ap (λ fds. map (λ c. c.0) e.clients ++ (fds ++ listen_sock ∷ []))
        (close_sessions-Owned e.clients (Reach-Inv r).owned)
