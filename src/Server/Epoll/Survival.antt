-- ===== src/Server/Epoll/Survival.antt =====
-- What can still end the process in `startEpoll` (code/kcp/server_epoll.cc).
use kcp_fake_tcp.Base.{ℕ, ◌≡◌, subst, List, Bool, true, false, some, inr}
use kcp_fake_tcp.Kcp.{Kcp}
use kcp_fake_tcp.Client.Outcome.{Outcome, returned, waiting, aborted, Ends, Ends-if, Survives}
use kcp_fake_tcp.Server.Session.{Session}
use kcp_fake_tcp.Server.Epoll.{ServerEpoll, ReadResult, entry, after_reads, on_client}
use kcp_fake_tcp.Server.Epoll.Order.{Among}
use kcp_fake_tcp.Server.Epoll.Reads.{Read, read_loop-Read}
use kcp_fake_tcp.Server.Epoll.Invariant.{Live, Owned-entry}
use kcp_fake_tcp.Server.Epoll.Steps.{Served-Among}
use kcp_fake_tcp.Server.Epoll.Reach.{Reach, Reach-Inv}

-- The process goes on.
abbrev pub GoesOn : {A : Type 0} → Outcome A → Type 0
GoesOn o = Survives (λ a. Unit) o

module _ {K : Type 0} (kcp : Kcp K) where
  reads-GoesOn :
      (fd : ℕ) (e : ServerEpoll K) (o : Outcome ((Session K × ℕ) × Bool))
      → Ends ⊥ (Read ⊥ fd false) o
      → GoesOn (elim o [
        | aborted ↦ aborted
        | waiting t ↦ waiting (after_reads kcp fd e t)
        | returned t ↦ returned (after_reads kcp fd e t)
      ])
  reads-GoesOn fd e (returned t) h = tt
  reads-GoesOn fd e (waiting t) h = tt
  reads-GoesOn fd e aborted h = h

  -- In every state that a server comes into, no event of a watched connection whose session has its
  -- header, whatever is read and whatever messages KCP makes of it, ends the process in an `assert`
  -- or through a null pointer.
  pub Reach-GoesOn :
      {e : ServerEpoll K} (fuel fd : ℕ) (hup readable : Bool) (rs : List ReadResult) (s : Session K)
      → Reach kcp e
      → Among fd e.watched
      → entry fd e.clients ≡ some s
      → s.read_file ≡ true
      → GoesOn (on_client kcp fuel fd hup readable rs e)
  unfolding on_client
  Reach-GoesOn {e} fuel fd hup readable rs s r a found header =
      let inv = Reach-Inv r in
      let live = subst Live found (Served-Among fd e.watched e.clients a inv.served) in
      let block = Owned-entry fd e.clients s inv.owned found in
      rw (found, on_client)
        (Ends-if ⊥ (λ e'. Unit) hup _ _ (λ up. tt)
          (λ down.
            Ends-if ⊥ (λ e'. Unit) readable _ _
              (λ bytes. reads-GoesOn fd e _ (
                read_loop-Read kcp e.m_pid ⊥ fd false fuel rs (s, e.file_count)
                  (block.0, block.1, block.2, live, inr header)))
              (λ quiet. tt)))
