-- ===== src/Server/Epoll/Ends.antt =====
-- The loops of one event of `startEpoll` (code/kcp/server_epoll.cc), and the end of them.
use kcp_fake_tcp.Base.{
  ℕ, ◌<◌, List, [], ◌∷◌, ◌++◌, Bool, true, false, Option, none, some, take, length, if◌then◌else◌,
}
use kcp_fake_tcp.Kcp.{Kcp, Drains}
use kcp_fake_tcp.Client.Outcome.{Outcome, returned, waiting, aborted}
use kcp_fake_tcp.Server.Session.{Session}
use kcp_fake_tcp.Server.Receive.{send_finish, drain}
use kcp_fake_tcp.Server.Receive.Drain.{Ended, drain-Ended}
use kcp_fake_tcp.Server.Epoll.{
  ServerEpoll, ReadResult, read_failed, got, entry, store, read_loop, null_read, unwatch,
  after_reads, on_client,
}

-- The answers of `read` are complete: one of them is an error, as when there is nothing more to
-- read, or the end of the stream.
abbrev pub Complete : List ReadResult → Type 0
Complete [] = ⊥
Complete (read_failed ∷ rs) = Unit
Complete (got [] taken ∷ rs) = Unit
Complete (got (b ∷ bs) taken ∷ rs) = Complete rs

Ended-then :
    {A B : Type 0} (w : A → B) (f : A → Outcome B) (o : Outcome A)
    → Ended o
    → ((a : A) → Ended (f a))
    → Ended (elim o [ aborted ↦ aborted | waiting a ↦ waiting (w a) | returned a ↦ f a ])
Ended-then w f (returned a) h k = k a
Ended-then w f (waiting a) h k = h
Ended-then w f aborted h k = tt

Ended-if :
    {A : Type 0} (b : Bool) (x y : Outcome A) → Ended x → Ended y → Ended (if b then x else y)
Ended-if true x y h k = h
Ended-if false x y h k = k

module _ {K : Type 0} (kcp : Kcp K) (pending : K → ℕ) (drains : Drains kcp pending) (fuel : ℕ)
    (enough : (k : K) → pending k < fuel) where
  read_loop-Ended :
      (pid : ℕ) (rs : List ReadResult) (s : Session K) (cnt : ℕ)
      → Complete rs
      → Ended (read_loop kcp pid fuel rs (s, cnt))
  unfolding read_loop
  read_loop-Ended pid [] s cnt c = c
  read_loop-Ended pid (read_failed ∷ rs) s cnt c = tt
  read_loop-Ended pid (got [] taken ∷ rs) s cnt c = tt
  read_loop-Ended pid (got (b ∷ bs) taken ∷ rs) s cnt c =
      held s.m_kcp (λ s cnt. read_loop-Ended pid rs s cnt c)
    where
      bytes : List ℕ
      bytes = take 2048 (b ∷ bs)

      answered :
          (accepted : Bool) (k' : K)
          → ((s : Session K) (cnt : ℕ) → Ended (read_loop kcp pid fuel rs (s, cnt)))
          → Ended (elim accepted [
            | false ↦
                read_loop kcp pid fuel rs
                  (record s { m_kcp = some k'; wire = s.wire ++ take taken send_finish ∷ [] }, cnt)
            | true ↦
                elim (drain kcp pid fuel (length bytes) k' (record s { m_kcp = some k' }, cnt)) [
                  | aborted ↦ aborted
                  | waiting t ↦ waiting (t, false)
                  | returned t ↦ read_loop kcp pid fuel rs t
                ]
          ])
      answered false k' ih = ih _ cnt
      answered true k' ih =
          Ended-then (λ t. (t, false)) (read_loop kcp pid fuel rs) _
            (drain-Ended kcp pid pending drains fuel (length bytes) k' _ cnt (enough k'))
            (λ t. ih t.0 t.1)

      held :
          (m : Option K)
          → ((s : Session K) (cnt : ℕ) → Ended (read_loop kcp pid fuel rs (s, cnt)))
          → Ended (elim m [
            | none ↦ aborted
            | some k ↦
                let (k', accepted) = kcp.input (some bytes) k in
                elim accepted [
                  | false ↦ read_loop kcp pid fuel rs (
                    record s { m_kcp = some k'; wire = s.wire ++ take taken send_finish ∷ [] },
                    cnt,
                  )
                  | true ↦
                      elim (drain kcp pid fuel
                        (length bytes)
                        k'
                        (record s { m_kcp = some k' }, cnt)) [
                          | aborted ↦ aborted
                          | waiting t ↦ waiting (t, false)
                          | returned t ↦ read_loop kcp pid fuel rs t
                        ]
                ]
          ])
      held none ih = tt
      held (some k) ih = let (k', accepted) = kcp.input (some bytes) k in answered accepted k' ih

  null_read-Ended :
      (rs : List ReadResult) (e : ServerEpoll K) → Complete rs → Ended (null_read kcp rs e)
  unfolding null_read
  null_read-Ended [] e c = c
  null_read-Ended (read_failed ∷ rs) e c = tt
  null_read-Ended (got bytes taken ∷ rs) e c = tt

  -- When each reception takes a message out of a queue of KCP, `ikcp_send` puts none in, and the
  -- queue never holds as many messages as a loop over `ikcp_recv` has rounds: an event of a
  -- connection, whatever it is and in whatever state of the server, is dealt with to the end, or an
  -- `assert` or a null pointer has ended the process, if `read` comes to an error or to the end of
  -- the stream.
  pub on_client-Ended :
      (fd : ℕ) (hup readable : Bool) (rs : List ReadResult) (e : ServerEpoll K)
      → Complete rs
      → Ended (on_client kcp fuel fd hup readable rs e)
  unfolding on_client
  on_client-Ended fd hup readable rs e c = found (entry fd e.clients)
    where
      found :
          (m : Option (Session K))
          → Ended (elim m [
            | none ↦
                let e' = record e { clients = store fd none e.clients } in
                if hup then aborted else if readable then null_read kcp rs e' else returned e'
            | some s ↦
                if hup
                then returned (
                    unwatch kcp fd (record e {
                      clients = store fd (some (record s { stop_flag = true })) e.clients;
                    }))
                else if readable
                then elim (read_loop kcp e.m_pid fuel rs (s, e.file_count)) [
                  | aborted ↦ aborted
                  | waiting t ↦ waiting (after_reads kcp fd e t)
                  | returned t ↦ returned (after_reads kcp fd e t)
                ]
                else returned e
          ])
      found none = Ended-if hup _ _ tt (Ended-if readable _ _ (null_read-Ended rs _ c) tt)
      found (some s) = Ended-if hup _ _ tt (
          Ended-if readable _ _
            (Ended-then (after_reads kcp fd e) (λ t. returned (after_reads kcp fd e t)) _
              (read_loop-Ended e.m_pid rs s e.file_count c) (λ t. tt))
            tt)
