-- ===== src/Server/Receive/Whole.antt =====
-- A whole file through the loop over `ikcp_recv` in `startEpoll` (code/kcp/server_epoll.cc).
use kcp_fake_tcp.Base.{
  ℕ, ◌+◌, ◌<◌, ◌≤◌, ◌≡◌, ◌∙◌, refl, sym, subst, ap, List, [], ◌∷◌, ◌++◌, false, some, length,
  flatten, arith,
}
use kcp_fake_tcp.Kcp.{Kcp, Queues, Fit}
use kcp_fake_tcp.Client.Outcome.{Outcome, returned}
use kcp_fake_tcp.Client.File.{file_header}
use kcp_fake_tcp.Server.Session.{Session}
use kcp_fake_tcp.Server.Receive.{send_finish, path_for, drain}
use kcp_fake_tcp.Server.Receive.Laws.{NonEmpty, finished, on_messages-file, length-file_header}
use kcp_fake_tcp.Server.Receive.Inbox.{Agrees, drain-on_messages}

module _ {K : Type 0} (kcp : Kcp K) (pid : ℕ) (inbox outbox : K → List (List ℕ))
    (queues : Queues kcp inbox outbox) where
  Fit-NonEmpty : (limit : ℕ) (ms : List (List ℕ)) → Fit limit ms → NonEmpty ms
  Fit-NonEmpty limit [] f = tt
  Fit-NonEmpty limit (m ∷ ms) f = (f.0, Fit-NonEmpty limit ms f.2)

  -- The session that has the whole file, with a block that may have changed since.
  abbrev pub received : Session K → K → List ℕ → Session K
  received s k bytes = record (finished kcp pid s k bytes) { m_kcp = some k }

  finished-Agrees :
      (s : Session K) (k : K) (bytes : List ℕ) (cnt : ℕ) (o : Outcome (Session K × ℕ))
      → Agrees kcp pid inbox outbox queues (returned (finished kcp pid s k bytes, cnt)) o
      → (k' : K) × (o ≡ returned (received s k' bytes, cnt))
        × (inbox k' ≡ [])
        × (outbox k' ≡ outbox k ++ send_finish ∷ [])
  finished-Agrees s k bytes cnt o (k', k1, block, result, left, sent) =
      let same : kcp.send send_finish k ≡ k1 = cc block in
      (k', result, left, sent ∙ (ap outbox (sym same) ∙ queues.send_out send_finish k))

  -- The loop over `ikcp_recv` in a session that has received nothing yet, when KCP holds the
  -- messages of one file: the header of a name of at most 132 bytes, and the file's pieces, at
  -- least one and none of them empty, none longer than the loop asks for. With a round for each
  -- message and one more the loop returns: the file has the bytes of the pieces in their order, is
  -- closed and counted, nothing is left to receive, and "send_finish" is to be sent, once.
  pub drain-file :
      (fuel limit : ℕ) (k : K) (s : Session K) (cnt : ℕ) (name m : List ℕ) (ms : List (List ℕ))
      → inbox k ≡ file_header name (length (flatten (m ∷ ms))) ∷ m ∷ ms
      → s.read_file ≡ false
      → s.file_sended ≡ 0
      → length name ≤ 132
      → 136 ≤ limit
      → Fit limit (m ∷ ms)
      → length (flatten (m ∷ ms)) < 4294967296
      → length ms + 2 < fuel
      → (k' : K) × (drain kcp pid fuel limit k (s, cnt)
          ≡ returned
              (received (record s { file_path = path_for pid cnt }) k' (flatten (m ∷ ms)), cnt + 1))
        × (inbox k' ≡ [])
        × (outbox k' ≡ outbox k ++ send_finish ∷ [])
  drain-file fuel limit k s cnt name m ms e hr hs hn hl f w hf =
      let content = flatten (m ∷ ms) in
      let header = file_header name (length content) in
      let sized = length-file_header name (length content) hn in
      let fits : Fit limit (header ∷ m ∷ ms) = (omega (arith, sized), omega (arith, sized), f) in
      finished-Agrees (record s { file_path = path_for pid cnt }) k content (cnt + 1)
        (drain kcp pid fuel limit k (s, cnt))
        (subst (λ o. Agrees kcp pid inbox outbox queues o (drain kcp pid fuel limit k (s, cnt)))
          (on_messages-file kcp pid (record s { m_kcp = some k }) k cnt name m ms refl hr hs hn
            (Fit-NonEmpty limit ms f.2) w)
          (drain-on_messages kcp pid inbox outbox queues fuel limit (header ∷ m ∷ ms) k k s cnt fits
            (omega arith) e refl))
