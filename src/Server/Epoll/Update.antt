-- ===== src/Server/Epoll/Update.antt =====
-- A round of `updateKcp` on one session (code/kcp/server_epoll.cc, code/kcp/kcp_server.cc).
use mathlib.Core.List.{append_assoc, append-nil}
use kcp_fake_tcp.Base.{
  ℕ, ◌+◌, ◌≡◌, ◌∙◌, refl, sym, ap, List, [], ◌∷◌, ◌++◌, Option, some, take, length, ltb,
}
use kcp_fake_tcp.Kcp.{Kcp}
use kcp_fake_tcp.Client.Outcome.{
  Outcome, returned, waiting, aborted, Survives, Survives-if, Survives-map,
}
use kcp_fake_tcp.Client.Output.{chunk_len}
use kcp_fake_tcp.Server.Session.{Session}
use kcp_fake_tcp.Server.Output.{SendResult, error, took, offered, server_loop, tcp_server_send_cb}
use kcp_fake_tcp.Server.Epoll.{emit, update_session}

-- The kernel has taken more texts, and nothing else has changed.
abbrev pub Appended : {K : Type 0} → Session K → Session K → Type 0
Appended s s' = (texts : List (List ℕ)) × (s' ≡ record s { wire = s.wire ++ texts })

-- So it is, but for the control block.
abbrev pub Updated : {K : Type 0} → Session K → Session K → Type 0
Updated {K} s s' =
    (k : K) × (texts : List (List ℕ)) × (s' ≡ record s { m_kcp = some k; wire = s.wire ++ texts })

Appended-refl : {K : Type 0} (s : Session K) → Appended s s
Appended-refl s = ([], ap (λ w. record s { wire = w }) (sym (append-nil s.wire)))

Appended-trans :
    {K : Type 0} (s s' s'' : Session K) → Appended s s' → Appended s' s'' → Appended s s''
Appended-trans {K} s s' s'' (texts, e) (more, f) = (
  texts ++ more,
  f
      ∙ ap {A = Session K} {B = Session K} (λ x. record x { wire = x.wire ++ more }) e
      ∙ ap {A = List (List ℕ)} {B = Session K} (λ w. record s { wire = w })
          (append_assoc s.wire texts more),
)

module _ {K : Type 0} (buffer : List ℕ) (len : ℕ) where
  server_loop-Appended :
      (rs : List SendResult) (sended : ℕ) (s : Session K)
      → Survives (λ t. Appended s t.0) (server_loop buffer len rs sended s)
  unfolding server_loop
  server_loop-Appended [] sended s =
      Survives-if (λ t. Appended s t.0) (ltb sended len) _ _ (Appended-refl s) (Appended-refl s)
  server_loop-Appended (error ∷ rs) sended s =
      Survives-if (λ t. Appended s t.0) (ltb sended len) _ _ (Appended-refl s) (Appended-refl s)
  server_loop-Appended (took n ∷ rs) sended s =
      let text : List ℕ = take n (offered buffer len sended) in
      let s' = record s { wire = s.wire ++ text ∷ [] } in
      Survives-if (λ t. Appended s t.0) (ltb sended len) _ _
        (Survives-map (λ t. Appended s' t.0) (λ t. Appended s t.0) _
          (λ t h. Appended-trans s s' t.0 (text ∷ [], refl) h)
          (server_loop-Appended rs (sended + chunk_len len sended) s'))
        (Appended-refl s)

module _ {K : Type 0} (kcp : Kcp K) where
  emit-then :
      (buffers : List (List ℕ)) (answers : List (List SendResult)) (s : Session K)
      (o : Outcome (Session K × Option ℕ))
      → Survives (λ t. Appended s t.0) o
      → ((s' : Session K) → Survives (Appended s') (emit kcp buffers answers s'))
      → Survives (Appended s) (elim o [
        | aborted ↦ aborted
        | waiting t ↦ waiting t.0
        | returned t ↦ emit kcp buffers answers t.0
      ])
  emit-then buffers answers s (returned t) h rest =
      Survives-map (Appended t.0) (Appended s) _ (λ s' g. Appended-trans s t.0 s' h g) (rest t.0)
  emit-then buffers answers s (waiting t) h rest = h
  emit-then buffers answers s aborted h rest = h

  emit-Appended :
      (buffers : List (List ℕ)) (answers : List (List SendResult)) (s : Session K)
      → Survives (Appended s) (emit kcp buffers answers s)
  unfolding emit tcp_server_send_cb
  emit-Appended [] answers s = Appended-refl s
  emit-Appended (buffer ∷ buffers) [] s = Appended-refl s
  emit-Appended (buffer ∷ buffers) (rs ∷ answers) s =
      emit-then buffers answers s _ (server_loop-Appended buffer (length buffer) rs 0 s)
        (λ s'. emit-Appended buffers answers s')

  -- A round on a session that has a control block.
  pub update_session-Updated :
      (clock : ℕ) (answers : List (List SendResult)) (s : Session K) (k : K)
      → s.m_kcp ≡ some k
      → Survives (Updated s) (update_session kcp clock answers s)
  unfolding update_session
  update_session-Updated clock answers s k h =
      let k' = (kcp.update clock k).0 in
      rw h (
        Survives-map (Appended (record s { m_kcp = some k' })) (Updated s) _
          (λ s' (g : Appended (record s { m_kcp = some k' }) s'). (k', g.0, g.1))
          (emit-Appended (kcp.update clock k).1 answers (record s { m_kcp = some k' })))
