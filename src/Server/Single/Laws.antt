-- ===== src/Server/Single/Laws.antt =====
-- `run_tcp_server` (code/kcp/kcp_server.cc) against `startEpoll` (code/kcp/server_epoll.cc) on a
-- message.
use kcp_fake_tcp.Base.{
  ℕ, ◌+◌, ◌-◌, ◌≡◌, ◌≤◌, ◌<◌, inl, inr, refl, List, [], Bool-cases, ltb, leb, u32, length,
  length-drop, drop, arith,
}
use kcp_fake_tcp.Kcp.{Kcp}
use kcp_fake_tcp.Client.Outcome.{Outcome, returned, aborted}
use kcp_fake_tcp.Server.Session.{Session}
use kcp_fake_tcp.Server.Receive.{
  header_size, open_file, write_file, finish_file, more_file, on_message,
}
use kcp_fake_tcp.Server.Receive.Laws.{nil_of_length}
use kcp_fake_tcp.Server.Single.{Reception, open_reception, write_reception, on_reception}

-- The same part of a file has come in.
abbrev pub SameFile : {K : Type 0} → Session K → Reception → Type 0
SameFile s r =
    (s.read_file ≡ r.read_file)
    × (s.file ≡ r.content)
    × (s.file_sended ≡ r.file_sended)
    × (s.file_size ≡ r.file_size)

-- Both end in an `assert`, or both return with the same part of a file.
abbrev pub SameEnd :
    {K L : Type 0} → Outcome (Session K × ℕ) → Outcome (Session L × Reception) → Type 0
SameEnd (returned t) (returned t') = SameFile t.0 t'.1
SameEnd aborted aborted = Unit
SameEnd _ _ = ⊥

module _ {K : Type 0} (kcp : Kcp K) (pid : ℕ) where
  -- On the same part of a file, behind a stream that is as open, and with the same message, which
  -- is no longer than what `read` returned, the two servers both end in an `assert` or come to the
  -- same part of a file.
  pub on_reception-on_message :
      (k : K) (drawn : List ℕ) (taken len cnt : ℕ) (message : List ℕ) (s : Session K)
      (r : Reception)
      → SameFile s r
      → s.file_open ≡ r.is_open
      → length message ≤ len
      → s.file_sended < 4294967296
      → SameEnd
          (on_message kcp pid k message (s, cnt))
          (on_reception drawn taken len message (s, r))
  unfolding on_message more_file write_file finish_file open_file on_reception write_reception
      open_reception
  on_reception-on_message k drawn taken len cnt message s r (e_read, e_file, e_sended, e_size)
        e_open hl hs =
      rw (e_read, e_file, e_sended, e_size, e_open)
        (elim (Bool-cases r.read_file) [
          | inl more ↦ elim (Bool-cases (leb r.file_size (u32 (r.file_sended + length message)))) [
            | inl full ↦ rw (more, full) (refl, refl, refl, refl)
            | inr short ↦ rw (more, short) (refl, refl, refl, refl)
          ]
          | inr first ↦ elim (Bool-cases (ltb (length message) header_size)) [
            | inl short ↦ rw (first, short) tt
            | inr whole ↦ elim (Bool-cases (ltb 136 len)) [
              | inl longer ↦ rw (first, whole, longer) (refl, refl, refl, refl)
              | inr exact ↦
                  let header_only : length message ≡ 136 = ground arith in
                  let nothing : drop 136 message ≡ [] =
                    nil_of_length _ (omega (arith, length-drop 136 message)) in
                  let count : u32 (r.file_sended + (length message - 136)) ≡ r.file_sended =
                    omega (arith, e_sended) in
                  rw (first, whole, exact, nothing, count) (refl, refl, refl, refl)
            ]
          ]
        ])
