-- ===== src/Server/Epoll/Laws.antt =====
-- The map of sessions (code/kcp/server_epoll.h) and a round of `updateKcp`
-- (code/kcp/server_epoll.cc).
use kcp_fake_tcp.Base.{
  ℕ, ◌≡◌, inl, inr, ◌∙◌, refl, [], ◌∷◌, true, false, Bool-cases, ltb, ◌==◌, if◌then◌else◌, Option,
  arith,
}
use kcp_fake_tcp.Server.Session.{Session}
use kcp_fake_tcp.Server.Epoll.{Clients, entry, store}

-- `clients[fd] = client` changes what is found under `fd` and under no other descriptor.
pub entry-store :
    {K : Type 0} (fd other : ℕ) (client : Option (Session K)) (clients : Clients K)
    → entry other (store fd client clients) ≡ (if fd == other then client else entry other clients)
unfolding entry store
entry-store fd other client [] = refl
entry-store fd other client ((key, old) ∷ rest) =
    let ih = entry-store fd other client rest in
    elim (Bool-cases (key == fd)) [
      | inl here ↦ elim (Bool-cases (fd == other)) [
        | inl same ↦ rw (here, same) refl
        | inr differs ↦
            let key_differs : (key == other) ≡ false = ground arith in
            rw (here, differs, key_differs) refl
      ]
      | inr there ↦ elim (Bool-cases (ltb fd key)) [
        | inl before ↦ rw (there, before) refl
        | inr behind ↦ elim (Bool-cases (key == other)) [
          | inl same ↦
              let differs : (fd == other) ≡ false = ground arith in
              rw (there, behind, same, differs) refl
          | inr key_differs ↦ rw (there, behind, key_differs) ih
        ]
      ]
    ]

pub entry-store-same :
    {K : Type 0} (fd : ℕ) (client : Option (Session K)) (clients : Clients K)
    → entry fd (store fd client clients) ≡ client
entry-store-same fd client clients =
    let same : (fd == fd) ≡ true = ground arith in entry-store fd fd client clients ∙ rw same refl
