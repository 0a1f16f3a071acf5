-- ===== src/Server/Receive/Laws.antt =====
-- The messages of one session, from the header of a file to its last byte (code/kcp/server_epoll.cc).
use mathlib.Core.List.{append_assoc, append-nil}
use kcp_fake_tcp.Base.{
  ℕ, ◌+◌, ◌≤◌, ◌<◌, ◌≡◌, refl, ap, ◌∙◌, subst, List, [], ◌∷◌, ◌++◌, true, false, leb, none, some,
  u32, u32_bytes, ntohl, length, length-append, length-drop, drop, replicate, flatten, arith,
}
use kcp_fake_tcp.Wire.Header.{read_u32}
use kcp_fake_tcp.Kcp.{Kcp}
use kcp_fake_tcp.Client.Outcome.{Outcome, returned, waiting, aborted}
use kcp_fake_tcp.Client.File.{file_header}
use kcp_fake_tcp.Server.Session.{Session}
use kcp_fake_tcp.Server.Receive.{
  send_finish, header_size, path_for, open_file, write_file, finish_file, more_file, on_message,
}

-- No piece is empty.
abbrev pub NonEmpty : List (List ℕ) → Type 0
NonEmpty [] = Unit
NonEmpty (bs ∷ bss) = (0 < length bs) × NonEmpty bss

leb_refl : (n : ℕ) → leb n n ≡ true
leb_refl n = ground arith

ltb→leb : (a b : ℕ) → b < a → leb a b ≡ false
ltb→leb a b h = ground arith

pub nil_of_length : (xs : List ℕ) → length xs ≡ 0 → xs ≡ []
nil_of_length [] h = refl
nil_of_length (x ∷ xs) h = absurd (omega arith)

-- The header holds the size where the server reads it, and nothing behind its 136 bytes.
pub length-file_header :
    (name : List ℕ) (size : ℕ) → length name ≤ 132 → length (file_header name size) ≡ 136
unfolding file_header
length-file_header name size h = omega (
  arith,
  length-append (u32_bytes (ntohl size) ++ name)
      (drop (length (u32_bytes (ntohl size) ++ name)) (replicate 136 0)),
  length-drop {A = ℕ} (length (u32_bytes (ntohl size) ++ name)) (replicate 136 0),
)

drop-file_header :
    (name : List ℕ) (size : ℕ) → length name ≤ 132 → drop header_size (file_header name size) ≡ []
drop-file_header name size h =
    nil_of_length _
      (omega (arith, length-drop 136 (file_header name size), length-file_header name size h))

size-file_header :
    (name : List ℕ) (size : ℕ)
    → size < 4294967296
    → ntohl (read_u32 (file_header name size) 0) ≡ size
unfolding file_header ntohl
size-file_header name size h = omega arith

module _ {K : Type 0} (kcp : Kcp K) (pid : ℕ) where
  -- The messages of a session, handled one after the other.
  unfoldable pub on_messages : List (List ℕ) → Session K × ℕ → Outcome (Session K × ℕ)
  unfolding on_message
  on_messages [] (s, cnt) = returned (s, cnt)
  on_messages (m ∷ ms) (s, cnt) = elim s.m_kcp [
    | none ↦ aborted
    | some k ↦ elim (on_message kcp pid k m (s, cnt)) [
      | aborted ↦ aborted
      | waiting t ↦ waiting t
      | returned t ↦ on_messages ms t
    ]
  ]

  -- A session in the middle of a file of `size` bytes, of which it has `bytes`.
  abbrev pub receiving : Session K → K → List ℕ → ℕ → Session K
  receiving s k bytes size = record s {
    read_file = true;
    file_open = true;
    m_kcp = some k;
    file = bytes;
    file_sended = length bytes;
    file_size = size;
  }

  -- The session that has the whole file and has announced it.
  abbrev pub finished : Session K → K → List ℕ → Session K
  finished s k bytes = record s {
    read_file = true;
    file_open = false;
    m_kcp = some (kcp.send send_finish k);
    file = bytes;
    file_sended = length bytes;
    file_size = length bytes;
  }

  -- A piece that leaves the file short of its size.
  more_file-short :
      (s : Session K) (k : K) (bytes m : List ℕ) (size : ℕ)
      → length bytes + length m < size
      → size < 4294967296
      → more_file kcp pid k m (receiving s k bytes size) ≡ receiving s k (bytes ++ m) size
  unfolding more_file write_file finish_file
  more_file-short s k bytes m size h w =
      let counted : u32 (length bytes + length m) ≡ length (bytes ++ m) =
        omega (arith, length-append bytes m) in
      let short : leb size (length (bytes ++ m)) ≡ false =
        ltb→leb _ _ (omega (arith, length-append bytes m)) in
      rw (counted, short) refl

  -- The piece that completes the file.
  more_file-last :
      (s : Session K) (k : K) (bytes m : List ℕ)
      → length bytes + length m < 4294967296
      → more_file kcp pid k m (receiving s k bytes (length (bytes ++ m)))
        ≡ finished s k (bytes ++ m)
  unfolding more_file write_file finish_file
  more_file-last s k bytes m w =
      let counted : u32 (length bytes + length m) ≡ length (bytes ++ m) =
        omega (arith, length-append bytes m) in
      let full : leb (length (bytes ++ m)) (length (bytes ++ m)) ≡ true =
        leb_refl (length (bytes ++ m)) in
      rw (counted, full) refl

  -- The pieces of a file, of which at least one is left.
  pub on_messages-pieces :
      (s : Session K) (k : K) (cnt : ℕ) (bytes m : List ℕ) (ms : List (List ℕ))
      → NonEmpty ms
      → length (bytes ++ flatten (m ∷ ms)) < 4294967296
      → on_messages (m ∷ ms) (receiving s k bytes (length (bytes ++ flatten (m ∷ ms))), cnt)
        ≡ returned (finished s k (bytes ++ flatten (m ∷ ms)), cnt)
  unfolding on_messages on_message
  on_messages-pieces s k cnt bytes m [] h w =
      let whole : m ++ [] ≡ m = append-nil m in
      rw whole (
        ap (λ s'. returned (s', cnt))
          (more_file-last s k bytes m
            (omega (arith, length-append bytes m, ap (λ r. length (bytes ++ r)) whole))))
  on_messages-pieces s k cnt bytes m (m' ∷ ms) (h, hs) w =
      let all = bytes ++ flatten (m ∷ m' ∷ ms) in
      let split : (bytes ++ m) ++ flatten (m' ∷ ms) ≡ all =
        append_assoc bytes m (flatten (m' ∷ ms)) in
      let sizes : length bytes + length m < length all = omega (
        arith,
        ap length split,
        h,
        length-append bytes m,
        length-append (bytes ++ m) (flatten (m' ∷ ms)),
        length-append m' (flatten ms),
      ) in
      ap (λ s'. on_messages (m' ∷ ms) (s', cnt)) (more_file-short s k bytes m (length all) sizes w)
      ∙ subst
          (λ r.
            length r < 4294967296
            → on_messages (m' ∷ ms) (receiving s k (bytes ++ m) (length r), cnt)
              ≡ returned (finished s k r, cnt))
          split (on_messages-pieces s k cnt (bytes ++ m) m' ms hs) w

  open_file-receiving :
      (s : Session K) (k : K) (cnt : ℕ) (name : List ℕ) (size : ℕ)
      → s.m_kcp ≡ some k
      → s.file_sended ≡ 0
      → length name ≤ 132
      → size < 4294967296
      → open_file kcp pid cnt (file_header name size) s
        ≡ receiving (record s { file_path = path_for pid cnt }) k [] size
  unfolding open_file
  open_file-receiving s k cnt name size hk hs hn w =
      rw
        (
          hk,
          hs,
          drop-file_header name size hn,
          size-file_header name size w,
          length-file_header name size hn,
        )
        refl

  on_message-header :
      (s : Session K) (k : K) (cnt : ℕ) (name : List ℕ) (size : ℕ)
      → s.read_file ≡ false
      → length name ≤ 132
      → on_message kcp pid k (file_header name size) (s, cnt)
        ≡ returned (open_file kcp pid cnt (file_header name size) s, cnt + 1)
  unfolding on_message
  on_message-header s k cnt name size hr hn = rw (hr, length-file_header name size hn) refl

  -- What the server makes of the messages of one file, in a session that has not received any:
  -- the header that `send_file` queues, of a name of at most 132 bytes, then the pieces of the
  -- file, at least one and none of them empty. It keeps the bytes of the pieces in their order as
  -- the file, closes it, has counted its bytes, and queues "send_finish" once.
  pub on_messages-file :
      (s : Session K) (k : K) (cnt : ℕ) (name m : List ℕ) (ms : List (List ℕ))
      → s.m_kcp ≡ some k
      → s.read_file ≡ false
      → s.file_sended ≡ 0
      → length name ≤ 132
      → NonEmpty ms
      → length (flatten (m ∷ ms)) < 4294967296
      → on_messages (file_header name (length (flatten (m ∷ ms))) ∷ m ∷ ms) (s, cnt)
        ≡ returned
            (finished (record s { file_path = path_for pid cnt }) k (flatten (m ∷ ms)), cnt + 1)
  unfolding on_messages
  on_messages-file s k cnt name m ms hk hr hs hn ne w =
      let size = length (flatten (m ∷ ms)) in
      rw (hk, on_message-header s k cnt name size hr hn)
        (ap (λ s'. on_messages (m ∷ ms) (s', cnt + 1))
            (open_file-receiving s k cnt name size hk hs hn w)
          ∙ on_messages-pieces (record s { file_path = path_for pid cnt }) k (cnt + 1) [] m ms ne w)

  -- An empty file: after its header, the only message of it, the session has no bytes and still
  -- has the file open, has queued nothing, and the file is not announced as finished.
  pub on_messages-empty :
      (s : Session K) (k : K) (cnt : ℕ) (name : List ℕ)
      → s.m_kcp ≡ some k
      → s.read_file ≡ false
      → s.file_sended ≡ 0
      → length name ≤ 132
      → on_messages (file_header name 0 ∷ []) (s, cnt)
        ≡ returned (receiving (record s { file_path = path_for pid cnt }) k [] 0, cnt + 1)
  unfolding on_messages
  on_messages-empty s k cnt name hk hr hs hn =
      rw (hk, on_message-header s k cnt name 0 hr hn)
        (ap (λ s'. returned (s', cnt + 1))
          (open_file-receiving s k cnt name 0 hk hs hn (omega arith)))
