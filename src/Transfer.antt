-- ===== src/Transfer.antt =====
-- A file from end to end: what `send_file` queues (code/kcp/kcp_client.cc) is what `startEpoll`
-- makes a file of (code/kcp/server_epoll.cc), when KCP hands the messages over in their order.
pub mod Loop
pub mod Parts
pub mod Answer
pub mod Serving
use kcp_fake_tcp.Base.{
  ℕ, ◌+◌, ◌-◌, ◌≤◌, ◌<◌, ◌≡◌, ap, ◌∙◌, subst, List, [], ◌∷◌, ◌++◌, false, some, length, take_of_le,
  flatten, arith,
}
use kcp_fake_tcp.Kcp.{Kcp}
use kcp_fake_tcp.Client.Outcome.{Outcome, returned, ◌>>=◌}
use kcp_fake_tcp.Client.State.{Client}
use kcp_fake_tcp.Client.File.{file_header, queue, send_pieces}
use kcp_fake_tcp.Client.File.Laws.{Holds, Pieces, queue-Holds, send_pieces-Queued}
use kcp_fake_tcp.Server.Session.{Session}
use kcp_fake_tcp.Server.Receive.{path_for}
use kcp_fake_tcp.Server.Receive.Laws.{NonEmpty, on_messages, finished, on_messages-file}

-- The part of `send_file` that queues: the header, then the pieces.
abbrev pub queue_file :
    {K : Type 0}
    → Kcp K
    → (ℕ → Client K → Client K)
    → List ℕ
    → List ℕ
    → Client K
    → Outcome (Client K)
queue_file kcp between name content c =
    queue kcp (file_header name (length content)) c
    >>= send_pieces kcp between content (length content) (length content) 0

Pieces-NonEmpty : (ms : List (List ℕ)) → Pieces ms → NonEmpty ms
Pieces-NonEmpty [] h = tt
Pieces-NonEmpty (m ∷ ms) (h, hs) = (h.0, Pieces-NonEmpty ms hs)

-- The messages that the part of `send_file` that queues gives the block: the header, then pieces
-- that make up the file.
pub queue_file-Pieces :
    {K : Type 0} (kcp : Kcp K) (sent : K → List (List ℕ))
    (appends : (bytes : List ℕ) (k : K) → sent (kcp.send bytes k) ≡ sent k ++ bytes ∷ [])
    (between : ℕ → Client K → Client K)
    (quiet : (n : ℕ) (ms : List (List ℕ)) (c : Client K)
      → Holds kcp sent appends ms c
      → Holds kcp sent appends ms (between n c))
    (name content : List ℕ) (c : Client K)
    → Holds kcp sent appends [] c
    → (c' : Client K) × (pieces : List (List ℕ)) × (queue_file kcp between name content c
        ≡ returned c')
      × Holds kcp sent appends (file_header name (length content) ∷ pieces) c'
      × (flatten pieces ≡ content)
      × Pieces pieces
queue_file-Pieces kcp sent appends between quiet name content c h =
    let header = file_header name (length content) in
    let (c1, queued, h1) = queue-Holds kcp sent appends header [] c h in
    let q =
      send_pieces-Queued kcp sent appends between quiet content (length content) (length content) 0
        (header ∷ []) c1 (omega arith) (omega arith) (omega arith) h1 in
    let whole : flatten q.pieces ≡ content =
      q.contents ∙ take_of_le (length content - 0) content (omega arith) in
    (q.client, q.pieces, rw queued q.result, q.holds, whole, q.sizes)

-- The server's side, from the pieces that the client has queued.
pub Pieces-on_messages :
    {K : Type 0} (kcp : Kcp K) (pid : ℕ) (s : Session K) (k : K) (cnt : ℕ) (name content : List ℕ)
    (ms : List (List ℕ))
    → s.m_kcp ≡ some k
    → s.read_file ≡ false
    → s.file_sended ≡ 0
    → length name ≤ 132
    → flatten ms ≡ content
    → Pieces ms
    → 0 < length content
    → length content < 4294967296
    → on_messages kcp pid (file_header name (length content) ∷ ms) (s, cnt)
      ≡ returned (finished kcp pid (record s { file_path = path_for pid cnt }) k content, cnt + 1)
Pieces-on_messages kcp pid s k cnt name content [] hk hr hs hn whole sizes some_bytes w =
    absurd (omega (arith, ap length whole))
Pieces-on_messages kcp pid s k cnt name content (m ∷ ms) hk hr hs hn whole sizes some_bytes w =
    subst
      (λ r.
        length r < 4294967296
        → on_messages kcp pid (file_header name (length r) ∷ m ∷ ms) (s, cnt)
          ≡ returned (finished kcp pid (record s { file_path = path_for pid cnt }) k r, cnt + 1))
      whole (on_messages-file kcp pid s k cnt name m ms hk hr hs hn (Pieces-NonEmpty ms sizes.1)) w

-- A file that is neither empty nor of 4 GiB or more, under a name of at most 132 bytes. The
-- sending thread, whose block holds no messages yet, queues messages, and does return, when the
-- other threads leave the block's messages as they are; and a session of the server that is
-- handed those messages in their order ends up with exactly the file's bytes, closed and counted,
-- and with "send_finish" queued.
pub queue_file-on_messages :
    {K L : Type 0} (kcp : Kcp K) (sent : K → List (List ℕ))
    (appends : (bytes : List ℕ) (k : K) → sent (kcp.send bytes k) ≡ sent k ++ bytes ∷ [])
    (between : ℕ → Client K → Client K)
    (quiet : (n : ℕ) (ms : List (List ℕ)) (c : Client K)
      → Holds kcp sent appends ms c
      → Holds kcp sent appends ms (between n c))
    (name content : List ℕ) (c : Client K) (server : Kcp L) (pid : ℕ) (s : Session L) (k : L)
    (cnt : ℕ)
    → Holds kcp sent appends [] c
    → s.m_kcp ≡ some k
    → s.read_file ≡ false
    → s.file_sended ≡ 0
    → length name ≤ 132
    → 0 < length content
    → length content < 4294967296
    → (c' : Client K) × (ms : List (List ℕ)) × (queue_file kcp between name content c ≡ returned c')
      × Holds kcp sent appends ms c'
      × (on_messages server pid ms (s, cnt)
          ≡ returned
              (finished server pid (record s { file_path = path_for pid cnt }) k content, cnt + 1))
queue_file-on_messages kcp sent appends between quiet name content c server pid s k cnt h hk hr hs
      hn some_bytes w =
    let (c', pieces, result, holds, whole, sizes) =
      queue_file-Pieces kcp sent appends between quiet name content c h in
    (
      c',
      file_header name (length content) ∷ pieces,
      result,
      holds,
      Pieces-on_messages server pid s k cnt name content pieces hk hr hs hn whole sizes some_bytes
          w,
    )
