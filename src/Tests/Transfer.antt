-- ===== src/Tests/Transfer.antt =====
-- The theorems on the transfer of a file at concrete inputs.
use kcp_fake_tcp.Base.{some, ℕ, ◌+◌, ◌≡◌, refl, List, [], ◌∷◌, ◌++◌, slice, arith}
use kcp_fake_tcp.Client.Outcome.{returned}
use kcp_fake_tcp.Client.State.{Client}
use kcp_fake_tcp.Client.File.{file_header, queue, send_pieces}
use kcp_fake_tcp.Client.File.Laws.{Holds, Queued, send_pieces-Queued}
use kcp_fake_tcp.Crypto.Password.{codes}
use kcp_fake_tcp.Server.Receive.{path_for}
use kcp_fake_tcp.Server.Receive.Laws.{on_messages, receiving, on_messages-empty}
use kcp_fake_tcp.Transfer.{queue_file}
use kcp_fake_tcp.Tests.Data.{Messages, log_kcp, open_client, fresh_session}

abbrev pub name : List ℕ
name = codes "a.txt"

abbrev pub content : List ℕ
content = codes "hello"

abbrev pub given : Messages → List (List ℕ)
given k = k

pub appended :
    (bytes : List ℕ) (k : Messages) → given (log_kcp.send bytes k) ≡ given k ++ bytes ∷ []
appended bytes k = refl

-- The other threads do nothing.
abbrev pub alone : ℕ → Client Messages → Client Messages
alone n c = c

pub alone-Holds :
    (n : ℕ) (ms : List (List ℕ)) (c : Client Messages)
    → Holds log_kcp given appended ms c
    → Holds log_kcp given appended ms (alone n c)
alone-Holds n ms c h = h

pub nothing_yet : Holds log_kcp given appended [] open_client
nothing_yet = record { block = []; has_block = refl; given = refl }

send_pieces-Queued_example :
    Queued log_kcp given appended []
      (slice 0 5 content)
      (send_pieces log_kcp alone content 5 5 0 open_client)
send_pieces-Queued_example =
    send_pieces-Queued log_kcp given appended alone alone-Holds content 5 5 0 [] open_client
      (omega arith) (omega arith) (omega arith) nothing_yet

on_messages-empty_example :
    on_messages log_kcp 7 (file_header name 0 ∷ []) (fresh_session, 0)
    ≡ returned
        (receiving log_kcp 7 (record fresh_session { file_path = path_for 7 0 }) [] [] 0, 0 + 1)
on_messages-empty_example =
    on_messages-empty log_kcp 7 fresh_session [] 0 name refl refl refl (omega arith)

-- The client behind the queueing.
abbrev pub queued : List (List ℕ)
queued = file_header name 5 ∷ content ∷ []

abbrev pub queued_client : Client Messages
queued_client = record open_client { m_kcp = some queued }

pub queue_file-queued : queue_file log_kcp alone name content open_client ≡ returned queued_client
unfolding queue send_pieces
queue_file-queued = refl
