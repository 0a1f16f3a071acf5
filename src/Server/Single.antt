-- ===== src/Server/Single.antt =====
-- `KcpHandleClient::run_tcp_server` and `run_tcp_server_loop` (code/kcp/kcp_server.cc), a server of
-- one session on threads of its own, which `ServerEpoll` does without. The log lines are left out.
pub mod Laws
use kcp_fake_tcp.Base.{
  ℕ, ◌+◌, ◌-◌, List, [], ◌∷◌, ◌++◌, Bool, true, false, ltb, leb, ◌==◌, ◌||◌, if◌then◌else◌, Option,
  none, some, u32, ntohl, take, drop, length,
}
use kcp_fake_tcp.Wire.Header.{read_u32}
use kcp_fake_tcp.Kcp.{Kcp}
use kcp_fake_tcp.Client.Outcome.{Outcome, returned, waiting, aborted}
use kcp_fake_tcp.Crypto.Password.{codes}
use kcp_fake_tcp.Server.Session.{Session, random_24}
use kcp_fake_tcp.Server.Output.{SendResult}
use kcp_fake_tcp.Server.Epoll.{ReadResult, read_failed, got, update_session}

-- The local variables of `run_tcp_server`. `content` is the text that the stream has written and
-- `is_open` whether it is open.
pub record Reception : Type 0 where
  pub read_file : Bool
  pub content : List ℕ
  pub is_open : Bool
  pub file_sended : ℕ
  pub file_size : ℕ
  pub file_path : List ℕ

unfoldable pub no_file : Reception
no_file = record {
  read_file = false;
  content = [];
  is_open = false;
  file_sended = 0;
  file_size = 0;
  file_path = [];
}

-- `characters` of `random_24`.
abbrev pub characters : List ℕ
characters = codes "ABCDEFGHIJKLMNOPQRSTUVWXYZabcdefghijklmnopqrstuvwxyz0123456789"

-- The answer to a whole file.
abbrev pub send_finished : List ℕ
send_finished = codes "send_finished"

-- The first message, where `read` returned `len` bytes: it opens the file, which is taken to
-- succeed, under a name that is made of the results `drawn` of `rand()`.
unfoldable pub open_reception : List ℕ → ℕ → List ℕ → Reception → Reception
unfolding random_24
open_reception drawn len message r =
    let opened = record r {
      read_file = true;
      file_size = ntohl (read_u32 message 0);
      file_path =
          codes "/home/hzh/workspace/work/bin/" ++ random_24 characters drawn ++ codes ".txt";
      is_open = true;
      content = [];
    } in
    if ltb 136 len
    then record opened {
      content = drop 136 message;
      file_sended = u32 (r.file_sended + (length message - 136));
    }
    else opened

-- `file.write` and the count; a closed stream takes nothing.
unfoldable pub write_reception : List ℕ → Reception → Reception
write_reception message r = record r {
  content = if r.is_open then r.content ++ message else r.content;
  file_sended = u32 (r.file_sended + length message);
}

-- One message of positive length. Of the answer to a whole file the kernel takes `taken` bytes.
unfoldable pub on_reception :
    {K : Type 0} → List ℕ → ℕ → ℕ → List ℕ → Session K × Reception → Outcome (Session K × Reception)
unfolding open_reception write_reception
on_reception drawn taken len message (s, r) =
    let r' = write_reception message r in
    if r.read_file
    then if leb r'.file_size r'.file_sended
      then returned (record s { wire = s.wire ++ take taken send_finished ∷ [] }, r')
      else returned (s, r')
    else if ltb (length message) 136
    then aborted
    else returned (s, open_reception drawn len message r)

-- One round of the loop: whether another thread has set `stopFlag`, the clock, the answers to the
-- `send`s of each buffer, what `read` answers, and the results of `rand()`.
pub record Turn : Type 0 where
  pub stop : Bool
  pub clock : ℕ
  pub answers : List (List SendResult)
  pub event : ReadResult
  pub drawn : List ℕ

module _ {K : Type 0} (kcp : Kcp K) where
  -- What follows `read`: `ikcp_input`, and `ikcp_recv` once.
  unfoldable pub on_read :
      List ℕ → ReadResult → Session K × Reception → Outcome (Session K × Reception)
  unfolding on_reception
  on_read drawn read_failed (s, r) = returned (s, r)
  on_read drawn (got [] taken) (s, r) = returned (s, r)
  on_read drawn (got (b ∷ bs) taken) (s, r) =
      let bytes = take 2048 (b ∷ bs) in
      elim s.m_kcp [
        | none ↦ aborted
        | some k ↦
            let (k', accepted) = kcp.input (some bytes) k in
            let (k'', message) = kcp.recv (some (length bytes)) k' in
            elim accepted [
              | false ↦ returned (record s { m_kcp = some k' }, r)
              | true ↦ elim message [
                | none ↦ returned (record s { m_kcp = some k'' }, r)
                | some [] ↦ returned (record s { m_kcp = some k'' }, r)
                | some (m ∷ ms) ↦
                    on_reception drawn taken (length bytes) (m ∷ ms)
                      (record s { m_kcp = some k'' }, r)
              ]
            ]
      ]

  -- The loop of `run_tcp_server`; behind it the file is closed.
  unfoldable pub serve : List Turn → Session K × Reception → Outcome (Session K × Reception)
  unfolding on_read update_session
  serve [] (s, r) = waiting (s, r)
  serve (turn ∷ turns) (s, r) =
      let s0 = record s { stop_flag = s.stop_flag || turn.stop } in
      if s0.stop_flag
      then returned (s0, record r { is_open = false })
      else elim (update_session kcp turn.clock turn.answers s0) [
        | aborted ↦ aborted
        | waiting s' ↦ waiting (s', r)
        | returned s' ↦ elim (on_read turn.drawn turn.event (s', r)) [
          | aborted ↦ aborted
          | waiting t ↦ waiting t
          | returned t ↦ serve turns t
        ]
      ]

  -- `run_tcp_server`, which asserts that the descriptor is not 0 and that there is a control block.
  unfoldable pub run_tcp_server : List Turn → Session K → Outcome (Session K × Reception)
  unfolding serve no_file
  run_tcp_server turns s = elim s.m_kcp [
    | none ↦ aborted
    | some k ↦ if s.fd == 0 then aborted else serve turns (s, no_file)
  ]

  -- `run_tcp_server_loop`: rounds of `ikcp_update`, with the clock and the answers of each, until
  -- another thread has set `stopFlag`.
  unfoldable pub run_tcp_server_loop :
      List (Bool × ℕ × List (List SendResult)) → Session K → Outcome (Session K)
  unfolding update_session
  run_tcp_server_loop [] s = waiting s
  run_tcp_server_loop ((stop, clock, answers) ∷ rounds) s =
      let s0 = record s { stop_flag = s.stop_flag || stop } in
      if s0.stop_flag then returned s0 else elim (update_session kcp clock answers s0) [
        | aborted ↦ aborted
        | waiting s' ↦ waiting s'
        | returned s' ↦ run_tcp_server_loop rounds s'
      ]
