-- ===== src/Server/Receive.antt =====
-- What `ServerEpoll::startEpoll` does with the messages of a session: the file that they carry
-- (code/kcp/server_epoll.cc).
pub mod Laws
pub mod Drain
pub mod Inbox
pub mod Whole
use kcp_fake_tcp.Base.{
  ℕ, zero, suc, ◌+◌, ◌-◌, List, [], ◌∷◌, ◌++◌, Bool, true, false, ltb, leb, ◌==◌, if◌then◌else◌,
  Option, none, some, u32, ntohl, length, drop,
}
use kcp_fake_tcp.Wire.Header.{read_u32}
use kcp_fake_tcp.Kcp.{Kcp}
use kcp_fake_tcp.Client.Outcome.{Outcome, returned, waiting, aborted}
use kcp_fake_tcp.Crypto.Strings.{decimal_string}
use kcp_fake_tcp.Crypto.Password.{codes}
use kcp_fake_tcp.Server.Session.{Session}

-- `"send_finish"`.
abbrev pub send_finish : List ℕ
send_finish = codes "send_finish"

-- 8 + 128 bytes: the size of the file, its name, and nothing in the last four.
abbrev pub header_size : ℕ
header_size = 136

abbrev pub prefix_path : List ℕ
prefix_path = codes "/home/hzh/workspace/work/bin/"

-- The path of the file with the number `cnt` of the process `pid`.
unfoldable pub path_for : ℕ → ℕ → List ℕ
path_for pid cnt =
    prefix_path ++ (decimal_string pid ++ (codes "_" ++ (decimal_string cnt ++ codes ".txt")))

module _ {K : Type 0} (kcp : Kcp K) (pid : ℕ) where
  -- The first message: it opens the file, which is taken to succeed, and may hold its first bytes.
  unfoldable pub open_file : ℕ → List ℕ → Session K → Session K
  unfolding path_for
  open_file cnt message s = record s {
    read_file = true;
    file_size = ntohl (read_u32 message 0);
    file_path = path_for pid cnt;
    file = drop header_size message;
    file_open = true;
    file_sended = u32 (s.file_sended + (length message - header_size));
  }

  -- `file.write` and the count; a closed stream takes nothing.
  unfoldable pub write_file : List ℕ → Session K → Session K
  write_file message s = record s {
    file = if s.file_open then s.file ++ message else s.file;
    file_sended = u32 (s.file_sended + length message);
  }

  -- `ikcp_send` of `"send_finish"` behind the closed file.
  unfoldable pub finish_file : K → Session K → Session K
  finish_file k s = record s { file_open = false; m_kcp = some (kcp.send send_finish k) }

  -- A later message.
  unfoldable pub more_file : K → List ℕ → Session K → Session K
  unfolding write_file finish_file
  more_file k message s =
      let s' = write_file message s in
      if leb s'.file_size s'.file_sended then finish_file k s' else s'

  -- One message of positive length; `cnt` counts the files that the process has opened. An
  -- `assert` demands a whole header.
  unfoldable pub on_message : K → List ℕ → Session K × ℕ → Outcome (Session K × ℕ)
  unfolding open_file more_file
  on_message k message (s, cnt) =
      if s.read_file
      then returned (more_file k message s, cnt)
      else if ltb (length message) header_size
      then aborted
      else returned (open_file cnt message s, cnt + 1)

  -- The block that the session holds now.
  abbrev pub block_of : Session K → K → K
  block_of s k = elim s.m_kcp [ none ↦ k | some k' ↦ k' ]

  -- The loop over `ikcp_recv`, whose limit is the count of bytes that were read from the socket.
  unfoldable pub drain : ℕ → ℕ → K → Session K × ℕ → Outcome (Session K × ℕ)
  unfolding on_message
  drain zero limit k (s, cnt) = waiting (s, cnt)
  drain (suc fuel) limit k (s, cnt) =
      let (k', got) = kcp.recv (some limit) k in
      let s' = record s { m_kcp = some k' } in
      elim got [
        | none ↦ returned (s', cnt)
        | some [] ↦ drain fuel limit k' (s', cnt)
        | some (b ∷ bs) ↦ elim (on_message k' (b ∷ bs) (s', cnt)) [
          | aborted ↦ aborted
          | waiting t ↦ waiting t
          | returned t ↦ drain fuel limit (block_of t.0 k') (t.0, t.1)
        ]
      ]
