-- ===== src/Sockets.antt =====
-- `setAddr`, `StartFakeTcp` and `StartServer` (code/kcp/kcp_socket.cc) as lists of system calls,
-- over the answers of the system. The log lines are left out.
use kcp_fake_tcp.Base.{
  ℕ, String, List, [], ◌∷◌, Bool, if◌then◌else◌, Option, none, some, ntohs, u16,
}

pub record SockaddrIn : Type 0 where
  pub sin_family : ℕ
  pub sin_port : ℕ
  pub sin_addr : ℕ

-- `AF_INET`; `INADDR_ANY` is 0.
abbrev pub af_inet : ℕ
af_inet = 2

-- `setAddr`; `address` is `inet_addr`.
unfoldable pub set_addr : (String → ℕ) → String → ℕ → SockaddrIn
set_addr address ip port = record {
  sin_family = af_inet;
  sin_port = ntohs (u16 port);
  sin_addr = address ip;
}

-- The address of any interface with a port.
unfoldable pub any_addr : ℕ → SockaddrIn
any_addr port = record { sin_family = af_inet; sin_port = ntohs (u16 port); sin_addr = 0 }

pub data SocketKind : Type 0 where
  sock_raw : SocketKind
  sock_stream : SocketKind

pub data SocketOption : Type 0 where
  ip_hdrincl : SocketOption
  so_reuseaddr : SocketOption
  so_reuseport : SocketOption

-- A system call; an option is set to 1. The first number is the descriptor, in the calls that make
-- one the descriptor that was made, if any.
pub data Call : Type 0 where
  socket : SocketKind → Option ℕ → Call
  setsockopt : ℕ → SocketOption → Call
  bind : ℕ → SockaddrIn → Call
  listen : ℕ → ℕ → Call
  get_flags : ℕ → Call
  set_flags : ℕ → ℕ → Call
  epoll_create : Option ℕ → Call
  epoll_add : ℕ → ℕ → Call
  close : ℕ → Call

-- `StartFakeTcp`, on the socket that it gets and whether `IP_HDRINCL` is accepted.
unfoldable pub start_fake_tcp : Option ℕ → Bool → Option ℕ × List Call
start_fake_tcp none accepted = (none, socket sock_raw none ∷ [])
start_fake_tcp (some sock) accepted =
    let calls = socket sock_raw (some sock) ∷ setsockopt sock ip_hdrincl ∷ [] in
    if accepted then (some sock, calls) else (none, calls)

-- `StartServer`, on the socket that it gets and whether `bind` succeeds. What `setsockopt` and
-- `listen` answer is not looked at.
unfoldable pub start_server : ℕ → Option ℕ → Bool → Option ℕ × List Call
unfolding any_addr
start_server port none bound = (none, socket sock_stream none ∷ [])
start_server port (some sock) bound =
    if bound
    then (
      some sock,
      socket sock_stream (some sock)
          ∷ setsockopt sock so_reuseaddr
          ∷ bind sock (any_addr port)
          ∷ listen sock 1024
          ∷ [],
    )
    else (
      none,
      socket sock_stream (some sock)
          ∷ setsockopt sock so_reuseaddr
          ∷ bind sock (any_addr port)
          ∷ [],
    )
