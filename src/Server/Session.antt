-- ===== src/Server/Session.antt =====
-- The members of `KcpHandleClient`, its constructor, `start_kcp_server` and `Close`
-- (code/kcp/kcp_server.h, code/kcp/kcp_server.cc).
use kcp_fake_tcp.Base.{
  ℕ, String, Bool, false, ◌==◌, if◌then◌else◌, Option, none, some, List, [], ◌∷◌, ◌%◌, map, get_or,
  u16,
}
use kcp_fake_tcp.Kcp.{Kcp}
use kcp_fake_tcp.Client.Outcome.{Outcome, returned, aborted}

-- `file` is the text that the member `file` has written and `file_open` whether it is open.
-- `wire` is not a member: it lists the texts that the kernel has taken from `send`.
pub record Session (K : Type 0) : Type 0 where
  pub fd : ℕ
  pub s_port : ℕ
  pub s_ip : String
  pub c_port : ℕ
  pub c_ip : String
  pub read_file : Bool
  pub file : List ℕ
  pub file_open : Bool
  pub file_sended : ℕ
  pub file_size : ℕ
  pub file_path : List ℕ
  pub m_kcp : Option K
  pub stop_flag : Bool
  pub wire : List (List ℕ)

module _ {K : Type 0} (kcp : Kcp K) where
  -- The constructor, which leaves `stopFlag` as its memory was.
  unfoldable pub kcp_handle_client : ℕ → ℕ → String → ℕ → String → Bool → Session K
  kcp_handle_client fd s_port s_ip c_port c_ip leftover = record {
    fd = fd;
    s_port = u16 s_port;
    s_ip = s_ip;
    c_port = u16 c_port;
    c_ip = c_ip;
    read_file = false;
    file = [];
    file_open = false;
    file_sended = 0;
    file_size = 0;
    file_path = [];
    m_kcp = some (kcp.create (u16 c_port));
    stop_flag = leftover;
    wire = [];
  }

  -- `start_kcp_server`: windows of 256, mode 0. It asserts that the descriptor is not 0.
  unfoldable pub start_kcp_server : Session K → Outcome (Session K)
  start_kcp_server s = elim s.m_kcp [
    | none ↦ aborted
    | some k ↦
        if s.fd == 0
        then aborted
        else returned (record s {
          m_kcp = some (kcp.nodelay 1 10 0 0 (kcp.wndsize 256 256 k));
          stop_flag = false;
        })
  ]

-- `Close`, with the descriptors that it closes. `ikcp_release` frees the control block.
unfoldable pub close : {K : Type 0} → Session K → Session K × List ℕ
close s = elim s.m_kcp [ none ↦ (s, []) | some k ↦ (record s { m_kcp = none }, s.fd ∷ []) ]

-- The letters and digits that `random_24` draws from.
unfoldable pub random_char : List ℕ → ℕ → ℕ
random_char characters drawn = get_or characters (drawn % 62) 0

-- `random_24`, on the results of its calls of `rand()`.
unfoldable pub random_24 : List ℕ → List ℕ → List ℕ
unfolding random_char
random_24 characters drawn = map (random_char characters) drawn
