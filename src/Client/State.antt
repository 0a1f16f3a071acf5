-- ===== src/Client/State.antt =====
-- The members of `KcpClient`, its constructor, and what the operating system answers to its calls.
-- `K` is the control block of the KCP library.
use kcp_fake_tcp.Base.{ℕ, String, Bool, false, Option, some, List, [], u16, u32}

-- `enum conn_state`.
pub data ConnState : Type 0 where
  tcp_closed tcp_syn_send tcp_established tcp_fin_wait1 tcp_fin_wait2 tcp_close_wait tcp_closing :
      ConnState

-- The threads and the mutex have no field. `wire` is not a member: it lists the datagrams that
-- the kernel has taken from `sendto`, the oldest first.
pub record Client (K : Type 0) : Type 0 where
  pub fd : ℕ
  pub ip_id : ℕ
  pub c_port : ℕ
  pub s_port : ℕ
  pub c_ip : String
  pub s_ip : String
  pub file_path : String
  pub s_state : ConnState
  pub read_file : Bool
  pub finish_file : Bool
  pub finish_loop : Bool
  pub m_kcp : Option K
  pub seq : ℕ
  pub server_ack_seq : ℕ
  pub client_sum_send : ℕ
  pub stop_flag : Bool
  pub finish_send : Bool
  pub wire : List (List ℕ)

-- The constructor. `created` is the block that `ikcp_create` returned, which the code asserts not
-- to be null, and `random` the result of `rand()`. No line of the constructor sets `finish_loop`: it
-- holds what its memory held, `leftover`.
unfoldable pub kcp_client :
    {K : Type 0} → ℕ → ℕ → ℕ → String → String → String → ℕ → K → Bool → Client K
kcp_client fd c_port s_port c_ip s_ip file_path random created leftover = record {
  fd = fd;
  ip_id = 1231;
  c_port = u16 c_port;
  s_port = u16 s_port;
  c_ip = c_ip;
  s_ip = s_ip;
  file_path = file_path;
  s_state = tcp_closed;
  read_file = false;
  finish_file = false;
  finish_loop = leftover;
  m_kcp = some created;
  seq = u32 random;
  server_ack_seq = 0;
  client_sum_send = 0;
  stop_flag = false;
  finish_send = false;
  wire = [];
}
