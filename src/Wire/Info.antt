-- ===== src/Wire/Info.antt =====
-- `tcp_info` and `prase_tcp_packet` (code/kcp/kcp_socket.h, code/kcp/kcp_socket.cc).
use kcp_fake_tcp.Base.{ℕ, ◌%◌, ◌≡◌, refl, List, ◌++◌, drop, arith, u16, u32, ntohs, ntohl}
use kcp_fake_tcp.Wire.Header.{
  IpHeader, TcpHeader, ip_bytes, tcp_bytes, read_tcp, read_ihl, ipv4_header_size,
}

-- Every field of the struct; the code fills nine of them and zeroes the others.
pub record TcpInfo : Type 0 where
  pub proto : ℕ
  pub syn : ℕ
  pub ack : ℕ
  pub rst : ℕ
  pub fin : ℕ
  pub psh : ℕ
  pub urg : ℕ
  pub ece : ℕ
  pub cwr : ℕ
  pub window_size : ℕ
  pub port_src : ℕ
  pub port_dst : ℕ
  pub seq : ℕ
  pub ack_seq : ℕ
  pub data_len : ℕ
  pub ip_src : ℕ
  pub ip_dst : ℕ
  pub iphdr_len : ℕ

-- The buffer is read at fixed offsets, whatever `len` says.
unfoldable pub prase_tcp_packet : List ℕ → ℕ → TcpInfo
prase_tcp_packet buffer len =
    let tcp_header = read_tcp (drop ipv4_header_size buffer) in
    record {
      proto = 0;
      syn = 0;
      ack = tcp_header.ack;
      rst = tcp_header.rst;
      fin = tcp_header.fin;
      psh = 0;
      urg = 0;
      ece = 0;
      cwr = 0;
      window_size = 0;
      port_src = ntohs tcp_header.source;
      port_dst = ntohs tcp_header.dest;
      seq = ntohl tcp_header.seq;
      ack_seq = ntohl tcp_header.ack_seq;
      data_len = 0;
      ip_src = 0;
      ip_dst = 0;
      iphdr_len = read_ihl buffer;
    }

-- What the parser makes of two headers, in the terms of the fields that were stored.
abbrev pub InfoOf : IpHeader → TcpHeader → TcpInfo → Type 0
InfoOf ip tcp info =
    (info.ack ≡ tcp.ack % 2)
    × (info.rst ≡ tcp.rst % 2)
    × (info.fin ≡ tcp.fin % 2)
    × (info.port_src ≡ ntohs (u16 tcp.source))
    × (info.port_dst ≡ ntohs (u16 tcp.dest))
    × (info.seq ≡ ntohl (u32 tcp.seq))
    × (info.ack_seq ≡ ntohl (u32 tcp.ack_seq))
    × (info.iphdr_len ≡ ip.ihl % 16)
    × (info.syn ≡ 0)
    × (info.psh ≡ 0)
    × (info.urg ≡ 0)

-- The parser reads from the bytes of any two headers, whatever lies behind them, the ACK, RST and
-- FIN flags, the ports, the two numbers and the header length that were stored, in the host's order;
-- the SYN, PSH and URG flags come out as 0 whatever was stored.
pub prase_tcp_packet-InfoOf :
    (ip : IpHeader) (tcp : TcpHeader) (rest : List ℕ) (len : ℕ)
    → InfoOf ip tcp (prase_tcp_packet (ip_bytes ip ++ tcp_bytes tcp ++ rest) len)
unfolding prase_tcp_packet ip_bytes tcp_bytes read_tcp read_ihl ntohs ntohl
prase_tcp_packet-InfoOf ip tcp rest len = (
  omega arith,
  omega arith,
  omega arith,
  omega arith,
  omega arith,
  omega arith,
  omega arith,
  omega arith,
  refl,
  refl,
  refl,
)
