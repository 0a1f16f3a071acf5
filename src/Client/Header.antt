-- ===== src/Client/Header.antt =====
-- `KcpClient::build_ip_tcp_header`, and the same block of `tcp_client_cb`, which fills the two
-- headers in the same way (code/kcp/kcp_client.cc).
pub mod Laws
use kcp_fake_tcp.Base.{ℕ, ◌+◌, String, List, ◌++◌, u16, u32, ntohs, ntohl, take, memcpy}
use kcp_fake_tcp.Wire.Header.{IpHeader, TcpHeader, ip_bytes, tcp_bytes, ip_tcp_header_size}
use kcp_fake_tcp.Wire.Checksum.{calculate_ip_checksum, calculate_tcp_checksum}
use kcp_fake_tcp.Client.State.{Client}

-- `++ip_id`, for each packet that is built.
unfoldable pub next_id : {K : Type 0} → Client K → Client K
next_id c = record c { ip_id = c.ip_id + 1 }

module _ {K : Type 0} (inet_addr : String → ℕ) (c : Client K) where
  -- The IP header with its check field still 0. The total length keeps the order of the host.
  unfoldable pub ip_header : ℕ → IpHeader
  ip_header data_len = record {
    ihl = 5;
    version = 4;
    tos = 0;
    tot_len = u16 (ip_tcp_header_size + data_len);
    id = ntohs (u16 c.ip_id);
    frag_off = 0;
    ttl = 255;
    protocol = 6;
    check = 0;
    saddr = u32 (inet_addr c.c_ip);
    daddr = u32 (inet_addr c.s_ip);
  }

  unfoldable pub tcp_header : ℕ → ℕ → ℕ → ℕ → TcpHeader
  tcp_header ack psh syn fin = record {
    source = ntohs (u16 c.c_port);
    dest = ntohs (u16 c.s_port);
    seq = ntohl (u32 (c.seq + c.client_sum_send));
    ack_seq = ntohl (u32 c.server_ack_seq);
    doff = 5;
    fin = fin;
    syn = syn;
    rst = 0;
    psh = psh;
    ack = ack;
    urg = 0;
    window = ntohs 8192;
    check = 0;
    urg_ptr = 0;
  }

  unfoldable pub ip_header_checked : ℕ → IpHeader
  unfolding ip_header
  ip_header_checked data_len =
      let ip = ip_header data_len in record ip { check = calculate_ip_checksum ip }

  -- The check field covers `data_len` bytes of `buffer`.
  unfoldable pub tcp_header_checked : List ℕ → ℕ → ℕ → ℕ → ℕ → ℕ → TcpHeader
  unfolding tcp_header ip_header_checked
  tcp_header_checked buffer data_len ack psh syn fin =
      let tcp = tcp_header ack psh syn fin in
      let sum = calculate_tcp_checksum (ip_header_checked data_len) tcp buffer data_len in
      record tcp { check = ntohs sum }

  -- The two headers, and behind them the bytes `body`.
  unfoldable pub packet : List ℕ → List ℕ → ℕ → ℕ → ℕ → ℕ → ℕ → List ℕ
  unfolding ip_header_checked tcp_header_checked
  packet buffer body data_len ack psh syn fin =
      ip_bytes (ip_header_checked data_len)
      ++ tcp_bytes (tcp_header_checked buffer data_len ack psh syn fin)
      ++ body

-- The packet is written to the start of `dest`, the argument `data` of the source.
unfoldable pub build_ip_tcp_header :
    {K : Type 0} → (String → ℕ) → List ℕ → List ℕ → ℕ → ℕ → ℕ → ℕ → ℕ → Client K → List ℕ × Client K
unfolding next_id
build_ip_tcp_header inet_addr dest buffer data_len ack psh syn fin c =
    let c' = next_id c in
    (
      memcpy dest (packet inet_addr c' buffer (take data_len buffer) data_len ack psh syn fin),
      record c' { client_sum_send = u32 (c'.client_sum_send + data_len) },
    )
