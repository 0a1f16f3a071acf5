-- ===== src/Client/Header/Laws.antt =====
-- The packets of `build_ip_tcp_header` and of `tcp_client_cb` (code/kcp/kcp_client.cc), on the side
-- of whoever receives them.
use mathlib.Core.List.{append_assoc, append-nil}
use kcp_fake_tcp.Base.{
  ℕ, ◌+◌, ◌*◌, ◌/◌, ◌%◌, ◌≤◌, ◌≡◌, ◌↔◌, ◌∙◌, refl, sym, ap, subst, String, List, [], ◌++◌, u16, u32,
  take, drop, length, get_or, arith, ntohs-u16-ntohs, ntohl-u32-ntohl,
}
use kcp_fake_tcp.Wire.Header.{ip_bytes, tcp_bytes, ip_tcp_header_size}
use kcp_fake_tcp.Wire.Checksum.{calculate_ip_checksum, calculate_tcp_checksum}
use kcp_fake_tcp.Wire.Checksum.Laws.{
  payload_sum, calculate_ip_checksum_iff, calculate_tcp_checksum_iff,
}
use kcp_fake_tcp.Wire.Info.{TcpInfo, prase_tcp_packet, prase_tcp_packet-InfoOf}
use kcp_fake_tcp.Client.State.{Client}
use kcp_fake_tcp.Client.Header.{
  next_id, ip_header, tcp_header, ip_header_checked, tcp_header_checked, packet,
  build_ip_tcp_header,
}

-- What a receiver reads in a packet of the client `c`.
pub record Carries {K : Type 0} (c : Client K) (ack fin : ℕ) (info : TcpInfo) : Type 0 where
  pub source : info.port_src ≡ u16 c.c_port
  pub dest : info.port_dst ≡ u16 c.s_port
  pub sequence : info.seq ≡ u32 (c.seq + c.client_sum_send)
  pub acknowledged : info.ack_seq ≡ u32 c.server_ack_seq
  pub ack_flag : info.ack ≡ ack % 2
  pub fin_flag : info.fin ≡ fin % 2
  pub no_reset : info.rst ≡ 0
  pub words : info.iphdr_len ≡ 5

-- The byte of the flags in a packet whose IP header has no options.
abbrev pub flags_of : List ℕ → ℕ
flags_of bytes = get_or bytes 33 0

module _ {K : Type 0} (inet_addr : String → ℕ) (c : Client K) where
  -- FIN is the lowest bit, SYN the next, then RST, PSH, ACK and URG.
  pub packet-flags_of :
      (buffer body rest : List ℕ) (data_len ack psh syn fin : ℕ)
      → flags_of (packet inet_addr c buffer body data_len ack psh syn fin ++ rest)
        ≡ fin % 2 + syn % 2 * 2 + psh % 2 * 8 + ack % 2 * 16
  unfolding packet ip_bytes tcp_bytes tcp_header_checked tcp_header
  packet-flags_of buffer body rest data_len ack psh syn fin = omega arith

  pub packet-flags :
      (buffer body : List ℕ) (data_len ack psh syn fin : ℕ)
      → flags_of (packet inet_addr c buffer body data_len ack psh syn fin)
        ≡ fin % 2 + syn % 2 * 2 + psh % 2 * 8 + ack % 2 * 16
  packet-flags buffer body data_len ack psh syn fin =
      ap flags_of (sym (append-nil (packet inet_addr c buffer body data_len ack psh syn fin)))
      ∙ packet-flags_of buffer body [] data_len ack psh syn fin

  pub prase_tcp_packet-packet :
      (buffer body rest : List ℕ) (data_len ack psh syn fin len : ℕ)
      → Carries c ack fin
          (prase_tcp_packet (packet inet_addr c buffer body data_len ack psh syn fin ++ rest) len)
  unfolding packet
  prase_tcp_packet-packet buffer body rest data_len ack psh syn fin len =
      let ip = ip_header_checked inet_addr c data_len in
      let tcp = tcp_header_checked inet_addr c buffer data_len ack psh syn fin in
      let info = prase_tcp_packet-InfoOf ip tcp (body ++ rest) len in
      subst (λ bytes. Carries c ack fin (prase_tcp_packet bytes len))
        (sym (append_assoc (ip_bytes ip ++ tcp_bytes tcp) body rest))
        (record {
          source = info.3 ∙ ntohs-u16-ntohs c.c_port;
          dest = info.4 ∙ ntohs-u16-ntohs c.s_port;
          sequence = info.5 ∙ ntohl-u32-ntohl (c.seq + c.client_sum_send);
          acknowledged = info.6 ∙ ntohl-u32-ntohl c.server_ack_seq;
          ack_flag = info.0;
          fin_flag = info.2;
          no_reset = info.1;
          words = info.7;
        })

  pub packet-Carries :
      (buffer body : List ℕ) (data_len ack psh syn fin len : ℕ)
      → Carries c ack fin
          (prase_tcp_packet (packet inet_addr c buffer body data_len ack psh syn fin) len)
  packet-Carries buffer body data_len ack psh syn fin len =
      subst (λ bytes. Carries c ack fin (prase_tcp_packet bytes len)) (append-nil _)
        (prase_tcp_packet-packet buffer body [] data_len ack psh syn fin len)

  -- Behind the 40 bytes of the headers stands the body.
  pub packet-body :
      (buffer body : List ℕ) (data_len ack psh syn fin : ℕ)
      → drop ip_tcp_header_size (packet inet_addr c buffer body data_len ack psh syn fin) ≡ body
  unfolding packet ip_bytes tcp_bytes
  packet-body buffer body data_len ack psh syn fin = refl

pub Carries-next_id :
    {K : Type 0} {c : Client K} {ack fin : ℕ} {info : TcpInfo}
    → Carries (next_id c) ack fin info
    → Carries c ack fin info
unfolding next_id
Carries-next_id h = record {
  source = h.source;
  dest = h.dest;
  sequence = h.sequence;
  acknowledged = h.acknowledged;
  ack_flag = h.ack_flag;
  fin_flag = h.fin_flag;
  no_reset = h.no_reset;
  words = h.words;
}

-- The packet that `build_ip_tcp_header` leaves at the start of `dest` parses, whatever lies behind
-- it, to the client's ports, its next sequence number and its acknowledgement number, with no reset
-- and with the ACK and FIN flags that were asked for; its byte of flags has the FIN, SYN, PSH and ACK
-- bits that were asked for, and RST and URG are 0; and the call moves on the packet counter and the
-- bytes sent, and nothing else.
pub build_ip_tcp_header-Carries :
    {K : Type 0} (inet_addr : String → ℕ) (dest buffer : List ℕ) (data_len ack psh syn fin len : ℕ)
    (c : Client K)
    → let (bytes, c') = build_ip_tcp_header inet_addr dest buffer data_len ack psh syn fin c in
      Carries c ack fin (prase_tcp_packet bytes len)
      × (flags_of bytes ≡ fin % 2 + syn % 2 * 2 + psh % 2 * 8 + ack % 2 * 16)
      × (c'
          ≡ record c { ip_id = c.ip_id + 1; client_sum_send = u32 (c.client_sum_send + data_len) })
unfolding build_ip_tcp_header
build_ip_tcp_header-Carries inet_addr dest buffer data_len ack psh syn fin len c =
    let whole =
      packet inet_addr (next_id c) buffer (take data_len buffer) data_len ack psh syn fin in
    let behind = drop (length whole) dest in
    (
      Carries-next_id (
          prase_tcp_packet-packet inet_addr (next_id c) buffer (take data_len buffer) behind
            data_len ack psh syn fin len),
      packet-flags_of inet_addr (next_id c) buffer (take data_len buffer) behind data_len ack psh
          syn fin,
      refl,
    )

module _ {K : Type 0} (inet_addr : String → ℕ) (c : Client K) where
  -- A receiver that sums the IP header of a packet again, with the stored check field in it, comes
  -- to 0 exactly when the two bytes of that field are the same: it is stored without a change of
  -- byte order.
  pub ip_header_checked_iff :
      (data_len : ℕ)
      → let ip = ip_header_checked inet_addr c data_len in
        (calculate_ip_checksum ip ≡ 0) ↔ (ip.check / 256 ≡ ip.check % 256)
  unfolding ip_header_checked ip_header
  ip_header_checked_iff data_len = calculate_ip_checksum_iff (ip_header inet_addr c data_len) refl

  -- A packet of at most 65495 bytes of data is the bytes of two headers in front of its body. Where the TCP check field was taken
  -- over the bytes `buffer` and the packet carries `body` of the same length, the receiver's sum
  -- over the packet comes to 0 exactly when the word sums of the two agree modulo 65535.
  pub packet-checksum_iff :
      (buffer body : List ℕ) (data_len ack psh syn fin : ℕ)
      → data_len ≤ 65495
      → let ip = ip_header_checked inet_addr c data_len in
        let tcp = tcp_header_checked inet_addr c buffer data_len ack psh syn fin in
        (packet inet_addr c buffer body data_len ack psh syn fin
          ≡ ip_bytes ip ++ tcp_bytes tcp ++ body)
        × ((calculate_tcp_checksum ip tcp body data_len ≡ 0)
            ↔ (payload_sum buffer data_len % 65535 ≡ payload_sum body data_len % 65535))
  unfolding packet
  packet-checksum_iff buffer body data_len ack psh syn fin h =
      let ip = ip_header_checked inet_addr c data_len in
      let tcp = tcp_header inet_addr c ack psh syn fin in
      (refl, calculate_tcp_checksum_iff ip tcp buffer body data_len h)
