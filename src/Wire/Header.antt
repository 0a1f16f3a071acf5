-- ===== src/Wire/Header.antt =====
-- The two packet headers that code/kcp builds, as the structs `iphdr` and `tcphdr` of the C
-- library on Linux, each field at the value that the code stores into it, and their bytes in
-- memory on the little-endian host (bit fields start at the low bit).
use kcp_fake_tcp.Base.{
  ℕ, suc, ◌+◌, ◌*◌, ◌/◌, ◌%◌, ◌≡◌, refl, List, [], ◌∷◌, ◌++◌, u16_bytes, u32_bytes, length, get_or,
}

pub record IpHeader : Type 0 where
  pub ihl : ℕ
  pub version : ℕ
  pub tos : ℕ
  pub tot_len : ℕ
  pub id : ℕ
  pub frag_off : ℕ
  pub ttl : ℕ
  pub protocol : ℕ
  pub check : ℕ
  pub saddr : ℕ
  pub daddr : ℕ

pub record TcpHeader : Type 0 where
  pub source : ℕ
  pub dest : ℕ
  pub seq : ℕ
  pub ack_seq : ℕ
  pub doff : ℕ
  pub fin : ℕ
  pub syn : ℕ
  pub rst : ℕ
  pub psh : ℕ
  pub ack : ℕ
  pub urg : ℕ
  pub window : ℕ
  pub check : ℕ
  pub urg_ptr : ℕ

-- sizeof(struct iphdr), sizeof(struct tcphdr) and IP_TCP_HEADER_SIZE.
abbrev pub ipv4_header_size : ℕ
ipv4_header_size = 20

abbrev pub tcp_header_size : ℕ
tcp_header_size = 20

abbrev pub ip_tcp_header_size : ℕ
ip_tcp_header_size = 40

-- The words of the IP header in front of its check field.
abbrev pub ip_front : IpHeader → List ℕ
ip_front h =
    (h.ihl % 16 + h.version % 16 * 16) ∷ (h.tos % 256) ∷ u16_bytes h.tot_len
    ++ u16_bytes h.id
    ++ u16_bytes h.frag_off
    ++ (h.ttl % 256) ∷ (h.protocol % 256) ∷ []

unfoldable pub ip_bytes : IpHeader → List ℕ
ip_bytes h = ip_front h ++ u16_bytes h.check ++ u32_bytes h.saddr ++ u32_bytes h.daddr

-- The byte of the six flags; the two bits above them are reserved.
abbrev pub flag_byte : TcpHeader → ℕ
flag_byte h =
    h.fin % 2 + h.syn % 2 * 2 + h.rst % 2 * 4 + h.psh % 2 * 8 + h.ack % 2 * 16 + h.urg % 2 * 32

abbrev pub tcp_front : TcpHeader → List ℕ
tcp_front h =
    u16_bytes h.source
    ++ u16_bytes h.dest
    ++ u32_bytes h.seq
    ++ u32_bytes h.ack_seq
    ++ (h.doff % 16 * 16) ∷ flag_byte h ∷ u16_bytes h.window

unfoldable pub tcp_bytes : TcpHeader → List ℕ
tcp_bytes h = tcp_front h ++ u16_bytes h.check ++ u16_bytes h.urg_ptr

-- The integers at a position of a buffer.
abbrev pub read_u8 : List ℕ → ℕ → ℕ
read_u8 buf i = get_or buf i 0

abbrev pub read_u16 : List ℕ → ℕ → ℕ
read_u16 buf i = read_u8 buf i + 256 * read_u8 buf (suc i)

abbrev pub read_u32 : List ℕ → ℕ → ℕ
read_u32 buf i = read_u16 buf i + 65536 * read_u16 buf (suc (suc i))

-- A `tcphdr` copied out of the bytes of a buffer.
unfoldable pub read_tcp : List ℕ → TcpHeader
read_tcp buf = record {
  source = read_u16 buf 0;
  dest = read_u16 buf 2;
  seq = read_u32 buf 4;
  ack_seq = read_u32 buf 8;
  doff = read_u8 buf 12 / 16 % 16;
  fin = read_u8 buf 13 % 2;
  syn = read_u8 buf 13 / 2 % 2;
  rst = read_u8 buf 13 / 4 % 2;
  psh = read_u8 buf 13 / 8 % 2;
  ack = read_u8 buf 13 / 16 % 2;
  urg = read_u8 buf 13 / 32 % 2;
  window = read_u16 buf 14;
  check = read_u16 buf 16;
  urg_ptr = read_u16 buf 18;
}

-- Of a copied `iphdr` the code reads the header length alone.
unfoldable pub read_ihl : List ℕ → ℕ
read_ihl buf = read_u8 buf 0 % 16

pub length-ip_bytes : (h : IpHeader) → length (ip_bytes h) ≡ 20
unfolding ip_bytes
length-ip_bytes h = refl

pub length-tcp_bytes : (h : TcpHeader) → length (tcp_bytes h) ≡ 20
unfolding tcp_bytes
length-tcp_bytes h = refl
