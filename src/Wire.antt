-- ===== src/Wire.antt =====
-- What crosses the wire: the headers, the checksums over them and the parser of received packets
-- (code/kcp/kcp_socket.h and code/kcp/kcp_socket.cc).
pub mod Header
pub mod Checksum
pub mod Info
