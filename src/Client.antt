-- ===== src/Client.antt =====
-- `KCP::KcpClient` (code/kcp/kcp_client.h, code/kcp/kcp_client.cc): one TCP connection played over
-- a raw socket, which carries the KCP session.
pub mod Outcome
pub mod State
pub mod Receive
pub mod Header
pub mod Output
pub mod Teardown
pub mod Handshake
pub mod Loop
pub mod File
pub mod Threads
pub mod Connection
