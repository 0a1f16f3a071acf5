-- ===== src/Server.antt =====
-- The server's end: `KcpHandleClient` (code/kcp/kcp_server.h, code/kcp/kcp_server.cc) and
-- `ServerEpoll` (code/kcp/server_epoll.h, code/kcp/server_epoll.cc).
pub mod Session
pub mod Output
pub mod Receive
pub mod Epoll
pub mod Single
