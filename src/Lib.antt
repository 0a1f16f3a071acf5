-- ===== src/Lib.antt =====
-- A model of kcp-fakeTCP: a file transfer over KCP whose client speaks a TCP of its own making on a
-- raw socket, while the server is an ordinary TCP server with epoll.
--
-- The parts, and the files that model them:
--   Wire       code/kcp/kcp_socket.h, code/kcp/kcp_socket.cc: the two packet headers as bytes, the
--              parser `prase_tcp_packet`, the IP and TCP checksums.
--   Kcp        the calls of the KCP library (code/kcp/ikcp.h, code/kcp/ikcp.cc, a copy of another
--              project). The library is a parameter: a record of operations on a control block.
--   Client     code/kcp/kcp_client.h, code/kcp/kcp_client.cc: State (members, constructor), Header
--              (`build_ip_tcp_header`), Output (`tcp_client_cb`), Handshake (`start_hand_shake`),
--              Teardown (`start_waving`, `finish` and the four `waving_` functions), Loop
--              (`client_loop`, `run_tcp_client`), File (`kcp_client_start`, `send_file`, `Close`,
--              the destructor). Connection puts the handshake, `send_file` and `finish` together,
--              Threads the three threads.
--   Server     code/kcp/kcp_server.h, code/kcp/kcp_server.cc, code/kcp/server_epoll.h,
--              code/kcp/server_epoll.cc: Session (`KcpHandleClient`), Output
--              (`tcp_server_send_cb`), Receive (the message loop of `startEpoll`), Epoll (the
--              set-up, the events and the loop of `startEpoll`, the rounds of `updateKcp`, the
--              destructor), Single (`run_tcp_server`, which nothing calls).
--   Sockets    code/kcp/kcp_socket.cc: `setAddr`, `StartFakeTcp`, `StartServer`.
--   Clock      code/kcp/kcp_socket.h: `iclock`, `isleep`.
--   Transfer   a file from the client's `send_file` to the server's session and back: Parts (over
--              several calls of `read`), Serving (from `accept` on), Answer ("send_finish").
--   Crypto     code/model.cc: SHA-256, SM4, base64 and SM3 on strings of characters.
--   Base       the names and lemmas that the others share.
--
-- How they interact: `start_hand_shake` ends in `send_file`, which starts the two threads, queues
-- the file with `ikcp_send` and ends in `finish`. The threads call `ikcp_update`, which calls
-- `tcp_client_cb`; that cuts the bytes into chunks and sends each as a TCP segment. The server
-- reads the stream, feeds it to `ikcp_input`, and makes a file of what `ikcp_recv` returns.
--
-- State and system calls: an object is a record with the members' names, an operation takes it and
-- returns the new one. What the system answers (`select`, `sendto`, `recvfrom`, `read`, the clock)
-- is a list of answers that an operation takes as an argument. `Outcome` says what becomes of it:
-- it returned, it still waits when the answers are used up, or an `assert` or an access through a
-- null pointer ended the process. The field `wire` is no member: it lists what the kernel took.
-- Where other threads run between two steps, what they do to the object is an argument; what a
-- thread relies on in the others is the relation Steady, of Client/Loop/Steady.antt.
--
-- Numbers are unbounded, with the wrap-around of the fields of 16 and 32 bits written out, and that
-- of the `int` in `sm3_init`; the count of the files of `startEpoll`, an `int` too, goes on instead.
-- The host is little-endian.
--
-- Fuel: a carry loop has 3 rounds, and a sum of 32 bits needs no more; the loop over the pieces of a
-- file has as many rounds as the file has bytes. A message loop has an argument for its rounds, and
-- still waits when they are used up; each round but the last takes one of the messages that KCP
-- holds, so that one round more than there are messages is enough.
--
-- The events of `startEpoll` and the rounds of `updateKcp` are steps of one state, one after the
-- other: what two threads do to the map at the same time without the mutex is not modelled.
--
-- Not modelled: the KCP library; the log lines; the unreachable code behind the unconditional
-- `continue`s of `run_tcp_client` and `updateKcp`; the branches for Windows; code/kcp.h and
-- code/kcp.cc, constants and a class that nothing uses and whose functions have empty bodies; the
-- programs of tests/, which make a client or a server and call what is modelled here; stript/.
pub mod Base
pub mod Wire
pub mod Kcp
pub mod Clock
pub mod Sockets
pub mod Client
pub mod Server
pub mod Crypto
pub mod Transfer
pub mod Tests
