-- ===== src/Client/Receive.antt =====
-- How the client receives: `select`, `FD_ISSET`, `recvfrom` and the clock in one round of a loop, and
-- `prase_tcp_packet` on the buffer (code/kcp/kcp_client.cc).
use kcp_fake_tcp.Base.{ℕ, ◌≡◌, ◌⊎◌, List, [], ◌∷◌, Bool, take, length, replicate, memcpy}
use kcp_fake_tcp.Wire.Info.{TcpInfo, prase_tcp_packet}

-- One round of a receive loop: `select` returns -1 or 0, `FD_ISSET` is false, `recvfrom` fails, or
-- it fills the buffer from a datagram. A `Bool` says whether the deadline has passed when the
-- clock is read at the end of the round.
pub data Poll : Type 0 where
  select_error select_timeout recv_failed : Poll
  not_ready : Bool → Poll
  received : List ℕ → Bool → Poll

-- The local `char data[41] = {}`.
abbrev pub small_buffer : List ℕ
small_buffer = replicate 41 0

-- `recvfrom` into a buffer of `size` bytes: a longer datagram is cut.
abbrev pub recv_into : ℕ → List ℕ → List ℕ → List ℕ
recv_into size buffer datagram = memcpy buffer (take size datagram)

-- `prase_tcp_packet` on what `recvfrom` left in a buffer of `size` bytes.
unfoldable pub recv_info : ℕ → List ℕ → List ℕ → TcpInfo
recv_info size buffer datagram =
    prase_tcp_packet (recv_into size buffer datagram) (length (take size datagram))

-- The parser made `info` of one of the datagrams that a loop received into a buffer of `size`
-- bytes.
abbrev pub Heard : ℕ → List Poll → TcpInfo → Type 0
Heard size [] info = ⊥
Heard size (received datagram expired ∷ ps) info =
    ((buffer : List ℕ) × (info ≡ recv_info size buffer datagram)) ⊎ Heard size ps info
Heard size (p ∷ ps) info = Heard size ps info
