-- ===== src/Client/Loop.antt =====
-- The two threads of a client, `client_loop` and `run_tcp_client` (code/kcp/kcp_client.cc), on the
-- state that they share with the thread that sends the file. The lines of `run_tcp_client` behind
-- the two unconditional `continue`s are never reached.
pub mod Laws
pub mod Steady
pub mod Guarantee
pub mod Bounds
use kcp_fake_tcp.Base.{
  ℕ, zero, suc, ◌+◌, ◌-◌, String, List, [], ◌∷◌, Bool, true, false, ◌==◌, ltb, if◌then◌else◌,
  Option, none, some, u32, take, drop, length, replicate,
}
use kcp_fake_tcp.Kcp.{Kcp}
use kcp_fake_tcp.Wire.Header.{ip_tcp_header_size}
use kcp_fake_tcp.Wire.Info.{TcpInfo, prase_tcp_packet}
use kcp_fake_tcp.Client.Outcome.{Outcome, returned, waiting, aborted}
use kcp_fake_tcp.Client.State.{Client}
use kcp_fake_tcp.Client.Receive.{recv_into}
use kcp_fake_tcp.Client.Output.{SendEvent, tcp_client_cb}
use kcp_fake_tcp.Crypto.Password.{codes}

-- How a round goes on after `select`: `FD_ISSET` is false, or `recvfrom` fails, or it fills the
-- buffer. A failed `select` leaves the set as it was, so that `recvfrom` follows it.
pub data LoopEvent : Type 0 where
  idle recv_error : LoopEvent
  datagram : List ℕ → LoopEvent

-- What the outside does in one round: the other threads act on the client, the clock is read, the
-- system answers the sends of each buffer, and the socket yields its event.
pub record LoopRound (K : Type 0) : Type 0 where
  pub others : Client K → Client K
  pub clock : ℕ
  pub answers : List (List SendEvent)
  pub event : LoopEvent

-- The bytes in front of the first 0.
unfoldable pub c_string : List ℕ → List ℕ
c_string [] = []
c_string (b ∷ bs) = let rest = c_string bs in if b == 0 then [] else b ∷ rest

unfoldable pub same_bytes : List ℕ → List ℕ → Bool
same_bytes [] [] = true
same_bytes (b ∷ bs) (d ∷ ds) = let rest = same_bytes bs ds in if b == d then rest else false
same_bytes _ _ = false

-- `strcmp(recv_buffer, "send_finish") == 0`, on a message in a buffer of zeros.
unfoldable pub is_finish : List ℕ → Bool
unfolding c_string same_bytes
is_finish message = same_bytes (c_string message) (codes "send_finish")

-- The bytes behind the headers; `none` where `len` is smaller than the headers.
unfoldable pub data_size : Option ℕ → Option ℕ
data_size none = none
data_size (some len) = if ltb len ip_tcp_header_size then none else some (len - ip_tcp_header_size)

-- What is handed to `ikcp_input`.
unfoldable pub payload : List ℕ → Option ℕ → Option (List ℕ)
payload buffer none = none
payload buffer (some n) = some (take n (drop ip_tcp_header_size buffer))

-- `info.seq + len - 40` on 32 bits, where `none` is a `len` of -1.
unfoldable pub next_ack : ℕ → Option ℕ → ℕ
next_ack seq none = u32 (seq + (4294967296 - 41))
next_ack seq (some len) = u32 (seq + len + (4294967296 - ip_tcp_header_size))

-- `char buffer[BUFFER_SIZE + 10] = {0}`.
abbrev pub loop_buffer : List ℕ
loop_buffer = replicate 1034 0

module _ {K : Type 0} (kcp : Kcp K) (inet_addr : String → ℕ) where
  -- The buffers that `ikcp_update` hands to `tcp_client_cb`, with the answers to each one.
  unfoldable pub emit : List (List ℕ) → List (List SendEvent) → Client K → Outcome (Client K)
  unfolding tcp_client_cb
  emit [] answers c = returned c
  emit (buffer ∷ buffers) [] c = waiting c
  emit (buffer ∷ buffers) (es ∷ answers) c =
      elim (tcp_client_cb inet_addr buffer (length buffer) es c) [
        | aborted ↦ aborted
        | waiting t ↦ waiting t.0
        | returned t ↦ emit buffers answers t.0
      ]

  -- `ikcp_update(m_kcp, KCP::iclock())`.
  unfoldable pub update : ℕ → List (List SendEvent) → Client K → Outcome (Client K)
  unfolding emit
  update clock answers c = elim c.m_kcp [
    | none ↦ aborted
    | some k ↦
        let (k', buffers) = kcp.update clock k in
        emit buffers answers (record c { m_kcp = some k' })
  ]

  unfoldable pub client_loop : List (LoopRound K) → Client K → Outcome (Client K)
  unfolding update
  client_loop [] c = elim c.stop_flag [ true ↦ returned c | false ↦ waiting c ]
  client_loop (round ∷ rounds) c =
      let c0 = round.others c in
      elim c0.stop_flag [
        | true ↦ returned c0
        | false ↦ elim (update round.clock round.answers c0) [
          | aborted ↦ aborted
          | waiting c1 ↦ waiting c1
          | returned c1 ↦ client_loop rounds c1
        ]
      ]

  -- What the loop over `ikcp_recv` does with a message.
  unfoldable pub on_message : List ℕ → Client K → Client K
  unfolding is_finish
  on_message message c = if is_finish message then record c { finish_send = true } else c

  -- The loop over `ikcp_recv`, which an empty message ends too.
  unfoldable pub recv_messages : ℕ → Option ℕ → K → Client K → Outcome (Client K)
  unfolding on_message
  recv_messages zero limit k c = waiting c
  recv_messages (suc fuel) limit k c =
      let (k', message) = kcp.recv limit k in
      let c' = record c { m_kcp = some k' } in
      elim message [
        | none ↦ returned c'
        | some [] ↦ returned c'
        | some (b ∷ bs) ↦ recv_messages fuel limit k' (on_message (b ∷ bs) c')
      ]

  -- A packet for the client's port that holds data. The `Bool` says that the thread ends.
  unfoldable pub on_data : ℕ → List ℕ → Option ℕ → TcpInfo → Client K → Outcome (Client K × Bool)
  unfolding payload recv_messages
  on_data fuel buffer size info c = elim c.m_kcp [
    | none ↦ aborted
    | some k ↦
        let (k', accepted) = kcp.input (payload buffer size) k in
        let c' = record c { m_kcp = some k' } in
        elim accepted [
          | false ↦ returned (c', if info.fin == 0 then false else true)
          | true ↦ elim (recv_messages fuel size k' c') [
            | aborted ↦ aborted
            | waiting c'' ↦ waiting (c'', false)
            | returned c'' ↦ returned (c'', false)
          ]
        ]
  ]

  -- What is in the buffer, where `recvfrom` returned `len`.
  unfoldable pub on_packet : ℕ → List ℕ → Option ℕ → Client K → Outcome (Client K × Bool)
  unfolding data_size next_ack on_data
  on_packet fuel buffer len c =
      let info = prase_tcp_packet buffer (elim len [ none ↦ 0 | some n ↦ n ]) in
      let c' = record c { server_ack_seq = next_ack info.seq len } in
      elim (info.port_dst == c.c_port) [
        | false ↦ returned (c, false)
        | true ↦ elim (data_size len) [
          | none ↦ on_data fuel buffer none info c'
          | some zero ↦ returned (c', false)
          | some (suc n) ↦ on_data fuel buffer (some (suc n)) info c'
        ]
      ]

  -- The event of a round, and the buffer after it.
  unfoldable pub on_event : ℕ → LoopEvent → List ℕ → Client K → List ℕ × Outcome (Client K × Bool)
  unfolding on_packet
  on_event fuel idle buffer c = (buffer, returned (c, false))
  on_event fuel recv_error buffer c = (buffer, on_packet fuel buffer none c)
  on_event fuel (datagram bytes) buffer c =
      let buffer' = recv_into 1024 buffer bytes in
      (buffer', on_packet fuel buffer' (some (length (take 1024 bytes))) c)

  unfoldable pub run_tcp_client : ℕ → List (LoopRound K) → List ℕ → Client K → Outcome (Client K)
  unfolding update on_event
  run_tcp_client fuel [] buffer c = elim c.stop_flag [
    | true ↦ returned (record c { finish_loop = true })
    | false ↦ waiting c
  ]
  run_tcp_client fuel (round ∷ rounds) buffer c =
      let c0 = round.others c in
      elim c0.stop_flag [
        | true ↦ returned (record c0 { finish_loop = true })
        | false ↦ elim (update round.clock round.answers c0) [
          | aborted ↦ aborted
          | waiting c1 ↦ waiting c1
          | returned c1 ↦
              let (buffer', o) = on_event fuel round.event buffer c1 in
              elim o [
                | aborted ↦ aborted
                | waiting (c2, _) ↦ waiting c2
                | returned (c2, true) ↦ returned (record c2 { finish_loop = true })
                | returned (c2, false) ↦ run_tcp_client fuel rounds buffer' c2
              ]
        ]
      ]
