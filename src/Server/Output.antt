-- ===== src/Server/Output.antt =====
-- `tcp_server_send_cb` (code/kcp/kcp_server.cc): the server's KCP output, a plain `send` on the TCP
-- connection.
pub mod Laws
use kcp_fake_tcp.Base.{
  ℕ, ◌+◌, List, [], ◌∷◌, ◌++◌, ltb, if◌then◌else◌, Option, none, some, take, drop,
}
use kcp_fake_tcp.Client.Outcome.{Outcome, returned, waiting}
use kcp_fake_tcp.Client.Output.{chunk_len}
use kcp_fake_tcp.Server.Session.{Session}

-- The answer to one `send`: an error, or the number of bytes that the kernel takes.
pub data SendResult : Type 0 where
  error : SendResult
  took : ℕ → SendResult

-- The bytes that one `send` at `sended` offers.
abbrev pub offered : List ℕ → ℕ → ℕ → List ℕ
offered buffer len sended = take (chunk_len len sended) (drop sended buffer)

module _ {K : Type 0} (buffer : List ℕ) (len : ℕ) where
  -- The loop, which counts every byte that it has offered. The result -1 is `none`.
  unfoldable pub server_loop : List SendResult → ℕ → Session K → Outcome (Session K × Option ℕ)
  server_loop [] sended s =
      if ltb sended len then waiting (s, some sended) else returned (s, some sended)
  server_loop (error ∷ rs) sended s =
      if ltb sended len then returned (s, none) else returned (s, some sended)
  server_loop (took n ∷ rs) sended s =
      let s' = record s { wire = s.wire ++ take n (offered buffer len sended) ∷ [] } in
      let rest = server_loop rs (sended + chunk_len len sended) s' in
      if ltb sended len then rest else returned (s, some sended)

  unfoldable pub tcp_server_send_cb : List SendResult → Session K → Outcome (Session K × Option ℕ)
  unfolding server_loop
  tcp_server_send_cb rs s = server_loop rs 0 s
