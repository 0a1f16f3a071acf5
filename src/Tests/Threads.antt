-- ===== src/Tests/Threads.antt =====
-- The theorems on the threads of a client and on a message that waits at concrete inputs.
use kcp_fake_tcp.Base.{ℕ, ◌<◌, ◌≡◌, refl, ap, List, [], ◌∷◌, false, none, some, length, leb, arith}
use kcp_fake_tcp.Kcp.{Refuses}
use kcp_fake_tcp.Crypto.Password.{codes}
use kcp_fake_tcp.Client.Outcome.{returned, Survives}
use kcp_fake_tcp.Client.Loop.{LoopRound, datagram, loop_buffer, client_loop, run_tcp_client}
use kcp_fake_tcp.Client.Loop.Steady.{Steady, Steady-self}
use kcp_fake_tcp.Client.File.{send_pieces}
use kcp_fake_tcp.Client.Threads.{threads-Steady}
use kcp_fake_tcp.Server.Epoll.{read_loop}
use kcp_fake_tcp.Server.Epoll.Parts.{Part, reads}
use kcp_fake_tcp.Server.Epoll.Stuck.{read_loop-stuck}
use kcp_fake_tcp.Tests.Data.{Messages, address}
use kcp_fake_tcp.Tests.Post.{Post, recv_first, post_kcp, post_session, post_client}

-- A round in which the others do nothing and a datagram of three bytes comes in.
abbrev short_round : LoopRound Post
short_round = record { others = λ c. c; clock = 5; answers = []; event = datagram (1 ∷ 2 ∷ 3 ∷ []) }

threads-Steady_example :
    Survives (Steady post_client) (client_loop post_kcp address (short_round ∷ []) post_client)
    × Survives
        (Steady post_client)
        (run_tcp_client post_kcp address 3 (short_round ∷ []) loop_buffer post_client)
    × Survives
        (Steady post_client)
        (send_pieces post_kcp (λ n c. c) (codes "hello") 5 5 0 post_client)
threads-Steady_example =
    threads-Steady post_kcp address post_client (short_round ∷ []) (short_round ∷ []) (λ n c. c) 3
      loop_buffer (codes "hello") 5 5 0 (([], []), refl) (λ c. Steady-self c, tt)
      (λ c. Steady-self c, tt) (λ n c. Steady-self c)

recv_first-refuses :
    (limit : ℕ) (k : Post) (m : List ℕ) (ms : Messages)
    → k.0 ≡ m ∷ ms
    → limit < length m
    → (k' : Post) × (recv_first limit k ≡ (k', none)) × (k'.0 ≡ m ∷ ms)
recv_first-refuses limit ([], out) m ms e h = absurd (omega (arith, ap length e))
recv_first-refuses limit (m' ∷ ms', out) m ms e h =
    let same : m' ≡ m = cc e in
    let long : limit < length m' = rw same h in
    let refused : leb (length m') limit ≡ false = ground arith in
    ((m' ∷ ms', out), rw refused refl, e)

post_kcp-Refuses : Refuses post_kcp (λ k. k.0)
post_kcp-Refuses limit k m ms e h = recv_first-refuses limit k m ms e h

-- A message of three bytes, and a read of two.
abbrev waiting_block : Post
waiting_block = ((1 ∷ 2 ∷ 3 ∷ []) ∷ [], [])

abbrev short_parts : List Part
short_parts = record { bytes = 8 ∷ 9 ∷ []; taken = 0; messages = [] } ∷ []

read_loop-stuck_example :
    (k' : Post) × (read_loop post_kcp 7 5
        (reads short_parts)
        (record post_session { m_kcp = some waiting_block }, 0)
      ≡ returned ((record post_session { m_kcp = some k' }, 0), false))
    × (k'.0 ≡ (1 ∷ 2 ∷ 3 ∷ []) ∷ [])
read_loop-stuck_example =
    read_loop-stuck post_kcp (λ k. k.0) post_kcp-Refuses 7 4 short_parts waiting_block post_session
      0 (1 ∷ 2 ∷ 3 ∷ []) [] refl
      (waiting_block, refl, refl, omega arith, omega arith, omega arith, λ k e. tt)
