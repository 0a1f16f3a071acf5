-- ===== src/Client/Threads.antt =====
-- The three threads of a client side by side: `client_loop`, `run_tcp_client` and the one that sends
-- the file (code/kcp/kcp_client.cc).
use kcp_fake_tcp.Base.{ℕ, String, List}
use kcp_fake_tcp.Kcp.{Kcp}
use kcp_fake_tcp.Client.Outcome.{Survives}
use kcp_fake_tcp.Client.State.{Client}
use kcp_fake_tcp.Client.Loop.{LoopRound, client_loop, run_tcp_client}
use kcp_fake_tcp.Client.Loop.Steady.{HasBlock, Steady, Steady-self, Relies, client_loop-Steady}
use kcp_fake_tcp.Client.Loop.Guarantee.{run_tcp_client-Steady}
use kcp_fake_tcp.Client.File.{send_pieces}
use kcp_fake_tcp.Client.File.Finishes.{send_pieces-Steady}

-- Each of the threads keeps what it relies on in the others, until the file is queued: from a client
-- with a control block, whatever is received, `client_loop`, `run_tcp_client` and the loop over the
-- file do not end the process through a null pointer, and wherever they stand, the client's
-- addresses and file, the state of its connection and the number it counts from are the same, what
-- was sent before is still in front of what was sent since, and the block and the flags that were
-- there still are.
pub threads-Steady :
    {K : Type 0} (kcp : Kcp K) (inet_addr : String → ℕ) (c : Client K)
    (looping receiving : List (LoopRound K)) (between : ℕ → Client K → Client K) (fuel : ℕ)
    (buffer content : List ℕ) (size rounds total : ℕ)
    → HasBlock c
    → Relies kcp inet_addr looping
    → Relies kcp inet_addr receiving
    → ((n : ℕ) (x : Client K) → Steady x (between n x))
    → Survives (Steady c) (client_loop kcp inet_addr looping c)
      × Survives (Steady c) (run_tcp_client kcp inet_addr fuel receiving buffer c)
      × Survives (Steady c) (send_pieces kcp between content size rounds total c)
threads-Steady kcp inet_addr c looping receiving between fuel buffer content size rounds total block
      loop_relies recv_relies keeps =
    (
      client_loop-Steady kcp inet_addr looping c loop_relies block,
      run_tcp_client-Steady kcp inet_addr fuel receiving buffer c recv_relies block,
      send_pieces-Steady kcp between content size rounds total c c keeps block (Steady-self c),
    )
