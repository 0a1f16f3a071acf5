-- ===== src/Client/Handshake/Silence.antt =====
-- The opening handshake where nothing is received (code/kcp/kcp_client.cc).
use kcp_fake_tcp.Base.{ℕ, ◌≡◌, ◌∙◌, refl, ap, String, List, [], ◌∷◌, true}
use kcp_fake_tcp.Client.Outcome.{Outcome, waiting}
use kcp_fake_tcp.Client.State.{Client}
use kcp_fake_tcp.Client.Receive.{
  Poll, select_error, select_timeout, recv_failed, not_ready, received,
}
use kcp_fake_tcp.Client.Teardown.{WaveRound}
use kcp_fake_tcp.Client.Handshake.{no_reply, reply_loop, is_closed, on_reply, start_hand_shake}
use kcp_fake_tcp.Client.Handshake.Laws.{after_syn, sends_both, sends_syn, syn_buffer}

-- No round brings a datagram.
abbrev pub Silent : List Poll → Type 0
Silent [] = Unit
Silent (received datagram expired ∷ ps) = ⊥
Silent (p ∷ ps) = Silent ps

reply_loop-Silent :
    (port : ℕ) (polls : List Poll) (buffer : List ℕ)
    → Silent polls
    → reply_loop port polls buffer ≡ no_reply
unfolding reply_loop
reply_loop-Silent port [] buffer s = refl
reply_loop-Silent port (received datagram expired ∷ ps) buffer s = absurd s
reply_loop-Silent port (select_error ∷ ps) buffer s = reply_loop-Silent port ps buffer s
reply_loop-Silent port (select_timeout ∷ ps) buffer s = reply_loop-Silent port ps buffer s
reply_loop-Silent port (recv_failed ∷ ps) buffer s = reply_loop-Silent port ps buffer s
reply_loop-Silent port (not_ready expired ∷ ps) buffer s = reply_loop-Silent port ps buffer s

-- From a closed connection whose SYN is taken by the system: as long as no datagram is received,
-- however many times `select` fails, times out or finds nothing to read, and however late it is, the
-- handshake has not returned and waits for the answer.
pub start_hand_shake-waits :
    {K : Type 0} (inet_addr : String → ℕ) (send_file : Client K → Outcome (Client K)) (c : Client K)
    (polls : List Poll) (wave : WaveRound)
    → is_closed c.s_state ≡ true
    → Silent polls
    → start_hand_shake inet_addr send_file (sends_both inet_addr send_file c polls wave) c
      ≡ waiting (after_syn inet_addr send_file c)
unfolding on_reply
start_hand_shake-waits inet_addr send_file c polls wave closed s =
    sends_syn inet_addr send_file c polls wave closed
    ∙ ap
        (λ r.
          on_reply inet_addr send_file (sends_both inet_addr send_file c polls wave) r
            (after_syn inet_addr send_file c))
        (reply_loop-Silent c.c_port polls (syn_buffer inet_addr send_file c) s)
