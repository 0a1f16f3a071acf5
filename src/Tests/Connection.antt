-- ===== src/Tests/Connection.antt =====
-- The theorem on a whole connection at a concrete input.
use kcp_fake_tcp.Base.{
  ℕ, ◌+◌, ◌≤◌, ◌≡◌, ◌∙◌, refl, ap, List, [], ◌∷◌, ◌++◌, Bool, true, false, Bool-cases, inl, inr,
  ◌==◌, if◌then◌else◌, Option, none, some, u32, length, arith,
}
use kcp_fake_tcp.Wire.Header.{ip_tcp_header_size}
use kcp_fake_tcp.Wire.Info.{prase_tcp_packet}
use kcp_fake_tcp.Crypto.Password.{codes}
use kcp_fake_tcp.Client.Outcome.{Outcome, returned, waiting, aborted, Survives}
use kcp_fake_tcp.Client.State.{Client, tcp_closed, tcp_closing}
use kcp_fake_tcp.Client.Receive.{received}
use kcp_fake_tcp.Client.Header.Laws.{Carries, flags_of}
use kcp_fake_tcp.Client.Teardown.{finish}
use kcp_fake_tcp.Client.Teardown.Complete.{past_both}
use kcp_fake_tcp.Client.Handshake.{accept_syn_ack}
use kcp_fake_tcp.Client.Handshake.Laws.{connected, synchronised, start_hand_shake-connected}
use kcp_fake_tcp.Client.Loop.Steady.{
  Steady, Steady-trans, Steady-self, Steady-block, Steady-answered, Steady-ended,
}
use kcp_fake_tcp.Client.Loop.{
  loop_buffer, c_string, same_bytes, is_finish, on_message, recv_messages, run_tcp_client,
}
use kcp_fake_tcp.Client.File.Closes.{thread}
use kcp_fake_tcp.Client.File.{
  Tick, done, crashed, base_name, wait_loop, poll_loop, waitsnd_loop, file_header, SendRun,
  send_file,
}
use kcp_fake_tcp.Client.File.Finishes.{Answers}
use kcp_fake_tcp.Client.File.Waits.{IsDone}
use kcp_fake_tcp.Client.File.Abandons.{Stands, send_file-Stands}
use kcp_fake_tcp.Client.File.Whole.{name_of}
use kcp_fake_tcp.Client.Connection.{connect, connect-closes}
use kcp_fake_tcp.Tests.Data.{address}
use kcp_fake_tcp.Tests.Post.{Post, post_kcp, post_client}
use kcp_fake_tcp.Tests.Teardown.{ack_segment, fin_segment, round, cooperates}
use kcp_fake_tcp.Tests.Handshake.{
  syn_ack, syn_ack_info, no_wave, quiet, syn_ack_port, syn_ack_fin, syn_ack_acked, syn_ack_reads,
  other_port,
}

abbrev closed_post : Client Post
closed_post = record post_client { s_state = tcp_closed }

abbrev content : List ℕ
content = codes "hello"

-- One sleep, in which another thread does `act`.
abbrev sleep : (Client Post → Client Post) → List (Tick Post)
sleep act = record { others = act; expired = false } ∷ []

-- What the loop over `ikcp_recv` makes of the client when the server's answer is in its block.
abbrev answer : Client Post → Client Post
answer c = elim c.m_kcp [
  | none ↦ c
  | some k ↦ elim (recv_messages post_kcp address 2 (some 11) (codes "send_finish" ∷ [], k.1) c) [
    | aborted ↦ c
    | waiting c' ↦ c'
    | returned c' ↦ c'
  ]
]

answer-Steady : (c : Client Post) → Steady c (answer c)
unfolding recv_messages on_message is_finish c_string same_bytes
answer-Steady c = held c.m_kcp
  where
    held :
        (m : Option Post)
        → Steady c (elim m [
          | none ↦ c
          | some k ↦
              elim (recv_messages post_kcp address 2 (some 11) (codes "send_finish" ∷ [], k.1) c) [
                | aborted ↦ c
                | waiting c' ↦ c'
                | returned c' ↦ c'
              ]
        ])
    held none = Steady-self c
    held (some k) =
        Steady-trans (Steady-block c ([], k.1))
          (Steady-answered (record c { m_kcp = some ([], k.1) }))

answer-heard : (c : Client Post) (k : Post) → c.m_kcp ≡ some k → (answer c).finish_send ≡ true
unfolding recv_messages on_message is_finish c_string same_bytes
answer-heard c k e =
    ap
      (λ (m : Option Post).
        (elim m as (λ _. Client Post) [
          | none ↦ c
          | some k ↦
              elim (recv_messages post_kcp address 2 (some 11) (codes "send_finish" ∷ [], k.1) c) [
                | aborted ↦ c
                | waiting c' ↦ c'
                | returned c' ↦ c'
              ]
        ]).finish_send)
      e

-- The thread that runs `run_tcp_client`, at the head of its loop.
abbrev pub ending : Client Post → Client Post
ending c = thread post_kcp address 3 loop_buffer c

pub ending-Steady : (c : Client Post) → Steady c (ending c)
unfolding run_tcp_client
ending-Steady c = held c.stop_flag
  where
    held :
        (b : Bool)
        → Steady c
            (elim (elim b as (λ _. Outcome (Client Post)) [
              | true ↦ returned (record c { finish_loop = true })
              | false ↦ waiting c
            ]) [ aborted ↦ c | waiting c' ↦ c' | returned c' ↦ c' ])
    held true = Steady-ended c
    held false = Steady-self c

ending-ends : (c : Client Post) → c.stop_flag ≡ true → (ending c).finish_loop ≡ true
unfolding run_tcp_client
ending-ends c e =
    ap
      (λ (b : Bool).
        (elim (elim b as (λ _. Outcome (Client Post)) [
          | true ↦ returned (record c { finish_loop = true })
          | false ↦ waiting c
        ])
          as (λ _. Client Post) [ aborted ↦ c | waiting c' ↦ c' | returned c' ↦ c' ]).finish_loop)
      e

-- The server's answer comes in, all is acknowledged, and `run_tcp_client` ends, each within one
-- sleep.
abbrev prompt_run : SendRun Post
prompt_run = record {
  content = some content;
  between = λ n c. c;
  finish_send_ticks = sleep answer;
  waitsnd_ticks = sleep (λ c. record c { m_kcp = some ([], []) });
  finish_loop_ticks = sleep ending;
  close_ticks = [];
  waves = [];
}

one_sleep :
    (test : Client Post → Bool) (act : Client Post → Client Post) (c : Client Post)
    → test (act c) ≡ true
    → IsDone (wait_loop test (sleep act) c)
unfolding wait_loop
one_sleep test act c e = elim (Bool-cases (test c)) [
  | inl now ↦ (c, rw now refl)
  | inr later ↦ (act c, rw later (rw e refl))
]

one_poll :
    (test : Client Post → Bool) (act : Client Post → Client Post) (c : Client Post)
    → test (act c) ≡ true
    → IsDone (poll_loop test (sleep act) c)
unfolding poll_loop
one_poll test act c e = elim (Bool-cases (test c)) [
  | inl now ↦ (c, rw now refl)
  | inr later ↦ (act c, rw later (rw e refl))
]

-- The acknowledgements come in during one sleep.
one_ack :
    (c : Client Post) (k : Post)
    → c.m_kcp ≡ some k
    → IsDone (waitsnd_loop post_kcp (sleep (λ c. record c { m_kcp = some ([], []) })) c)
unfolding waitsnd_loop
one_ack c k e = held c.m_kcp e
  where
    emptied : Client Post
    emptied = record c { m_kcp = some ([], []) }

    held :
        (m : Option Post)
        → m ≡ some k
        → IsDone
            (elim m [ none ↦ crashed | some k ↦ if length k.1 == 0 then done c else done emptied ])
    held none e = absurd cc
    held (some k) e = elim (Bool-cases (length k.1 == 0)) [
      | inl now ↦ (c, rw now refl)
      | inr later ↦ (emptied, rw later refl)
    ]

answers :
    Answers post_kcp
      (λ k. k.1)
      (λ bytes k. refl)
      address
      prompt_run
      (file_header (name_of closed_post) (length content))
      content
answers = record {
  quiet = λ n ms c h. h;
  keeps = λ n c. Steady-self c;
  keep_answer = (answer-Steady, tt);
  keep_acks = (λ c. Steady-block c ([], []), tt);
  keep_end = (ending-Steady, tt);
  answered = λ c given.
      one_sleep (λ x. x.finish_send) answer c (answer-heard c given.3.block given.3.has_block);
  acked = λ c block heard. one_ack c block.0 block.1;
  ended = λ c stopped. one_poll (λ x. x.finish_loop) ending c (ending-ends c stopped);
}

-- The client where the closing handshake begins.
abbrev closing_post : Client Post
closing_post = record (connected address returned closed_post syn_ack_info) {
  m_kcp = some ([], []);
  stop_flag = true;
  finish_send = true;
  finish_loop = true;
}

sends_file :
    send_file post_kcp address prompt_run (connected address returned closed_post syn_ack_info)
    ≡ waiting closing_post
unfolding send_file accept_syn_ack finish recv_messages on_message is_finish c_string same_bytes
    run_tcp_client
sends_file = refl

stands :
    connect post_kcp address prompt_run
      (quiet ++ received syn_ack false ∷ [])
      no_wave
      []
      closed_post
    ≡ waiting closing_post
stands =
    start_hand_shake-connected address (send_file post_kcp address prompt_run) closed_post quiet []
      syn_ack false no_wave syn_ack_info refl (other_port, refl, tt) syn_ack_reads syn_ack_port
      syn_ack_fin syn_ack_acked
    ∙ sends_file

closing_number : u32 (closing_post.seq + closing_post.client_sum_send + 1) ≡ 9
unfolding accept_syn_ack
closing_number = refl

closing_port : closing_post.c_port ≡ 4242
unfolding accept_syn_ack
closing_port = refl

short_name : length (name_of closed_post) ≤ 132
unfolding base_name
short_name = omega arith

connect-closes_example :
    (c' : Client Post) × (between : List (List ℕ)) × (syn ack fin last : List ℕ) × (connect post_kcp
        address prompt_run
        (quiet ++ received syn_ack false ∷ [])
        no_wave
        (round true [] false
          ∷ round false (received ack_segment false ∷ []) false
          ∷ round false (received fin_segment false ∷ []) false
          ∷ round true [] false
          ∷ [])
        closed_post
      ≡ returned c')
    × (c'.s_state ≡ tcp_closing)
    × (c'.wire ≡ closed_post.wire ++ (syn ∷ ack ∷ (between ++ fin ∷ last ∷ [])))
    × Carries closed_post 0 0 (prase_tcp_packet syn ip_tcp_header_size)
    × Carries
        (synchronised address returned closed_post syn_ack_info)
        1
        0
        (prase_tcp_packet ack ip_tcp_header_size)
    × Carries closing_post 1 1 (prase_tcp_packet fin ip_tcp_header_size)
    × Carries
        (past_both address closing_post ack_segment fin_segment)
        1
        0
        (prase_tcp_packet last ip_tcp_header_size)
    × (flags_of syn ≡ 2)
    × (flags_of ack ≡ 16)
    × (flags_of fin ≡ 17)
    × (flags_of last ≡ 16)
connect-closes_example =
    connect-closes post_kcp address (λ k. k.1) (λ bytes k. refl) prompt_run content closed_post
      closing_post ([], []) quiet [] syn_ack false no_wave syn_ack_info ack_segment fin_segment
      (round true [] false) (round false (received ack_segment false ∷ []) false)
      (round false (received fin_segment false ∷ []) false) (round true [] false) [] refl refl refl
      (other_port, refl, tt) syn_ack_reads syn_ack_port syn_ack_fin syn_ack_acked refl short_name
      (omega arith) answers stands (cooperates closing_post closing_port closing_number)

-- The server does not answer in time.
abbrev late_run : SendRun Post
late_run = record prompt_run {
  finish_send_ticks = record { others = λ c. c; expired = true } ∷ [];
  close_ticks = sleep (λ c. record c { finish_loop = true });
}

send_file-Stands_example :
    Survives
      (Stands post_client)
      (send_file post_kcp address (record late_run { waves = [] }) post_client)
send_file-Stands_example =
    send_file-Stands post_kcp address late_run post_client ([], [])
      (
        λ n c. Steady-self c,
        (λ c. Steady-self c, tt),
        (λ c. Steady-block c ([], []), tt),
        (ending-Steady, tt),
        (λ c. Steady-ended c, tt),
      )
      refl refl short_name
