-- ===== src/Client/File/Whole.antt =====
-- `send_file` from its start to the closed connection (code/kcp/kcp_client.cc).
use mathlib.Core.List.{append_assoc}
use kcp_fake_tcp.Base.{
  ℕ, ◌-◌, ◌≤◌, ◌<◌, ◌≡◌, refl, sym, ap, ◌∙◌, subst, String, List, [], ◌∷◌, ◌++◌, false, ltb,
  if◌then◌else◌, none, some, u32, length, flatten, take_of_le, arith,
}
use kcp_fake_tcp.Kcp.{Kcp}
use kcp_fake_tcp.Crypto.Password.{codes}
use kcp_fake_tcp.Client.Outcome.{Outcome, returned, waiting, aborted, Survives, ◌>>=◌}
use kcp_fake_tcp.Client.State.{tcp_established, tcp_closing, Client}
use kcp_fake_tcp.Client.Header.Laws.{Carries, flags_of}
use kcp_fake_tcp.Client.Teardown.{WaveRound, is_closing, finish}
use kcp_fake_tcp.Client.Teardown.Complete.{past_both, Cooperates, finish_completes}
use kcp_fake_tcp.Wire.Header.{ip_tcp_header_size}
use kcp_fake_tcp.Wire.Info.{prase_tcp_packet}
use kcp_fake_tcp.Client.Loop.Steady.{HasBlock, Steady, Steady-self}
use kcp_fake_tcp.Client.File.{
  base_name, close, file_header, queue, send_pieces, after_pieces, SendRun, kcp_client_start,
  send_opened, send_file,
}
use kcp_fake_tcp.Client.File.Laws.{Holds, queue-Holds, send_pieces-Queued}
use kcp_fake_tcp.Client.File.Finishes.{
  queue-Steady, send_pieces-Steady, Answers, AtFinish, AtFinish-from, after_pieces-AtFinish,
}

-- The client behind `kcp_client_start`, on the block `k`.
abbrev pub started : {K : Type 0} → Kcp K → K → Client K → Client K
started kcp k c = record c {
  m_kcp = some (kcp.nodelay 1 10 2 1 (kcp.wndsize 256 256 k));
  stop_flag = false;
}

-- The name that `send_file` takes from the path of its file.
abbrev pub name_of : {K : Type 0} → Client K → List ℕ
name_of c = base_name (codes c.file_path) (codes c.file_path)

u32-small : (n : ℕ) → n < 4294967296 → u32 n ≡ n
u32-small n h = omega arith

module _ {K : Type 0} (kcp : Kcp K) (sent : K → List (List ℕ))
    (appends : (bytes : List ℕ) (k : K) → sent (kcp.send bytes k) ≡ sent k ++ bytes ∷ [])
    (inet_addr : String → ℕ) (run : SendRun K) (content : List ℕ) where
  -- The header and the pieces have been queued.
  queued-AtFinish :
      (header : List ℕ) (c : Client K)
      → Answers kcp sent appends inet_addr run header content
      → Holds kcp sent appends [] c
      → AtFinish kcp sent appends inet_addr c (λ waves.
        queue kcp header c
        >>= send_pieces kcp run.between content (length content) (length content) 0
        >>= after_pieces kcp inet_addr (record run { waves = waves }))
  queued-AtFinish header c answers h =
      let block : HasBlock c = (h.block, h.has_block) in
      let (c1, queued, h1) = queue-Holds kcp sent appends header [] c h in
      let g1 =
        subst (Survives (Steady c)) queued (queue-Steady kcp header c c block (Steady-self c)) in
      let q =
        send_pieces-Queued kcp sent appends run.between answers.quiet content (length content)
          (length content) 0 (header ∷ []) c1 (omega arith) (omega arith) (omega arith) h1 in
      let g2 = subst (Survives (Steady c)) q.result (
        send_pieces-Steady kcp run.between content (length content) (length content) 0 c c1
          answers.keeps block g1) in
      let whole : flatten q.pieces ≡ content =
        q.contents ∙ take_of_le (length content - 0) content (omega arith) in
      AtFinish-from kcp sent appends inet_addr c
        (λ waves. after_pieces kcp inet_addr (record run { waves = waves }) q.client) _
        (λ waves. rw (queued, q.result) refl)
        (after_pieces-AtFinish kcp sent appends inet_addr run header content c q.client answers g2
          (q.pieces, whole, q.sizes, q.holds))

  -- `send_opened` on a file that can be read.
  pub send_opened-queues :
      (c1 : Client K) (waves : List WaveRound)
      → run.content ≡ some content
      → ltb 132 (length (name_of c1)) ≡ false
      → length content < 4294967296
      → send_opened kcp inet_addr (record run { waves = waves }) c1 ≡ (
          queue kcp (file_header (name_of c1) (length content)) c1
          >>= send_pieces kcp run.between content (length content) (length content) 0
          >>= after_pieces kcp inet_addr (record run { waves = waves }))
  unfolding send_opened
  send_opened-queues c1 waves readable fits w =
      ap
        (λ m. elim m [
          | none ↦ close run.close_ticks c1
          | some bytes ↦
              if ltb 132 (length (name_of c1))
              then aborted
              else queue kcp (file_header (name_of c1) (u32 (length bytes))) c1
                >>= send_pieces kcp run.between bytes (u32 (length bytes)) (u32 (length bytes)) 0
                >>= after_pieces kcp inet_addr (record run { waves = waves })
        ])
        readable
      ∙ ap
          (λ b.
            if b
            then aborted
            else queue kcp (file_header (name_of c1) (u32 (length content))) c1
              >>= send_pieces kcp run.between content (u32 (length content)) (u32 (length content))
                  0
              >>= after_pieces kcp inet_addr (record run { waves = waves }))
          fits
      ∙ ap
          (λ n.
            queue kcp (file_header (name_of c1) n) c1
            >>= send_pieces kcp run.between content n n 0
            >>= after_pieces kcp inet_addr (record run { waves = waves }))
          (u32-small (length content) w)

  -- `send_file` of an established client on a file of less than 4 GiB, under a name of at most 132
  -- bytes, with a block that holds no messages once its windows are set, when the other threads and
  -- the server answer as `Answers` says: whatever the rounds of the closing handshake, it comes to
  -- that, on a client that has kept what is to be kept since `kcp_client_start`; the server's answer
  -- was heard, and the receiving thread has ended.
  pub send_file-AtFinish :
      (c : Client K) (k : K)
      → run.content ≡ some content
      → c.s_state ≡ tcp_established
      → c.m_kcp ≡ some k
      → sent (kcp.nodelay 1 10 2 1 (kcp.wndsize 256 256 k)) ≡ []
      → length (name_of c) ≤ 132
      → length content < 4294967296
      → Answers kcp sent appends inet_addr run (file_header (name_of c) (length content)) content
      → AtFinish kcp sent appends inet_addr
          (started kcp k c)
          (λ waves. send_file kcp inet_addr (record run { waves = waves }) c)
  unfolding send_file kcp_client_start
  send_file-AtFinish c k readable open_state block fresh short w answers =
      let fits : ltb 132 (length (name_of c)) ≡ false = ground arith in
      let header = file_header (name_of c) (length content) in
      AtFinish-from kcp sent appends inet_addr (started kcp k c) _ _
        (λ waves.
          ap
            (λ s. elim s [
              | tcp_established ↦
                  kcp_client_start kcp c
                  >>= send_opened kcp inet_addr (record run { waves = waves })
              | _ ↦ aborted
            ])
            open_state
          ∙ ap
              (λ m.
                elim m [ none ↦ aborted | some k ↦ returned (started kcp k c) ]
                >>= send_opened kcp inet_addr (record run { waves = waves }))
              block
          ∙ send_opened-queues (started kcp k c) waves readable fits w)
        (queued-AtFinish header (started kcp k c) answers
          (record { block = _; has_block = refl; given = fresh }))

-- The part of `finish` that no round is left for is where the handshake stands.
finish_start :
    {K : Type 0} (inet_addr : String → ℕ) (c c1 : Client K)
    → c.s_state ≡ tcp_established
    → finish inet_addr [] c ≡ waiting c1
    → c ≡ c1
unfolding finish
finish_start inet_addr c c1 e h =
    let stands : (if is_closing c.s_state then returned c else waiting c) ≡ waiting c =
      ap (λ s. if is_closing s then returned c else waiting c) e in
    cc (sym stands ∙ h)

-- An outcome that comes to `finish` on an established connection: where it stands on the client
-- `c1` for want of rounds, four rounds of a server that plays along close the connection.
pub AtFinish-closes :
    {K : Type 0} (kcp : Kcp K) (sent : K → List (List ℕ))
    (appends : (bytes : List ℕ) (k : K) → sent (kcp.send bytes k) ≡ sent k ++ bytes ∷ [])
    (inet_addr : String → ℕ) (a c1 : Client K) (o : List WaveRound → Outcome (Client K))
    (ack_packet fin_packet : List ℕ) (r1 r2 r3 r4 : WaveRound) (rs : List WaveRound)
    → a.s_state ≡ tcp_established
    → AtFinish kcp sent appends inet_addr a o
    → o [] ≡ waiting c1
    → Cooperates inet_addr c1 ack_packet fin_packet r1 r2 r3 r4
    → (c' : Client K) × (between : List (List ℕ)) × (fin ack : List ℕ) × (o (r1 ∷ r2 ∷ r3 ∷ r4 ∷ rs)
        ≡ returned c')
      × (c'.s_state ≡ tcp_closing)
      × (c'.wire ≡ a.wire ++ (between ++ fin ∷ ack ∷ []))
      × Carries c1 1 1 (prase_tcp_packet fin ip_tcp_header_size)
      × Carries
          (past_both inet_addr c1 ack_packet fin_packet)
          1
          0
          (prase_tcp_packet ack ip_tcp_header_size)
      × (flags_of fin ≡ 17)
      × (flags_of ack ≡ 16)
AtFinish-closes kcp sent appends inet_addr a c1 o ack_packet fin_packet r1 r2 r3 r4 rs e at stands
      plays =
    let established : at.0.s_state ≡ tcp_established = at.2.s_state ∙ e in
    let same : at.0 ≡ c1 = finish_start inet_addr at.0 c1 established (sym (at.1 []) ∙ stands) in
    let (c', fin, ack, result, closing, wire, carries_fin, carries_ack, flags_fin, flags_ack) =
      finish_completes inet_addr c1 ack_packet fin_packet r1 r2 r3 r4 rs
        (ap (λ c. c.s_state) (sym same) ∙ established) plays in
    let (between, grown) = at.2.grows in
    (
      c',
      between,
      fin,
      ack,
      at.1 (r1 ∷ r2 ∷ r3 ∷ r4 ∷ rs) ∙ ap (finish inet_addr (r1 ∷ r2 ∷ r3 ∷ r4 ∷ rs)) same ∙ result,
      closing,
      wire
          ∙ ap (λ c. c.wire ++ fin ∷ ack ∷ []) (sym same)
          ∙ ap (λ w. w ++ fin ∷ ack ∷ []) grown
          ∙ append_assoc a.wire between (fin ∷ ack ∷ []),
      carries_fin,
      carries_ack,
      flags_fin,
      flags_ack,
    )
