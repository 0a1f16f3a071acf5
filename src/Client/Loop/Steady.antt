-- ===== src/Client/Loop/Steady.antt =====
-- The relation of what the threads of a client keep while the file is sent, on who the client is,
-- where the handshake stands, its control block and its flags (code/kcp/kcp_client.cc).
use mathlib.Core.List.{append_assoc, append-nil}
use kcp_fake_tcp.Base.{
  ℕ, ◌≡◌, ◌∙◌, refl, sym, ap, String, List, [], ◌∷◌, ◌++◌, Bool, true, ltb, Option, some, length,
}
use kcp_fake_tcp.Kcp.{Kcp}
use kcp_fake_tcp.Client.Outcome.{
  Survives, Survives-if, Survives-then, Survives-cases, returned, waiting,
}
use kcp_fake_tcp.Client.State.{Client}
use kcp_fake_tcp.Client.Header.{next_id}
use kcp_fake_tcp.Client.Output.{
  SendEvent, select_failed, not_writable, send_failed, sent, taken, send_round, send_loop,
  tcp_client_cb,
}
use kcp_fake_tcp.Client.Loop.{LoopRound, emit, update, client_loop}

module _ {K : Type 0} where
  -- The client has a control block.
  abbrev pub HasBlock : Client K → Type 0
  HasBlock c = (k : K) × (c.m_kcp ≡ some k)

  -- From `c` to `c'` the client's addresses and file are the same, and so are the state of its
  -- connection and the number it counts from; datagrams were only sent behind those sent before; and
  -- the block and the flags that were there still are.
  pub record Steady (c c' : Client K) : Type 0 where
    pub fd : c'.fd ≡ c.fd
    pub c_port : c'.c_port ≡ c.c_port
    pub s_port : c'.s_port ≡ c.s_port
    pub c_ip : c'.c_ip ≡ c.c_ip
    pub s_ip : c'.s_ip ≡ c.s_ip
    pub file_path : c'.file_path ≡ c.file_path
    pub s_state : c'.s_state ≡ c.s_state
    pub seq : c'.seq ≡ c.seq
    pub grows : (more : List (List ℕ)) × (c'.wire ≡ c.wire ++ more)
    pub block : HasBlock c → HasBlock c'
    pub stays_stopped : c.stop_flag ≡ true → c'.stop_flag ≡ true
    pub stays_answered : c.finish_send ≡ true → c'.finish_send ≡ true
    pub stays_ended : c.finish_loop ≡ true → c'.finish_loop ≡ true

  pub Steady-trans : {a b c : Client K} → Steady a b → Steady b c → Steady a c
  Steady-trans {a} p q = record {
    fd = q.fd ∙ p.fd;
    c_port = q.c_port ∙ p.c_port;
    s_port = q.s_port ∙ p.s_port;
    c_ip = q.c_ip ∙ p.c_ip;
    s_ip = q.s_ip ∙ p.s_ip;
    file_path = q.file_path ∙ p.file_path;
    s_state = q.s_state ∙ p.s_state;
    seq = q.seq ∙ p.seq;
    grows = (
      p.grows.0 ++ q.grows.0,
      q.grows.1 ∙ ap (λ w. w ++ q.grows.0) p.grows.1 ∙ append_assoc a.wire p.grows.0 q.grows.0,
    );
    block = λ h. q.block (p.block h);
    stays_stopped = λ h. q.stays_stopped (p.stays_stopped h);
    stays_answered = λ h. q.stays_answered (p.stays_answered h);
    stays_ended = λ h. q.stays_ended (p.stays_ended h);
  }

  pub nothing_more : (c : Client K) → (more : List (List ℕ)) × (c.wire ≡ c.wire ++ more)
  nothing_more c = ([], sym (append-nil c.wire))

  -- A write to the counters and the wire.
  pub Steady-counted :
      (c : Client K) (ip_id acked sum : ℕ) (wire : List (List ℕ))
      → (more : List (List ℕ)) × (wire ≡ c.wire ++ more)
      → Steady c
          (record c { ip_id = ip_id; server_ack_seq = acked; client_sum_send = sum; wire = wire })
  Steady-counted c ip_id acked sum wire g = record {
    fd = refl;
    c_port = refl;
    s_port = refl;
    c_ip = refl;
    s_ip = refl;
    file_path = refl;
    s_state = refl;
    seq = refl;
    grows = g;
    block = λ h. h;
    stays_stopped = λ h. h;
    stays_answered = λ h. h;
    stays_ended = λ h. h;
  }

  -- A write to the block and to the flags, which sets them or leaves them.
  pub Steady-marked :
      (c : Client K) (m : Option K) (stopped answered ended : Bool)
      → (HasBlock c → (k : K) × (m ≡ some k))
      → (c.stop_flag ≡ true → stopped ≡ true)
      → (c.finish_send ≡ true → answered ≡ true)
      → (c.finish_loop ≡ true → ended ≡ true)
      → Steady c
          (record c { m_kcp = m; stop_flag = stopped; finish_send = answered; finish_loop = ended })
  Steady-marked c m stopped answered ended b s a e = record {
    fd = refl;
    c_port = refl;
    s_port = refl;
    c_ip = refl;
    s_ip = refl;
    file_path = refl;
    s_state = refl;
    seq = refl;
    grows = nothing_more c;
    block = b;
    stays_stopped = s;
    stays_answered = a;
    stays_ended = e;
  }

  pub Steady-self : (c : Client K) → Steady c c
  Steady-self c =
      Steady-counted c c.ip_id c.server_ack_seq c.client_sum_send c.wire (nothing_more c)

  pub Steady-block : (c : Client K) (k : K) → Steady c (record c { m_kcp = some k })
  Steady-block c k =
      Steady-marked c (some k) c.stop_flag c.finish_send c.finish_loop (λ h. (k, refl)) (λ h. h)
        (λ h. h) (λ h. h)

  pub Steady-answered : (c : Client K) → Steady c (record c { finish_send = true })
  Steady-answered c =
      Steady-marked c c.m_kcp c.stop_flag true c.finish_loop (λ h. h) (λ h. h) (λ h. refl) (λ h. h)

  pub Steady-ended : (c : Client K) → Steady c (record c { finish_loop = true })
  Steady-ended c =
      Steady-marked c c.m_kcp c.stop_flag c.finish_send true (λ h. h) (λ h. h) (λ h. h) (λ h. refl)

  pub Steady-stopped : (c : Client K) → Steady c (record c { stop_flag = true })
  Steady-stopped c =
      Steady-marked c c.m_kcp true c.finish_send c.finish_loop (λ h. h) (λ h. refl) (λ h. h)
        (λ h. h)

module _ {K : Type 0} (inet_addr : String → ℕ) (buffer : List ℕ) (len : ℕ) where
  send_round-Steady :
      (ev : SendEvent) (sended : ℕ) (c : Client K)
      → Steady c (send_round inet_addr buffer len ev sended c).0
  unfolding send_round taken next_id
  send_round-Steady select_failed sended c =
      Steady-counted c _ c.server_ack_seq c.client_sum_send c.wire (nothing_more c)
  send_round-Steady not_writable sended c =
      Steady-counted c _ c.server_ack_seq c.client_sum_send c.wire (nothing_more c)
  send_round-Steady send_failed sended c =
      Steady-counted c _ c.server_ack_seq c.client_sum_send c.wire (nothing_more c)
  send_round-Steady sent sended c = Steady-counted c _ c.server_ack_seq _ _ (_, refl)

  send_loop-Steady :
      (es : List SendEvent) (sended : ℕ) (a c : Client K)
      → Steady a c
      → Survives (λ t. Steady a t.0) (send_loop inet_addr buffer len es sended c)
  unfolding send_loop
  send_loop-Steady [] sended a c h =
      Survives-if (λ t. Steady a t.0) (ltb sended len) (waiting (c, sended)) (returned (c, sended))
        h h
  send_loop-Steady (e ∷ es) sended a c h =
      let step = send_round inet_addr buffer len e sended c in
      let h' = Steady-trans h (send_round-Steady e sended c) in
      Survives-if (λ t. Steady a t.0) (ltb sended len) _ _
        (Survives-if (λ t. Steady a t.0) step.2 _ _ h' (send_loop-Steady es step.1 a step.0 h')) h

module _ {K : Type 0} (kcp : Kcp K) (inet_addr : String → ℕ) where
  emit-Steady :
      (buffers : List (List ℕ)) (answers : List (List SendEvent)) (a c : Client K)
      → Steady a c
      → Survives (Steady a) (emit kcp inet_addr buffers answers c)
  unfolding emit tcp_client_cb
  emit-Steady [] answers a c h = h
  emit-Steady (b ∷ bs) [] a c h = h
  emit-Steady (b ∷ bs) (es ∷ answers) a c h =
      Survives-then (λ t. Steady a t.0) (Steady a) (λ t. t.0)
        (λ t. emit kcp inet_addr bs answers t.0) (send_loop inet_addr b (length b) es 0 c)
        (send_loop-Steady inet_addr b (length b) es 0 a c h) (λ t g. g)
        (λ t g. emit-Steady bs answers a t.0 g)

  pub update-Steady :
      (clock : ℕ) (answers : List (List SendEvent)) (a c : Client K)
      → HasBlock c
      → Steady a c
      → Survives (Steady a) (update kcp inet_addr clock answers c)
  unfolding update
  update-Steady clock answers a c block h =
      let (k', buffers) = kcp.update clock block.0 in
      rw (block.1, update)
        (emit-Steady buffers answers a (record c { m_kcp = some k' })
          (Steady-trans h (Steady-block c k')))

  -- The other threads keep what is to be kept, in every round.
  abbrev pub Relies : List (LoopRound K) → Type 0
  Relies [] = Unit
  Relies (round ∷ rounds) = ((c : Client K) → Steady c (round.others c)) × Relies rounds

  client_rounds-Steady :
      (rounds : List (LoopRound K)) (a c : Client K)
      → Relies rounds
      → HasBlock a
      → Steady a c
      → Survives (Steady a) (client_loop kcp inet_addr rounds c)
  unfolding client_loop
  client_rounds-Steady [] a c r block h =
      Survives-cases (Steady a) c.stop_flag (returned c) (waiting c) (λ e. h) (λ e. h)
  client_rounds-Steady (round ∷ rounds) a c r block h =
      let c0 = round.others c in
      let h0 : Steady a c0 = Steady-trans h (r.0 c) in
      Survives-cases (Steady a) c0.stop_flag _ _ (λ e. h0)
        (λ e.
          Survives-then (Steady a) (Steady a) (λ c1. c1) (λ c1. client_loop kcp inet_addr rounds c1)
            (update kcp inet_addr round.clock round.answers c0)
            (update-Steady round.clock round.answers a c0 (h0.block block) h0) (λ c1 g. g)
            (λ c1 g. client_rounds-Steady rounds a c1 r.1 block g))

  -- `client_loop` of a client with a control block, beside threads that keep what is to be kept: no
  -- null pointer ends the process, and it keeps that too.
  pub client_loop-Steady :
      (rounds : List (LoopRound K)) (c : Client K)
      → Relies rounds
      → HasBlock c
      → Survives (Steady c) (client_loop kcp inet_addr rounds c)
  client_loop-Steady rounds c r block = client_rounds-Steady rounds c c r block (Steady-self c)
