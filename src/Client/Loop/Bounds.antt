-- ===== src/Client/Loop/Bounds.antt =====
-- How much `run_tcp_client` hands to KCP and asks it for (code/kcp/kcp_client.cc).
use mathlib.Core.List.{append_assoc}
use kcp_fake_tcp.Base.{
  ℕ, zero, suc, ◌-◌, ◌≤◌, ◌≡◌, ◌∙◌, ◌≢◌, Bool, true, false, if◌then◌else◌, refl, sym, ap, subst,
  String, List, [], ◌∷◌, ◌==◌, ◌++◌, ltb, ltb_false→le, Option, none, some, take, drop, length,
  length-take, take-append-drop, take-append, drop-append, length-drop, arith,
}
use kcp_fake_tcp.Kcp.{Kcp}
use kcp_fake_tcp.Wire.Info.{TcpInfo, prase_tcp_packet}
use kcp_fake_tcp.Client.Outcome.{Outcome, returned, waiting, aborted}
use kcp_fake_tcp.Client.State.{Client}
use kcp_fake_tcp.Client.Receive.{recv_into}
use kcp_fake_tcp.Client.Loop.{
  datagram, data_size, payload, next_ack, on_message, recv_messages, on_data, on_packet, on_event,
}

-- From the front of a buffer, the bytes behind the first 40 of those that were written to it.
behind_headers :
    (bytes rest : List ℕ)
    → 40 ≤ length bytes
    → take (length bytes - 40) (drop 40 (bytes ++ rest)) ≡ drop 40 bytes
behind_headers bytes rest h =
    let sized : length (take 40 bytes) ≡ 40 = omega (arith, length-take 40 bytes) in
    let split : bytes ++ rest ≡ take 40 bytes ++ (drop 40 bytes ++ rest) =
      ap (λ b. b ++ rest) (sym (take-append-drop 40 bytes))
      ∙ append_assoc (take 40 bytes) (drop 40 bytes) rest in
    let behind : drop 40 (bytes ++ rest) ≡ drop 40 bytes ++ rest =
      ap (drop 40) split
      ∙ ap (λ n. drop n (take 40 bytes ++ (drop 40 bytes ++ rest))) (sym sized)
      ∙ drop-append (take 40 bytes) (drop 40 bytes ++ rest) in
    ap (take (length bytes - 40)) behind
    ∙ ap (λ n. take n (drop 40 bytes ++ rest)) (sym (length-drop 40 bytes))
    ∙ take-append (drop 40 bytes) rest

sized :
    (b : Bool) (len n : ℕ)
    → ltb len 40 ≡ b
    → (if b then none else some (len - 40)) ≡ some n
    → (40 ≤ len) × (n ≡ len - 40)
sized true len n t e = absurd (none≢some n e)
  where
    none≢some : (n : ℕ) → ◌≢◌ {A = Option ℕ} none (some n)
    none≢some n e = cc
sized false len n t e = (ltb_false→le len 40 t, cc e)

data_size-some : (len n : ℕ) → data_size (some len) ≡ some n → (40 ≤ len) × (n ≡ len - 40)
unfolding data_size
data_size-some len n e = sized (ltb len 40) len n refl e

data_size_of : (len : ℕ) → 40 ≤ len → data_size (some len) ≡ some (len - 40)
unfolding data_size
data_size_of len h = let whole : ltb len 40 ≡ false = ground arith in rw whole refl

payload_bounds :
    (buffer bytes : List ℕ) (n : ℕ)
    → data_size (some (length (take 1024 bytes))) ≡ some n
    → (payload (recv_into 1024 buffer bytes) (some n) ≡ some (drop 40 (take 1024 bytes)))
      × (length (drop 40 (take 1024 bytes)) ≡ n)
      × (n ≤ 984)
unfolding payload
payload_bounds buffer bytes n e =
    let datagram = take 1024 bytes in
    let (whole, size) = data_size-some (length datagram) n e in
    let read = length-take 1024 bytes in
    (
      ap (λ m. some (take m (drop 40 (datagram ++ drop (length datagram) buffer)))) size
          ∙ ap some (behind_headers datagram (drop (length datagram) buffer) whole),
      length-drop 40 datagram ∙ sym size,
      omega (arith, size, read),
    )

module _ {K : Type 0} (kcp kcp' : Kcp K) (inet_addr : String → ℕ) where
  received-agree :
      (message : Option (List ℕ)) (c : Client K) (f g : List ℕ → Outcome (Client K))
      → ((m : List ℕ) → f m ≡ g m)
      → elim message [ none ↦ returned c | some [] ↦ returned c | some (b ∷ bs) ↦ f (b ∷ bs) ]
        ≡ elim message [ none ↦ returned c | some [] ↦ returned c | some (b ∷ bs) ↦ g (b ∷ bs) ]
  received-agree none c f g h = refl
  received-agree (some []) c f g h = refl
  received-agree (some (b ∷ bs)) c f g h = h (b ∷ bs)

  recv_messages-agree :
      (fuel : ℕ) (limit : Option ℕ) (k : K) (c : Client K)
      → ((k : K) → kcp.recv limit k ≡ kcp'.recv limit k)
      → recv_messages kcp inet_addr fuel limit k c ≡ recv_messages kcp' inet_addr fuel limit k c
  unfolding recv_messages on_message
  recv_messages-agree zero limit k c same = refl
  recv_messages-agree (suc fuel) limit k c same =
      let (k', message) = kcp'.recv limit k in
      ap
        (λ (r : K × Option (List ℕ)). elim r.1 [
          | none ↦ returned (record c { m_kcp = some r.0 })
          | some [] ↦ returned (record c { m_kcp = some r.0 })
          | some (b ∷ bs) ↦
              recv_messages kcp inet_addr fuel limit r.0
                (on_message kcp inet_addr (b ∷ bs) (record c { m_kcp = some r.0 }))
        ])
        (same k)
      ∙ received-agree message (record c { m_kcp = some k' })
          (λ m.
            recv_messages kcp inet_addr fuel limit k'
              (on_message kcp inet_addr m (record c { m_kcp = some k' })))
          (λ m.
            recv_messages kcp' inet_addr fuel limit k'
              (on_message kcp' inet_addr m (record c { m_kcp = some k' })))
          (λ m. recv_messages-agree fuel limit k' _ same)

  -- The two libraries give the same on the bytes `bytes`, and on a reception that asks for as many.
  abbrev pub AgreeOn : List ℕ → Type 0
  AgreeOn bytes =
      ((k : K) → kcp.input (some bytes) k ≡ kcp'.input (some bytes) k)
      × ((k : K) → kcp.recv (some (length bytes)) k ≡ kcp'.recv (some (length bytes)) k)

  on_data-agree :
      (fuel n : ℕ) (buffer bytes : List ℕ) (info : TcpInfo) (c : Client K)
      → payload buffer (some n) ≡ some bytes
      → length bytes ≡ n
      → AgreeOn bytes
      → on_data kcp inet_addr fuel buffer (some n) info c
        ≡ on_data kcp' inet_addr fuel buffer (some n) info c
  unfolding on_data
  on_data-agree fuel n buffer bytes info c holds fits same = held c.m_kcp
    where
      rest : Kcp K → K × Bool → Outcome (Client K × Bool)
      rest kcp r = elim r.1 [
        | false ↦ returned (record c { m_kcp = some r.0 }, if info.fin == 0 then false else true)
        | true ↦
            elim (recv_messages kcp inet_addr fuel (some n) r.0 (record c { m_kcp = some r.0 })) [
              | aborted ↦ aborted
              | waiting x ↦ waiting (x, false)
              | returned x ↦ returned (x, false)
            ]
      ]

      gives :
          (k : K) → kcp.input (payload buffer (some n)) k ≡ kcp'.input (payload buffer (some n)) k
      gives k = rw holds (same.0 k)

      asks : (k : K) → kcp.recv (some n) k ≡ kcp'.recv (some n) k
      asks k = subst (λ n. kcp.recv (some n) k ≡ kcp'.recv (some n) k) fits (same.1 k)

      rest-agree : (r : K × Bool) → rest kcp r ≡ rest kcp' r
      rest-agree (k, false) = refl
      rest-agree (k, true) =
          ap
            (λ o. elim o [
              | aborted ↦ aborted
              | waiting x ↦ waiting (x, false)
              | returned x ↦ returned (x, false)
            ])
            (recv_messages-agree fuel (some n) k (record c { m_kcp = some k }) asks)

      held :
          (m : Option K)
          → elim m [ none ↦ aborted | some k ↦ rest kcp (kcp.input (payload buffer (some n)) k) ]
            ≡ elim m [
              | none ↦ aborted
              | some k ↦ rest kcp' (kcp'.input (payload buffer (some n)) k)
            ]
      held none = refl
      held (some k) = ap (rest kcp) (gives k) ∙ rest-agree (kcp'.input (payload buffer (some n)) k)

  on_packet-agree :
      (fuel len n : ℕ) (buffer bytes : List ℕ) (c : Client K)
      → data_size (some len) ≡ some n
      → payload buffer (some n) ≡ some bytes
      → length bytes ≡ n
      → AgreeOn bytes
      → on_packet kcp inet_addr fuel buffer (some len) c
        ≡ on_packet kcp' inet_addr fuel buffer (some len) c
  unfolding on_packet
  on_packet-agree fuel len n buffer bytes c size holds fits same =
      for_us ((prase_tcp_packet buffer len).port_dst == c.c_port)
    where
      info : TcpInfo
      info = prase_tcp_packet buffer len

      c' : Client K
      c' = record c { server_ack_seq = next_ack info.seq (some len) }

      rest : Kcp K → Option ℕ → Outcome (Client K × Bool)
      rest kcp m = elim m [
        | none ↦ on_data kcp inet_addr fuel buffer none info c'
        | some zero ↦ returned (c', false)
        | some (suc n) ↦ on_data kcp inet_addr fuel buffer (some (suc n)) info c'
      ]

      some-agree :
          (n : ℕ)
          → payload buffer (some n) ≡ some bytes
          → length bytes ≡ n
          → rest kcp (some n) ≡ rest kcp' (some n)
      some-agree zero h g = refl
      some-agree (suc n) h g = on_data-agree fuel (suc n) buffer bytes info c' h g same

      for_us :
          (b : Bool)
          → ◌≡◌ {A = Outcome (Client K × Bool)}
              (elim b [ false ↦ returned (c, false) | true ↦ rest kcp (data_size (some len)) ])
              (elim b [ false ↦ returned (c, false) | true ↦ rest kcp' (data_size (some len)) ])
      for_us false = refl
      for_us true = subst (λ m. rest kcp m ≡ rest kcp' m) (sym size) (some-agree n holds fits)

  -- A datagram that holds both headers and comes in while `run_tcp_client` is in its round, whatever
  -- was in the buffer. The round asks two things of KCP: what `ikcp_input` makes of the bytes behind
  -- the first 40 of the first 1024, and what `ikcp_recv` gives for a buffer of as many bytes. Two
  -- libraries that agree in these come to the same round, whatever else they do; and the bytes are at
  -- most 984, which fit the buffer of 1034.
  pub on_event-AgreeOn :
      (fuel : ℕ) (bytes buffer : List ℕ) (c : Client K)
      → 40 ≤ length bytes
      → AgreeOn (drop 40 (take 1024 bytes))
      → (on_event kcp inet_addr fuel (datagram bytes) buffer c
          ≡ on_event kcp' inet_addr fuel (datagram bytes) buffer c)
        × (length (drop 40 (take 1024 bytes)) ≤ 984)
  unfolding on_event
  on_event-AgreeOn fuel bytes buffer c whole same =
      let read = length (take 1024 bytes) in
      let enough : 40 ≤ read = omega (arith, length-take 1024 bytes, whole) in
      let size : data_size (some read) ≡ some (read - 40) = data_size_of read enough in
      let (holds, sized, bound) = payload_bounds buffer bytes (read - 40) size in
      let buffer' = recv_into 1024 buffer bytes in
      (
        ap (λ o. (buffer', o))
            (on_packet-agree fuel read (read - 40) buffer' (drop 40 (take 1024 bytes)) c size holds
              sized same),
        omega (arith, sized, bound),
      )
