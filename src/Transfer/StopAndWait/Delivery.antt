-- ===== src/Transfer/StopAndWait/Delivery.antt =====
-- What a stop-and-wait transfer of tema1 that ends without an error has delivered, and when it ends
-- so.
use laborator_pcd.Base.{
  ℕ, ◌-◌, ◌<◌, ◌^◌, ◌≡◌, refl, sym, ap, ◌∙◌, inl, inr, false, ◌==◌, ==_iff, Bool-cases, some, List,
  [], ◌∷◌, ◌++◌, arith, length, length-append, All, All-append, All-weaken, In,
}
use mathlib.Core.Path.{subst}
use laborator_pcd.Transfer.Wire.{
  Bytes, UdpPayload, to_le_bytes, payload_to_bytes, payload_from-to_bytes, ack_to_bytes,
  ack_from_bytes, ack_from-to_bytes, length-to_le_bytes,
}
use laborator_pcd.Transfer.Tcp.{Stats}
use laborator_pcd.Transfer.StopAndWait.{
  Server, World, Fate, lost, ack_lost, late, answered, Reply, acked, invalid_length,
  invalid_sequence, out_of_time, zeros, max_block_size, acknowledge, handle_datagram, deliver,
  check_ack, check_datagram, receive, await_from, send_once, retry,
}

-- The datagram acknowledges a payload that the server has received.
abbrev pub IsAckOf : List ℕ → Bytes → Type 0
IsAckOf received d = (s : ℕ) × (ack_from_bytes d ≡ some (record { ack_seq = s })) × In s received

-- The server once it has counted a payload.
abbrev counted : Server → UdpPayload → Bytes → Server
counted s p rest =
    (acknowledge s (length (payload_to_bytes p))
      (some (record { seq = p.seq; data_ = p.data_ ++ rest }))).0

pub payload-nonempty : (p : UdpPayload) → (length (payload_to_bytes p) == 0) ≡ false
unfolding payload_to_bytes
payload-nonempty p =
    ground (arith, length-append (to_le_bytes 8 p.seq) p.data_, length-to_le_bytes 8 p.seq)

pub handle_payload :
    (s : Server) (p : UdpPayload)
    → p.seq < 2 ^ 64
    → (s' : Server) × (handle_datagram s (payload_to_bytes p)
        ≡ (s', ack_to_bytes (record { ack_seq = p.seq }) ∷ []))
      × (s'.received ≡ p.seq ∷ s.received)
unfolding handle_datagram
handle_payload s p fits =
    let rest = zeros (max_block_size - length (payload_to_bytes p)) in
    (
      counted s p rest,
      rw (payload-nonempty p)
          (ap (acknowledge s (length (payload_to_bytes p))) (payload_from-to_bytes p rest fits)),
      refl,
    )

check_datagram-acked :
    (p : UdpPayload) (d : Bytes) (received : List ℕ)
    → IsAckOf received d
    → check_datagram p d ≡ acked
    → In p.seq received
check_datagram-acked p d received (s, e, m) h = elim (Bool-cases (length d == 8)) [
  | inr l ↦ absurd (cc (rw l at h))
  | inl l ↦ same (ap (check_ack p) (sym e) ∙ rw l at h)
]
  where
    same : check_ack p (some (record { ack_seq = s })) ≡ acked → In p.seq received
    same h = elim (Bool-cases (s == p.seq)) [
      | inl q ↦ subst (λ x. In x received) ((==_iff s p.seq).0 q) m
      | inr q ↦ absurd (cc (rw q at h))
    ]

-- What an attempt leaves: only acknowledgements of what was received wait at the client, nothing
-- that was received is forgotten, and a payload that the client takes to be received was.
pub record IsSound (before : List ℕ) (seq : ℕ) (w : World) (r : Reply) : Type 0 where
  pub waiting : All (IsAckOf w.server.received) w.inbox
  pub grown : (s : ℕ) → In s before → In s w.server.received
  pub received : r ≡ acked → In seq w.server.received

receive-IsSound :
    (p : UdpPayload) (before : List ℕ) (inbox : List Bytes) (w : World) (after : List Bytes)
    → All (IsAckOf w.server.received) inbox
    → All (IsAckOf w.server.received) after
    → ((s : ℕ) → In s before → In s w.server.received)
    → IsSound before p.seq (receive p inbox w after).0 (receive p inbox w after).1
receive-IsSound p before [] w after waits comes grown = record {
  waiting = comes;
  grown = grown;
  received = λ h. absurd (cc h);
}
receive-IsSound p before (d ∷ rest) w after waits comes grown = record {
  waiting = All-append _ rest after waits.1 comes;
  grown = grown;
  received = check_datagram-acked p d w.server.received waits.0;
}

-- An acknowledgement stays one when more is received.
IsAckOf-grown :
    (rs : List ℕ) (seq : ℕ) (ds : List Bytes) → All (IsAckOf rs) ds → All (IsAckOf (seq ∷ rs)) ds
IsAckOf-grown rs seq ds = All-weaken (IsAckOf rs) _ ds (λ d (s, e, m). (s, e, inr m))

pub send_once-IsSound :
    (f : Fate) (w : World) (p : UdpPayload)
    → p.seq < 2 ^ 64
    → All (IsAckOf w.server.received) w.inbox
    → IsSound w.server.received p.seq (send_once f w p).0 (send_once f w p).1
unfolding send_once
send_once-IsSound f w p fits waits =
    let (s', handled, rs) = handle_payload w.server p fits in
    let ack = ack_to_bytes (record { ack_seq = p.seq }) in
    let grown : (s : ℕ) → In s w.server.received → In s s'.received =
      λ s m. subst (In s) (sym rs) (inr m) in
    let waits' : All (IsAckOf s'.received) w.inbox =
      subst (λ rs. All (IsAckOf rs) w.inbox) (sym rs)
        (IsAckOf-grown w.server.received p.seq w.inbox waits) in
    let is_ack : All (IsAckOf s'.received) (ack ∷ []) = (
      (
        p.seq,
        ack_from-to_bytes (record { ack_seq = p.seq }) fits,
        subst (In p.seq) (sym rs) (inl refl),
      ),
      tt,
    ) in
    subst
      (λ x.
        IsSound w.server.received p.seq (await_from p (deliver f w x)).0
          (await_from p (deliver f w x)).1)
      (sym handled) (by_fate f s' (ack ∷ []) grown waits' is_ack)
  where
    by_fate :
        (f : Fate) (s' : Server) (acks : List Bytes)
        → ((s : ℕ) → In s w.server.received → In s s'.received)
        → All (IsAckOf s'.received) w.inbox
        → All (IsAckOf s'.received) acks
        → IsSound w.server.received p.seq
            (await_from p (deliver f w (s', acks))).0
            (await_from p (deliver f w (s', acks))).1
    by_fate lost s' acks grown waits' is_ack =
        receive-IsSound p w.server.received w.inbox w [] waits tt (λ s m. m)
    by_fate ack_lost s' acks grown waits' is_ack =
        receive-IsSound p w.server.received w.inbox (record w { server = s' }) [] waits' tt grown
    by_fate late s' acks grown waits' is_ack =
        receive-IsSound p w.server.received w.inbox (record w { server = s' }) acks waits' is_ack
          grown
    by_fate answered s' acks grown waits' is_ack =
        receive-IsSound p w.server.received (w.inbox ++ acks)
          (record { server = s'; inbox = w.inbox ++ acks }) []
          (All-append _ w.inbox acks waits' is_ack) tt grown

pub retry-IsSound :
    (f : Fate) (p : UdpPayload) (stats : Stats) (before : List ℕ) (w : World) (r : Reply)
    → p.seq < 2 ^ 64
    → IsSound before p.seq w r
    → IsSound before p.seq (retry f p stats (w, r)).0 (retry f p stats (w, r)).2
retry-IsSound f p stats before w acked fits sound = sound
retry-IsSound f p stats before w invalid_length fits sound = sound
retry-IsSound f p stats before w invalid_sequence fits sound = sound
retry-IsSound f p stats before w out_of_time fits sound =
    let again = send_once-IsSound f w p fits sound.waiting in
    record {
      waiting = again.waiting;
      grown = λ s m. again.grown s (sound.grown s m);
      received = again.received;
    }
