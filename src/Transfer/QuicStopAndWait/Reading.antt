-- ===== src/Transfer/QuicStopAndWait/Reading.antt =====
-- What an attempt of the QUIC stop-and-wait exchange of tema1 leaves at the client's end of the
-- connection, and what it reads.
use mathlib.Core.List.{append-nil, append_assoc}
use laborator_pcd.Base.{
  ℕ, suc, ◌+◌, ◌≤◌, ◌<◌, ◌^◌, ◌≡◌, refl, sym, ap, ◌∙◌, inl, inr, ◌==◌, Bool-cases, some, List, [],
  ◌++◌, arith, length, length-append, All, All-append, All-weaken, In,
}
use laborator_pcd.Transfer.Wire.{
  Bytes, UdpPayload, payload_to_bytes, payload_from_bytes, payload_from-to_bytes, ack_from_bytes,
  ack_from-to_bytes,
}
use laborator_pcd.Transfer.StopAndWait.{
  Server, World, Fate, lost, ack_lost, late, answered, deliver,
}
use laborator_pcd.Transfer.StopAndWait.Delivery.{IsAckOf}
use laborator_pcd.Transfer.QuicStopAndWait.{handle_datagram}

-- An acknowledgement of the payload with this number, which the server has received.
abbrev pub IsOwn : List ℕ → ℕ → Bytes → Type 0
IsOwn received seq d = (ack_from_bytes d ≡ some (record { ack_seq = seq })) × In seq received

abbrev pub AreKept : List ℕ → List ℕ → Type 0
AreKept before after = (s : ℕ) → In s before → In s after

pub IsOwn-IsAckOf :
    (received : List ℕ) (seq : ℕ) (ds : List Bytes)
    → All (IsOwn received seq) ds
    → All (IsAckOf received) ds
IsOwn-IsAckOf received seq ds = All-weaken _ _ ds (λ d (e, m). (seq, e, m))

pub IsAckOf-kept :
    (before after : List ℕ) (ds : List Bytes)
    → AreKept before after
    → All (IsAckOf before) ds
    → All (IsAckOf after) ds
IsAckOf-kept before after ds kept = All-weaken _ _ ds (λ d (s, e, m). (s, e, kept s m))

pub IsOwn-kept :
    (before after : List ℕ) (seq : ℕ) (ds : List Bytes)
    → AreKept before after
    → All (IsOwn before seq) ds
    → All (IsOwn after seq) ds
IsOwn-kept before after seq ds kept = All-weaken _ _ ds (λ d (e, m). (e, kept seq m))

-- The server's answer to a payload: at most one acknowledgement, and of that payload.
pub record Answers (before : List ℕ) (seq : ℕ) (x : Server × List Bytes) : Type 0 where
  pub kept : AreKept before x.0.received
  pub own : All (IsOwn x.0.received seq) x.1
  pub few : length x.1 ≤ 1

pub read_back : (p : UdpPayload) → p.seq < 2 ^ 64 → payload_from_bytes (payload_to_bytes p) ≡ some p
read_back p fits =
    ap payload_from_bytes (sym (append-nil (payload_to_bytes p)))
    ∙ payload_from-to_bytes p [] fits
    ∙ ap (λ d. some (record { seq = p.seq; data_ = d })) (append-nil p.data_)

pub handle_datagram-Answers :
    (s : Server) (p : UdpPayload)
    → p.seq < 2 ^ 64
    → Answers s.received p.seq (handle_datagram s (payload_to_bytes p))
unfolding handle_datagram
handle_datagram-Answers s p fits = rw (read_back p fits) (elim (Bool-cases (length p.data_ == 0)) [
  | inl e ↦ rw e (record { kept = λ k m. m; own = tt; few = omega arith })
  | inr e ↦ rw e (record {
    kept = λ k m. inr m;
    own = ((ack_from-to_bytes (record { ack_seq = p.seq }) fits, inl refl), tt);
    few = omega arith;
  })
])

-- The connection while an exchange waits: acknowledgements of earlier payloads, then of this one,
-- and those of this one that will come too late for the wait.
pub record IsWaiting (before : List ℕ) (seq : ℕ) (stale now : List Bytes) (x : World × List Bytes)
    : Type 0 where
  pub inbox : x.0.inbox ≡ stale ++ now
  pub kept : AreKept before x.0.server.received
  pub own_now : All (IsOwn x.0.server.received seq) now
  pub own_late : All (IsOwn x.0.server.received seq) x.1

pub record Waits (before : List ℕ) (seq : ℕ) (stale current : List Bytes) (x : World × List Bytes)
    : Type 0 where
  pub now : List Bytes
  pub waiting : IsWaiting before seq stale now x
  pub few : length now + length x.1 ≤ suc (length current)

pub deliver-Waits :
    (f : Fate) (w : World) (seq : ℕ) (stale current : List Bytes) (x : Server × List Bytes)
    → Answers w.server.received seq x
    → w.inbox ≡ stale ++ current
    → All (IsOwn w.server.received seq) current
    → Waits w.server.received seq stale current (deliver f w x)
deliver-Waits lost w seq stale current (s', acks) answers e own = record {
  now = current;
  waiting = record { inbox = e; kept = λ k m. m; own_now = own; own_late = tt };
  few = omega arith;
}
deliver-Waits ack_lost w seq stale current (s', acks) answers e own = record {
  now = current;
  waiting = record {
    inbox = e;
    kept = answers.kept;
    own_now = IsOwn-kept _ _ seq current answers.kept own;
    own_late = tt;
  };
  few = omega arith;
}
deliver-Waits late w seq stale current (s', acks) answers e own = record {
  now = current;
  waiting = record {
    inbox = e;
    kept = answers.kept;
    own_now = IsOwn-kept _ _ seq current answers.kept own;
    own_late = answers.own;
  };
  few = omega (arith, answers.few);
}
deliver-Waits answered w seq stale current (s', acks) answers e own = record {
  now = current ++ acks;
  waiting = record {
    inbox = ap (λ ds. ds ++ acks) e ∙ append_assoc stale current acks;
    kept = answers.kept;
    own_now = All-append _ current acks (IsOwn-kept _ _ seq current answers.kept own) answers.own;
    own_late = tt;
  };
  few = omega (arith, answers.few, length-append current acks);
}
