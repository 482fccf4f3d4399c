-- ===== src/Transfer/QuicStopAndWait/Settled.antt =====
-- How the QUIC stop-and-wait exchange of tema1 for one block ends.
use mathlib.Core.List.{append_assoc, append-nil}
use mathlib.Core.Path.{subst}
use laborator_pcd.Base.{
  ℕ, zero, suc, ◌+◌, ◌≤◌, ◌<◌, ◌^◌, ◌≡◌, refl, sym, ◌⊎◌, inl, inr, ◌==◌, ==_iff, Bool-cases, Option,
  some, none, List, [], ◌∷◌, ◌++◌, arith, length, length-append, All, All-append, In,
}
use laborator_pcd.Transfer.Wire.{Bytes, UdpPayload, ack_from_bytes, payload_to_bytes}
use laborator_pcd.Transfer.Tcp.{Stats, add_block}
use laborator_pcd.Transfer.StopAndWait.{World}
use laborator_pcd.Transfer.StopAndWait.Delivery.{IsAckOf}
use laborator_pcd.Transfer.QuicStopAndWait.{
  Network, delivered, no_ack, Exchange, handle_datagram, send_datagram, read_first, read_datagram,
  after_read, attempts, send_and_wait_for_ack,
}
use laborator_pcd.Transfer.QuicStopAndWait.Reading.{
  IsOwn, AreKept, IsOwn-IsAckOf, IsAckOf-kept, handle_datagram-Answers, IsWaiting, deliver-Waits,
}

-- How an exchange leaves the connection: with its acknowledgement or the error, at most four
-- acknowledgements waiting, and the payload received if it was acknowledged.
pub record Settles (before : List ℕ) (seq : ℕ) (x : Exchange) : Type 0 where
  pub ends : (x.2 ≡ delivered) ⊎ (x.2 ≡ no_ack)
  pub kept : AreKept before x.0.server.received
  pub waiting : All (IsAckOf x.0.server.received) x.0.inbox
  pub few : x.2 ≡ delivered → length x.0.inbox ≤ 4
  pub received : x.2 ≡ delivered → In seq x.0.server.received

Settles-kept :
    (before mid : List ℕ) (seq : ℕ) (x : Exchange)
    → AreKept before mid
    → Settles mid seq x
    → Settles before seq x
Settles-kept before mid seq x kept s = record {
  ends = s.ends;
  kept = λ k m. s.kept k (kept k m);
  waiting = s.waiting;
  few = s.few;
  received = s.received;
}

-- The rest of the loop settles from any connection with few enough acknowledgements of earlier
-- payloads.
abbrev SettlesFrom : ℕ → ℕ → (World → Exchange) → Type 0
SettlesFrom attempt seq more =
    (w : World) (stale current : List Bytes)
    → w.inbox ≡ stale ++ current
    → All (IsAckOf w.server.received) stale
    → All (IsOwn w.server.received seq) current
    → length stale + attempt ≤ 4
    → length current ≤ attempt
    → Settles w.server.received seq (more w)

-- What an attempt comes to after its read, where `more` is the rest of the loop.
abbrev pub outcome : UdpPayload → ℕ → Stats → (World → Exchange) → World × Option Bytes → Exchange
outcome p attempt stats more (w, read) = after_read p attempt read (w, stats) (more w)

module _ (p : UdpPayload) (attempt : ℕ) (stats : Stats) (before : List ℕ)
    (more : World → Exchange) where
  read_stale :
      (w : World) (stale now after : List Bytes) (s : ℕ) (d : Bytes)
      → ack_from_bytes d ≡ some (record { ack_seq = s })
      → In s w.server.received
      → AreKept before w.server.received
      → All (IsAckOf w.server.received) stale
      → All (IsOwn w.server.received p.seq) now
      → All (IsOwn w.server.received p.seq) after
      → length stale + attempt ≤ 3
      → length now + length after ≤ suc attempt
      → SettlesFrom (suc attempt) p.seq more
      → Settles before p.seq
          (outcome p attempt stats more (record w { inbox = (stale ++ now) ++ after }, some d))
  read_stale w stale now after s d e m kept acks own_now own_late few size again =
      rw e (elim (Bool-cases (s == p.seq)) [
        | inl q ↦ rw q (record {
          ends = inl refl;
          kept = kept;
          waiting =
              All-append _ (stale ++ now) after
                (All-append _ stale now acks (IsOwn-IsAckOf _ p.seq now own_now))
                (IsOwn-IsAckOf _ p.seq after own_late);
          few = λ _. omega (arith, length-append (stale ++ now) after, length-append stale now);
          received = λ _. subst (λ k. In k w.server.received) ((==_iff s p.seq).0 q) m;
        })
        | inr q ↦ rw q (
            Settles-kept before w.server.received p.seq _ kept (
              again (record w { inbox = (stale ++ now) ++ after }) stale (now ++ after)
                (append_assoc stale now after) acks (All-append _ now after own_now own_late)
                (omega arith) (omega (arith, length-append now after))))
      ])

  read_own :
      (w : World) (now after : List Bytes) (d : Bytes)
      → ack_from_bytes d ≡ some (record { ack_seq = p.seq })
      → In p.seq w.server.received
      → AreKept before w.server.received
      → All (IsOwn w.server.received p.seq) now
      → All (IsOwn w.server.received p.seq) after
      → length now + length after ≤ 4
      → Settles before p.seq
          (outcome p attempt stats more (record w { inbox = now ++ after }, some d))
  read_own w now after d e m kept own_now own_late size =
      rw (e, (==_iff p.seq p.seq).1 refl)
        (record {
          ends = inl refl;
          kept = kept;
          waiting = IsOwn-IsAckOf _ p.seq (now ++ after) (All-append _ now after own_now own_late);
          few = λ _. omega (arith, length-append now after);
          received = λ _. m;
        })

  read_none :
      (w : World) (after : List Bytes)
      → attempt ≤ 4
      → AreKept before w.server.received
      → All (IsOwn w.server.received p.seq) after
      → length after ≤ suc attempt
      → SettlesFrom (suc attempt) p.seq more
      → Settles before p.seq (outcome p attempt stats more (record w { inbox = after }, none))
  read_none w after left kept own size again = elim (Bool-cases (attempt + 1 == 5)) [
    | inl q ↦ rw q (record {
      ends = inr refl;
      kept = kept;
      waiting = IsOwn-IsAckOf _ p.seq after own;
      few = λ h. absurd (cc h);
      received = λ h. absurd (cc h);
    })
    | inr q ↦ rw q (
        Settles-kept before w.server.received p.seq _ kept
          (again (record w { inbox = after }) [] after refl tt own (ground arith) size))
  ]

  -- One attempt, once it waits.
  read-Settles :
      (stale now : List Bytes) (x : World × List Bytes)
      → IsWaiting before p.seq stale now x
      → All (IsAckOf before) stale
      → length stale + attempt ≤ 4
      → length now + length x.1 ≤ suc attempt
      → SettlesFrom (suc attempt) p.seq more
      → Settles before p.seq (outcome p attempt stats more (read_datagram x))
  read-Settles stale now (w, after) waits acks few size again =
      subst (λ ds. Settles before p.seq (outcome p attempt stats more (read_first ds w after)))
        (sym waits.inbox) (by_list stale now acks waits.own_now few size)
    where
      by_list :
          (stale now : List Bytes)
          → All (IsAckOf before) stale
          → All (IsOwn w.server.received p.seq) now
          → length stale + attempt ≤ 4
          → length now + length after ≤ suc attempt
          → Settles before p.seq (outcome p attempt stats more (read_first (stale ++ now) w after))
      by_list [] [] acks own few size =
          read_none w after (omega arith) waits.kept waits.own_late (omega arith) again
      by_list [] (d ∷ now) acks own few size =
          read_own w now after d own.0.0 own.0.1 waits.kept own.1 waits.own_late (omega arith)
      by_list (d ∷ stale) now acks own few size =
          let (s, e, m) = acks.0 in
          read_stale w stale now after s d e (waits.kept s m) waits.kept
            (IsAckOf-kept before w.server.received stale waits.kept acks.1) own waits.own_late
            (omega arith) size again

attempts-Settles :
    (net : Network) (left attempt : ℕ) (stats : Stats) (p : UdpPayload)
    → p.seq < 2 ^ 64
    → left + attempt ≡ 5
    → SettlesFrom attempt p.seq (λ w. attempts net left attempt w stats p)
unfolding attempts
attempts-Settles net zero attempt stats p fits all w stale current e acks own few size =
    absurd (omega arith)
attempts-Settles net (suc left) attempt stats p fits all w stale current e acks own few size =
    let sent = send_datagram (net p.seq attempt) w (payload_to_bytes p) in
    let waits =
      deliver-Waits (net p.seq attempt) w p.seq stale current
        (handle_datagram w.server (payload_to_bytes p)) (handle_datagram-Answers w.server p fits) e
        own in
    let stats' = add_block stats p.data_ in
    read-Settles p attempt stats' w.server.received
      (λ w. attempts net left (suc attempt) w stats' p) stale waits.now sent waits.waiting acks few
      (omega (arith, waits.few))
      (attempts-Settles net left (suc attempt) stats' p fits (omega arith))

pub exchange-Settles :
    (net : Network) (w : World) (stats : Stats) (p : UdpPayload)
    → p.seq < 2 ^ 64
    → All (IsAckOf w.server.received) w.inbox
    → length w.inbox ≤ 4
    → Settles w.server.received p.seq (send_and_wait_for_ack net w stats p)
unfolding send_and_wait_for_ack
exchange-Settles net w stats p fits acks few =
    attempts-Settles net 5 0 stats p fits refl w w.inbox [] (sym (append-nil w.inbox)) acks tt
      (omega arith) (omega arith)
