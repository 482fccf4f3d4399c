-- ===== src/Transfer/QuicStopAndWait/Whole.antt =====
-- How a QUIC stop-and-wait transfer of tema1 ends.
use mathlib.Core.Path.{subst}
use laborator_pcd.Base.{
  ℕ, suc, ◌+◌, ◌≤◌, ◌<◌, ◌^◌, ◌≡◌, refl, sym, ◌⊎◌, inl, inr, List, [], ◌∷◌, arith, length, All,
}
use laborator_pcd.Transfer.Wire.{Bytes, UdpPayload}
use laborator_pcd.Transfer.Tcp.{Stats, no_stats, add_u64}
use laborator_pcd.Transfer.StopAndWait.{World}
use laborator_pcd.Transfer.StopAndWait.Delivery.{IsAckOf}
use laborator_pcd.Transfer.StopAndWait.Outcomes.{AreReceived, numbers, fresh}
use laborator_pcd.Transfer.QuicStopAndWait.{
  Network, delivered, no_ack, unreachable, bad_ack, Exchange, send_and_wait_for_ack, then_next,
  send_blocks_quic,
}
use laborator_pcd.Transfer.QuicStopAndWait.Reading.{AreKept, handle_datagram-Answers}
use laborator_pcd.Transfer.QuicStopAndWait.Settled.{Settles, exchange-Settles}

-- How a transfer ends.
record Transfers (before seqs : List ℕ) (x : Exchange) : Type 0 where
  ends : (x.2 ≡ delivered) ⊎ (x.2 ≡ no_ack)
  kept : AreKept before x.0.server.received
  received : x.2 ≡ delivered → AreReceived seqs x.0.server

send_blocks_quic-Transfers :
    (net : Network) (seq : ℕ) (bs : List Bytes) (w : World) (stats : Stats)
    → seq + length bs < 2 ^ 64
    → All (IsAckOf w.server.received) w.inbox
    → length w.inbox ≤ 4
    → Transfers w.server.received (numbers seq bs) (send_blocks_quic net seq bs w stats)
unfolding send_blocks_quic
send_blocks_quic-Transfers net seq [] w stats fits acks few = record {
  ends = inl refl;
  kept = (handle_datagram-Answers w.server (record { seq = seq; data_ = [] }) (omega arith)).kept;
  received = λ h. tt;
}
send_blocks_quic-Transfers net seq (b ∷ bs) w stats fits acks few =
    let p : UdpPayload = record { seq = seq; data_ = b } in
    next (send_and_wait_for_ack net w stats p)
      (exchange-Settles net w stats p (omega arith) acks few)
      (λ w' stats'. send_blocks_quic-Transfers net (suc seq) bs w' stats' (omega arith))
  where
    one : add_u64 seq 1 ≡ suc seq
    one = omega arith

    next :
        (x : Exchange)
        → Settles w.server.received seq x
        → ((w' : World) (stats' : Stats)
            → All (IsAckOf w'.server.received) w'.inbox
            → length w'.inbox ≤ 4
            → Transfers w'.server.received
                (numbers (suc seq) bs)
                (send_blocks_quic net (suc seq) bs w' stats'))
        → Transfers w.server.received
            (numbers seq (b ∷ bs))
            (then_next x (λ w' stats'. send_blocks_quic net (add_u64 seq 1) bs w' stats'))
    next (w', stats', delivered) s again =
        let later =
          subst
            (λ k.
              Transfers w'.server.received (numbers (suc seq) bs)
                (send_blocks_quic net k bs w' stats'))
            (sym one) (again w' stats' s.waiting (s.few refl)) in
        record {
          ends = later.ends;
          kept = λ k m. later.kept k (s.kept k m);
          received = λ h. (later.kept seq (s.received refl), later.received h);
        }
    next (w', stats', no_ack) s again = record {
      ends = inr refl;
      kept = s.kept;
      received = λ h. absurd (cc h);
    }
    next (w', stats', unreachable) s again = elim s.ends [
      | inl h ↦ absurd (cc h)
      | inr h ↦ absurd (cc h)
    ]
    next (w', stats', bad_ack) s again = elim s.ends [
      | inl h ↦ absurd (cc h)
      | inr h ↦ absurd (cc h)
    ]

-- A QUIC stop-and-wait transfer of fewer than 2^64 blocks ends without an error or with the error
-- that no acknowledgement came; the client never reaches its unreachable!() and never meets a short
-- acknowledgement, whatever the network loses or delays, where a late acknowledgement comes before
-- the next attempt.
pub send_blocks_quic-ends :
    (net : Network) (bs : List Bytes)
    → length bs < 2 ^ 64
    → ((send_blocks_quic net 0 bs fresh no_stats).2 ≡ delivered)
      ⊎ ((send_blocks_quic net 0 bs fresh no_stats).2 ≡ no_ack)
send_blocks_quic-ends net bs fits =
    (send_blocks_quic-Transfers net 0 bs fresh no_stats (omega arith) tt (omega arith)).ends

-- If the client of a QUIC stop-and-wait transfer of fewer than 2^64 blocks ends without an error,
-- the server has received every block, whatever the network lost or delayed.
pub send_blocks_quic-AreReceived :
    (net : Network) (bs : List Bytes)
    → length bs < 2 ^ 64
    → (send_blocks_quic net 0 bs fresh no_stats).2 ≡ delivered
    → AreReceived (numbers 0 bs) (send_blocks_quic net 0 bs fresh no_stats).0.server
send_blocks_quic-AreReceived net bs fits h =
    (send_blocks_quic-Transfers net 0 bs fresh no_stats (omega arith) tt (omega arith)).received h
