-- ===== src/Transfer/StopAndWait/Outcomes.antt =====
-- Whole stop-and-wait transfers of tema1: what is delivered when the client reports no error.
use laborator_pcd.Base.{
  ℕ, suc, ◌+◌, ◌<◌, ◌^◌, ◌≡◌, refl, sym, List, [], ◌∷◌, arith, length, All, In,
}
use mathlib.Core.Path.{subst}
use laborator_pcd.Transfer.Wire.{Bytes, UdpPayload}
use laborator_pcd.Transfer.Tcp.{Stats, no_stats, add_u64, add_block}
use laborator_pcd.Transfer.StopAndWait.{
  Server, World, Fate, Reply, acked, invalid_length, invalid_sequence, out_of_time, Network,
  handle_datagram, send_once, send_and_wait_for_ack, then_next, send_blocks_udp,
}
use laborator_pcd.Transfer.StopAndWait.Delivery.{IsAckOf, IsSound, send_once-IsSound, retry-IsSound}

-- The sequence numbers of blocks, from the first one's on.
abbrev pub numbers : ℕ → List Bytes → List ℕ
numbers seq [] = []
numbers seq (_ ∷ bs) = seq ∷ numbers (suc seq) bs

abbrev pub AreReceived : List ℕ → Server → Type 0
AreReceived seqs s = All (λ k. In k s.received) seqs

send_and_wait-IsSound :
    (first second : Fate) (w : World) (stats : Stats) (p : UdpPayload)
    → p.seq < 2 ^ 64
    → All (IsAckOf w.server.received) w.inbox
    → IsSound w.server.received p.seq
        (send_and_wait_for_ack first second w stats p).0
        (send_and_wait_for_ack first second w stats p).2
unfolding send_and_wait_for_ack
send_and_wait-IsSound first second w stats p fits waits =
    retry-IsSound second p (add_block stats p.data_) w.server.received (send_once first w p).0
      (send_once first w p).1 fits (send_once-IsSound first w p fits waits)

-- Nothing that was received is forgotten, and every block is received if the client sees no error.
record Delivers (before seqs : List ℕ) (x : World × Stats × Reply) : Type 0 where
  grown : (s : ℕ) → In s before → In s x.0.server.received
  received : x.2 ≡ acked → AreReceived seqs x.0.server

send_blocks_udp-Delivers :
    (net : Network) (seq : ℕ) (bs : List Bytes) (w : World) (stats : Stats)
    → seq + length bs < 2 ^ 64
    → All (IsAckOf w.server.received) w.inbox
    → Delivers w.server.received (numbers seq bs) (send_blocks_udp net seq bs w stats)
unfolding send_blocks_udp handle_datagram
send_blocks_udp-Delivers net seq [] w stats fits waits = record {
  grown = λ s m. m;
  received = λ h. tt;
}
send_blocks_udp-Delivers net seq (b ∷ bs) w stats fits waits =
    next (send_and_wait_for_ack (net seq).0 (net seq).1 w stats (record { seq = seq; data_ = b }))
      (send_and_wait-IsSound (net seq).0 (net seq).1 w stats (record { seq = seq; data_ = b })
        (omega arith) waits)
      (λ w' stats' waits'. send_blocks_udp-Delivers net (suc seq) bs w' stats' (omega arith) waits')
  where
    one : add_u64 seq 1 ≡ suc seq
    one = omega arith

    next :
        (x : World × Stats × Reply)
        → IsSound w.server.received seq x.0 x.2
        → ((w' : World) (stats' : Stats)
            → All (IsAckOf w'.server.received) w'.inbox
            → Delivers w'.server.received
                (numbers (suc seq) bs)
                (send_blocks_udp net (suc seq) bs w' stats'))
        → Delivers w.server.received
            (seq ∷ numbers (suc seq) bs)
            (then_next x (λ w' stats'. send_blocks_udp net (add_u64 seq 1) bs w' stats'))
    next (w', stats', acked) sound again =
        let later =
          subst
            (λ k.
              Delivers w'.server.received (numbers (suc seq) bs)
                (send_blocks_udp net k bs w' stats'))
            (sym one) (again w' stats' sound.waiting) in
        record {
          grown = λ s m. later.grown s (sound.grown s m);
          received = λ h. (later.grown seq (sound.received refl), later.received h);
        }
    next (w', stats', invalid_length) sound again = record {
      grown = sound.grown;
      received = λ h. absurd (cc h);
    }
    next (w', stats', invalid_sequence) sound again = record {
      grown = sound.grown;
      received = λ h. absurd (cc h);
    }
    next (w', stats', out_of_time) sound again = record {
      grown = sound.grown;
      received = λ h. absurd (cc h);
    }

-- A server that has received nothing yet, and a client at whose socket nothing waits.
abbrev pub fresh : World
fresh = record { server = record { stats = no_stats; printed = []; received = [] }; inbox = [] }

-- If the client of a stop-and-wait transfer of fewer than 2^64 blocks ends without an error, the
-- server has received every block, whatever the network lost or delayed.
pub send_blocks_udp-AreReceived :
    (net : Network) (bs : List Bytes)
    → length bs < 2 ^ 64
    → (send_blocks_udp net 0 bs fresh no_stats).2 ≡ acked
    → AreReceived (numbers 0 bs) (send_blocks_udp net 0 bs fresh no_stats).0.server
send_blocks_udp-AreReceived net bs fits h =
    let all = send_blocks_udp-Delivers net 0 bs fresh no_stats (omega arith) tt in all.received h
