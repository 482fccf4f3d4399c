-- ===== src/Transfer/QuicStopAndWait/Late.antt =====
-- The QUIC stop-and-wait exchange of tema1 for one block, where nothing is lost but acknowledgements
-- may be late.
use mathlib.Core.Path.{subst}
use laborator_pcd.Base.{
  ℕ, suc, ◌+◌, ◌≤◌, ◌<◌, ◌^◌, ◌≡◌, refl, sym, ◌⊎◌, inl, inr, true, false, ◌==◌, ==_iff, Bool-cases,
  some, Empty, List, [], ◌∷◌, arith, length,
}
use laborator_pcd.Transfer.Wire.{
  Bytes, UdpPayload, UdpAck, payload_to_bytes, ack_to_bytes, ack_from_bytes, ack_from-to_bytes,
}
use laborator_pcd.Transfer.Tcp.{Stats, add_block}
use laborator_pcd.Transfer.StopAndWait.{
  Server, World, Fate, lost, ack_lost, late, answered, deliver,
}
use laborator_pcd.Transfer.QuicStopAndWait.{
  Network, delivered, Exchange, handle_datagram, read_datagram, attempts,
}
use laborator_pcd.Transfer.QuicStopAndWait.Reading.{read_back}
use laborator_pcd.Transfer.QuicStopAndWait.Settled.{outcome}

-- The datagram arrives, and so does its acknowledgement, if late.
abbrev pub Arrives : Fate → Type 0
Arrives lost = Empty
Arrives ack_lost = Empty
Arrives late = Unit
Arrives answered = Unit

-- At most one acknowledgement waits.
abbrev pub IsShort : List Bytes → Type 0
IsShort ds = (ds ≡ []) ⊎ ((d : Bytes) × (a : UdpAck) × (ds ≡ d ∷ []) × (ack_from_bytes d ≡ some a))

-- The exchange is acknowledged, with at most so many datagrams more than before.
pub record IsPrompt (sent more : ℕ) (x : Exchange) : Type 0 where
  pub acked : x.2 ≡ delivered
  pub at_most : x.1.packets ≤ sent + more
  pub at_least : sent < x.1.packets
  pub short : IsShort x.0.inbox

handle_block :
    (s : Server) (p : UdpPayload)
    → p.seq < 2 ^ 64
    → 0 < length p.data_
    → (s' : Server) × (handle_datagram s (payload_to_bytes p)
        ≡ (s', ack_to_bytes (record { ack_seq = p.seq }) ∷ []))
unfolding handle_datagram
handle_block s p fits full = rw (read_back p fits, nonempty) (_, refl)
  where
    nonempty : (length p.data_ == 0) ≡ false
    nonempty = ground arith

module _ (net : Network) (p : UdpPayload) (fits : p.seq < 2 ^ 64) (full : 0 < length p.data_)
    (arrives : (a : ℕ) → Arrives (net p.seq a)) where
  own : Bytes
  own = ack_to_bytes (record { ack_seq = p.seq })

  own-read : ack_from_bytes own ≡ some (record { ack_seq = p.seq })
  unfolding own
  own-read = ack_from-to_bytes (record { ack_seq = p.seq }) fits

  -- An attempt, whatever the server's answer was shown to be.
  by_answer :
      (Q : Exchange → Type 0) (left attempt : ℕ) (w : World) (total : Stats)
      → ((s' : Server)
          → Q (
              outcome p attempt
                (add_block total p.data_)
                (λ w. attempts net left (suc attempt) w (add_block total p.data_) p)
                (read_datagram (deliver (net p.seq attempt) w (s', own ∷ [])))))
      → Q (attempts net (suc left) attempt w total p)
  unfolding attempts own
  by_answer Q left attempt w total h =
      let (s', handled) = handle_block w.server p fits full in
      subst
        (λ x. Q (
          outcome p attempt (add_block total p.data_)
            (λ w. attempts net left (suc attempt) w (add_block total p.data_) p)
            (read_datagram (deliver (net p.seq attempt) w x))))
        (sym handled) (h s')

  -- The acknowledgement of an earlier attempt waits: this attempt is the last.
  own_waits :
      (left attempt : ℕ) (s : Server) (total : Stats)
      → total.packets + 1 < 2 ^ 64
      → IsPrompt total.packets 1
          (attempts net (suc left) attempt (record { server = s; inbox = own ∷ [] }) total p)
  own_waits left attempt s total room =
      by_answer (IsPrompt total.packets 1) left attempt _ total
        (λ s'. by_fate s' (net p.seq attempt) (arrives attempt))
    where
      same : (p.seq == p.seq) ≡ true
      same = (==_iff p.seq p.seq).1 refl

      by_fate :
          (s' : Server) (f : Fate)
          → Arrives f
          → IsPrompt total.packets 1 (
              outcome p attempt
                (add_block total p.data_)
                (λ w. attempts net left (suc attempt) w (add_block total p.data_) p)
                (read_datagram
                  (deliver f (record { server = s; inbox = own ∷ [] }) (s', own ∷ []))))
      by_fate s' lost h = elim h [ ]
      by_fate s' ack_lost h = elim h [ ]
      by_fate s' late h =
          rw (own-read, same)
            (record {
              acked = refl;
              at_most = omega (arith, room);
              at_least = omega (arith, room);
              short = inr (own, record { ack_seq = p.seq }, refl, own-read);
            })
      by_fate s' answered h =
          rw (own-read, same)
            (record {
              acked = refl;
              at_most = omega (arith, room);
              at_least = omega (arith, room);
              short = inr (own, record { ack_seq = p.seq }, refl, own-read);
            })

  second_try :
      (s : Server) (total : Stats)
      → total.packets + 2 < 2 ^ 64
      → IsPrompt total.packets 2
          (attempts net 4 1 (record { server = s; inbox = own ∷ [] }) (add_block total p.data_) p)
  second_try s total room =
      let last = own_waits 3 1 s (add_block total p.data_) (omega (arith, room)) in
      record {
        acked = last.acked;
        at_most = omega (arith, last.at_most, room);
        at_least = omega (arith, last.at_least, room);
        short = last.short;
      }

  -- The first attempt, with nothing or one acknowledgement waiting.
  pub first_try :
      (s : Server) (inbox : List Bytes) (total : Stats)
      → IsShort inbox
      → total.packets + 2 < 2 ^ 64
      → IsPrompt total.packets 2 (attempts net 5 0 (record { server = s; inbox = inbox }) total p)
  first_try s inbox total (inl e) room = rw e (
      by_answer (IsPrompt total.packets 2) 4 0 (record { server = s; inbox = [] }) total
        (λ s'. by_fate s' (net p.seq 0) (arrives 0)))
    where
      by_fate :
          (s' : Server) (f : Fate)
          → Arrives f
          → IsPrompt total.packets 2 (
              outcome p 0
                (add_block total p.data_)
                (λ w. attempts net 4 1 w (add_block total p.data_) p)
                (read_datagram (deliver f (record { server = s; inbox = [] }) (s', own ∷ []))))
      by_fate s' lost h = elim h [ ]
      by_fate s' ack_lost h = elim h [ ]
      by_fate s' late h = second_try s' total room
      by_fate s' answered h =
          rw (own-read, (==_iff p.seq p.seq).1 refl)
            (record {
              acked = refl;
              at_most = omega (arith, room);
              at_least = omega (arith, room);
              short = inl refl;
            })
  first_try s inbox total (inr (d, a, e, r)) room = rw e (
      by_answer (IsPrompt total.packets 2) 4 0 (record { server = s; inbox = d ∷ [] }) total
        (λ s'. by_fate s' (net p.seq 0) (arrives 0)))
    where
      after_stale :
          (s' : Server)
          → IsPrompt total.packets 2 (
              outcome p 0
                (add_block total p.data_)
                (λ w. attempts net 4 1 w (add_block total p.data_) p)
                (record { server = s'; inbox = own ∷ [] }, some d))
      after_stale s' = rw r (elim (Bool-cases (a.ack_seq == p.seq)) [
        | inl q ↦ rw q (record {
          acked = refl;
          at_most = omega (arith, room);
          at_least = omega (arith, room);
          short = inr (own, record { ack_seq = p.seq }, refl, own-read);
        })
        | inr q ↦ rw q (second_try s' total room)
      ])

      by_fate :
          (s' : Server) (f : Fate)
          → Arrives f
          → IsPrompt total.packets 2 (
              outcome p 0
                (add_block total p.data_)
                (λ w. attempts net 4 1 w (add_block total p.data_) p)
                (read_datagram (deliver f (record { server = s; inbox = d ∷ [] }) (s', own ∷ []))))
      by_fate s' lost h = elim h [ ]
      by_fate s' ack_lost h = elim h [ ]
      by_fate s' late h = after_stale s'
      by_fate s' answered h = after_stale s'
