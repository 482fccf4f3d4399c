-- ===== src/Transfer/QuicStopAndWait/Slow.antt =====
-- A QUIC stop-and-wait transfer of tema1 on a network that loses nothing but may be slow.
use laborator_pcd.Base.{
  ℕ, suc, ◌+◌, ◌*◌, ◌≤◌, ◌<◌, ◌^◌, ◌≡◌, refl, inl, List, [], ◌∷◌, arith, length, All,
}
use laborator_pcd.Transfer.Wire.{Bytes}
use laborator_pcd.Transfer.Tcp.{Stats, no_stats, add_u64}
use laborator_pcd.Transfer.StopAndWait.{Server}
use laborator_pcd.Transfer.StopAndWait.Outcomes.{fresh}
use laborator_pcd.Transfer.QuicStopAndWait.{
  Network, delivered, no_ack, unreachable, bad_ack, Exchange, send_and_wait_for_ack, then_next,
  send_blocks_quic,
}
use laborator_pcd.Transfer.QuicStopAndWait.Late.{Arrives, IsShort, IsPrompt, first_try}

-- A transfer is acknowledged to its end, with at least as many datagrams as blocks and at most
-- twice as many.
abbrev pub IsAcknowledged : ℕ → List Bytes → Exchange → Type 0
IsAcknowledged sent bs x =
    (x.2 ≡ delivered) × (sent + length bs ≤ x.1.packets) × (x.1.packets ≤ sent + 2 * length bs)

from_short :
    (net : Network) (seq : ℕ) (bs : List Bytes) (s : Server) (inbox : List Bytes) (total : Stats)
    → seq + length bs < 2 ^ 64
    → total.packets + 2 * length bs < 2 ^ 64
    → ((k a : ℕ) → Arrives (net k a))
    → All (λ b. 0 < length b) bs
    → IsShort inbox
    → IsAcknowledged total.packets bs
        (send_blocks_quic net seq bs (record { server = s; inbox = inbox }) total)
unfolding send_blocks_quic
from_short net seq [] s inbox total fits room arrives full short = (refl, omega arith, omega arith)
from_short net seq (b ∷ bs) s inbox total fits room arrives full short =
    next
      (send_and_wait_for_ack net (record { server = s; inbox = inbox }) total
        (record { seq = seq; data_ = b }))
      (unfold send_and_wait_for_ack in
        first_try net (record { seq = seq; data_ = b }) (omega arith) full.0 (arrives seq) s inbox
          total short (omega arith))
      (λ s' inbox' total' room' short'.
        from_short net (suc seq) bs s' inbox' total' (omega arith) room' arrives full.1 short')
  where
    one : add_u64 seq 1 ≡ suc seq
    one = omega arith

    next :
        (x : Exchange)
        → IsPrompt total.packets 2 x
        → ((s' : Server) (inbox' : List Bytes) (total' : Stats)
            → total'.packets + 2 * length bs < 2 ^ 64
            → IsShort inbox'
            → IsAcknowledged total'.packets bs
                (send_blocks_quic net (suc seq) bs (record { server = s'; inbox = inbox' }) total'))
        → IsAcknowledged total.packets
            (b ∷ bs)
            (then_next x (λ w' stats'. send_blocks_quic net (add_u64 seq 1) bs w' stats'))
    next (w', stats', delivered) prompt again = rw one (
        let later = again w'.server w'.inbox stats' (omega (arith, prompt.at_most)) prompt.short in
        (later.0, omega (arith, later.1, prompt.at_least), omega (arith, later.2, prompt.at_most)))
    next (w', stats', no_ack) prompt again = absurd (cc prompt.acked)
    next (w', stats', unreachable) prompt again = absurd (cc prompt.acked)
    next (w', stats', bad_ack) prompt again = absurd (cc prompt.acked)

-- If the network loses nothing, and each acknowledgement comes in time or right after the wait of
-- its attempt, before the next one, a QUIC stop-and-wait transfer of fewer than 2^63 blocks, none
-- of them empty, ends without an error and sends at least one and at most two datagrams for each
-- block.
pub send_blocks_quic-IsAcknowledged :
    (net : Network) (bs : List Bytes)
    → length bs < 2 ^ 63
    → ((k a : ℕ) → Arrives (net k a))
    → All (λ b. 0 < length b) bs
    → IsAcknowledged 0 bs (send_blocks_quic net 0 bs fresh no_stats)
send_blocks_quic-IsAcknowledged net bs fits arrives full =
    from_short net 0 bs fresh.server [] no_stats (omega arith) (omega arith) arrives full (inl refl)
