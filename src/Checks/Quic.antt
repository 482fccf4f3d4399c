-- ===== src/Checks/Quic.antt =====
-- Stop-and-wait transfers of two blocks over QUIC.
use laborator_pcd.Base.{ℕ, zero, suc, ◌≡◌, ◌⊎◌, List, [], ◌∷◌, arith}
use laborator_pcd.Transfer.Wire.{Bytes}
use laborator_pcd.Transfer.Tcp.{no_stats}
use laborator_pcd.Transfer.StopAndWait.{lost, ack_lost, late}
use laborator_pcd.Transfer.StopAndWait.Outcomes.{AreReceived, numbers, fresh}
use laborator_pcd.Transfer.QuicStopAndWait.{Network, delivered, no_ack, send_blocks_quic}
use laborator_pcd.Transfer.QuicStopAndWait.Whole.{
  send_blocks_quic-ends, send_blocks_quic-AreReceived,
}
use laborator_pcd.Transfer.QuicStopAndWait.Late.{Arrives}
use laborator_pcd.Transfer.QuicStopAndWait.Slow.{IsAcknowledged, send_blocks_quic-IsAcknowledged}

abbrev two_blocks : List Bytes
two_blocks = (1 ∷ 2 ∷ []) ∷ (3 ∷ []) ∷ []

-- The first block is lost three times; then everything is late.
abbrev rough : Network
rough zero zero = lost
rough zero (suc zero) = ack_lost
rough zero (suc (suc zero)) = lost
rough k a = late

-- Every acknowledgement is late.
abbrev slow : Network
slow k a = late

slow-Arrives : (k a : ℕ) → Arrives (slow k a)
slow-Arrives k a = tt

send_blocks_quic-ends_example :
    ((send_blocks_quic rough 0 two_blocks fresh no_stats).2 ≡ delivered)
    ⊎ ((send_blocks_quic rough 0 two_blocks fresh no_stats).2 ≡ no_ack)
send_blocks_quic-ends_example = send_blocks_quic-ends rough two_blocks (omega arith)

send_blocks_quic-IsAcknowledged_example :
    IsAcknowledged 0 two_blocks (send_blocks_quic slow 0 two_blocks fresh no_stats)
send_blocks_quic-IsAcknowledged_example =
    send_blocks_quic-IsAcknowledged slow two_blocks (omega arith) slow-Arrives
      (omega arith, (omega arith, tt))

slow-delivered : (send_blocks_quic slow 0 two_blocks fresh no_stats).2 ≡ delivered
slow-delivered =
    (send_blocks_quic-IsAcknowledged slow two_blocks (omega arith) slow-Arrives
      (omega arith, (omega arith, tt))).0

send_blocks_quic-AreReceived_example :
    AreReceived (numbers 0 two_blocks) (send_blocks_quic slow 0 two_blocks fresh no_stats).0.server
send_blocks_quic-AreReceived_example =
    send_blocks_quic-AreReceived slow two_blocks (omega arith) slow-delivered
