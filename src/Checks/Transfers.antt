-- ===== src/Checks/Transfers.antt =====
-- The file transfer of tema1 on a short file, and its scripts.
use laborator_pcd.Base.{
  ℕ, suc, ◌*◌, ◌^◌, ◌≡◌, refl, ap, pos, true, if◌then◌else◌, some, List, [], ◌∷◌, ◌++◌, arith,
  length, All, zero,
}
use laborator_pcd.Base.Chars.{codes}
use laborator_pcd.Py.{int_of_text}
use laborator_pcd.Transfer.Wire.{Bytes, payload_to_bytes, payload_from_bytes, payload_from-to_bytes}
use laborator_pcd.Transfer.Blocks.{blocks}
use laborator_pcd.Transfer.Tcp.{IsTransferred, tcp_transfer}
use laborator_pcd.Transfer.Tcp.{
  no_stats, handle_tcp, send_blocks, handle_connection, unexpected_eof,
}
use laborator_pcd.Transfer.Wire.{header_to_bytes, to_le_bytes}
use laborator_pcd.Transfer.Truncated.{handle_connection-truncated}
use laborator_pcd.Base.{take, ◌<◌}
use laborator_pcd.Transfer.StopAndWait.{
  Network, World, lost, ack_lost, late, answered, acked, invalid_sequence, send_blocks_udp,
}
use laborator_pcd.Transfer.StopAndWait.Outcomes.{
  AreReceived, numbers, fresh, send_blocks_udp-AreReceived,
}
use laborator_pcd.Transfer.StopAndWait.Answered.{IsAnswered, send_blocks_udp-acked}
use laborator_pcd.Transfer.StopAndWait.Clean.{PrintsSame, send_blocks_udp-PrintsSame}
use laborator_pcd.Transfer.StopAndWait.Late.{send_blocks_udp-late}
use laborator_pcd.Transfer.Schedule.{Client, timed_out, main, parse_args}
use laborator_pcd.Transfer.Schedule.Accepted.{
  commands, schedule, is_ready, is_accepted, commands-main, experiments_accepted,
}
use laborator_pcd.Transfer.Data.{Urandom, main as generate, written, main-length}

-- Seven bytes in blocks of three.
abbrev content : Bytes
content = 1 ∷ 2 ∷ 3 ∷ 4 ∷ 5 ∷ 6 ∷ 7 ∷ []

tcp_transfer_example :
    (bs : List Bytes) × (blocks
        (suc (length content))
        (record { content = content; block_size = 3; current_pos = 0 })
      ≡ some bs)
    × IsTransferred content bs
tcp_transfer_example = tcp_transfer content 3 (omega arith) (omega arith) (omega arith)

payload_from-to_bytes_example :
    payload_from_bytes (payload_to_bytes (record { seq = 300; data_ = content }) ++ (0 ∷ 0 ∷ []))
    ≡ some (record { seq = 300; data_ = content ++ (0 ∷ 0 ∷ []) })
payload_from-to_bytes_example =
    payload_from-to_bytes (record { seq = 300; data_ = content }) (0 ∷ 0 ∷ []) (omega arith)

-- Every run times out.
abbrev slow : Client
slow past cmd = timed_out

commands-main_example :
    commands (main (λ path. true) slow) ≡ (if is_ready (λ path. true) then schedule else [])
commands-main_example = commands-main (λ path. true) slow

experiments_accepted_example :
    All (λ cmd. is_accepted (parse_args cmd) ≡ true) (commands (main (λ path. true) slow))
experiments_accepted_example = experiments_accepted (λ path. true) slow

repeat_zero : ℕ → Bytes
repeat_zero zero = []
repeat_zero (suc n) = 0 ∷ repeat_zero n

length-repeat_zero : (n : ℕ) → length (repeat_zero n) ≡ n
unfolding repeat_zero
length-repeat_zero zero = refl
length-repeat_zero (suc n) = ap suc (length-repeat_zero n)

abbrev zeros : Urandom
zeros call size = repeat_zero size

parsed : int_of_text (codes " 2") ≡ some (pos 2)
unfolding int_of_text
parsed = refl

main-length_example :
    (file : Bytes) × (generate zeros ("generate_data.py" ∷ "medium" ∷ " 2" ∷ [])
      ≡ written "client/data/medium" file)
    × (length file ≡ 2 * 2 ^ 20)
main-length_example =
    main-length zeros "generate_data.py" "medium" " 2" (pos 2)
      (λ call size. length-repeat_zero size) parsed

abbrev two_blocks : List Bytes
two_blocks = (1 ∷ 2 ∷ []) ∷ (3 ∷ []) ∷ []

-- The first block's acknowledgement is lost once, and the second block is lost once.
abbrev lossy : Network
lossy zero = (ack_lost, answered)
lossy (suc k) = (lost, answered)

lossy-IsAnswered : (k : ℕ) → IsAnswered (lossy k)
lossy-IsAnswered zero = refl
lossy-IsAnswered (suc k) = refl

send_blocks_udp-acked_example : (send_blocks_udp lossy 0 two_blocks fresh no_stats).2 ≡ acked
send_blocks_udp-acked_example =
    send_blocks_udp-acked lossy two_blocks (omega arith) lossy-IsAnswered

lossy-acked : (send_blocks_udp lossy 0 two_blocks fresh no_stats).2 ≡ acked
lossy-acked = send_blocks_udp-acked lossy two_blocks (omega arith) lossy-IsAnswered

send_blocks_udp-AreReceived_example :
    AreReceived (numbers 0 two_blocks) (send_blocks_udp lossy 0 two_blocks fresh no_stats).0.server
send_blocks_udp-AreReceived_example =
    send_blocks_udp-AreReceived lossy two_blocks (omega arith) lossy-acked

-- The server is slow to acknowledge the first block.
abbrev slow_start : Network
slow_start zero = (late, answered)
slow_start (suc k) = (answered, answered)

send_blocks_udp-late_example :
    (w : World) × (send_blocks_udp slow_start 0 two_blocks fresh no_stats
      ≡ (w, record { packets = 3; byte_count = 5 }, invalid_sequence))
send_blocks_udp-late_example = send_blocks_udp-late slow_start (1 ∷ 2 ∷ []) (3 ∷ []) [] refl

-- The stream of the two blocks has fifteen bytes.
seven_early : 7 < length (handle_tcp two_blocks).0
unfolding handle_tcp send_blocks header_to_bytes to_le_bytes
seven_early = omega arith

handle_connection-truncated_example :
    handle_connection (suc (length two_blocks)) no_stats (take 7 (handle_tcp two_blocks).0)
    ≡ unexpected_eof
handle_connection-truncated_example =
    handle_connection-truncated 2 two_blocks 7 (omega arith)
      ((omega arith, omega arith), ((omega arith, omega arith), tt)) seven_early

abbrev quiet : Network
quiet k = (answered, answered)

send_blocks_udp-PrintsSame_example :
    PrintsSame [] (send_blocks_udp quiet 0 two_blocks fresh no_stats)
send_blocks_udp-PrintsSame_example =
    send_blocks_udp-PrintsSame quiet two_blocks (omega arith) (λ k. refl)
