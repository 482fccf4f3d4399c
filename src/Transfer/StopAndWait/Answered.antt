-- ===== src/Transfer/StopAndWait/Answered.antt =====
-- When a stop-and-wait transfer of tema1 ends without an error.
use laborator_pcd.Base.{
  ℕ, suc, ◌+◌, ◌<◌, ◌^◌, ◌≡◌, refl, ap, ◌∙◌, ◌==◌, ==_iff, if◌then◌else◌, Empty, List, [], ◌∷◌,
  arith, length,
}
use laborator_pcd.Transfer.Wire.{Bytes, UdpPayload, to_le_bytes, ack_to_bytes, ack_from-to_bytes}
use laborator_pcd.Transfer.Tcp.{Stats, no_stats, add_u64, add_block}
use laborator_pcd.Transfer.StopAndWait.{
  Server, World, Fate, lost, ack_lost, late, answered, acked, invalid_sequence, out_of_time,
  Network, deliver, check_ack, check_datagram, await_from, send_once, retry, send_and_wait_for_ack,
  then_next, send_blocks_udp,
}
use laborator_pcd.Transfer.StopAndWait.Delivery.{handle_payload}
use laborator_pcd.Transfer.StopAndWait.Outcomes.{fresh}

-- The first or the second attempt is answered, and no acknowledgement comes late.
abbrev pub IsAnswered : Fate × Fate → Type 0
IsAnswered (answered, _) = Unit
IsAnswered (lost, second) = second ≡ answered
IsAnswered (ack_lost, second) = second ≡ answered
IsAnswered (late, _) = Empty

pub check_ack_of :
    (p : UdpPayload) (seq : ℕ)
    → seq < 2 ^ 64
    → check_datagram p (ack_to_bytes (record { ack_seq = seq }))
      ≡ (if seq == p.seq then acked else invalid_sequence)
unfolding ack_to_bytes to_le_bytes
check_ack_of p seq fits = ap (check_ack p) (ack_from-to_bytes (record { ack_seq = seq }) fits)

pub check_own_ack :
    (p : UdpPayload)
    → p.seq < 2 ^ 64
    → check_datagram p (ack_to_bytes (record { ack_seq = p.seq })) ≡ acked
check_own_ack p fits =
    check_ack_of p p.seq fits
    ∙ ap (λ b. if b then acked else invalid_sequence) ((==_iff p.seq p.seq).1 refl)

abbrev pub at : Server → World
at s = record { server = s; inbox = [] }

-- An attempt that is answered is acknowledged at once, and leaves nothing at the socket.
send_once-answered :
    (s : Server) (p : UdpPayload)
    → p.seq < 2 ^ 64
    → (s' : Server) × (send_once answered (at s) p ≡ (at s', acked))
unfolding send_once
send_once-answered s p fits =
    let (s', handled, _) = handle_payload s p fits in
    (
      s',
      ap (λ x. await_from p (deliver answered (at s) x)) handled
          ∙ ap (λ r. (at s', r)) (check_own_ack p fits),
    )

send_once-ack_lost :
    (s : Server) (p : UdpPayload)
    → p.seq < 2 ^ 64
    → (s' : Server) × (send_once ack_lost (at s) p ≡ (at s', out_of_time))
unfolding send_once
send_once-ack_lost s p fits =
    let (s', handled, _) = handle_payload s p fits in
    (s', ap (λ x. await_from p (deliver ack_lost (at s) x)) handled)

send_once-lost : (s : Server) (p : UdpPayload) → send_once lost (at s) p ≡ (at s, out_of_time)
unfolding send_once
send_once-lost s p = refl

send_and_wait-answered :
    (fates : Fate × Fate) (s : Server) (stats : Stats) (p : UdpPayload)
    → p.seq < 2 ^ 64
    → IsAnswered fates
    → (s' : Server) × (stats' : Stats) × (send_and_wait_for_ack fates.0 fates.1 (at s) stats p
        ≡ (at s', stats', acked))
unfolding send_and_wait_for_ack
send_and_wait-answered (answered, g) s stats p fits h =
    let (s', e) = send_once-answered s p fits in
    (s', add_block stats p.data_, ap (retry g p (add_block stats p.data_)) e)
send_and_wait-answered (lost, g) s stats p fits h =
    let total = add_block stats p.data_ in
    let (s', e) = send_once-answered s p fits in
    (
      s',
      add_block total p.data_,
      ap (retry g p total) (send_once-lost s p)
          ∙ ap (λ g. retry g p total (at s, out_of_time)) h
          ∙ ap (λ x. (x.0, add_block total p.data_, x.1)) e,
    )
send_and_wait-answered (ack_lost, g) s stats p fits h =
    let total = add_block stats p.data_ in
    let (s1, e1) = send_once-ack_lost s p fits in
    let (s', e) = send_once-answered s1 p fits in
    (
      s',
      add_block total p.data_,
      ap (retry g p total) e1
          ∙ ap (λ g. retry g p total (at s1, out_of_time)) h
          ∙ ap (λ x. (x.0, add_block total p.data_, x.1)) e,
    )
send_and_wait-answered (late, g) s stats p fits h = elim h [ ]

send_blocks_udp-from :
    (net : Network) (seq : ℕ) (bs : List Bytes) (s : Server) (stats : Stats)
    → seq + length bs < 2 ^ 64
    → ((k : ℕ) → IsAnswered (net k))
    → (send_blocks_udp net seq bs (at s) stats).2 ≡ acked
unfolding send_blocks_udp
send_blocks_udp-from net seq [] s stats fits answers = refl
send_blocks_udp-from net seq (b ∷ bs) s stats fits answers =
    let p : UdpPayload = record { seq = seq; data_ = b } in
    let (s', stats', e) = send_and_wait-answered (net seq) s stats p (omega arith) (answers seq) in
    let one : add_u64 seq 1 ≡ suc seq = omega arith in
    ap (λ x. (then_next x (λ w stats. send_blocks_udp net (add_u64 seq 1) bs w stats)).2) e
    ∙ ap (λ k. (send_blocks_udp net k bs (at s') stats').2) one
    ∙ send_blocks_udp-from net (suc seq) bs s' stats' (omega arith) answers

-- A stop-and-wait transfer of fewer than 2^64 blocks ends without an error if the network loses at
-- most the first datagram or acknowledgement of each block and delays none.
pub send_blocks_udp-acked :
    (net : Network) (bs : List Bytes)
    → length bs < 2 ^ 64
    → ((k : ℕ) → IsAnswered (net k))
    → (send_blocks_udp net 0 bs fresh no_stats).2 ≡ acked
send_blocks_udp-acked net bs fits answers =
    send_blocks_udp-from net 0 bs fresh.server no_stats (omega arith) answers
