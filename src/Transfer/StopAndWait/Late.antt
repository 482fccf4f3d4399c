-- ===== src/Transfer/StopAndWait/Late.antt =====
-- What a late acknowledgement does to a stop-and-wait transfer of tema1.
use laborator_pcd.Base.{
  ℕ, ◌<◌, ◌^◌, ◌≡◌, refl, ap, ◌∙◌, false, ◌==◌, if◌then◌else◌, List, [], ◌∷◌, ◌++◌, arith,
}
use laborator_pcd.Transfer.Wire.{Bytes, UdpPayload, payload_to_bytes, ack_to_bytes}
use laborator_pcd.Transfer.Tcp.{Stats, no_stats, add_u64, add_block}
use laborator_pcd.Transfer.StopAndWait.{
  Server, World, Fate, lost, ack_lost, late, answered, acked, invalid_sequence, out_of_time,
  Network, handle_datagram, deliver, await_from, send_once, retry, send_and_wait_for_ack, then_next,
  send_blocks_udp,
}
use laborator_pcd.Transfer.StopAndWait.Delivery.{handle_payload}
use laborator_pcd.Transfer.StopAndWait.Outcomes.{fresh}
use laborator_pcd.Transfer.StopAndWait.Answered.{at, check_ack_of, check_own_ack}

-- An attempt whose acknowledgement comes late runs out of time, and leaves it at the socket.
send_once-late :
    (s : Server) (p : UdpPayload)
    → p.seq < 2 ^ 64
    → (s' : Server) × (send_once late (at s) p ≡ (
      record { server = s'; inbox = ack_to_bytes (record { ack_seq = p.seq }) ∷ [] },
      out_of_time,
    ))
unfolding send_once
send_once-late s p fits =
    let (s', handled, _) = handle_payload s p fits in
    (s', ap (λ x. await_from p (deliver late (at s) x)) handled)

-- An acknowledgement that waits at the socket.
abbrev with_ack : Server → ℕ → World
with_ack s seq = record { server = s; inbox = ack_to_bytes (record { ack_seq = seq }) ∷ [] }

-- An attempt at whose start an acknowledgement waits takes that one for its own.
send_once-waiting :
    (f : Fate) (s : Server) (seq : ℕ) (p : UdpPayload)
    → seq < 2 ^ 64
    → (w : World) × (send_once f (with_ack s seq) p
        ≡ (w, (if seq == p.seq then acked else invalid_sequence)))
unfolding send_once
send_once-waiting f s seq p fits = by_fate f (handle_datagram s (payload_to_bytes p))
  where
    by_fate :
        (f : Fate) (x : Server × List Bytes)
        → (w : World) × (await_from p (deliver f (with_ack s seq) x)
            ≡ (w, (if seq == p.seq then acked else invalid_sequence)))
    by_fate lost x = (_, ap (λ r. (at s, r)) (check_ack_of p seq fits))
    by_fate ack_lost (s', acks) = (_, ap (λ r. (at s', r)) (check_ack_of p seq fits))
    by_fate late (s', acks) =
        (_, ap (λ r. (record { server = s'; inbox = acks }, r)) (check_ack_of p seq fits))
    by_fate answered (s', acks) =
        (_, ap (λ r. (record { server = s'; inbox = acks ++ [] }, r)) (check_ack_of p seq fits))

-- If it is answered, its own acknowledgement stays behind.
send_once-again :
    (s : Server) (p : UdpPayload)
    → p.seq < 2 ^ 64
    → (s' : Server) × (send_once answered (with_ack s p.seq) p ≡ (with_ack s' p.seq, acked))
unfolding send_once
send_once-again s p fits =
    let (s', handled, _) = handle_payload s p fits in
    (
      s',
      ap (λ x. await_from p (deliver answered (with_ack s p.seq) x)) handled
          ∙ ap (λ r. (with_ack s' p.seq, r)) (check_own_ack p fits),
    )

-- A block whose first acknowledgement is late and whose second is not leaves one behind.
send_and_wait-late :
    (s : Server) (stats : Stats) (p : UdpPayload)
    → p.seq < 2 ^ 64
    → (s' : Server) × (send_and_wait_for_ack late answered (at s) stats p
        ≡ (with_ack s' p.seq, add_block (add_block stats p.data_) p.data_, acked))
unfolding send_and_wait_for_ack
send_and_wait-late s stats p fits =
    let total = add_block stats p.data_ in
    let (s1, e1) = send_once-late s p fits in
    let (s', e) = send_once-again s1 p fits in
    (s', ap (retry answered p total) e1 ∙ ap (λ x. (x.0, add_block total p.data_, x.1)) e)

send_and_wait-waiting :
    (f g : Fate) (s : Server) (seq : ℕ) (stats : Stats) (p : UdpPayload)
    → seq < 2 ^ 64
    → (seq == p.seq) ≡ false
    → (w : World) × (send_and_wait_for_ack f g (with_ack s seq) stats p
        ≡ (w, add_block stats p.data_, invalid_sequence))
unfolding send_and_wait_for_ack
send_and_wait-waiting f g s seq stats p fits other =
    let (w, e) = send_once-waiting f s seq p fits in
    let total = add_block stats p.data_ in
    (w, ap (retry g p total) (e ∙ ap (λ b. (w, (if b then acked else invalid_sequence))) other))

-- If the acknowledgement of the first block comes right after its time is out, before the second
-- attempt, and that of the second attempt in time, then a stop-and-wait transfer of two blocks or
-- more ends with an invalid sequence number at the second block, when the first one was sent twice
-- and the second one once, whatever the network does with the second block.
pub send_blocks_udp-late :
    (net : Network) (b0 b1 : Bytes) (bs : List Bytes)
    → net 0 ≡ (late, answered)
    → (w : World) × (send_blocks_udp net 0 (b0 ∷ b1 ∷ bs) fresh no_stats
        ≡ (w, add_block (add_block (add_block no_stats b0) b0) b1, invalid_sequence))
unfolding send_blocks_udp
send_blocks_udp-late net b0 b1 bs first =
    let p0 : UdpPayload = record { seq = 0; data_ = b0 } in
    let p1 : UdpPayload = record { seq = add_u64 0 1; data_ = b1 } in
    let sent = add_block (add_block no_stats b0) b0 in
    let (s', e) = send_and_wait-late fresh.server no_stats p0 (omega arith) in
    let (w, e2) =
      send_and_wait-waiting (net (add_u64 0 1)).0 (net (add_u64 0 1)).1 s' 0 sent p1 (omega arith)
        refl in
    let rest = λ (w : World) (stats : Stats). send_blocks_udp net (add_u64 0 1) (b1 ∷ bs) w stats in
    let last =
      λ (w : World) (stats : Stats). send_blocks_udp net (add_u64 (add_u64 0 1) 1) bs w stats in
    (
      w,
      ap
            (λ fates.
              then_next (send_and_wait_for_ack fates.0 fates.1 fresh no_stats p0)
                (λ w stats. rest w stats))
            first
          ∙ ap (λ x. then_next x (λ w stats. rest w stats)) e
          ∙ ap (λ x. then_next x (λ w stats. last w stats)) e2,
    )
