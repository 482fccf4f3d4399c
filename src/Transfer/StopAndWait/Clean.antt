-- ===== src/Transfer/StopAndWait/Clean.antt =====
-- A stop-and-wait transfer of tema1 over a network that neither loses nor delays anything: the
-- client and the server count the same.
use mathlib.Core.Path.{subst}
use laborator_pcd.Base.{
  ℕ, suc, ◌+◌, ◌-◌, ◌<◌, ◌^◌, ◌≡◌, refl, sym, ap, ◌∙◌, List, [], ◌∷◌, arith, length, length-append,
}
use laborator_pcd.Transfer.Wire.{
  Bytes, UdpPayload, to_le_bytes, payload_to_bytes, payload_from-to_bytes, ack_to_bytes,
  length-to_le_bytes,
}
use laborator_pcd.Transfer.Tcp.{Stats, no_stats, add_u64, add_block}
use laborator_pcd.Transfer.StopAndWait.{
  Server, World, Fate, answered, Reply, acked, Network, zeros, max_block_size, handle_datagram,
  deliver, await_from, send_once, retry, send_and_wait_for_ack, then_next, send_blocks_udp,
  acknowledge,
}
use laborator_pcd.Transfer.StopAndWait.Delivery.{payload-nonempty}
use laborator_pcd.Transfer.StopAndWait.Outcomes.{fresh}
use laborator_pcd.Transfer.StopAndWait.Answered.{at, check_own_ack}

-- The sequence number is taken off again.
add_u64-payload :
    (total : ℕ) (p : UdpPayload)
    → add_u64 total (length (payload_to_bytes p) + 2 ^ 64 - 8) ≡ add_u64 total (length p.data_)
unfolding payload_to_bytes
add_u64-payload total p =
    omega (arith, length-append (to_le_bytes 8 p.seq) p.data_, length-to_le_bytes 8 p.seq)

-- The server counts a payload as the client does.
handle_datagram-payload :
    (s : Server) (p : UdpPayload)
    → p.seq < 2 ^ 64
    → handle_datagram s (payload_to_bytes p) ≡ (
      record {
        stats = add_block s.stats p.data_;
        printed = s.printed;
        received = p.seq ∷ s.received;
      },
      ack_to_bytes (record { ack_seq = p.seq }) ∷ [],
    )
unfolding handle_datagram
handle_datagram-payload s p fits =
    let rest = zeros (max_block_size - length (payload_to_bytes p)) in
    let n = length (payload_to_bytes p) in
    rw (payload-nonempty p) (
      ap (acknowledge s n) (payload_from-to_bytes p rest fits)
      ∙ ap
          (λ m. (
            record {
              stats = record { packets = add_u64 s.stats.packets 1; byte_count = m };
              printed = s.printed;
              received = p.seq ∷ s.received;
            },
            ack_to_bytes (record { ack_seq = p.seq }) ∷ [],
          ))
          (add_u64-payload s.stats.byte_count p))

abbrev after_payload : Server → UdpPayload → Server
after_payload s p = record {
  stats = add_block s.stats p.data_;
  printed = s.printed;
  received = p.seq ∷ s.received;
}

send_and_wait-clean :
    (g : Fate) (s : Server) (p : UdpPayload)
    → p.seq < 2 ^ 64
    → send_and_wait_for_ack answered g (at s) s.stats p
      ≡ (at (after_payload s p), add_block s.stats p.data_, acked)
unfolding send_and_wait_for_ack send_once
send_and_wait-clean g s p fits =
    ap (λ x. retry g p (add_block s.stats p.data_) (await_from p (deliver answered (at s) x)))
      (handle_datagram-payload s p fits)
    ∙ ap (λ r. retry g p (add_block s.stats p.data_) (at (after_payload s p), r))
        (check_own_ack p fits)

-- The server has printed, last, what the client has counted.
abbrev pub PrintsSame : List Stats → World × Stats × Reply → Type 0
PrintsSame before x = (x.2 ≡ acked) × (x.0.server.printed ≡ x.1 ∷ before)

send_blocks_udp-PrintsSame_from :
    (net : Network) (seq : ℕ) (bs : List Bytes) (s : Server)
    → seq + length bs < 2 ^ 64
    → ((k : ℕ) → (net k).0 ≡ answered)
    → PrintsSame s.printed (send_blocks_udp net seq bs (at s) s.stats)
unfolding send_blocks_udp handle_datagram
send_blocks_udp-PrintsSame_from net seq [] s fits clean = (refl, refl)
send_blocks_udp-PrintsSame_from net seq (b ∷ bs) s fits clean =
    let p : UdpPayload = record { seq = seq; data_ = b } in
    let one : add_u64 seq 1 ≡ suc seq = omega arith in
    let e =
      ap (λ f. send_and_wait_for_ack f (net seq).1 (at s) s.stats p) (clean seq)
      ∙ send_and_wait-clean (net seq).1 s p (omega arith) in
    let later =
      send_blocks_udp-PrintsSame_from net (suc seq) bs (after_payload s p) (omega arith) clean in
    subst
      (λ x.
        PrintsSame s.printed
          (then_next x (λ w stats. send_blocks_udp net (add_u64 seq 1) bs w stats)))
      (sym e)
      (subst
        (λ k.
          PrintsSame s.printed
            (send_blocks_udp net k bs (at (after_payload s p)) (add_block s.stats b)))
        (sym one) later)

-- If the network answers the first attempt for every block in time, a stop-and-wait transfer of
-- fewer than 2^64 blocks ends without an error, and the server prints the client's own counts.
pub send_blocks_udp-PrintsSame :
    (net : Network) (bs : List Bytes)
    → length bs < 2 ^ 64
    → ((k : ℕ) → (net k).0 ≡ answered)
    → PrintsSame [] (send_blocks_udp net 0 bs fresh no_stats)
send_blocks_udp-PrintsSame net bs fits clean =
    send_blocks_udp-PrintsSame_from net 0 bs fresh.server (omega arith) clean
