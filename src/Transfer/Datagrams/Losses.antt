-- ===== src/Transfer/Datagrams/Losses.antt =====
-- What the clients and servers of tema1 count in transfers without acknowledgements, whatever is
-- lost and in whatever order the rest arrives before the end.
use mathlib.Core.List.{Perm}
use laborator_pcd.Base.{
  ℕ, ◌+◌, ◌<◌, ◌^◌, ◌≡◌, refl, ap, ◌∙◌, ltb, ◌==◌, if◌then◌else◌, Bool-cases, inl, inr, some, List,
  [], ◌∷◌, ◌++◌, map, arith, length, All,
}
use laborator_pcd.Transfer.Wire.{Bytes, UdpPayload, payload_to_bytes}
use laborator_pcd.Transfer.Tcp.{Stats, no_stats, add_u64, add_block}
use laborator_pcd.Transfer.QuicStopAndWait.Reading.{read_back}
use laborator_pcd.Transfer.Datagrams.{
  handle_udp, send_quic, handle_quic, receive_all_udp, after_payload, handle_quic_connection,
}
use laborator_pcd.Transfer.Datagrams.Counts.{
  sum_of, sum_of_parts, total, one, if_empty, counted, counted-packets, counted-byte_count,
  send_udp-counted, receive_all_udp-counted,
}

-- The blocks as the QUIC client numbers them, and the number of the payload that ends them.
unfoldable pub payloads : ℕ → List Bytes → List UdpPayload
payloads seq [] = []
payloads seq (b ∷ bs) = record { seq = seq; data_ = b } ∷ payloads (add_u64 seq 1) bs

unfoldable pub end_of : ℕ → List Bytes → UdpPayload
end_of seq [] = record { seq = seq; data_ = [] }
end_of seq (b ∷ bs) = end_of (add_u64 seq 1) bs

abbrev pub contents : List UdpPayload → List Bytes
contents = map (λ p. p.data_)

send_quic-counted :
    (seq : ℕ) (stats : Stats) (bs : List Bytes)
    → send_quic seq stats bs ≡ (payloads seq bs ++ (end_of seq bs ∷ []), counted stats bs)
unfolding send_quic counted payloads end_of
send_quic-counted seq stats [] = refl
send_quic-counted seq stats (b ∷ bs) =
    ap (λ x. (record { seq = seq; data_ = b } ∷ x.0, x.1))
      (send_quic-counted (add_u64 seq 1) (add_block stats b) bs)

contents-payloads : (seq : ℕ) (bs : List Bytes) → contents (payloads seq bs) ≡ bs
unfolding payloads
contents-payloads seq [] = refl
contents-payloads seq (b ∷ bs) = ap (λ bs. b ∷ bs) (contents-payloads (add_u64 seq 1) bs)

end_of-fits : (seq : ℕ) (bs : List Bytes) → seq < 2 ^ 64 → (end_of seq bs).seq < 2 ^ 64
unfolding end_of
end_of-fits seq [] h = h
end_of-fits seq (b ∷ bs) h = end_of-fits (add_u64 seq 1) bs (omega arith)

end_of-empty : (seq : ℕ) (bs : List Bytes) → (end_of seq bs).data_ ≡ []
unfolding end_of
end_of-empty seq [] = refl
end_of-empty seq (b ∷ bs) = end_of-empty (add_u64 seq 1) bs

-- Whether a sequence number is too long for 64 bits.
abbrev if_long : UdpPayload → ℕ
if_long p = if ltb p.seq (2 ^ 64) then 0 else 1

payloads-fit : (seq : ℕ) (bs : List Bytes) → seq < 2 ^ 64 → sum_of if_long (payloads seq bs) ≡ 0
unfolding payloads
payloads-fit seq [] h = refl
payloads-fit seq (b ∷ bs) h = ground (arith, payloads-fit (add_u64 seq 1) bs (omega arith))

sum_of-contents :
    (w : Bytes → ℕ) (ps : List UdpPayload) → sum_of w (contents ps) ≡ sum_of (λ p. w p.data_) ps
sum_of-contents w [] = refl
sum_of-contents w (p ∷ ps) = ap (λ n. w p.data_ + n) (sum_of-contents w ps)

quic-counted :
    (stats : Stats) (arrived : List UdpPayload) (last : UdpPayload)
    → last.seq < 2 ^ 64
    → last.data_ ≡ []
    → sum_of if_long arrived ≡ 0
    → sum_of if_empty (contents arrived) ≡ 0
    → handle_quic_connection stats (map payload_to_bytes (arrived ++ (last ∷ [])))
      ≡ some (counted stats (contents arrived))
unfolding handle_quic_connection counted
quic-counted stats [] last fits e long full =
    ap (λ p. after_payload stats p (λ s. some s)) (read_back last fits)
    ∙ ap (λ d. if length d == 0 then some stats else some (add_block stats d)) e
quic-counted stats (p ∷ ps) last fits e long full =
    let rest = map payload_to_bytes (ps ++ (last ∷ [])) in
    ap (λ p. after_payload stats p (λ s. handle_quic_connection s rest))
      (read_back p (ground arith))
    ∙ elim (Bool-cases (length p.data_ == 0)) [
      | inl q ↦ absurd (omega (arith, rw q at full))
      | inr q ↦ rw q (
          quic-counted (add_block stats p.data_) ps last fits e (omega arith)
            (omega (arith, rw q at full)))
    ]

nonempty : (bs : List Bytes) → All (λ b. 0 < length b) bs → sum_of if_empty bs ≡ 0
nonempty [] h = refl
nonempty (b ∷ bs) h = ground (arith, nonempty bs h.1, h.0)

length-sum_of : {A : Type 0} (xs : List A) → sum_of one xs ≡ length xs
length-sum_of [] = refl
length-sum_of (x ∷ xs) = omega (arith, length-sum_of xs)

-- The server's counts fall short of the client's by what was lost.
pub record IsBalanced (lost : List Bytes) (client server : Stats) : Type 0 where
  pub packets : server.packets + length lost ≡ client.packets
  pub bytes : server.byte_count + total lost ≡ client.byte_count

-- Both transfers of the same blocks, where these payloads arrive before the end and those are lost.
pub record IsAccounted (bs : List Bytes) (arrived lost : List UdpPayload) (printed : List Stats)
    : Type 0 where
  pub server : Stats
  pub sent_udp : (handle_udp bs).0 ≡ bs ++ ([] ∷ [])
  pub sent_quic : (handle_quic bs).0 ≡ payloads 0 bs ++ (end_of 0 bs ∷ [])
  pub udp :
      receive_all_udp
        (record { stats = no_stats; printed = printed })
        (contents arrived ++ ([] ∷ []))
      ≡ record { stats = no_stats; printed = server ∷ printed }
  pub quic :
      handle_quic_connection no_stats (map payload_to_bytes (arrived ++ (end_of 0 bs ∷ [])))
      ≡ some server
  pub udp_client : IsBalanced (contents lost) (handle_udp bs).1 server
  pub quic_client : IsBalanced (contents lost) (handle_quic bs).1 server

module _ (bs : List Bytes) (arrived lost : List UdpPayload) (full : All (λ b. 0 < length b) bs)
    (few : length bs < 2 ^ 64) (small : total bs < 2 ^ 64)
    (parts : Perm (arrived ++ lost) (payloads 0 bs)) where
  -- A weight of the blocks, in both parts.
  weigh : (w : Bytes → ℕ) → sum_of w (contents arrived) + sum_of w (contents lost) ≡ sum_of w bs
  weigh w = omega (
    arith,
    sum_of-contents w arrived,
    sum_of-contents w lost,
    sum_of_parts (λ p. w p.data_) arrived lost parts,
    sum_of-contents w (payloads 0 bs),
    ap (sum_of w) (contents-payloads 0 bs),
  )

  balanced : IsBalanced (contents lost) (counted no_stats bs) (counted no_stats (contents arrived))
  balanced =
      let ones = weigh one in
      let lengths = weigh length in
      let all = length-sum_of bs in
      record {
        packets = omega (
          arith,
          counted-packets no_stats bs (omega arith),
          counted-packets no_stats (contents arrived) (omega arith),
          length-sum_of (contents lost),
          ones,
        );
        bytes = omega (
          arith,
          counted-byte_count no_stats bs (omega arith),
          counted-byte_count no_stats (contents arrived) (omega arith),
          lengths,
        );
      }

  none_empty : sum_of if_empty (contents arrived) ≡ 0
  none_empty = omega (arith, weigh if_empty, nonempty bs full)

  none_long : sum_of if_long arrived ≡ 0
  none_long =
      omega (arith, sum_of_parts if_long arrived lost parts, payloads-fit 0 bs (omega arith))

  -- A client that sends fewer than 2^64 blocks, none of them empty and of less than 2^64 bytes
  -- together, sends them over UDP and over QUIC in order and then the end. Whatever blocks are
  -- lost, and in whatever order the others arrive before the end, both servers count the same, and
  -- their counts and those of the lost blocks make up the client's.
  pub transfers-IsAccounted : (printed : List Stats) → IsAccounted bs arrived lost printed
  unfolding handle_udp handle_quic
  transfers-IsAccounted printed = record {
    server = counted no_stats (contents arrived);
    sent_udp = ap (λ x. x.0) (send_udp-counted no_stats bs);
    sent_quic = ap (λ x. x.0) (send_quic-counted 0 no_stats bs);
    udp = receive_all_udp-counted _ (contents arrived) none_empty;
    quic =
        quic-counted no_stats arrived (end_of 0 bs) (end_of-fits 0 bs (omega arith))
          (end_of-empty 0 bs) none_long none_empty;
    udp_client = rw (send_udp-counted no_stats bs) balanced;
    quic_client = rw (send_quic-counted 0 no_stats bs) balanced;
  }
