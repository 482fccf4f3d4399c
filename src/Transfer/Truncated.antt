-- ===== src/Transfer/Truncated.antt =====
-- A TCP transfer of tema1 whose stream ends early.
use mathlib.Core.List.{append_assoc, append-nil}
use laborator_pcd.Base.{
  ℕ, zero, suc, ◌-◌, ◌≤◌, ◌<◌, ◌^◌, ◌≡◌, sym, ap, ◌∙◌, inl, inr, true, false, ltb, ◌==◌,
  if◌then◌else◌, Bool-cases, none, some, List, [], ◌∷◌, ◌++◌, arith, length, length-append, All,
  take, length-take,
}
use laborator_pcd.Transfer.Wire.{Bytes}
use laborator_pcd.Transfer.Blocks.{IsBlock}
use laborator_pcd.Transfer.Tcp.{
  Stats, no_stats, add_block, header, send_blocks, handle_tcp, read_exact, Outcome, unexpected_eof,
  closed, count_and, after_header, handle_connection, read_exact-append, length-header,
  after_header_len,
}

take-append :
    (bs rest : Bytes) (k : ℕ)
    → length bs ≤ k
    → take k (bs ++ rest) ≡ bs ++ take (k - length bs) rest
unfolding take
take-append [] rest k h = ap (λ n. take n rest) (omega arith)
take-append (b ∷ bs) rest zero h = absurd (omega arith)
take-append (b ∷ bs) rest (suc k) h =
    ap (◌∷◌ b) (take-append bs rest k (omega arith))
    ∙ ap (λ n. b ∷ (bs ++ take n rest)) (omega arith)

-- A read from a stream that ends within what is wanted, and from one that ends later.
read_short :
    (bs rest : Bytes) (k : ℕ) → k < length bs → read_exact (length bs) (take k (bs ++ rest)) ≡ none
unfolding read_exact
read_short bs rest k h = rw short
  where
    short : ltb (length (take k (bs ++ rest))) (length bs) ≡ true
    short = ground (arith, length-take k (bs ++ rest) (omega (arith, length-append bs rest)))

read_long :
    (bs rest : Bytes) (k : ℕ)
    → length bs ≤ k
    → read_exact (length bs) (take k (bs ++ rest)) ≡ some (bs, take (k - length bs) rest)
read_long bs rest k h =
    ap (read_exact (length bs)) (take-append bs rest k h)
    ∙ read_exact-append bs (take (k - length bs) rest)

read_header_short :
    (n : ℕ) (rest : Bytes) (k : ℕ) → k < 4 → read_exact 4 (take k (header n ++ rest)) ≡ none
read_header_short n rest k h =
    ap (λ m. read_exact m (take k (header n ++ rest))) (sym (length-header n))
    ∙ read_short (header n) rest k (omega (arith, length-header n))

read_header_long :
    (n : ℕ) (rest : Bytes) (k : ℕ)
    → 4 ≤ k
    → read_exact 4 (take k (header n ++ rest)) ≡ some (header n, take (k - 4) rest)
read_header_long n rest k h =
    ap (λ m. read_exact m (take k (header n ++ rest))) (sym (length-header n))
    ∙ read_long (header n) rest k (omega (arith, length-header n))
    ∙ ap (λ m. some (header n, take (k - m) rest)) (length-header n)

split_stream :
    (b written : Bytes)
    → (header (length b) ++ (b ++ written)) ++ header 0
      ≡ header (length b) ++ (b ++ (written ++ header 0))
split_stream b written =
    append_assoc (header (length b)) (b ++ written) (header 0)
    ∙ ap (λ r. header (length b) ++ r) (append_assoc b written (header 0))

-- What is left of the stream after a block.
left_over :
    (b written : Bytes) (k : ℕ)
    → k < length ((header (length b) ++ (b ++ written)) ++ header 0)
    → 4 ≤ k
    → length b ≤ k - 4
    → k - 4 - length b < length (written ++ header 0)
left_over b written k early four whole =
    let rest = written ++ header 0 in
    omega (
      arith,
      ap length (split_stream b written),
      length-append (header (length b)) (b ++ rest),
      length-header (length b),
      length-append b rest,
    )

handle_connection-take :
    (size : ℕ) (bs : List Bytes) (fuel : ℕ) (s : Stats) (k : ℕ)
    → size < 2 ^ 32
    → All (IsBlock size) bs
    → length bs < fuel
    → k < length ((send_blocks s bs).0 ++ header 0)
    → handle_connection fuel s (take k ((send_blocks s bs).0 ++ header 0)) ≡ unexpected_eof
unfolding handle_connection send_blocks
handle_connection-take size bs zero s k small all enough early = absurd (omega arith)
handle_connection-take size [] (suc fuel) s k small all enough early =
    ap (λ r. after_header s r more)
      (ap (λ h. read_exact 4 (take k h)) (sym (append-nil (header 0)))
        ∙ read_header_short 0 [] k (omega (arith, length-header 0)))
  where
    more : Stats → Bytes → Outcome
    more s' rest = handle_connection fuel s' rest
handle_connection-take size (b ∷ bs) (suc fuel) s k small all enough early =
    let written = (send_blocks (add_block s b) bs).0 in
    let n = length b in
    let rest = b ++ (written ++ header 0) in
    let split = split_stream b written in
    let nonzero : (n == 0) ≡ false = ground (arith, all.0) in
    ap (λ stream. after_header s (read_exact 4 (take k stream)) more) split
    ∙ elim (Bool-cases (ltb k 4)) [
      | inl e ↦ ap (λ r. after_header s r more) (read_header_short n rest k (ground arith))
      | inr e ↦
          ap (λ r. after_header s r more) (read_header_long n rest k (ground arith))
          ∙ after_header_len s n (take (k - 4) rest) more (omega (arith, all.0))
          ∙ ap (λ z. if z then closed s else count_and s (read_exact n (take (k - 4) rest)) more)
              nonzero
          ∙ elim (Bool-cases (ltb (k - 4) n)) [
            | inl l ↦
                ap (λ r. count_and s r more)
                  (read_short b (written ++ header 0) (k - 4) (ground arith))
            | inr l ↦
                ap (λ r. count_and s r more)
                  (read_long b (written ++ header 0) (k - 4) (ground arith))
                ∙ handle_connection-take size bs fuel (add_block s b) (k - 4 - n) small all.1
                    (omega arith) (left_over b written k early (ground arith) (ground arith))
          ]
    ]
  where
    more : Stats → Bytes → Outcome
    more s' rest = handle_connection fuel s' rest

-- The server ends with an unexpected end of file if the stream of a client with blocks of less than
-- 2^32 bytes stops anywhere before its end.
pub handle_connection-truncated :
    (size : ℕ) (bs : List Bytes) (k : ℕ)
    → size < 2 ^ 32
    → All (IsBlock size) bs
    → k < length (handle_tcp bs).0
    → handle_connection (suc (length bs)) no_stats (take k (handle_tcp bs).0) ≡ unexpected_eof
unfolding handle_tcp
handle_connection-truncated size bs k small all early =
    handle_connection-take size bs (suc (length bs)) no_stats k small all (omega arith) early
