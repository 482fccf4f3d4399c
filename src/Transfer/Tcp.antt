-- ===== src/Transfer/Tcp.antt =====
-- A transfer over TCP: `handle_tcp` of tema1/client/src/transport/tcp.rs, which writes a stream of
-- blocks, and `handle_connection` of tema1/server/src/transport/tcp.rs, which reads it. A count is
-- a 64-bit integer that wraps around, as in a release build.
use mathlib.Core.List.{flatten, append_assoc, append-nil}
use laborator_pcd.Base.{
  ℕ, zero, suc, ◌+◌, ◌%◌, ◌^◌, ◌≤◌, ◌<◌, ◌≡◌, sym, ap, ◌∙◌, ltb, ◌==◌, false, if◌then◌else◌, Option,
  none, some, List, [], ◌∷◌, ◌++◌, arith, length, length-append, All, take, drop, take_append,
  drop_append,
}
use laborator_pcd.Transfer.Wire.{
  Bytes, header_to_bytes, header_from_bytes, header_from-to_bytes, length-to_le_bytes,
}
use laborator_pcd.Transfer.Blocks.{IsBlock, blocks, blocks-file}

abbrev pub add_u64 : ℕ → ℕ → ℕ
add_u64 a b = (a + b) % 2 ^ 64

-- `packets_sent` and `bytes_sent`, or `packets_received` and `bytes_received`.
pub record Stats : Type 0 where
  pub packets : ℕ
  pub byte_count : ℕ

abbrev pub no_stats : Stats
no_stats = record { packets = 0; byte_count = 0 }

abbrev pub add_block : Stats → Bytes → Stats
add_block s b = record {
  packets = add_u64 s.packets 1;
  byte_count = add_u64 s.byte_count (length b);
}

abbrev pub header : ℕ → Bytes
header n = header_to_bytes (record { len = n })

-- The loop of the client: what it writes to the stream, and its counts.
unfoldable pub send_blocks : Stats → List Bytes → Bytes × Stats
send_blocks s [] = ([], s)
send_blocks s (b ∷ bs) =
    let (written, total) = send_blocks (add_block s b) bs in
    (header (length b) ++ (b ++ written), total)

-- The stream of a connection that is not interrupted.
unfoldable pub handle_tcp : List Bytes → Bytes × Stats
unfolding send_blocks
handle_tcp bs = let (written, total) = send_blocks no_stats bs in (written ++ header 0, total)

-- `read_exact`; `none` is an UnexpectedEof.
unfoldable pub read_exact : ℕ → Bytes → Option (Bytes × Bytes)
read_exact n stream = if ltb (length stream) n then none else some (take n stream, drop n stream)

-- What becomes of a connection.
pub data Outcome : Type 0 where
  closed : Stats → Outcome
  unexpected_eof : Outcome
  out_of_fuel : Outcome

-- After the bytes of a block.
abbrev pub count_and : Stats → Option (Bytes × Bytes) → (Stats → Bytes → Outcome) → Outcome
count_and s none more = unexpected_eof
count_and s (some (b, rest)) more = more (add_block s b) rest

-- After the bytes of a header.
abbrev pub after_header : Stats → Option (Bytes × Bytes) → (Stats → Bytes → Outcome) → Outcome
after_header s none more = unexpected_eof
after_header s (some (bytes, rest)) more =
    let n = (header_from_bytes bytes).len in
    if n == 0 then closed s else count_and s (read_exact n rest) more

-- The loop of the server.
unfoldable pub handle_connection : ℕ → Stats → Bytes → Outcome
unfolding read_exact
handle_connection zero s stream = out_of_fuel
handle_connection (suc fuel) s stream =
    after_header s (read_exact 4 stream) (λ s' rest. handle_connection fuel s' rest)

pub read_exact-append : (bs rest : Bytes) → read_exact (length bs) (bs ++ rest) ≡ some (bs, rest)
unfolding read_exact
read_exact-append bs rest = rw (fits, take_append bs rest, drop_append bs rest)
  where
    fits : ltb (length (bs ++ rest)) (length bs) ≡ false
    fits = ground (arith, length-append bs rest)

pub length-header : (n : ℕ) → length (header n) ≡ 4
unfolding header_to_bytes
length-header n = length-to_le_bytes 4 (n % 2 ^ 32)

read_header : (n : ℕ) (rest : Bytes) → read_exact 4 (header n ++ rest) ≡ some (header n, rest)
read_header n rest =
    ap (λ k. read_exact k (header n ++ rest)) (sym (length-header n))
    ∙ read_exact-append (header n) rest

read_len : (n : ℕ) → n < 2 ^ 32 → (header_from_bytes (header n)).len ≡ n
read_len n fits = ap (λ h. h.len) (header_from-to_bytes (record { len = n }) fits)

pub after_header_len :
    (s : Stats) (n : ℕ) (rest : Bytes) (more : Stats → Bytes → Outcome)
    → n < 2 ^ 32
    → after_header s (some (header n, rest)) more
      ≡ (if n == 0 then closed s else count_and s (read_exact n rest) more)
after_header_len s n rest more fits =
    ap (λ k. if k == 0 then closed s else count_and s (read_exact k rest) more) (read_len n fits)

-- The server follows the client from any counts on.
handle_connection-send_blocks :
    (size : ℕ) (bs : List Bytes) (fuel : ℕ) (s : Stats)
    → size < 2 ^ 32
    → All (IsBlock size) bs
    → length bs < fuel
    → handle_connection fuel s ((send_blocks s bs).0 ++ header 0) ≡ closed (send_blocks s bs).1
unfolding handle_connection send_blocks header_to_bytes
handle_connection-send_blocks size bs zero s small all enough = absurd (omega arith)
handle_connection-send_blocks size [] (suc fuel) s small all enough =
    ap (λ r. after_header s r more)
      (ap (read_exact 4) (sym (append-nil (header 0))) ∙ read_header 0 [])
    ∙ after_header_len s 0 [] more (omega arith)
  where
    more : Stats → Bytes → Outcome
    more s' rest = handle_connection fuel s' rest
handle_connection-send_blocks size (b ∷ bs) (suc fuel) s small all enough =
    let written = (send_blocks (add_block s b) bs).0 in
    let rest = (b ++ written) ++ header 0 in
    let n = length b in
    let nonzero : (n == 0) ≡ false = ground (arith, all.0) in
    ap (λ r. after_header s r more) (read_header n rest)
    ∙ after_header_len s n rest more (omega (arith, all.0))
    ∙ ap (λ z. if z then closed s else count_and s (read_exact n rest) more) nonzero
    ∙ ap (λ r. count_and s r more)
        (ap (read_exact n) (append_assoc b written (header 0))
          ∙ read_exact-append b (written ++ header 0))
    ∙ handle_connection-send_blocks size bs fuel (add_block s b) small all.1 (omega arith)
  where
    more : Stats → Bytes → Outcome
    more s' rest = handle_connection fuel s' rest

-- The counts do not wrap around where there are few enough bytes.
send_blocks-counts :
    (size : ℕ) (bs : List Bytes) (s : Stats)
    → All (IsBlock size) bs
    → s.byte_count + length (flatten bs) < 2 ^ 64
    → s.packets ≤ s.byte_count
    → ((send_blocks s bs).1.packets ≡ s.packets + length bs)
      × ((send_blocks s bs).1.byte_count ≡ s.byte_count + length (flatten bs))
unfolding send_blocks flatten
send_blocks-counts size [] s all few fewer = omega arith
send_blocks-counts size (b ∷ bs) s all few fewer =
    let joined = length-append b (flatten bs) in
    let (p, c) =
      send_blocks-counts size bs (add_block s b) all.1 (omega (arith, joined))
        (omega (arith, joined, all.0)) in
    omega (arith, joined, p, c, all.0)

-- What a transfer of a file comes to.
pub record IsTransferred (content : Bytes) (bs : List Bytes) : Type 0 where
  pub delivered :
      handle_connection (suc (length bs)) no_stats (handle_tcp bs).0 ≡ closed (handle_tcp bs).1
  pub all_sent : (handle_tcp bs).1.byte_count ≡ length content
  pub all_counted : (handle_tcp bs).1.packets ≡ length bs

-- For a block size that the client accepts and a file of less than 2^64 bytes, the client cuts the
-- file into blocks, and the server, reading the stream that the client has written, ends without an
-- error and with the client's own counts: all bytes of the file, and all its blocks.
pub tcp_transfer :
    (content : Bytes) (size : ℕ)
    → 0 < size
    → size < 65535
    → length content < 2 ^ 64
    → (bs : List Bytes) × (blocks
          (suc (length content))
          (record { content = content; block_size = size; current_pos = 0 })
        ≡ some bs)
      × IsTransferred content bs
unfolding handle_tcp
tcp_transfer content size some_size small few =
    let (bs, cut, joined, all) = blocks-file content size some_size in
    let total = ap length joined in
    let (p, c) = send_blocks-counts size bs no_stats all (omega (arith, total)) (omega arith) in
    (
      bs,
      cut,
      record {
        delivered =
            handle_connection-send_blocks size bs (suc (length bs)) no_stats (omega arith) all
              (omega arith);
        all_sent = omega (arith, c, total);
        all_counted = omega (arith, p);
      },
    )
