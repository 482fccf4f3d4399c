-- ===== src/Transfer/QuicStopAndWait.antt =====
-- The stop-and-wait exchange over QUIC datagrams: tema1/client/src/transport/quic_stop_and_wait.rs
-- and tema1/server/src/transport/quic_stop_and_wait.rs, on a connection that stays up. What becomes
-- of a datagram and its acknowledgement is a parameter, as in StopAndWait. The server takes no
-- datagram after one without data; the client sends none, since its blocks are not empty.
pub mod Reading
pub mod Settled
pub mod Whole
pub mod Late
pub mod Slow
use laborator_pcd.Base.{
  ℕ, zero, suc, ◌+◌, if◌then◌else◌, ◌==◌, Option, none, some, List, [], ◌∷◌, ◌++◌, length,
}
use laborator_pcd.Transfer.Wire.{
  Bytes, UdpPayload, UdpAck, payload_to_bytes, payload_from_bytes, ack_to_bytes, ack_from_bytes,
}
use laborator_pcd.Transfer.Tcp.{Stats, no_stats, add_u64, add_block}
use laborator_pcd.Transfer.StopAndWait.{Server, World, Fate, deliver}

-- A payload without data ends the connection, and its counts are printed.
abbrev pub acknowledge : Server → Option UdpPayload → Server × List Bytes
acknowledge s none = (s, [])
acknowledge s (some p) =
    if length p.data_ == 0
    then (record s { stats = no_stats; printed = s.stats ∷ s.printed }, [])
    else (
      record {
        stats = record {
          packets = add_u64 s.stats.packets 1;
          byte_count = add_u64 s.stats.byte_count (length p.data_);
        };
        printed = s.printed;
        received = p.seq ∷ s.received;
      },
      ack_to_bytes (record { ack_seq = p.seq }) ∷ [],
    )

-- The server's loop, for a datagram.
unfoldable pub handle_datagram : Server → Bytes → Server × List Bytes
handle_datagram s bytes = acknowledge s (payload_from_bytes bytes)

-- The fate of each attempt, by the block's sequence number and the attempt's.
abbrev pub Network : Type 0
Network = ℕ → ℕ → Fate

abbrev pub send_datagram : Fate → World → Bytes → World × List Bytes
send_datagram f w datagram = deliver f w (handle_datagram w.server datagram)

-- `connection.read_datagram()` within the time; what comes late joins those that wait.
abbrev pub read_first : List Bytes → World → List Bytes → World × Option Bytes
read_first [] w after = (record w { inbox = after }, none)
read_first (d ∷ rest) w after = (record w { inbox = rest ++ after }, some d)

abbrev pub read_datagram : World × List Bytes → World × Option Bytes
read_datagram (w, after) = read_first w.inbox w after

-- How an exchange ends: with the acknowledgement, with the error after five attempts, at
-- `unreachable!()`, or with a panic on an acknowledgement that is too short.
pub data Ending : Type 0 where
  delivered : Ending
  no_ack : Ending
  unreachable : Ending
  bad_ack : Ending

abbrev pub Exchange : Type 0
Exchange = World × Stats × Ending

abbrev pub check_ack : UdpPayload → Option UdpAck → World × Stats → Exchange → Exchange
check_ack p none (w, stats) more = (w, stats, bad_ack)
check_ack p (some ack) (w, stats) more =
    if ack.ack_seq == p.seq then (w, stats, delivered) else more

-- The `match` of an attempt; `more` is the rest of the loop.
abbrev pub after_read : UdpPayload → ℕ → Option Bytes → World × Stats → Exchange → Exchange
after_read p attempt none (w, stats) more = if attempt + 1 == 5 then (w, stats, no_ack) else more
after_read p attempt (some d) x more = check_ack p (ack_from_bytes d) x more

-- The loop, for the attempts that are left.
unfoldable pub attempts : Network → ℕ → ℕ → World → Stats → UdpPayload → Exchange
unfolding handle_datagram
attempts net zero attempt w stats p = (w, stats, unreachable)
attempts net (suc left) attempt w stats p =
    let (w', read) = read_datagram (send_datagram (net p.seq attempt) w (payload_to_bytes p)) in
    let stats' = add_block stats p.data_ in
    let more = attempts net left (suc attempt) w' stats' p in
    after_read p attempt read (w', stats') more

unfoldable pub send_and_wait_for_ack : Network → World → Stats → UdpPayload → Exchange
unfolding attempts
send_and_wait_for_ack net w stats p = attempts net 5 0 w stats p

abbrev pub then_next : Exchange → (World → Stats → Exchange) → Exchange
then_next (w, stats, delivered) more = more w stats
then_next (w, stats, ending) more = (w, stats, ending)

-- The loop over the blocks, and the payload without data that ends the transfer, which arrives.
unfoldable pub send_blocks_quic : Network → ℕ → List Bytes → World → Stats → Exchange
unfolding send_and_wait_for_ack
send_blocks_quic net seq [] w stats =
    let last = payload_to_bytes (record { seq = seq; data_ = [] }) in
    (record w { server = (handle_datagram w.server last).0 }, stats, delivered)
send_blocks_quic net seq (b ∷ bs) w stats =
    then_next (send_and_wait_for_ack net w stats (record { seq = seq; data_ = b }))
      (λ w' stats'. send_blocks_quic net (add_u64 seq 1) bs w' stats')
