-- ===== src/Transfer/StopAndWait.antt =====
-- The stop-and-wait exchange over UDP: tema1/client/src/transport/udp_stop_and_wait.rs and
-- tema1/server/src/transport/udp_stop_and_wait.rs. The network is a parameter: it loses a
-- datagram, loses or delays its acknowledgement, or delivers both.
pub mod Delivery
pub mod Outcomes
pub mod Answered
pub mod Late
pub mod Clean
use laborator_pcd.Base.{
  ℕ, zero, suc, ◌+◌, ◌-◌, ◌%◌, ◌^◌, Bool, if◌then◌else◌, ◌==◌, Option, none, some, List, [], ◌∷◌,
  ◌++◌, length,
}
use laborator_pcd.Transfer.Wire.{
  Bytes, UdpPayload, UdpAck, payload_to_bytes, payload_from_bytes, ack_to_bytes, ack_from_bytes,
}
use laborator_pcd.Transfer.Tcp.{Stats, no_stats, add_u64, add_block}

unfoldable pub zeros : ℕ → Bytes
zeros zero = []
zeros (suc n) = 0 ∷ zeros n

-- MAX_BLOCK_SIZE
abbrev pub max_block_size : ℕ
max_block_size = 65535

-- The server: its counts, the counts that it has printed, and the sequence numbers that it has
-- received, the last one first. The program keeps no such list.
pub record Server : Type 0 where
  pub stats : Stats
  pub printed : List Stats
  pub received : List ℕ

-- `n - 8` wraps around for a datagram that is shorter than a sequence number.
abbrev pub acknowledge : Server → ℕ → Option UdpPayload → Server × List Bytes
acknowledge s n none = (s, [])
acknowledge s n (some p) = (
  record {
    stats = record {
      packets = add_u64 s.stats.packets 1;
      byte_count = add_u64 s.stats.byte_count (n + 2 ^ 64 - 8);
    };
    printed = s.printed;
    received = p.seq ∷ s.received;
  },
  ack_to_bytes (record { ack_seq = p.seq }) ∷ [],
)

-- The loop's body for a datagram, and the acknowledgement that is sent. The payload is taken from
-- the whole buffer, which ends in zeros.
unfoldable pub handle_datagram : Server → Bytes → Server × List Bytes
handle_datagram s datagram =
    if length datagram == 0
    then (record s { stats = no_stats; printed = s.stats ∷ s.printed }, [])
    else acknowledge s (length datagram)
        (payload_from_bytes (datagram ++ zeros (max_block_size - length datagram)))

-- What becomes of a datagram and its acknowledgement; a late one comes after the time is out.
pub data Fate : Type 0 where
  lost : Fate
  ack_lost : Fate
  late : Fate
  answered : Fate

-- The server, and the datagrams that wait at the client's socket.
pub record World : Type 0 where
  pub server : Server
  pub inbox : List Bytes

-- `send_to`: the world when the client starts to wait, and what comes too late for it.
abbrev pub deliver : Fate → World → Server × List Bytes → World × List Bytes
deliver lost w _ = (w, [])
deliver ack_lost w (server, acks) = (record w { server = server }, [])
deliver late w (server, acks) = (record w { server = server }, acks)
deliver answered w (server, acks) = (record { server = server; inbox = w.inbox ++ acks }, [])

abbrev pub send_to : Fate → World → Bytes → World × List Bytes
send_to f w datagram = deliver f w (handle_datagram w.server datagram)

-- How an exchange ends for the client.
pub data Reply : Type 0 where
  acked : Reply
  invalid_length : Reply
  invalid_sequence : Reply
  out_of_time : Reply

abbrev pub check_ack : UdpPayload → Option UdpAck → Reply
check_ack p none = invalid_length
check_ack p (some ack) = if ack.ack_seq == p.seq then acked else invalid_sequence

abbrev pub check_datagram : UdpPayload → Bytes → Reply
check_datagram p d = if length d == 8 then check_ack p (ack_from_bytes d) else invalid_length

-- `recv_from` within the time, then the checks; what comes late joins those that wait.
abbrev pub receive : UdpPayload → List Bytes → World → List Bytes → World × Reply
receive p [] w after = (record w { inbox = after }, out_of_time)
receive p (d ∷ rest) w after = (record w { inbox = rest ++ after }, check_datagram p d)

abbrev pub await_from : UdpPayload → World × List Bytes → World × Reply
await_from p (w, after) = receive p w.inbox w after

unfoldable pub send_once : Fate → World → UdpPayload → World × Reply
unfolding handle_datagram
send_once f w p = await_from p (send_to f w (payload_to_bytes p))

-- The second attempt, if the first one ran out of time. The counts are of both.
abbrev pub retry : Fate → UdpPayload → Stats → World × Reply → World × Stats × Reply
retry f p stats (w, out_of_time) = let (w', r) = send_once f w p in (w', add_block stats p.data_, r)
retry f p stats (w, r) = (w, stats, r)

unfoldable pub send_and_wait_for_ack :
    Fate → Fate → World → Stats → UdpPayload → World × Stats × Reply
unfolding send_once
send_and_wait_for_ack first second w stats p =
    retry second p (add_block stats p.data_) (send_once first w p)

-- The fates of the two attempts of a block, by its sequence number.
abbrev pub Network : Type 0
Network = ℕ → Fate × Fate

abbrev pub then_next :
    World × Stats × Reply → (World → Stats → World × Stats × Reply) → World × Stats × Reply
then_next (w, stats, acked) more = more w stats
then_next (w, stats, r) more = (w, stats, r)

-- The loop over the blocks, and the empty datagram that ends the transfer, which arrives.
unfoldable pub send_blocks_udp : Network → ℕ → List Bytes → World → Stats → World × Stats × Reply
unfolding send_and_wait_for_ack
send_blocks_udp net seq [] w stats =
    (record w { server = (handle_datagram w.server []).0 }, stats, acked)
send_blocks_udp net seq (b ∷ bs) w stats =
    then_next
      (send_and_wait_for_ack (net seq).0 (net seq).1 w stats (record { seq = seq; data_ = b }))
      (λ w' stats'. send_blocks_udp net (add_u64 seq 1) bs w' stats')
