-- ===== src/Transfer/Datagrams.antt =====
-- Transfers without acknowledgements: handle_udp and handle_quic of the client
-- (tema1/client/src/transport/udp.rs and quic.rs), start_udp_server and the handle_connection of
-- QUIC of the server (tema1/server/src/transport/udp.rs and quic.rs), on the datagrams that they
-- send and receive.
pub mod Counts
pub mod Losses
use laborator_pcd.Base.{ℕ, ◌==◌, if◌then◌else◌, Option, none, some, List, [], ◌∷◌, length}
use laborator_pcd.Transfer.Wire.{Bytes, UdpPayload, payload_from_bytes}
use laborator_pcd.Transfer.Tcp.{Stats, no_stats, add_u64, add_block}

-- The client's loop over UDP, and the empty datagram after it: what is sent, and the counts.
unfoldable pub send_udp : Stats → List Bytes → List Bytes × Stats
send_udp stats [] = ([] ∷ [], stats)
send_udp stats (b ∷ bs) = let (sent, total) = send_udp (add_block stats b) bs in (b ∷ sent, total)

unfoldable pub handle_udp : List Bytes → List Bytes × Stats
unfolding send_udp
handle_udp bs = send_udp no_stats bs

-- The client's loop over QUIC, and the payload without data after it.
unfoldable pub send_quic : ℕ → Stats → List Bytes → List UdpPayload × Stats
send_quic seq stats [] = (record { seq = seq; data_ = [] } ∷ [], stats)
send_quic seq stats (b ∷ bs) =
    let (sent, total) = send_quic (add_u64 seq 1) (add_block stats b) bs in
    (record { seq = seq; data_ = b } ∷ sent, total)

unfoldable pub handle_quic : List Bytes → List UdpPayload × Stats
unfolding send_quic
handle_quic bs = send_quic 0 no_stats bs

-- The UDP server: its counts, and those that it has printed, the last ones first.
pub record UdpServer : Type 0 where
  pub stats : Stats
  pub printed : List Stats

-- The body of its loop, for a datagram.
unfoldable pub receive_udp : UdpServer → Bytes → UdpServer
receive_udp s d =
    if length d == 0
    then record { stats = no_stats; printed = s.stats ∷ s.printed }
    else record s { stats = add_block s.stats d }

unfoldable pub receive_all_udp : UdpServer → List Bytes → UdpServer
unfolding receive_udp
receive_all_udp s [] = s
receive_all_udp s (d ∷ ds) = receive_all_udp (receive_udp s d) ds

-- The QUIC server's loop over the datagrams of a connection, which the client closes after the last
-- one. `none` is a panic on a datagram that is too short.
abbrev pub after_payload : Stats → Option UdpPayload → (Stats → Option Stats) → Option Stats
after_payload stats none more = none
after_payload stats (some p) more =
    if length p.data_ == 0 then some stats else more (add_block stats p.data_)

unfoldable pub handle_quic_connection : Stats → List Bytes → Option Stats
handle_quic_connection stats [] = some stats
handle_quic_connection stats (d ∷ ds) =
    after_payload stats (payload_from_bytes d) (λ stats'. handle_quic_connection stats' ds)
