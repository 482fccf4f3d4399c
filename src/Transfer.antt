-- ===== src/Transfer.antt =====
-- The file transfer of tema1: what its client and server put on the wire and read from it, and the
-- script that runs the client through its experiments.
pub mod Wire
pub mod Blocks
pub mod Tcp
pub mod Truncated
pub mod StopAndWait
pub mod QuicStopAndWait
pub mod Schedule
pub mod Data
pub mod Charts
pub mod Datagrams
