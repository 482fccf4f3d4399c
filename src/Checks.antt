-- ===== src/Checks.antt =====
-- Runs of the models on concrete data, and the theorems at concrete inputs.
mod Sample
mod Tables
mod Metrics
mod Timelines
mod Figures
mod Quic
mod Charts
mod Service
mod Datagrams
mod Transfers
