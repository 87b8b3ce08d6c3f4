-- ===== src/Oracle.antt =====
-- The package sidecar/internal/oracle: comparisons of nodes with each other and with what they promise.
pub mod Liveness
pub mod Compare
pub mod Metadata
