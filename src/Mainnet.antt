-- ===== src/Mainnet.antt =====
-- The package sidecar/internal/fuzz/mainnet: transactions of the main network on a private topology.
pub mod Rewriter
