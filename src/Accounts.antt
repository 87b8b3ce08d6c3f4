-- ===== src/Accounts.antt =====
-- The package sidecar/internal/fuzz/accounts: the wallets that the fuzzer submits from.
pub mod Tiers
