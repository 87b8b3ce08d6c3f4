-- ===== src/Runners.antt =====
-- The runners of sidecar/internal/fuzz/runners.
pub mod Sequence
pub mod Shrink
