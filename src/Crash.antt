-- ===== src/Crash.antt =====
-- The package sidecar/internal/fuzz/crash: container exits, log markers and hung containers.
pub mod Markers
pub mod Poller
pub mod Hang
pub mod Tests
