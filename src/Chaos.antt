-- ===== src/Chaos.antt =====
-- The package sidecar/internal/fuzz/chaos: the scheduler that applies and reverses disturbances.
pub mod Scheduler
pub mod Recurring
pub mod Schedule
