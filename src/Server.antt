-- ===== src/Server.antt =====
-- The package sidecar/internal/server: the control service.
pub mod Nodes
pub mod State
pub mod Runs
pub mod Events
