-- ===== src/Corpus.antt =====
-- The package sidecar/internal/fuzz/corpus: the divergences that a run records.
pub mod Signature
