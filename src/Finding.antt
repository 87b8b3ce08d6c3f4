-- ===== src/Finding.antt =====
-- Findings: the records of sidecar/internal/api/finding.go, and below them the package
-- sidecar/internal/finding: the store, the oracles that fill it, and the corpus bridge.
pub mod Store
pub mod Stall
pub mod LedgerDiff
pub mod Divergence
pub mod Mapper
pub mod DiskWatcher
use xrpl_confluence.Prelude.{ℕ, String, Option, none, List, []}

-- A time.Time is its distance from the zero time in nanoseconds.
abbrev pub Time : Type 0
Time = ℕ

pub record LogExcerpt : Type 0 where
  pub node : String
  pub since : String
  pub lines : List String

pub record Evidence : Type 0 where
  pub log_excerpts : List LogExcerpt
  pub ledger_range : ℕ × ℕ
  pub diff_keys : List String

pub record Reproducer : Type 0 where
  pub id : String
  pub scenario_path : String
  pub kind : String

pub record Finding : Type 0 where
  pub id : String
  pub run_id : String
  pub enclave_id : String
  pub scenario : String
  pub kind : String
  pub severity : String
  pub opened_at : Time
  pub closed_at : Option Time
  pub summary : String
  pub detail : Option String
  pub evidence : Option Evidence
  pub reproducer : Option Reproducer
  pub suspected_components : List String

abbrev pub kind_state_divergence : String
kind_state_divergence = "state_divergence"

abbrev pub kind_consensus_stall : String
kind_consensus_stall = "consensus_stall"

abbrev pub kind_peer_drop : String
kind_peer_drop = "peer_drop"

abbrev pub kind_node_crash : String
kind_node_crash = "node_crash"

abbrev pub kind_fuzz_failure : String
kind_fuzz_failure = "fuzz_failure"

abbrev pub kind_chaos_violation : String
kind_chaos_violation = "chaos_violation"

abbrev pub severity_error : String
severity_error = "error"

-- api.Finding{}, the zero value.
abbrev pub zero_finding : Finding
zero_finding = record {
  id = "";
  run_id = "";
  enclave_id = "";
  scenario = "";
  kind = "";
  severity = "";
  opened_at = 0;
  closed_at = none;
  summary = "";
  detail = none;
  evidence = none;
  reproducer = none;
  suspected_components = [];
}
