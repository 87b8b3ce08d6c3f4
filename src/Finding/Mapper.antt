-- ===== src/Finding/Mapper.antt =====
-- MapDivergence and mapKind of sidecar/internal/finding/mapper.go, on the record Divergence of
-- sidecar/internal/fuzz/corpus/divergence.go. The values of Details are of a type `R`; json.Marshal and the new
-- id are arguments, and `none` is an error.
pub mod Kinds
pub mod Tests
use xrpl_confluence.Prelude.{
  ℕ, String, ◌||◌, Option, none, some, List, [], ◌∷◌, if◌then◌else◌, ◌==◌, string_eq,
}
use xrpl_confluence.Prelude.Dict.{Dict}
use xrpl_confluence.Finding.{
  Finding, Time, zero_finding, severity_error, kind_state_divergence, kind_consensus_stall,
  kind_peer_drop, kind_node_crash, kind_fuzz_failure, kind_chaos_violation,
}

pub record Divergence (R : Type 0) : Type 0 where
  pub seed : ℕ
  pub kind : String
  pub description : String
  pub details : Dict String R
  pub recorded_at : Time

pub map_kind : String → String
map_kind k =
    if k == "state_hash" || k == "tx_result" || k == "metadata"
    then kind_state_divergence
    else if k == "consensus_stall"
    then kind_consensus_stall
    else if k == "peer_drop"
    then kind_peer_drop
    else if k == "invariant" || k == "chaos"
    then kind_chaos_violation
    else if k == "crash"
    then kind_node_crash
    else kind_fuzz_failure

module _ {R : Type 0} where
  finding_of : String → Divergence R → Option String → Finding
  finding_of id d detail = record zero_finding {
    id = id;
    kind = map_kind d.kind;
    severity = severity_error;
    opened_at = d.recorded_at;
    summary = d.description;
    detail = detail;
  }

  detailed : String → Divergence R → Option String → Option Finding
  detailed id d none = none
  detailed id d (some b) = some (finding_of id d (some b))

  mapped : (Dict String R → Option String) → String → Divergence R → Dict String R → Option Finding
  mapped marshal id d [] = some (finding_of id d none)
  mapped marshal id d (e ∷ es) = detailed id d (marshal (e ∷ es))

  pub map_divergence : (Dict String R → Option String) → String → Divergence R → Option Finding
  map_divergence marshal id d = mapped marshal id d d.details
