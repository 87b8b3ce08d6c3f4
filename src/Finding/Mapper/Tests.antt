-- ===== src/Finding/Mapper/Tests.antt =====
-- The theorem on MapDivergence at an entry of an unknown kind.
use xrpl_confluence.Prelude.{ℕ, ◌≡◌, refl, none, some, [], ◌==◌, string_eq}
use xrpl_confluence.Finding.{
  Finding, zero_finding, kind_fuzz_failure, kind_state_divergence, severity_error,
}
use xrpl_confluence.Finding.Mapper.{Divergence, map_kind, finding_of, mapped, map_divergence}
use xrpl_confluence.Finding.Mapper.Kinds.{is_ledger_kind, map_divergence-kind}

abbrev hiccup : Divergence ℕ
hiccup = record { seed = 1; kind = "harness"; description = "slow"; details = []; recorded_at = 7 }

abbrev failure : Finding
failure = record zero_finding {
  id = "f";
  kind = kind_fuzz_failure;
  severity = severity_error;
  opened_at = 7;
  summary = "slow";
}

failure_mapped : map_divergence (λ details. none) "f" hiccup ≡ some failure
unfolding map_divergence mapped finding_of map_kind
failure_mapped = refl

map_divergence-kind_example :
    (kind_fuzz_failure == kind_state_divergence) ≡ is_ledger_kind "harness"
map_divergence-kind_example =
    map_divergence-kind (λ details. none) "f" hiccup failure failure_mapped
