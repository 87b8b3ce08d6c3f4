-- ===== src/Scenario/Validate.antt =====
-- scenario.Validate of sidecar/internal/scenario/validate.go, one function for each group of rules, in the
-- order of the source. The scenario is not nil: `validate_pointer` answers for a nil one.
pub mod Accepted
pub mod Tests
use Prim.Native.String.{◌++◌ as str_append}
use Prim.Native.Nat.{◌%◌, ◌^◌}
use xrpl_confluence.Prelude.{
  ℕ, zero, suc, ◌+◌, ◌-◌, String, ◌≡◌, Bool, true, false, not, ◌||◌, ◌&&◌, Option, none, some, List,
  [], ◌∷◌, ◌++◌, if◌then◌else◌, any, length, ltb, ◌==◌, ◌/=◌, string_eq, nat_eq,
}
use xrpl_confluence.Prelude.Show.{decimal, decimal_ℤ}
use xrpl_confluence.Prelude.Int.{wrap_int, ℤ, pos, negsuc, ◌+ℤ◌, ltb_ℤ, leb_ℤ, int_eq}
use xrpl_confluence.Scenario.{
  Error, Config, NodeGroup, Topology, NetworkConfig, ServicesConfig, Workload, ChaosEvent, Budget,
  Scenario,
}
use xrpl_confluence.Scenario.Words.{Go, Duration, nanoseconds, not_a_duration, is_kebab, is_empty}
use xrpl_confluence.Scenario.Report.{invalid, entry_field, refuse_if, each_from}
use xrpl_confluence.Scenario.Amendments.{validate_amendments, validate_amendment_overlap}
use xrpl_confluence.Scenario.NodeConfig.{validate_image, validate_node_group, nodes_of}

pub is_member : String → List String → Bool
is_member s xs = any (λ x. x == s) xs

module _ {F : Type 0} where
  pub header_errors : Go → Scenario F → List Error
  header_errors go s =
      refuse_if (s.api_version /= "confluence/v1") (
        invalid "apiVersion"
          (str_append "apiVersion must be \"confluence/v1\", got " (go.quote s.api_version))
          "set apiVersion: confluence/v1")
      ++ refuse_if (s.kind /= "Scenario") (
          invalid "kind" (str_append "kind must be \"Scenario\", got " (go.quote s.kind))
            "set kind: Scenario")

pub name_errors : Go → String → List Error
name_errors go name =
    if is_empty name
    then invalid "metadata.name" "metadata.name is required" ""
    else refuse_if (not (is_kebab name)) (
        invalid "metadata.name"
          (str_append "metadata.name must be kebab-case (got " (str_append (go.quote name) ")"))
          "use lowercase letters, digits, and single hyphens")

pub total_errors : ℤ → List Error
total_errors total =
    if ltb_ℤ total (pos 2)
    then invalid "topology"
        (str_append "topology must declare at least 2 total nodes (got "
          (str_append (decimal_ℤ total) ")"))
        "set topology.rippled.count + topology.goxrpl.count between 2 and 10"
    else if ltb_ℤ (pos 10) total
    then invalid "topology"
        (str_append "topology must declare at most 10 total nodes (got "
          (str_append (decimal_ℤ total) ")"))
        "set topology.rippled.count + topology.goxrpl.count between 2 and 10"
    else []

pub negative_errors : String → ℤ → List Error
negative_errors field count =
    refuse_if (ltb_ℤ count (pos 0)) (invalid field (str_append field " must be >= 0") "")

pub count_errors : ℤ → ℤ → List Error
count_errors rippled goxrpl =
    negative_errors "topology.rippled.count" rippled
    ++ negative_errors "topology.goxrpl.count" goxrpl
    ++ total_errors (wrap_int (rippled +ℤ goxrpl))

pub is_given : {A : Type 0} → Option A → Bool
is_given none = false
is_given (some a) = true

pub goxrpl_errors : NodeGroup → List Error
goxrpl_errors g =
    validate_image "topology.goxrpl.image" g.image (not (is_empty g.image))
    ++ refuse_if (is_given g.entrypoint) (
        invalid "topology.goxrpl.entrypoint" "topology.goxrpl.entrypoint is not supported"
          "set entrypoint under topology.rippled")
    ++ refuse_if (is_given g.config) (
        invalid "topology.goxrpl.config" "topology.goxrpl.config is not supported"
          "set config under topology.rippled")
    ++ refuse_if (is_given g.nodes) (
        invalid "topology.goxrpl.nodes" "topology.goxrpl.nodes is not supported"
          "set nodes under topology.rippled")

pub network_id_errors : Option ℤ → List Error
network_id_errors none = []
network_id_errors (some n) = refuse_if (ltb_ℤ n (pos 0) || ltb_ℤ (pos 4294967295) n) (
    invalid "network.network_id"
      (str_append "network.network_id must be between 0 and 4294967295 (got "
        (str_append (decimal_ℤ n) ")"))
      "use a non-negative 32-bit network ID")

pub network_errors : Go → Option NetworkConfig → List Error
network_errors go none = []
network_errors go (some c) =
    network_id_errors c.network_id
    ++ validate_amendments go "network.amendments" c.amendments
    ++ validate_amendments go "network.veto_amendments" c.veto_amendments
    ++ validate_amendment_overlap go c.amendments c.veto_amendments

-- len(config) > 0
pub has_sections : Option Config → Bool
has_sections none = false
has_sections (some []) = false
has_sections (some (e ∷ es)) = true

pub has_custom_config : NodeGroup → Bool
has_custom_config g = has_sections g.config || any (λ n. has_sections n.config) (nodes_of g)

-- The two rules that keep custom genesis settings to networks of rippled nodes without a workload.
pub custom_errors : Bool → Bool → String → ℤ → List Error
custom_errors network config kind goxrpl =
    let loaded = kind /= "none" || goxrpl /= pos 0 in
    refuse_if (network && loaded) (
      invalid "network"
        "custom network settings require workload.kind=none with topology.goxrpl.count=0"
        "run a rippled-only local network before changing genesis settings")
    ++ refuse_if (config && loaded) (
        invalid "topology.rippled.config"
          "custom rippled config requires workload.kind=none with topology.goxrpl.count=0"
          "run a rippled-only local network before changing genesis settings")

pub is_named : Option String → Bool
is_named none = false
is_named (some id) = not (is_empty id)

-- The switch on the workload's kind.
pub workload_errors : Go → String → List ChaosEvent → Option String → List Error
workload_errors go kind schedule reproducer =
    if kind == "soak" || kind == "none"
    then []
    else if kind == "fuzz"
    then refuse_if (length schedule == 0) (
        invalid "workload.kind" "workload.kind=fuzz requires chaos.schedule entries in M1"
          "either add chaos.schedule entries (becomes a chaos run) or pick a different workload")
    else if kind == "shrink"
    then invalid "workload.kind"
        "workload.kind=shrink is not yet supported by the M1 scenario schema"
        "use confluence shrink directly until M2 adds shrink_args"
    else if kind == "replay"
    then refuse_if (not (is_named reproducer)) (
        invalid "workload.reproducer.id" "workload.kind=replay requires reproducer.id"
          "set workload.reproducer.id or change workload.kind")
    else if kind == ""
    then invalid "workload.kind" "workload.kind is required" "one of: soak, fuzz, replay, none"
    else invalid "workload.kind" (str_append "unknown workload.kind " (go.quote kind))
        "one of: soak, fuzz, replay, none"

pub duration_errors : Duration → List Error
duration_errors (not_a_duration err) =
    invalid "budget.duration" (str_append "budget.duration is not a valid Go duration: " err)
      "use values like \"30s\", \"10m\", \"2h\""
duration_errors (nanoseconds d) = refuse_if (leb_ℤ d (pos 0)) (
    invalid "budget.duration" "budget.duration must be positive"
      "use a duration greater than 0, such as \"10m\"")

pub budget_errors : Go → String → String → List Error
budget_errors go kind duration =
    if is_empty duration
    then refuse_if (kind /= "none")
        (invalid "budget.duration" "budget.duration is required" "e.g. \"10m\"")
    else duration_errors (go.parse_duration duration)

pub stop_on_values : List String
stop_on_values = "first_divergence" ∷ "first_crash" ∷ "none" ∷ []

pub oracle_names : List String
oracle_names = "state_diff" ∷ "consensus_liveness" ∷ "peer_health" ∷ []

pub check_member : Go → List String → String → String → String → ℕ → String → List Error
check_member go allowed field message hint i v =
    refuse_if (not (is_member v allowed))
      (invalid (entry_field field i) (str_append message (go.quote v)) hint)

pub stop_on_errors : Go → List String → List Error
stop_on_errors go values =
    each_from
      (check_member go stop_on_values "budget.stop_on" "unknown stop_on value "
        "one of: first_divergence, first_crash, none")
      0 values

pub oracle_errors : Go → List String → List Error
oracle_errors go names =
    each_from
      (check_member go oracle_names "oracles" "unknown oracle "
        "one of: state_diff, consensus_liveness, peer_health")
      0 names

pub is_off : Option Bool → Bool
is_off none = false
is_off (some b) = not b

pub service_errors : String → Option ServicesConfig → List Error
service_errors kind none = []
service_errors kind (some s) =
    validate_image "services.sidecar_image" s.sidecar_image (not (is_empty s.sidecar_image))
    ++ refuse_if (kind /= "none" && is_off s.control) (
        invalid "services.control" "services.control must be enabled for workload runs"
          "omit services.control or set it to true; only workload.kind=none may disable control")

module _ {F : Type 0} where
  pub validate : Go → Scenario F → List Error
  validate go s =
      let kind = s.workload.kind in
      let rippled = s.topology.rippled in
      let goxrpl = s.topology.goxrpl in
      header_errors go s
      ++ name_errors go s.metadata.name
      ++ count_errors rippled.count goxrpl.count
      ++ validate_node_group go "topology.rippled" rippled
      ++ goxrpl_errors goxrpl
      ++ network_errors go s.network
      ++ custom_errors (is_given s.network) (has_custom_config rippled) kind goxrpl.count
      ++ workload_errors go kind s.schedule s.workload.reproducer
      ++ budget_errors go kind s.budget.duration
      ++ stop_on_errors go s.budget.stop_on
      ++ oracle_errors go s.oracles
      ++ service_errors kind s.services

  pub validate_pointer : Go → Option (Scenario F) → List Error
  validate_pointer go none = invalid "scenario" "scenario is required" "provide a Scenario document"
  validate_pointer go (some s) = validate go s
