-- ===== src/Scenario/Compile.antt =====
-- scenario.Compile of sidecar/internal/scenario/compile.go. The map that it hands to json.Marshal is an
-- association list; copies of slices and maps are the slices and maps. json.Marshal, which the bytes of
-- the answer come from, is an argument.
pub mod Suites
pub mod Tests
use Prim.Native.String.{◌++◌ as str_append}
use xrpl_confluence.Prelude.{
  ℕ, zero, suc, String, ◌≡◌, Bool, true, false, not, Option, none, some, List, [], ◌∷◌, ◌++◌,
  if◌then◌else◌, length, ◌==◌, string_eq, nat_eq, map,
}
use xrpl_confluence.Prelude.Show.{decimal, join}
use xrpl_confluence.Prelude.Int.{ℤ}
use xrpl_confluence.Prelude.Dict.{Dict, lookup, insert}
use xrpl_confluence.Scenario.{
  Error, Config, Amendment, NodeOverride, NodeGroup, NetworkConfig, ServicesConfig, Workload,
  ChaosEvent, Scenario, effective_network_id,
}
use xrpl_confluence.Scenario.Words.{Go, is_empty}
use xrpl_confluence.Scenario.Validate.{validate}

-- What a map of node settings holds: an absent key is `none`.
pub record NodeValue : Type 0 where
  pub name : String
  pub image : Option String
  pub entrypoint : Option (List String)
  pub config : Option Config

pub record NetworkValue : Type 0 where
  pub network_id : ℤ
  pub amendments : Option (List Amendment)
  pub veto_amendments : Option (List Amendment)

pub data Scalar (F : Type 0) : Type 0 where
  number : ℤ → Scalar F
  text : String → Scalar F
  flag : Bool → Scalar F
  float : F → Scalar F

pub data Value (F : Type 0) : Type 0 where
  scalar : Scalar F → Value F
  texts : List String → Value F
  config : Config → Value F
  nodes : List NodeValue → Value F
  network : NetworkValue → Value F
  object : Dict String (Scalar F) → Value F

pub data Result : Type 0 where
  bytes : String → Result
  failed : String → Result

pub record Json (F : Type 0) : Type 0 where
  pub marshal : Dict String (Value F) → Result
  pub marshal_schedule : List ChaosEvent → Result

-- out[key] = v, where there is a v.
put {κ} : {V : Type κ} → String → Option V → Dict String V → Dict String V
put key none d = d
put key (some v) d = insert key v d

-- The text, unless it is empty.
present : String → Option String
present s = if is_empty s then none else some s

present_option : Option String → Option String
present_option none = none
present_option (some s) = present s

map_option {ℓ κ} : {A : Type ℓ} {B : Type κ} → (A → B) → Option A → Option B
map_option f none = none
map_option f (some a) = some (f a)

node_values : ℕ → List NodeOverride → List NodeValue
node_values i [] = []
node_values i (n ∷ ns) =
    record {
      name = str_append "rippled-" (decimal i);
      image = present_option n.image;
      entrypoint = n.entrypoint;
      config = n.config;
    }
    ∷ node_values (suc i) ns

-- rippled_nodes, which a list without entries leaves out.
node_list : Option (List NodeOverride) → Option (List NodeValue)
node_list none = none
node_list (some []) = none
node_list (some (n ∷ ns)) = some (node_values 0 (n ∷ ns))

network_value : NetworkConfig → NetworkValue
network_value c = record {
  network_id = effective_network_id (some c);
  amendments = c.amendments;
  veto_amendments = c.veto_amendments;
}

workload_to_test_suite : String → Bool → String
workload_to_test_suite kind has_schedule =
    if kind == "soak"
    then "soak"
    else if kind == "fuzz"
    then (if has_schedule then "chaos" else "fuzz")
    else if kind == "none"
    then "none"
    else kind

service : {A : Type 0} → (ServicesConfig → Option A) → Option ServicesConfig → Option A
service get none = none
service get (some s) = get s

module _ {F : Type 0} where
  pub work_args : Scenario F → Dict String (Scalar F)
  work_args s =
      ("tx_rate", number s.workload.tx_rate)
      ∷ ("accounts", number s.workload.accounts)
      ∷ ("rotate_every", number s.workload.rotate_every)
      ∷ ("mutation_rate", float s.workload.mutation_rate)
      ∷ ("submit_workers", number s.workload.submit_workers)
      ∷ ("enable_observability", flag s.observability.enabled)
      ∷ ("alert_webhook_url", text s.observability.alert_webhook_url)
      ∷ ("oracles", text (join "," s.oracles))
      ∷ []

  -- `out` before the switch on the workload's kind.
  base_args : Scenario F → Dict String (Value F)
  base_args s =
      let rippled = s.topology.rippled in
      let suite = workload_to_test_suite s.workload.kind (not (length s.schedule == 0)) in
      put "sidecar_image"
        (map_option (λ t. scalar (text t)) (service (λ c. present c.sidecar_image) s.services))
        (put "enable_control"
          (map_option (λ b. scalar (flag b)) (service (λ c. c.control) s.services))
          (put "enable_dashboard"
            (map_option (λ b. scalar (flag b)) (service (λ c. c.dashboard) s.services))
            (put "network_config" (map_option (λ c. network (network_value c)) s.network) (
              put "rippled_nodes" (map_option (λ ns. nodes ns) (node_list rippled.nodes)) (
                put "rippled_config" (map_option (λ c. config c) rippled.config) (
                  put "rippled_entrypoint" (map_option (λ e. texts e) rippled.entrypoint) (
                    put "goxrpl_image"
                      (map_option (λ t. scalar (text t)) (present s.topology.goxrpl.image))
                      (put "rippled_image"
                        (map_option (λ t. scalar (text t)) (present rippled.image))
                        (("test_suite", scalar (text suite))
                          ∷ ("goxrpl_count", scalar (number s.topology.goxrpl.count))
                          ∷ ("rippled_count", scalar (number rippled.count))
                          ∷ [])))))))))

  finish_chaos : Json F → Scenario F → Result → Result
  finish_chaos json s (failed err) = failed (str_append "scenario: marshal chaos schedule: " err)
  finish_chaos json s (bytes schedule) =
      json.marshal
        (insert "chaos_args" (object (("schedule", text schedule) ∷ work_args s)) (base_args s))

  -- The test for a replay, the switch on the workload's kind, and the last json.Marshal.
  compile_kind : Json F → Scenario F → String → Result
  compile_kind json s kind =
      if kind == "replay"
      then failed "scenario: replay workloads are not compiled directly; use confluence replay"
      else if kind == "soak"
      then json.marshal (insert "soak_args" (object (work_args s)) (base_args s))
      else if kind == "fuzz"
      then finish_chaos json s (json.marshal_schedule s.schedule)
      else json.marshal (base_args s)

  compile_checked : Json F → Scenario F → List Error → Result
  compile_checked json s (e ∷ es) = failed (
      str_append "scenario invalid: " (
        str_append (decimal (length (e ∷ es))) (
          str_append " error(s); first: "
            (str_append e.message (str_append " (" (str_append e.field ")"))))))
  compile_checked json s [] = compile_kind json s s.workload.kind

  pub compile : Go → Json F → Scenario F → Result
  compile go json s = compile_checked json s (validate go s)
