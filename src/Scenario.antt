-- ===== src/Scenario.antt =====
-- Scenarios: the records of sidecar/internal/api/scenario.go and errors.go, and below them the package
-- sidecar/internal/scenario. A Go int is an integer, `none` is a nil pointer, slice or map, and the
-- type `F` stands for float64, which the package only passes on.
pub mod Words
pub mod Report
pub mod Amendments
pub mod NodeConfig
pub mod Validate
pub mod Compile
pub mod Tests
use xrpl_confluence.Prelude.{ℕ, String, Option, none, some, List, [], ◌∷◌, Bool, ◌<◌, ◌≤◌, ◌^◌}
use xrpl_confluence.Prelude.Dict.{Dict}
use xrpl_confluence.Prelude.Int.{ℤ, pos, negsuc}

pub record Error : Type 0 where
  pub code : String
  pub message : String
  pub field : String
  pub hint : String

pub record Metadata : Type 0 where
  pub name : String
  pub description : String

abbrev pub Config : Type 0
Config = Dict String (Option (List String))

pub record NodeOverride : Type 0 where
  pub image : Option String
  pub entrypoint : Option (List String)
  pub config : Option Config

pub record NodeGroup : Type 0 where
  pub count : ℤ
  pub image : String
  pub entrypoint : Option (List String)
  pub config : Option Config
  pub nodes : Option (List NodeOverride)

pub record Topology : Type 0 where
  pub rippled : NodeGroup
  pub goxrpl : NodeGroup

pub record Amendment : Type 0 where
  pub id : String
  pub name : String

pub record NetworkConfig : Type 0 where
  pub network_id : Option ℤ
  pub amendments : Option (List Amendment)
  pub veto_amendments : Option (List Amendment)

pub record ServicesConfig : Type 0 where
  pub dashboard : Option Bool
  pub control : Option Bool
  pub sidecar_image : String

pub record Workload (F : Type 0) : Type 0 where
  pub kind : String
  pub tx_rate : ℤ
  pub accounts : ℤ
  pub rotate_every : ℤ
  pub mutation_rate : F
  pub submit_workers : ℤ
  pub reproducer : Option String

-- The fields that every event has; a template of `recurring` is an event again.
pub record EventFields : Type 0 where
  pub step : ℤ
  pub recover_after : ℤ
  pub kind : String
  pub container : String
  pub from : String
  pub to : String
  pub iface : String
  pub delay_ms : ℤ
  pub delay_ms_min : ℤ
  pub delay_ms_max : ℤ
  pub feature : String
  pub target : String

pub data ChaosEvent : Type 0 where
  event : EventFields → ChaosEvent
  recurring_nothing : EventFields → (every until_step jitter : ℤ) → ChaosEvent
  recurring : EventFields → (every until_step jitter : ℤ) → ChaosEvent → ChaosEvent

pub record Observability : Type 0 where
  pub enabled : Bool
  pub alert_webhook_url : String

pub record Budget : Type 0 where
  pub duration : String
  pub stop_on : List String

pub record Scenario (F : Type 0) : Type 0 where
  pub api_version : String
  pub kind : String
  pub metadata : Metadata
  pub topology : Topology
  pub network : Option NetworkConfig
  pub workload : Workload F
  pub schedule : List ChaosEvent
  pub observability : Observability
  pub services : Option ServicesConfig
  pub budget : Budget
  pub oracles : List String

pub default_network_id : ℤ
default_network_id = pos 10000

-- EffectiveNetworkID of a scenario that is not nil.
network_id_of : Option ℤ → ℤ
network_id_of none = default_network_id
network_id_of (some n) = n

unfoldable pub effective_network_id : Option NetworkConfig → ℤ
unfolding network_id_of default_network_id
effective_network_id none = default_network_id
effective_network_id (some c) = network_id_of c.network_id
