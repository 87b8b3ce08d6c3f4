-- ===== src/Scenario/Tests.antt =====
-- The theorems on amendments and node configuration at concrete inputs.
use xrpl_confluence.Prelude.{◌≡◌, ◌↔◌, none, some, [], ◌∷◌, All, string_eq}
use xrpl_confluence.Scenario.{Amendment, Config}
use xrpl_confluence.Scenario.Words.{to_upper}
use xrpl_confluence.Scenario.Amendments.{
  IsWellFormed, IsDistinct, Absent, validate_amendments, validate_amendment_overlap,
  validate_amendments-accepts, validate_amendment_overlap-accepts,
}
use xrpl_confluence.Scenario.NodeConfig.{validate_config}
use xrpl_confluence.Scenario.NodeConfig.Sections.{IsSafeSection, validate_config-accepts}
use xrpl_confluence.Scenario.Validate.Tests.{go}

abbrev ab : Amendment
ab = record { id = "ab"; name = "One" }

abbrev ab_upper : Amendment
ab_upper = record { id = "AB"; name = "Two" }

validate_amendments-accepts_example :
    (validate_amendments go "network.amendments" (some (ab ∷ ab_upper ∷ [])) ≡ [])
    ↔ (All IsWellFormed (ab ∷ ab_upper ∷ []) × IsDistinct go (ab ∷ ab_upper ∷ []))
validate_amendments-accepts_example =
    validate_amendments-accepts go "network.amendments" (ab ∷ ab_upper ∷ [])

validate_amendment_overlap-accepts_example :
    (validate_amendment_overlap go (some (ab ∷ [])) (some (ab_upper ∷ [])) ≡ [])
    ↔ All (λ v. Absent go (to_upper go v.id) (ab ∷ [])) (ab_upper ∷ [])
validate_amendment_overlap-accepts_example =
    validate_amendment_overlap-accepts go (ab ∷ []) (ab_upper ∷ [])

abbrev sections : Config
sections = ("voting", some ("x=1" ∷ [])) ∷ ("server", none) ∷ []

validate_config-accepts_example :
    (validate_config go "topology.rippled.config" (some sections) ≡ [])
    ↔ All (IsSafeSection go) sections
validate_config-accepts_example = validate_config-accepts go "topology.rippled.config" sections
