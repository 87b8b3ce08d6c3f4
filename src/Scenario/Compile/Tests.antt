-- ===== src/Scenario/Compile/Tests.antt =====
-- The theorem on scenario.Compile at a concrete scenario.
use xrpl_confluence.Prelude.{ℕ, String, ◌≡◌, refl, string_eq}
use xrpl_confluence.Prelude.Dict.{Dict}
use xrpl_confluence.Scenario.Compile.{Value, Json, bytes, compile}
use xrpl_confluence.Scenario.Compile.Suites.{Launches, compile-Launches}
use xrpl_confluence.Scenario.Validate.Tests.{go, scenario, scenario_valid}

abbrev json : Json ℕ
json = record { marshal = λ out. bytes "{}"; marshal_schedule = λ events. bytes "[]" }

compile-Launches_example :
    (out : Dict String (Value ℕ)) × (compile go json scenario ≡ json.marshal out)
    × Launches scenario "[]" out
compile-Launches_example = compile-Launches go json scenario "[]" scenario_valid (λ e. cc) refl
