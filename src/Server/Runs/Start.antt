-- ===== src/Server/Runs/Start.antt =====
-- POST /v1/runs and GET /v1/runs of sidecar/internal/server/runs.go. The decoded body, the new id and the clock
-- are arguments; the budget of a scenario that Validate accepts is not negative.
use text.Mathlib.Text.{starts_with}
use xrpl_confluence.Prelude.{
  ℕ, ◌+◌, String, Option, none, some, List, [], ◌∷◌, map, if◌then◌else◌, string_eq,
}
use xrpl_confluence.Prelude.Dict.{Dict, insert}
use xrpl_confluence.Prelude.Int.{pos_part}
use xrpl_confluence.Finding.{Time}
use xrpl_confluence.Scenario.{Error, Scenario}
use xrpl_confluence.Scenario.Words.{Go, Duration, nanoseconds, not_a_duration}
use xrpl_confluence.Scenario.Validate.{validate}
use xrpl_confluence.Server.Runs.{Run, new_run}

-- The runs of the store, and the id of the one that findings are tagged with.
pub record Runs : Type 0 where
  pub runs : Dict String Run
  pub current : Option String

pub data Response : Type 0 where
  refused : ℕ → Error → Response
  started : Run → Response

refusal : String → String → Error
refusal code message = record { code = code; message = message; field = ""; hint = "" }

end_of_budget : Time → Duration → Time
end_of_budget now (nanoseconds d) = now + pos_part d
end_of_budget now (not_a_duration err) = now

add_run : Run → Runs → Runs
add_run r s = record { runs = insert r.id r s.runs; current = some r.id }

-- The id, and the two clocks of the new record.
pub record Fresh : Type 0 where
  pub id : String
  pub started_at : Time
  pub budget_from : Time

-- The decoded body, or the error of the decoder.
pub data Body (F : Type 0) : Type 0 where
  malformed : String → Body F
  decoded : Scenario F → Body F

module _ {F : Type 0} where
  run_of : Go → Fresh → Scenario F → Run
  run_of go fresh sc =
      new_run fresh.id sc.metadata.name fresh.started_at
        (end_of_budget fresh.budget_from (go.parse_duration sc.budget.duration)) sc.budget.stop_on

  admit : Go → Fresh → Scenario F → List Error → Runs → Runs × Response
  admit go fresh sc (e ∷ es) s = (s, refused 400 (record e { code = "scenario_invalid" }))
  admit go fresh sc [] s = let r = run_of go fresh sc in (add_run r s, started r)

  start_decoded : Go → Fresh → Body F → Runs → Runs × Response
  start_decoded go fresh (malformed err) s = (s, refused 400 (refusal "bad_request" err))
  start_decoded go fresh (decoded sc) s = admit go fresh sc (validate go sc) s

  pub start_run : Go → Fresh → String → Body F → Runs → Runs × Response
  start_run go fresh content_type body s =
      if starts_with "application/json" content_type then start_decoded go fresh body s else (
        s,
        refused 415 (refusal "unsupported_media_type" "Content-Type must be application/json"),
      )

pub list_runs : Runs → List Run
list_runs s = map (λ e. e.1) s.runs

pub current_run_id : Option String → String
current_run_id none = ""
current_run_id (some id) = id
