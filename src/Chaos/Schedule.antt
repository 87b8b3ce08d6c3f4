-- ===== src/Chaos/Schedule.antt =====
-- chaos.ParseSchedule of sidecar/internal/fuzz/chaos/schedule_parse.go, behind json.Unmarshal. The generators that the
-- seed and the position of an entry give are arguments, and an event is the call that would make it. The error
-- texts are shortened.
use Prim.Native.String.{◌++◌ as str_append}
use xrpl_confluence.Prelude.{
  ℕ, suc, String, Bool, ◌||◌, Option, none, some, List, [], ◌∷◌, ◌++◌, if◌then◌else◌, ◌==◌,
  string_eq,
}
use xrpl_confluence.Prelude.Int.{ℤ, pos, leb_ℤ}
use xrpl_confluence.Prelude.Show.{decimal}
use xrpl_confluence.Chaos.Recurring.{
  RawEntry, Recurring, Rng, Result, failed, returned, then_with, Looped, out_of_fuel, ended,
  expand_recurring, resolve_wildcards,
}

-- An entry of the JSON text, with its recurring block.
pub record Row : Type 0 where
  pub entry : RawEntry
  pub recurring : Option Recurring

-- The constructors of the events: NewRestartEvent and its kin.
pub data Disturbance : Type 0 where
  restart : String → Disturbance
  latency : String → String → ℤ → Disturbance
  partition : String → String → Disturbance
  amendment_flip : String → String → Disturbance

pub record Entry : Type 0 where
  pub trigger_step : ℤ
  pub apply : Disturbance
  pub recover_after : ℤ

at_entry : ℕ → String → String
at_entry i err = str_append "entry " (str_append (decimal i) (str_append ": " err))

in_entry : {A : Type 0} → ℕ → Result A → Result A
in_entry i (failed err) = failed (at_entry i err)
in_entry i (returned a) = returned a

missing : {A : Type 0} → Bool → String → A → Result A
missing absent err a = if absent then failed err else returned a

-- The switch on the type.
event_of : RawEntry → Result Disturbance
unfolding missing
event_of e =
    if e.type == "restart"
    then missing (e.container == "") "container is required" (restart e.container)
    else if e.type == "latency"
    then missing (e.container == "" || e.iface == "" || leb_ℤ e.delay_ms (pos 0))
        "container/iface/delay_ms required" (latency e.container e.iface e.delay_ms)
    else if e.type == "partition"
    then missing (e.from == "" || e.to == "") "from/to required" (partition e.from e.to)
    else if e.type == "amendment"
    then missing (e.feature == "" || e.target == "") "feature/target required"
        (amendment_flip e.target e.feature)
    else failed "unknown event type"

entry_of : RawEntry → Disturbance → Entry
entry_of e d = record { trigger_step = e.step; apply = d; recover_after = e.recover_after }

-- What a loop on fuel returns, where it has ended.
ended_with : Looped → Option (Result (List RawEntry))
ended_with out_of_fuel = none
ended_with (ended r) = some r

module _ {G : Type 0} (rng : Rng G) (nodes : List String) where
  -- The expansion of one row; `none` is out of fuel.
  expand_row : ℕ → ℕ → G → Row → Option (Result (List RawEntry))
  unfolding ended_with
  expand_row fuel i g r = elim r.recurring [
    | none ↦
        if r.entry.type == "recurring"
        then some (failed (at_entry i "recurring{} block required"))
        else some (returned (r.entry ∷ []))
    | some spec ↦ elim (ended_with (expand_recurring rng fuel nodes spec g)) [
      | none ↦ none
      | some more ↦ some (in_entry i more)
    ]
  ]

  append_rows :
      Result (List RawEntry) → Option (Result (List RawEntry)) → Option (Result (List RawEntry))
  append_rows r none = none
  append_rows r (some rest) =
      some (then_with r (λ es. then_with rest (λ more. returned (es ++ more))))

  expand_rows : ℕ → ℕ → (ℕ → G) → List Row → Option (Result (List RawEntry))
  unfolding expand_row append_rows
  expand_rows fuel i child [] = some (returned [])
  expand_rows fuel i child (r ∷ rs) =
      let rest = expand_rows fuel (suc i) child rs in
      elim (expand_row fuel i (child i) r) [
        | none ↦ none
        | some (failed err) ↦ some (failed err)
        | some (returned es) ↦ append_rows (returned es) rest
      ]

  build : ℕ → (ℕ → G) → List RawEntry → Result (List Entry)
  unfolding in_entry event_of entry_of
  build i child [] = returned []
  build i child (e ∷ es) =
      let rest = build (suc i) child es in
      then_with (in_entry i (resolve_wildcards rng nodes e (child i))) (λ r.
        then_with (in_entry i (event_of r.0))
          (λ d. then_with rest (λ more. returned (entry_of r.0 d ∷ more))))

  -- The rows of a text that is not empty; `none` is out of fuel.
  pub parse_schedule : ℕ → (ℕ → G) → (ℕ → G) → List Row → Option (Result (List Entry))
  unfolding expand_rows build
  parse_schedule fuel child child' rows = elim (expand_rows fuel 0 child rows) [
    | none ↦ none
    | some r ↦ some (then_with r (build 0 child'))
  ]
