-- ===== src/Crash/Tests.antt =====
-- The theorems on the crash detectors at concrete containers.
use xrpl_confluence.Prelude.{String, ◌≡◌, refl, ◌⊎◌, true, false, ◌&&◌, not, some, List, [], ◌∷◌}
use xrpl_confluence.Prelude.Dict.{lookup}
use xrpl_confluence.Prelude.Int.{pos}
use xrpl_confluence.Crash.Markers.{classify, FirstMarked, Unmarked, classify_lem}
use xrpl_confluence.Crash.Poller.{
  Runtime, Poller, crash_code, Same, events_of, tick, ticks, tick_again, crash_missed,
}
use xrpl_confluence.Crash.Hang.{step, answering, watch, is_hung, step-watch}

abbrev excerpt : List String
excerpt = "starting" ∷ "panic: nil map" ∷ []

classify_lem_example :
    FirstMarked excerpt (classify excerpt).marker_line (classify excerpt).kind
    ⊎ (Unmarked excerpt × ((classify excerpt).kind ≡ ""))
classify_lem_example = classify_lem excerpt

abbrev crashed : Runtime
crashed = record {
  list = some ("goxrpl-0" ∷ []);
  inspect = λ name. some (false, pos 2);
  tail_logs = λ name. excerpt;
}

abbrev restarted : Runtime
restarted = record {
  list = some ("goxrpl-0" ∷ []);
  inspect = λ name. some (true, pos 0);
  tail_logs = λ name. [];
}

abbrev fresh : Poller
fresh = record { seen = [] }

tick_again_example : tick crashed (tick crashed fresh).1 ≡ (some [], (tick crashed fresh).1)
tick_again_example = tick_again crashed fresh ("goxrpl-0" ∷ []) refl

abbrev reported_once : Poller
reported_once = record { seen = ("goxrpl-0", pos 2) ∷ [] }

crashed-Same : Same "goxrpl-0" (pos 2) crashed
unfolding crash_code
crashed-Same c e = cc

restarted-Same : Same "goxrpl-0" (pos 2) restarted
unfolding crash_code
restarted-Same c e = absurd (cc)

-- It crashed, ran again, and crashed again.
crash_missed_example : events_of "goxrpl-0" (ticks (restarted ∷ crashed ∷ []) reported_once).0 ≡ []
unfolding lookup
crash_missed_example =
    crash_missed "goxrpl-0" (pos 2) (restarted ∷ crashed ∷ []) reported_once refl
      (restarted-Same, (crashed-Same, tt))

step-watch_example :
    (step (answering (some (pos 7))) "goxrpl-0" (watch (pos 2) "goxrpl-0" (some (pos 7) ∷ []))).0
    ≡ (is_hung (pos 2) (some (pos 7) ∷ some (pos 7) ∷ [])
        && not (is_hung (pos 2) (some (pos 7) ∷ [])))
step-watch_example = step-watch (pos 2) "goxrpl-0" (some (pos 7)) (some (pos 7) ∷ [])
