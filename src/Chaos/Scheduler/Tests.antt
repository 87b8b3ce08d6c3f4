-- ===== src/Chaos/Scheduler/Tests.antt =====
-- The theorems on chaos.ChaosScheduler at a concrete schedule.
use xrpl_confluence.Prelude.{List, ℕ, suc, ◌+◌, ◌≡◌, refl, ◌||◌, none, [], ◌∷◌, ◌++◌, arith}
use xrpl_confluence.Prelude.Int.{pos, int_eq}
use xrpl_confluence.Prelude.Dict.{lookup}
use xrpl_confluence.Chaos.Scheduler.{
  Event, ScheduleEntry, ChaosScheduler, new_chaos_scheduler, applied_with, run, step,
}
use xrpl_confluence.Chaos.Scheduler.Firing.{flag, due, flag-run}
use xrpl_confluence.Chaos.Scheduler.Recovery.{pending_at, Extends, recovery_missed}
use xrpl_confluence.Chaos.Scheduler.Calls.{Call, logging_entry, IsCalled}
use xrpl_confluence.Chaos.Scheduler.Called.{run-IsCalled}

-- The world counts the calls.
abbrev pause : Event ℕ
pause = record { name = "pause"; apply = λ w. (none, suc w); recover = λ w. (none, suc w) }

abbrev entry : ScheduleEntry ℕ
entry = record { trigger_step = pos 15; event = pause; recover_after = pos 5 }

abbrev scheduler : ChaosScheduler ℕ
scheduler = new_chaos_scheduler (entry ∷ [])

flag-run_example :
    flag 0 (run (9 ∷ 19 ∷ []) (scheduler, 0)).0 ≡ (flag 0 scheduler || due entry (9 ∷ 19 ∷ []))
unfolding new_chaos_scheduler
flag-run_example = flag-run (9 ∷ 19 ∷ []) 0 entry scheduler 0 refl

recovery_missed_example :
    Extends (pending_at (pos (19 + 5)) scheduler ++ entry ∷ []) (
      pending_at
        (pos (19 + 5))
        (run (29 ∷ 39 ∷ []) (applied_with 19 0 entry scheduler (none, 1))).0)
recovery_missed_example =
    recovery_missed (29 ∷ 39 ∷ []) 19 0 5 entry scheduler 1 refl refl (λ e. ground (arith, e))
      (refl, (refl, tt))

abbrev schedule : List (ScheduleEntry (ℕ × List Call))
schedule = logging_entry entry ∷ []

run-IsCalled_example :
    IsCalled
      (run (9 ∷ 19 ∷ []) (new_chaos_scheduler schedule, (0, []))).0
      (run (9 ∷ 19 ∷ []) (new_chaos_scheduler schedule, (0, []))).1.1
    × (lookup
          (pos 24)
          (step 24 (run (9 ∷ 19 ∷ []) (new_chaos_scheduler schedule, (0, [])))).0.pending
        ≡ none)
run-IsCalled_example = run-IsCalled (entry ∷ []) (9 ∷ 19 ∷ []) 24 0
