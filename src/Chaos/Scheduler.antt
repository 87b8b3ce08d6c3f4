-- ===== src/Chaos/Scheduler.antt =====
-- chaos.ChaosScheduler of sidecar/internal/fuzz/chaos/scheduler.go. Step holds the lock for its whole
-- body and is one step on the scheduler and the world `E` that the events and OnAudit work on.
-- A pointer to an entry of the schedule is the entry with its index; the schedule never changes.
pub mod Firing
pub mod Recovery
pub mod Account
pub mod Calls
pub mod Called
pub mod Tests
use xrpl_confluence.Prelude.{
  ℕ, suc, ◌+◌, String, Bool, true, false, ◌||◌, Option, none, some, List, [], ◌∷◌, ◌++◌,
  if◌then◌else◌, nat_eq,
}
use xrpl_confluence.Prelude.Dict.{Dict, lookup, insert, erase}
use xrpl_confluence.Prelude.Int.{ℤ, pos, ◌+ℤ◌, ltb_ℤ, int_eq}

-- Apply and Recover return the text of an error, or none.
pub record Event (E : Type 0) : Type 0 where
  pub name : String
  pub apply : E → Option String × E
  pub recover : E → Option String × E

pub record ScheduleEntry (E : Type 0) : Type 0 where
  pub trigger_step : ℤ
  pub event : Event E
  pub recover_after : ℤ

pub record Stats : Type 0 where
  pub events_applied : ℕ
  pub events_recovered : ℕ
  pub events_errored : ℕ

pub record AuditEntry : Type 0 where
  pub event : String
  pub phase : String
  pub step : ℕ
  pub error : String

pub record ChaosScheduler (E : Type 0) : Type 0 where
  pub schedule : List (ScheduleEntry E)
  pub pending : Dict ℤ (List (ScheduleEntry E))
  pub applied : Dict ℕ Bool
  pub stats : Stats
  pub on_audit : Option (AuditEntry → E → E)

abbrev pub zero_stats : Stats
zero_stats = record { events_applied = 0; events_recovered = 0; events_errored = 0 }

-- A missing key of a map[*ScheduleEntry]bool reads as false.
pub is_applied : Option Bool → Bool
is_applied none = false
is_applied (some b) = b

module _ {E : Type 0} where
  pub new_chaos_scheduler : List (ScheduleEntry E) → ChaosScheduler E
  new_chaos_scheduler schedule = record {
    schedule = schedule;
    pending = [];
    applied = [];
    stats = zero_stats;
    on_audit = none;
  }

  emit : ChaosScheduler E → AuditEntry → E → E
  emit s a w = elim s.on_audit [ none ↦ w | some cb ↦ cb a w ]

  pub queue_at : Option (List (ScheduleEntry E)) → ScheduleEntry E → List (ScheduleEntry E)
  queue_at none e = e ∷ []
  queue_at (some es) e = es ++ e ∷ []

  -- Behind the call of Apply. The step of the recovery is taken to be within an int.
  pub applied_with :
      ℕ → ℕ → ScheduleEntry E → ChaosScheduler E → Option String × E → ChaosScheduler E × E
  applied_with step i e s (some err, w) = (
    record s {
      stats = record s.stats { events_errored = s.stats.events_errored + 1 };
      applied = insert i true s.applied;
    },
    emit s (record { event = e.event.name; phase = "apply"; step = step; error = err }) w,
  )
  applied_with step i e s (none, w) = (
    record s {
      stats = record s.stats { events_applied = s.stats.events_applied + 1 };
      applied = insert i true s.applied;
      pending =
          insert (pos step +ℤ e.recover_after)
            (queue_at (lookup (pos step +ℤ e.recover_after) s.pending) e) s.pending;
    },
    emit s (record { event = e.event.name; phase = "apply"; step = step; error = "" }) w,
  )

  -- One round of the loop over the schedule.
  pub fire : ℕ → ℕ → ScheduleEntry E → ChaosScheduler E × E → ChaosScheduler E × E
  unfolding applied_with emit is_applied queue_at
  fire step i e (s, w) =
      if is_applied (lookup i s.applied) || ltb_ℤ (pos step) e.trigger_step
      then (s, w)
      else applied_with step i e s (e.event.apply w)

  pub fire_all : ℕ → ℕ → List (ScheduleEntry E) → ChaosScheduler E × E → ChaosScheduler E × E
  fire_all step i [] sw = sw
  fire_all step i (e ∷ es) sw = fire_all step (suc i) es (fire step i e sw)

  pub recovered_with :
      ℕ → ScheduleEntry E → ChaosScheduler E → Option String × E → ChaosScheduler E × E
  recovered_with step e s (some err, w) = (
    record s { stats = record s.stats { events_errored = s.stats.events_errored + 1 } },
    emit s (record { event = e.event.name; phase = "recover"; step = step; error = err }) w,
  )
  recovered_with step e s (none, w) = (
    record s { stats = record s.stats { events_recovered = s.stats.events_recovered + 1 } },
    emit s (record { event = e.event.name; phase = "recover"; step = step; error = "" }) w,
  )

  pub recover_all : ℕ → List (ScheduleEntry E) → ChaosScheduler E × E → ChaosScheduler E × E
  unfolding recovered_with emit
  recover_all step [] sw = sw
  recover_all step (e ∷ es) (s, w) =
      recover_all step es (recovered_with step e s (e.event.recover w))

  forget : ℕ → ChaosScheduler E × E → ChaosScheduler E × E
  forget step (s, w) = (record s { pending = erase (pos step) s.pending }, w)

  pub recover_due :
      ℕ → Option (List (ScheduleEntry E)) → ChaosScheduler E × E → ChaosScheduler E × E
  unfolding forget
  recover_due step none sw = sw
  recover_due step (some entries) sw = forget step (recover_all step entries sw)

  pub step : ℕ → ChaosScheduler E × E → ChaosScheduler E × E
  step n (s, w) =
      let (s', w') = fire_all n 0 s.schedule (s, w) in
      recover_due n (lookup (pos n) s'.pending) (s', w')

  -- The ticks of a run, the first tick first.
  pub run : List ℕ → ChaosScheduler E × E → ChaosScheduler E × E
  run [] sw = sw
  run (n ∷ ns) sw = run ns (step n sw)

  pub stats : ChaosScheduler E → Stats
  stats s = s.stats
