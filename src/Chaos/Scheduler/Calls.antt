-- ===== src/Chaos/Scheduler/Calls.antt =====
-- The calls of Apply and Recover that chaos.ChaosScheduler makes, on events that note each of their calls.
use xrpl_confluence.Prelude.{
  ℕ, ◌+◌, ◌≡◌, ◌∙◌, refl, String, Bool, true, false, ◌&&◌, not, Option, none, some, List, [], ◌∷◌,
  ◌++◌, map, arith, if◌then◌else◌, ◌==◌, string_eq, length, All, nat_eq,
}
use xrpl_confluence.Prelude.Int.{int_eq}
use xrpl_confluence.Chaos.Scheduler.Account.{measured}
use xrpl_confluence.Chaos.Scheduler.{
  Event, ScheduleEntry, ChaosScheduler, emit, recovered_with, recover_all,
}

-- A call of Apply or Recover, of the event with a name, and whether it returned an error.
pub record Call : Type 0 where
  pub name : String
  pub is_recovery : Bool
  pub is_failed : Bool

-- How many items pass a test.
abbrev pub tally {ℓ} : {A : Type ℓ} → (A → Bool) → List A → ℕ
tally p [] = 0
tally p (x ∷ xs) = (if p x then 1 else 0) + tally p xs

pub tally-snoc {ℓ} :
    {A : Type ℓ} (p : A → Bool) (xs : List A) (x : A)
    → tally p (xs ++ x ∷ []) ≡ tally p xs + (if p x then 1 else 0)
tally-snoc p [] x = omega arith
tally-snoc p (y ∷ ys) x = omega (arith, tally-snoc p ys x)

abbrev pub is_error : Option String → Bool
is_error none = false
is_error (some err) = true

-- The calls of Apply; those that succeed and fail; and those of one name.
abbrev pub is_apply : Call → Bool
is_apply c = not c.is_recovery

abbrev pub is_applied_ok : Call → Bool
is_applied_ok c = not c.is_recovery && not c.is_failed

abbrev pub is_recovered_ok : Call → Bool
is_recovered_ok c = c.is_recovery && not c.is_failed

abbrev pub is_applied_of : String → Call → Bool
is_applied_of name c = (not c.is_recovery && not c.is_failed) && c.name == name

abbrev pub is_recovery_of : String → Call → Bool
is_recovery_of name c = c.is_recovery && c.name == name

module _ {E : Type 0} where
  -- The event, on a world with a log of the calls.
  abbrev pub noted : Bool → String → List Call → Option String × E → Option String × (E × List Call)
  noted is_recovery name log r =
      let c : Call = record { name = name; is_recovery = is_recovery; is_failed = is_error r.0 } in
      (r.0, (r.1, log ++ c ∷ []))

  abbrev pub logging : Event E → Event (E × List Call)
  logging ev = record {
    name = ev.name;
    apply = λ x. noted false ev.name x.1 (ev.apply x.0);
    recover = λ x. noted true ev.name x.1 (ev.recover x.0);
  }

  abbrev pub logging_entry : ScheduleEntry E → ScheduleEntry (E × List Call)
  logging_entry e = record {
    trigger_step = e.trigger_step;
    event = logging e.event;
    recover_after = e.recover_after;
  }

  -- What a call adds to the log.
  unfoldable pub IsLogging : ScheduleEntry (E × List Call) → Type 0
  IsLogging e =
      ((x : E × List Call)
        → (e.event.apply x).1.1
          ≡ x.1
            ++ record {
              name = e.event.name;
              is_recovery = false;
              is_failed = is_error (e.event.apply x).0;
            }
              ∷ [])
      × ((x : E × List Call)
          → (e.event.recover x).1.1
            ≡ x.1
              ++ record {
                name = e.event.name;
                is_recovery = true;
                is_failed = is_error (e.event.recover x).0;
              }
                ∷ [])

  logging_entry-IsLogging : (e : ScheduleEntry E) → IsLogging (logging_entry e)
  unfolding IsLogging
  logging_entry-IsLogging e = (λ x. refl, λ x. refl)

  pub map-IsLogging : (es : List (ScheduleEntry E)) → All IsLogging (map logging_entry es)
  map-IsLogging [] = tt
  map-IsLogging (e ∷ es) = (logging_entry-IsLogging e, map-IsLogging es)

module _ {E : Type 0} where
  -- The entries of a name.
  abbrev pub named : String → List (ScheduleEntry (E × List Call)) → ℕ
  named name es = tally (λ e. e.event.name == name) es

  -- The counters count the calls; the calls of Apply are as many as the marked
  -- entries; and, of each name, the
  -- recoveries that were called and those that wait are as many as the calls of Apply that succeeded.
  pub record IsCalled (s : ChaosScheduler (E × List Call)) (log : List Call) : Type 0 where
    pub applied_ok : s.stats.events_applied ≡ tally is_applied_ok log
    pub recovered_ok : s.stats.events_recovered ≡ tally is_recovered_ok log
    pub errored : s.stats.events_errored ≡ tally (λ c. c.is_failed) log
    pub marked : tally is_apply log ≡ length s.applied
    pub recoveries :
        (name : String)
        → tally (is_recovery_of name) log + measured (named name) s.pending
          ≡ tally (is_applied_of name) log

  -- The counters of the scheduler, by the calls.
  abbrev pub Counters : ChaosScheduler (E × List Call) → List Call → Type 0
  Counters s log =
      (s.stats.events_applied ≡ tally is_applied_ok log)
      × (s.stats.events_recovered ≡ tally is_recovered_ok log)
      × (s.stats.events_errored ≡ tally (λ c. c.is_failed) log)

  -- What the calls of Recover for a list of entries add to a log.
  abbrev pub Recovers :
      List (ScheduleEntry (E × List Call))
      → List Call
      → ChaosScheduler (E × List Call) × (E × List Call)
      → Type 0
  Recovers es log t =
      Counters t.0 t.1.1
      × (t.0.on_audit ≡ none)
      × (tally is_apply t.1.1 ≡ tally is_apply log)
      × ((name : String)
          → (tally (is_recovery_of name) t.1.1 ≡ tally (is_recovery_of name) log + named name es)
            × (tally (is_applied_of name) t.1.1 ≡ tally (is_applied_of name) log))

  recovered_with-Recovers :
      (n : ℕ) (e : ScheduleEntry (E × List Call)) (s : ChaosScheduler (E × List Call))
      (log : List Call) (r : Option String × (E × List Call))
      → s.on_audit ≡ none
      → Counters s log
      → r.1.1
        ≡ log ++ record { name = e.event.name; is_recovery = true; is_failed = is_error r.0 } ∷ []
      → Recovers (e ∷ []) log (recovered_with n e s r)
  unfolding recovered_with emit
  recovered_with-Recovers n e s log (none, w) q (a, b, c) h =
      let k : Call = record { name = e.event.name; is_recovery = true; is_failed = false } in
      rw (recovered_with, emit, q, h)
        (
          (
            omega (arith, a, tally-snoc is_applied_ok log k),
            omega (arith, b, tally-snoc is_recovered_ok log k),
            omega (arith, c, tally-snoc (λ (x : Call). x.is_failed) log k),
          ),
          refl,
          omega (arith, tally-snoc is_apply log k),
          λ name. (
            ground (arith, tally-snoc (is_recovery_of name) log k),
            omega (arith, tally-snoc (is_applied_of name) log k),
          ),
        )
  recovered_with-Recovers n e s log (some err, w) q (a, b, c) h =
      let k : Call = record { name = e.event.name; is_recovery = true; is_failed = true } in
      rw (recovered_with, emit, q, h)
        (
          (
            omega (arith, a, tally-snoc is_applied_ok log k),
            omega (arith, b, tally-snoc is_recovered_ok log k),
            omega (arith, c, tally-snoc (λ (x : Call). x.is_failed) log k),
          ),
          refl,
          omega (arith, tally-snoc is_apply log k),
          λ name. (
            ground (arith, tally-snoc (is_recovery_of name) log k),
            omega (arith, tally-snoc (is_applied_of name) log k),
          ),
        )

  pub recover_all-Recovers :
      (n : ℕ) (es : List (ScheduleEntry (E × List Call))) (s : ChaosScheduler (E × List Call))
      (x : E × List Call)
      → All IsLogging es
      → s.on_audit ≡ none
      → Counters s x.1
      → Recovers es x.1 (recover_all n es (s, x))
  unfolding recover_all IsLogging
  recover_all-Recovers n [] s x l q c = (c, q, refl, λ name. (omega arith, refl))
  recover_all-Recovers n (e ∷ es) s x (l, ls) q c =
      let (s', x') = recovered_with n e s (e.event.recover x) in
      let (c', q', a', r') = recovered_with-Recovers n e s x.1 (e.event.recover x) q c (l.1 x) in
      let (c2, q2, a2, r2) = recover_all-Recovers n es s' x' ls q' c' in
      (
        c2,
        q2,
        a2 ∙ a',
        λ name. (omega (arith, (r2 name).0, (r' name).0), (r2 name).1 ∙ (r' name).1),
      )
