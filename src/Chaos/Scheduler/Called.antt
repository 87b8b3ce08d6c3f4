-- ===== src/Chaos/Scheduler/Called.antt =====
-- That the counters and the recoveries that wait of chaos.ChaosScheduler agree with the calls that it makes.
use xrpl_confluence.Prelude.{
  ==_refl, ℕ, suc, ◌+◌, ◌≡◌, ◌∙◌, sym, ap, subst, refl, String, true, false, Option, none, some,
  List, [], ◌∷◌, ◌++◌, map, arith, ◌==◌, string_eq, length, All, Bool-cases, Option-cases, inl, inr,
  nat_eq,
}
use xrpl_confluence.Prelude.Dict.{Dict, lookup, insert, erase, lookup-erase}
use xrpl_confluence.Prelude.Int.{ℤ, pos, ◌+ℤ◌, int_eq}
use xrpl_confluence.Chaos.Scheduler.Account.{
  IsBalanced, measured, measured-insert, measured-erase, fire_elim, fire-IsBalanced,
  recover_due-IsBalanced, new-IsBalanced, length-insert,
}
use xrpl_confluence.Chaos.Scheduler.Firing.{recover_all-SameBut}
use xrpl_confluence.Chaos.Scheduler.{
  ScheduleEntry, ChaosScheduler, new_chaos_scheduler, applied_with, queue_at, emit, fire, fire_all,
  recover_due, forget, step, run,
}
use xrpl_confluence.Chaos.Scheduler.Calls.{
  Call, tally-snoc, is_error, is_apply, is_applied_ok, is_recovered_ok, is_applied_of,
  is_recovery_of, logging_entry, IsLogging, map-IsLogging, named, IsCalled, recover_all-Recovers,
}

module _ {E : Type 0} where
  AllQueued : Dict ℤ (List (ScheduleEntry (E × List Call))) → Type 0
  AllQueued [] = Unit
  AllQueued ((k, es) ∷ m) = All IsLogging es × AllQueued m

  queue_at-All :
      (o : List (ScheduleEntry (E × List Call))) (e : ScheduleEntry (E × List Call))
      → All IsLogging o
      → IsLogging e
      → All IsLogging (o ++ e ∷ [])
  queue_at-All [] e h l = (l, tt)
  queue_at-All (x ∷ o) e (a, h) l = (a, queue_at-All o e h l)

  AllQueued-erase :
      (k : ℤ) (m : Dict ℤ (List (ScheduleEntry (E × List Call))))
      → AllQueued m
      → AllQueued (erase k m)
  unfolding AllQueued erase
  AllQueued-erase k [] h = tt
  AllQueued-erase k ((j, es) ∷ m) (a, h) = elim (Bool-cases (j == k)) [
    | inl q ↦ rw (q) (AllQueued-erase k m h)
    | inr q ↦ rw (q) (a, AllQueued-erase k m h)
  ]

  AllQueued-lookup :
      (k : ℤ) (es : List (ScheduleEntry (E × List Call)))
      (m : Dict ℤ (List (ScheduleEntry (E × List Call))))
      → AllQueued m
      → lookup k m ≡ some es
      → All IsLogging es
  unfolding AllQueued lookup
  AllQueued-lookup k es [] h q = absurd (cc)
  AllQueued-lookup k es ((j, fs) ∷ m) (a, h) q = elim (Bool-cases (j == k)) [
    | inl p ↦ let same : fs ≡ es = ground (arith, p, q) in subst (λ x. All IsLogging x) same a
    | inr p ↦ AllQueued-lookup k es m h (ground (arith, p, q))
  ]

  AllQueued-set :
      (k : ℤ) (fs : List (ScheduleEntry (E × List Call)))
      (m : Dict ℤ (List (ScheduleEntry (E × List Call))))
      → All IsLogging fs
      → AllQueued m
      → AllQueued (insert k fs m)
  unfolding AllQueued insert
  AllQueued-set k fs [] l h = (l, tt)
  AllQueued-set k fs ((j, es) ∷ m) l (a, h) = elim (Bool-cases (j == k)) [
    | inl q ↦ rw (q) (l, h)
    | inr q ↦ rw (q) (a, AllQueued-set k fs m l h)
  ]

  AllQueued-insert :
      (k : ℤ) (e : ScheduleEntry (E × List Call))
      (m : Dict ℤ (List (ScheduleEntry (E × List Call))))
      → IsLogging e
      → AllQueued m
      → AllQueued (insert k (queue_at (lookup k m) e) m)
  unfolding queue_at
  AllQueued-insert k e m l h = elim (Option-cases (lookup k m)) [
    | inl q ↦ rw (q, queue_at) (AllQueued-set k (e ∷ []) m (l, tt) h)
    | inr (es, q) ↦
        rw (q, queue_at)
          (AllQueued-set k (es ++ e ∷ []) m (queue_at-All es e (AllQueued-lookup k es m h q) l) h)
  ]

  named-snoc :
      (name : String) (es : List (ScheduleEntry (E × List Call)))
      (e : ScheduleEntry (E × List Call))
      → named name (es ++ e ∷ []) ≡ named name es + named name (e ∷ [])
  named-snoc name es e =
      omega (arith, tally-snoc (λ (x : ScheduleEntry (E × List Call)). x.event.name == name) es e)

  -- The same of the scheduler and its world, with what the proof carries along.
  record Known (s : ChaosScheduler (E × List Call)) (x : E × List Call) : Type 0 where
    silent : s.on_audit ≡ none
    entries : All IsLogging s.schedule
    queued : AllQueued s.pending
    called : IsCalled s x.1

  applied_with-Known :
      (n i : ℕ) (e : ScheduleEntry (E × List Call)) (s : ChaosScheduler (E × List Call))
      (x : E × List Call) (r : Option String × (E × List Call))
      → lookup i s.applied ≡ none
      → IsLogging e
      → r.1.1
        ≡ x.1 ++ record { name = e.event.name; is_recovery = false; is_failed = is_error r.0 } ∷ []
      → Known s x
      → Known (applied_with n i e s r).0 (applied_with n i e s r).1
  unfolding applied_with emit
  applied_with-Known n i e s x (none, w) fresh l h v =
      let k : Call = record { name = e.event.name; is_recovery = false; is_failed = false } in
      rw (applied_with, emit, v.silent, h)
        record {
          silent = refl;
          entries = v.entries;
          queued = AllQueued-insert (pos n +ℤ e.recover_after) e s.pending l v.queued;
          called = record {
            applied_ok = omega (arith, v.called.applied_ok, tally-snoc is_applied_ok x.1 k);
            recovered_ok = omega (arith, v.called.recovered_ok, tally-snoc is_recovered_ok x.1 k);
            errored = omega (arith, v.called.errored, tally-snoc (λ (x : Call). x.is_failed) x.1 k);
            marked = omega (
              arith,
              v.called.marked,
              tally-snoc is_apply x.1 k,
              length-insert i true s.applied fresh,
            );
            recoveries = λ name. ground (
              arith,
              v.called.recoveries name,
              tally-snoc (is_recovery_of name) x.1 k,
              tally-snoc (is_applied_of name) x.1 k,
              measured-insert (named name) (pos n +ℤ e.recover_after) e (named name (e ∷ []))
                  s.pending refl (λ es. named-snoc name es e),
            );
          };
        }
  applied_with-Known n i e s x (some err, w) fresh l h v =
      let k : Call = record { name = e.event.name; is_recovery = false; is_failed = true } in
      rw (applied_with, emit, v.silent, h)
        record {
          silent = refl;
          entries = v.entries;
          queued = v.queued;
          called = record {
            applied_ok = omega (arith, v.called.applied_ok, tally-snoc is_applied_ok x.1 k);
            recovered_ok = omega (arith, v.called.recovered_ok, tally-snoc is_recovered_ok x.1 k);
            errored = omega (arith, v.called.errored, tally-snoc (λ (x : Call). x.is_failed) x.1 k);
            marked = omega (
              arith,
              v.called.marked,
              tally-snoc is_apply x.1 k,
              length-insert i true s.applied fresh,
            );
            recoveries = λ name. ground (
              arith,
              v.called.recoveries name,
              tally-snoc (is_recovery_of name) x.1 k,
              tally-snoc (is_applied_of name) x.1 k,
            );
          };
        }

  -- Both invariants of a scheduler and its world.
  abbrev Holds : ChaosScheduler (E × List Call) × (E × List Call) → Type 0
  Holds t = IsBalanced t.0 × Known t.0 t.1

  fire-Holds :
      (n i : ℕ) (e : ScheduleEntry (E × List Call)) (s : ChaosScheduler (E × List Call))
      (x : E × List Call)
      → IsLogging e
      → Holds (s, x)
      → Holds (fire n i e (s, x))
  unfolding IsLogging
  fire-Holds n i e s x l (b, v) = (
    fire-IsBalanced n i e s x b,
    fire_elim (λ t. Known t.0 t.1) n i e s x b v
        (λ fresh. applied_with-Known n i e s x (e.event.apply x) fresh l (l.0 x) v),
  )

  fire_all-Holds :
      (n i : ℕ) (es : List (ScheduleEntry (E × List Call))) (s : ChaosScheduler (E × List Call))
      (x : E × List Call)
      → All IsLogging es
      → Holds (s, x)
      → Holds (fire_all n i es (s, x))
  unfolding fire_all
  fire_all-Holds n i [] s x l h = h
  fire_all-Holds n i (e ∷ es) s x (l, ls) h =
      let (s', x') = fire n i e (s, x) in
      fire_all-Holds n (suc i) es s' x' ls (fire-Holds n i e s x l h)

  recover_due-Known :
      (n : ℕ) (due : Option (List (ScheduleEntry (E × List Call))))
      (s : ChaosScheduler (E × List Call)) (x : E × List Call)
      → lookup (pos n) s.pending ≡ due
      → Holds (s, x)
      → Known (recover_due n due (s, x)).0 (recover_due n due (s, x)).1
  unfolding recover_due forget
  recover_due-Known n none s x q (b, v) = v
  recover_due-Known n (some es) s x q (b, v) =
      let (a, p, c) = recover_all-SameBut n es s x in
      let ((k0, k1, k2), silent, applies, r) =
        recover_all-Recovers n es s x (AllQueued-lookup (pos n) es s.pending v.queued q) v.silent
          (v.called.applied_ok, v.called.recovered_ok, v.called.errored) in
      record {
        silent = silent;
        entries = rw p v.entries;
        queued = rw c (AllQueued-erase (pos n) s.pending v.queued);
        called = record {
          applied_ok = k0;
          recovered_ok = k1;
          errored = k2;
          marked = applies ∙ v.called.marked ∙ sym (ap length a);
          recoveries = λ name. omega (
            arith,
            v.called.recoveries name,
            (r name).0,
            (r name).1,
            ap (λ m. measured (named name) (erase (pos n) m)) c,
            measured-erase (named name) (pos n) es s.pending b.distinct q,
          );
        };
      }

  step-Holds :
      (n : ℕ) (s : ChaosScheduler (E × List Call)) (x : E × List Call)
      → Holds (s, x)
      → Holds (step n (s, x))
  unfolding step
  step-Holds n s x h =
      let (s', x') = fire_all n 0 s.schedule (s, x) in
      let h' = fire_all-Holds n 0 s.schedule s x h.1.entries h in
      (
        recover_due-IsBalanced n (lookup (pos n) s'.pending) s' x' refl h'.0,
        recover_due-Known n (lookup (pos n) s'.pending) s' x' refl h',
      )

  run-Holds :
      (ns : List ℕ) (s : ChaosScheduler (E × List Call)) (x : E × List Call)
      → Holds (s, x)
      → Holds (run ns (s, x))
  unfolding run
  run-Holds [] s x h = h
  run-Holds (n ∷ ns) s x h = let (s', x') = step n (s, x) in run-Holds ns s' x' (step-Holds n s x h)

  new-Known :
      (es : List (ScheduleEntry (E × List Call))) (w : E)
      → All IsLogging es
      → Known (new_chaos_scheduler es) (w, [])
  unfolding new_chaos_scheduler AllQueued
  new-Known es w l = record {
    silent = refl;
    entries = l;
    queued = tt;
    called = record {
      applied_ok = refl;
      recovered_ok = refl;
      errored = refl;
      marked = refl;
      recoveries = λ name. refl;
    };
  }

  recover_due-forgets :
      (n : ℕ) (due : Option (List (ScheduleEntry (E × List Call))))
      (s : ChaosScheduler (E × List Call)) (x : E × List Call)
      → lookup (pos n) s.pending ≡ due
      → lookup (pos n) (recover_due n due (s, x)).0.pending ≡ none
  unfolding recover_due forget
  recover_due-forgets n none s x q = q
  recover_due-forgets n (some es) s x q =
      let (a, p, c) = recover_all-SameBut n es s x in
      rw c (ground (arith, lookup-erase (pos n) (pos n) s.pending, ==_refl (pos n)))

  step-forgets :
      (n : ℕ) (s : ChaosScheduler (E × List Call)) (x : E × List Call)
      → lookup (pos n) (step n (s, x)).0.pending ≡ none
  unfolding step
  step-forgets n s x =
      let (s', x') = fire_all n 0 s.schedule (s, x) in
      recover_due-forgets n (lookup (pos n) s'.pending) s' x' refl

  -- After any ticks of a new scheduler, on any events that note their calls and without an OnAudit: its counters
  -- count the calls of Apply and of Recover that succeeded and all that failed; Apply was called as often as there
  -- are marked entries; and, of the events of each name, Recover was called as often as Apply
  -- succeeded, less the recoveries that still wait. After a further tick none waits for the step of that tick.
  pub run-IsCalled :
      (schedule : List (ScheduleEntry E)) (ns : List ℕ) (n : ℕ) (w : E)
      → let t = run ns (new_chaos_scheduler (map logging_entry schedule), (w, [])) in
        IsCalled t.0 t.1.1 × (lookup (pos n) (step n t).0.pending ≡ none)
  run-IsCalled schedule ns n w =
      let t = run ns (new_chaos_scheduler (map logging_entry schedule), (w, [])) in
      (
        (run-Holds ns (new_chaos_scheduler (map logging_entry schedule)) (w, [])
            (
              new-IsBalanced (map logging_entry schedule),
              new-Known (map logging_entry schedule) w (map-IsLogging schedule),
            )).1.called,
        step-forgets n t.0 t.1,
      )
