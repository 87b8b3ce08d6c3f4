-- ===== src/Chaos/Scheduler/Account.antt =====
-- The counters of chaos.ChaosScheduler balance, and its marks and the recoveries that wait.
use xrpl_confluence.Prelude.{
  ◌++◌, ◌==◌, ℕ, suc, ◌+◌, ◌≡◌, ◌∙◌, sym, ap, refl, Bool, true, false, Option, none, some, List, [],
  ◌∷◌, arith, String, length, length-append, Bool-cases, inl, inr, nat_eq, Option-cases, ◌≢◌, ◌≤◌,
}
use xrpl_confluence.Prelude.Dict.{Dict, lookup, insert, erase, lookup-insert, lookup-erase}
use xrpl_confluence.Prelude.Int.{ℤ, pos, ◌+ℤ◌, ltb_ℤ, int_eq, beq_ℤ_iff}
use xrpl_confluence.Chaos.Scheduler.Firing.{recover_all-SameBut}
use xrpl_confluence.Chaos.Scheduler.{
  ScheduleEntry, ChaosScheduler, new_chaos_scheduler, is_applied, applied_with, queue_at, fire,
  fire_all, recovered_with, recover_all, recover_due, forget, step, run,
}

pub length-insert :
    (i : ℕ) (b : Bool) (m : Dict ℕ Bool)
    → lookup i m ≡ none
    → length (insert i b m) ≡ suc (length m)
unfolding lookup insert
length-insert i b [] h = refl
length-insert i b ((j, c) ∷ m) h = ground (arith, length-insert i b m)

no_marks : (i : ℕ) → lookup {V = Bool} i [] ≢ some false
unfolding lookup
no_marks i h = cc

module _ {E : Type 0} where
  -- What the lists of recoveries that wait measure together.
  abbrev pub measured : (List (ScheduleEntry E) → ℕ) → Dict ℤ (List (ScheduleEntry E)) → ℕ
  measured size [] = 0
  measured size ((k, es) ∷ m) = size es + measured size m

  -- The recoveries that wait, over all steps.
  abbrev pub waiting : Dict ℤ (List (ScheduleEntry E)) → ℕ
  waiting m = measured length m

  -- Each step has one entry.
  abbrev pub Distinct : Dict ℤ (List (ScheduleEntry E)) → Type 0
  Distinct [] = Unit
  Distinct ((k, es) ∷ m) = (lookup k m ≡ none) × Distinct m

  pub measured-insert :
      (size : List (ScheduleEntry E) → ℕ) (k : ℤ) (e : ScheduleEntry E) (n : ℕ)
      (m : Dict ℤ (List (ScheduleEntry E)))
      → size (e ∷ []) ≡ n
      → ((es : List (ScheduleEntry E)) → size (es ++ e ∷ []) ≡ size es + n)
      → measured size (insert k (queue_at (lookup k m) e) m) ≡ measured size m + n
  unfolding lookup insert queue_at
  measured-insert size k e n [] one more = omega (arith, one)
  measured-insert size k e n ((j, es) ∷ m) one more =
      ground (arith, more es, measured-insert size k e n m one more)

  waiting-insert :
      (k : ℤ) (e : ScheduleEntry E) (m : Dict ℤ (List (ScheduleEntry E)))
      → waiting (insert k (queue_at (lookup k m) e) m) ≡ suc (waiting m)
  waiting-insert k e m =
      omega (arith, measured-insert length k e 1 m refl (λ es. length-append es (e ∷ [])))

  Distinct-insert :
      (k : ℤ) (es : List (ScheduleEntry E)) (m : Dict ℤ (List (ScheduleEntry E)))
      → Distinct m
      → Distinct (insert k es m)
  unfolding lookup insert
  Distinct-insert k es [] d = (refl, tt)
  Distinct-insert k es ((j, fs) ∷ m) d =
      ground (arith, Distinct-insert k es m d.1, beq_ℤ_iff j k, lookup-insert k j es m)

  measured-erase_missing :
      (size : List (ScheduleEntry E) → ℕ) (k : ℤ) (m : Dict ℤ (List (ScheduleEntry E)))
      → lookup k m ≡ none
      → measured size (erase k m) ≡ measured size m
  unfolding lookup erase
  measured-erase_missing size k [] h = refl
  measured-erase_missing size k ((j, fs) ∷ m) h = ground (arith, measured-erase_missing size k m)

  pub measured-erase :
      (size : List (ScheduleEntry E) → ℕ) (k : ℤ) (es : List (ScheduleEntry E))
      (m : Dict ℤ (List (ScheduleEntry E)))
      → Distinct m
      → lookup k m ≡ some es
      → measured size (erase k m) + size es ≡ measured size m
  unfolding lookup erase
  measured-erase size k es [] d h = cc
  measured-erase size k es ((j, fs) ∷ m) d h = elim (Bool-cases (j == k)) [
    | inl q ↦
        let same : fs ≡ es = ground (arith, q, h) in
        let gone = measured-erase_missing size k m (ground (arith, q, d.0, beq_ℤ_iff j k)) in
        rw (q) (omega (arith, gone, ap size same))
    | inr q ↦ rw (q) (omega (arith, measured-erase size k es m d.1 (ground (arith, q, h))))
  ]

  waiting-erase :
      (k : ℤ) (es : List (ScheduleEntry E)) (m : Dict ℤ (List (ScheduleEntry E)))
      → Distinct m
      → lookup k m ≡ some es
      → waiting (erase k m) + length es ≡ waiting m
  waiting-erase k es m d h = measured-erase length k es m d h

  Distinct-erase : (k : ℤ) (m : Dict ℤ (List (ScheduleEntry E))) → Distinct m → Distinct (erase k m)
  unfolding lookup erase
  Distinct-erase k [] d = tt
  Distinct-erase k ((j, fs) ∷ m) d = ground (arith, Distinct-erase k m d.1, lookup-erase k j m, d.0)

  -- Every mark is true, each step has one entry, and the counters balance.
  pub record IsBalanced (s : ChaosScheduler E) : Type 0 where
    pub marks : (i : ℕ) → lookup i s.applied ≢ some false
    pub distinct : Distinct s.pending
    pub balance :
        s.stats.events_recovered + s.stats.events_errored + waiting s.pending ≡ length s.applied
    pub successes : s.stats.events_recovered + waiting s.pending ≤ s.stats.events_applied

  applied_with-IsBalanced :
      (n i : ℕ) (e : ScheduleEntry E) (s : ChaosScheduler E) (r : Option String × E)
      → lookup i s.applied ≡ none
      → IsBalanced s
      → IsBalanced (applied_with n i e s r).0
  unfolding applied_with
  applied_with-IsBalanced n i e s (some err, w) h v = record {
    marks = λ j. ground (arith, lookup-insert i j true s.applied, v.marks j);
    distinct = v.distinct;
    balance = omega (arith, length-insert i true s.applied h, v.balance);
    successes = v.successes;
  }
  applied_with-IsBalanced n i e s (none, w) h v =
      let k = pos n +ℤ e.recover_after in
      record {
        marks = λ j. ground (arith, lookup-insert i j true s.applied, v.marks j);
        distinct = Distinct-insert k (queue_at (lookup k s.pending) e) s.pending v.distinct;
        balance =
            omega
              (arith, length-insert i true s.applied h, waiting-insert k e s.pending, v.balance);
        successes = omega (arith, waiting-insert k e s.pending, v.successes);
      }

  -- A round of the loop leaves an entry that is marked or early, and applies one that has no mark.
  pub fire_elim :
      (P : ChaosScheduler E × E → Type 0) (n i : ℕ) (e : ScheduleEntry E) (s : ChaosScheduler E)
      (w : E)
      → IsBalanced s
      → P (s, w)
      → (lookup i s.applied ≡ none → P (applied_with n i e s (e.event.apply w)))
      → P (fire n i e (s, w))
  unfolding fire is_applied
  fire_elim P n i e s w v left done = elim (Option-cases (lookup i s.applied)) [
    | inl fresh ↦ elim (Bool-cases (ltb_ℤ (pos n) e.trigger_step)) [
      | inl early ↦ rw (fresh, is_applied, early) left
      | inr go ↦ rw (fresh, is_applied, go) (done fresh)
    ]
    | inr (true, marked) ↦ rw (marked, is_applied) left
    | inr (false, unmarked) ↦ absurd (v.marks i unmarked)
  ]

  pub fire-IsBalanced :
      (n i : ℕ) (e : ScheduleEntry E) (s : ChaosScheduler E) (w : E)
      → IsBalanced s
      → IsBalanced (fire n i e (s, w)).0
  fire-IsBalanced n i e s w v =
      fire_elim (λ x. IsBalanced x.0) n i e s w v v
        (λ fresh. applied_with-IsBalanced n i e s (e.event.apply w) fresh v)

  pub fire_all-IsBalanced :
      (n i : ℕ) (es : List (ScheduleEntry E)) (s : ChaosScheduler E) (w : E)
      → IsBalanced s
      → IsBalanced (fire_all n i es (s, w)).0
  unfolding fire_all
  fire_all-IsBalanced n i [] s w v = v
  fire_all-IsBalanced n i (e ∷ es) s w v =
      let (s', w') = fire n i e (s, w) in
      fire_all-IsBalanced n (suc i) es s' w' (fire-IsBalanced n i e s w v)

  -- The recoveries of a list count each of its entries once.
  recover_all_counts :
      (n : ℕ) (es : List (ScheduleEntry E)) (s : ChaosScheduler E) (w : E)
      → let t = (recover_all n es (s, w)).0 in
        (t.stats.events_recovered + t.stats.events_errored
          ≡ s.stats.events_recovered + s.stats.events_errored + length es)
        × (t.stats.events_recovered ≤ s.stats.events_recovered + length es)
        × (t.stats.events_applied ≡ s.stats.events_applied)
  unfolding recover_all recovered_with
  recover_all_counts n [] s w = omega arith
  recover_all_counts n (e ∷ es) s w =
      let (s', w') = recovered_with n e s (e.event.recover w) in
      ground (arith, recover_all_counts n es s' w')

  pub recover_due-IsBalanced :
      (n : ℕ) (due : Option (List (ScheduleEntry E))) (s : ChaosScheduler E) (w : E)
      → lookup (pos n) s.pending ≡ due
      → IsBalanced s
      → IsBalanced (recover_due n due (s, w)).0
  unfolding recover_due forget
  recover_due-IsBalanced n none s w h v = v
  recover_due-IsBalanced n (some es) s w h v =
      let (a, b, c) = recover_all-SameBut n es s w in
      let counts = recover_all_counts n es s w in
      record {
        marks = λ i x. v.marks i (ap (λ m. lookup i m) (sym a) ∙ x);
        distinct = rw c (Distinct-erase (pos n) s.pending v.distinct);
        balance = omega (
          arith,
          counts,
          ap length a,
          ap (λ m. waiting (erase (pos n) m)) c,
          waiting-erase (pos n) es s.pending v.distinct h,
          v.balance,
        );
        successes = omega (
          arith,
          counts,
          ap (λ m. waiting (erase (pos n) m)) c,
          waiting-erase (pos n) es s.pending v.distinct h,
          v.successes,
        );
      }

  step-IsBalanced :
      (n : ℕ) (s : ChaosScheduler E) (w : E) → IsBalanced s → IsBalanced (step n (s, w)).0
  unfolding step
  step-IsBalanced n s w v =
      let (s', w') = fire_all n 0 s.schedule (s, w) in
      recover_due-IsBalanced n (lookup (pos n) s'.pending) s' w' refl
        (fire_all-IsBalanced n 0 s.schedule s w v)

  run-IsBalanced :
      (ns : List ℕ) (s : ChaosScheduler E) (w : E) → IsBalanced s → IsBalanced (run ns (s, w)).0
  unfolding run
  run-IsBalanced [] s w v = v
  run-IsBalanced (n ∷ ns) s w v =
      let (s', w') = step n (s, w) in run-IsBalanced ns s' w' (step-IsBalanced n s w v)

  pub new-IsBalanced :
      (schedule : List (ScheduleEntry E)) → IsBalanced (new_chaos_scheduler schedule)
  unfolding new_chaos_scheduler
  new-IsBalanced schedule = record {
    marks = no_marks;
    distinct = tt;
    balance = refl;
    successes = omega arith;
  }
