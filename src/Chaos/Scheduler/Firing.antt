-- ===== src/Chaos/Scheduler/Firing.antt =====
-- When chaos.ChaosScheduler applies an event.
use xrpl_confluence.Prelude.{
  ℕ, zero, suc, ◌+◌, ◌<◌, ◌≡◌, ◌∙◌, ap, refl, Bool, true, ◌||◌, Option, none, some, List, [], ◌∷◌,
  arith, any, get_elem?, if◌then◌else◌, ◌==◌, nat_eq, String,
}
use native.Mathlib.Nat.{zero-add}
use xrpl_confluence.Prelude.Dict.{lookup, lookup-insert}
use xrpl_confluence.Prelude.Int.{pos, leb_ℤ, int_eq}
use xrpl_confluence.Chaos.Scheduler.{
  ScheduleEntry, ChaosScheduler, is_applied, fire, fire_all, recovered_with, recover_all,
  recover_due, forget, step, run,
}

-- Whether the scheduler has called Apply of the entry with this index.
abbrev pub flag : {E : Type 0} → ℕ → ChaosScheduler E → Bool
flag i s = is_applied (lookup i s.applied)

sum_shift : (i j : ℕ) → i + suc j ≡ suc i + j
sum_shift i j = omega arith

module _ {E : Type 0} where
  flag-fire :
      (n i j : ℕ) (e : ScheduleEntry E) (s : ChaosScheduler E) (w : E)
      → flag j (fire n i e (s, w)).0
        ≡ (if i == j then flag j s || leb_ℤ e.trigger_step (pos n) else flag j s)
  unfolding fire
  flag-fire n i j e s w = ground (arith, lookup-insert i j true s.applied)

  -- The rounds over the entries from index `i` leave an earlier index alone.
  flag-fire_all_lt :
      (n i j : ℕ) (es : List (ScheduleEntry E)) (s : ChaosScheduler E) (w : E)
      → j < i
      → flag j (fire_all n i es (s, w)).0 ≡ flag j s
  unfolding fire_all
  flag-fire_all_lt n i j [] s w h = refl
  flag-fire_all_lt n i j (e ∷ es) s w h =
      let (s', w') = fire n i e (s, w) in
      flag-fire_all_lt n (suc i) j es s' w' (omega arith) ∙ ground (arith, flag-fire n i j e s w)

  flag-fire_all :
      (n i j : ℕ) (es : List (ScheduleEntry E)) (e : ScheduleEntry E) (s : ChaosScheduler E) (w : E)
      → get_elem? es j ≡ some e
      → flag (i + j) (fire_all n i es (s, w)).0 ≡ (flag (i + j) s || leb_ℤ e.trigger_step (pos n))
  unfolding fire_all
  flag-fire_all n i j [] e s w h = absurd (cc)
  flag-fire_all n i zero (x ∷ es) e s w h =
      let (s', w') = fire n i x (s, w) in
      flag-fire_all_lt n (suc i) (i + 0) es s' w' (omega arith)
      ∙ ground (arith, flag-fire n i (i + 0) x s w, h)
  flag-fire_all n i (suc j) (x ∷ es) e s w h =
      let (s', w') = fire n i x (s, w) in
      ap (λ k. flag k (fire_all n (suc i) es (s', w')).0) (sum_shift i j)
      ∙ flag-fire_all n (suc i) j es e s' w' h
      ∙ ground (arith, flag-fire n i (suc i + j) x s w, sum_shift i j)

  -- What the recoveries leave alone.
  abbrev pub SameBut : ChaosScheduler E → ChaosScheduler E → Type 0
  SameBut s t = (s.applied ≡ t.applied) × (s.schedule ≡ t.schedule) × (s.pending ≡ t.pending)

  pub recovered_with-SameBut :
      (n : ℕ) (e : ScheduleEntry E) (s : ChaosScheduler E) (r : Option String × E)
      → SameBut (recovered_with n e s r).0 s
  unfolding recovered_with
  recovered_with-SameBut n e s (none, w) = (refl, refl, refl)
  recovered_with-SameBut n e s (some err, w) = (refl, refl, refl)

  pub recover_all-SameBut :
      (n : ℕ) (es : List (ScheduleEntry E)) (s : ChaosScheduler E) (w : E)
      → SameBut (recover_all n es (s, w)).0 s
  unfolding recover_all
  recover_all-SameBut n [] s w = (refl, refl, refl)
  recover_all-SameBut n (e ∷ es) s w =
      let (s', w') = recovered_with n e s (e.event.recover w) in
      let (a, b, c) = recover_all-SameBut n es s' w' in
      let (a', b', c') = recovered_with-SameBut n e s (e.event.recover w) in
      (a ∙ a', b ∙ b', c ∙ c')

  applied-recover_due :
      (n : ℕ) (due : Option (List (ScheduleEntry E))) (s : ChaosScheduler E) (w : E)
      → ((recover_due n due (s, w)).0.applied ≡ s.applied)
        × ((recover_due n due (s, w)).0.schedule ≡ s.schedule)
  unfolding recover_due forget
  applied-recover_due n none s w = (refl, refl)
  applied-recover_due n (some es) s w = let (a, b, c) = recover_all-SameBut n es s w in (a, b)

  schedule-fire_all :
      (n i : ℕ) (es : List (ScheduleEntry E)) (s : ChaosScheduler E) (w : E)
      → (fire_all n i es (s, w)).0.schedule ≡ s.schedule
  unfolding fire_all
  schedule-fire_all n i [] s w = refl
  schedule-fire_all n i (e ∷ es) s w =
      let (s', w') = fire n i e (s, w) in
      schedule-fire_all n (suc i) es s' w' ∙ (unfold fire in ground arith)

  pub schedule-step :
      (n : ℕ) (s : ChaosScheduler E) (w : E) → (step n (s, w)).0.schedule ≡ s.schedule
  unfolding step
  schedule-step n s w =
      let (s', w') = fire_all n 0 s.schedule (s, w) in
      (applied-recover_due n (lookup (pos n) s'.pending) s' w').1
      ∙ schedule-fire_all n 0 s.schedule s w

  flag-step :
      (n j : ℕ) (e : ScheduleEntry E) (s : ChaosScheduler E) (w : E)
      → get_elem? s.schedule j ≡ some e
      → flag j (step n (s, w)).0 ≡ (flag j s || leb_ℤ e.trigger_step (pos n))
  unfolding step
  flag-step n j e s w h =
      let (s', w') = fire_all n 0 s.schedule (s, w) in
      ap (λ m. is_applied (lookup j m)) (applied-recover_due n (lookup (pos n) s'.pending) s' w').0
      ∙ rw (← zero-add j) (flag-fire_all n 0 j s.schedule e s w h)

  -- The trigger step of an entry has come at one of the ticks.
  abbrev pub due : ScheduleEntry E → List ℕ → Bool
  due e = any (λ n. leb_ℤ e.trigger_step (pos n))

  -- After any run, an entry is marked as applied exactly if it was before, or if some tick was at or past
  -- its trigger step, whatever the cadence of the ticks.
  pub flag-run :
      (ns : List ℕ) (j : ℕ) (e : ScheduleEntry E) (s : ChaosScheduler E) (w : E)
      → get_elem? s.schedule j ≡ some e
      → flag j (run ns (s, w)).0 ≡ (flag j s || due e ns)
  unfolding run
  flag-run [] j e s w h = ground arith
  flag-run (n ∷ ns) j e s w h =
      let (s', w') = step n (s, w) in
      flag-run ns j e s' w' (ap (λ l. get_elem? l j) (schedule-step n s w) ∙ h)
      ∙ ground (arith, flag-step n j e s w h)
