-- ===== src/Chaos/Scheduler/Recovery.antt =====
-- When chaos.ChaosScheduler reverses an event: at a tick whose step is exactly the one at which the
-- recovery is due, and at no other.
use xrpl_confluence.Prelude.{
  ℕ, suc, ◌+◌, ◌%◌, ◌≡◌, ◌≢◌, ◌∙◌, sym, ap, refl, Option, none, some, List, [], ◌∷◌, ◌++◌, arith,
  if◌then◌else◌, ◌==◌, All, subst, String, ◌||◌, Bool-cases, inl, inr, nat_eq,
}
use mathlib.Core.List.{append_assoc, append-nil}
use xrpl_confluence.Prelude.Dict.{lookup, lookup-insert, lookup-erase}
use xrpl_confluence.Prelude.Int.{ℤ, pos, ◌+ℤ◌, ltb_ℤ, int_eq, beq_ℤ_iff}
use xrpl_confluence.Chaos.Scheduler.{
  ScheduleEntry, ChaosScheduler, is_applied, applied_with, queue_at, fire, fire_all, recover_all,
  recover_due, forget, step, run,
}
use xrpl_confluence.Chaos.Scheduler.Firing.{recover_all-SameBut}

abbrev entries_of : {E : Type 0} → Option (List (ScheduleEntry E)) → List (ScheduleEntry E)
entries_of none = []
entries_of (some es) = es

-- The entries whose recovery waits for step `k`.
abbrev pub pending_at : {E : Type 0} → ℤ → ChaosScheduler E → List (ScheduleEntry E)
pending_at k s = entries_of (lookup k s.pending)

sum_pos : (n r : ℕ) → pos n +ℤ pos r ≡ pos (n + r)
unfolding ◌+ℤ◌
sum_pos n r = ground arith

off_cadence :
    (ns : List ℕ) (k : ℕ) → All (λ n. n % 10 ≡ 9) ns → k % 10 ≢ 9 → All (λ n. pos n ≢ pos k) ns
off_cadence [] k h d = tt
off_cadence (n ∷ ns) k h d = ((λ e. ground (arith, h.0, d, e)), off_cadence ns k h.1 d)

module _ {E : Type 0} where
  -- `more` waits behind what waited before.
  abbrev pub Extends : List (ScheduleEntry E) → List (ScheduleEntry E) → Type 0
  Extends old new = (more : List (ScheduleEntry E)) × (new ≡ old ++ more)

  Extends-trans : (a b c : List (ScheduleEntry E)) → Extends a b → Extends b c → Extends a c
  Extends-trans a b c (m, e) (n, f) = (m ++ n, f ∙ ap (λ l. l ++ n) e ∙ append_assoc a m n)

  applied_with-Extends :
      (n i : ℕ) (e : ScheduleEntry E) (s : ChaosScheduler E) (r : Option String × E) (k : ℤ)
      → Extends (pending_at k s) (pending_at k (applied_with n i e s r).0)
  unfolding applied_with queue_at
  applied_with-Extends n i e s (some err, w) k = ([], sym (append-nil (pending_at k s)))
  applied_with-Extends n i e s (none, w) k = (
    if pos n +ℤ e.recover_after == k then e ∷ [] else [],
    ground (
      arith,
      lookup-insert (pos n +ℤ e.recover_after) k
          (queue_at (lookup (pos n +ℤ e.recover_after) s.pending) e) s.pending,
      beq_ℤ_iff (pos n +ℤ e.recover_after) k,
      append-nil (pending_at k s),
    ),
  )

  fire-Extends :
      (n i : ℕ) (e : ScheduleEntry E) (s : ChaosScheduler E) (w : E) (k : ℤ)
      → Extends (pending_at k s) (pending_at k (fire n i e (s, w)).0)
  unfolding fire
  fire-Extends n i e s w k =
      elim (Bool-cases (is_applied (lookup i s.applied) || ltb_ℤ (pos n) e.trigger_step)) [
        | inl skip ↦ rw skip ([], sym (append-nil (pending_at k s)))
        | inr go ↦ rw go (applied_with-Extends n i e s (e.event.apply w) k)
      ]

  fire_all-Extends :
      (n i : ℕ) (es : List (ScheduleEntry E)) (s : ChaosScheduler E) (w : E) (k : ℤ)
      → Extends (pending_at k s) (pending_at k (fire_all n i es (s, w)).0)
  unfolding fire_all
  fire_all-Extends n i [] s w k = ([], sym (append-nil (pending_at k s)))
  fire_all-Extends n i (e ∷ es) s w k =
      let (s', w') = fire n i e (s, w) in
      Extends-trans (pending_at k s) (pending_at k s')
        (pending_at k (fire_all n (suc i) es (s', w')).0) (fire-Extends n i e s w k)
        (fire_all-Extends n (suc i) es s' w' k)

  pending-recover_due :
      (n : ℕ) (due : Option (List (ScheduleEntry E))) (s : ChaosScheduler E) (w : E) (k : ℤ)
      → lookup (pos n) s.pending ≡ due
      → pending_at k (recover_due n due (s, w)).0 ≡ (if pos n == k then [] else pending_at k s)
  unfolding recover_due forget
  pending-recover_due n none s w k e = ground (arith, e, beq_ℤ_iff (pos n) k)
  pending-recover_due n (some es) s w k e =
      let (a, b, c) = recover_all-SameBut n es s w in
      ground
        (arith, c, lookup-erase (pos n) k (recover_all n es (s, w)).0.pending, beq_ℤ_iff (pos n) k)

  -- Behind a tick at step `n` no recovery waits for step `n`.
  step_settles : (n : ℕ) (s : ChaosScheduler E) (w : E) → pending_at (pos n) (step n (s, w)).0 ≡ []
  unfolding step
  step_settles n s w =
      let (s', w') = fire_all n 0 s.schedule (s, w) in
      ground (
        arith,
        pending-recover_due n (lookup (pos n) s'.pending) s' w' (pos n) refl,
        beq_ℤ_iff (pos n) (pos n),
      )

  step-Extends :
      (n : ℕ) (s : ChaosScheduler E) (w : E) (k : ℤ)
      → pos n ≢ k
      → Extends (pending_at k s) (pending_at k (step n (s, w)).0)
  unfolding step
  step-Extends n s w k h =
      let (s', w') = fire_all n 0 s.schedule (s, w) in
      let (more, e) = fire_all-Extends n 0 s.schedule s w k in
      (
        more,
        ground (
          arith,
          e,
          pending-recover_due n (lookup (pos n) s'.pending) s' w' k refl,
          beq_ℤ_iff (pos n) k,
          h,
        ),
      )

  -- What waits for a step that no tick hits goes on waiting.
  pub run-Extends :
      (ns : List ℕ) (k : ℤ) (s : ChaosScheduler E) (w : E)
      → All (λ n. pos n ≢ k) ns
      → Extends (pending_at k s) (pending_at k (run ns (s, w)).0)
  unfolding run
  run-Extends [] k s w h = ([], sym (append-nil (pending_at k s)))
  run-Extends (n ∷ ns) k s w h =
      let (s', w') = step n (s, w) in
      Extends-trans (pending_at k s) (pending_at k s') (pending_at k (run ns (s', w')).0)
        (step-Extends n s w k h.0) (run-Extends ns k s' w' h.1)

  applied_pending :
      (n i r : ℕ) (e : ScheduleEntry E) (s : ChaosScheduler E) (w : E)
      → e.recover_after ≡ pos r
      → pending_at (pos (n + r)) (applied_with n i e s (none, w)).0
        ≡ pending_at (pos (n + r)) s ++ e ∷ []
  unfolding applied_with queue_at
  applied_pending n i r e s w h = ground (
    arith,
    h,
    sum_pos n r,
    lookup-insert (pos n +ℤ e.recover_after) (pos (n + r))
        (queue_at (lookup (pos n +ℤ e.recover_after) s.pending) e) s.pending,
    beq_ℤ_iff (pos n +ℤ e.recover_after) (pos (n + r)),
  )

  -- The soak loop ticks the scheduler at steps 9, 19, 29 and so on. An event that was applied at such a
  -- step, with a recovery delay that is no multiple of 10, still waits to be recovered after any number
  -- of such ticks.
  pub recovery_missed :
      (ns : List ℕ) (n i r : ℕ) (e : ScheduleEntry E) (s : ChaosScheduler E) (w : E)
      → n % 10 ≡ 9
      → e.recover_after ≡ pos r
      → r % 10 ≢ 0
      → All (λ m. m % 10 ≡ 9) ns
      → Extends
          (pending_at (pos (n + r)) s ++ e ∷ [])
          (pending_at (pos (n + r)) (run ns (applied_with n i e s (none, w))).0)
  recovery_missed ns n i r e s w c h d hs =
      let (s', w') = applied_with n i e s (none, w) in
      subst (λ l. Extends l (pending_at (pos (n + r)) (run ns (s', w')).0))
        (applied_pending n i r e s w h)
        (run-Extends ns (pos (n + r)) s' w'
          (off_cadence ns (n + r) hs (λ x. omega (arith, c, d, x))))
