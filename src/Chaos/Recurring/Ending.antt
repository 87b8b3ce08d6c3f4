-- ===== src/Chaos/Recurring/Ending.antt =====
-- That the loop of chaos.ExpandRecurring ends, and on how much fuel.
use Prim.Native.Nat.{◌^◌}
use xrpl_confluence.Prelude.{
  ℕ, suc, ◌+◌, ◌-◌, ◌≤◌, ◌<◌, ◌≡◌, string_eq, true, false, List, if◌then◌else◌,
}
use xrpl_confluence.Prelude.Int.{pos, pos_part, neg_part, ltb_ℤ}
use xrpl_confluence.Chaos.Recurring.{Recurring, RawEntry, Result, Looped, ended}

-- The loop has ended with a result on the one fuel and on the other.
abbrev pub EndsOn : Looped → Looped → Type 0
EndsOn a b = (r : Result (List RawEntry)) × (a ≡ ended r) × (b ≡ ended r)

-- Rounds of the loop that are enough for a run: its count, or one for each step up to the last.
pub rounds : Recurring → ℕ
rounds spec =
    if ltb_ℤ (pos 0) spec.count
    then suc (pos_part spec.count)
    else suc (suc (pos_part spec.until_step + neg_part spec.start_step - pos_part spec.start_step))

-- A run has a count, or its steps stay ints up to one period behind the last.
pub data Bounded (spec : Recurring) : Type 0 where
  by_count : ltb_ℤ (pos 0) spec.count ≡ true → Bounded spec
  by_step :
      ltb_ℤ (pos 0) spec.count ≡ false
      → pos_part spec.until_step + pos_part spec.every < 2 ^ 63
      → neg_part spec.start_step ≤ 2 ^ 63
      → pos_part spec.start_step < 2 ^ 63
      → Bounded spec
