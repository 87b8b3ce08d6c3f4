-- ===== src/Finding/Divergence/Agreeing.antt =====
-- No divergence is reported while the nodes agree.
use xrpl_confluence.Prelude.{
  ℕ, suc, ◌≤◌, String, ◌≡◌, refl, true, List, [], ◌∷◌, ◌++◌, arith, ltb, length, subst, ◌==◌,
  string_eq, Bool-cases, inl, inr, All,
}
use text.Mathlib.TextEquality.{eq_iff}
use xrpl_confluence.Prelude.Dict.{Dict, lookup, insert}
use xrpl_confluence.Prelude.Int.{ℤ, int_eq, beq_ℤ_iff}
use xrpl_confluence.Prelude.Sort.{length-sort}
use xrpl_confluence.Prelude.Text.{str_ltb}
use xrpl_confluence.Finding.Divergence.{
  DivergenceInput, DivergenceOracle, World, Group, members, group_by_seq, distinct_hashes,
  sorted_hashes, report, report_all, tick,
}

-- The nodes report the ledgers of one chain, `hash_at`.
abbrev pub IsOn : (ℤ → String) → DivergenceInput → Type 0
IsOn hash_at i = i.hash ≡ hash_at i.seq

module _ (hash_at : ℤ → String) where
  abbrev Uniform : Group → Type 0
  Uniform (seq, group) = All (λ (i : DivergenceInput). i.hash ≡ hash_at seq) group

  All-snoc :
      (h : String) (group : List DivergenceInput) (i : DivergenceInput)
      → All (λ (x : DivergenceInput). x.hash ≡ h) group
      → i.hash ≡ h
      → All (λ (x : DivergenceInput). x.hash ≡ h) (group ++ i ∷ [])
  All-snoc h [] i a e = (e, tt)
  All-snoc h (x ∷ group) i a e = (a.0, All-snoc h group i a.1 e)

  Uniform-lookup :
      (seq : ℤ) (groups : Dict ℤ (List DivergenceInput))
      → All Uniform groups
      → Uniform (seq, members (lookup seq groups))
  unfolding lookup members
  Uniform-lookup seq [] u = tt
  Uniform-lookup seq ((q, g) ∷ groups) u = elim (Bool-cases (q == seq)) [
    | inl e ↦ rw (e) (subst (λ z. Uniform (z, g)) ((beq_ℤ_iff q seq).0 e) u.0)
    | inr e ↦ rw (e) (Uniform-lookup seq groups u.1)
  ]

  Uniform-insert :
      (seq : ℤ) (group : List DivergenceInput) (groups : Dict ℤ (List DivergenceInput))
      → Uniform (seq, group)
      → All Uniform groups
      → All Uniform (insert seq group groups)
  unfolding insert
  Uniform-insert seq group [] g u = (g, tt)
  Uniform-insert seq group ((q, old) ∷ groups) g u = elim (Bool-cases (q == seq)) [
    | inl e ↦ rw (e) (g, u.1)
    | inr e ↦ rw (e) (u.0, Uniform-insert seq group groups g u.1)
  ]

  group_by_seq-Uniform :
      (inputs : List DivergenceInput) (groups : Dict ℤ (List DivergenceInput))
      → All (IsOn hash_at) inputs
      → All Uniform groups
      → All Uniform (group_by_seq inputs groups)
  unfolding group_by_seq
  group_by_seq-Uniform [] groups h u = u
  group_by_seq-Uniform (i ∷ is) groups (h, hs) u =
      let before = members (lookup i.seq groups) in
      group_by_seq-Uniform is (insert i.seq (before ++ i ∷ []) groups) hs (
        Uniform-insert i.seq (before ++ i ∷ []) groups
          (All-snoc (hash_at i.seq) before i (Uniform-lookup i.seq groups u) h) u)

one_hash :
    (h : String) (group : List DivergenceInput)
    → All (λ (x : DivergenceInput). x.hash ≡ h) group
    → distinct_hashes (h ∷ []) group ≡ h ∷ []
unfolding distinct_hashes
one_hash h [] a = refl
one_hash h (x ∷ group) a = rw (a.0, (eq_iff h h).1 refl) (one_hash h group a.1)

few_hashes :
    (h : String) (group : List DivergenceInput)
    → All (λ (x : DivergenceInput). x.hash ≡ h) group
    → length (sorted_hashes group) ≤ 1
unfolding sorted_hashes distinct_hashes
few_hashes h [] a = omega (arith, length-sort str_ltb [])
few_hashes h (x ∷ group) a = rw (length-sort, a.0, one_hash h group a.1) (omega arith)

report_all-Uniform :
    (hash_at : ℤ → String) (w : World) (i : ℕ) (gs : List Group) (o : DivergenceOracle)
    → All (Uniform hash_at) gs
    → report_all w i gs o ≡ (o, [])
unfolding report_all report
report_all-Uniform hash_at w i [] o u = refl
report_all-Uniform hash_at w i ((seq, group) ∷ gs) o u =
    rw (few (few_hashes (hash_at seq) group u.0))
      (rw (report_all-Uniform hash_at w (suc i) gs o u.1) refl)
  where
    few : length (sorted_hashes group) ≤ 1 → ltb (length (sorted_hashes group)) 2 ≡ true
    few l = ground (arith, l)

-- While every node reports the hashes of one chain, however far each has come, a tick makes no finding
-- and leaves the oracle as it is.
pub tick_agreeing :
    (hash_at : ℤ → String) (w : World) (inputs : List DivergenceInput) (o : DivergenceOracle)
    → All (IsOn hash_at) inputs
    → tick w inputs o ≡ (o, [])
unfolding tick
tick_agreeing hash_at w inputs o h =
    report_all-Uniform hash_at w 0 (group_by_seq inputs []) o
      (group_by_seq-Uniform hash_at inputs [] h tt)
