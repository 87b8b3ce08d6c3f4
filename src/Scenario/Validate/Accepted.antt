-- ===== src/Scenario/Validate/Accepted.antt =====
-- What scenario.Validate guarantees of a scenario that it accepts.
use Prim.Native.Nat.{◌^◌}
use xrpl_confluence.Prelude.{
  ℕ, ◌+◌, ◌≤◌, ◌<◌, String, ◌≡◌, ◌≢◌, ◌↔◌, ◌⊎◌, inl, inr, refl, Bool, true, false, ◌||◌, Option,
  List, [], ◌∷◌, ◌++◌, arith, length, All, ◌==◌, eq_of_==, string_eq, nat_eq, Bool-cases,
}
use xrpl_confluence.Prelude.Int.{
  wrap_int, ℤ, pos, negsuc, pos_part, neg_part, ◌+ℤ◌, ltb_ℤ, leb_ℤ, int_eq, beq_ℤ_iff,
}
use xrpl_confluence.Scenario.{ChaosEvent, Scenario}
use xrpl_confluence.Scenario.Words.{Go, Duration, nanoseconds, not_a_duration, is_empty}
use xrpl_confluence.Scenario.Report.{
  choice-empty, each_from, append-empty, invalid-≢[], refuse_if-empty, refuse_unless-empty,
  each_from-empty,
}
use xrpl_confluence.Scenario.Validate.{
  is_given, has_custom_config, total_errors, negative_errors, count_errors, workload_errors,
  is_named, custom_errors, budget_errors, duration_errors, stop_on_errors, stop_on_values,
  check_member, is_member, oracle_errors, oracle_names, validate,
}

-- A Go int.
abbrev pub IsInt : ℤ → Type 0
IsInt z = (pos_part z < 2 ^ 63) × (neg_part z ≤ 2 ^ 63)

abbrev pub NodeTotal : ℤ → ℤ → Type 0
NodeTotal r g = (m n : ℕ) × (r ≡ pos m) × (g ≡ pos n) × (2 ≤ m + n) × (m + n ≤ 10)

total_errors-empty :
    (t : ℤ) → (total_errors t ≡ []) ↔ ((ltb_ℤ t (pos 2) ≡ false) × (ltb_ℤ (pos 10) t ≡ false))
unfolding total_errors
total_errors-empty t = elim (Bool-cases (ltb_ℤ t (pos 2))) [
  | inl e ↦ rw (e) (λ q. absurd (invalid-≢[] _ _ _ q), λ q. absurd (cc))
  | inr e ↦ elim (Bool-cases (ltb_ℤ (pos 10) t)) [
    | inl f ↦ rw (e, f) (λ q. absurd (invalid-≢[] _ _ _ q), λ q. absurd (cc))
    | inr f ↦ rw (e, f) (λ q. (refl, refl), λ q. refl)
  ]
]

negative_errors-empty :
    (field : String) (c : ℤ) → (negative_errors field c ≡ []) ↔ (ltb_ℤ c (pos 0) ≡ false)
unfolding negative_errors
negative_errors-empty field c = refuse_if-empty _ _ _ _

sum_bounds :
    (m n : ℕ)
    → m < 2 ^ 63
    → n < 2 ^ 63
    → ltb_ℤ (wrap_int (pos m +ℤ pos n)) (pos 2) ≡ false
    → ltb_ℤ (pos 10) (wrap_int (pos m +ℤ pos n)) ≡ false
    → (2 ≤ m + n) × (m + n ≤ 10)
unfolding ◌+ℤ◌ wrap_int
sum_bounds m n hm hn a b = ground (arith, hm, hn, a, b)

int_bounds :
    (r g : ℤ)
    → IsInt r
    → IsInt g
    → ltb_ℤ r (pos 0) ≡ false
    → ltb_ℤ g (pos 0) ≡ false
    → ltb_ℤ (wrap_int (r +ℤ g)) (pos 2) ≡ false
    → ltb_ℤ (pos 10) (wrap_int (r +ℤ g)) ≡ false
    → NodeTotal r g
int_bounds (pos m) (pos n) hr hg a b c d =
    let (low, high) = sum_bounds m n hr.0 hg.0 c d in (m, n, refl, refl, low, high)
int_bounds (pos m) (negsuc n) hr hg a b c d = absurd (ground (arith, b))
int_bounds (negsuc m) g hr hg a b c d = absurd (ground (arith, a))

-- Where the guards on the counts accept two Go ints, they are not negative and their sum, which does not
-- wrap around then, is from 2 to 10.
count_errors-accepts : (r g : ℤ) → IsInt r → IsInt g → count_errors r g ≡ [] → NodeTotal r g
unfolding count_errors
count_errors-accepts r g hr hg h =
    let minus_r = negative_errors "topology.rippled.count" r in
    let minus_g = negative_errors "topology.goxrpl.count" g in
    let total = total_errors (wrap_int (r +ℤ g)) in
    let (h', c) = (append-empty (minus_r ++ minus_g) total).0 h in
    let (a, b) = (append-empty minus_r minus_g).0 h' in
    let (d, e) = (total_errors-empty (wrap_int (r +ℤ g))).0 c in
    int_bounds r g hr hg ((negative_errors-empty _ r).0 a) ((negative_errors-empty _ g).0 b) d e

-- The kinds of workload that are accepted.
abbrev pub IsLaunchable : String → List ChaosEvent → Option String → Type 0
IsLaunchable kind schedule reproducer =
    (kind ≡ "soak")
    ⊎ (kind ≡ "none")
    ⊎ ((kind ≡ "fuzz") × (schedule ≢ []))
    ⊎ ((kind ≡ "replay") × (is_named reproducer ≡ true))

scheduled : (es : List ChaosEvent) → (length es == 0) ≡ false → es ≢ []
scheduled [] h e = absurd (cc)
scheduled (x ∷ es) h e = absurd (cc)

workload_errors-accepts :
    (go : Go) (kind : String) (schedule : List ChaosEvent) (reproducer : Option String)
    → workload_errors go kind schedule reproducer ≡ []
    → IsLaunchable kind schedule reproducer
unfolding workload_errors
workload_errors-accepts go kind schedule reproducer h =
    elim (choice-empty (kind == "soak" || kind == "none") _ _ h) [
      | inl (q, e) ↦ elim (Bool-cases (kind == "soak")) [
        | inl r ↦ inl (eq_of_== kind "soak" r)
        | inr r ↦ inr (inl (eq_of_== kind "none" (ground (arith, q, r))))
      ]
      | inr (q, h1) ↦ elim (choice-empty (kind == "fuzz") _ _ h1) [
        | inl (r, e) ↦
            inr (
              inr
                (inl (eq_of_== kind "fuzz" r, scheduled schedule ((refuse_if-empty _ _ _ _).0 e))))
        | inr (r, h2) ↦ elim (choice-empty (kind == "shrink") _ _ h2) [
          | inl (t, e) ↦ absurd (invalid-≢[] _ _ _ e)
          | inr (t, h3) ↦ elim (choice-empty (kind == "replay") _ _ h3) [
            | inl (u, e) ↦
                inr (inr (inr (eq_of_== kind "replay" u, (refuse_unless-empty _ _ _ _).0 e)))
            | inr (u, h4) ↦ elim (choice-empty (kind == "") _ _ h4) [
              | inl (v, e) ↦ absurd (invalid-≢[] _ _ _ e)
              | inr (v, e) ↦ absurd (invalid-≢[] _ _ _ e)
            ]
          ]
        ]
      ]
    ]

duration_errors-accepts :
    (d : Duration)
    → duration_errors d ≡ []
    → (n : ℤ) × (d ≡ nanoseconds n) × (leb_ℤ n (pos 0) ≡ false)
unfolding duration_errors
duration_errors-accepts (nanoseconds n) h = (n, refl, (refuse_if-empty _ _ _ _).0 h)
duration_errors-accepts (not_a_duration err) h = absurd (invalid-≢[] _ _ _ h)

-- A run ends: its duration is positive, unless it has neither a workload nor a duration.
abbrev pub IsBudgeted : Go → String → String → Type 0
IsBudgeted go kind duration =
    ((kind ≡ "none") × (is_empty duration ≡ true))
    ⊎ ((n : ℤ) × (go.parse_duration duration ≡ nanoseconds n) × (leb_ℤ n (pos 0) ≡ false))

budget_errors-accepts :
    (go : Go) (kind duration : String)
    → budget_errors go kind duration ≡ []
    → IsBudgeted go kind duration
unfolding budget_errors
budget_errors-accepts go kind duration h = elim (choice-empty (is_empty duration) _ _ h) [
  | inl (q, e) ↦
      let r = (refuse_if-empty _ _ _ _).0 e in
      inl (ground (arith, r, string_eq.beq_iff kind "none"), q)
  | inr (q, e) ↦ inr (duration_errors-accepts (go.parse_duration duration) e)
]

-- Custom genesis settings or configuration only where no workload runs and no go-xrpl node.
abbrev pub IsCustomAlone : Bool → Bool → String → ℤ → Type 0
IsCustomAlone network config kind goxrpl =
    (network || config) ≡ true → (kind ≡ "none") × (goxrpl ≡ pos 0)

custom_errors-accepts :
    (network config : Bool) (kind : String) (goxrpl : ℤ)
    → custom_errors network config kind goxrpl ≡ []
    → IsCustomAlone network config kind goxrpl
unfolding custom_errors
custom_errors-accepts network config kind goxrpl h c =
    let (a, b) = (append-empty _ _).0 h in
    let a' = (refuse_if-empty _ _ _ _).0 a in
    let b' = (refuse_if-empty _ _ _ _).0 b in
    ground (arith, a', b', c, string_eq.beq_iff kind "none", beq_ℤ_iff goxrpl (pos 0))

members-accepts :
    (go : Go) (allowed : List String) (field message hint : String) (values : List String)
    → each_from (check_member go allowed field message hint) 0 values ≡ []
    → All (λ v. is_member v allowed ≡ true) values
unfolding check_member
members-accepts go allowed field message hint values h =
    (each_from-empty 0 values (λ j v. refuse_unless-empty _ _ _ _)).0 h

module _ {F : Type 0} where
  -- The nodes, the genesis settings, the workload, the budget and the names that a run relies on.
  abbrev pub IsRunnable : Go → Scenario F → Type 0
  IsRunnable go s =
      NodeTotal s.topology.rippled.count s.topology.goxrpl.count
      × IsCustomAlone (is_given s.network) (has_custom_config s.topology.rippled) s.workload.kind
          s.topology.goxrpl.count
      × IsLaunchable s.workload.kind s.schedule s.workload.reproducer
      × IsBudgeted go s.workload.kind s.budget.duration
      × All (λ v. is_member v stop_on_values ≡ true) s.budget.stop_on
      × All (λ v. is_member v oracle_names ≡ true) s.oracles

  -- A scenario with Go ints for counts that Validate accepts has from 2 to 10 nodes and no negative
  -- count, has custom genesis settings or configuration only without a workload and without go-xrpl
  -- nodes, a workload of kind soak, none, fuzz with a schedule or replay with a reproducer, a positive
  -- duration unless it is of kind none without one, and known stop_on values and oracles only.
  pub validate-IsRunnable :
      (go : Go) (s : Scenario F)
      → IsInt s.topology.rippled.count
      → IsInt s.topology.goxrpl.count
      → validate go s ≡ []
      → IsRunnable go s
  unfolding validate stop_on_errors oracle_errors
  validate-IsRunnable go s hr hg h =
      let (h11, p12) = (append-empty _ _).0 h in
      let (h10, p11) = (append-empty _ _).0 h11 in
      let (h9, p10) = (append-empty _ _).0 h10 in
      let (h8, p9) = (append-empty _ _).0 h9 in
      let (h7, p8) = (append-empty _ _).0 h8 in
      let (h6, p7) = (append-empty _ _).0 h7 in
      let (h5, p6) = (append-empty _ _).0 h6 in
      let (h4, p5) = (append-empty _ _).0 h5 in
      let (h3, p4) = (append-empty _ _).0 h4 in
      let (h2, p3) = (append-empty _ _).0 h3 in
      (
        count_errors-accepts s.topology.rippled.count s.topology.goxrpl.count hr hg p3,
        custom_errors-accepts (is_given s.network) (has_custom_config s.topology.rippled)
            s.workload.kind s.topology.goxrpl.count p7,
        workload_errors-accepts go s.workload.kind s.schedule s.workload.reproducer p8,
        budget_errors-accepts go s.workload.kind s.budget.duration p9,
        members-accepts go stop_on_values _ _ _ s.budget.stop_on p10,
        members-accepts go oracle_names _ _ _ s.oracles p11,
      )

  pub validate-IsLaunchable :
      (go : Go) (s : Scenario F)
      → validate go s ≡ []
      → IsLaunchable s.workload.kind s.schedule s.workload.reproducer
  unfolding validate
  validate-IsLaunchable go s h =
      let (h11, p12) = (append-empty _ _).0 h in
      let (h10, p11) = (append-empty _ _).0 h11 in
      let (h9, p10) = (append-empty _ _).0 h10 in
      let (h8, p9) = (append-empty _ _).0 h9 in
      let (h7, p8) = (append-empty _ _).0 h8 in
      workload_errors-accepts go s.workload.kind s.schedule s.workload.reproducer p8
