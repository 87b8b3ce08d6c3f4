-- ===== src/Scenario/Compile/Suites.antt =====
-- Which test suite scenario.Compile launches, and with what arguments.
use xrpl_confluence.Prelude.{
  String, ◌≡◌, ◌≢◌, ◌⊎◌, inl, inr, refl, ap, subst, ◌∙◌, All, any, Bool, true, false, not, Option,
  none, some, List, [], ◌∷◌, arith, length, ◌==◌, string_eq, nat_eq,
}
use xrpl_confluence.Prelude.Dict.{Dict, lookup, insert, lookup-insert}
use xrpl_confluence.Scenario.{ChaosEvent, Scenario}
use xrpl_confluence.Scenario.Words.{Go}
use xrpl_confluence.Scenario.Validate.{validate}
use xrpl_confluence.Scenario.Validate.Accepted.{validate-IsLaunchable}
use xrpl_confluence.Scenario.Compile.{
  Value, scalar, text, number, object, put, base_args, work_args, Json, bytes, compile,
  compile_checked, compile_kind, finish_chaos, workload_to_test_suite,
}

lookup-put :
    {V : Type 0} (k j : String) (o : Option V) (d : Dict String V)
    → (k == j) ≡ false
    → lookup j (put k o d) ≡ lookup j d
unfolding put
lookup-put k j none d h = refl
lookup-put k j (some v) d h = ground (arith, h, lookup-insert k j v d)

All-of_any : (p : String → Bool) (xs : List String) → any p xs ≡ false → All (λ x. p x ≡ false) xs
All-of_any p [] h = tt
All-of_any p (x ∷ xs) h = (ground (arith, h), All-of_any p xs (ground (arith, h)))

-- The keys that `base_args` may add to its first three.
abbrev optional_keys : List String
optional_keys =
    "sidecar_image" ∷ "enable_control" ∷ "enable_dashboard" ∷ "network_config" ∷ "rippled_nodes"
    ∷ "rippled_config" ∷ "rippled_entrypoint" ∷ "goxrpl_image" ∷ "rippled_image" ∷ []

has_schedule : (es : List ChaosEvent) → es ≢ [] → not (length es == 0) ≡ true
has_schedule [] h = absurd (h refl)
has_schedule (e ∷ es) h = ground arith

abbrev suite_of : {F : Type 0} → Scenario F → String
suite_of s = workload_to_test_suite s.workload.kind (not (length s.schedule == 0))

module _ {F : Type 0} where
  required : Scenario F → Dict String (Value F)
  required s =
      ("test_suite", scalar (text (suite_of s)))
      ∷ ("goxrpl_count", scalar (number s.topology.goxrpl.count))
      ∷ ("rippled_count", scalar (number s.topology.rippled.count))
      ∷ []

  base_args-lookup :
      (s : Scenario F) (j : String)
      → any (λ k. k == j) optional_keys ≡ false
      → lookup j (base_args s) ≡ lookup j (required s)
  unfolding base_args required
  base_args-lookup s j h =
      let (h1, (h2, (h3, (h4, (h5, (h6, (h7, (h8, (h9, u))))))))) =
        All-of_any (λ k. k == j) optional_keys h in
      lookup-put "sidecar_image" j _ _ h1
      ∙ lookup-put "enable_control" j _ _ h2
      ∙ lookup-put "enable_dashboard" j _ _ h3
      ∙ lookup-put "network_config" j _ _ h4
      ∙ lookup-put "rippled_nodes" j _ _ h5
      ∙ lookup-put "rippled_config" j _ _ h6
      ∙ lookup-put "rippled_entrypoint" j _ _ h7
      ∙ lookup-put "goxrpl_image" j _ _ h8
      ∙ lookup-put "rippled_image" j _ _ h9

  -- The nodes and the suite that the arguments name, and the arguments of the suites.
  abbrev pub Names :
      Dict String (Value F) → Scenario F → String → Option (Value F) → Option (Value F) → Type 0
  Names out s suite soak chaos =
      (lookup "test_suite" out ≡ some (scalar (text suite)))
      × (lookup "rippled_count" out ≡ some (scalar (number s.topology.rippled.count)))
      × (lookup "goxrpl_count" out ≡ some (scalar (number s.topology.goxrpl.count)))
      × (lookup "soak_args" out ≡ soak)
      × (lookup "chaos_args" out ≡ chaos)

  base_args-Names : (s : Scenario F) → Names (base_args s) s (suite_of s) none none
  unfolding required lookup
  base_args-Names s = (
    base_args-lookup s "test_suite" refl,
    base_args-lookup s "rippled_count" refl,
    base_args-lookup s "goxrpl_count" refl,
    base_args-lookup s "soak_args" refl,
    base_args-lookup s "chaos_args" refl,
  )

  with_soak : Scenario F → Dict String (Value F)
  with_soak s = insert "soak_args" (object (work_args s)) (base_args s)

  with_chaos : Scenario F → String → Dict String (Value F)
  with_chaos s schedule =
      insert "chaos_args" (object (("schedule", text schedule) ∷ work_args s)) (base_args s)

  with_soak-Names :
      (s : Scenario F) → Names (with_soak s) s (suite_of s) (some (object (work_args s))) none
  unfolding with_soak
  with_soak-Names s =
      let (a, b, c, d, e) = base_args-Names s in
      let soak = object (work_args s) in
      (
        lookup-insert "soak_args" "test_suite" soak (base_args s) ∙ a,
        lookup-insert "soak_args" "rippled_count" soak (base_args s) ∙ b,
        lookup-insert "soak_args" "goxrpl_count" soak (base_args s) ∙ c,
        lookup-insert "soak_args" "soak_args" soak (base_args s),
        lookup-insert "soak_args" "chaos_args" soak (base_args s) ∙ e,
      )

  with_chaos-Names :
      (s : Scenario F) (schedule : String)
      → Names
          (with_chaos s schedule)
          s
          (suite_of s)
          none
          (some (object (("schedule", text schedule) ∷ work_args s)))
  unfolding with_chaos
  with_chaos-Names s schedule =
      let (a, b, c, d, e) = base_args-Names s in
      let chaos = object (("schedule", text schedule) ∷ work_args s) in
      (
        lookup-insert "chaos_args" "test_suite" chaos (base_args s) ∙ a,
        lookup-insert "chaos_args" "rippled_count" chaos (base_args s) ∙ b,
        lookup-insert "chaos_args" "goxrpl_count" chaos (base_args s) ∙ c,
        lookup-insert "chaos_args" "soak_args" chaos (base_args s) ∙ d,
        lookup-insert "chaos_args" "chaos_args" chaos (base_args s),
      )

  -- The suite, by the workload's kind.
  abbrev pub Launches : Scenario F → String → Dict String (Value F) → Type 0
  Launches s schedule out =
      ((s.workload.kind ≡ "soak") × Names out s "soak" (some (object (work_args s))) none)
      ⊎ ((s.workload.kind ≡ "none") × Names out s "none" none none)
      ⊎ ((s.workload.kind ≡ "fuzz")
          × Names out s "chaos" none (some (object (("schedule", text schedule) ∷ work_args s))))

  suite_named :
      (s : Scenario F) (kind : String)
      → s.workload.kind ≡ kind
      → suite_of s ≡ workload_to_test_suite kind (not (length s.schedule == 0))
  suite_named s kind k = ap (λ n. workload_to_test_suite n (not (length s.schedule == 0))) k

  -- A valid scenario that is no replay, and whose schedule can be marshalled, is compiled to arguments that
  -- name its node counts and the suite of its workload: soak with soak_args only, none with neither
  -- arguments, or, for a fuzz workload, always chaos, with chaos_args that hold the schedule.
  pub compile-Launches :
      (go : Go) (json : Json F) (s : Scenario F) (schedule : String)
      → validate go s ≡ []
      → s.workload.kind ≢ "replay"
      → json.marshal_schedule s.schedule ≡ bytes schedule
      → (out : Dict String (Value F)) × (compile go json s ≡ json.marshal out)
        × Launches s schedule out
  unfolding compile compile_checked compile_kind finish_chaos with_chaos with_soak
      workload_to_test_suite
  compile-Launches go json s schedule v nr b = rw (v) (elim (validate-IsLaunchable go s v) [
    | inl k ↦ (
      with_soak s,
      ap (compile_kind json s) k,
      inl (
        k,
        subst (λ t. Names (with_soak s) s t (some (object (work_args s))) none)
            (suite_named s "soak" k) (with_soak-Names s),
      ),
    )
    | inr (inl k) ↦ (
      base_args s,
      ap (compile_kind json s) k,
      inr (
          inl (
            k,
            subst (λ t. Names (base_args s) s t none none) (suite_named s "none" k)
                (base_args-Names s),
          )),
    )
    | inr (inr (inl (k, e))) ↦ (
      with_chaos s schedule,
      ap (compile_kind json s) k ∙ ap (finish_chaos json s) b,
      inr (
          inr (
            k,
            subst
                (λ t.
                  Names (with_chaos s schedule) s t none
                    (some (object (("schedule", text schedule) ∷ work_args s))))
                (suite_named s "fuzz" k
                  ∙ ap (λ c. workload_to_test_suite "fuzz" c) (has_schedule s.schedule e))
                (with_chaos-Names s schedule),
          )),
    )
    | inr (inr (inr (k, e))) ↦ absurd (nr k)
  ])
