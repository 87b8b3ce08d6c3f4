-- ===== src/Scenario/Report.antt =====
-- The list of errors that scenario.Validate of sidecar/internal/scenario/validate.go builds: `add` appends
-- one, and the loops over slices name the place of the entry.
use xrpl_confluence.Prelude.{
  ℕ, suc, String, ◌≡◌, ◌≢◌, ◌↔◌, ◌⊎◌, inl, inr, refl, Bool, true, false, not, List, [], ◌∷◌, ◌++◌,
  arith, if◌then◌else◌, All,
}
use Prim.Native.String.{◌++◌ as str_append}
use xrpl_confluence.Prelude.Show.{decimal}
use xrpl_confluence.Scenario.{Error}

pub invalid : String → String → String → List Error
invalid field message hint =
    record { code = "scenario_invalid"; message = message; field = field; hint = hint } ∷ []

-- fmt.Sprintf("%s[%d]", field, i)
unfoldable pub entry_field : String → ℕ → String
unfolding decimal
entry_field field i = str_append field (str_append "[" (str_append (decimal i) "]"))

-- An error under a condition.
unfoldable pub refuse_if : Bool → List Error → List Error
refuse_if c errs = if c then errs else []

-- for i, x := range xs
unfoldable pub each_from {ℓ} : {A : Type ℓ} → (ℕ → A → List Error) → ℕ → List A → List Error
each_from check i [] = []
each_from check i (x ∷ xs) = check i x ++ each_from check (suc i) xs

pub append-empty : (xs ys : List Error) → (xs ++ ys ≡ []) ↔ ((xs ≡ []) × (ys ≡ []))
append-empty [] ys = ground arith
append-empty (x ∷ xs) ys = ground arith

pub invalid-≢[] : (field message hint : String) → invalid field message hint ≢ []
unfolding invalid
invalid-≢[] field message hint = λ e. cc

pub refuse_if-empty :
    (c : Bool) (field message hint : String)
    → (refuse_if c (invalid field message hint) ≡ []) ↔ (c ≡ false)
unfolding refuse_if
refuse_if-empty c field message hint = ground (arith, invalid-≢[] field message hint)

pub refuse_unless-empty :
    (b : Bool) (field message hint : String)
    → (refuse_if (not b) (invalid field message hint) ≡ []) ↔ (b ≡ true)
unfolding refuse_if
refuse_unless-empty b field message hint = ground (arith, invalid-≢[] field message hint)

-- A choice that reports nothing takes one branch, which reports nothing.
pub choice-empty :
    (c : Bool) (xs ys : List Error)
    → (if c then xs else ys) ≡ []
    → ((c ≡ true) × (xs ≡ [])) ⊎ ((c ≡ false) × (ys ≡ []))
choice-empty true xs ys h = inl (refl, h)
choice-empty false xs ys h = inr (refl, h)

-- A loop reports nothing exactly when it reports nothing at any entry, where the check does not
-- depend on the place.
pub each_from-empty {ℓ κ} :
    {A : Type ℓ} {P : A → Type κ} {check : ℕ → A → List Error} (i : ℕ) (xs : List A)
    → ((j : ℕ) (x : A) → (check j x ≡ []) ↔ P x)
    → (each_from check i xs ≡ []) ↔ All P xs
unfolding each_from
each_from-empty i [] h = (λ e. tt, λ a. refl)
each_from-empty {check} i (x ∷ xs) h = (
  (λ e.
      let (p, q) = (append-empty (check i x) (each_from check (suc i) xs)).0 e in
      ((h i x).0 p, (each_from-empty (suc i) xs h).0 q)),
  (λ (p, q).
      (append-empty (check i x) (each_from check (suc i) xs)).1
        (((h i x).1 p, (each_from-empty (suc i) xs h).1 q))),
)
