-- ===== src/Prelude/Sort.antt =====
-- A stable sort by a Boolean order (Go's sort.SliceStable; sort.Strings and sort.Slice where no two
-- items tie), and its laws.
use mathlib.Core.Path.{◌≡◌, refl, subst}
use mathlib.Core.Bool.{Bool, true, false}
use mathlib.Core.List.{List, [], ◌∷◌, Perm}
use mathlib.Core.List.Perm
use native.Mathlib.Omega.{arith}
use Prim.Native.Nat.{suc}
use xrpl_confluence.Prelude.Tests.{if◌then◌else◌, Bool-cases}
use mathlib.Core.Logic.{inl, inr}
use xrpl_confluence.Prelude.Lists.{All, length}

module _ {ℓ} {A : Type ℓ} where
  -- `less a b` never holds both ways, and its failure is transitive.
  pub record IsOrder (less : A → A → Bool) : Type ℓ where
    pub asym : (a b : A) → less a b ≡ true → less b a ≡ false
    pub steps : (a b c : A) → less b a ≡ false → less c b ≡ false → less c a ≡ false

  -- No item is less than one before it.
  abbrev pub IsSorted : (A → A → Bool) → List A → Type 0
  IsSorted less [] = Unit
  IsSorted less (x ∷ xs) = All (λ y. less y x ≡ false) xs × IsSorted less xs

  module _ (less : A → A → Bool) where
    unfoldable pub insert_sorted : A → List A → List A
    insert_sorted x [] = x ∷ []
    insert_sorted x (y ∷ ys) = if less y x then y ∷ insert_sorted x ys else x ∷ y ∷ ys

    unfoldable pub sort : List A → List A
    unfolding insert_sorted
    sort [] = []
    sort (x ∷ xs) = insert_sorted x (sort xs)

    insert_sorted-perm : (x : A) (xs : List A) → Perm (insert_sorted x xs) (x ∷ xs)
    unfolding insert_sorted
    insert_sorted-perm x [] = Perm.refl (x ∷ [])
    insert_sorted-perm x (y ∷ ys) = elim (Bool-cases (less y x)) [
      | inl e ↦ rw e (Perm.trans (Perm.cons y (insert_sorted-perm x ys)) (Perm.swap x y ys))
      | inr e ↦ rw e (Perm.refl (x ∷ y ∷ ys))
    ]

    pub sort-perm : (xs : List A) → Perm (sort xs) xs
    unfolding sort
    sort-perm [] = Perm.refl []
    sort-perm (x ∷ xs) = Perm.trans (insert_sorted-perm x (sort xs)) (Perm.cons x (sort-perm xs))

    insert_sorted-All {κ} :
        (P : A → Type κ) (x : A) (xs : List A) → P x → All P xs → All P (insert_sorted x xs)
    unfolding insert_sorted
    insert_sorted-All P x [] p h = (p, tt)
    insert_sorted-All P x (y ∷ ys) p h = elim (Bool-cases (less y x)) [
      | inl e ↦ rw e (h.0, insert_sorted-All P x ys p h.1)
      | inr e ↦ rw e (p, h)
    ]

    insert_sorted-All_inverse {κ} :
        (P : A → Type κ) (x : A) (xs : List A) → All P (insert_sorted x xs) → P x × All P xs
    unfolding insert_sorted
    insert_sorted-All_inverse P x [] h = h
    insert_sorted-All_inverse P x (y ∷ ys) h = elim (Bool-cases (less y x)) [
      | inl e ↦
          let h' : P y × All P (insert_sorted x ys) =
            subst (λ b. All P (if b then y ∷ insert_sorted x ys else x ∷ y ∷ ys)) e h in
          let (p, q) = insert_sorted-All_inverse P x ys h'.1 in (p, (h'.0, q))
      | inr e ↦ subst (λ b. All P (if b then y ∷ insert_sorted x ys else x ∷ y ∷ ys)) e h
    ]

    -- Sorting loses no item.
    pub sort-All_inverse {κ} : (P : A → Type κ) (xs : List A) → All P (sort xs) → All P xs
    unfolding sort
    sort-All_inverse P [] h = tt
    sort-All_inverse P (x ∷ xs) h =
        let (p, q) = insert_sorted-All_inverse P x (sort xs) h in (p, sort-All_inverse P xs q)

    pub sort-All {κ} : (P : A → Type κ) (xs : List A) → All P xs → All P (sort xs)
    unfolding sort
    sort-All P [] h = tt
    sort-All P (x ∷ xs) h = insert_sorted-All P x (sort xs) h.0 (sort-All P xs h.1)

    length-insert_sorted : (x : A) (xs : List A) → length (insert_sorted x xs) ≡ suc (length xs)
    unfolding insert_sorted
    length-insert_sorted x [] = refl
    length-insert_sorted x (y ∷ ys) = ground (arith, length-insert_sorted x ys)

    pub length-sort : (xs : List A) → length (sort xs) ≡ length xs
    unfolding sort
    length-sort [] = refl
    length-sort (x ∷ xs) = omega (arith, length-insert_sorted x (sort xs), length-sort xs)

    module _ (o : IsOrder less) where
      steps_All :
          (x y : A) (ys : List A)
          → less y x ≡ false
          → All (λ z. less z y ≡ false) ys
          → All (λ z. less z x ≡ false) ys
      steps_All x y [] h a = tt
      steps_All x y (z ∷ zs) h a = (o.steps x y z h a.0, steps_All x y zs h a.1)

      insert_sorted-IsSorted :
          (x : A) (xs : List A) → IsSorted less xs → IsSorted less (insert_sorted x xs)
      unfolding insert_sorted
      insert_sorted-IsSorted x [] s = (tt, tt)
      insert_sorted-IsSorted x (y ∷ ys) s = elim (Bool-cases (less y x)) [
        | inl e ↦ rw e (
          insert_sorted-All (λ z. less z y ≡ false) x ys (o.asym y x e) s.0,
          insert_sorted-IsSorted x ys s.1,
        )
        | inr e ↦ rw e ((e, steps_All x y ys e s.0), s)
      ]

      pub sort-IsSorted : (xs : List A) → IsSorted less (sort xs)
      unfolding sort
      sort-IsSorted [] = tt
      sort-IsSorted (x ∷ xs) = insert_sorted-IsSorted x (sort xs) (sort-IsSorted xs)
