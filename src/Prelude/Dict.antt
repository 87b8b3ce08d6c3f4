-- ===== src/Prelude/Dict.antt =====
-- Go's maps, as association lists with one entry for a key. `insert` is `m[k] = v`, `erase` is
-- `delete(m, k)`, `lookup` is `v, ok := m[k]`. A loop over a map goes through `entries` in the order
-- of the list; Go's order is arbitrary, so results are stated of the entries and not of their order.
use mathlib.Core.Path.{◌≡◌, refl, subst}
use mathlib.Core.Logic.{inl, inr}
use mathlib.Core.Bool.{Bool}
use mathlib.Core.Option.{Option, none, some}
use mathlib.Core.List.{List, [], ◌∷◌}
use native.Mathlib.Omega.{arith}
use xrpl_confluence.Prelude.Tests.{if◌then◌else◌, Eq, ◌==◌, ==_refl, Bool-cases}
use xrpl_confluence.Prelude.Lists.{All}

abbrev pub Dict {ℓ κ} : Type ℓ → Type κ → Type (ℓ ⊔ κ)
Dict K V = List (K × V)

module _ {ℓ κ} {K : Type ℓ} {V : Type κ} ⦃e : Eq K⦄ where
  unfoldable pub lookup : K → Dict K V → Option V
  lookup key [] = none
  lookup key ((k, v) ∷ rest) = if k == key then some v else lookup key rest

  unfoldable pub erase : K → Dict K V → Dict K V
  erase key [] = []
  erase key ((k, w) ∷ m) = let rest = erase key m in if k == key then rest else (k, w) ∷ rest

  unfoldable pub insert : K → V → Dict K V → Dict K V
  insert key v [] = (key, v) ∷ []
  insert key v ((k, old) ∷ m) = if k == key then (key, v) ∷ m else (k, old) ∷ insert key v m

  pub lookup-insert :
      (key asked : K) (new : V) (dict : Dict K V)
      → lookup asked (insert key new dict) ≡ (if key == asked then some new else lookup asked dict)
  unfolding lookup insert
  lookup-insert key asked new [] = refl
  lookup-insert key asked new ((i, w) ∷ rest) = ground (
    arith,
    e.beq_iff key asked,
    e.beq_iff i key,
    e.beq_iff i asked,
    lookup-insert key asked new rest,
  )

  pub lookup-erase :
      (k j : K) (m : Dict K V) → lookup j (erase k m) ≡ (if k == j then none else lookup j m)
  unfolding lookup erase
  lookup-erase k j [] = ground arith
  lookup-erase k j ((i, w) ∷ m) =
      ground (arith, e.beq_iff k j, e.beq_iff i k, e.beq_iff i j, lookup-erase k j m)

  pub lookup-insert_self : (k : K) (v : V) (m : Dict K V) → lookup k (insert k v m) ≡ some v
  lookup-insert_self k v m = simp (lookup-insert, ==_refl)

  -- The entries whose keys pass a test.
  unfoldable pub keep_keys : (K → Bool) → Dict K V → Dict K V
  keep_keys p [] = []
  keep_keys p ((j, w) ∷ m) = if p j then (j, w) ∷ keep_keys p m else keep_keys p m

  pub lookup-keep_keys :
      (p : K → Bool) (k : K) (m : Dict K V)
      → lookup k (keep_keys p m) ≡ (if p k then lookup k m else none)
  unfolding lookup keep_keys
  lookup-keep_keys p k [] = ground arith
  lookup-keep_keys p k ((j, w) ∷ m) = ground (arith, e.beq_iff j k, lookup-keep_keys p k m)

module _ {ℓ κ μ} {K : Type ℓ} {V : Type κ} {W : Type μ} ⦃e : Eq K⦄ where
  -- Every value rewritten: `for k, v := range m { m[k] = f(v) }`.
  unfoldable pub map_values : (V → W) → Dict K V → Dict K W
  map_values f [] = []
  map_values f ((k, v) ∷ m) = (k, f v) ∷ map_values f m

  pub lookup-map_values :
      (f : V → W) (k : K) (m : Dict K V)
      → lookup k (map_values f m) ≡ elim (lookup k m) [ none ↦ none | some v ↦ some (f v) ]
  unfolding lookup map_values
  lookup-map_values f k [] = refl
  lookup-map_values f k ((j, v) ∷ m) = ground (arith, lookup-map_values f k m)

pub ruleset dict_laws = (lookup-insert, lookup-erase)

module _ {ℓ κ} {K : Type ℓ} {V : Type κ} ⦃e : Eq K⦄ where
  -- One entry for a key.
  abbrev pub IsMap : Dict K V → Type κ
  IsMap [] = Unit
  IsMap ((k, v) ∷ m) = (lookup k m ≡ none) × IsMap m

  pub insert-IsMap : (k : K) (v : V) (m : Dict K V) → IsMap m → IsMap (insert k v m)
  unfolding insert lookup
  insert-IsMap k v [] i = (refl, tt)
  insert-IsMap k v ((j, w) ∷ m) (n, i) = elim (Bool-cases (j == k)) [
    | inl q ↦ rw (q) (subst (λ x. lookup x m ≡ none) ((e.beq_iff j k).0 q) n, i)
    | inr q ↦ rw (q) (
      ground (arith, lookup-insert k j v m, e.beq_iff k j, e.beq_iff j k, n),
      insert-IsMap k v m i,
    )
  ]

  lookup-cons_All :
      (k : K) (v : V) (m rest : Dict K V)
      → lookup k m ≡ none
      → All (λ x. lookup x.0 m ≡ some x.1) rest
      → All (λ x. lookup x.0 ((k, v) ∷ m) ≡ some x.1) rest
  unfolding lookup
  lookup-cons_All k v m [] n a = tt
  lookup-cons_All k v m ((j, w) ∷ rest) n (f, a) =
      (ground (arith, e.beq_iff k j, n, f), lookup-cons_All k v m rest n a)

  -- Each entry of a map is found.
  pub lookup-All : (m : Dict K V) → IsMap m → All (λ x. lookup x.0 m ≡ some x.1) m
  unfolding lookup
  lookup-All [] i = tt
  lookup-All ((k, v) ∷ m) (n, i) =
      (ground (arith, ==_refl k), lookup-cons_All k v m m n (lookup-All m i))
