-- ===== src/Finding/Store/Index.antt =====
-- The index of finding.Store agrees with its buffer.
use xrpl_confluence.Prelude.{
  ℕ, zero, suc, ◌-◌, ◌<◌, ◌≤◌, String, ◌≡◌, refl, Option, none, some, List, [], ◌∷◌, ◌++◌, arith,
  leb, if◌then◌else◌, string_eq, length, length-append, Bool-cases, inl, inr,
}
use xrpl_confluence.Prelude.Dict.{lookup, erase, lookup-insert, lookup-erase, lookup-map_values}
use xrpl_confluence.Finding.{Finding}
use xrpl_confluence.Finding.Store.{
  Store, max_capacity, store_finding, append, make_room, evict_oldest,
}

abbrev pub id_at : List Finding → ℕ → Option String
id_at [] i = none
id_at (f ∷ fs) zero = some f.id
id_at (f ∷ fs) (suc i) = id_at fs i

-- The buffer is within its capacity, and an id has an index exactly where the finding of that id is.
pub record IsIndexed {W : Type 0} (s : Store W) : Type 0 where
  pub within : length s.findings ≤ max_capacity
  pub forth : (id : String) (i : ℕ) → lookup id s.by_id ≡ some i → id_at s.findings i ≡ some id
  pub back : (id : String) (i : ℕ) → id_at s.findings i ≡ some id → lookup id s.by_id ≡ some i

id_at-append_last :
    (fs : List Finding) (f : Finding) (i : ℕ)
    → id_at (fs ++ f ∷ []) i ≡ (
        if leb (suc i) (length fs)
        then id_at fs i
        else if leb (suc (length fs)) i
        then none
        else some f.id)
id_at-append_last [] f zero = refl
id_at-append_last [] f (suc i) = ground arith
id_at-append_last (x ∷ fs) f zero = ground arith
id_at-append_last (x ∷ fs) f (suc i) = ground (arith, id_at-append_last fs f i)

id_at_bound : (fs : List Finding) (i : ℕ) (id : String) → id_at fs i ≡ some id → i < length fs
id_at_bound [] i id h = cc
id_at_bound (f ∷ fs) zero id h = omega arith
id_at_bound (f ∷ fs) (suc i) id h = omega (arith, id_at_bound fs i id h)

module _ {W : Type 0} where
  append-IsIndexed :
      (f : Finding) (s : Store W)
      → IsIndexed s
      → length s.findings < max_capacity
      → lookup f.id s.by_id ≡ none
      → IsIndexed (append f s)
  unfolding append
  append-IsIndexed f s v room fresh = record {
    within = omega (arith, length-append s.findings (f ∷ []));
    forth = λ id i h. ground (
      arith,
      id_at-append_last s.findings f i,
      lookup-insert f.id id (length s.findings) s.by_id,
      string_eq.beq_iff f.id id,
      v.forth id i,
      id_at_bound s.findings i id,
    );
    back = λ id i h. ground (
      arith,
      id_at-append_last s.findings f i,
      lookup-insert f.id id (length s.findings) s.by_id,
      string_eq.beq_iff f.id id,
      v.back id i,
      v.forth id i,
      id_at_bound s.findings i id,
    );
  }

  abbrev holding : Store W → List Finding → Store W
  holding s fs = record s { findings = fs }

  evict-IsIndexed :
      (o : Finding) (rest : List Finding) (s : Store W)
      → IsIndexed (holding s (o ∷ rest))
      → IsIndexed (evict_oldest (holding s (o ∷ rest)) (o ∷ rest))
  unfolding evict_oldest
  evict-IsIndexed o rest s v = record {
    within = let b = v.within in omega arith;
    forth = λ id i h. ground (
      arith,
      lookup-map_values (λ idx. idx - 1) id (erase o.id s.by_id),
      lookup-erase o.id id s.by_id,
      string_eq.beq_iff o.id id,
      v.forth id 0,
      v.forth id (suc i),
      v.forth id i,
    );
    back = λ id i h. ground (
      arith,
      lookup-map_values (λ idx. idx - 1) id (erase o.id s.by_id),
      lookup-erase o.id id s.by_id,
      string_eq.beq_iff o.id id,
      v.back id 0,
      v.back id (suc i),
    );
  }

  make_room-IsIndexed :
      (fs : List Finding) (s : Store W)
      → IsIndexed (holding s fs)
      → IsIndexed (make_room (holding s fs))
        × (length (make_room (holding s fs)).findings < max_capacity)
  unfolding make_room
  make_room-IsIndexed [] s v = (v, omega arith)
  make_room-IsIndexed (o ∷ rest) s v = elim (Bool-cases (leb max_capacity (suc (length rest)))) [
    | inl full ↦
        rw full (evict-IsIndexed o rest s v, unfold evict_oldest in ground (arith, v.within))
    | inr room ↦ rw room (v, ground arith)
  ]

  make_room_fresh :
      (fs : List Finding) (id : String) (s : Store W)
      → lookup id s.by_id ≡ none
      → lookup id (make_room (holding s fs)).by_id ≡ none
  unfolding make_room evict_oldest
  make_room_fresh [] id s fresh = fresh
  make_room_fresh (o ∷ rest) id s fresh = ground (
    arith,
    lookup-map_values (λ idx. idx - 1) id (erase o.id s.by_id),
    lookup-erase o.id id s.by_id,
  )

  -- Add keeps the index exact and the buffer within 1000 findings, if the id is not in the store.
  pub store_finding-IsIndexed :
      (f : Finding) (s : Store W)
      → IsIndexed s
      → lookup f.id s.by_id ≡ none
      → IsIndexed (store_finding f s)
  unfolding store_finding
  store_finding-IsIndexed f s v fresh =
      let (w, room) = make_room-IsIndexed s.findings s v in
      append-IsIndexed f (make_room s) w room (make_room_fresh s.findings f.id s fresh)
