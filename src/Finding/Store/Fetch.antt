-- ===== src/Finding/Store/Fetch.antt =====
-- GetByID and UpdateReproducer of finding.Store, under the exact index.
use xrpl_confluence.Prelude.{
  Bool, true, false, any, Bool-cases, ℕ, zero, suc, String, ◌≡◌, ◌≢◌, refl, sym, ap, ◌∙◌, Option,
  none, some, List, [], ◌∷◌, arith, if◌then◌else◌, ◌==◌, string_eq, length, get_elem?, Option-cases,
  inl, inr,
}
use text.Mathlib.TextEquality.{eq_iff}
use xrpl_confluence.Prelude.Dict.{lookup}
use xrpl_confluence.Finding.{Finding, Reproducer}
use xrpl_confluence.Finding.Store.{
  Store, update_reproducer, set_reproducer, get_by_id, fetch, Fetched, found, missing, panics,
}
use xrpl_confluence.Finding.Store.Index.{IsIndexed, id_at}

pub fetch-id_at :
    (fs : List Finding) (id : String) (i : ℕ)
    → id_at fs i ≡ some id
    → (f : Finding) × (get_elem? fs i ≡ some f) × (f.id ≡ id)
fetch-id_at [] id i h = absurd (cc)
fetch-id_at (f ∷ fs) id zero h = (f, refl, ground arith)
fetch-id_at (f ∷ fs) id (suc i) h = fetch-id_at fs id i h

-- Whether a finding with the id is among them.
abbrev pub holds : String → List Finding → Bool
holds id = any (λ f. f.id == id)

holds-id_at : (fs : List Finding) (id : String) (i : ℕ) → id_at fs i ≡ some id → holds id fs ≡ true
holds-id_at [] id i h = absurd (cc)
holds-id_at (f ∷ fs) id zero h = ground (arith, h, eq_iff f.id id)
holds-id_at (f ∷ fs) id (suc i) h = ground (arith, holds-id_at fs id i h)

holds_not :
    (fs : List Finding) (id : String) → ((i : ℕ) → id_at fs i ≢ some id) → holds id fs ≡ false
holds_not [] id h = refl
holds_not (f ∷ fs) id h = elim (Bool-cases (f.id == id)) [
  | inl e ↦ absurd (h 0 (ap some ((eq_iff f.id id).0 e)))
  | inr e ↦ ground (arith, e, holds_not fs id (λ i. h (suc i)))
]

-- What GetByID may answer: nothing where no finding has the id, or a finding with that id.
abbrev pub Answers : String → List Finding → Fetched → Type 0
Answers id fs missing = (i : ℕ) → id_at fs i ≢ some id
Answers id fs (found f) = (f.id ≡ id) × ((i : ℕ) × (get_elem? fs i ≡ some f))
Answers id fs panics = ⊥

module _ {W : Type 0} where
  fetch_lem :
      (s : Store W) (id : String) (r : Option ℕ)
      → IsIndexed s
      → lookup id s.by_id ≡ r
      → Answers id s.findings (fetch s.findings r)
  unfolding fetch
  fetch_lem s id none v e = λ i h. cc (v.back id i h)
  fetch_lem s id (some i) v e =
      let (f, got, named) = fetch-id_at s.findings id i (v.forth id i e) in
      rw (Answers, got) (named, (i, got))

  -- GetByID never indexes out of range. It answers nothing only if no finding held has the id, and
  -- else a finding held that has the id.
  pub get_by_id-Answers :
      (s : Store W) (id : String) → IsIndexed s → Answers id s.findings (get_by_id id s)
  unfolding get_by_id
  get_by_id-Answers s id v = fetch_lem s id (lookup id s.by_id) v refl

module _ (r : Option Reproducer) where
  set_reproducer-id_at :
      (fs : List Finding) (i j : ℕ) → id_at (set_reproducer r fs i) j ≡ id_at fs j
  unfolding set_reproducer
  set_reproducer-id_at [] i j = refl
  set_reproducer-id_at (f ∷ fs) zero zero = refl
  set_reproducer-id_at (f ∷ fs) zero (suc j) = refl
  set_reproducer-id_at (f ∷ fs) (suc i) zero = refl
  set_reproducer-id_at (f ∷ fs) (suc i) (suc j) = set_reproducer-id_at fs i j

  length-set_reproducer : (fs : List Finding) (i : ℕ) → length (set_reproducer r fs i) ≡ length fs
  unfolding set_reproducer
  length-set_reproducer [] i = refl
  length-set_reproducer (f ∷ fs) zero = refl
  length-set_reproducer (f ∷ fs) (suc i) = ap suc (length-set_reproducer fs i)

  get_elem?-set_reproducer :
      (fs : List Finding) (i : ℕ) (f : Finding)
      → get_elem? fs i ≡ some f
      → get_elem? (set_reproducer r fs i) i ≡ some (record f { reproducer = r })
  unfolding set_reproducer
  get_elem?-set_reproducer [] i f h = absurd (cc)
  get_elem?-set_reproducer (x ∷ fs) zero f h = ground arith
  get_elem?-set_reproducer (x ∷ fs) (suc i) f h = get_elem?-set_reproducer fs i f h

  get_elem?-set_reproducer_ne :
      (fs : List Finding) (i j : ℕ) → i ≢ j → get_elem? (set_reproducer r fs i) j ≡ get_elem? fs j
  unfolding set_reproducer
  get_elem?-set_reproducer_ne [] i j h = refl
  get_elem?-set_reproducer_ne (x ∷ fs) zero zero h = absurd (h refl)
  get_elem?-set_reproducer_ne (x ∷ fs) zero (suc j) h = refl
  get_elem?-set_reproducer_ne (x ∷ fs) (suc i) zero h = refl
  get_elem?-set_reproducer_ne (x ∷ fs) (suc i) (suc j) h =
      get_elem?-set_reproducer_ne fs i j (λ e. h (ap suc e))

  -- What GetByID answers after UpdateReproducer.
  abbrev pub updated : Fetched → Fetched
  updated (found f) = found (record f { reproducer = r })
  updated missing = missing
  updated panics = panics

  module _ {W : Type 0} where
    -- UpdateReproducer keeps the index exact.
    pub update_reproducer-IsIndexed :
        (id : String) (s : Store W) → IsIndexed s → IsIndexed (update_reproducer id r s).0
    unfolding update_reproducer
    update_reproducer-IsIndexed id s v = elim (Option-cases (lookup id s.by_id)) [
      | inl e ↦ rw (e, update_reproducer) v
      | inr (idx, e) ↦
          rw (e, update_reproducer)
            record {
              within = rw (length-set_reproducer s.findings idx) v.within;
              forth = λ j i h. set_reproducer-id_at s.findings idx i ∙ v.forth j i h;
              back = λ j i h. v.back j i (sym (set_reproducer-id_at s.findings idx i) ∙ h);
            }
    ]

    updated_lem :
        (id j : String) (s : Store W)
        → IsIndexed s
        → get_by_id j (update_reproducer id r s).0
          ≡ (if id == j then updated (get_by_id j s) else get_by_id j s)
    unfolding get_by_id update_reproducer
    updated_lem id j s v = elim (Option-cases (lookup id s.by_id)) [
      | inl e ↦ rw (e, update_reproducer) (unfold fetch in ground (arith, e, eq_iff id j))
      | inr (idx, e) ↦
          rw (e, update_reproducer)
            (elim (Option-cases (lookup j s.by_id)) [
              | inl e' ↦ unfold fetch in ground (arith, e', eq_iff id j)
              | inr (i, e') ↦
                  let (f, got, named) = fetch-id_at s.findings j i (v.forth j i e') in
                  unfold fetch in
                  ground (
                    arith,
                    e,
                    e',
                    got,
                    eq_iff id j,
                    v.forth id idx e,
                    v.forth j i e',
                    get_elem?-set_reproducer s.findings i f got,
                    get_elem?-set_reproducer_ne s.findings idx i,
                  )
            ])
    ]

    update_reproducer-holds :
        (id : String) (s : Store W)
        → IsIndexed s
        → (update_reproducer id r s).1 ≡ holds id s.findings
    unfolding update_reproducer
    update_reproducer-holds id s v = elim (Option-cases (lookup id s.by_id)) [
      | inl e ↦
          rw (update_reproducer, e) (sym (holds_not s.findings id (λ i h. cc (v.back id i h))))
      | inr (i, e) ↦ rw (update_reproducer, e) (sym (holds-id_at s.findings id i (v.forth id i e)))
    ]

    -- In a store with an exact index, UpdateReproducer returns whether a finding with the id is held; that
    -- finding then has the reproducer, and every other id is answered as before.
    pub get_by_id-update_reproducer :
        (id j : String) (s : Store W)
        → IsIndexed s
        → ((update_reproducer id r s).1 ≡ holds id s.findings)
          × (get_by_id j (update_reproducer id r s).0
              ≡ (if id == j then updated (get_by_id j s) else get_by_id j s))
    get_by_id-update_reproducer id j s v = (update_reproducer-holds id s v, updated_lem id j s v)
