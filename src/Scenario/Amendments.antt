-- ===== src/Scenario/Amendments.antt =====
-- validateAmendments and validateAmendmentOverlap of sidecar/internal/scenario/validate.go.
use Prim.Native.String.{◌++◌ as str_append}
use xrpl_confluence.Prelude.{
  ℕ, suc, String, ◌≡◌, ◌≢◌, ◌↔◌, inl, inr, refl, true, not, Option, none, some, List, [], ◌∷◌, ◌++◌,
  arith, All, Option-cases,
}
use xrpl_confluence.Prelude.Dict.{Dict, lookup, insert, lookup-insert}
use xrpl_confluence.Scenario.{Error, Amendment}
use xrpl_confluence.Scenario.Words.{
  Go, to_upper, codes_eq, codes_beq_iff, is_amendment_id, is_amendment_name,
}
use xrpl_confluence.Scenario.Report.{
  invalid, entry_field, refuse_if, append-empty, invalid-≢[], refuse_unless-empty, each_from,
  each_from-empty,
}

check_id : Go → String → ℕ → Amendment → List Error
check_id go field i a = refuse_if (not (is_amendment_id a.id)) (
    invalid (str_append (entry_field field i) ".id")
      (str_append "amendment id must be exactly 64 hexadecimal characters (got "
        (str_append (go.quote a.id) ")"))
      "use the amendment's 64-character SHA-512-half ID")

check_name : Go → String → ℕ → Amendment → List Error
check_name go field i a = refuse_if (not (is_amendment_name a.name)) (
    invalid (str_append (entry_field field i) ".name")
      (str_append "amendment name must contain only letters, digits, and underscores (got "
        (str_append (go.quote a.name) ")"))
      "use the rippled amendment name")

duplicate : String → ℕ → Option ℕ → List Error
duplicate field i none = []
duplicate field i (some prior) =
    invalid (str_append (entry_field field i) ".id")
      (str_append "amendment id duplicates " (entry_field field prior))
      "list each amendment ID once"

-- `seen[key] = i` where the key is new.
mark : List ℕ → ℕ → Dict (List ℕ) ℕ → Dict (List ℕ) ℕ
mark key i seen = elim (lookup key seen) [ none ↦ insert key i seen | some prior ↦ seen ]

amendments_from : Go → String → Dict (List ℕ) ℕ → ℕ → List Amendment → List Error
amendments_from go field seen i [] = []
amendments_from go field seen i (a ∷ ams) =
    let key = to_upper go a.id in
    check_id go field i a
    ++ check_name go field i a
    ++ duplicate field i (lookup key seen)
    ++ amendments_from go field (mark key i seen) (suc i) ams

pub validate_amendments : Go → String → Option (List Amendment) → List Error
unfolding amendments_from
validate_amendments go field none = []
validate_amendments go field (some ams) = amendments_from go field [] 0 ams

upvote_ids : Go → Dict (List ℕ) ℕ → ℕ → List Amendment → Dict (List ℕ) ℕ
upvote_ids go ids i [] = ids
upvote_ids go ids i (a ∷ ams) = upvote_ids go (insert (to_upper go a.id) i ids) (suc i) ams

pub overlap : ℕ → Option ℕ → List Error
overlap i none = []
overlap i (some prior) =
    invalid (str_append (entry_field "network.veto_amendments" i) ".id")
      (str_append "amendment id also appears in " (entry_field "network.amendments" prior))
      "an amendment cannot be both upvoted and vetoed"

unfoldable pub validate_amendment_overlap :
    Go → Option (List Amendment) → Option (List Amendment) → List Error
unfolding upvote_ids
validate_amendment_overlap go none vetoes = []
validate_amendment_overlap go (some ups) none = []
validate_amendment_overlap go (some ups) (some vetoes) =
    let ids = upvote_ids go [] 0 ups in
    each_from (λ i a. overlap i (lookup (to_upper go a.id) ids)) 0 vetoes

-- No amendment of the list has the id, up to the case of its letters.
abbrev pub Absent : Go → List ℕ → List Amendment → Type 0
Absent go key ams = All (λ a. to_upper go a.id ≢ key) ams

-- Each entry has an id of 64 hexadecimal digits and a name of letters, digits and underscores.
abbrev pub IsWellFormed : Amendment → Type 0
IsWellFormed a = (is_amendment_id a.id ≡ true) × (is_amendment_name a.name ≡ true)

-- No two entries have one id, up to the case of its letters.
abbrev pub IsDistinct : Go → List Amendment → Type 0
IsDistinct go [] = Unit
IsDistinct go (a ∷ ams) = Absent go (to_upper go a.id) ams × IsDistinct go ams

module _ (go : Go) where
  abbrev Unseen : Dict (List ℕ) ℕ → List Amendment → Type 0
  Unseen seen ams = All (λ a. lookup (to_upper go a.id) seen ≡ none) ams

  Unseen-insert :
      (key : List ℕ) (i : ℕ) (seen : Dict (List ℕ) ℕ) (ams : List Amendment)
      → Unseen (insert key i seen) ams ↔ (Unseen seen ams × Absent go key ams)
  Unseen-insert key i seen [] = (λ u. (tt, tt), λ u. tt)
  Unseen-insert key i seen (a ∷ ams) = ground (
    arith,
    Unseen-insert key i seen ams,
    lookup-insert key (to_upper go a.id) i seen,
    codes_beq_iff key (to_upper go a.id),
  )

  duplicate-empty :
      (field : String) (i : ℕ) (o : Option ℕ) → (duplicate field i o ≡ []) ↔ (o ≡ none)
  unfolding duplicate
  duplicate-empty field i none = ground arith
  duplicate-empty field i (some prior) = (λ e. absurd (invalid-≢[] _ _ _ e), λ e. absurd (cc))

  check_id-empty :
      (field : String) (i : ℕ) (a : Amendment)
      → (check_id go field i a ≡ []) ↔ (is_amendment_id a.id ≡ true)
  unfolding check_id
  check_id-empty field i a = refuse_unless-empty _ _ _ _

  check_name-empty :
      (field : String) (i : ℕ) (a : Amendment)
      → (check_name go field i a ≡ []) ↔ (is_amendment_name a.name ≡ true)
  unfolding check_name
  check_name-empty field i a = refuse_unless-empty _ _ _ _

  entry-empty :
      (field : String) (i : ℕ) (a : Amendment) (o : Option ℕ) (more : List Error)
      → (check_id go field i a ++ check_name go field i a ++ duplicate field i o ++ more ≡ [])
        ↔ (IsWellFormed a × (o ≡ none) × (more ≡ []))
  entry-empty field i a o more = ground (
    arith,
    append-empty (check_id go field i a) (check_name go field i a ++ duplicate field i o ++ more),
    append-empty (check_name go field i a) (duplicate field i o ++ more),
    append-empty (duplicate field i o) more,
    duplicate-empty field i o,
    check_id-empty field i a,
    check_name-empty field i a,
  )

  mark_new :
      (key : List ℕ) (i : ℕ) (seen : Dict (List ℕ) ℕ)
      → lookup key seen ≡ none
      → mark key i seen ≡ insert key i seen
  unfolding mark
  mark_new key i seen e = rw (e, mark) refl

  Unseen-nil : (ams : List Amendment) → Unseen [] ams
  unfolding lookup
  Unseen-nil [] = tt
  Unseen-nil (a ∷ ams) = (refl, Unseen-nil ams)

  amendments_from-empty :
      (field : String) (seen : Dict (List ℕ) ℕ) (i : ℕ) (ams : List Amendment)
      → (amendments_from go field seen i ams ≡ [])
        ↔ (All IsWellFormed ams × Unseen seen ams × IsDistinct go ams)
  unfolding amendments_from
  amendments_from-empty field seen i [] = (λ e. (tt, tt, tt), λ e. refl)
  amendments_from-empty field seen i (a ∷ ams) =
      let key = to_upper go a.id in
      let more = amendments_from go field (mark key i seen) (suc i) ams in
      elim (Option-cases (lookup key seen)) [
        | inl e ↦ ground (
          arith,
          e,
          entry-empty field i a (lookup key seen) more,
          mark_new key i seen e,
          amendments_from-empty field (mark key i seen) (suc i) ams,
          amendments_from-empty field (insert key i seen) (suc i) ams,
          Unseen-insert key i seen ams,
        )
        | inr (j, e) ↦ ground (arith, e, entry-empty field i a (lookup key seen) more)
      ]

  -- validateAmendments accepts a list exactly when each id has 64 hexadecimal digits, each name has
  -- letters, digits and underscores only and is not empty, and no id occurs twice, whatever the case of its letters.
  pub validate_amendments-accepts :
      (field : String) (ams : List Amendment)
      → (validate_amendments go field (some ams) ≡ []) ↔ (All IsWellFormed ams × IsDistinct go ams)
  unfolding validate_amendments
  validate_amendments-accepts field ams =
      ground (arith, amendments_from-empty field [] 0 ams, Unseen-nil ams)

  upvote_ids-none :
      (key : List ℕ) (ids : Dict (List ℕ) ℕ) (i : ℕ) (ams : List Amendment)
      → (lookup key (upvote_ids go ids i ams) ≡ none)
        ↔ ((lookup key ids ≡ none) × Absent go key ams)
  unfolding upvote_ids
  upvote_ids-none key ids i [] = (λ e. (e, tt), λ (e, a). e)
  upvote_ids-none key ids i (a ∷ ams) = ground (
    arith,
    upvote_ids-none key (insert (to_upper go a.id) i ids) (suc i) ams,
    lookup-insert (to_upper go a.id) key i ids,
    codes_beq_iff (to_upper go a.id) key,
  )

  overlap-empty : (i : ℕ) (o : Option ℕ) → (overlap i o ≡ []) ↔ (o ≡ none)
  unfolding overlap
  overlap-empty i none = ground arith
  overlap-empty i (some prior) = (λ e. absurd (invalid-≢[] _ _ _ e), λ e. absurd (cc))

  -- validateAmendmentOverlap accepts the upvotes and the vetoes exactly when no vetoed id is upvoted,
  -- whatever the case of its letters.
  pub validate_amendment_overlap-accepts :
      (ups vetoes : List Amendment)
      → (validate_amendment_overlap go (some ups) (some vetoes) ≡ [])
        ↔ All (λ v. Absent go (to_upper go v.id) ups) vetoes
  unfolding validate_amendment_overlap lookup
  validate_amendment_overlap-accepts ups vetoes = each_from-empty 0 vetoes (λ j v. ground (
    arith,
    overlap-empty j (lookup (to_upper go v.id) (upvote_ids go [] 0 ups)),
    upvote_ids-none (to_upper go v.id) [] 0 ups,
  ))
