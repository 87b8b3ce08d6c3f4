-- ===== src/Finding/Store/Listing.antt =====
-- List of finding.Store: what it returns, and in what order.
use xrpl_confluence.Prelude.{
  false, ◌||◌, ◌&&◌, not, leb, min, Option, none, if◌then◌else◌, ◌==◌, string_eq, get_elem?, String,
  Option-cases, ℕ, zero, suc, ◌-◌, ◌≤◌, ◌≡◌, ◌≢◌, some, sym, ap, refl, ◌∙◌, Bool, true, List, [],
  ◌∷◌, ◌++◌, arith, length, take, select, reverse, length-append, ltb, ltb→lt, Bool-cases, inl, inr,
  All, take_eq, take_nil, take-cons,
}
use mathlib.Core.List.{append_assoc, append-nil, Perm}
use text.Mathlib.TextEquality.{eq_iff}
use xrpl_confluence.Prelude.Int.{ℤ, pos, negsuc}
use xrpl_confluence.Prelude.Sort.{IsOrder, IsSorted, sort, sort-perm, sort-IsSorted}
use xrpl_confluence.Prelude.Dict.{lookup}
use xrpl_confluence.Finding.{Finding}
use xrpl_confluence.Finding.Store.Index.{IsIndexed, id_at}
use xrpl_confluence.Finding.Store.Fetch.{fetch-id_at}
use xrpl_confluence.Finding.Store.{
  Store, ListOpts, max_capacity, list, collect, keeps, newer, clamp_limit, kind_passes, after,
  since_time,
}

newer-IsOrder : IsOrder newer
unfolding newer
newer-IsOrder = record { asym = λ a b h. ground arith; steps = λ a b c h k. ground arith }

module _ (limit : ℕ) (keep : Finding → Bool) where
  collect-eq-take :
      (result fs : List Finding)
      → length result ≤ limit
      → collect limit keep result fs ≡ result ++ take (limit - length result) (select keep fs)
  unfolding collect
  collect-eq-take result [] h =
      sym (append-nil result) ∙ ap (◌++◌ result) (sym (take_nil (limit - length result)))
  collect-eq-take result (f ∷ fs) h = elim (Bool-cases (ltb (length result) limit)) [
    | inl more ↦ elim (Bool-cases (keep f)) [
      | inl kept ↦
          rw (more, kept)
            (collect-eq-take (result ++ f ∷ []) fs
                (omega (arith, length-append result (f ∷ []), ltb→lt (length result) limit more))
              ∙ append_assoc result (f ∷ []) (take (limit - length (result ++ f ∷ [])) rest)
              ∙ ap (◌++◌ result) (
                  ap (◌∷◌ f) (
                    take_eq (limit - length (result ++ f ∷ [])) (limit - length result - 1) rest
                      (omega (arith, length-append result (f ∷ []))))
                  ∙ sym (
                      take-cons (limit - length result) f rest
                        (omega (arith, ltb→lt (length result) limit more)))))
      | inr left ↦ rw (more, left) (collect-eq-take result fs h)
    ]
    | inr full ↦ rw full (
        sym (
          ap (◌++◌ result) (take_eq (limit - length result) 0 (select keep (f ∷ fs)) (ground arith))
          ∙ append-nil result))
  ]
    where
      rest : List Finding
      rest = select keep fs

-- What List selects: the newest that pass, at most `limit` of them.
abbrev pub selected : {W : Type 0} → ℕ → ListOpts → Store W → List Finding
selected limit opts s = take limit (select (keeps opts s) (reverse s.findings))

module _ {W : Type 0} (opts : ListOpts) (s : Store W) where
  pub list_lem : list opts s ≡ sort newer (selected (clamp_limit opts.limit) opts s)
  unfolding list
  list_lem = ap (sort newer) (
      collect-eq-take (clamp_limit opts.limit) (keeps opts s) [] (reverse s.findings) (omega arith)
      ∙ take_eq (clamp_limit opts.limit - 0) (clamp_limit opts.limit)
          (select (keeps opts s) (reverse s.findings)) (omega arith))

-- The findings in the order in which they were opened, the latest first.
abbrev pub IsNewestFirst : List Finding → Type 0
IsNewestFirst [] = Unit
IsNewestFirst (f ∷ fs) = All (λ g. g.opened_at ≤ f.opened_at) fs × IsNewestFirst fs

not_newer :
    (f : Finding) (gs : List Finding)
    → All (λ g. newer g f ≡ false) gs
    → All (λ g. g.opened_at ≤ f.opened_at) gs
unfolding newer
not_newer f [] h = tt
not_newer f (g ∷ gs) h = (ground (arith, h.0), not_newer f gs h.1)

IsSorted-IsNewestFirst : (fs : List Finding) → IsSorted newer fs → IsNewestFirst fs
IsSorted-IsNewestFirst [] s = tt
IsSorted-IsNewestFirst (f ∷ fs) s = (not_newer f fs s.0, IsSorted-IsNewestFirst fs s.1)

-- How many findings a limit asks for.
abbrev pub allowed : ℤ → ℕ
allowed (negsuc n) = 100
allowed (pos zero) = 100
allowed (pos (suc n)) = min (suc n) 1000

clamp_limit-allowed : (n : ℤ) → clamp_limit n ≡ allowed n
unfolding clamp_limit
clamp_limit-allowed (negsuc n) = ground arith
clamp_limit-allowed (pos zero) = ground arith
clamp_limit-allowed (pos (suc n)) = ground arith

-- When the first finding with an id was opened.
abbrev pub opened_of : String → List Finding → Option ℕ
opened_of id [] = none
opened_of id (f ∷ fs) = if f.id == id then some f.opened_at else opened_of id fs

opened_of-none :
    (id : String) (fs : List Finding) → ((i : ℕ) → id_at fs i ≢ some id) → opened_of id fs ≡ none
opened_of-none id [] h = refl
opened_of-none id (f ∷ fs) h = elim (Bool-cases (f.id == id)) [
  | inl e ↦ absurd (h 0 (ap some ((eq_iff f.id id).0 e)))
  | inr e ↦ rw (e) (opened_of-none id fs (λ i. h (suc i)))
]

opened_of-get_elem? :
    (id : String) (fs : List Finding) (i : ℕ) (f : Finding)
    → get_elem? fs i ≡ some f
    → f.id ≡ id
    → ((j : ℕ) → id_at fs j ≡ some id → j ≡ i)
    → opened_of id fs ≡ some f.opened_at
opened_of-get_elem? id [] i f g e u = absurd (cc)
opened_of-get_elem? id (x ∷ fs) zero f g e u = ground (arith, g, e, eq_iff x.id id)
opened_of-get_elem? id (x ∷ fs) (suc i) f g e u = elim (Bool-cases (x.id == id)) [
  | inl h ↦ absurd (omega (arith, u 0 (ap some ((eq_iff x.id id).0 h))))
  | inr h ↦ rw (h) (opened_of-get_elem? id fs i f g e (λ j q. omega (arith, u (suc j) q)))
]

-- When the finding that the marker names was opened, where there is one.
abbrev pub marker : String → List Finding → Option ℕ
marker id fs = if id == "" then none else opened_of id fs

since_time-marker :
    {W : Type 0} (id : String) (s : Store W) → IsIndexed s → since_time id s ≡ marker id s.findings
unfolding since_time
since_time-marker id s v = elim (Bool-cases (id == "")) [
  | inl e ↦ rw (since_time, e) refl
  | inr e ↦ elim (Option-cases (lookup id s.by_id)) [
    | inl z ↦ rw (since_time, e, z) (sym (opened_of-none id s.findings (λ i h. cc (v.back id i h))))
    | inr (i, z) ↦
        let (f, got, named) = fetch-id_at s.findings id i (v.forth id i z) in
        rw (since_time, e, z, got)
          (sym (
            opened_of-get_elem? id s.findings i f got named
              (λ j h. ground (arith, v.back id j h, z))))
  ]
]

-- A finding of the kind asked for, if any, that was opened after the marker, if any.
abbrev pub is_wanted : String → Option ℕ → Finding → Bool
is_wanted kind none f = kind == "" || f.kind == kind
is_wanted kind (some t) f = (kind == "" || f.kind == kind) && not (leb f.opened_at t)

keeps-is_wanted :
    {W : Type 0} (opts : ListOpts) (s : Store W) (f : Finding)
    → keeps opts s f ≡ is_wanted opts.kind (since_time opts.since s) f
unfolding keeps kind_passes after
keeps-is_wanted opts s f = elim (Option-cases (since_time opts.since s)) [
  | inl e ↦ rw (e) (ground arith)
  | inr (t, e) ↦ rw (e) (ground arith)
]

select_same :
    (p q : Finding → Bool) (fs : List Finding)
    → ((f : Finding) → p f ≡ q f)
    → select p fs ≡ select q fs
select_same p q [] h = refl
select_same p q (f ∷ fs) h = rw (h f, select_same p q fs h) refl

-- The latest findings added that are wanted, as many as the limit allows.
abbrev pub latest : ListOpts → List Finding → List Finding
latest opts fs =
    take (allowed opts.limit) (select (is_wanted opts.kind (marker opts.since fs)) (reverse fs))

selected-latest :
    {W : Type 0} (opts : ListOpts) (s : Store W)
    → IsIndexed s
    → selected (clamp_limit opts.limit) opts s ≡ latest opts s.findings
selected-latest opts s v =
    take_eq (clamp_limit opts.limit) (allowed opts.limit)
      (select (keeps opts s) (reverse s.findings)) (clamp_limit-allowed opts.limit)
    ∙ ap (take (allowed opts.limit)) (
        select_same (keeps opts s) (is_wanted opts.kind (marker opts.since s.findings))
          (reverse s.findings)
          (λ f.
            keeps-is_wanted opts s f
            ∙ ap (λ m. is_wanted opts.kind m f) (since_time-marker opts.since s v)))

-- In a store with an exact index, List returns, the latest opened first, exactly the latest findings added
-- that are of the kind asked for and were opened after the one that the marker names, as many as its limit
-- allows: a limit above zero, but at most 1000, and 100 for any other. An empty kind or marker, or a marker that
-- names no finding held, asks for nothing.
pub list-IsListing :
    {W : Type 0} (opts : ListOpts) (s : Store W)
    → IsIndexed s
    → IsNewestFirst (list opts s) × Perm (list opts s) (latest opts s.findings)
list-IsListing opts s v =
    rw (list_lem opts s, selected-latest opts s v)
      (
        IsSorted-IsNewestFirst (sort newer (latest opts s.findings))
            (sort-IsSorted newer newer-IsOrder (latest opts s.findings)),
        sort-perm newer (latest opts s.findings),
      )

-- Without a marker and a kind, List keeps every finding.
pub keeps_nothing_asked :
    {W : Type 0} (s : Store W) (f : Finding)
    → keeps (record { since = ""; kind = ""; limit = pos 1000 }) s f ≡ true
unfolding keeps kind_passes after since_time
keeps_nothing_asked s f = refl

pub clamp_limit_max : clamp_limit (pos 1000) ≡ max_capacity
unfolding clamp_limit
clamp_limit_max = refl
