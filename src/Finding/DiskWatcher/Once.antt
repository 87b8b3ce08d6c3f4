-- ===== src/Finding/DiskWatcher/Once.antt =====
-- That finding.DiskWatcher ingests a file at most once, and looks at it no more than once.
use mathlib.Core.List.{append-nil}
use xrpl_confluence.Prelude.{
  ap, sym, ◌∙◌, if◌then◌else◌, ==_refl, String, ◌≡◌, refl, Bool, true, false, ◌||◌, subst, Option,
  none, some, List, [], ◌∷◌, ◌++◌, arith, if_elim, ◌==◌, string_eq, contains, select, any,
  Bool-cases, inl, inr,
}
use text.Mathlib.TextEquality.{eq_iff}
use xrpl_confluence.Finding.{Finding}
use xrpl_confluence.Finding.Mapper.{Divergence, map_divergence}
use xrpl_confluence.Finding.DiskWatcher.{
  DirEntry, DiskWatcher, Surroundings, is_skipped, tagged, provided, mapped_as, name_all,
  ingested_of, ingest, mark_seen, scan_entries, scan, scans,
}

-- The run of a finding: the one that the provider names where it has none.
abbrev pub owner : Option String → String → String
owner none run_id = run_id
owner (some id) run_id = if run_id == "" then id else run_id

tagged-owner :
    (p : Option String) (f : Finding) → tagged p f ≡ record f { run_id = owner p f.run_id }
unfolding tagged provided
tagged-owner none f = elim (Bool-cases (f.run_id == "")) [
  | inl e ↦ rw (e) refl
  | inr e ↦ rw (e) refl
]
tagged-owner (some id) f = elim (Bool-cases (f.run_id == "")) [
  | inl e ↦ elim (Bool-cases (id == "")) [
    | inl q ↦
        let same : f.run_id ≡ id = (eq_iff f.run_id "").0 e ∙ sym ((eq_iff id "").0 q) in
        rw (e, q) (λ i. record f { run_id = same i })
    | inr q ↦ rw (e, q) refl
  ]
  | inr e ↦ rw (e) refl
]

-- What was added from a file.
abbrev pub added_from : String → List (String × Finding) → List (String × Finding)
added_from name = select (λ a. a.0 == name)

added_from-append :
    (name : String) (xs ys : List (String × Finding))
    → added_from name xs ≡ []
    → added_from name ys ≡ []
    → added_from name (xs ++ ys) ≡ []
added_from-append name [] ys e e' = e'
added_from-append name (x ∷ xs) ys e e' = ground (arith, e, added_from-append name xs ys, e')

added_from_append :
    (name : String) (xs ys : List (String × Finding))
    → added_from name (xs ++ ys) ≡ added_from name xs ++ added_from name ys
added_from_append name [] ys = refl
added_from_append name (x ∷ xs) ys = ground (arith, added_from_append name xs ys)

added_from-name_all :
    (name other : String) (fs : List Finding)
    → (other == name) ≡ false
    → added_from name (name_all other fs) ≡ []
unfolding name_all
added_from-name_all name other [] e = refl
added_from-name_all name other (f ∷ fs) e = rw (e) (added_from-name_all name other fs e)

added_from_self :
    (name : String) (fs : List Finding) → added_from name (name_all name fs) ≡ name_all name fs
unfolding name_all
added_from_self name [] = refl
added_from_self name (f ∷ fs) = rw (==_refl name) (ap (◌∷◌ (name, f)) (added_from_self name fs))

not_same :
    (name other : String) (names : List String)
    → contains name names ≡ true
    → contains other names ≡ false
    → (other == name) ≡ false
not_same name other names c d = elim (Bool-cases (other == name)) [
  | inl e ↦
      absurd (ground (arith, subst (λ x. contains x names ≡ false) ((eq_iff other name).0 e) d, c))
  | inr e ↦ e
]

or_false : (a b : Bool) → (a || b) ≡ false → (a ≡ false) × (b ≡ false)
or_false a b e = ground (arith, e)

-- A file that was seen stays so, and nothing is added from it.
abbrev IsPassed : String → DiskWatcher × List (String × Finding) → Type 0
IsPassed name r = (contains name r.0.seen ≡ true) × (added_from name r.1 ≡ [])

module _ {R : Type 0} where
  scan_entries-seen :
      (s : Surroundings R) (es : List (DirEntry R)) (w : DiskWatcher) (name : String)
      → contains name w.seen ≡ true
      → IsPassed name (scan_entries s es w)
  unfolding scan_entries ingest mark_seen
  scan_entries-seen s [] w name c = (c, refl)
  scan_entries-seen s (e ∷ es) w name c =
      if_elim (IsPassed name) (is_skipped e || contains e.name w.seen) (scan_entries s es w) _
        (λ q. scan_entries-seen s es w name c)
        (λ q.
          let h = scan_entries-seen s es (mark_seen e.name w) name (ground (arith, c)) in
          let other =
            not_same name e.name w.seen c (or_false (is_skipped e) (contains e.name w.seen) q).1 in
          (
            h.0,
            added_from-append name (ingest s e) (scan_entries s es (mark_seen e.name w)).1
                (added_from-name_all name e.name (ingested_of s e.name e.content) other) h.1,
          ))

  scan-seen :
      (s : Surroundings R) (dir : Option (List (DirEntry R))) (w : DiskWatcher) (name : String)
      → contains name w.seen ≡ true
      → IsPassed name (scan s dir w)
  unfolding scan
  scan-seen s none w name c = (c, refl)
  scan-seen s (some es) w name c = scan_entries-seen s es w name c

  scans-seen :
      (later : List (Surroundings R × Option (List (DirEntry R)))) (w : DiskWatcher) (name : String)
      → contains name w.seen ≡ true
      → IsPassed name (scans later w)
  unfolding scans
  scans-seen [] w name c = (c, refl)
  scans-seen ((s, dir) ∷ later) w name c =
      let (c', e) = scan-seen s dir w name c in
      let (c'', e') = scans-seen later (scan s dir w).0 name c' in
      (c'', added_from-append name (scan s dir w).1 (scans later (scan s dir w).0).1 e e')

  -- What a file is worth: nothing where it cannot be read, parsed or mapped, and else its one finding.
  abbrev pub worth_mapped : Surroundings R → String → Option Finding → List (String × Finding)
  worth_mapped s name none = []
  worth_mapped s name (some f) = (name, record f { run_id = owner s.provider f.run_id }) ∷ []

  abbrev pub worth_read : Surroundings R → String → Option (Divergence R) → List (String × Finding)
  worth_read s name none = []
  worth_read s name (some d) = worth_mapped s name (map_divergence s.marshal (s.new_id name) d)

  abbrev pub worth : Surroundings R → DirEntry R → List (String × Finding)
  worth s e = worth_read s e.name e.content

  mapped-worth :
      (s : Surroundings R) (name : String) (f : Option Finding)
      → name_all name (mapped_as s f) ≡ worth_mapped s name f
  unfolding mapped_as name_all
  mapped-worth s name none = refl
  mapped-worth s name (some f) = ap (λ x. (name, x) ∷ []) (tagged-owner s.provider f)

  ingested-worth :
      (s : Surroundings R) (name : String) (d : Option (Divergence R))
      → name_all name (ingested_of s name d) ≡ worth_read s name d
  unfolding ingested_of name_all
  ingested-worth s name none = refl
  ingested-worth s name (some d) = mapped-worth s name (map_divergence s.marshal (s.new_id name) d)

  ingest-worth : (s : Surroundings R) (e : DirEntry R) → ingest s e ≡ worth s e
  unfolding ingest
  ingest-worth s e = ingested-worth s e.name e.content

  added_from-ingest :
      (s : Surroundings R) (e : DirEntry R) → added_from e.name (ingest s e) ≡ ingest s e
  unfolding ingest
  added_from-ingest s e = added_from_self e.name (ingested_of s e.name e.content)

  -- A scan that has a file behind entries of other names.
  scan_entries-first :
      (s : Surroundings R) (before after : List (DirEntry R)) (e : DirEntry R) (w : DiskWatcher)
      → is_skipped e ≡ false
      → contains e.name w.seen ≡ false
      → any (λ x. x.name == e.name) before ≡ false
      → let r = scan_entries s (before ++ e ∷ after) w in
        (contains e.name r.0.seen ≡ true) × (added_from e.name r.1 ≡ worth s e)
  unfolding scan_entries mark_seen ingest
  scan_entries-first s [] after e w k c b =
      let later =
        scan_entries-seen s after (mark_seen e.name w) e.name (ground (arith, ==_refl e.name)) in
      let rest = scan_entries s after (mark_seen e.name w) in
      rw (scan_entries, k, c)
        (
          later.0,
          added_from_append e.name (ingest s e) rest.1
              ∙ ap (λ x. added_from e.name (ingest s e) ++ x) later.1
              ∙ append-nil (added_from e.name (ingest s e))
              ∙ added_from-ingest s e
              ∙ ingest-worth s e,
        )
  scan_entries-first s (x ∷ before) after e w k c b =
      let (other, rest) = or_false (x.name == e.name) (any (λ x. x.name == e.name) before) b in
      if_elim (λ r. (contains e.name r.0.seen ≡ true) × (added_from e.name r.1 ≡ worth s e))
        (is_skipped x || contains x.name w.seen) (scan_entries s (before ++ e ∷ after) w) _
        (λ q. scan_entries-first s before after e w k c rest)
        (λ q.
          let (a, g) =
            scan_entries-first s before after e (mark_seen x.name w) k (ground (arith, other, c))
              rest in
          (
            a,
            added_from_append e.name (ingest s x)
                  (scan_entries s (before ++ e ∷ after) (mark_seen x.name w)).1
                ∙ ap
                    (λ y.
                      y
                      ++ added_from e.name
                          (scan_entries s (before ++ e ∷ after) (mark_seen x.name w)).1)
                    (added_from-name_all e.name x.name (ingested_of s x.name x.content) other)
                ∙ g,
          ))

  -- Of a file that was not seen before, and whose name no entry before it has, a scan and all later scans together
  -- add its one finding as the first of them finds it; or nothing where that scan cannot read, parse or map it,
  -- however sound the file is later.
  pub scans_once :
      (s : Surroundings R) (before after : List (DirEntry R)) (e : DirEntry R) (w : DiskWatcher)
      (later : List (Surroundings R × Option (List (DirEntry R))))
      → is_skipped e ≡ false
      → contains e.name w.seen ≡ false
      → any (λ x. x.name == e.name) before ≡ false
      → added_from e.name (scans ((s, some (before ++ e ∷ after)) ∷ later) w).1 ≡ worth s e
  unfolding scan scans
  scans_once s before after e w later k c b =
      let (seen, first) = scan_entries-first s before after e w k c b in
      added_from_append e.name (scan_entries s (before ++ e ∷ after) w).1
        (scans later (scan_entries s (before ++ e ∷ after) w).0).1
      ∙ ap (λ x. x ++ added_from e.name (scans later (scan_entries s (before ++ e ∷ after) w).0).1)
          first
      ∙ ap (λ x. worth s e ++ x)
          (scans-seen later (scan_entries s (before ++ e ∷ after) w).0 e.name seen).1
      ∙ append-nil (worth s e)
