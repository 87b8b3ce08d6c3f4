-- ===== src/Server/Runs/Attribution.antt =====
-- That syncFindingsForRun of server.Server attributes every finding of a run to it, once.
use xrpl_confluence.Prelude.{
  ℕ, zero, suc, ◌+◌, ◌≤◌, String, ◌≡◌, ◌∙◌, ap, subst, refl, Bool, true, false, ◌||◌, not, some,
  List, [], ◌∷◌, ◌++◌, arith, ◌==◌, string_eq, contains, if_elim, All, reverse, length, take,
  select,
}
use mathlib.Core.List.{reverse_aux}
use xrpl_confluence.Finding.{Finding}
use xrpl_confluence.Finding.Store.{Store, list, keeps, newer, max_capacity}
use xrpl_confluence.Finding.Store.Listing.{list_lem, selected, keeps_nothing_asked, clamp_limit_max}
use xrpl_confluence.Prelude.Sort.{sort, sort-All_inverse}
use xrpl_confluence.Server.Runs.{
  Run, append_missing, is_missing, sync_with, sync_findings_for_run, sync_opts,
}
use xrpl_confluence.Server.Runs.Life.{
  contains_last, contains-All, contains-append, contains-append_missing,
}

-- The finding is attributed to its run.
abbrev IsAttributed : String → List String → Finding → Type 0
IsAttributed run_id ids f = (f.run_id == run_id) ≡ true → contains f.id ids ≡ true

-- The same as a test.
abbrev pub is_attributed : String → List String → Finding → Bool
is_attributed run_id ids f = not (f.run_id == run_id) || contains f.id ids

is_attributed-All :
    (run_id : String) (ids : List String) (fs : List Finding)
    → All (IsAttributed run_id ids) fs
    → All (λ f. is_attributed run_id ids f ≡ true) fs
is_attributed-All run_id ids [] a = tt
is_attributed-All run_id ids (f ∷ fs) (h, a) =
    (ground (arith, h), is_attributed-All run_id ids fs a)

present :
    (run_id : String) (already : List String) (f : Finding)
    → is_missing run_id already f ≡ false
    → (f.run_id == run_id) ≡ true
    → contains f.id already ≡ true
unfolding is_missing
present run_id already f e h = ground (arith, e, h)

append_missing-All :
    (run_id : String) (already ids : List String) (fs : List Finding)
    → ((x : String) → contains x already ≡ true → contains x ids ≡ true)
    → All (IsAttributed run_id (append_missing run_id already ids fs)) fs
unfolding append_missing
append_missing-All run_id already ids [] k = tt
append_missing-All run_id already ids (f ∷ fs) k =
    if_elim (λ i. All (IsAttributed run_id (append_missing run_id already i fs)) (f ∷ fs))
      (is_missing run_id already f) (ids ++ f.id ∷ []) ids
      (λ e. (
        λ h.
            contains-append_missing f.id run_id already (ids ++ f.id ∷ []) fs
              (contains_last f.id ids),
        append_missing-All run_id already (ids ++ f.id ∷ []) fs
            (λ x c. contains-append x ids (f.id ∷ []) (k x c)),
      ))
      (λ e. (
        λ h.
            contains-append_missing f.id run_id already ids fs
              (k f.id (present run_id already f e h)),
        append_missing-All run_id already ids fs k,
      ))

-- Findings that are attributed already are not appended.
append_missing_id :
    (run_id : String) (already ids : List String) (fs : List Finding)
    → All (IsAttributed run_id already) fs
    → append_missing run_id already ids fs ≡ ids
unfolding append_missing is_missing
append_missing_id run_id already ids [] a = refl
append_missing_id run_id already ids (f ∷ fs) (h, a) =
    ground (arith, h, append_missing_id run_id already ids fs a)

select_all : {A : Type 0} (p : A → Bool) (xs : List A) → ((x : A) → p x ≡ true) → select p xs ≡ xs
select_all p [] h = refl
select_all p (x ∷ xs) h = rw (h x) (ap (◌∷◌ x) (select_all p xs h))

take_all : {A : Type 0} (n : ℕ) (xs : List A) → length xs ≤ n → take n xs ≡ xs
take_all zero [] h = refl
take_all zero (x ∷ xs) h = absurd (omega arith)
take_all (suc n) [] h = refl
take_all (suc n) (x ∷ xs) h = ap (◌∷◌ x) (take_all n xs (omega arith))

reverse-All_inverse :
    {A : Type 0} (P : A → Type 0) (xs r : List A) → All P (reverse_aux xs r) → All P xs × All P r
reverse-All_inverse P [] r h = (tt, h)
reverse-All_inverse P (x ∷ xs) r h =
    let (p, q) = reverse-All_inverse P xs (x ∷ r) h in ((q.0, p), q.1)

length-reverse_aux : {A : Type 0} (xs r : List A) → length (reverse_aux xs r) ≡ length xs + length r
length-reverse_aux [] r = omega arith
length-reverse_aux (x ∷ xs) r = omega (arith, length-reverse_aux xs (x ∷ r))

module _ {W : Type 0} (s : Store W) where
  listed_all : length s.findings ≤ max_capacity → selected 1000 sync_opts s ≡ reverse s.findings
  listed_all b =
      ap (take 1000)
        (select_all (keeps sync_opts s) (reverse s.findings) (λ f. keeps_nothing_asked s f))
      ∙ take_all 1000 (reverse s.findings) (omega (arith, b, length-reverse_aux s.findings []))

  -- All findings are listed for the synchronisation.
  list-All_inverse :
      (P : Finding → Type 0)
      → length s.findings ≤ max_capacity
      → All P (list sync_opts s)
      → All P s.findings
  list-All_inverse P b h =
      (reverse-All_inverse P s.findings [] (
        subst (All P) (listed_all b) (
          sort-All_inverse newer P (selected 1000 sync_opts s) (
            subst (λ n. All P (sort newer (selected n sync_opts s))) clamp_limit_max
              (subst (All P) (list_lem sync_opts s) h))))).0

  -- While the store keeps to its capacity, the synchronisation lists every finding of the store that is the
  -- run's, drops none of those listed before, and a second one changes nothing.
  pub sync_findings_for_run-IsAttributed :
      (r : Run)
      → length s.findings ≤ max_capacity
      → All
          (λ f. is_attributed r.id (sync_findings_for_run (some s) r).finding_ids f ≡ true)
          s.findings
        × All (λ x. contains x (sync_findings_for_run (some s) r).finding_ids ≡ true) r.finding_ids
        × (sync_findings_for_run (some s) (sync_findings_for_run (some s) r)
            ≡ sync_findings_for_run (some s) r)
  unfolding sync_findings_for_run sync_with
  sync_findings_for_run-IsAttributed r b =
      let ids = append_missing r.id r.finding_ids r.finding_ids (list sync_opts s) in
      let attributed =
        append_missing-All r.id r.finding_ids r.finding_ids (list sync_opts s) (λ x c. c) in
      (
        is_attributed-All r.id ids s.findings
            (list-All_inverse (IsAttributed r.id ids) b attributed),
        contains-All r.finding_ids ids (λ x c.
            contains-append_missing x r.id r.finding_ids r.finding_ids (list sync_opts s) c),
        ap (λ ids. record r { finding_ids = ids })
            (append_missing_id r.id ids ids (list sync_opts s) attributed),
      )
