-- ===== src/Finding/Store/Tests.antt =====
-- The theorems on finding.Store at concrete stores.
use xrpl_confluence.Prelude.{ℕ, zero, suc, String, ◌≡◌, refl, none, some, [], ◌∷◌, arith, string_eq}
use mathlib.Core.List.{Perm}
use text.Mathlib.TextEquality.{eq_iff}
use xrpl_confluence.Prelude.Dict.{lookup}
use xrpl_confluence.Prelude.Int.{pos}
use xrpl_confluence.Finding.{Finding, Reproducer, zero_finding, kind_node_crash}
use xrpl_confluence.Finding.Store.{
  Store, ListOpts, store_finding, get_by_id, update_reproducer, list,
}
use xrpl_confluence.Finding.Store.Index.{id_at, IsIndexed, store_finding-IsIndexed}
use xrpl_confluence.Finding.Store.Fetch.{
  Answers, updated, holds, get_by_id-Answers, get_by_id-update_reproducer,
}
use xrpl_confluence.Finding.Store.Window.{add_all, findings-add_all}
use xrpl_confluence.Finding.Store.Listing.{IsNewestFirst, latest, list-IsListing}

abbrev crash : Finding
crash = record zero_finding { id = "a"; kind = kind_node_crash; opened_at = 5 }

abbrev stall : Finding
stall = record zero_finding { id = "b"; opened_at = 7 }

abbrev empty : Store ℕ
empty = record { findings = []; by_id = []; on_add = none }

abbrev one : Store ℕ
one = record { findings = crash ∷ []; by_id = ("a", 0) ∷ []; on_add = some (λ f n. suc n) }

one_forth : (id : String) (i : ℕ) → lookup id one.by_id ≡ some i → id_at one.findings i ≡ some id
unfolding lookup
one_forth id zero h = ground (arith, h, eq_iff "a" id)
one_forth id (suc i) h = ground (arith, h, eq_iff "a" id)

one_back : (id : String) (i : ℕ) → id_at one.findings i ≡ some id → lookup id one.by_id ≡ some i
unfolding lookup
one_back id zero h = ground (arith, h, eq_iff "a" id)
one_back id (suc i) h = absurd (cc)

one-IsIndexed : IsIndexed one
one-IsIndexed = record { within = omega arith; forth = one_forth; back = one_back }

store_finding-IsIndexed_example : IsIndexed (store_finding stall one)
unfolding lookup
store_finding-IsIndexed_example = store_finding-IsIndexed stall one one-IsIndexed refl

get_by_id-Answers_example : Answers "a" (crash ∷ []) (get_by_id "a" one)
get_by_id-Answers_example = get_by_id-Answers one "a" one-IsIndexed

abbrev found_again : Reproducer
found_again = record { id = "r"; scenario_path = "scenarios/soak.yaml"; kind = "replay" }

get_by_id-update_reproducer_example :
    ((update_reproducer "a" (some found_again) one).1 ≡ holds "a" one.findings)
    × (get_by_id "a" (update_reproducer "a" (some found_again) one).0
        ≡ updated (some found_again) (get_by_id "a" one))
get_by_id-update_reproducer_example =
    get_by_id-update_reproducer (some found_again) "a" "a" one one-IsIndexed

findings-add_all_example : (add_all (crash ∷ stall ∷ []) empty).findings ≡ crash ∷ stall ∷ []
findings-add_all_example = findings-add_all (crash ∷ stall ∷ []) empty refl

abbrev two : Store ℕ
two = store_finding stall one

two-IsIndexed : IsIndexed two
unfolding lookup
two-IsIndexed = store_finding-IsIndexed stall one one-IsIndexed refl

abbrev newest : ListOpts
newest = record { since = "a"; kind = ""; limit = pos 1 }

list-IsListing_example :
    IsNewestFirst (list newest two) × Perm (list newest two) (latest newest two.findings)
list-IsListing_example = list-IsListing newest two two-IsIndexed
