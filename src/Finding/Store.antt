-- ===== src/Finding/Store.antt =====
-- finding.Store of sidecar/internal/finding/store.go: an in-memory ring buffer of findings with an
-- index from ids to positions. Each method holds the store's lock for its whole body, so a method is
-- one step. `W` is the state that the registered callback works on.
pub mod Index
pub mod Fetch
pub mod Window
pub mod Listing
pub mod Tests
use xrpl_confluence.Prelude.{
  ℕ, zero, suc, ◌-◌, ◌<◌, String, Bool, true, false, ◌&&◌, not, Option, none, some, List, [], ◌∷◌,
  ◌++◌, reverse, ltb, leb, if◌then◌else◌, ◌==◌, string_eq, length, get_elem?, set,
}
use xrpl_confluence.Prelude.Dict.{Dict, lookup, insert, erase, map_values}
use xrpl_confluence.Prelude.Int.{ℤ, pos, pos_part, leb_ℤ}
use xrpl_confluence.Prelude.Sort.{sort}
use xrpl_confluence.Finding.{Finding, Reproducer, Time}

abbrev pub max_capacity : ℕ
max_capacity = 1000

pub record ListOpts : Type 0 where
  pub since : String
  pub kind : String
  pub limit : ℤ

pub record Store (W : Type 0) : Type 0 where
  pub findings : List Finding
  pub by_id : Dict String ℕ
  pub on_add : Option (Finding → W → W)

module _ {W : Type 0} where
  pub new_store : Store W
  new_store = record { findings = []; by_id = []; on_add = none }

  pub set_on_add : (Finding → W → W) → Store W → Store W
  set_on_add fn s = record s { on_add = some fn }

  -- `s.findings[0]` on the full buffer, which is not empty.
  evict_oldest : Store W → List Finding → Store W
  evict_oldest s [] = s
  evict_oldest s (oldest ∷ rest) = record s {
    findings = rest;
    by_id = map_values (λ idx. idx - 1) (erase oldest.id s.by_id);
  }

  make_room : Store W → Store W
  unfolding evict_oldest
  make_room s = if leb max_capacity (length s.findings) then evict_oldest s s.findings else s

  pub append : Finding → Store W → Store W
  append f s = record s {
    findings = s.findings ++ f ∷ [];
    by_id = insert f.id (length s.findings) s.by_id;
  }

  -- The body of Add under the lock.
  pub store_finding : Finding → Store W → Store W
  unfolding make_room append
  store_finding f s = append f (make_room s)

  notify : Option (Finding → W → W) → Finding → W → W
  notify none f w = w
  notify (some cb) f w = cb f w

  -- The callback runs after the lock is released.
  pub add : Finding → Store W × W → Store W × W
  unfolding store_finding notify
  add f (s, w) = let s' = store_finding f s in (s', notify s'.on_add f w)

-- What `s.findings[idx]` does with the index of a map entry: out of range it panics.
pub data Fetched : Type 0 where
  missing : Fetched
  found : Finding → Fetched
  panics : Fetched

fetch : List Finding → Option ℕ → Fetched
fetch fs none = missing
fetch fs (some idx) = elim (get_elem? fs idx) [ none ↦ panics | some f ↦ found f ]

set_reproducer : Option Reproducer → List Finding → ℕ → List Finding
set_reproducer r [] i = []
set_reproducer r (f ∷ fs) zero = record f { reproducer = r } ∷ fs
set_reproducer r (f ∷ fs) (suc i) = f ∷ set_reproducer r fs i

-- No limit is 100, and none is above the capacity.
pub clamp_limit : ℤ → ℕ
clamp_limit n =
    let limit : ℕ = if leb_ℤ n (pos 0) then 100 else pos_part n in
    if ltb max_capacity limit then max_capacity else limit

after : Option Time → Finding → Bool
after none f = true
after (some t) f = ltb t f.opened_at

kind_passes : String → Finding → Bool
kind_passes kind f = if kind == "" then true else f.kind == kind

-- `for i := len - 1; i >= 0 && len(result) < limit; i--`, over the findings from the newest.
collect : ℕ → (Finding → Bool) → List Finding → List Finding → List Finding
collect limit keep result [] = result
collect limit keep result (f ∷ fs) =
    if ltb (length result) limit
    then collect limit keep (if keep f then result ++ f ∷ [] else result) fs
    else result

pub newer : Finding → Finding → Bool
newer a b = ltb b.opened_at a.opened_at

module _ {W : Type 0} where
  pub get_by_id : String → Store W → Fetched
  unfolding fetch
  get_by_id id s = fetch s.findings (lookup id s.by_id)

  pub len : Store W → ℕ
  len s = length s.findings

  pub update_reproducer : String → Option Reproducer → Store W → Store W × Bool
  unfolding set_reproducer
  update_reproducer id r s = elim (lookup id s.by_id) [
    | none ↦ (s, false)
    | some idx ↦ (record s { findings = set_reproducer r s.findings idx }, true)
  ]

  -- The OpenedAt of the Since marker, where the marker is set and known.
  pub since_time : String → Store W → Option Time
  since_time id s = if id == "" then none else elim (lookup id s.by_id) [
    | none ↦ none
    | some idx ↦ elim (get_elem? s.findings idx) [ none ↦ none | some m ↦ some m.opened_at ]
  ]

  -- Neither `continue` of the loop is taken.
  pub keeps : ListOpts → Store W → Finding → Bool
  unfolding after kind_passes
  keeps opts s f = kind_passes opts.kind f && after (since_time opts.since s) f

  pub list : ListOpts → Store W → List Finding
  unfolding collect newer keeps clamp_limit
  list opts s = sort newer (collect (clamp_limit opts.limit) (keeps opts s) [] (reverse s.findings))
