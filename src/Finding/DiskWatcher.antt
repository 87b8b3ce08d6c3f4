-- ===== src/Finding/DiskWatcher.antt =====
-- finding.DiskWatcher of sidecar/internal/finding/disk_watcher.go: the bridge from the corpus directory to the
-- store. What the directory holds at a scan is an argument, and each scan is a step of the one goroutine.
pub mod Once
pub mod Tests
use Prim.Native.Char.{Char, code}
use xrpl_confluence.Prelude.{
  ℕ, suc, String, Bool, true, false, ◌||◌, ◌&&◌, not, Option, none, some, List, [], ◌∷◌, ◌++◌,
  if◌then◌else◌, ◌==◌, string_eq, contains,
}
use xrpl_confluence.Prelude.Dict.{Dict}
use xrpl_confluence.Finding.{Finding}
use xrpl_confluence.Finding.Store.{Store, add}
use xrpl_confluence.Finding.Mapper.{Divergence, map_divergence}

-- An entry of the directory: its name, and what reading and parsing it gives (`none` is an error).
pub record DirEntry (R : Type 0) : Type 0 where
  pub name : String
  pub is_dir : Bool
  pub content : Option (Divergence R)

-- The names that `seen` has.
pub record DiskWatcher : Type 0 where
  pub seen : List String

pub new_disk_watcher : DiskWatcher
new_disk_watcher = record { seen = [] }

-- `filepath.Ext(name) == ".json"`: the last dot is followed by `json`.
pub has_json_ext : String → Bool
has_json_ext String.[] = false
has_json_ext (String.◌∷◌ c s) =
    let rest = has_json_ext s in if String.◌∷◌ c s == ".json" then true else rest

-- The `continue`s of the loop that are not about `seen`.
pub is_skipped : {R : Type 0} → DirEntry R → Bool
is_skipped e = e.is_dir || not (has_json_ext e.name)

provided : Option String → String
provided none = ""
provided (some id) = id

tagged : Option String → Finding → Finding
unfolding provided
tagged provider f =
    if f.run_id == "" && not (provided provider == "")
    then record f { run_id = provided provider }
    else f

-- What a scan works with: json.Marshal, the new id of a file's finding, and the provider's answer.
pub record Surroundings (R : Type 0) : Type 0 where
  pub marshal : Dict String R → Option String
  pub new_id : String → String
  pub provider : Option String

name_all : String → List Finding → List (String × Finding)
name_all name [] = []
name_all name (f ∷ fs) = (name, f) ∷ name_all name fs

mark_seen : String → DiskWatcher → DiskWatcher
mark_seen name w = record { seen = name ∷ w.seen }

module _ {R : Type 0} where
  mapped_as : Surroundings R → Option Finding → List Finding
  mapped_as w none = []
  mapped_as w (some f) = tagged w.provider f ∷ []

  ingested_of : Surroundings R → String → Option (Divergence R) → List Finding
  unfolding mapped_as tagged
  ingested_of w name none = []
  ingested_of w name (some d) = mapped_as w (map_divergence w.marshal (w.new_id name) d)

  -- What the ingestion of an entry adds to the store, with the name of the file.
  ingest : Surroundings R → DirEntry R → List (String × Finding)
  unfolding ingested_of name_all
  ingest w e = name_all e.name (ingested_of w e.name e.content)

  pub scan_entries :
      Surroundings R → List (DirEntry R) → DiskWatcher → DiskWatcher × List (String × Finding)
  unfolding ingest mark_seen
  scan_entries s [] w = (w, [])
  scan_entries s (e ∷ es) w =
      if is_skipped e || contains e.name w.seen
      then scan_entries s es w
      else (let (w', more) = scan_entries s es (mark_seen e.name w) in (w', ingest s e ++ more))

  -- `none` is a directory that cannot be read.
  pub scan :
      Surroundings R
      → Option (List (DirEntry R))
      → DiskWatcher
      → DiskWatcher × List (String × Finding)
  unfolding scan_entries
  scan s none w = (w, [])
  scan s (some es) w = scan_entries s es w

  -- Scans in their order, and what they add.
  pub scans :
      List (Surroundings R × Option (List (DirEntry R)))
      → DiskWatcher
      → DiskWatcher × List (String × Finding)
  scans [] w = (w, [])
  scans ((s, dir) ∷ later) w =
      let (w', added) = scan s dir w in let (w'', more) = scans later w' in (w'', added ++ more)

-- The additions reach the store one by one.
module _ {W : Type 0} where
  pub add_each : List (String × Finding) → Store W × W → Store W × W
  add_each [] s = s
  add_each ((name, f) ∷ more) s = add_each more (add f s)
