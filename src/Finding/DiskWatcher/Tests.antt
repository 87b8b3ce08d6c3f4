-- ===== src/Finding/DiskWatcher/Tests.antt =====
-- The theorem on finding.DiskWatcher at a file that is half written at its second scan.
use xrpl_confluence.Prelude.{String, ◌≡◌, refl, false, none, some, [], ◌∷◌, string_eq}
use xrpl_confluence.Finding.DiskWatcher.{
  DirEntry, Surroundings, new_disk_watcher, scans, is_skipped, has_json_ext,
}
use xrpl_confluence.Finding.DiskWatcher.Once.{added_from, worth, scans_once}

abbrev surroundings : Surroundings String
surroundings = record { marshal = λ d. none; new_id = λ name. "f"; provider = some "run-1" }

abbrev half : DirEntry String
half = record { name = "d1.json"; is_dir = false; content = none }

abbrev whole : DirEntry String
whole = record half {
  content = some (record {
    seed = 7;
    kind = "state_hash";
    description = "forked";
    details = [];
    recorded_at = 5;
  });
}

scans_once_example :
    added_from "d1.json"
      (scans
        ((surroundings, some (whole ∷ [])) ∷ (surroundings, some (half ∷ [])) ∷ [])
        new_disk_watcher).1
    ≡ worth surroundings whole
unfolding is_skipped has_json_ext new_disk_watcher
scans_once_example =
    scans_once surroundings [] [] whole new_disk_watcher ((surroundings, some (half ∷ [])) ∷ [])
      refl refl refl
