-- ===== src/Server/Runs/Closing.antt =====
-- That closeRun of server.Server closes a run once, and that the run stays as it was closed.
use xrpl_confluence.Prelude.{◌≡◌, true, false, some, [], ◌∷◌, string_eq, contains, All}
use xrpl_confluence.Finding.{Time}
use xrpl_confluence.Finding.Store.{Store}
use xrpl_confluence.Server.Runs.{Run, Watch}
use xrpl_confluence.Server.Runs.Life.{IsLater, IsOpen}

-- The record has ended as the clone says, and has every finding of the clone.
abbrev pub IsEnded : Run → Run → Type 0
IsEnded clone r =
    ((t : Time) × (clone.ended_at ≡ some t))
    × (r.ended_at ≡ clone.ended_at)
    × (r.status ≡ clone.status)
    × (r.trigger_finding ≡ clone.trigger_finding)
    × All (λ x. contains x r.finding_ids ≡ true) clone.finding_ids

-- Nothing was published and the run has not ended; or one clone was, of the run as it ended, and the watcher has
-- returned.
pub data IsOnce (w : Watch) : Type 0 where
  is_open : IsOpen w.run → w.published ≡ [] → IsOnce w
  is_ended :
      (clone : Run) → w.published ≡ clone ∷ [] → w.watching ≡ false → IsEnded clone w.run → IsOnce w

-- The same, with more said of the record.
data Once (w : Watch) : Type 0 where
  open_run : IsOpen w.run → w.published ≡ [] → Once w
  ended_run :
      (clone : Run) (t : Time)
      → w.published ≡ clone ∷ []
      → w.watching ≡ false
      → clone.ended_at ≡ some t
      → IsLater clone w.run
      → Once w
