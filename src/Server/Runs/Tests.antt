-- ===== src/Server/Runs/Tests.antt =====
-- The theorems on the runs of server.Server at a run that a divergence stops.
use xrpl_confluence.Prelude.{
  String, ◌≡◌, true, none, some, List, [], ◌∷◌, arith, contains, string_eq, All,
}
use xrpl_confluence.Finding.{Finding, zero_finding}
use xrpl_confluence.Finding.Store.{Store}
use xrpl_confluence.Server.Runs.{
  Run, Action, signal, read, found, ticked, new_run, new_watch, acts, sync_findings_for_run,
}
use xrpl_confluence.Server.Runs.Life.{IsAccounted, findings_in, ticks_in, acts-IsAccounted}
use xrpl_confluence.Server.Runs.Attribution.{is_attributed, sync_findings_for_run-IsAttributed}

abbrev forked : Finding
forked = record zero_finding { id = "f-1"; run_id = "run-1"; kind = "state_divergence" }

abbrev store : Store String
store = record { findings = forked ∷ []; by_id = ("f-1", 0) ∷ []; on_add = none }

abbrev actions : List (Action String)
actions =
    signal (some store) 9 none (ticked 99)
    ∷ read (some store)
    ∷ signal (some store) 7 none (found forked)
    ∷ []

abbrev run : Run
run = new_run "run-1" "soak" 5 60 ("first_divergence" ∷ [])

acts-IsAccounted_example :
    IsAccounted
      (acts actions (new_watch (new_run "run-1" "soak" 5 60 ("first_divergence" ∷ [])))).run
      (findings_in actions)
      (ticks_in actions)
acts-IsAccounted_example = acts-IsAccounted actions "run-1" "soak" 5 60 ("first_divergence" ∷ [])

sync_findings_for_run-IsAttributed_example :
    All
      (λ f. is_attributed run.id (sync_findings_for_run (some store) run).finding_ids f ≡ true)
      (forked ∷ [])
    × All
        (λ x. contains x (sync_findings_for_run (some store) run).finding_ids ≡ true)
        run.finding_ids
    × (sync_findings_for_run (some store) (sync_findings_for_run (some store) run)
        ≡ sync_findings_for_run (some store) run)
sync_findings_for_run-IsAttributed_example =
    sync_findings_for_run-IsAttributed store run (omega arith)
