-- ===== src/Finding/Stall/Tests.antt =====
-- The theorems on finding.ConsensusProgressOracle at concrete snapshots.
use xrpl_confluence.Prelude.{◌+◌, ◌-◌, ◌≤◌, String, ◌≡◌, refl, false, some, List, [], ◌∷◌, length}
use xrpl_confluence.Prelude.Int.{pos}
use xrpl_confluence.Prelude.Dict.{lookup, insert, keep_keys}
use xrpl_confluence.Finding.{Finding, Time}
use xrpl_confluence.Finding.Stall.{
  ConsensusProgressInput, ConsensusProgressOracle, new_oracle, is_stalled, start_of, note_start,
  visit, scan, purge, settle, observe, stall_finding,
}
use xrpl_confluence.Finding.Stall.Episodes.{Tick, findings_of, findings_of_episode, marked}
use xrpl_confluence.Finding.Stall.Sustained.{History, StalledSince, after, observe_sustained}

abbrev behind : ConsensusProgressInput
behind = record { node = "rippled-0"; closed_seq = 50; validated_seq = 20 }

abbrev even : ConsensusProgressInput
even = record { node = "rippled-0"; closed_seq = 21; validated_seq = 20 }

-- Threshold 10, sustained for 5 nanoseconds.
abbrev oracle : ConsensusProgressOracle
oracle = record { gap_threshold = 10; sustain_for = 5; stall_starts = []; open_finding = false }

abbrev two_ticks : List Tick
two_ticks = ("f1", 100, behind ∷ []) ∷ ("f2", 110, behind ∷ []) ∷ []

findings_of_episode_example : length (findings_of oracle two_ticks) + marked false ≤ 1
unfolding is_stalled
findings_of_episode_example = findings_of_episode oracle two_ticks (refl, (refl, tt))

abbrev once : History
once = (100, behind ∷ []) ∷ []

abbrev made : Finding
made =
    stall_finding "f" 110 10
      (record { starts = ("rippled-0", 100) ∷ []; stalled = behind ∷ []; worst = 10 })

made_found :
    (observe "f" 110 (behind ∷ []) (after (new_oracle (pos 10) (pos 5)) once)).1 ≡ some made
unfolding new_oracle observe after scan visit settle is_stalled start_of note_start purge lookup
    insert keep_keys
made_found = refl

observe_sustained_example :
    (node : String) × (start : Time) × StalledSince 10 node start ((110, behind ∷ []) ∷ once)
    × (5 ≤ 110 - start)
unfolding new_oracle
observe_sustained_example =
    observe_sustained (pos 10) (pos 5) once "f" 110 (behind ∷ []) made made_found
