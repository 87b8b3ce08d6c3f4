-- ===== src/Server/Runs.antt =====
-- The life of a run of sidecar/internal/server/runs.go: the goroutine that watches it and the requests that
-- read it, as steps on the one shared record. The clock, the store and the reproducer emitter of a step are
-- arguments. `W` is the state of the store's callback.
pub mod Life
pub mod Closing
pub mod Start
pub mod Attribution
pub mod Tests
use xrpl_confluence.Prelude.{
  ℕ, String, Bool, true, false, ◌||◌, ◌&&◌, not, Option, none, some, List, [], ◌∷◌, ◌++◌,
  if◌then◌else◌, ◌==◌, string_eq, contains, any, ltb,
}
use xrpl_confluence.Prelude.Dict.{Dict, lookup, insert}
use xrpl_confluence.Prelude.Int.{pos}
use xrpl_confluence.Finding.{Finding, Time, kind_state_divergence, kind_node_crash}
use xrpl_confluence.Finding.Store.{Store, ListOpts, list}

abbrev pub run_status_running : String
run_status_running = "running"

abbrev pub run_status_completed_budget : String
run_status_completed_budget = "completed_budget"

abbrev pub run_status_completed_stop_on : String
run_status_completed_stop_on = "completed_stop_on"

stop_on_matches : String → List String
stop_on_matches cond =
    if cond == "first_divergence"
    then kind_state_divergence ∷ []
    else if cond == "first_crash"
    then kind_node_crash ∷ []
    else []

pub record Run : Type 0 where
  pub id : String
  pub scenario : String
  pub status : String
  pub started_at : Time
  pub ended_at : Option Time
  pub budget_ends_at : Time
  pub stop_on : List String
  pub finding_ids : List String
  pub reproducer_ids : List String
  pub trigger_finding : String

-- The record that startRun makes of a valid scenario, whose budget ends at a time.
pub new_run : String → String → Time → Time → List String → Run
new_run id scenario now budget_ends_at stop_on = record {
  id = id;
  scenario = scenario;
  status = run_status_running;
  started_at = now;
  ended_at = none;
  budget_ends_at = budget_ends_at;
  stop_on = stop_on;
  finding_ids = [];
  reproducer_ids = [];
  trigger_finding = "";
}

pub matches_stop_on : List String → String → Bool
unfolding stop_on_matches
matches_stop_on stop_on kind = any (λ cond. contains kind (stop_on_matches cond)) stop_on

-- The test of syncFindingsForRun: the finding is the run's and is not in `already`.
pub is_missing : String → List String → Finding → Bool
is_missing run_id already f = f.run_id == run_id && not (contains f.id already)

pub append_missing : String → List String → List String → List Finding → List String
unfolding is_missing
append_missing run_id already ids [] = ids
append_missing run_id already ids (f ∷ fs) =
    append_missing run_id already (if is_missing run_id already f then ids ++ f.id ∷ [] else ids) fs

sync_with : List Finding → Run → Run
unfolding append_missing
sync_with all r = record r { finding_ids = append_missing r.id r.finding_ids r.finding_ids all }

abbrev pub sync_opts : ListOpts
sync_opts = record { since = ""; kind = ""; limit = pos 1000 }

module _ {W : Type 0} where
  pub sync_findings_for_run : Option (Store W) → Run → Run
  unfolding sync_with
  sync_findings_for_run none r = r
  sync_findings_for_run (some s) r = sync_with (list sync_opts s) r

  pub close_run : Option (Store W) → Time → String → String → Run → Run
  close_run store now status trigger r = record (sync_findings_for_run store r) {
    status = status;
    ended_at = some now;
    trigger_finding = trigger;
  }

-- What the emitter makes of the trigger: the id of the reproducer, or an error.
abbrev pub Emitter : Type 0
Emitter = Option (Finding → Option String)

add_reproducer : Option String → Run → Run
add_reproducer none r = r
add_reproducer (some id) r = record r { reproducer_ids = r.reproducer_ids ++ id ∷ [] }

pub emit : Emitter → Finding → Run → Run
unfolding add_reproducer
emit none trigger r = r
emit (some e) trigger r = add_reproducer (e trigger) r

pub note_finding : Finding → Run → Run
note_finding f r = record r { finding_ids = r.finding_ids ++ f.id ∷ [] }

-- What the select of watchRun receives: a tick, a finding, another event, or that the channel is closed.
pub data Signal : Type 0 where
  ticked : Time → Signal
  found : Finding → Signal
  other_event : Signal
  channel_closed : Signal

-- The run, whether watchRun still runs, and the clones of the run that closeRun has published.
pub record Watch : Type 0 where
  pub run : Run
  pub watching : Bool
  pub published : List Run

pub new_watch : Run → Watch
new_watch r = record { run = r; watching = true; published = [] }

finish : Run → Run → Watch → Watch
finish completed r w = record {
  run = r;
  watching = false;
  published = w.published ++ completed ∷ [];
}

-- The second time is that of closeRun's own clock.
module _ {W : Type 0} where
  handle_stop_on_trigger : Option (Store W) → Time → Emitter → Finding → Run → Watch → Watch
  unfolding finish emit close_run
  handle_stop_on_trigger store now emitter trigger r w =
      let closed = close_run store now run_status_completed_stop_on trigger.id r in
      finish closed (emit emitter trigger closed) w

  receive_finding : Option (Store W) → Time → Emitter → Finding → Watch → Watch
  unfolding note_finding
  receive_finding store now emitter f w =
      let noted = note_finding f w.run in
      if matches_stop_on w.run.stop_on f.kind
      then handle_stop_on_trigger store now emitter f noted w
      else record w { run = noted }

  receive : Option (Store W) → Time → Emitter → Signal → Watch → Watch
  unfolding receive_finding finish
  receive store now emitter (ticked t) w =
      if ltb w.run.budget_ends_at t
      then (let closed = close_run store now run_status_completed_budget "" w.run in
          finish closed closed w)
      else w
  receive store now emitter (found f) w = receive_finding store now emitter f w
  receive store now emitter other_event w = w
  receive store now emitter channel_closed w = record w { watching = false }

-- What happens to a run: its watcher receives a signal, or a request reads it, which synchronises it first.
pub data Action (W : Type 0) : Type 0 where
  signal : Option (Store W) → Time → Emitter → Signal → Action W
  read : Option (Store W) → Action W

module _ {W : Type 0} where
  pub act : Action W → Watch → Watch
  unfolding receive
  act (signal store now emitter s) w = if w.watching then receive store now emitter s w else w
  act (read store) w = record w { run = sync_findings_for_run store w.run }

  -- Actions in any order, the latest first.
  pub acts : List (Action W) → Watch → Watch
  acts [] w = w
  acts (a ∷ earlier) w = act a (acts earlier w)
