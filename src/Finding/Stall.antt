-- ===== src/Finding/Stall.antt =====
-- finding.ConsensusProgressOracle of sidecar/internal/finding/consensus_progress_oracle.go. A tick holds
-- the oracle's lock for its whole body and is one step. The snapshot, the clock and the new finding's id
-- are arguments. Ledger sequences and thresholds are natural numbers, and the test
-- `closed - validated > threshold` is written without the subtraction.
pub mod Episodes
pub mod Sustained
pub mod Tests
use Prim.Native.Nat.{max}
use Prim.Native.String.{◌++◌ as ◌+s◌}
use xrpl_confluence.Prelude.{
  ℕ, ◌+◌, ◌-◌, ◌*◌, String, Bool, true, false, ◌||◌, Option, none, some, List, [], ◌∷◌, ◌++◌, map,
  ltb, if◌then◌else◌, string_eq, length, contains,
}
use xrpl_confluence.Prelude.Dict.{Dict, lookup, insert, erase, keep_keys}
use xrpl_confluence.Prelude.Int.{ℤ, pos, pos_part, leb_ℤ, sub_ℕ}
use xrpl_confluence.Prelude.Show.{decimal, decimal_ℤ, whole_seconds, join}
use xrpl_confluence.Prelude.Sort.{sort}
use xrpl_confluence.Prelude.Text.{str_ltb}
use xrpl_confluence.Finding.{Finding, Time, zero_finding, kind_consensus_stall, severity_error}
use xrpl_confluence.Finding.Store.{Store, add}

pub record ConsensusProgressInput : Type 0 where
  pub node : String
  pub closed_seq : ℕ
  pub validated_seq : ℕ

pub record ConsensusProgressOracle : Type 0 where
  pub gap_threshold : ℕ
  pub sustain_for : Time
  pub stall_starts : Dict String Time
  pub open_finding : Bool

-- Two minutes, in nanoseconds.
abbrev pub default_sustain : Time
default_sustain = 120 * 1000000000

pub new_oracle : ℤ → ℤ → ConsensusProgressOracle
new_oracle gap sustain = record {
  gap_threshold = if leb_ℤ gap (pos 0) then 10 else pos_part gap;
  sustain_for = if leb_ℤ sustain (pos 0) then default_sustain else pos_part sustain;
  stall_starts = [];
  open_finding = false;
}

-- The variables of the loop over the snapshot.
pub record Scan : Type 0 where
  pub starts : Dict String Time
  pub stalled : List ConsensusProgressInput
  pub worst : Time

pub is_stalled : ℕ → ConsensusProgressInput → Bool
is_stalled threshold input = ltb (input.validated_seq + threshold) input.closed_seq

start_of : Time → Option Time → Time
start_of now none = now
start_of now (some start) = start

note_start : Time → String → Option Time → Dict String Time → Dict String Time
note_start now node none starts = insert node now starts
note_start now node (some start) starts = starts

-- A clock that went back gives a negative duration, which is never above `worst`; here it is 0.
pub visit : Time → ℕ → Scan → ConsensusProgressInput → Scan
unfolding is_stalled start_of note_start
visit now threshold s input =
    let known = lookup input.node s.starts in
    if is_stalled threshold input
    then record {
      starts = note_start now input.node known s.starts;
      stalled = s.stalled ++ input ∷ [];
      worst = max s.worst (now - start_of now known);
    }
    else record s { starts = erase input.node s.starts }

pub scan : Time → ℕ → Scan → List ConsensusProgressInput → Scan
scan now threshold s [] = s
scan now threshold s (input ∷ inputs) = scan now threshold (visit now threshold s input) inputs

-- The entries of the nodes that are in the snapshot.
purge : List ConsensusProgressInput → Dict String Time → Dict String Time
purge inputs starts = keep_keys (λ node. contains node (map (λ input. input.node) inputs)) starts

describe : ConsensusProgressInput → String
describe input =
    input.node
    +s " closed="
    +s decimal input.closed_seq
    +s " validated="
    +s decimal input.validated_seq
    +s " gap="
    +s decimal_ℤ (sub_ℕ input.closed_seq input.validated_seq)

pub summarize_stall : List ConsensusProgressInput → Time → ℕ → String
unfolding describe
summarize_stall stalled worst threshold =
    "consensus stalled for "
    +s decimal (whole_seconds worst)
    +s "s (gap > "
    +s decimal threshold
    +s " on "
    +s decimal (length stalled)
    +s " node(s)): "
    +s join "; " (map describe (sort (λ a b. str_ltb a.node b.node) stalled))

diff_key : ConsensusProgressInput → String
diff_key input =
    input.node
    +s ":closed="
    +s decimal input.closed_seq
    +s ":validated="
    +s decimal input.validated_seq

pub stall_diff_keys : List ConsensusProgressInput → List String
unfolding diff_key
stall_diff_keys stalled = sort str_ltb (map diff_key stalled)

pub stall_finding : String → Time → ℕ → Scan → Finding
stall_finding id now threshold s = record zero_finding {
  id = id;
  kind = kind_consensus_stall;
  severity = severity_error;
  opened_at = now;
  summary = summarize_stall s.stalled s.worst threshold;
  evidence =
      some (record {
        log_excerpts = [];
        ledger_range = (0, 0);
        diff_keys = stall_diff_keys s.stalled;
      });
}

-- The part of the tick behind the loop and the purge.
settle : String → Time → ConsensusProgressOracle → Scan → ConsensusProgressOracle × Option Finding
settle id now o s = elim s.stalled [
  | [] ↦ (record o { open_finding = false }, none)
  | first ∷ more ↦
      if o.open_finding || ltb s.worst o.sustain_for
      then (o, none)
      else (record o { open_finding = true }, some (stall_finding id now o.gap_threshold s))
]

pub observe :
    String
    → Time
    → List ConsensusProgressInput
    → ConsensusProgressOracle
    → ConsensusProgressOracle × Option Finding
observe id now [] o = (record o { stall_starts = []; open_finding = false }, none)
observe id now (first ∷ more) o =
    let inputs = first ∷ more in
    let s =
      scan now o.gap_threshold (record { starts = o.stall_starts; stalled = []; worst = 0 })
        inputs in
    settle id now (record o { stall_starts = purge inputs s.starts }) s

-- The tick: what is found is added to the store.
pub tick :
    {W : Type 0}
    → String
    → Time
    → List ConsensusProgressInput
    → ConsensusProgressOracle × (Store W × W)
    → ConsensusProgressOracle × (Store W × W)
unfolding observe
tick id now inputs (o, sw) =
    let (o', found) = observe id now inputs o in (o', elim found [ none ↦ sw | some f ↦ add f sw ])
