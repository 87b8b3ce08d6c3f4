-- ===== src/Finding/Divergence.antt =====
-- finding.DivergenceOracle of sidecar/internal/finding/divergence_oracle.go. The snapshot, the clock, the
-- new ids, what fetchAllConcurrent brings back and json.Marshal are arguments; each tick of the one goroutine
-- is a step. Only texts of ASCII characters stand for hashes, so that the first 8 bytes are characters.
pub mod Once
pub mod Agreeing
pub mod Tests
use Prim.Native.String.{◌++◌ as str_append, slice}
use xrpl_confluence.Prelude.{
  ℕ, zero, suc, ◌-◌, ◌%◌, ◌^◌, String, Bool, true, false, Option, none, some, List, [], ◌∷◌, ◌++◌,
  map, if◌then◌else◌, ltb, length, contains, string_eq, ◌==◌,
}
use xrpl_confluence.Prelude.Dict.{Dict, lookup, insert}
use xrpl_confluence.Prelude.Int.{ℤ, pos, negsuc, int_eq}
use xrpl_confluence.Prelude.Show.{decimal, decimal_ℤ, join}
use xrpl_confluence.Prelude.Sort.{sort}
use xrpl_confluence.Prelude.Text.{str_ltb}
use xrpl_confluence.Finding.{Finding, Time, zero_finding, kind_state_divergence, severity_error}
use xrpl_confluence.Finding.LedgerDiff.{LedgerSnapshot, LedgerDiff, compute_ledger_diff}

pub record DivergenceInput : Type 0 where
  pub node : String
  pub seq : ℤ
  pub hash : String

pub record DivergenceOracle : Type 0 where
  pub seen : Dict String Bool

pub new_divergence_oracle : DivergenceOracle
new_divergence_oracle = record { seen = [] }

-- The configured fetcher, if any, json.Marshal of a diff, the clock, and the ids of the tick.
pub record World : Type 0 where
  pub fetch : Option (List String → ℤ → List (Option LedgerSnapshot) × Dict String String)
  pub marshal : LedgerDiff → Option String
  pub now : Time
  pub new_id : ℕ → String

abbrev pub Group : Type 0
Group = ℤ × List DivergenceInput

members : Option (List DivergenceInput) → List DivergenceInput
members none = []
members (some g) = g

-- bySeq
pub group_by_seq :
    List DivergenceInput → Dict ℤ (List DivergenceInput) → Dict ℤ (List DivergenceInput)
group_by_seq [] groups = groups
group_by_seq (i ∷ is) groups =
    group_by_seq is (insert i.seq (members (lookup i.seq groups) ++ i ∷ []) groups)

-- The keys of hashSet, in the order in which they come.
pub distinct_hashes : List String → List DivergenceInput → List String
distinct_hashes found [] = found
distinct_hashes found (i ∷ is) =
    distinct_hashes (if contains i.hash found then found else found ++ i.hash ∷ []) is

pub sorted_hashes : List DivergenceInput → List String
sorted_hashes group = sort str_ltb (distinct_hashes [] group)

dedup_key : ℤ → List String → String
dedup_key seq hashes = str_append (decimal_ℤ seq) (str_append ":" (join "|" hashes))

nodes_of : String → List DivergenceInput → List String
nodes_of h [] = []
nodes_of h (i ∷ is) = if i.hash == h then i.node ∷ nodes_of h is else nodes_of h is

part : List DivergenceInput → String → String
part inputs h = str_append (join "=" (nodes_of h inputs)) (slice h 0 8)

summarize_nodes_by_hash : List DivergenceInput → String
summarize_nodes_by_hash inputs = join ", " (map (part inputs) (sorted_hashes inputs))

-- The conversion to uint32.
to_uint32 : ℤ → ℕ
to_uint32 (pos n) = n % 2 ^ 32
to_uint32 (negsuc n) = 2 ^ 32 - 1 - n % 2 ^ 32

bare_finding : World → ℕ → ℤ → List String → List DivergenceInput → Finding
bare_finding w i seq hashes group = record zero_finding {
  id = w.new_id i;
  kind = kind_state_divergence;
  severity = severity_error;
  opened_at = w.now;
  summary = str_append (decimal (length hashes)) (
      str_append " nodes disagree on validated ledger "
        (str_append (decimal_ℤ seq) (str_append ": " (summarize_nodes_by_hash group))));
  evidence = some (record {
    log_excerpts = [];
    ledger_range = (to_uint32 seq, to_uint32 seq);
    diff_keys = str_append "validated_ledger:" (decimal_ℤ seq) ∷ [];
  });
}

with_diff : World → LedgerDiff → Finding → Finding
with_diff w diff f = record f {
  detail = w.marshal diff;
  suspected_components = f.suspected_components ++ diff.suspect_tx_types;
}

finding_of : World → ℕ → ℤ → List String → List DivergenceInput → Finding
finding_of w i seq hashes group = elim w.fetch [
  | none ↦ bare_finding w i seq hashes group
  | some fetch ↦
      let (snaps, errors) = fetch (sort str_ltb (map (λ x. x.node) group)) seq in
      with_diff w (compute_ledger_diff seq snaps errors) (bare_finding w i seq hashes group)
]

is_seen : Option Bool → Bool
is_seen none = false
is_seen (some b) = b

-- The body of the loop over bySeq, behind the hashes: the finding, if one is made.
report : World → ℕ → Group → List String → DivergenceOracle → DivergenceOracle × List Finding
report w i (seq, group) hashes o =
    let key = dedup_key seq hashes in
    if ltb (length hashes) 2
    then (o, [])
    else if is_seen (lookup key o.seen)
    then (o, [])
    else (record { seen = insert key true o.seen }, finding_of w i seq hashes group ∷ [])

pub report_all : World → ℕ → List Group → DivergenceOracle → DivergenceOracle × List Finding
report_all w i [] o = (o, [])
report_all w i (g ∷ gs) o =
    let (o', f) = report w i g (sorted_hashes g.1) o in
    let (o'', fs) = report_all w (suc i) gs o' in (o'', f ++ fs)

-- The tick; what it returns is added to the store.
pub tick : World → List DivergenceInput → DivergenceOracle → DivergenceOracle × List Finding
tick w inputs o = report_all w 0 (group_by_seq inputs []) o
