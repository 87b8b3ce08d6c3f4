-- ===== src/Runners/Shrink.antt =====
-- Shrink of sidecar/internal/fuzz/runners/shrink.go: one probe of a run log. What the network does with an entry
-- comes with it. Steps, which a run counts from 0, are naturals. The clock and the file of the result are left
-- out: an error of the latter is only logged.
pub mod Bisection
pub mod Tests
use xrpl_confluence.Prelude.{
  ℕ, String, Bool, true, false, ◌||◌, ◌&&◌, not, ◌+◌, Option, none, some, List, [], ◌∷◌, ◌++◌,
  if◌then◌else◌, ◌==◌, string_eq, ltb, length,
}
use xrpl_confluence.Prelude.Dict.{Dict}
use xrpl_confluence.Finding.Mapper.{Divergence}
use xrpl_confluence.Corpus.Signature.{
  Any, DivergenceSignature, load_divergence_signature, signature_matches,
}
use xrpl_confluence.Oracle.Compare.{
  Answer, failed, answered, TxNode, NodeTxResult, compare_tx_result,
}
use xrpl_confluence.Oracle.Metadata.{NodeMetaBlob, compare_tx_metadata}

-- A value of Details, from a text and from the two lists of answers.
pub record Detail (R : Type 0) : Type 0 where
  pub text : String → R
  pub results : List NodeTxResult → R
  pub metas : List NodeMetaBlob → R

-- The fields of an entry that the loop reads itself; the others are for the submission.
pub record RunLogEntry : Type 0 where
  pub step : ℕ
  pub tx_type : String

pub record SubmitResult : Type 0 where
  pub engine_result : String
  pub tx_hash : String

-- An entry, and what happens at its turn: whether the context is cancelled, what the submission returns
-- (`none` is an error), whether every node validates, and the answers to the two comparisons.
pub record Trial : Type 0 where
  pub entry : RunLogEntry
  pub cancelled : Bool
  pub out : Option SubmitResult
  pub validated : Bool
  pub result_nodes : List TxNode
  pub metadata_nodes : List TxNode

pub record ShrinkResult : Type 0 where
  pub matched : Bool
  pub max_step : ℕ
  pub matched_at : ℕ
  pub signature : DivergenceSignature
  pub observed : List String
  pub txs_submitted : ℕ
  pub txs_succeeded : ℕ

-- The errors of the account pool, the funding and the setup, if any.
pub record Setup : Type 0 where
  pub skip_fund : Bool
  pub skip_setup : Bool
  pub pool : Option String
  pub fund : Option String
  pub setup_state : Option String

is_accepted : SubmitResult → Bool
is_accepted out = out.engine_result == "tesSUCCESS" || out.engine_result == "terQUEUED"

unless : Bool → Option String → Option String
unless skip err = if skip then none else err

then_error : Option String → Option String → Option String
then_error none next = next
then_error (some err) next = some err

-- The first error of the setup.
set_up : Setup → Option String
unfolding unless then_error
set_up s =
    then_error (unless (s.skip_fund && s.skip_setup) s.pool)
      (then_error (unless s.skip_fund s.fund) (unless s.skip_setup s.setup_state))

module _ {R : Type 0} (go : Any R) (detail : Detail R) where
  divergence_of : String → String → String → String → R → Divergence R
  divergence_of kind hash tx_type key answers = record {
    seed = 0;
    kind = kind;
    description = "";
    details =
        ("tx_hash", detail.text hash) ∷ ("tx_type", detail.text tx_type) ∷ (key, answers) ∷ [];
    recorded_at = 0;
  }

  tx_result_divergence : String → String → List TxNode → Option (Divergence R)
  unfolding divergence_of
  tx_result_divergence hash tx_type ns =
      let cmp = compare_tx_result hash ns in
      if cmp.agreed
      then none
      else some
          (divergence_of "tx_result" hash tx_type "node_results" (detail.results cmp.node_results))

  tx_metadata_divergence : String → String → List TxNode → Option (Divergence R)
  unfolding divergence_of
  tx_metadata_divergence hash tx_type ns =
      let cmp = compare_tx_metadata hash ns in
      if cmp.agreed
      then none
      else some (divergence_of "metadata" hash tx_type "node_meta" (detail.metas cmp.node_meta))

  -- What the loop does with a divergence, or with none.
  note : ℕ → Option (Divergence R) → ShrinkResult → ShrinkResult
  note step none res = res
  note step (some d) res =
      let seen = record res { observed = res.observed ++ d.kind ∷ [] } in
      if not res.matched && signature_matches go res.signature (some d)
      then record seen { matched = true; matched_at = step }
      else seen

  compare_entry : Trial → String → ShrinkResult → ShrinkResult
  unfolding note tx_result_divergence tx_metadata_divergence
  compare_entry e hash res =
      let first =
        note e.entry.step (tx_result_divergence hash e.entry.tx_type e.result_nodes) res in
      note e.entry.step (tx_metadata_divergence hash e.entry.tx_type e.metadata_nodes) first

  succeed : Trial → SubmitResult → ShrinkResult → ShrinkResult
  unfolding compare_entry
  succeed e out res =
      let counted = record res { txs_succeeded = res.txs_succeeded + 1 } in
      if out.tx_hash == "" || not e.validated then counted else compare_entry e out.tx_hash counted

  submitted : Trial → Option SubmitResult → ShrinkResult → ShrinkResult
  unfolding succeed is_accepted
  submitted e none res = res
  submitted e (some out) res = if is_accepted out then succeed e out res else res

  replay_entry : Trial → ShrinkResult → ShrinkResult
  unfolding submitted
  replay_entry e res = submitted e e.out (record res { txs_submitted = res.txs_submitted + 1 })

  replay : List Trial → ShrinkResult → ShrinkResult
  unfolding replay_entry
  replay [] res = res
  replay (e ∷ es) res =
      let rest = replay es (replay_entry e res) in
      if e.cancelled || ltb res.max_step e.entry.step then res else rest

  probe : ℕ → List Trial → DivergenceSignature → ShrinkResult
  unfolding replay
  probe max_step entries sig = replay entries (record {
    matched = false;
    max_step = max_step;
    matched_at = 0;
    signature = sig;
    observed = [];
    txs_submitted = 0;
    txs_succeeded = 0;
  })

  run_probe :
      ℕ → Option DivergenceSignature → Option (List Trial) → Option String → Answer ShrinkResult
  unfolding probe
  run_probe max_step none log err = failed "signature"
  run_probe max_step (some sig) none err = failed "read run log"
  run_probe max_step (some sig) (some entries) (some err) = failed err
  run_probe max_step (some sig) (some entries) none = answered (probe max_step entries sig)

  -- `none` is an error of the file of the divergence, or of the run log. Of an error only its start is kept.
  pub shrink :
      List String → Setup → ℕ → Option (Divergence R) → Option (List Trial) → Answer ShrinkResult
  unfolding run_probe set_up
  shrink node_urls setup max_step file log =
      if ltb (length node_urls) 2
      then failed "need >= 2 NodeURLs for oracle comparison"
      else run_probe max_step (load_divergence_signature go file) log (set_up setup)
