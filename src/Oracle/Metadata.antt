-- ===== src/Oracle/Metadata.antt =====
-- CompareTxMetadata of sidecar/internal/oracle/tx_metadata.go. The raw AffectedNodes are a text.
use xrpl_confluence.Prelude.{
  String, Bool, true, false, List, [], ◌∷◌, ◌++◌, if◌then◌else◌, ◌==◌, string_eq, all,
}
use xrpl_confluence.Oracle.Compare.{Answer, failed, answered, TxNode, named}

pub record NodeMetaBlob : Type 0 where
  pub name : String
  pub affected_nodes : String

pub record TxMetadataComparison : Type 0 where
  pub tx_hash : String
  pub agreed : Bool
  pub node_meta : List NodeMetaBlob
  pub errors : List String

fail_meta : String → TxMetadataComparison → TxMetadataComparison
fail_meta err c = record c { agreed = false; errors = c.errors ++ err ∷ [] }

note_meta : String → Answer String → TxMetadataComparison → TxMetadataComparison
unfolding fail_meta
note_meta name (failed err) c = fail_meta (named name err) c
note_meta name (answered blob) c = record c {
  node_meta = c.node_meta ++ record { name = name; affected_nodes = blob } ∷ [];
}

-- The loop, and whether it returns for the context.
ask_meta : List TxNode → TxMetadataComparison → TxMetadataComparison × Bool
unfolding note_meta fail_meta
ask_meta [] c = (c, false)
ask_meta (n ∷ ns) c =
    let rest = ask_meta ns (note_meta n.name n.tx c) in
    if n.cancelled then (fail_meta "ctx cancelled" c, true) else rest

same_meta : List NodeMetaBlob → Bool
same_meta [] = true
same_meta (ref ∷ ms) = all (λ m. m.affected_nodes == ref.affected_nodes) ms

judge_meta : TxMetadataComparison → TxMetadataComparison
unfolding same_meta
judge_meta c = if same_meta c.node_meta then c else record c { agreed = false }

pub compare_tx_metadata : String → List TxNode → TxMetadataComparison
unfolding ask_meta judge_meta
compare_tx_metadata hash ns =
    let blank : TxMetadataComparison = record {
      tx_hash = hash;
      agreed = true;
      node_meta = [];
      errors = [];
    } in
    let (c, stopped) = ask_meta ns blank in if stopped then c else judge_meta c
