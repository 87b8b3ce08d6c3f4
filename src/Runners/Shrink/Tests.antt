-- ===== src/Runners/Shrink/Tests.antt =====
-- The theorem on Shrink at a log of three entries, of which the second and the third show the divergence.
use xrpl_confluence.Prelude.{
  ℕ, String, ◌≡◌, ◌↔◌, ◌≤◌, true, false, none, some, List, [], ◌∷◌, string_eq, arith,
}
use xrpl_confluence.Finding.Mapper.{Divergence}
use xrpl_confluence.Corpus.Signature.{Any}
use xrpl_confluence.Oracle.Compare.{TxNode, answered}
use xrpl_confluence.Runners.Shrink.{Detail, Trial, Setup, shrink}
use xrpl_confluence.Runners.Shrink.Bisection.{IsOrdered, found, shrink-bisects}

abbrev texts : Any String
texts = record { text = λ r. some r; object = λ r. none; array = λ r. none }

abbrev details : Detail String
details = record { text = λ t. t; results = λ rs. "results"; metas = λ ms. "metas" }

abbrev node : String → String → TxNode
node name code = record { name = name; cancelled = false; tx = answered code }

abbrev trial : ℕ → String → Trial
trial step code = record {
  entry = record { step = step; tx_type = "Payment" };
  cancelled = false;
  out = some (record { engine_result = "tesSUCCESS"; tx_hash = "H" });
  validated = true;
  result_nodes = node "rippled-0" "tesSUCCESS" ∷ node "goxrpl-0" code ∷ [];
  metadata_nodes = node "rippled-0" "M" ∷ node "goxrpl-0" "M" ∷ [];
}

abbrev log : List Trial
log = trial 0 "tesSUCCESS" ∷ trial 4 "tecPATH_DRY" ∷ trial 6 "tecPATH_DRY" ∷ []

abbrev original : Divergence String
original = record {
  seed = 7;
  kind = "tx_result";
  description = "results differ";
  details = ("tx_type", "Payment") ∷ [];
  recorded_at = 5;
}

abbrev no_setup : Setup
no_setup = record {
  skip_fund = true;
  skip_setup = true;
  pool = none;
  fund = none;
  setup_state = none;
}

shrink-bisects_example :
    (found (shrink texts details ("a" ∷ "b" ∷ []) no_setup 5 (some original) (some log)) ≡ some 4)
    ↔ ((found (shrink texts details ("a" ∷ "b" ∷ []) no_setup 9 (some original) (some log))
          ≡ some 4)
        × (4 ≤ 5))
unfolding IsOrdered
shrink-bisects_example =
    shrink-bisects texts details ("a" ∷ "b" ∷ []) no_setup 5 9 4 (some original) log
      ((omega arith, (omega arith, tt)), ((omega arith, tt), (tt, tt))) (omega arith)
