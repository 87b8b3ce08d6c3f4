-- ===== src/Runners/Sequence/Tests.antt =====
-- The theorem on seqManager at two concrete submissions.
use xrpl_confluence.Prelude.{ℕ, String, refl, true, none, some, List, [], ◌∷◌, string_eq}
use xrpl_confluence.Prelude.Dict.{lookup, insert}
use xrpl_confluence.Prelude.Int.{pos}
use xrpl_confluence.Runners.Sequence.{
  text, Tx, Client, SeqManager, submitter, is_known, next_of, set_next, consumes_sequence, is_drift,
  settle, submitted, named_account, account_for, peek, signed, peeked, resolved, submit_tx,
}
use xrpl_confluence.Runners.Sequence.Issued.{
  submit_all, IsNumbered, IsSteady, submit_all-IsNumbered,
}

abbrev answering : String → Client ℕ
answering engine_result = record {
  from_seed = λ secret. none;
  account_info = λ account. none;
  sign_local = λ secret fields. some "blob";
  submit_tx_blob = λ i blob. some (record {
    engine_result = engine_result;
    engine_result_code = pos 0;
    engine_result_message = "";
    sequence = 0;
    tx_hash = "h";
    status = "success";
  });
}

abbrev payment : Tx ℕ
payment = record { secret = "s"; fields = ("Account", text "rA") ∷ [] }

abbrev manager : SeqManager
manager = record {
  submitters = 1;
  rr = 0;
  next = ("rA", 41) ∷ [];
  known = ("rA", true) ∷ [];
  addrs = [];
  last_ledger = 0;
}

-- The first is refused and its sequence is used again.
abbrev rounds : List (Client ℕ × Tx ℕ)
rounds =
    (answering "telINSUF_FEE_P", payment)
    ∷ (answering "tesSUCCESS", payment)
    ∷ (answering "tecPATH_DRY", payment)
    ∷ []

rounds-IsSteady : IsSteady (submit_all rounds manager)
unfolding submit_all submit_tx resolved peeked account_for peek is_known next_of lookup insert
    named_account signed submitted is_drift settle consumes_sequence submitter set_next
rounds-IsSteady = (refl, (refl, (refl, tt)))

submit_all-IsNumbered_example : IsNumbered 41 (submit_all rounds manager)
unfolding is_known next_of lookup named_account
submit_all-IsNumbered_example =
    submit_all-IsNumbered "rA" 41 rounds manager (refl, refl) (refl, (refl, (refl, tt)))
      rounds-IsSteady
