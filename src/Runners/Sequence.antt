-- ===== src/Runners/Sequence.antt =====
-- seqManager of sidecar/internal/fuzz/runners/seqsubmit.go. What the clients and the wallet answer during
-- a submission is an argument, `none` for an error; the account's lock makes a submission one step. A
-- value of a transaction's field that is neither a number nor a text is of type `R`.
pub mod Issued
pub mod Tests
use package.text.Mathlib.Text.{starts_with}
use xrpl_confluence.Prelude.{
  ℕ, zero, suc, ◌+◌, ◌%◌, ◌^◌, String, ◌≡◌, Bool, true, false, ◌||◌, Option, none, some, List, [],
  ◌∷◌, if◌then◌else◌, length, ◌==◌, string_eq, nat_eq,
}
use xrpl_confluence.Prelude.Dict.{Dict, lookup, insert}
use xrpl_confluence.Prelude.Int.{ℤ, pos}

pub data Field (R : Type 0) : Type 0 where
  number : ℤ → Field R
  text : String → Field R
  other : R → Field R

pub record Tx (R : Type 0) : Type 0 where
  pub secret : String
  pub fields : Dict String (Field R)

pub record SubmitResult : Type 0 where
  pub engine_result : String
  pub engine_result_code : ℤ
  pub engine_result_message : String
  pub sequence : ℕ
  pub tx_hash : String
  pub status : String

-- AccountInfoAt answers the sequence, an int; SubmitTxBlob is asked of the submitter at the index.
pub record Client (R : Type 0) : Type 0 where
  pub from_seed : String → Option String
  pub account_info : String → Option ℕ
  pub sign_local : String → Dict String (Field R) → Option String
  pub submit_tx_blob : ℕ → String → Option SubmitResult

pub record SeqManager : Type 0 where
  pub submitters : ℕ
  pub rr : ℕ
  pub next : Dict String ℕ
  pub known : Dict String Bool
  pub addrs : Dict String String
  pub last_ledger : ℕ

-- At least one submitter: the canonical client stands in for none.
new_seq_manager : ℕ → SeqManager
new_seq_manager n = record {
  submitters = if n == 0 then 1 else n;
  rr = 0;
  next = [];
  known = [];
  addrs = [];
  last_ledger = 0;
}

-- submitter: the index that `s.submitters` is read at, and the counter after it. The index is that of a
-- conversion to int, which no run of submissions makes negative.
submitter : SeqManager → ℕ × SeqManager
submitter s =
    if s.submitters == 1
    then (0, s)
    else (((s.rr + 1) % 2 ^ 64) % s.submitters, record s { rr = (s.rr + 1) % 2 ^ 64 })

-- update of refreshLedger.
refresh_ledger : Option ℕ → SeqManager → SeqManager
refresh_ledger none s = s
refresh_ledger (some idx) s = if idx == 0 then s else record s { last_ledger = idx }

pub is_known : String → SeqManager → Bool
is_known account s = elim (lookup account s.known) [ none ↦ false | some b ↦ b ]

pub next_of : String → SeqManager → ℕ
next_of account s = elim (lookup account s.next) [ none ↦ 0 | some n ↦ n ]

pub set_next : String → ℕ → SeqManager → SeqManager
set_next account seq s = record s {
  next = insert account seq s.next;
  known = insert account true s.known;
}

pub invalidate : String → SeqManager → SeqManager
invalidate account s = record s { known = insert account false s.known }

pub consumes_sequence : String → Bool
consumes_sequence r = r == "tesSUCCESS" || r == "terQUEUED" || starts_with r "tec"

pub is_drift : String → Bool
is_drift r = r == "tefPAST_SEQ" || r == "terPRE_SEQ"

-- The switch on the engine's result.
pub settle : String → ℕ → String → SeqManager → SeqManager
settle account seq r s =
    if consumes_sequence r
    then set_next account ((seq + 1) % 2 ^ 32) s
    else if is_drift r
    then invalidate account s
    else s

derived : String → Option String → SeqManager → Option String × SeqManager
derived secret none s = (none, s)
derived secret (some a) s = (some a, record s { addrs = insert secret a s.addrs })

resynced : String → Option ℕ → SeqManager → Option ℕ × SeqManager
resynced account none s = (none, s)
resynced account (some sequence) s =
    (some (sequence % 2 ^ 32), set_next account (sequence % 2 ^ 32) s)

submitted : String → ℕ → Option SubmitResult → SeqManager → Option SubmitResult × SeqManager
submitted account seq none s = (none, invalidate account s)
submitted account seq (some res) s = (some res, settle account seq res.engine_result s)

module _ {R : Type 0} where
  cached : Client R → String → Option String → SeqManager → Option String × SeqManager
  cached c secret none s = derived secret (c.from_seed secret) s
  cached c secret (some a) s = (some a, s)

  pub named_account : Option (Field R) → Option String
  named_account none = none
  named_account (some (number z)) = none
  named_account (some (text a)) = if a == "" then none else some a
  named_account (some (other r)) = none

  account_for : Client R → Tx R → SeqManager → Option String × SeqManager
  account_for c tx s = elim (named_account (lookup "Account" tx.fields)) [
    | none ↦ cached c tx.secret (lookup tx.secret s.addrs) s
    | some a ↦ (some a, s)
  ]

  peek : Client R → String → SeqManager → Option ℕ × SeqManager
  peek c account s =
      if is_known account s
      then (some (next_of account s), s)
      else resynced account (c.account_info account) s

  put_absent : String → Field R → Dict String (Field R) → Dict String (Field R)
  put_absent k v fields = elim (lookup k fields) [ none ↦ insert k v fields | some w ↦ fields ]

  put_last_ledger : ℕ → Dict String (Field R) → Dict String (Field R)
  put_last_ledger ll fields =
      if ll == 0 then fields else put_absent "LastLedgerSequence" (number (pos (ll + 50))) fields

  -- The fields that a submission fills in.
  stamp : String → ℕ → ℕ → Dict String (Field R) → Dict String (Field R)
  stamp account seq last_ledger fields = put_last_ledger last_ledger (
      put_absent "Fee" (text "10")
        (insert "Sequence" (number (pos seq)) (insert "Account" (text account) fields)))

  signed : Client R → String → ℕ → Option String → SeqManager → Option SubmitResult × SeqManager
  signed c account seq none s = (none, invalidate account s)
  signed c account seq (some blob) s =
      let (i, s') = submitter s in submitted account seq (c.submit_tx_blob i blob) s'

  peeked :
      Client R → Tx R → String → Option ℕ × SeqManager → Option SubmitResult × Tx R × SeqManager
  peeked c tx account (none, s) = (none, tx, s)
  peeked c tx account (some seq, s) =
      let tx' = record tx { fields = stamp account seq s.last_ledger tx.fields } in
      let (res, s') = signed c account seq (c.sign_local tx.secret tx'.fields) s in (res, tx', s')

  resolved : Client R → Tx R → Option String × SeqManager → Option SubmitResult × Tx R × SeqManager
  resolved c tx (none, s) = (none, tx, s)
  resolved c tx (some account, s) = peeked c tx account (peek c account s)

  pub submit_tx : Client R → Tx R → SeqManager → Option SubmitResult × Tx R × SeqManager
  submit_tx c tx s = resolved c tx (account_for c tx s)
