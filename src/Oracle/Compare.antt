-- ===== src/Oracle/Compare.antt =====
-- The comparisons of oracle.Oracle: CompareAtSequence of sidecar/internal/oracle/oracle.go, CompareTxResult of
-- tx_result.go and InvariantPoolBalance of invariant_balance.go. What each node answers is an argument.
pub mod Agreed
pub mod Tests
use Prim.Native.String.{◌++◌ as str_append}
use xrpl_confluence.Prelude.{
  ℕ, String, Bool, true, false, ◌||◌, ◌&&◌, not, Option, none, some, List, [], ◌∷◌, ◌++◌,
  if◌then◌else◌, ◌==◌, string_eq, all,
}
use xrpl_confluence.Prelude.Int.{ℤ, pos, ◌+ℤ◌, ltb_ℤ}

pub record NodeHash : Type 0 where
  pub name : String
  pub ledger_hash : String
  pub account_hash : String
  pub transaction_hash : String

pub record Divergence : Type 0 where
  pub field : String
  pub node_a : String
  pub hash_a : String
  pub node_b : String
  pub hash_b : String

pub record LedgerComparison : Type 0 where
  pub sequence : ℕ
  pub agreed : Bool
  pub node_hashes : List NodeHash
  pub divergences : List Divergence
  pub errors : List String

-- What the RPC client returns: an error, or the value.
pub data Answer (A : Type 0) : Type 0 where
  failed : String → Answer A
  answered : A → Answer A

-- The three root hashes of a ledger: of the ledger, the accounts and the transactions.
abbrev pub Roots : Type 0
Roots = String × String × String

-- A node: its name, the error of the wait, if any, and its answer for the ledger.
pub record Node : Type 0 where
  pub name : String
  pub waited : Option String
  pub ledger : Answer Roots

pub named : String → String → String
named name err = str_append name (str_append ": " err)

blank : ℕ → LedgerComparison
blank seq = record {
  sequence = seq;
  agreed = true;
  node_hashes = [];
  divergences = [];
  errors = [];
}

fail_with : String → LedgerComparison → LedgerComparison
fail_with err r = record r { errors = r.errors ++ err ∷ []; agreed = false }

-- The first error of the waits.
wait_all : List Node → Option String
unfolding named
wait_all [] = none
wait_all (n ∷ ns) = elim n.waited [ none ↦ wait_all ns | some err ↦ some (named n.name err) ]

note_answer : String → Answer Roots → LedgerComparison → LedgerComparison
unfolding fail_with named
note_answer name (failed err) r = fail_with (named name err) r
note_answer name (answered (l, a, t)) r = record r {
  node_hashes =
      r.node_hashes
      ++ record { name = name; ledger_hash = l; account_hash = a; transaction_hash = t } ∷ [];
}

query_all : List Node → LedgerComparison → LedgerComparison
unfolding note_answer
query_all [] r = r
query_all (n ∷ ns) r = query_all ns (note_answer n.name n.ledger r)

-- One of the three tests of a node against the first.
check_field : String → String → String → String → String → LedgerComparison → LedgerComparison
check_field field name_a hash_a name_b hash_b r = if hash_b == hash_a then r else record r {
  agreed = false;
  divergences =
      r.divergences
      ++ record {
        field = field;
        node_a = name_a;
        hash_a = hash_a;
        node_b = name_b;
        hash_b = hash_b;
      }
        ∷ [];
}

check_node : NodeHash → NodeHash → LedgerComparison → LedgerComparison
unfolding check_field
check_node ref nh r =
    let r1 = check_field "ledger_hash" ref.name ref.ledger_hash nh.name nh.ledger_hash r in
    let r2 = check_field "account_hash" ref.name ref.account_hash nh.name nh.account_hash r1 in
    check_field "transaction_hash" ref.name ref.transaction_hash nh.name nh.transaction_hash r2

check_all : NodeHash → List NodeHash → LedgerComparison → LedgerComparison
unfolding check_node
check_all ref [] r = r
check_all ref (nh ∷ nhs) r = check_all ref nhs (check_node ref nh r)

-- Against the first node; fewer than two are not compared.
check_against : List NodeHash → LedgerComparison → LedgerComparison
unfolding check_all
check_against [] r = r
check_against (ref ∷ nhs) r = check_all ref nhs r

queried : LedgerComparison → LedgerComparison
unfolding check_against
queried r = check_against r.node_hashes r

pub compare_at_sequence : ℕ → List Node → LedgerComparison
unfolding queried query_all blank fail_with
compare_at_sequence seq ns = elim (wait_all ns) [
  | some err ↦ fail_with err (blank seq)
  | none ↦ queried (query_all ns (blank seq))
]

pub record NodeTxResult : Type 0 where
  pub name : String
  pub result : String

pub record TxResultComparison : Type 0 where
  pub tx_hash : String
  pub agreed : Bool
  pub node_results : List NodeTxResult
  pub errors : List String

-- A node's answer for a transaction, and whether the context is cancelled before it is asked.
pub record TxNode : Type 0 where
  pub name : String
  pub cancelled : Bool
  pub tx : Answer String

fail_tx : String → TxResultComparison → TxResultComparison
fail_tx err c = record c { agreed = false; errors = c.errors ++ err ∷ [] }

note_result : String → Answer String → TxResultComparison → TxResultComparison
unfolding fail_tx named
note_result name (failed err) c = fail_tx (named name err) c
note_result name (answered code) c = record c {
  node_results = c.node_results ++ record { name = name; result = code } ∷ [];
}

-- The loop, and whether it returns for the context.
ask_all : List TxNode → TxResultComparison → TxResultComparison × Bool
unfolding note_result fail_tx
ask_all [] c = (c, false)
ask_all (n ∷ ns) c =
    let rest = ask_all ns (note_result n.name n.tx c) in
    if n.cancelled then (fail_tx "ctx cancelled" c, true) else rest

all_as : List NodeTxResult → Bool
all_as [] = true
all_as (ref ∷ rs) = all (λ r. r.result == ref.result) rs

judge : TxResultComparison → TxResultComparison
unfolding all_as
judge c = if all_as c.node_results then c else record c { agreed = false }

pub compare_tx_result : String → List TxNode → TxResultComparison
unfolding ask_all judge
compare_tx_result hash ns =
    let blank : TxResultComparison = record {
      tx_hash = hash;
      agreed = true;
      node_results = [];
      errors = [];
    } in
    let (c, stopped) = ask_all ns blank in if stopped then c else judge c

-- The tracked addresses and the last sum.
pub record InvariantPoolBalance : Type 0 where
  pub addresses : List String
  pub last_sum : Option ℤ

-- The balance of an account: none, a text that is no number, or a number.
pub data Balance : Type 0 where
  no_account : Balance
  unparseable : String → Balance
  drops : ℤ → Balance

pub data Sum : Type 0 where
  refused : String → Sum
  summed : ℤ → Sum

sum_balances : (String → Balance) → List String → ℤ → Sum
sum_balances balance [] sum = summed sum
sum_balances balance (addr ∷ addrs) sum = elim (balance addr) [
  | no_account ↦ sum_balances balance addrs sum
  | unparseable text ↦ refused addr
  | drops b ↦ sum_balances balance addrs (sum +ℤ b)
]

increased : Option ℤ → ℤ → Bool
increased none sum = false
increased (some last) sum = ltb_ℤ last sum

-- The result, and whether it is an error.
settle : Sum → InvariantPoolBalance → InvariantPoolBalance × Bool
unfolding increased
settle (refused addr) i = (i, true)
settle (summed sum) i = (record i { last_sum = some sum }, increased i.last_sum sum)

pub check_ledger : (String → Balance) → InvariantPoolBalance → InvariantPoolBalance × Bool
unfolding sum_balances settle
check_ledger balance i = settle (sum_balances balance i.addresses (pos 0)) i
