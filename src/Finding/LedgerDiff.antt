-- ===== src/Finding/LedgerDiff.antt =====
-- computeLedgerDiff of sidecar/internal/finding/ledger_diff.go. A map is ranged over by its keys; a nil
-- OnlyOnNodes is an empty one. Meta is the verbatim text of the message.
pub mod Shared
pub mod Tests
use xrpl_confluence.Prelude.{
  ℕ, zero, suc, ◌+◌, String, ◌≡◌, Bool, true, false, not, ◌&&◌, ◌||◌, Option, none, some, List, [],
  ◌∷◌, ◌++◌, map, if◌then◌else◌, ltb, length, contains, select, any, ◌==◌, ◌/=◌, string_eq, nat_eq,
}
use xrpl_confluence.Prelude.Dict.{Dict, lookup, insert}
use xrpl_confluence.Prelude.Int.{ℤ}
use xrpl_confluence.Prelude.Sort.{sort}
use xrpl_confluence.Prelude.Text.{str_ltb}

pub record LedgerTxSnapshot : Type 0 where
  pub hash : String
  pub transaction_type : String
  pub account : String
  pub meta : Option String

pub record LedgerSnapshot : Type 0 where
  pub node : String
  pub seq : ℤ
  pub ledger_hash : String
  pub account_hash : String
  pub transaction_hash : String
  pub transactions : List LedgerTxSnapshot

pub record LedgerDiff : Type 0 where
  pub seq : ℤ
  pub snapshots : List LedgerSnapshot
  pub only_on_nodes : Dict String (List String)
  pub common_hashes : List String
  pub suspect_tx_types : List String
  pub root_hash_conflict : Bool
  pub fetch_errors : Dict String String

-- The snapshots that are not nil.
given : List (Option LedgerSnapshot) → List LedgerSnapshot
given [] = []
given (none ∷ snaps) = given snaps
given (some s ∷ snaps) = s ∷ given snaps

node_ltb : LedgerSnapshot → LedgerSnapshot → Bool
node_ltb a b = str_ltb a.node b.node

-- hashCount and rep.
pub record Tally : Type 0 where
  pub counts : Dict String ℕ
  pub rep : Dict String LedgerTxSnapshot

pub count_of : String → Dict String ℕ → ℕ
count_of h counts = elim (lookup h counts) [ none ↦ 0 | some n ↦ n ]

-- `rep[h] = tx` where the hash is new.
add_rep : LedgerTxSnapshot → Dict String LedgerTxSnapshot → Dict String LedgerTxSnapshot
add_rep tx rep = elim (lookup tx.hash rep) [ none ↦ insert tx.hash tx rep | some old ↦ rep ]

count_tx : LedgerTxSnapshot → Tally → Tally
count_tx tx t = record {
  counts = insert tx.hash (suc (count_of tx.hash t.counts)) t.counts;
  rep = add_rep tx t.rep;
}

-- The transactions of a node, each hash counted once.
tally_txs : List String → List LedgerTxSnapshot → Tally → Tally
tally_txs seen [] t = t
tally_txs seen (tx ∷ txs) t =
    let skipped = tally_txs seen txs t in
    let taken = tally_txs (tx.hash ∷ seen) txs (count_tx tx t) in
    if contains tx.hash seen then skipped else taken

pub tally : List LedgerSnapshot → Tally → Tally
tally [] t = t
tally (s ∷ ss) t = tally ss (tally_txs [] s.transactions t)

keys {ℓ} : {V : Type ℓ} → Dict String V → List String
keys [] = []
keys ((k, v) ∷ d) = k ∷ keys d

-- The hashes of one node that are not on every one of `n` nodes.
pub only_of : ℕ → Dict String ℕ → List LedgerTxSnapshot → List String
only_of n counts [] = []
only_of n counts (tx ∷ txs) =
    if ltb (count_of tx.hash counts) n then tx.hash ∷ only_of n counts txs else only_of n counts txs

type_of : Option LedgerTxSnapshot → String
type_of none = ""
type_of (some tx) = tx.transaction_type

suspects_of : ℕ → Tally → List LedgerTxSnapshot → List String → List String
suspects_of n t [] types = types
suspects_of n t (tx ∷ txs) types =
    let type = type_of (lookup tx.hash t.rep) in
    let fresh = ltb (count_of tx.hash t.counts) n && type /= "" && not (contains type types) in
    suspects_of n t txs (if fresh then type ∷ types else types)

all_suspects : ℕ → Tally → List LedgerSnapshot → List String → List String
all_suspects n t [] types = types
all_suspects n t (s ∷ ss) types = all_suspects n t ss (suspects_of n t s.transactions types)

put_only : String → List String → Dict String (List String) → Dict String (List String)
put_only node [] d = d
put_only node (h ∷ hs) d = insert node (h ∷ hs) d

only_on :
    ℕ → Dict String ℕ → List LedgerSnapshot → Dict String (List String) → Dict String (List String)
only_on n counts [] d = d
only_on n counts (s ∷ ss) d =
    only_on n counts ss (put_only s.node (sort str_ltb (only_of n counts s.transactions)) d)

roots_differ : LedgerSnapshot → LedgerSnapshot → Bool
roots_differ ref s =
    s.ledger_hash /= ref.ledger_hash
    || s.account_hash /= ref.account_hash
    || s.transaction_hash /= ref.transaction_hash

conflict : List LedgerSnapshot → Bool
conflict [] = false
conflict (ref ∷ ss) = any (roots_differ ref) ss

common_of : ℕ → Dict String ℕ → List String
common_of n counts = sort str_ltb (select (λ h. count_of h counts == n) (keys counts))

pub empty_tally : Tally
empty_tally = record { counts = []; rep = [] }

-- The answer on fewer than two snapshots.
plain_diff : ℤ → List LedgerSnapshot → Dict String String → LedgerDiff
plain_diff seq ss errors = record {
  seq = seq;
  snapshots = ss;
  only_on_nodes = [];
  common_hashes = [];
  suspect_tx_types = [];
  root_hash_conflict = false;
  fetch_errors = errors;
}

full_diff : ℤ → List LedgerSnapshot → Dict String String → LedgerDiff
full_diff seq ss errors =
    let n = length ss in
    let t = tally ss empty_tally in
    record {
      seq = seq;
      snapshots = ss;
      only_on_nodes = only_on n t.counts ss [];
      common_hashes = common_of n t.counts;
      suspect_tx_types = sort str_ltb (all_suspects n t ss []);
      root_hash_conflict = conflict ss;
      fetch_errors = errors;
    }

pub compute_ledger_diff : ℤ → List (Option LedgerSnapshot) → Dict String String → LedgerDiff
compute_ledger_diff seq snaps errors =
    let ss = sort node_ltb (given snaps) in
    if ltb (length ss) 2 then plain_diff seq ss errors else full_diff seq ss errors
