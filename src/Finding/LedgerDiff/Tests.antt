-- ===== src/Finding/LedgerDiff/Tests.antt =====
-- The theorems on computeLedgerDiff at two concrete snapshots.
use xrpl_confluence.Prelude.{
  ◌≤◌, String, ◌≡◌, Option, none, some, List, [], ◌∷◌, arith, length, contains, all, string_eq,
}
use xrpl_confluence.Prelude.Int.{pos}
use xrpl_confluence.Prelude.Sort.{sort}
use xrpl_confluence.Prelude.Text.{str_ltb}
use xrpl_confluence.Finding.LedgerDiff.{
  LedgerTxSnapshot, LedgerSnapshot, given, node_ltb, full_diff, compute_ledger_diff,
}
use xrpl_confluence.Finding.LedgerDiff.Shared.{has, common_hashes_lem}

abbrev tx : String → LedgerTxSnapshot
tx h = record { hash = h; transaction_type = "Payment"; account = "r"; meta = none }

abbrev rippled : LedgerSnapshot
rippled = record {
  node = "rippled-0";
  seq = pos 9;
  ledger_hash = "L";
  account_hash = "A";
  transaction_hash = "T";
  transactions = tx "x" ∷ tx "y" ∷ [];
}

abbrev goxrpl : LedgerSnapshot
goxrpl = record {
  node = "goxrpl-0";
  seq = pos 9;
  ledger_hash = "M";
  account_hash = "B";
  transaction_hash = "U";
  transactions = tx "x" ∷ [];
}

abbrev snaps : List (Option LedgerSnapshot)
snaps = some rippled ∷ none ∷ some goxrpl ∷ []

two_snapshots : 2 ≤ length (compute_ledger_diff (pos 9) snaps []).snapshots
unfolding compute_ledger_diff sort given node_ltb str_ltb full_diff
two_snapshots = omega arith

common_hashes_lem_example :
    contains "x" (compute_ledger_diff (pos 9) snaps []).common_hashes
    ≡ all (λ s. has "x" s.transactions) (compute_ledger_diff (pos 9) snaps []).snapshots
common_hashes_lem_example = common_hashes_lem (pos 9) snaps [] "x" two_snapshots
