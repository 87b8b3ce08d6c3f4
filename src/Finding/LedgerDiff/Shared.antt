-- ===== src/Finding/LedgerDiff/Shared.antt =====
-- Which transactions computeLedgerDiff calls common.
use xrpl_confluence.Prelude.{
  ℕ, suc, ◌+◌, ◌≤◌, String, ◌≡◌, refl, Bool, false, ◌&&◌, ◌||◌, Option, List, [], ◌∷◌, arith,
  if◌then◌else◌, ltb, length, contains, select, all, ◌==◌, string_eq, nat_eq, Bool-cases, inl, inr,
}
use text.Mathlib.TextEquality.{eq_iff}
use xrpl_confluence.Prelude.Dict.{Dict, lookup, insert, lookup-insert}
use xrpl_confluence.Prelude.Int.{ℤ}
use xrpl_confluence.Prelude.Sort.{sort, insert_sorted}
use xrpl_confluence.Prelude.Text.{str_ltb}
use xrpl_confluence.Finding.LedgerDiff.{
  LedgerTxSnapshot, LedgerSnapshot, Tally, count_of, count_tx, tally_txs, tally, keys, common_of,
  empty_tally, plain_diff, full_diff, compute_ledger_diff, node_ltb, given,
}

-- The transactions have one with the hash.
abbrev pub has : String → List LedgerTxSnapshot → Bool
has h [] = false
has h (tx ∷ txs) = tx.hash == h || has h txs

abbrev holders : String → List LedgerSnapshot → ℕ
holders h [] = 0
holders h (s ∷ ss) = if has h s.transactions then suc (holders h ss) else holders h ss

holders_le : (h : String) (ss : List LedgerSnapshot) → holders h ss ≤ length ss
holders_le h [] = omega arith
holders_le h (s ∷ ss) = ground (arith, holders_le h ss)

holders-all :
    (h : String) (ss : List LedgerSnapshot)
    → (holders h ss == length ss) ≡ all (λ s. has h s.transactions) ss
holders-all h [] = ground arith
holders-all h (s ∷ ss) = ground (arith, holders-all h ss, holders_le h ss)

count_of-insert :
    (k h : String) (n : ℕ) (d : Dict String ℕ)
    → count_of h (insert k n d) ≡ (if k == h then n else count_of h d)
unfolding count_of
count_of-insert k h n d = ground (arith, lookup-insert k h n d)

tally_txs-count :
    (h : String) (seen : List String) (txs : List LedgerTxSnapshot) (t : Tally)
    → count_of h (tally_txs seen txs t).counts
      ≡ count_of h t.counts + (if contains h seen then 0 else if has h txs then 1 else 0)
unfolding tally_txs count_tx
tally_txs-count h seen [] t = ground arith
tally_txs-count h seen (tx ∷ txs) t = ground (
  arith,
  tally_txs-count h seen txs t,
  tally_txs-count h (tx.hash ∷ seen) txs (count_tx tx t),
  count_of-insert tx.hash h (suc (count_of tx.hash t.counts)) t.counts,
  eq_iff tx.hash h,
)

tally-count :
    (h : String) (ss : List LedgerSnapshot) (t : Tally)
    → count_of h (tally ss t).counts ≡ count_of h t.counts + holders h ss
unfolding tally
tally-count h [] t = ground arith
tally-count h (s ∷ ss) t =
    ground (
      arith,
      tally-count h ss (tally_txs [] s.transactions t),
      tally_txs-count h [] s.transactions t,
    )

keys-missing : (h : String) (d : Dict String ℕ) → contains h (keys d) ≡ false → count_of h d ≡ 0
unfolding keys count_of lookup
keys-missing h [] e = refl
keys-missing h ((k, n) ∷ d) e = ground (arith, e, keys-missing h d)

contains-select :
    (p : String → Bool) (h : String) (xs : List String)
    → contains h (select p xs) ≡ (contains h xs && p h)
contains-select p h [] = refl
contains-select p h (x ∷ xs) = elim (Bool-cases (x == h)) [
  | inl e ↦ rw ((string_eq.beq_iff x h).0 e) (ground (arith, contains-select p h xs, eq_iff h h))
  | inr e ↦ ground (arith, e, contains-select p h xs)
]

contains-insert_sorted :
    (h x : String) (xs : List String)
    → contains h (insert_sorted str_ltb x xs) ≡ (x == h || contains h xs)
unfolding insert_sorted
contains-insert_sorted h x [] = ground arith
contains-insert_sorted h x (y ∷ ys) = ground (arith, contains-insert_sorted h x ys)

contains-sort : (h : String) (xs : List String) → contains h (sort str_ltb xs) ≡ contains h xs
unfolding sort
contains-sort h [] = refl
contains-sort h (x ∷ xs) =
    ground (arith, contains-insert_sorted h x (sort str_ltb xs), contains-sort h xs)

tally-holders :
    (h : String) (ss : List LedgerSnapshot)
    → count_of h (tally ss empty_tally).counts ≡ holders h ss
unfolding empty_tally count_of lookup
tally-holders h ss = omega (arith, tally-count h ss empty_tally)

common_of-all :
    (h : String) (ss : List LedgerSnapshot)
    → 2 ≤ length ss
    → contains h (common_of (length ss) (tally ss empty_tally).counts)
      ≡ all (λ s. has h s.transactions) ss
unfolding common_of
common_of-all h ss l =
    let counts = (tally ss empty_tally).counts in
    let is_common = λ (k : String). count_of k counts == length ss in
    ground (
      arith,
      l,
      contains-sort h (select is_common (keys counts)),
      contains-select is_common h (keys counts),
      keys-missing h counts,
      tally-holders h ss,
      holders-all h ss,
    )

-- Where at least two snapshots came back, CommonHashes has exactly the hashes that every one of them has.
pub common_hashes_lem :
    (seq : ℤ) (snaps : List (Option LedgerSnapshot)) (errors : Dict String String) (h : String)
    → 2 ≤ length (compute_ledger_diff seq snaps errors).snapshots
    → contains h (compute_ledger_diff seq snaps errors).common_hashes
      ≡ all (λ s. has h s.transactions) (compute_ledger_diff seq snaps errors).snapshots
unfolding compute_ledger_diff plain_diff full_diff
common_hashes_lem seq snaps errors h =
    let ss = sort node_ltb (given snaps) in
    elim (Bool-cases (ltb (length ss) 2)) [
      | inl e ↦ rw (e) (λ l. absurd (ground (arith, e, l)))
      | inr e ↦ rw (e) (common_of-all h ss)
    ]
