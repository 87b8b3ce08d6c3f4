-- ===== src/Server/State.antt =====
-- GET /v1/state/diff of sidecar/internal/server/state.go: which ledger the nodes are compared at, and
-- whether their validated hashes differ. `at` is what Atoi made of the query, the response writer is the
-- result, and the poller's methods are those of Server.Nodes.
pub mod Forks
pub mod Modal
pub mod Tests
use xrpl_confluence.Prelude.{
  ℕ, suc, String, Bool, true, false, ◌||◌, ◌&&◌, not, Option, none, some, List, [], ◌∷◌, ◌++◌,
  if◌then◌else◌, ◌==◌, ◌/=◌, string_eq, ltb, leb, nat_beq, length, contains,
}
use xrpl_confluence.Prelude.Dict.{Dict, lookup, insert}
use xrpl_confluence.Prelude.Int.{ℤ, pos, ltb_ℤ, leb_ℤ, int_eq}
use xrpl_confluence.Server.Nodes.{
  LedgerRef, Node, NodePoller, BySeq, by_node, snapshot, validated_hashes_by_seq,
}

pub record StateDiffResponse : Type 0 where
  pub ledger : ℤ
  pub hash_by_node : Dict String String
  pub diverged : Bool
  pub as_of : ℕ

-- The keys of the set of hashes.
pub distinct_hashes : List String → Dict String String → List String
distinct_hashes found [] = found
distinct_hashes found ((node, h) ∷ m) =
    distinct_hashes (if contains h found then found else found ++ h ∷ []) m

pub is_forked : Dict String String → Bool
unfolding distinct_hashes
is_forked m = leb 2 (length (distinct_hashes [] m))

-- What the loop of earliestForkedSeq holds: forkSeq with its map, once found.
abbrev pub Fork : Type 0
Fork = Option (ℤ × Dict String String)

is_earlier : ℤ → Fork → Bool
is_earlier seq none = true
is_earlier seq (some (fork, m)) = ltb_ℤ seq fork

skipped : Dict String String → Bool
skipped m = ltb (length m) 2 || not (is_forked m)

-- The body of the loop.
next_fork : ℤ → Dict String String → Fork → Fork
unfolding skipped is_earlier
next_fork seq m fork =
    if skipped m then fork else if is_earlier seq fork then some (seq, m) else fork

scan : Fork → BySeq → Fork
scan fork [] = fork
scan fork ((seq, m) ∷ rest) = scan (next_fork seq m fork) rest

pub earliest_forked_seq : BySeq → Fork
unfolding scan
earliest_forked_seq m = scan none m

count_of : Option ℕ → ℕ
count_of none = 0
count_of (some n) = n

-- The number of a validated ledger that counts.
pub counted : Option LedgerRef → Option ℤ
counted none = none
counted (some r) = if ltb_ℤ (pos 0) r.seq then some r.seq else none

count_seq : Option ℤ → Dict ℤ ℕ → Dict ℤ ℕ
unfolding count_of
count_seq none counts = counts
count_seq (some seq) counts = insert seq (suc (count_of (lookup seq counts))) counts

counts_of : Dict ℤ ℕ → List Node → Dict ℤ ℕ
unfolding count_seq counted
counts_of counts [] = counts
counts_of counts (n ∷ ns) = counts_of (count_seq (counted n.validated_ledger) counts) ns

-- The loop over the counts, from `best` and `bestCount`.
better : ℤ × ℕ → ℤ → ℕ → ℤ × ℕ
better (best, most) seq count =
    if ltb most count || (nat_beq count most && ltb_ℤ best seq) then (seq, count) else (best, most)

best_of : ℤ × ℕ → Dict ℤ ℕ → ℤ × ℕ
unfolding better
best_of best [] = best
best_of best ((seq, count) ∷ rest) = best_of (better best seq count) rest

pub pick_seq : List Node → ℤ
unfolding counts_of best_of
pick_seq ns = (best_of (pos 0, 0) (counts_of [] ns)).0

tip_hash : ℤ → Option LedgerRef → Option String
tip_hash target none = none
tip_hash target (some r) = if r.seq == target && r.hash /= "" then some r.hash else none

put_tip : String → Option String → Dict String String → Dict String String
put_tip name none m = m
put_tip name (some h) m = insert name h m

-- The hashes of the live tips at the target.
tip_hashes : ℤ → List Node → Dict String String → Dict String String
unfolding tip_hash put_tip
tip_hashes target [] m = m
tip_hashes target (n ∷ ns) m =
    tip_hashes target ns (put_tip n.name (tip_hash target n.validated_ledger) m)

put_missing : Option String → String → String → Dict String String → Dict String String
put_missing none name h m = insert name h m
put_missing (some found) name h m = m

-- The hashes of the window at the target, for the nodes that have none yet.
enrich : Dict String String → Dict String String → Dict String String
unfolding put_missing
enrich [] m = m
enrich ((name, h) ∷ rest) m = enrich rest (put_missing (lookup name m) name h m)

pub target_of : Option ℤ → List Node → ℤ
target_of none ns = pick_seq ns
target_of (some at_seq) ns = at_seq

pub hashes_at : ℤ → List Node → BySeq → Dict String String
unfolding tip_hashes enrich
hashes_at target ns by_seq = enrich (by_node (lookup target by_seq)) (tip_hashes target ns [])

at_target : ℕ → ℤ → Dict String String → StateDiffResponse
at_target now target m = record {
  ledger = target;
  hash_by_node = m;
  diverged = is_forked m;
  as_of = now;
}

at_fork : ℕ → StateDiffResponse → Fork → StateDiffResponse
at_fork now clean none = clean
at_fork now clean (some (seq, m)) = record {
  ledger = seq;
  hash_by_node = m;
  diverged = true;
  as_of = now;
}

-- The comparison, behind the checks on the query; `none` is a query without `at`.
pub compare_nodes : ℕ → Option ℤ → List Node → BySeq → StateDiffResponse
unfolding at_target at_fork
compare_nodes now at_seq ns by_seq =
    let target = target_of at_seq ns in
    let response = at_target now target (hashes_at target ns by_seq) in
    elim at_seq [
      | none ↦
          if response.diverged then response else at_fork now response (earliest_forked_seq by_seq)
      | some n ↦ response
    ]

-- The `at` of the query: missing, refused by Atoi, or a number.
pub data At : Type 0 where
  no_at : At
  no_number : At
  at_number : ℤ → At

no_poller : ℕ → StateDiffResponse
no_poller now = record { ledger = pos 0; hash_by_node = []; diverged = false; as_of = now }

diff_of : ℕ → Option ℤ → Option NodePoller → StateDiffResponse
diff_of now at_seq none = no_poller now
diff_of now at_seq (some p) =
    compare_nodes now at_seq (snapshot now p).nodes (validated_hashes_by_seq p)

-- The handler; `none` is the answer 400.
pub state_diff : ℕ → At → Option NodePoller → Option StateDiffResponse
unfolding diff_of
state_diff now no_at p = some (diff_of now none p)
state_diff now no_number p = none
state_diff now (at_number n) p = if leb_ℤ n (pos 0) then none else some (diff_of now (some n) p)
