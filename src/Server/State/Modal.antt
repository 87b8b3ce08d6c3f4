-- ===== src/Server/State/Modal.antt =====
-- The ledger that GET /v1/state/diff compares at when the query names none.
use xrpl_confluence.Prelude.{
  ℕ, suc, sym, ◌+◌, ◌≤◌, ◌<◌, All, ◌≡◌, refl, Option, none, some, List, [], ◌∷◌, arith,
  if◌then◌else◌, ◌==◌, subst, Bool-cases, inl, inr, ◌⊎◌,
}
use xrpl_confluence.Prelude.Dict.{Dict, lookup, lookup-insert, IsMap, insert-IsMap, lookup-All}
use xrpl_confluence.Prelude.Int.{ℤ, pos, ◌≤ℤ◌, int_eq, beq_ℤ_iff}
use xrpl_confluence.Server.Nodes.{LedgerRef, Node}
use xrpl_confluence.Server.State.{
  count_of, counted, better, count_seq, counts_of, best_of, pick_seq,
}

is_at : ℤ → Option ℤ → ℕ
is_at s none = 0
is_at s (some seq) = if seq == s then 1 else 0

-- How many nodes are at the ledger.
pub votes : ℤ → List Node → ℕ
unfolding is_at
votes s [] = 0
votes s (n ∷ ns) = is_at s (counted n.validated_ledger) + votes s ns

count_of-count_seq :
    (s : ℤ) (o : Option ℤ) (counts : Dict ℤ ℕ)
    → count_of (lookup s (count_seq o counts)) ≡ is_at s o + count_of (lookup s counts)
unfolding count_seq is_at count_of
count_of-count_seq s none counts = omega arith
count_of-count_seq s (some seq) counts =
    ground (arith, lookup-insert seq s (suc (count_of (lookup seq counts))) counts, beq_ℤ_iff seq s)

count_of-counts_of :
    (s : ℤ) (counts : Dict ℤ ℕ) (ns : List Node)
    → count_of (lookup s (counts_of counts ns)) ≡ votes s ns + count_of (lookup s counts)
unfolding counts_of votes
count_of-counts_of s counts [] = omega arith
count_of-counts_of s counts (n ∷ ns) = omega (
  arith,
  count_of-counts_of s (count_seq (counted n.validated_ledger) counts) ns,
  count_of-count_seq s (counted n.validated_ledger) counts,
)

-- The pair is at least as good: more votes, or as many and no lower sequence number.
abbrev Beats : ℤ × ℕ → ℤ × ℕ → Type 0
Beats b e = (e.1 ≤ b.1) × (e.1 ≡ b.1 → e.0 ≤ℤ b.0)

better-Beats :
    (best : ℤ × ℕ) (seq : ℤ) (count : ℕ) (e : ℤ × ℕ)
    → Beats best e
    → Beats (better best seq count) e
unfolding better
better-Beats (best, most) seq count (s, n) b = ground arith

better-Beats_self :
    (best : ℤ × ℕ) (seq : ℤ) (count : ℕ) → Beats (better best seq count) (seq, count)
unfolding better
better-Beats_self (best, most) seq count = ground arith

best_of-Beats : (best e : ℤ × ℕ) (counts : Dict ℤ ℕ) → Beats best e → Beats (best_of best counts) e
unfolding best_of
best_of-Beats best e [] b = b
best_of-Beats best e ((seq, count) ∷ rest) b =
    best_of-Beats (better best seq count) e rest (better-Beats best seq count e b)

-- No ledger has more votes than the result, and none with as many is later.
best_of-lookup :
    (best : ℤ × ℕ) (s : ℤ) (counts : Dict ℤ ℕ)
    → 0 < count_of (lookup s counts)
    → Beats (best_of best counts) (s, count_of (lookup s counts))
unfolding best_of lookup count_of
best_of-lookup best s [] c = ground arith
best_of-lookup best s ((seq, count) ∷ rest) c = elim (Bool-cases (seq == s)) [
  | inl e ↦ rw (e) (
      best_of-Beats (better best seq count) (s, count) rest
        (subst (λ x. Beats (better best seq count) (x, count)) ((beq_ℤ_iff seq s).0 e)
          (better-Beats_self best seq count)))
  | inr e ↦ rw (e) (best_of-lookup (better best seq count) s rest (ground (arith, e, c)))
]

count_seq-IsMap : (o : Option ℤ) (counts : Dict ℤ ℕ) → IsMap counts → IsMap (count_seq o counts)
unfolding count_seq
count_seq-IsMap none counts i = i
count_seq-IsMap (some seq) counts i = insert-IsMap seq (suc (count_of (lookup seq counts))) counts i

counts_of-IsMap : (counts : Dict ℤ ℕ) (ns : List Node) → IsMap counts → IsMap (counts_of counts ns)
unfolding counts_of
counts_of-IsMap counts [] i = i
counts_of-IsMap counts (n ∷ ns) i =
    counts_of-IsMap (count_seq (counted n.validated_ledger) counts) ns
      (count_seq-IsMap (counted n.validated_ledger) counts i)

-- The number of votes that goes with a ledger is the number of nodes at it.
abbrev IsTally : List Node → ℤ × ℕ → Type 0
IsTally ns e = e.1 ≡ votes e.0 ns

entries-IsTally :
    (ns : List Node) (counts m : Dict ℤ ℕ)
    → ((s : ℤ) → count_of (lookup s counts) ≡ votes s ns)
    → All (λ e. lookup e.0 counts ≡ some e.1) m
    → All (IsTally ns) m
unfolding count_of
entries-IsTally ns counts [] h a = tt
entries-IsTally ns counts ((s, n) ∷ m) h (f, a) =
    (ground (arith, h s, f), entries-IsTally ns counts m h a)

best_of-IsTally :
    (ns : List Node) (best : ℤ × ℕ) (counts : Dict ℤ ℕ)
    → IsTally ns best
    → All (IsTally ns) counts
    → IsTally ns (best_of best counts)
unfolding best_of better
best_of-IsTally ns best [] b a = b
best_of-IsTally ns (best, most) ((seq, count) ∷ rest) b (c, a) =
    best_of-IsTally ns (better (best, most) seq count) rest (ground (arith, b, c)) a

is_at_zero : (o : Option LedgerRef) → is_at (pos 0) (counted o) ≡ 0
unfolding is_at counted
is_at_zero none = refl
is_at_zero (some r) = ground (arith, beq_ℤ_iff r.seq (pos 0))

votes_zero : (ns : List Node) → votes (pos 0) ns ≡ 0
unfolding votes
votes_zero [] = refl
votes_zero (n ∷ ns) = omega (arith, is_at_zero n.validated_ledger, votes_zero ns)

-- No ledger has more nodes than the picked one, and one with as many is no later, if it has any.
pub pick_seq-IsModal :
    (ns : List Node) (s : ℤ)
    → (votes s ns < votes (pick_seq ns) ns)
      ⊎ ((votes s ns ≡ votes (pick_seq ns) ns) × ((votes s ns ≡ 0) ⊎ (s ≤ℤ pick_seq ns)))
unfolding pick_seq lookup count_of
pick_seq-IsModal ns s =
    let counts = counts_of [] ns in
    let found : count_of (lookup s counts) ≡ votes s ns + 0 = count_of-counts_of s [] ns in
    let tally : IsTally ns (best_of (pos 0, 0) counts) =
      best_of-IsTally ns (pos 0, 0) counts (sym (votes_zero ns))
        (entries-IsTally ns counts counts (λ k. omega (arith, count_of-counts_of k [] ns))
          (lookup-All counts (counts_of-IsMap [] ns tt))) in
    ground (arith, best_of-lookup (pos 0, 0) s counts, found, tally)
