-- ===== src/Server/State/Forks.antt =====
-- That GET /v1/state/diff leaves no fork of the window unreported.
use xrpl_confluence.Prelude.{
  ℕ, ◌+◌, subst, ◌≤◌, String, ◌≡◌, refl, Bool, true, false, not, none, some, List, [], ◌∷◌, ◌++◌,
  arith, ◌==◌, string_eq, length, length-append, contains, All, Bool-cases, inl, inr, ◌⊎◌,
}
use xrpl_confluence.Prelude.Dict.{Dict, lookup}
use xrpl_confluence.Prelude.Int.{ℤ, ltb_ℤ, ◌≤ℤ◌, int_eq, beq_ℤ_iff}
use xrpl_confluence.Server.Nodes.{Node, BySeq, by_node}
use xrpl_confluence.Server.State.{
  next_fork, distinct_hashes, is_forked, Fork, skipped, is_earlier, scan, earliest_forked_seq,
  compare_nodes, at_target, at_fork, target_of, pick_seq, hashes_at, StateDiffResponse,
}

length-distinct :
    (found : List String) (m : Dict String String)
    → length (distinct_hashes found m) ≤ length found + length m
unfolding distinct_hashes
length-distinct found [] = omega arith
length-distinct found ((node, h) ∷ m) = elim (Bool-cases (contains h found)) [
  | inl e ↦ rw (e) (omega (arith, length-distinct found m))
  | inr e ↦
      rw (e) (omega (arith, length-distinct (found ++ h ∷ []) m, length-append found (h ∷ [])))
]

skipped-is_forked : (m : Dict String String) → skipped m ≡ not (is_forked m)
unfolding skipped is_forked
skipped-is_forked m = ground (arith, length-distinct [] m)

-- An entry that is no fork before the one found.
abbrev Settled : Fork → ℤ × Dict String String → Type 0
Settled none e = is_forked e.1 ≡ false
Settled (some (fork, h)) e = ltb_ℤ e.0 fork ≡ true → is_forked e.1 ≡ false

-- What is found is a fork.
abbrev IsFork : Fork → Type 0
IsFork none = Unit
IsFork (some (fork, h)) = is_forked h ≡ true

next-Settled :
    (seq : ℤ) (h : Dict String String) (fork : Fork) (e : ℤ × Dict String String)
    → Settled fork e
    → Settled (next_fork seq h fork) e
unfolding next_fork is_earlier
next-Settled seq h none e s = elim (Bool-cases (skipped h)) [
  | inl q ↦ rw (q) s
  | inr q ↦ rw (q) (λ l. s)
]
next-Settled seq h (some (fork, g)) e s = elim (Bool-cases (skipped h)) [
  | inl q ↦ rw (q) s
  | inr q ↦ elim (Bool-cases (ltb_ℤ seq fork)) [
    | inl r ↦ rw (q, r) (λ l. s (ground (arith, l, r)))
    | inr r ↦ rw (q, r) s
  ]
]

next-Settled_self :
    (seq : ℤ) (h : Dict String String) (fork : Fork) → Settled (next_fork seq h fork) (seq, h)
unfolding next_fork is_earlier
next-Settled_self seq h none = elim (Bool-cases (skipped h)) [
  | inl q ↦ rw (q) (ground (arith, skipped-is_forked h, q))
  | inr q ↦ rw (q) (λ l. ground (arith, l))
]
next-Settled_self seq h (some (fork, g)) = elim (Bool-cases (skipped h)) [
  | inl q ↦ rw (q) (λ l. ground (arith, skipped-is_forked h, q))
  | inr q ↦ elim (Bool-cases (ltb_ℤ seq fork)) [
    | inl r ↦ rw (q, r) (λ l. ground (arith, l))
    | inr r ↦ rw (q, r) (λ l. absurd (cc))
  ]
]

next-IsFork :
    (seq : ℤ) (h : Dict String String) (fork : Fork) → IsFork fork → IsFork (next_fork seq h fork)
unfolding next_fork
next-IsFork seq h fork f = elim (Bool-cases (skipped h)) [
  | inl q ↦ rw (q) f
  | inr q ↦ elim (Bool-cases (is_earlier seq fork)) [
    | inl r ↦ rw (q, r) (ground (arith, skipped-is_forked h, q))
    | inr r ↦ rw (q, r) f
  ]
]

scan-Settled :
    (fork : Fork) (m : BySeq) (e : ℤ × Dict String String)
    → Settled fork e
    → Settled (scan fork m) e
unfolding scan
scan-Settled fork [] e s = s
scan-Settled fork ((seq, h) ∷ m) e s =
    scan-Settled (next_fork seq h fork) m e (next-Settled seq h fork e s)

scan-All : (fork : Fork) (m : BySeq) → All (Settled (scan fork m)) m
unfolding scan
scan-All fork [] = tt
scan-All fork ((seq, h) ∷ m) = (
  scan-Settled (next_fork seq h fork) m (seq, h) (next-Settled_self seq h fork),
  scan-All (next_fork seq h fork) m,
)

scan-IsFork : (fork : Fork) (m : BySeq) → IsFork fork → IsFork (scan fork m)
unfolding scan
scan-IsFork fork [] f = f
scan-IsFork fork ((seq, h) ∷ m) f = scan-IsFork (next_fork seq h fork) m (next-IsFork seq h fork f)

-- The hashes of the window at a ledger differ.
unfoldable pub forked_at : ℤ → BySeq → Bool
forked_at s m = is_forked (by_node (lookup s m))

lookup-Settled :
    (fork : Fork) (s : ℤ) (m : BySeq)
    → All (Settled fork) m
    → Settled fork (s, by_node (lookup s m))
unfolding lookup by_node is_forked distinct_hashes
lookup-Settled none s [] a = refl
lookup-Settled (some f) s [] a = λ l. refl
lookup-Settled fork s ((k, h) ∷ m) (a, rest) = elim (Bool-cases (k == s)) [
  | inl e ↦ rw (e) (subst (λ x. Settled fork (x, h)) ((beq_ℤ_iff k s).0 e) a)
  | inr e ↦ rw (e) (lookup-Settled fork s m rest)
]

-- What a response says if the window is forked at a ledger: a divergence, with hashes that differ, at the
-- target or no later than that ledger.
abbrev pub IsReport : ℤ → ℤ → StateDiffResponse → Type 0
IsReport target s r =
    (r.diverged ≡ true)
    × (is_forked r.hash_by_node ≡ true)
    × ((r.ledger ≡ target) ⊎ (r.ledger ≤ℤ s))

at_fork-IsReport :
    (now : ℕ) (s : ℤ) (by_seq : BySeq) (r : StateDiffResponse) (fork : Fork)
    → forked_at s by_seq ≡ true
    → IsFork fork
    → Settled fork (s, by_node (lookup s by_seq))
    → IsReport r.ledger s (at_fork now r fork)
unfolding at_fork forked_at
at_fork-IsReport now s by_seq r none e f a = absurd (ground (arith, e, a))
at_fork-IsReport now s by_seq r (some (seq, h)) e f a = elim (Bool-cases (ltb_ℤ s seq)) [
  | inl l ↦ absurd (ground (arith, e, a l))
  | inr l ↦ (refl, f, inr (ground (arith, l)))
]

-- If the nodes' validated hashes differ at some ledger of the window, then the answer to a query without
-- `at` claims a divergence and shows hashes that differ: at the picked ledger, or else at one that is no
-- later than that ledger, wherever the nodes' tips are.
pub compare_nodes-IsReport :
    (now : ℕ) (ns : List Node) (by_seq : BySeq) (s : ℤ)
    → forked_at s by_seq ≡ true
    → IsReport (pick_seq ns) s (compare_nodes now none ns by_seq)
unfolding compare_nodes at_target earliest_forked_seq target_of
compare_nodes-IsReport now ns by_seq s f =
    let m = hashes_at (pick_seq ns) ns by_seq in
    elim (Bool-cases (is_forked m)) [
      | inl e ↦ rw (e) (refl, e, inl refl)
      | inr e ↦ rw (e) (
          at_fork-IsReport now s by_seq _ (earliest_forked_seq by_seq) f
            (scan-IsFork none by_seq tt)
            (lookup-Settled (scan none by_seq) s by_seq (scan-All none by_seq)))
    ]
