-- ===== src/Oracle/Compare/Agreed.antt =====
-- What it takes for CompareAtSequence of oracle.Oracle to find that the nodes agree.
use xrpl_confluence.Prelude.{
  ℕ, String, ◌≡◌, ◌↔◌, ◌∙◌, sym, ap, subst, refl, Bool, true, false, ◌&&◌, none, some, List, [],
  ◌∷◌, ◌++◌, arith, ◌==◌, string_eq, all, All, Option-cases, inl, inr,
}
use mathlib.Core.List.{append_assoc, append-nil}
use text.Mathlib.TextEquality.{eq_iff}
use xrpl_confluence.Oracle.Compare.{
  NodeHash, LedgerComparison, Answer, failed, answered, Roots, Node, blank, fail_with, wait_all,
  note_answer, query_all, check_field, check_node, check_all, check_against, queried,
  compare_at_sequence,
}

is_ready : Node → Bool
is_ready n = elim n.waited [ none ↦ true | some err ↦ false ]

is_answer : Answer Roots → Bool
is_answer (failed err) = false
is_answer (answered x) = true

hashes_of : String → Answer Roots → List NodeHash
hashes_of name (failed err) = []
hashes_of name (answered (l, a, t)) =
    record { name = name; ledger_hash = l; account_hash = a; transaction_hash = t } ∷ []

hashes : List Node → List NodeHash
hashes [] = []
hashes (n ∷ ns) = hashes_of n.name n.ledger ++ hashes ns

same : NodeHash → NodeHash → Bool
same ref nh =
    nh.ledger_hash == ref.ledger_hash
    && (nh.account_hash == ref.account_hash && nh.transaction_hash == ref.transaction_hash)

all_as_first : List NodeHash → Bool
all_as_first [] = true
all_as_first (ref ∷ nhs) = all (same ref) nhs

wait_all-ready : (ns : List Node) → (wait_all ns ≡ none) ↔ (all is_ready ns ≡ true)
unfolding wait_all is_ready
wait_all-ready [] = (λ e. refl, λ e. refl)
wait_all-ready (n ∷ ns) = elim (Option-cases n.waited) [
  | inl e ↦ rw (wait_all, is_ready, e) (wait_all-ready ns)
  | inr (err, e) ↦ rw (wait_all, is_ready, e) (λ q. ground (arith, q), λ q. absurd (cc))
]

note_answer-agreed :
    (name : String) (a : Answer Roots) (r : LedgerComparison)
    → (note_answer name a r).agreed ≡ (r.agreed && is_answer a)
unfolding note_answer fail_with is_answer
note_answer-agreed name (failed err) r = ground arith
note_answer-agreed name (answered (l, a, t)) r = ground arith

note_answer-hashes :
    (name : String) (a : Answer Roots) (r : LedgerComparison)
    → (note_answer name a r).node_hashes ≡ r.node_hashes ++ hashes_of name a
unfolding note_answer fail_with hashes_of
note_answer-hashes name (failed err) r = sym (append-nil r.node_hashes)
note_answer-hashes name (answered (l, a, t)) r = refl

query_all-agreed :
    (ns : List Node) (r : LedgerComparison)
    → (query_all ns r).agreed ≡ (r.agreed && all (λ n. is_answer n.ledger) ns)
unfolding query_all
query_all-agreed [] r = ground arith
query_all-agreed (n ∷ ns) r = ground (
  arith,
  query_all-agreed ns (note_answer n.name n.ledger r),
  note_answer-agreed n.name n.ledger r,
)

query_all-hashes :
    (ns : List Node) (r : LedgerComparison)
    → (query_all ns r).node_hashes ≡ r.node_hashes ++ hashes ns
unfolding query_all hashes
query_all-hashes [] r = sym (append-nil r.node_hashes)
query_all-hashes (n ∷ ns) r =
    query_all-hashes ns (note_answer n.name n.ledger r)
    ∙ ap (λ x. x ++ hashes ns) (note_answer-hashes n.name n.ledger r)
    ∙ append_assoc r.node_hashes (hashes_of n.name n.ledger) (hashes ns)

check_field-agreed :
    (field name_a hash_a name_b hash_b : String) (r : LedgerComparison)
    → (check_field field name_a hash_a name_b hash_b r).agreed ≡ (r.agreed && hash_b == hash_a)
unfolding check_field
check_field-agreed field name_a hash_a name_b hash_b r = ground arith

check_node-agreed :
    (ref nh : NodeHash) (r : LedgerComparison)
    → (check_node ref nh r).agreed ≡ (r.agreed && same ref nh)
unfolding check_node same
check_node-agreed ref nh r =
    let r1 = check_field "ledger_hash" ref.name ref.ledger_hash nh.name nh.ledger_hash r in
    let r2 = check_field "account_hash" ref.name ref.account_hash nh.name nh.account_hash r1 in
    ground (
      arith,
      check_field-agreed "ledger_hash" ref.name ref.ledger_hash nh.name nh.ledger_hash r,
      check_field-agreed "account_hash" ref.name ref.account_hash nh.name nh.account_hash r1,
      check_field-agreed "transaction_hash" ref.name ref.transaction_hash nh.name
          nh.transaction_hash r2,
    )

check_all-agreed :
    (ref : NodeHash) (nhs : List NodeHash) (r : LedgerComparison)
    → (check_all ref nhs r).agreed ≡ (r.agreed && all (same ref) nhs)
unfolding check_all
check_all-agreed ref [] r = ground arith
check_all-agreed ref (nh ∷ nhs) r =
    ground (arith, check_all-agreed ref nhs (check_node ref nh r), check_node-agreed ref nh r)

check_against-agreed :
    (nhs : List NodeHash) (r : LedgerComparison)
    → (check_against nhs r).agreed ≡ (r.agreed && all_as_first nhs)
unfolding check_against all_as_first
check_against-agreed [] r = ground arith
check_against-agreed (ref ∷ nhs) r = check_all-agreed ref nhs r

-- Every wait ended well, every node answered, and all the hashes are those of the first node.
is_unanimous : List Node → Bool
is_unanimous ns = all is_ready ns && (all (λ n. is_answer n.ledger) ns && all_as_first (hashes ns))

queried-agreed :
    (ns : List Node) (seq : ℕ)
    → (queried (query_all ns (blank seq))).agreed
      ≡ (all (λ n. is_answer n.ledger) ns && all_as_first (hashes ns))
unfolding queried blank
queried-agreed ns seq =
    let r = query_all ns (blank seq) in
    ground (
      arith,
      check_against-agreed r.node_hashes r,
      query_all-agreed ns (blank seq),
      ap all_as_first (query_all-hashes ns (blank seq)),
    )

compare-agreed : (seq : ℕ) (ns : List Node) → (compare_at_sequence seq ns).agreed ≡ is_unanimous ns
unfolding compare_at_sequence is_unanimous fail_with
compare-agreed seq ns = elim (Option-cases (wait_all ns)) [
  | inl e ↦ rw (compare_at_sequence, e, (wait_all-ready ns).0 e) (queried-agreed ns seq)
  | inr (err, e) ↦ rw (compare_at_sequence, e) (ground (arith, wait_all-ready ns, e))
]

-- The node has validated the ledger, and answers with the three hashes.
abbrev pub Reports : Roots → Node → Type 0
Reports roots n = (n.waited ≡ none) × (n.ledger ≡ answered roots)

ready_none : (n : Node) → is_ready n ≡ true → n.waited ≡ none
unfolding is_ready
ready_none n e = elim (Option-cases n.waited) [
  | inl q ↦ q
  | inr (err, q) ↦ absurd (ground (arith, e, q))
]

-- The three hashes with a name.
abbrev hash_of : String → Roots → NodeHash
hash_of name roots = record {
  name = name;
  ledger_hash = roots.0;
  account_hash = roots.1;
  transaction_hash = roots.2;
}

same_answer :
    (roots : Roots) (name other : String) (x : Answer Roots) (rest : List NodeHash)
    → is_answer x ≡ true
    → all (same (hash_of name roots)) (hashes_of other x ++ rest) ≡ true
    → (x ≡ answered roots) × (all (same (hash_of name roots)) rest ≡ true)
unfolding is_answer hashes_of same
same_answer roots name other (failed err) rest e s = absurd (cc)
same_answer (l, a, t) name other (answered (l', a', t')) rest e s =
    let p : l' ≡ l = ground (arith, s, eq_iff l' l) in
    let q : a' ≡ a = ground (arith, s, eq_iff a' a) in
    let r : t' ≡ t = ground (arith, s, eq_iff t' t) in
    (λ i. answered (p i, q i, r i), ground (arith, s))

hashes-Reports :
    (roots : Roots) (name : String) (ns : List Node)
    → all is_ready ns ≡ true
    → all (λ n. is_answer n.ledger) ns ≡ true
    → all (same (hash_of name roots)) (hashes ns) ≡ true
    → All (Reports roots) ns
unfolding hashes
hashes-Reports roots name [] r q s = tt
hashes-Reports roots name (n ∷ ns) r q s =
    let (e, s') = same_answer roots name n.name n.ledger (hashes ns) (ground (arith, q)) s in
    (
      (ready_none n (ground (arith, r)), e),
      hashes-Reports roots name ns (ground (arith, r)) (ground (arith, q)) s',
    )

first_of : (x : Answer Roots) → is_answer x ≡ true → (roots : Roots) × (x ≡ answered roots)
unfolding is_answer
first_of (failed err) e = absurd (cc)
first_of (answered roots) e = (roots, refl)

first_all :
    (roots : Roots) (name : String) (x : Answer Roots) (rest : List NodeHash)
    → x ≡ answered roots
    → all_as_first (hashes_of name x ++ rest) ≡ true
    → all (same (hash_of name roots)) rest ≡ true
unfolding all_as_first hashes_of
first_all roots name x rest e h = subst (λ y. all_as_first (hashes_of name y ++ rest) ≡ true) e h

all_first :
    (roots : Roots) (name : String) (x : Answer Roots) (rest : List NodeHash)
    → x ≡ answered roots
    → all (same (hash_of name roots)) rest ≡ true
    → all_as_first (hashes_of name x ++ rest) ≡ true
unfolding all_as_first hashes_of
all_first roots name x rest e h =
    subst (λ y. all_as_first (hashes_of name y ++ rest) ≡ true) (sym e) h

unanimous-Reports :
    (ns : List Node) → is_unanimous ns ≡ true → (roots : Roots) × All (Reports roots) ns
unfolding is_unanimous hashes
unanimous-Reports [] u = (("", "", ""), tt)
unanimous-Reports (n ∷ ns) u =
    let (roots, e) = first_of n.ledger (ground (arith, u)) in
    let s = first_all roots n.name n.ledger (hashes ns) e (ground (arith, u)) in
    (
      roots,
      (
        (ready_none n (ground (arith, u)), e),
        hashes-Reports roots n.name ns (ground (arith, u)) (ground (arith, u)) s,
      ),
    )

-- The other way: nodes that report one ledger.
Reports-hashes :
    (roots : Roots) (name : String) (ns : List Node)
    → All (Reports roots) ns
    → (all is_ready ns ≡ true)
      × (all (λ n. is_answer n.ledger) ns ≡ true)
      × (all (same (hash_of name roots)) (hashes ns) ≡ true)
unfolding is_ready is_answer hashes hashes_of same
Reports-hashes roots name [] h = (refl, refl, refl)
Reports-hashes (l, a, t) name (n ∷ ns) ((w, e), h) =
    let (r, q, s) = Reports-hashes (l, a, t) name ns h in
    rw (is_ready, is_answer, hashes_of, w, e)
      (r, q, ground (arith, s, eq_iff l l, eq_iff a a, eq_iff t t))

Reports-unanimous :
    (roots : Roots) (ns : List Node) → All (Reports roots) ns → is_unanimous ns ≡ true
unfolding is_unanimous hashes all_as_first
Reports-unanimous roots [] h = refl
Reports-unanimous (l, a, t) (n ∷ ns) ((w, e), h) =
    let (r, q, s) = Reports-hashes (l, a, t) n.name (n ∷ ns) ((w, e), h) in
    let (r', q', s') = Reports-hashes (l, a, t) n.name ns h in
    ground (arith, r, q, all_first (l, a, t) n.name n.ledger (hashes ns) e s')

-- The nodes agree on a ledger exactly if each of them has validated it and they all answer with the same
-- three hashes.
pub compare_at_sequence-agreed :
    (seq : ℕ) (ns : List Node)
    → ((compare_at_sequence seq ns).agreed ≡ true) ↔ ((roots : Roots) × All (Reports roots) ns)
compare_at_sequence-agreed seq ns = (
  λ e. unanimous-Reports ns (sym (compare-agreed seq ns) ∙ e),
  λ r. compare-agreed seq ns ∙ Reports-unanimous r.0 ns r.1,
)
