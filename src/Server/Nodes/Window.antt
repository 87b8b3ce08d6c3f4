-- ===== src/Server/Nodes/Window.antt =====
-- The window of validated ledgers that server.NodePoller keeps of a node.
use xrpl_confluence.Prelude.{
  ℕ, subst, ◌+◌, ◌≤◌, String, ◌≡◌, refl, Bool, true, false, not, ◌||◌, ◌&&◌, ◌/=◌, string_eq,
  Option, none, some, List, [], ◌∷◌, arith, if◌then◌else◌, ◌==◌, length, Bool-cases, inl, inr,
}
use xrpl_confluence.Prelude.Dict.{lookup, insert, keep_keys, lookup-insert, lookup-keep_keys}
use xrpl_confluence.Prelude.Int.{
  ℤ, pos, negsuc, ◌+ℤ◌, ltb_ℤ, leb_ℤ, int_eq, beq_ℤ_iff, pos_part, neg_part, ◌≤ℤ◌,
}
use text.Mathlib.TextEquality.{eq_iff}
use xrpl_confluence.Server.Nodes.{
  History, prune, observe, max_validated_history_seqs, NodeConfig, LedgerRef, Answer, answered,
  failed, NodePoller, poll, put_node, record_ref, record_validated, is_recorded, is_given,
  history_at, history_of, new_node_poller,
}

-- Observations, the latest first, behind an empty history.
abbrev pub observed : List (ℤ × String) → History
observed [] = []
observed ((seq, hash) ∷ earlier) = observe seq hash (observed earlier)

abbrev first_seq : ℤ → List (ℤ × String) → ℤ
first_seq default [] = default
first_seq default ((seq, hash) ∷ earlier) = seq

-- The sequence numbers are positive and never go back.
abbrev pub IsAdvancing : List (ℤ × String) → Type 0
IsAdvancing [] = Unit
IsAdvancing ((seq, hash) ∷ earlier) =
    (pos 1 ≤ℤ seq) × (first_seq (pos 1) earlier ≤ℤ seq) × IsAdvancing earlier

-- The keys ascend from above the one bound up to the other.
abbrev Ascends : ℤ → ℤ → History → Type 0
Ascends low high [] = low ≤ℤ high
Ascends low high ((seq, hash) ∷ rest) = (ltb_ℤ low seq ≡ true) × Ascends seq high rest

Ascends-above : (low high : ℤ) (h : History) → Ascends low high h → low ≤ℤ high
Ascends-above low high [] a = a
Ascends-above low high ((seq, hash) ∷ rest) (l, a) =
    ground (arith, Ascends-above seq high rest a, l)

Ascends-lower :
    (low low' high : ℤ) (h : History) → low' ≤ℤ low → Ascends low high h → Ascends low' high h
Ascends-lower low low' high [] l a = omega (arith, l, a)
Ascends-lower low low' high ((seq, hash) ∷ rest) l (b, a) = (ground (arith, l, b), a)

length-Ascends :
    (low high : ℤ) (h : History)
    → Ascends low high h
    → length h + pos_part low + neg_part high ≤ pos_part high + neg_part low
length-Ascends low high [] a = omega (arith, a)
length-Ascends low high ((seq, hash) ∷ rest) (l, a) =
    ground (arith, length-Ascends seq high rest a, l)

Ascends-raise :
    (low high high' : ℤ) (h : History) → high ≤ℤ high' → Ascends low high h → Ascends low high' h
Ascends-raise low high high' [] l a = omega (arith, l, a)
Ascends-raise low high high' ((seq, hash) ∷ rest) l (b, a) =
    (b, Ascends-raise seq high high' rest l a)

ltb_of_ne : (a b : ℤ) → (a == b) ≡ false → a ≤ℤ b → ltb_ℤ a b ≡ true
ltb_of_ne (pos m) (pos n) e l = ground arith
ltb_of_ne (pos m) (negsuc n) e l = ground arith
ltb_of_ne (negsuc m) (pos n) e l = ground arith
ltb_of_ne (negsuc m) (negsuc n) e l = ground arith

insert-Ascends :
    (low high seq : ℤ) (hash : String) (h : History)
    → ltb_ℤ low seq ≡ true
    → high ≤ℤ seq
    → Ascends low high h
    → Ascends low seq (insert seq hash h)
unfolding insert
insert-Ascends low high seq hash [] l g a = (l, ground arith)
insert-Ascends low high seq hash ((k, v) ∷ rest) l g (b, a) = elim (Bool-cases (k == seq)) [
  | inl e ↦ rw e (
    l,
    Ascends-raise seq high seq rest g (subst (λ x. Ascends x high rest) ((beq_ℤ_iff k seq).0 e) a),
  )
  | inr e ↦
      let lt = ltb_of_ne k seq e (omega (arith, Ascends-above k high rest a, g)) in
      rw e (b, insert-Ascends k high seq hash rest lt g a)
]

keep_same :
    (cutoff low high : ℤ) (h : History)
    → Ascends low high h
    → Ascends low high (keep_keys (λ s. not (leb_ℤ s cutoff)) h)
unfolding keep_keys
keep_same cutoff low high [] a = a
keep_same cutoff low high ((k, v) ∷ rest) (b, a) = elim (Bool-cases (leb_ℤ k cutoff)) [
  | inl e ↦ rw e (
      Ascends-lower k low high (keep_keys (λ s. not (leb_ℤ s cutoff)) rest) (ground (arith, b))
        (keep_same cutoff k high rest a))
  | inr e ↦ rw e (b, keep_same cutoff k high rest a)
]

keep-Ascends :
    (cutoff low high : ℤ) (h : History)
    → cutoff ≤ℤ high
    → Ascends low high h
    → Ascends cutoff high (keep_keys (λ s. not (leb_ℤ s cutoff)) h)
unfolding keep_keys
keep-Ascends cutoff low high [] c a = c
keep-Ascends cutoff low high ((k, v) ∷ rest) c (b, a) = elim (Bool-cases (leb_ℤ k cutoff)) [
  | inl e ↦ rw e (keep-Ascends cutoff k high rest c a)
  | inr e ↦ rw e (ground (arith, e), keep_same cutoff k high rest a)
]

-- The lower end of the window: 512 below the sequence number, and 0 at least.
abbrev window_start : ℤ → ℤ
window_start seq = if leb_ℤ (seq +ℤ negsuc 511) (pos 0) then pos 0 else seq +ℤ negsuc 511

window_start_nonneg : (seq : ℤ) → pos 0 ≤ℤ window_start seq
window_start_nonneg seq = ground arith

cutoff_le : (seq : ℤ) → seq +ℤ negsuc 511 ≤ℤ seq
unfolding ◌+ℤ◌
cutoff_le seq = ground arith

observe-Ascends :
    (high seq : ℤ) (hash : String) (h : History)
    → pos 1 ≤ℤ seq
    → high ≤ℤ seq
    → Ascends (window_start high) high h
    → Ascends (window_start seq) seq (observe seq hash h)
unfolding observe prune
observe-Ascends high seq hash h l g a =
    let lower = Ascends-lower (window_start high) (pos 0) high h (window_start_nonneg high) a in
    let inserted = insert-Ascends (pos 0) high seq hash h (ground (arith, l)) g lower in
    elim (Bool-cases (leb_ℤ (seq +ℤ negsuc 511) (pos 0))) [
      | inl e ↦ rw (e) inserted
      | inr e ↦ rw (e) (
          keep-Ascends (seq +ℤ negsuc 511) (pos 0) seq (insert seq hash h) (cutoff_le seq) inserted)
    ]

observed-Ascends :
    (os : List (ℤ × String))
    → IsAdvancing os
    → Ascends (window_start (first_seq (pos 1) os)) (first_seq (pos 1) os) (observed os)
unfolding ◌+ℤ◌
observed-Ascends [] a = ground arith
observed-Ascends ((seq, hash) ∷ os) (l, g, a) =
    observe-Ascends (first_seq (pos 1) os) seq hash (observed os) l g (observed-Ascends os a)

window_size :
    (seq : ℤ)
    → pos_part seq + neg_part (window_start seq) ≤ 512 + pos_part (window_start seq) + neg_part seq
unfolding ◌+ℤ◌
window_size seq = ground arith

length-observed :
    (os : List (ℤ × String)) → IsAdvancing os → length (observed os) ≤ max_validated_history_seqs
length-observed os a =
    let newest = first_seq (pos 1) os in
    omega (
      arith,
      length-Ascends (window_start newest) newest (observed os) (observed-Ascends os a),
      window_size newest,
    )

-- The sequence number is in the window below the newest one.
unfoldable pub in_window : ℤ → ℤ → Bool
in_window newest s = leb_ℤ (newest +ℤ negsuc 511) (pos 0) || not (leb_ℤ s (newest +ℤ negsuc 511))

lookup-observe :
    (s seq : ℤ) (hash : String) (h : History)
    → lookup s (observe seq hash h)
      ≡ (if in_window seq s then (if seq == s then some hash else lookup s h) else none)
unfolding observe prune in_window
lookup-observe s seq hash h = ground (
  arith,
  lookup-insert seq s hash h,
  lookup-keep_keys (λ k. not (leb_ℤ k (seq +ℤ negsuc 511))) s (insert seq hash h),
)

in_window_le : (old new s : ℤ) → old ≤ℤ new → in_window new s ≡ true → in_window old s ≡ true
unfolding ◌+ℤ◌ in_window
in_window_le old new s l w = ground arith

-- The hash that was last observed of a ledger.
abbrev pub latest : ℤ → List (ℤ × String) → Option String
latest s [] = none
latest s ((seq, hash) ∷ earlier) = if seq == s then some hash else latest s earlier

lookup-observed :
    (s : ℤ) (os : List (ℤ × String))
    → IsAdvancing os
    → lookup s (observed os) ≡ (if in_window (first_seq (pos 1) os) s then latest s os else none)
unfolding lookup
lookup-observed s [] a = ground arith
lookup-observed s ((seq, hash) ∷ os) (l, g, a) = elim (Bool-cases (in_window seq s)) [
  | inl w ↦
      rw
        (
          lookup-observe s seq hash (observed os),
          w,
          lookup-observed s os a,
          in_window_le (first_seq (pos 1) os) seq s g w,
        )
        refl
  | inr w ↦ rw (lookup-observe s seq hash (observed os), w) refl
]

-- The polls of all nodes, the latest first: the clock, the node and its answer.
abbrev pub Polls : Type 0
Polls = List (ℕ × NodeConfig × Answer)

abbrev pub poll_all : Polls → NodePoller → NodePoller
poll_all [] p = p
poll_all ((now, c, answer) ∷ earlier) p = (poll now c answer (poll_all earlier p)).0

abbrev observed_ref : LedgerRef → List (ℤ × String) → List (ℤ × String)
observed_ref r os = if ltb_ℤ (pos 0) r.seq && r.hash /= "" then (r.seq, r.hash) ∷ os else os

abbrev observed_by : Bool → Answer → List (ℤ × String) → List (ℤ × String)
observed_by false answer os = os
observed_by true (failed err) os = os
observed_by true (answered info) os = observed_ref info.validated_ledger os

-- The ledgers with a number and a hash that a node reported as validated.
abbrev pub validations : String → Polls → List (ℤ × String)
validations name [] = []
validations name ((now, c, answer) ∷ earlier) =
    observed_by (c.name == name) answer (validations name earlier)

history_at-record :
    (name asked : String) (seq : ℤ) (hash : String) (p : NodePoller)
    → history_at asked (record_validated name seq hash p)
      ≡ (if name == asked then observe seq hash (history_at asked p) else history_at asked p)
unfolding history_at history_of record_validated
history_at-record name asked seq hash p = ground (
  arith,
  lookup-insert name asked (observe seq hash (history_at name p)) p.history,
  eq_iff name asked,
)

history_at-poll :
    (name : String) (now : ℕ) (c : NodeConfig) (answer : Answer) (os : List (ℤ × String))
    (p : NodePoller)
    → history_at name p ≡ observed os
    → history_at name (poll now c answer p).0 ≡ observed (observed_by (c.name == name) answer os)
unfolding poll put_node record_ref is_recorded is_given history_at
history_at-poll name now c (failed err) os p e = ground (arith, e)
history_at-poll name now c (answered info) os p e =
    ground (
      arith,
      history_at-record c.name name info.validated_ledger.seq info.validated_ledger.hash p,
      e,
    )

history_at-poll_all :
    (name : String) (cfgs : List NodeConfig) (ps : Polls)
    → history_at name (poll_all ps (new_node_poller cfgs)) ≡ observed (validations name ps)
unfolding history_at new_node_poller lookup history_of
history_at-poll_all name cfgs [] = refl
history_at-poll_all name cfgs ((now, c, answer) ∷ ps) =
    history_at-poll name now c answer (validations name ps) (poll_all ps (new_node_poller cfgs))
      (history_at-poll_all name cfgs ps)

-- However often the nodes are polled: while the sequence numbers that a node validates never go back, at
-- most 512 of its ledgers are kept, and its history answers for each of the 512 latest sequence numbers the
-- hash that the node reported last, and nothing below them.
pub history-IsWindow :
    (name : String) (cfgs : List NodeConfig) (ps : Polls) (s : ℤ)
    → IsAdvancing (validations name ps)
    → (length (history_at name (poll_all ps (new_node_poller cfgs))) ≤ max_validated_history_seqs)
      × (lookup s (history_at name (poll_all ps (new_node_poller cfgs))) ≡ (
          if in_window (first_seq (pos 1) (validations name ps)) s
          then latest s (validations name ps)
          else none))
history-IsWindow name cfgs ps s a =
    rw (history_at-poll_all name cfgs ps)
      (length-observed (validations name ps) a, lookup-observed s (validations name ps) a)
