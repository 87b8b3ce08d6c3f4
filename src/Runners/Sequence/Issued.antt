-- ===== src/Runners/Sequence/Issued.antt =====
-- The sequences that seqManager stamps on an account's transactions.
use xrpl_confluence.Prelude.{
  ℕ, ◌+◌, ◌%◌, ◌^◌, String, ◌≡◌, refl, ◌∙◌, true, false, Option, none, some, List, [], ◌∷◌,
  if◌then◌else◌, arith, ◌==◌, string_eq, nat_eq, Bool-cases, Option-cases, inl, inr, All,
}
use package.text.Mathlib.TextEquality.{eq_iff}
use xrpl_confluence.Prelude.Dict.{Dict, lookup, insert, lookup-insert}
use xrpl_confluence.Prelude.Int.{pos}
use xrpl_confluence.Runners.Sequence.{
  Field, number, text, Tx, SubmitResult, Client, SeqManager, submitter, is_known, next_of, set_next,
  consumes_sequence, is_drift, settle, submitted, named_account, account_for, peek, put_absent,
  put_last_ledger, stamp, signed, peeked, resolved, submit_tx,
}

-- The manager hands out `n` next for the account, without asking the ledger.
abbrev pub Ready : String → ℕ → SeqManager → Type 0
Ready a n s = (is_known a s ≡ true) × (next_of a s ≡ n)

-- The sequence after a submission with the engine's result.
abbrev pub after : ℕ → String → ℕ
after n r = if consumes_sequence r then (n + 1) % 2 ^ 32 else n

settle-Ready :
    (a : String) (n : ℕ) (r : String) (s : SeqManager)
    → Ready a n s
    → is_drift r ≡ false
    → Ready a (after n r) (settle a n r s)
unfolding settle set_next is_known next_of
settle-Ready a n r s (k, e) d = elim (Bool-cases (consumes_sequence r)) [
  | inl q ↦ rw (q) (
    ground (arith, lookup-insert a a true s.known, eq_iff a a),
    ground (arith, lookup-insert a a ((n + 1) % 2 ^ 32) s.next, eq_iff a a),
  )
  | inr q ↦ rw (q, d) (k, e)
]

submitter-Ready : (a : String) (n : ℕ) (s : SeqManager) → Ready a n s → Ready a n (submitter s).1
unfolding submitter is_known next_of
submitter-Ready a n s (k, e) = elim (Bool-cases (s.submitters == 1)) [
  | inl q ↦ rw (q) (k, e)
  | inr q ↦ rw (q) (k, e)
]

-- What a submission that was answered leaves: the account is ready for the sequence that follows.
abbrev Follows : String → ℕ → Option SubmitResult → SeqManager → Type 0
Follows a n none s = Unit
Follows a n (some res) s =
    is_drift res.engine_result ≡ false → Ready a (after n res.engine_result) s

submitted-Follows :
    (a : String) (n : ℕ) (o : Option SubmitResult) (s : SeqManager)
    → Ready a n s
    → Follows a n (submitted a n o s).0 (submitted a n o s).1
unfolding submitted
submitted-Follows a n none s h = tt
submitted-Follows a n (some res) s h = settle-Ready a n res.engine_result s h

module _ {R : Type 0} where
  signed-Follows :
      (c : Client R) (a : String) (n : ℕ) (blob : Option String) (s : SeqManager)
      → Ready a n s
      → Follows a n (signed c a n blob s).0 (signed c a n blob s).1
  unfolding signed
  signed-Follows c a n none s h = tt
  signed-Follows c a n (some blob) s h =
      submitted-Follows a n (c.submit_tx_blob (submitter s).0 blob) (submitter s).1
        (submitter-Ready a n s h)

  -- The Sequence field of a transaction.
  abbrev pub sequence_of : Tx R → Option (Field R)
  sequence_of tx = lookup "Sequence" tx.fields

  put_absent-sequence :
      (k : String) (v : Field R) (fields : Dict String (Field R))
      → (k == "Sequence") ≡ false
      → lookup "Sequence" (put_absent k v fields) ≡ lookup "Sequence" fields
  unfolding put_absent
  put_absent-sequence k v fields h = elim (Option-cases (lookup k fields)) [
    | inl e ↦ rw (e, put_absent) (ground (arith, h, lookup-insert k "Sequence" v fields))
    | inr (w, e) ↦ rw (e, put_absent) refl
  ]

  put_last_ledger-sequence :
      (ll : ℕ) (fields : Dict String (Field R))
      → lookup "Sequence" (put_last_ledger ll fields) ≡ lookup "Sequence" fields
  unfolding put_last_ledger
  put_last_ledger-sequence ll fields = elim (Bool-cases (ll == 0)) [
    | inl e ↦ rw (e) refl
    | inr e ↦ rw (e) (put_absent-sequence "LastLedgerSequence" (number (pos (ll + 50))) fields refl)
  ]

  stamp-sequence :
      (a : String) (n ll : ℕ) (fields : Dict String (Field R))
      → lookup "Sequence" (stamp a n ll fields) ≡ some (number (pos n))
  unfolding stamp
  stamp-sequence a n ll fields =
      let numbered = insert "Sequence" (number (pos n)) (insert "Account" (text a) fields) in
      put_last_ledger-sequence ll (put_absent "Fee" (text "10") numbered)
      ∙ put_absent-sequence "Fee" (text "10") numbered refl
      ∙ lookup-insert "Sequence" "Sequence" (number (pos n)) (insert "Account" (text a) fields)

  -- A transaction that names its account.
  abbrev pub IsOf : String → Tx R → Type 0
  IsOf a tx = named_account (lookup "Account" tx.fields) ≡ some a

  account_for_named :
      (c : Client R) (tx : Tx R) (a : String) (s : SeqManager)
      → IsOf a tx
      → account_for c tx s ≡ (some a, s)
  unfolding account_for
  account_for_named c tx a s h = rw (h, account_for) refl

  peek-Ready :
      (c : Client R) (a : String) (n : ℕ) (s : SeqManager) → Ready a n s → peek c a s ≡ (some n, s)
  unfolding peek
  peek-Ready c a n s (k, e) = rw (k, e) refl

  submit_tx-step :
      (c : Client R) (tx : Tx R) (a : String) (n : ℕ) (s : SeqManager)
      → IsOf a tx
      → Ready a n s
      → (sequence_of (submit_tx c tx s).1 ≡ some (number (pos n)))
        × Follows a n (submit_tx c tx s).0 (submit_tx c tx s).2
  unfolding submit_tx resolved peeked
  submit_tx-step c tx a n s h r =
      rw (account_for_named c tx a s h, peek-Ready c a n s r)
        (stamp-sequence a n s.last_ledger tx.fields, signed-Follows c a n _ s r)

  -- The submissions one after the other: what each returned, and the transaction that it stamped.
  unfoldable pub submit_all :
      List (Client R × Tx R) → SeqManager → List (Option SubmitResult × Tx R)
  submit_all [] s = []
  submit_all ((c, tx) ∷ rounds) s =
      let (res, tx', s') = submit_tx c tx s in (res, tx') ∷ submit_all rounds s'

  -- Every submission was answered, and with no sequence drift.
  abbrev pub IsSteady : List (Option SubmitResult × Tx R) → Type 0
  IsSteady [] = Unit
  IsSteady ((none, tx) ∷ answers) = ⊥
  IsSteady ((some res, tx) ∷ answers) = (is_drift res.engine_result ≡ false) × IsSteady answers

  -- The sequences from `n` on, each used again until a result consumes it.
  abbrev pub IsNumbered : ℕ → List (Option SubmitResult × Tx R) → Type 0
  IsNumbered n [] = Unit
  IsNumbered n ((none, tx) ∷ answers) = ⊥
  IsNumbered n ((some res, tx) ∷ answers) =
      (sequence_of tx ≡ some (number (pos n))) × IsNumbered (after n res.engine_result) answers

  IsNumbered-cons :
      (a : String) (n : ℕ) (o : Option SubmitResult) (tx : Tx R) (s : SeqManager)
      (answers : List (Option SubmitResult × Tx R))
      → sequence_of tx ≡ some (number (pos n))
      → Follows a n o s
      → IsSteady ((o, tx) ∷ answers)
      → ((m : ℕ) → Ready a m s → IsSteady answers → IsNumbered m answers)
      → IsNumbered n ((o, tx) ∷ answers)
  IsNumbered-cons a n none tx s answers e f t rest = t
  IsNumbered-cons a n (some res) tx s answers e f (d, t) rest =
      (e, rest (after n res.engine_result) (f d) t)

  -- Where every submission of an account that is ready for sequence n is answered without drift, the
  -- transactions carry n, and then each the sequence before or, where the result before consumed it, its
  -- successor modulo 2^32: no sequence is left out and none is used again after it is consumed.
  pub submit_all-IsNumbered :
      (a : String) (n : ℕ) (rounds : List (Client R × Tx R)) (s : SeqManager)
      → Ready a n s
      → All (λ (c, tx). IsOf a tx) rounds
      → IsSteady (submit_all rounds s)
      → IsNumbered n (submit_all rounds s)
  unfolding submit_all
  submit_all-IsNumbered a n [] s r h t = tt
  submit_all-IsNumbered a n ((c, tx) ∷ rounds) s r (h, hs) t =
      let (res, tx', s') = submit_tx c tx s in
      let (e, f) = submit_tx-step c tx a n s h r in
      IsNumbered-cons a n res tx' s' (submit_all rounds s') e f t
        (λ m q u. submit_all-IsNumbered a m rounds s' q hs u)
