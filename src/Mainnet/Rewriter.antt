-- ===== src/Mainnet/Rewriter.antt =====
-- Rewriter of sidecar/internal/fuzz/mainnet/rewriter.go. A value of a transaction is of a type `R`; the deep copy
-- is the value itself. `none` is a panic.
pub mod Apart
pub mod Tests
use xrpl_confluence.Prelude.{
  ℕ, zero, suc, String, Bool, true, false, Option, none, some, List, [], ◌∷◌, ◌+◌, ◌%◌,
  if◌then◌else◌, ◌==◌, string_eq, length, get_elem?,
}
use xrpl_confluence.Prelude.Dict.{Dict, lookup, insert, erase}

pub record Wallet : Type 0 where
  pub classic_address : String
  pub seed : String

pub record Rewriter : Type 0 where
  pub pool : List Wallet
  pub cache : Dict String ℕ
  pub counter : ℕ

-- The type assertions on a value, and the values that the rewriter makes.
pub record Json (R : Type 0) : Type 0 where
  pub text : R → Option String
  pub object : R → Option (Dict String R)
  pub of_text : String → R
  pub of_object : Dict String R → R

pub data Rewritten (R : Type 0) : Type 0 where
  rewritten : Dict String R → Rewritten R
  refused : String → Rewritten R

pub new_rewriter : List Wallet → Rewriter
new_rewriter pool = record { pool = pool; cache = []; counter = 0 }

abbrev address_field_paths : List String
address_field_paths =
    "Account" ∷ "Destination" ∷ "Owner" ∷ "RegularKey" ∷ "Issuer" ∷ "Authorize" ∷ "Unauthorize"
    ∷ "NFTokenMinter" ∷ "Amendment" ∷ []

abbrev stripped : List String
stripped =
    "Sequence" ∷ "SigningPubKey" ∷ "TxnSignature" ∷ "Signers" ∷ "hash" ∷ "Fee"
    ∷ "LastLedgerSequence" ∷ "TicketSequence" ∷ []

abbrev iou_shaped_fields : List String
iou_shaped_fields =
    "Amount" ∷ "TakerPays" ∷ "TakerGets" ∷ "LimitAmount" ∷ "SendMax" ∷ "DeliverMin" ∷ "FeeBase" ∷ []

-- `pool.All()[idx].ClassicAddress`
address_at : ℕ → Rewriter → Option (String × Rewriter)
address_at idx r = elim (get_elem? r.pool idx) [
  | none ↦ none
  | some w ↦ some (w.classic_address, r)
]

-- The next slot; the remainder by zero panics.
assign : ℕ → String → Rewriter → Option (String × Rewriter)
unfolding address_at
assign zero addr r = none
assign (suc n) addr r =
    let idx = r.counter % suc n in
    address_at idx (record r { counter = r.counter + 1; cache = insert addr idx r.cache })

pub map_address : String → Rewriter → Option (String × Rewriter)
unfolding assign
map_address addr r = elim (lookup addr r.cache) [
  | some idx ↦ address_at idx r
  | none ↦ assign (length r.pool) addr r
]

secret_in : List Wallet → String → Option String
secret_in [] account = none
secret_in (w ∷ ws) account =
    if w.classic_address == account then some w.seed else secret_in ws account

pub secret_for : Rewriter → String → Option String
unfolding secret_in
secret_for r account = secret_in r.pool account

strip : {R : Type 0} → List String → Dict String R → Dict String R
strip [] tx = tx
strip (f ∷ fs) tx = strip fs (erase f tx)

module _ {R : Type 0} (go : Json R) where
  -- `m[key].(string)`, of a text that is not empty.
  given : Option String → Option String
  given none = none
  given (some t) = if t == "" then none else some t

  text_in : Option R → Option String
  text_in none = none
  text_in (some v) = go.text v

  object_in : Option R → Option (Dict String R)
  object_in none = none
  object_in (some v) = go.object v

  text_at : String → Dict String R → Option String
  unfolding text_in
  text_at f m = text_in (lookup f m)

  object_at : String → Dict String R → Option (Dict String R)
  unfolding object_in
  object_at f m = object_in (lookup f m)

  -- Of one field: the address, if it has one, is mapped and put in its place.
  place :
      Option String
      → (String → Dict String R)
      → Dict String R
      → Rewriter
      → Option (Dict String R × Rewriter)
  unfolding map_address
  place none put tx r = some (tx, r)
  place (some addr) put tx r = elim (map_address addr r) [
    | none ↦ none
    | some (mapped, r') ↦ some (put mapped, r')
  ]

  rewrite_address : String → Dict String R → Rewriter → Option (Dict String R × Rewriter)
  unfolding place given text_at
  rewrite_address f tx r = place (given (text_at f tx)) (λ a. insert f (go.of_text a) tx) tx r

  rewrite_object :
      String → Option (Dict String R) → Dict String R → Rewriter → Option (Dict String R × Rewriter)
  unfolding place given text_at
  rewrite_object f none tx r = some (tx, r)
  rewrite_object f (some m) tx r =
      place (given (text_at "issuer" m))
        (λ a. insert f (go.of_object (insert "issuer" (go.of_text a) m)) tx) tx r

  rewrite_issuer : String → Dict String R → Rewriter → Option (Dict String R × Rewriter)
  unfolding rewrite_object object_at
  rewrite_issuer f tx r = rewrite_object f (object_at f tx) tx r

  rewrite_each :
      (String → Dict String R → Rewriter → Option (Dict String R × Rewriter))
      → List String
      → Dict String R
      → Rewriter
      → Option (Dict String R × Rewriter)
  rewrite_each change [] tx r = some (tx, r)
  rewrite_each change (f ∷ fs) tx r = elim (change f tx r) [
    | none ↦ none
    | some (tx', r') ↦ rewrite_each change fs tx' r'
  ]

  is_text : String → Option String → Bool
  is_text wanted none = false
  is_text wanted (some t) = t == wanted

  is_issued_by : String → Option (Dict String R) → Bool
  unfolding is_text text_at
  is_issued_by acct none = false
  is_issued_by acct (some m) = is_text acct (text_at "issuer" m)

  -- Whether one of the fields has the account as its issuer.
  is_collapsed : String → List String → Dict String R → Bool
  unfolding is_issued_by object_at
  is_collapsed acct [] tx = false
  is_collapsed acct (f ∷ fs) tx =
      if is_issued_by acct (object_at f tx) then true else is_collapsed acct fs tx

  judge : Option String → Dict String R → Rewritten R
  unfolding is_collapsed
  judge none tx = rewritten tx
  judge (some acct) tx =
      if is_collapsed acct iou_shaped_fields tx
      then refused "collapsed Account==Issuer after rewrite (pool too small for tx)"
      else rewritten tx

  pub rewrite : Dict String R → Rewriter → Option (Rewritten R × Rewriter)
  unfolding strip rewrite_address rewrite_issuer rewrite_each judge text_at
  rewrite tx r = elim (rewrite_each rewrite_address address_field_paths (strip stripped tx) r) [
    | none ↦ none
    | some (tx1, r1) ↦ elim (rewrite_each rewrite_issuer iou_shaped_fields tx1 r1) [
      | none ↦ none
      | some (tx2, r2) ↦ some (judge (text_at "Account" tx2) tx2, r2)
    ]
  ]

  -- A sequence of calls.
  pub rewrite_all : List (Dict String R) → Rewriter → Option (List (Rewritten R) × Rewriter)
  unfolding rewrite
  rewrite_all [] r = some ([], r)
  rewrite_all (tx ∷ txs) r = elim (rewrite tx r) [
    | none ↦ none
    | some (out, r1) ↦ elim (rewrite_all txs r1) [
      | none ↦ none
      | some (outs, r2) ↦ some (out ∷ outs, r2)
    ]
  ]
