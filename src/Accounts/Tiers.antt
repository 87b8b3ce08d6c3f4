-- ===== src/Accounts/Tiers.antt =====
-- The tiers of wallets of sidecar/internal/fuzz/accounts/tiers.go and pool.go. The node's answers are arguments: `info`
-- gives the parsed balance of an address or an error, and `submit` the error of a transaction, if any. What is
-- submitted is a list of records in place of the JSON objects.
pub mod Assigned
pub mod Tests
use xrpl_confluence.Prelude.{
  ℕ, zero, suc, ◌+◌, ◌-◌, ◌*◌, ◌/◌, String, Bool, true, false, Option, none, some, List, [], ◌∷◌,
  ◌++◌, map, if◌then◌else◌, ◌==◌, string_eq, nat_beq, ltb, leb, length, take, select, get_elem?,
}
use xrpl_confluence.Prelude.Int.{
  ℤ, pos, negsuc, pos_part, ◌+ℤ◌, ◌-ℤ◌, ◌*ℤ◌, ◌/ℤ◌, wrap_int, leb_ℤ, ltb_ℤ, int_eq,
}

pub data Tier : Type 0 where
  rich : Tier
  at_reserve : Tier
  multisig : Tier
  regular_key : Tier
  blackholed : Tier

pub tier_string : Tier → String
tier_string rich = "Rich"
tier_string at_reserve = "AtReserve"
tier_string multisig = "Multisig"
tier_string regular_key = "RegularKey"
tier_string blackholed = "Blackholed"

tier_code : Tier → ℕ
tier_code rich = 0
tier_code at_reserve = 1
tier_code multisig = 2
tier_code regular_key = 3
tier_code blackholed = 4

pub record Wallet : Type 0 where
  pub index : ℕ
  pub classic_address : String
  pub seed : String
  pub public_key : String
  pub tier : Tier

pub record TierWeights : Type 0 where
  pub rich_weight : ℤ
  pub at_reserve_weight : ℤ
  pub multisig_weight : ℤ
  pub regular_key_weight : ℤ
  pub blackholed_weight : ℤ

-- Every sum, product and quotient is an int of 64 bits.
pub total : TierWeights → ℤ
total w = wrap_int (
    w.rich_weight +ℤ w.at_reserve_weight +ℤ w.multisig_weight +ℤ w.regular_key_weight
    +ℤ w.blackholed_weight)

-- `weight * len(wallets) / total`
pub share : ℤ → ℕ → ℤ → ℤ
share weight n all = wrap_int (wrap_int (weight *ℤ pos n) /ℤ all)

-- The targets in the order of the tiers; the remainder goes to Rich.
pub targets : TierWeights → ℕ → List (Tier × ℤ)
unfolding total share
targets w n =
    let all = total w in
    let r = share w.rich_weight n all in
    let a = share w.at_reserve_weight n all in
    let m = share w.multisig_weight n all in
    let k = share w.regular_key_weight n all in
    let b = share w.blackholed_weight n all in
    let assigned = wrap_int (r +ℤ a +ℤ m +ℤ k +ℤ b) in
    (rich, wrap_int (r +ℤ wrap_int (pos n -ℤ assigned)))
    ∷ (at_reserve, a)
    ∷ (multisig, m)
    ∷ (regular_key, k)
    ∷ (blackholed, b)
    ∷ []

with_tier : Tier → Wallet → Wallet
with_tier t w = record w { tier = t }

-- The inner loop on the wallets from `idx` on: those that it stamps, and those that are left. `none` is an
-- index out of range.
stamp : Tier → ℕ → List Wallet → Option (List Wallet × List Wallet)
unfolding with_tier
stamp t zero ws = some ([], ws)
stamp t (suc k) [] = none
stamp t (suc k) (w ∷ ws) = elim (stamp t k ws) [
  | none ↦ none
  | some (done, left) ↦ some (with_tier t w ∷ done, left)
]

-- A target below zero makes no round of the loop.
stamp_all : List (Tier × ℤ) → List Wallet → Option (List Wallet)
unfolding stamp
stamp_all [] ws = some ws
stamp_all ((t, k) ∷ ts) ws = elim (stamp t (pos_part k) ws) [
  | none ↦ none
  | some (done, left) ↦ elim (stamp_all ts left) [ none ↦ none | some rest ↦ some (done ++ rest) ]
]

pub assign_tiers : TierWeights → List Wallet → Option (List Wallet)
unfolding stamp_all with_tier
assign_tiers w ws =
    if total w == pos 0
    then some (map (with_tier rich) ws)
    else stamp_all (targets w (length ws)) ws

pub reserve_base_drops : ℕ
reserve_base_drops = 200000000

-- The transactions of the set-ups and of the rotation.
pub data Submission : Type 0 where
  payment : String → String → ℤ → Submission
  signer_list_set : String → List String → Submission
  set_regular_key : String → String → Submission
  disable_master : String → Submission
  top_up : String → Submission

-- The node, as far as the set-ups ask it.
pub record Node : Type 0 where
  pub balance : String → Option ℤ
  pub submit : Submission → Bool

-- The transactions that were submitted, and whether an error ended the work.
abbrev pub Work : Type 0
Work = List Submission × Bool

-- One submission, and then the next work if it is accepted.
then_submit : Node → Submission → Work → Work
then_submit node s (more, ok) = if node.submit s then (s ∷ more, ok) else (s ∷ [], false)

-- The genesis account gets everything above the reserve and a buffer for the fee.
drain : Node → String → Wallet → Option ℤ → Work
unfolding then_submit
drain node genesis w none = ([], false)
drain node genesis w (some balance) =
    let excess = balance +ℤ negsuc 200000099 in
    if leb_ℤ excess (pos 0)
    then ([], true)
    else then_submit node (payment w.classic_address genesis excess) ([], true)

pub setup_at_reserve : Node → String → Wallet → Work
unfolding drain
setup_at_reserve node genesis w = drain node genesis w (node.balance w.classic_address)

pub setup_multisig : Node → Wallet → List Wallet → Work
unfolding then_submit
setup_multisig node w signers =
    if ltb (length signers) 3
    then ([], false)
    else then_submit node
        (signer_list_set w.classic_address (map (λ s. s.classic_address) (take 3 signers)))
        ([], true)

pub setup_regular_key : Node → Wallet → String → Work
unfolding then_submit
setup_regular_key node w key =
    then_submit node (set_regular_key w.classic_address key)
      (then_submit node (disable_master w.classic_address) ([], true))

pub setup_blackholed : Node → Wallet → Work
unfolding then_submit
setup_blackholed node w = then_submit node (disable_master w.classic_address) ([], true)

-- Up to `n` wallets with another address.
pub other_wallets : List Wallet → Wallet → ℕ → List Wallet
other_wallets ws w n =
    take n (select (λ x. if x.classic_address == w.classic_address then false else true) ws)

key_from : Node → Wallet → List Wallet → Work
unfolding setup_regular_key
key_from node w [] = ([], false)
key_from node w (s ∷ ss) = setup_regular_key node w s.classic_address

-- The switch on the tier.
setup : Node → String → List Wallet → Wallet → Tier → Work
unfolding key_from
setup node genesis ws w rich = ([], true)
setup node genesis ws w at_reserve = setup_at_reserve node genesis w
setup node genesis ws w multisig = setup_multisig node w (other_wallets ws w 3)
setup node genesis ws w regular_key = key_from node w (other_wallets ws w 1)
setup node genesis ws w blackholed = setup_blackholed node w

then_work : Work → Work → Work
then_work (done, false) more = (done, false)
then_work (done, true) (more, ok) = (done ++ more, ok)

apply_from : Node → String → List Wallet → List Wallet → Work
unfolding setup then_work
apply_from node genesis ws [] = ([], true)
apply_from node genesis ws (w ∷ rest) =
    then_work (setup node genesis ws w w.tier) (apply_from node genesis ws rest)

pub apply_all : Node → String → List Wallet → Work
unfolding apply_from
apply_all node genesis ws = apply_from node genesis ws ws

tier_beq : Tier → Tier → Bool
unfolding tier_code
tier_beq s t = nat_beq (tier_code s) (tier_code t)

-- PickTier: `intn` is r.IntN. `none` is the nil wallet of a tier without wallets.
pub pick_tier : (ℕ → ℕ) → Tier → List Wallet → Option Wallet
unfolding tier_beq
pick_tier intn t ws =
    let matching = select (λ w. tier_beq w.tier t) ws in get_elem? matching (intn (length matching))

-- The top-up of RotateTiers, whose own error is dropped; the flag is that of the error.
rotate_rich : Node → Wallet → Option ℤ → Work
rotate_rich node w none = ([], true)
rotate_rich node w (some balance) =
    if ltb_ℤ balance (pos 400000000) then (top_up w.classic_address ∷ [], true) else ([], true)

rotate_one : Node → String → Wallet → Tier → Work
unfolding rotate_rich
rotate_one node genesis w rich = rotate_rich node w (node.balance w.classic_address)
rotate_one node genesis w at_reserve = setup_at_reserve node genesis w
rotate_one node genesis w multisig = ([], true)
rotate_one node genesis w regular_key = ([], true)
rotate_one node genesis w blackholed = ([], true)

pub rotate_tiers : Node → String → List Wallet → Work
unfolding rotate_one
rotate_tiers node genesis [] = ([], true)
rotate_tiers node genesis (w ∷ rest) =
    then_work (rotate_one node genesis w w.tier) (rotate_tiers node genesis rest)
