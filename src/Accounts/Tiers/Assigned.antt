-- ===== src/Accounts/Tiers/Assigned.antt =====
-- What accounts.AssignTiers makes of a pool.
use Prim.Native.Nat.{◌*◌, ◌/◌}
use xrpl_confluence.Prelude.{
  ◌-◌, ℕ, zero, suc, ◌+◌, ◌≡◌, Option, some, List, [], ◌∷◌, ◌++◌, map, if◌then◌else◌, nat_beq,
  length,
}
use xrpl_confluence.Prelude.Int.{ℤ, pos, pos_part, int_eq}
use xrpl_confluence.Accounts.Tiers.{
  Tier, rich, at_reserve, multisig, regular_key, blackholed, Wallet, TierWeights,
}

-- As many tiers as a target says, and the tiers of all targets.
abbrev pub block : Tier → ℕ → List Tier
block t zero = []
block t (suc k) = t ∷ block t k

abbrev pub blocks : List (Tier × ℤ) → List Tier
blocks [] = []
blocks ((t, k) ∷ ts) = block t (pos_part k) ++ blocks ts

abbrev pub sum_of : List (Tier × ℤ) → ℕ
sum_of [] = 0
sum_of ((t, k) ∷ ts) = pos_part k + sum_of ts

abbrev pub tiers : List Wallet → List Tier
tiers = map (λ w. w.tier)

-- The wallets but for their tiers.
abbrev pub untier : Wallet → Wallet
untier w = record w { tier = rich }

abbrev pub untiered : List Wallet → List Wallet
untiered = map untier

-- The inner loop stamps as many wallets as it is asked for, if there are that many.
abbrev IsStamp : Tier → ℕ → List Wallet → Option (List Wallet × List Wallet) → Type 0
IsStamp t k ws r =
    (done : List Wallet) × (left : List Wallet) × (r ≡ some (done, left))
    × (tiers done ≡ block t k)
    × (untiered done ++ untiered left ≡ untiered ws)
    × (length ws ≡ k + length left)

abbrev IsStampAll : List (Tier × ℤ) → List Wallet → Option (List Wallet) → Type 0
IsStampAll ts ws r =
    (out : List Wallet) × (r ≡ some out) × (tiers out ≡ blocks ts) × (untiered out ≡ untiered ws)

-- Weights that are not negative.
abbrev pub weights_of : ℕ → ℕ → ℕ → ℕ → ℕ → TierWeights
weights_of a b c d e = record {
  rich_weight = pos a;
  at_reserve_weight = pos b;
  multisig_weight = pos c;
  regular_key_weight = pos d;
  blackholed_weight = pos e;
}

-- The tiers of a pool of `n` wallets: all Rich if no weight is given; else each tier but Rich has its share of the
-- pool, rounded down, and Rich the rest.
abbrev pub expected : ℕ → ℕ → ℕ → ℕ → ℕ → ℕ → List Tier
expected a b c d e n =
    let t = a + b + c + d + e in
    if nat_beq t 0
    then block rich n
    else block rich (n - (b * n / t + c * n / t + d * n / t + e * n / t))
      ++ (block at_reserve (b * n / t)
          ++ (block multisig (c * n / t)
              ++ (block regular_key (d * n / t) ++ (block blackholed (e * n / t) ++ []))))

-- The targets, of weights whose sum is `t`.
abbrev shared : ℕ → ℕ → ℕ → ℕ → ℕ → ℕ → List (Tier × ℤ)
shared b c d e n t =
    (rich, pos (n - (b * n / t + c * n / t + d * n / t + e * n / t)))
    ∷ (at_reserve, pos (b * n / t))
    ∷ (multisig, pos (c * n / t))
    ∷ (regular_key, pos (d * n / t))
    ∷ (blackholed, pos (e * n / t))
    ∷ []
