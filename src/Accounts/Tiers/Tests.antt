-- ===== src/Accounts/Tiers/Tests.antt =====
-- The theorem on accounts.AssignTiers at a pool of three wallets.
use xrpl_confluence.Prelude.{refl, ℕ, String, ◌≡◌, none, List, ◌^◌, [], ◌∷◌}
use xrpl_confluence.Prelude.Int.{◌+ℤ◌, ◌-ℤ◌, ◌*ℤ◌, ◌/ℤ◌, wrap_int}
use xrpl_confluence.Accounts.Tiers.{
  Wallet, rich, assign_tiers, total, targets, share, stamp_all, stamp,
}
use xrpl_confluence.Accounts.Tiers.Assigned.{weights_of}

abbrev wallet : ℕ → String → Wallet
wallet i address = record {
  index = i;
  classic_address = address;
  seed = "s";
  public_key = "ED";
  tier = rich;
}

abbrev pool : List Wallet
pool = wallet 0 "rA" ∷ wallet 1 "rB" ∷ wallet 2 "rC" ∷ []

-- The product of this weight and the five wallets wraps, and Rich's target is beyond the end of the pool.
assign_tiers_overflow :
    assign_tiers
      (weights_of 0 (2 ^ 61) 0 0 0)
      (wallet 0 "rA" ∷ wallet 1 "rB" ∷ wallet 2 "rC" ∷ wallet 3 "rD" ∷ wallet 4 "rE" ∷ [])
    ≡ none
unfolding assign_tiers total targets share stamp_all stamp ◌+ℤ◌ ◌-ℤ◌ ◌*ℤ◌ ◌/ℤ◌ wrap_int
assign_tiers_overflow = refl
