-- ===== src/Finding/Mapper/Kinds.antt =====
-- Which entries of the corpus become findings of a state divergence.
use xrpl_confluence.Prelude.{
  String, ◌≡◌, subst, refl, Bool, false, ◌||◌, Option, none, some, [], ◌∷◌, ◌==◌, string_eq,
  Bool-cases, inl, inr,
}
use xrpl_confluence.Prelude.Dict.{Dict}
use xrpl_confluence.Finding.{Finding, kind_state_divergence}
use xrpl_confluence.Finding.Mapper.{
  Divergence, map_kind, finding_of, detailed, mapped, map_divergence,
}

abbrev pub is_ledger_kind : String → Bool
is_ledger_kind k = k == "state_hash" || k == "tx_result" || k == "metadata"

map_kind_lem : (k : String) → (map_kind k == kind_state_divergence) ≡ is_ledger_kind k
unfolding map_kind
map_kind_lem k = elim (Bool-cases (is_ledger_kind k)) [
  | inl e ↦ rw (e) refl
  | inr e ↦ rw (e) (elim (Bool-cases (k == "consensus_stall")) [
    | inl f ↦ rw (f) refl
    | inr f ↦ rw (f) (elim (Bool-cases (k == "peer_drop")) [
      | inl g ↦ rw (g) refl
      | inr g ↦ rw (g) (elim (Bool-cases (k == "invariant" || k == "chaos")) [
        | inl h ↦ rw (h) refl
        | inr h ↦
            rw (h) (elim (Bool-cases (k == "crash")) [ inl l ↦ rw (l) refl | inr l ↦ rw (l) refl ])
      ])
    ])
  ])
]

is_divergence : Option Finding → Bool
is_divergence none = false
is_divergence (some g) = g.kind == kind_state_divergence

module _ {R : Type 0} where
  detailed-kind :
      (id : String) (d : Divergence R) (o : Option String) (f : Finding)
      → detailed id d o ≡ some f
      → is_divergence (some f) ≡ is_ledger_kind d.kind
  unfolding detailed finding_of is_divergence
  detailed-kind id d none f e = absurd (cc)
  detailed-kind id d (some b) f e =
      subst (λ (g : Option Finding). is_divergence g ≡ is_ledger_kind d.kind) e
        (map_kind_lem d.kind)

  mapped-kind :
      (marshal : Dict String R → Option String) (id : String) (d : Divergence R)
      (details : Dict String R) (f : Finding)
      → mapped marshal id d details ≡ some f
      → is_divergence (some f) ≡ is_ledger_kind d.kind
  unfolding mapped finding_of is_divergence
  mapped-kind marshal id d [] f e =
      subst (λ (g : Option Finding). is_divergence g ≡ is_ledger_kind d.kind) e
        (map_kind_lem d.kind)
  mapped-kind marshal id d (x ∷ xs) f e = detailed-kind id d (marshal (x ∷ xs)) f e

  -- A divergence of the corpus becomes a finding of kind state_divergence exactly if its kind is
  -- state_hash, tx_result or metadata: an unknown kind never does.
  pub map_divergence-kind :
      (marshal : Dict String R → Option String) (id : String) (d : Divergence R) (f : Finding)
      → map_divergence marshal id d ≡ some f
      → (f.kind == kind_state_divergence) ≡ is_ledger_kind d.kind
  unfolding map_divergence is_divergence
  map_divergence-kind marshal id d f e = mapped-kind marshal id d d.details f e
