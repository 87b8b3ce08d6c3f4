-- ===== src/Corpus/Signature/Matching.antt =====
-- When a divergence is the same bug as another one, by their signatures.
use xrpl_confluence.Prelude.{
  String, ◌≡◌, ◌↔◌, ◌∙◌, sym, subst, ap, refl, Bool, true, false, not, none, some, arith,
  if◌then◌else◌, ◌==◌, string_eq, ==_refl, Bool-cases, inl, inr,
}
use text.Mathlib.TextEquality.{eq_iff}
use xrpl_confluence.Finding.Mapper.{Divergence}
use xrpl_confluence.Corpus.Signature.{
  Any, DivergenceSignature, Subfield, by_tx_type, by_field, by_invariant, by_kind, subfield_of,
  signature, signature_matches, signed, agrees, matches_subfield, text_at, state_hash_field,
}

-- The subfield that the kind of a signature has is given.
abbrev is_sharp_for : Subfield → DivergenceSignature → Bool
is_sharp_for by_tx_type s = not (s.tx_type == "")
is_sharp_for by_field s = not (s.field == "")
is_sharp_for by_invariant s = not (s.invariant == "")
is_sharp_for by_kind s = true

unfoldable pub is_sharp : DivergenceSignature → Bool
is_sharp s = is_sharp_for (subfield_of s.kind) s

agrees_iff : (w v : String) → not (w == "") ≡ true → (agrees w v ≡ true) ↔ (v ≡ w)
unfolding agrees
agrees_iff w v h = elim (Bool-cases (w == "")) [
  | inl e ↦ absurd (ground (arith, e, h))
  | inr e ↦ rw (e) (eq_iff v w)
]

module _ {R : Type 0} (go : Any R) where
  -- Nothing does not match.
  pub signature_matches-none : (s : DivergenceSignature) → signature_matches go s none ≡ false
  unfolding signature_matches
  signature_matches-none s = refl

  signed-matches :
      (f : Subfield) (d d' : Divergence R)
      → d'.kind ≡ d.kind
      → is_sharp_for f (signed go f d) ≡ true
      → (matches_subfield go f (signed go f d) d' ≡ true) ↔ (signed go f d' ≡ signed go f d)
  unfolding signed matches_subfield
  signed-matches by_tx_type d d' k s =
      let h = agrees_iff (text_at go "tx_type" d.details) (text_at go "tx_type" d'.details) s in
      (
        λ m. λ i. record { kind = k i; tx_type = h.0 m i; field = ""; invariant = "" },
        λ e. h.1 (ap (λ x. x.tx_type) e),
      )
  signed-matches by_field d d' k s =
      let h = agrees_iff (state_hash_field go d.details) (state_hash_field go d'.details) s in
      (
        λ m. λ i. record { kind = k i; tx_type = ""; field = h.0 m i; invariant = "" },
        λ e. h.1 (ap (λ x. x.field) e),
      )
  signed-matches by_invariant d d' k s =
      let h = agrees_iff (text_at go "invariant" d.details) (text_at go "invariant" d'.details) s in
      (
        λ m. λ i. record { kind = k i; tx_type = ""; field = ""; invariant = h.0 m i },
        λ e. h.1 (ap (λ x. x.invariant) e),
      )
  signed-matches by_kind d d' k s =
      (λ m. λ i. record { kind = k i; tx_type = ""; field = ""; invariant = "" }, λ e. refl)

  signed-kind : (f : Subfield) (d : Divergence R) → (signed go f d).kind ≡ d.kind
  unfolding signed
  signed-kind by_tx_type d = refl
  signed-kind by_field d = refl
  signed-kind by_invariant d = refl
  signed-kind by_kind d = refl

  sharp_lem :
      (d : Divergence R)
      → is_sharp (signature go (some d)) ≡ true
      → is_sharp_for (subfield_of d.kind) (signed go (subfield_of d.kind) d) ≡ true
  unfolding is_sharp signature
  sharp_lem d s =
      subst (λ x. is_sharp_for (subfield_of x) (signed go (subfield_of d.kind) d) ≡ true)
        (signed-kind (subfield_of d.kind) d) s

  matches_lem :
      (d d' : Divergence R)
      → signature_matches go (signature go (some d)) (some d') ≡ (
          if d'.kind == d.kind
          then matches_subfield go (subfield_of d.kind) (signed go (subfield_of d.kind) d) d'
          else false)
  unfolding signature_matches signature
  matches_lem d d' = rw (signed-kind (subfield_of d.kind) d) refl

  same_subfield :
      (d d' : Divergence R)
      → d'.kind ≡ d.kind
      → signature go (some d') ≡ signed go (subfield_of d.kind) d'
  unfolding signature
  same_subfield d d' k = ap (λ x. signed go (subfield_of x) d') k

  signature-kind : (d : Divergence R) → (signature go (some d)).kind ≡ d.kind
  unfolding signature
  signature-kind d = signed-kind (subfield_of d.kind) d

  -- Where the subfield that the kind of a divergence has is given, another divergence matches the signature
  -- of the first exactly if it has the same signature.
  pub signature_matches-signature :
      (d d' : Divergence R)
      → is_sharp (signature go (some d)) ≡ true
      → (signature_matches go (signature go (some d)) (some d') ≡ true)
        ↔ (signature go (some d') ≡ signature go (some d))
  signature_matches-signature d d' s = elim (Bool-cases (d'.kind == d.kind)) [
    | inl e ↦
        let k : d'.kind ≡ d.kind = (eq_iff d'.kind d.kind).0 e in
        rw (matches_lem d d', e, same_subfield d d' k, same_subfield d d refl)
          (signed-matches (subfield_of d.kind) d d' k (sharp_lem d s))
    | inr e ↦ (
      λ m. absurd (ground (arith, matches_lem d d', m, e)),
      λ q. absurd (
          ground (
            arith,
            eq_iff d'.kind d.kind,
            sym (signature-kind d') ∙ ap (λ x. x.kind) q ∙ signature-kind d,
            e,
          )),
    )
  ]

  matches_subfield_self :
      (f : Subfield) (d : Divergence R) → matches_subfield go f (signed go f d) d ≡ true
  unfolding matches_subfield signed agrees
  matches_subfield_self by_tx_type d = ground (arith, ==_refl (text_at go "tx_type" d.details))
  matches_subfield_self by_field d = ground (arith, ==_refl (state_hash_field go d.details))
  matches_subfield_self by_invariant d = ground (arith, ==_refl (text_at go "invariant" d.details))
  matches_subfield_self by_kind d = refl

  -- Every divergence matches the signature that is made of it.
  pub signature_matches_self :
      (d : Divergence R) → signature_matches go (signature go (some d)) (some d) ≡ true
  signature_matches_self d =
      rw (matches_lem d d, ==_refl d.kind) (matches_subfield_self (subfield_of d.kind) d)
