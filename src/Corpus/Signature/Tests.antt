-- ===== src/Corpus/Signature/Tests.antt =====
-- The theorems on corpus.DivergenceSignature at two divergences.
use xrpl_confluence.Prelude.{String, ◌≡◌, ◌↔◌, refl, true, none, some, [], ◌∷◌}
use xrpl_confluence.Finding.Mapper.{Divergence}
use xrpl_confluence.Prelude.Dict.{lookup}
use xrpl_confluence.Prelude.Show.{join}
use xrpl_confluence.Corpus.Signature.{
  Any, signature, signature_matches, key, sanitize, signed, subfield_of, text_at, text_value,
  text_of, part, is_safe, within,
}
use xrpl_confluence.Corpus.Signature.Matching.{
  is_sharp, signature_matches-signature, signature_matches_self,
}

abbrev texts : Any String
texts = record { text = λ r. some r; object = λ r. none; array = λ r. none }

abbrev payment : Divergence String
payment = record {
  seed = 7;
  kind = "tx_result";
  description = "results differ";
  details = ("tx_type", "Payment") ∷ [];
  recorded_at = 5;
}

abbrev later : Divergence String
later = record payment { seed = 9; recorded_at = 8 }

signature_matches-signature_example :
    (signature_matches texts (signature texts (some payment)) (some later) ≡ true)
    ↔ (signature texts (some later) ≡ signature texts (some payment))
unfolding is_sharp signature signed subfield_of text_at text_value text_of lookup
signature_matches-signature_example = signature_matches-signature texts payment later refl

signature_matches_self_example :
    signature_matches texts (signature texts (some payment)) (some payment) ≡ true
signature_matches_self_example = signature_matches_self texts payment

key_test :
    key (record { kind = "invariant"; tx_type = ""; field = ""; invariant = "a/b c" })
    ≡ "invariant_a_b_c"
unfolding key join sanitize part is_safe within
key_test = refl
