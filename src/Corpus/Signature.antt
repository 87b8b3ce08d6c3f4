-- ===== src/Corpus/Signature.antt =====
-- corpus.DivergenceSignature of sidecar/internal/fuzz/corpus/signature.go. A value of Details is of a type `R`, with
-- Go's type assertions as arguments. The texts are of ASCII characters, so that a byte is a character.
pub mod Matching
pub mod Tests
use Prim.Native.String.{◌++◌ as str_append}
use Prim.Native.Char.{Char, code}
use xrpl_confluence.Prelude.{
  ℕ, String, Bool, true, false, ◌||◌, ◌&&◌, Option, none, some, List, [], ◌∷◌, ◌++◌, map,
  if◌then◌else◌, ◌==◌, string_eq, leb, nat_beq,
}
use xrpl_confluence.Prelude.Dict.{Dict, lookup}
use xrpl_confluence.Prelude.Show.{join}
use xrpl_confluence.Finding.Mapper.{Divergence}

-- The type assertions on a value: to string, to map[string]any and to []any.
pub record Any (R : Type 0) : Type 0 where
  pub text : R → Option String
  pub object : R → Option (Dict String R)
  pub array : R → Option (List R)

pub record DivergenceSignature : Type 0 where
  pub kind : String
  pub tx_type : String
  pub field : String
  pub invariant : String

-- Which subfield a kind has.
pub data Subfield : Type 0 where
  by_tx_type : Subfield
  by_field : Subfield
  by_invariant : Subfield
  by_kind : Subfield

-- The switch on the kind.
pub subfield_of : String → Subfield
subfield_of kind =
    if kind == "tx_result" || kind == "metadata"
    then by_tx_type
    else if kind == "state_hash"
    then by_field
    else if kind == "invariant"
    then by_invariant
    else by_kind

text_of : Option String → String
text_of none = ""
text_of (some t) = t

-- An empty subfield of the signature is a wildcard.
agrees : String → String → Bool
agrees wanted v = if wanted == "" then true else v == wanted

module _ {R : Type 0} (go : Any R) where
  -- `v, _ := m[key].(string)`, where a missing key has the nil value.
  text_value : Option R → String
  text_value none = ""
  text_value (some v) = text_of (go.text v)

  pub text_at : String → Dict String R → String
  text_at key m = text_value (lookup key m)

  field_in : Option (Dict String R) → String
  field_in none = ""
  field_in (some m) = text_at "field" m

  first_field : Option (List R) → String
  first_field none = ""
  first_field (some []) = ""
  first_field (some (d ∷ ds)) = field_in (go.object d)

  array_value : Option R → Option (List R)
  array_value none = none
  array_value (some v) = go.array v

  compared : Option (Dict String R) → String
  compared none = ""
  compared (some m) = first_field (array_value (lookup "divergences" m))

  object_value : Option R → Option (Dict String R)
  object_value none = none
  object_value (some v) = go.object v

  pub state_hash_field : Dict String R → String
  state_hash_field details = compared (object_value (lookup "comparison" details))

  signed : Subfield → Divergence R → DivergenceSignature
  signed by_tx_type d = record {
    kind = d.kind;
    tx_type = text_at "tx_type" d.details;
    field = "";
    invariant = "";
  }
  signed by_field d = record {
    kind = d.kind;
    tx_type = "";
    field = state_hash_field d.details;
    invariant = "";
  }
  signed by_invariant d = record {
    kind = d.kind;
    tx_type = "";
    field = "";
    invariant = text_at "invariant" d.details;
  }
  signed by_kind d = record { kind = d.kind; tx_type = ""; field = ""; invariant = "" }

  pub signature : Option (Divergence R) → DivergenceSignature
  unfolding signed
  signature none = record { kind = ""; tx_type = ""; field = ""; invariant = "" }
  signature (some d) = signed (subfield_of d.kind) d

  matches_subfield : Subfield → DivergenceSignature → Divergence R → Bool
  unfolding agrees
  matches_subfield by_tx_type s d = agrees s.tx_type (text_at "tx_type" d.details)
  matches_subfield by_field s d = agrees s.field (state_hash_field d.details)
  matches_subfield by_invariant s d = agrees s.invariant (text_at "invariant" d.details)
  matches_subfield by_kind s d = true

  pub signature_matches : DivergenceSignature → Option (Divergence R) → Bool
  signature_matches s none = false
  signature_matches s (some d) =
      if d.kind == s.kind then matches_subfield (subfield_of s.kind) s d else false

within : ℕ → ℕ → ℕ → Bool
within low high c = leb low c && leb c high

is_safe : Char → Bool
unfolding within
is_safe c =
    let n = code c in
    within 97 122 n
    || within 65 90 n
    || within 48 57 n
    || nat_beq n 45
    || nat_beq n 95
    || nat_beq n 46

pub sanitize : String → String
unfolding is_safe
sanitize String.[] = String.[]
sanitize (String.◌∷◌ c s) =
    let rest = sanitize s in if is_safe c then String.◌∷◌ c rest else str_append "_" rest

-- The parts that the loop appends.
part : String → List String
part p = if p == "" then [] else sanitize p ∷ []

pub key : DivergenceSignature → String
unfolding part
key s = join "_" (s.kind ∷ part s.tx_type ++ part s.field ++ part s.invariant)

-- LoadDivergenceSignature: `none` is an error, of the file, of its text, or for want of a kind.
module _ {R : Type 0} (go : Any R) where
  pub load_divergence_signature : Option (Divergence R) → Option DivergenceSignature
  load_divergence_signature none = none
  load_divergence_signature (some d) = if d.kind == "" then none else some (signature go (some d))
