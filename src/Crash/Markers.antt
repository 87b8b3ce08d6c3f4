-- ===== src/Crash/Markers.antt =====
-- crash.Classify of sidecar/internal/fuzz/crash/markers.go. `strings.Contains` is the library's search.
use text.Mathlib.Text.{find?}
use xrpl_confluence.Prelude.{
  ℕ, suc, ◌+◌, String, ◌≡◌, refl, subst, ◌⊎◌, inl, inr, Bool, true, false, Option, none, some, List,
  [], ◌∷◌, arith, if◌then◌else◌, Option-cases, any,
}

pub record Classification : Type 0 where
  pub kind : String
  pub marker_line : ℕ

pub record Marker : Type 0 where
  pub kind : String
  pub patterns : List String

pub markers : List Marker
markers =
    record { kind = "go_panic"; patterns = "panic:" ∷ "fatal error:" ∷ [] }
    ∷ record { kind = "rippled_fatal"; patterns = "FATAL:" ∷ "ASSERT" ∷ "assertion failed" ∷ [] }
    ∷ record {
      kind = "sigsegv";
      patterns = "SIGSEGV" ∷ "signal SIGSEGV" ∷ "segmentation violation" ∷ [];
    }
    ∷ record {
      kind = "sigabrt";
      patterns = "SIGABRT" ∷ "signal SIGABRT" ∷ "Aborted (core dumped)" ∷ [];
    }
    ∷ []

contains_text : String → String → Bool
contains_text line pattern = elim (find? line pattern) [ none ↦ false | some i ↦ true ]

-- The two inner loops: the kind of the first marker with a pattern in the line.
kind_of : List Marker → String → Option String
unfolding contains_text
kind_of [] line = none
kind_of (m ∷ ms) line = if any (contains_text line) m.patterns then some m.kind else kind_of ms line

pub line_kind : String → Option String
unfolding kind_of markers
line_kind = kind_of markers

classify_from : ℕ → List String → Classification
classify_from i [] = record { kind = ""; marker_line = 0 }
classify_from i (line ∷ rest) =
    let later = classify_from (suc i) rest in
    elim (line_kind line) [ some kind ↦ record { kind = kind; marker_line = i } | none ↦ later ]

pub classify : List String → Classification
unfolding classify_from
classify = classify_from 0

-- The first line with a marker, at its place in the excerpt, and the lines before have none.
pub data FirstMarked : List String → ℕ → String → Type 0 where
  here :
      {line kind : String} {rest : List String}
      → line_kind line ≡ some kind
      → FirstMarked (line ∷ rest) 0 kind
  there :
      {line kind : String} {rest : List String} {i : ℕ}
      → line_kind line ≡ none
      → FirstMarked rest i kind
      → FirstMarked (line ∷ rest) (suc i) kind

-- No line has a marker.
abbrev pub Unmarked : List String → Type 0
Unmarked [] = Unit
Unmarked (line ∷ rest) = (line_kind line ≡ none) × Unmarked rest

classify_from_lem :
    (i : ℕ) (excerpt : List String)
    → ((k : ℕ) × FirstMarked excerpt k (classify_from i excerpt).kind
        × ((classify_from i excerpt).marker_line ≡ i + k))
      ⊎ (Unmarked excerpt
          × ((classify_from i excerpt).kind ≡ "")
          × ((classify_from i excerpt).marker_line ≡ 0))
unfolding classify_from
classify_from_lem i [] = inr (tt, refl, refl)
classify_from_lem i (line ∷ rest) = elim (Option-cases (line_kind line)) [
  | inl e ↦
      rw (e, classify_from)
        (elim (classify_from_lem (suc i) rest) [
          | inl (k, m, p) ↦ inl (suc k, there e m, omega (arith, p))
          | inr (u, p, q) ↦ inr ((refl, u), p, q)
        ])
  | inr (kind, e) ↦ rw (e, classify_from) (inl (0, here e, omega arith))
]

-- Classify returns the kind and the place of the first line with a marker, or the empty kind exactly
-- when no line has one.
pub classify_lem :
    (excerpt : List String)
    → FirstMarked excerpt (classify excerpt).marker_line (classify excerpt).kind
      ⊎ (Unmarked excerpt × ((classify excerpt).kind ≡ ""))
unfolding classify
classify_lem excerpt = elim (classify_from_lem 0 excerpt) [
  | inl (k, m, p) ↦
      inl (subst (λ i. FirstMarked excerpt i (classify_from 0 excerpt).kind) (omega (arith, p)) m)
  | inr (u, e, z) ↦ inr (u, e)
]
