-- ===== src/Scenario/NodeConfig/Sections.antt =====
-- Which configuration of a node validateConfig accepts.
use Prim.Native.String.{◌++◌ as str_append}
use xrpl_confluence.Prelude.{
  ℕ, String, inl, inr, ◌≡◌, ◌↔◌, refl, false, ◌||◌, Option, none, some, List, [], ◌++◌, arith, All,
  Bool-cases, ◌/=◌, string_eq,
}
use xrpl_confluence.Scenario.{Config}
use xrpl_confluence.Scenario.Words.{Go, trim_space, contains_any, opens_section}
use xrpl_confluence.Scenario.Report.{append-empty, invalid-≢[], refuse_if-empty, each_from-empty}
use xrpl_confluence.Scenario.NodeConfig.{
  is_guarded, is_blank, line_breaks, delimiters, check_line, check_lines, check_section,
  delimiter_errors, reserved_errors, validate_config,
}

-- One line, which opens no section.
abbrev pub IsSafeLine : String → Type 0
IsSafeLine line =
    (contains_any line_breaks line ≡ false) × (opens_section (trim_space line) ≡ false)

abbrev pub IsSafeLines : Option (List String) → Type 0
IsSafeLines none = ⊥
IsSafeLines (some lines) = All IsSafeLine lines

-- The name is no blank one, has no white space around it and no delimiter in it, and is not reserved.
abbrev pub IsSafeName : Go → String → Type 0
IsSafeName go name =
    (is_blank name ≡ false)
    × (trim_space name ≡ name)
    × (contains_any delimiters name ≡ false)
    × (is_guarded go name ≡ false)

abbrev pub IsSafeSection : Go → String × Option (List String) → Type 0
IsSafeSection go (name, lines) = IsSafeName go name × IsSafeLines lines

check_line-empty :
    (field : String) (i : ℕ) (line : String) → (check_line field i line ≡ []) ↔ IsSafeLine line
unfolding check_line
check_line-empty field i line = elim (Bool-cases (contains_any line_breaks line)) [
  | inl e ↦ rw (e) ((λ q. absurd (invalid-≢[] _ _ _ q)), (λ (q, r). absurd (cc)))
  | inr e ↦
      rw (e)
        ((λ q. (refl, (refuse_if-empty _ _ _ _).0 q)), (λ (q, r). (refuse_if-empty _ _ _ _).1 r))
]

check_lines-empty :
    (field : String) (lines : Option (List String))
    → (check_lines field lines ≡ []) ↔ IsSafeLines lines
unfolding check_lines
check_lines-empty field none = ((λ q. invalid-≢[] _ _ _ q), (λ f. absurd f))
check_lines-empty field (some lines) = each_from-empty 0 lines (check_line-empty field)

delimiter_errors-empty :
    (field name : String)
    → (delimiter_errors field name ≡ [])
      ↔ ((trim_space name /= name || contains_any delimiters name) ≡ false)
unfolding delimiter_errors
delimiter_errors-empty field name = refuse_if-empty _ _ _ _

reserved_errors-empty :
    (go : Go) (field name : String)
    → (reserved_errors go field name ≡ []) ↔ (is_guarded go name ≡ false)
unfolding reserved_errors
reserved_errors-empty go field name = refuse_if-empty _ _ _ _

check_section-empty :
    (go : Go) (field : String) (i : ℕ) (entry : String × Option (List String))
    → (check_section go field i entry ≡ []) ↔ IsSafeSection go entry
unfolding check_section
check_section-empty go field i (name, lines) = elim (Bool-cases (is_blank name)) [
  | inl e ↦ rw (e) ((λ q. absurd (invalid-≢[] _ _ _ q)), (λ q. absurd (cc)))
  | inr e ↦ rw (e) (
      let section_field = str_append field (str_append "." name) in
      ground (
        arith,
        append-empty (delimiter_errors section_field name)
            (reserved_errors go section_field name ++ check_lines section_field lines),
        append-empty (reserved_errors go section_field name) (check_lines section_field lines),
        delimiter_errors-empty section_field name,
        reserved_errors-empty go section_field name,
        check_lines-empty section_field lines,
        string_eq.beq_iff (trim_space name) name,
      ))
]

-- validateConfig accepts a configuration exactly when every section has a safe name and a list of
-- lines that each open no section.
pub validate_config-accepts :
    (go : Go) (field : String) (sections : Config)
    → (validate_config go field (some sections) ≡ []) ↔ All (IsSafeSection go) sections
unfolding validate_config
validate_config-accepts go field sections =
    each_from-empty 0 sections (check_section-empty go field)
