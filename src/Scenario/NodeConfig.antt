-- ===== src/Scenario/NodeConfig.antt =====
-- validateNodeGroup, validateImage, validateEntrypoint and validateConfig of
-- sidecar/internal/scenario/validate.go.
pub mod Sections
use Prim.Native.String.{◌++◌ as str_append}
use xrpl_confluence.Prelude.{
  ℕ, zero, suc, String, ◌≡◌, ◌≢◌, ◌↔◌, refl, Bool, true, false, not, ◌||◌, Option, none, some, List,
  [], ◌∷◌, ◌++◌, arith, if◌then◌else◌, All, any, map, Bool-cases, length, ◌==◌, ◌/=◌, string_eq,
}
use xrpl_confluence.Prelude.Show.{decimal, decimal_ℤ}
use xrpl_confluence.Prelude.Int.{ℤ, pos, int_eq}
use xrpl_confluence.Scenario.{Error, Config, NodeGroup, NodeOverride}
use xrpl_confluence.Scenario.Words.{
  Go, trim_space, to_lower, codes_of, codes_eq, contains_any, opens_section, is_empty,
}
use xrpl_confluence.Scenario.Report.{
  invalid, entry_field, refuse_if, append-empty, invalid-≢[], refuse_if-empty, each_from,
  each_from-empty,
}

guarded_config_sections : List String
guarded_config_sections =
    "server" ∷ "port_peer" ∷ "port_rpc" ∷ "port_ws" ∷ "node_db" ∷ "database_path" ∷ "debug_logfile"
    ∷ "ips_fixed" ∷ "validation_seed" ∷ "validation_quorum" ∷ "validators_file" ∷ "network_id"
    ∷ "amendments" ∷ "veto_amendments" ∷ []

pub is_guarded : Go → String → Bool
unfolding guarded_config_sections
is_guarded go section = any (λ g. codes_of g == to_lower go section) guarded_config_sections

pub is_blank : String → Bool
is_blank s = trim_space s == ""

unfoldable pub validate_image : String → String → Bool → List Error
unfolding is_blank
validate_image field image false = []
validate_image field image true =
    if is_blank image
    then invalid field "image must be non-empty; whitespace-only values are invalid"
        "omit the image to use the Starlark default or provide a valid image reference"
    else refuse_if (trim_space image /= image) (
        invalid field "image must not contain leading or trailing whitespace"
          "use a valid image reference")

check_command : String → ℕ → String → List Error
check_command field i command = refuse_if (is_blank command) (
    invalid (entry_field field i) "entrypoint command must be non-empty"
      "provide an executable or argument")

unfoldable pub validate_entrypoint : String → Option (List String) → List Error
unfolding check_command
validate_entrypoint field none = []
validate_entrypoint field (some []) =
    invalid field "entrypoint must contain at least one command"
      "omit entrypoint or provide a non-empty command list"
validate_entrypoint field (some (c ∷ cs)) = each_from (check_command field) 0 (c ∷ cs)

-- The code points of "\r\n" and of "\r\n[]".
abbrev pub line_breaks : List ℕ
line_breaks = 13 ∷ 10 ∷ []

abbrev pub delimiters : List ℕ
delimiters = 13 ∷ 10 ∷ 91 ∷ 93 ∷ []

pub check_line : String → ℕ → String → List Error
check_line field i line =
    if contains_any line_breaks line
    then invalid (entry_field field i) "config entries must be single-line values"
        "split multiline configuration into separate list entries"
    else refuse_if (opens_section (trim_space line)) (
        invalid (entry_field field i) "config entries must not inject an INI section"
          "put each section under its own config key")

pub check_lines : String → Option (List String) → List Error
check_lines field none =
    invalid field "config section entries must be a list, not null"
      "use [] for an explicitly empty section"
check_lines field (some lines) = each_from (check_line field) 0 lines

pub delimiter_errors : String → String → List Error
delimiter_errors section_field section =
    refuse_if (trim_space section /= section || contains_any delimiters section) (
      invalid section_field
        "config section name contains invalid whitespace, newline, or section delimiters"
        "use a plain INI section name without brackets")

pub reserved_errors : Go → String → String → List Error
reserved_errors go section_field section = refuse_if (is_guarded go section) (
    invalid section_field
      (str_append "config section "
        (str_append (go.quote section) " is reserved; use the dedicated scenario field"))
      "set network.network_id, network.amendments, or network.veto_amendments where applicable")

pub check_section : Go → String → ℕ → String × Option (List String) → List Error
check_section go field i (section, lines) =
    let section_field = str_append field (str_append "." section) in
    if is_blank section
    then invalid section_field "config section name must be non-empty" "use an INI section name"
    else delimiter_errors section_field section
      ++ reserved_errors go section_field section
      ++ check_lines section_field lines

unfoldable pub validate_config : Go → String → Option Config → List Error
unfolding check_section
validate_config go field none = []
validate_config go field (some sections) = each_from (check_section go field) 0 sections

override_image : String → Option String → List Error
override_image field none = []
override_image field (some image) = validate_image field image true

check_node : Go → String → ℕ → NodeOverride → List Error
unfolding override_image
check_node go field i node =
    let node_field = entry_field (str_append field ".nodes") i in
    override_image (str_append node_field ".image") node.image
    ++ validate_entrypoint (str_append node_field ".entrypoint") node.entrypoint
    ++ validate_config go (str_append node_field ".config") node.config

-- A nil list of nodes is ranged over as an empty one.
abbrev pub nodes_of : NodeGroup → List NodeOverride
nodes_of g = elim g.nodes [ none ↦ [] | some nodes ↦ nodes ]

check_node_count : String → NodeGroup → List Error
check_node_count field g = elim g.nodes [
  | none ↦ []
  | some nodes ↦ refuse_if (pos (length nodes) /= g.count) (
      invalid (str_append field ".nodes")
        (str_append "nodes must contain exactly count entries (got " (
          str_append (decimal (length nodes))
            (str_append ", count " (str_append (decimal_ℤ g.count) ")"))))
        "provide one node override for every rippled node")
]

unfoldable pub validate_node_group : Go → String → NodeGroup → List Error
unfolding check_node check_node_count
validate_node_group go field g =
    validate_image (str_append field ".image") g.image (not (is_empty g.image))
    ++ check_node_count field g
    ++ validate_entrypoint (str_append field ".entrypoint") g.entrypoint
    ++ validate_config go (str_append field ".config") g.config
    ++ each_from (check_node go field) 0 (nodes_of g)
