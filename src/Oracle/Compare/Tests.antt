-- ===== src/Oracle/Compare/Tests.antt =====
-- The theorem on CompareAtSequence at two nodes.
use xrpl_confluence.Prelude.{String, ◌≡◌, ◌↔◌, true, none, List, [], ◌∷◌, All, string_eq}
use xrpl_confluence.Oracle.Compare.{Node, Roots, answered, compare_at_sequence}
use xrpl_confluence.Oracle.Compare.Agreed.{Reports, compare_at_sequence-agreed}

abbrev node : String → String → Node
node name root = record { name = name; waited = none; ledger = answered (root, "A", "T") }

abbrev nodes : List Node
nodes = node "rippled-0" "L" ∷ node "goxrpl-0" "M" ∷ []

compare_at_sequence-agreed_example :
    ((compare_at_sequence 9 nodes).agreed ≡ true) ↔ ((roots : Roots) × All (Reports roots) nodes)
compare_at_sequence-agreed_example = compare_at_sequence-agreed 9 nodes
