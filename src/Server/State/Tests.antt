-- ===== src/Server/State/Tests.antt =====
-- The theorems on GET /v1/state/diff at a node that is frozen on a fork.
use xrpl_confluence.Prelude.{ℕ, ◌<◌, ◌⊎◌, String, ◌≡◌, refl, none, some, List, [], ◌∷◌, string_eq}
use xrpl_confluence.Prelude.Dict.{lookup}
use xrpl_confluence.Prelude.Int.{pos, ◌≤ℤ◌, int_eq}
use xrpl_confluence.Server.Nodes.{Node, BySeq, by_node}
use xrpl_confluence.Server.State.{pick_seq, compare_nodes, is_forked, distinct_hashes}
use xrpl_confluence.Server.State.Forks.{IsReport, forked_at, compare_nodes-IsReport}
use xrpl_confluence.Server.State.Modal.{votes, pick_seq-IsModal}

abbrev node : String → ℕ → String → Node
node name n hash = record {
  name = name;
  type = "rippled";
  status = "ok";
  server_state = "full";
  build_version = "";
  uptime = pos 60;
  peers = pos 4;
  complete_ledgers = "";
  validated_ledger = some (record { seq = pos n; hash = hash });
  closed_ledger = none;
  ledger_current_index = pos 10;
  network_id = pos 1;
  pubkey_node = "";
  last_close = none;
  error = "";
}

abbrev nodes : List Node
nodes = node "a" 9 "X" ∷ node "b" 9 "X" ∷ node "c" 7 "Z" ∷ []

abbrev window : BySeq
window = (pos 9, ("a", "X") ∷ ("b", "X") ∷ []) ∷ (pos 7, ("a", "Y") ∷ ("c", "Z") ∷ []) ∷ []

compare_nodes-IsReport_example :
    IsReport (pick_seq nodes) (pos 7) (compare_nodes 5 none nodes window)
unfolding forked_at by_node lookup is_forked distinct_hashes
compare_nodes-IsReport_example = compare_nodes-IsReport 5 nodes window (pos 7) refl

pick_seq-IsModal_example :
    (votes (pos 7) nodes < votes (pick_seq nodes) nodes)
    ⊎ ((votes (pos 7) nodes ≡ votes (pick_seq nodes) nodes)
        × ((votes (pos 7) nodes ≡ 0) ⊎ (pos 7 ≤ℤ pick_seq nodes)))
pick_seq-IsModal_example = pick_seq-IsModal nodes (pos 7)
