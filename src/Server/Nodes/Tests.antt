-- ===== src/Server/Nodes/Tests.antt =====
-- The theorems on server.NodePoller at two polls of one node.
use xrpl_confluence.Prelude.{ℕ, ◌≤◌, String, ◌≡◌, some, [], ◌∷◌, arith, length, string_eq}
use xrpl_confluence.Prelude.Dict.{lookup}
use xrpl_confluence.Prelude.Int.{pos, int_eq, ◌+ℤ◌}
use xrpl_confluence.Server.Nodes.{
  NodeConfig, LedgerRef, ServerInfo, answered, new_node_poller, history_at,
  max_validated_history_seqs,
}
use xrpl_confluence.Server.Nodes.Window.{Polls, poll_all, in_window, history-IsWindow}

abbrev config : NodeConfig
config = record { name = "rippled-0"; type = "rippled"; rpc = "http://rippled-0:5005" }

abbrev ledger : ℕ → String → LedgerRef
ledger n hash = record { seq = pos n; hash = hash }

abbrev info : ℕ → String → ServerInfo
info n hash = record {
  server_state = "full";
  build_version = "2.3.0";
  complete_ledgers = "1-7";
  peers = pos 4;
  uptime = pos 60;
  validated_ledger = ledger n hash;
  closed_ledger = ledger n hash;
  ledger_current_index = pos 8;
  network_id = pos 63456;
  pubkey_node = "n9";
  last_close = record { proposers = pos 4; converge_time_ms = pos 2000 };
}

abbrev polls : Polls
polls = (2, config, answered (info 600 "B")) ∷ (1, config, answered (info 7 "A")) ∷ []

history-IsWindow_example :
    (length (history_at "rippled-0" (poll_all polls (new_node_poller (config ∷ []))))
      ≤ max_validated_history_seqs)
    × (lookup (pos 600) (history_at "rippled-0" (poll_all polls (new_node_poller (config ∷ []))))
        ≡ some "B")
unfolding in_window ◌+ℤ◌
history-IsWindow_example =
    history-IsWindow "rippled-0" (config ∷ []) polls (pos 600)
      (omega arith, omega arith, (omega arith, omega arith, tt))
