-- ===== src/Server/Nodes.antt =====
-- server.NodePoller of sidecar/internal/server/nodes.go: what each node last answered, and the window of
-- validated ledgers. The answer of server_info and the clock are arguments, each poll is a step, and the
-- convergence times are in thousandths of a second. A sequence number has room for the subtractions.
pub mod Window
pub mod Tests
use xrpl_confluence.Prelude.{
  ℕ, String, ◌≡◌, Bool, true, false, ◌||◌, ◌&&◌, not, Option, none, some, List, [], ◌∷◌, ◌++◌, map,
  if◌then◌else◌, ◌==◌, ◌/=◌, string_eq, length,
}
use xrpl_confluence.Prelude.Dict.{Dict, lookup, insert, keep_keys}
use xrpl_confluence.Prelude.Int.{ℤ, pos, negsuc, ◌+ℤ◌, ltb_ℤ, leb_ℤ, int_eq}
use xrpl_confluence.Finding.Divergence.{DivergenceInput}

pub record NodeConfig : Type 0 where
  pub name : String
  pub type : String
  pub rpc : String

pub record LedgerRef : Type 0 where
  pub seq : ℤ
  pub hash : String

pub record LastClose : Type 0 where
  pub proposers : ℤ
  pub converge_time_ms : ℤ

-- rpcclient.ServerInfo
pub record ServerInfo : Type 0 where
  pub server_state : String
  pub build_version : String
  pub complete_ledgers : String
  pub peers : ℤ
  pub uptime : ℤ
  pub validated_ledger : LedgerRef
  pub closed_ledger : LedgerRef
  pub ledger_current_index : ℤ
  pub network_id : ℤ
  pub pubkey_node : String
  pub last_close : LastClose

pub record Node : Type 0 where
  pub name : String
  pub type : String
  pub status : String
  pub server_state : String
  pub build_version : String
  pub uptime : ℤ
  pub peers : ℤ
  pub complete_ledgers : String
  pub validated_ledger : Option LedgerRef
  pub closed_ledger : Option LedgerRef
  pub ledger_current_index : ℤ
  pub network_id : ℤ
  pub pubkey_node : String
  pub last_close : Option LastClose
  pub error : String

-- Node{}, the zero value.
abbrev zero_node : Node
zero_node = record {
  name = "";
  type = "";
  status = "";
  server_state = "";
  build_version = "";
  uptime = pos 0;
  peers = pos 0;
  complete_ledgers = "";
  validated_ledger = none;
  closed_ledger = none;
  ledger_current_index = pos 0;
  network_id = pos 0;
  pubkey_node = "";
  last_close = none;
  error = "";
}

pub record NodesResponse : Type 0 where
  pub timestamp : ℕ
  pub nodes : List Node

abbrev pub max_validated_history_seqs : ℕ
max_validated_history_seqs = 512

-- The validated (seq -> hash) observations of one node.
abbrev pub History : Type 0
History = Dict ℤ String

pub record NodePoller : Type 0 where
  pub cfgs : List NodeConfig
  pub nodes : Dict String Node
  pub history : Dict String History

unreachable : NodeConfig → String → Node
unreachable c err = record zero_node {
  name = c.name;
  type = c.type;
  status = "unreachable";
  error = err;
}

initial_nodes : Dict String Node → List NodeConfig → Dict String Node
initial_nodes nodes [] = nodes
initial_nodes nodes (c ∷ cs) = initial_nodes (insert c.name (unreachable c "") nodes) cs

pub new_node_poller : List NodeConfig → NodePoller
new_node_poller cfgs = record { cfgs = cfgs; nodes = initial_nodes [] cfgs; history = [] }

-- `p.nodes[name]`
node_at : Option Node → Node
node_at none = zero_node
node_at (some n) = n

pub snapshot : ℕ → NodePoller → NodesResponse
snapshot now p = record {
  timestamp = now;
  nodes = map (λ c. node_at (lookup c.name p.nodes)) p.cfgs;
}

-- The history of one node behind `h[seq] = hash`: the map, and the cutoff of the pruning.
unfoldable pub prune : ℤ → History → History
prune cutoff h = if leb_ℤ cutoff (pos 0) then h else keep_keys (λ s. not (leb_ℤ s cutoff)) h

unfoldable pub observe : ℤ → String → History → History
observe seq hash h = prune (seq +ℤ negsuc 511) (insert seq hash h)

-- `p.history[node]`, or a new map.
history_of : Option History → History
history_of none = []
history_of (some h) = h

pub history_at : String → NodePoller → History
history_at name p = history_of (lookup name p.history)

pub record_validated : String → ℤ → String → NodePoller → NodePoller
record_validated name seq hash p = record p {
  history = insert name (observe seq hash (history_at name p)) p.history;
}

is_given : LedgerRef → Bool
is_given r = ltb_ℤ (pos 0) r.seq || r.hash /= ""

-- The test of the call of recordValidatedLocked.
is_recorded : LedgerRef → Bool
is_recorded r = is_given r && (ltb_ℤ (pos 0) r.seq && r.hash /= "")

given_ref : LedgerRef → Option LedgerRef
given_ref r = if is_given r then some r else none

given_close : LastClose → Option LastClose
given_close c = if ltb_ℤ (pos 0) c.proposers || c.converge_time_ms /= pos 0 then some c else none

node_of : NodeConfig → ServerInfo → Node
node_of c info = record {
  name = c.name;
  type = c.type;
  status = "ok";
  server_state = info.server_state;
  build_version = info.build_version;
  uptime = info.uptime;
  peers = info.peers;
  complete_ledgers = info.complete_ledgers;
  validated_ledger = given_ref info.validated_ledger;
  closed_ledger = given_ref info.closed_ledger;
  ledger_current_index = info.ledger_current_index;
  network_id = info.network_id;
  pubkey_node = info.pubkey_node;
  last_close = given_close info.last_close;
  error = "";
}

put_node : NodeConfig → Node → NodePoller → NodePoller
put_node c n p = record p { nodes = insert c.name n p.nodes }

record_ref : String → LedgerRef → NodePoller → NodePoller
record_ref name r p = if is_recorded r then record_validated name r.seq r.hash p else p

-- What server_info answers: a text is the error.
pub data Answer : Type 0 where
  failed : String → Answer
  answered : ServerInfo → Answer

-- The poll of one node, and the snapshots that it publishes, where it has an event bus to publish them on.
pub poll : ℕ → NodeConfig → Answer → NodePoller → NodePoller × List NodesResponse
poll now c (failed err) p = (put_node c (unreachable c err) p, [])
poll now c (answered info) p =
    let p' = put_node c (node_of c info) (record_ref c.name info.validated_ledger p) in
    (p', snapshot now p' ∷ [])

inputs_of : String → History → List DivergenceInput
inputs_of name h = map (λ e. record { node = name; seq = e.0; hash = e.1 }) h

-- Over the entries of `p.history`.
divergence_inputs : Dict String History → List DivergenceInput
divergence_inputs [] = []
divergence_inputs ((name, h) ∷ rest) = inputs_of name h ++ divergence_inputs rest

pub divergence_snapshot : NodePoller → List DivergenceInput
divergence_snapshot p = divergence_inputs p.history

-- `byNode`, or a new map.
unfoldable pub by_node : Option (Dict String String) → Dict String String
by_node none = []
by_node (some m) = m

abbrev pub BySeq : Type 0
BySeq = Dict ℤ (Dict String String)

put_hash : String → ℤ → String → BySeq → BySeq
put_hash name seq hash out = insert seq (insert name hash (by_node (lookup seq out))) out

put_history : String → History → BySeq → BySeq
put_history name [] out = out
put_history name ((seq, hash) ∷ h) out = put_history name h (put_hash name seq hash out)

hashes_by_seq : Dict String History → BySeq → BySeq
hashes_by_seq [] out = out
hashes_by_seq ((name, h) ∷ rest) out = hashes_by_seq rest (put_history name h out)

pub validated_hashes_by_seq : NodePoller → BySeq
validated_hashes_by_seq p = hashes_by_seq p.history []
