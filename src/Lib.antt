-- ===== src/Lib.antt =====
-- Verification library of the control plane and the fuzzer of xrpl-confluence: the sidecar, a Go program
-- that runs beside a network of rippled and go-xrpl nodes, drives load and faults against it, watches the
-- nodes, and records what goes wrong as findings.
--
-- The parts and their files:
--
-- Scenario: the declarative input of a run. Scenario.antt has the records of
--   sidecar/internal/api/scenario.go and errors.go; Scenario/Words, Report, Amendments, NodeConfig and
--   Validate are scenario.Validate of sidecar/internal/scenario/validate.go, a function for each group of
--   rules, in the order in which the errors are reported; Scenario/Compile is scenario.Compile of
--   sidecar/internal/scenario/compile.go, which calls Validate and builds the arguments of the Kurtosis run.
-- Finding: the records of sidecar/internal/api/finding.go. Finding/Store is the ring buffer of
--   sidecar/internal/finding/store.go (Add, GetByID, UpdateReproducer, List), which every oracle adds to
--   and the control API reads. Finding/Stall is the ConsensusProgressOracle of
--   consensus_progress_oracle.go: `observe` is its tick without the store, `tick` adds what was found.
--   Finding/Divergence is the DivergenceOracle of divergence_oracle.go, whose tick is `tick`, and
--   Finding/LedgerDiff is computeLedgerDiff of ledger_diff.go, the evidence that it attaches.
--   Finding/Mapper is MapDivergence of mapper.go, which turns entries of the fuzzer's corpus into findings,
--   and Finding/DiskWatcher the scans of disk_watcher.go, which ingest them from the corpus directory.
-- Server: the control service of sidecar/internal/server. Server/Nodes is the NodePoller of nodes.go: `poll`
--   is one answer of one node, and the history is the window that the divergence oracle and the state diff
--   read. Server/Events is the event bus of events.go. Server/State is the handler of GET /v1/state/diff of state.go. Server/Runs is the life of a run of
--   runs.go: its watcher and the requests that read the shared record are actions in any order; a run asks
--   Scenario/Validate when it starts and Finding/Store for its findings.
-- Chaos/Recurring and Chaos/Schedule: ExpandRecurring of recurring.go and ParseSchedule of
--   schedule_parse.go, which make the schedule that Chaos/Scheduler runs.
-- Chaos/Scheduler: ChaosScheduler of sidecar/internal/fuzz/chaos/scheduler.go. `step` is Step: `fire_all`
--   its loop over the schedule, `recover_due` the recoveries of the step; `run` is a sequence of ticks.
-- Crash: Classify of sidecar/internal/fuzz/crash/markers.go, and Poller.Tick and HangDetector.Step of
--   poller.go.
-- Oracle/Compare: CompareAtSequence of sidecar/internal/oracle/oracle.go, CompareTxResult of tx_result.go and
--   CheckLedger of invariant_balance.go. Oracle/Metadata: CompareTxMetadata of tx_metadata.go.
-- Oracle/Liveness: the body of the loop of Monitor of sidecar/internal/oracle/liveness.go.
-- Corpus/Signature: DivergenceSignature of sidecar/internal/fuzz/corpus/signature.go.
-- Accounts/Tiers: AssignTiers, ApplyAll and RotateTiers of sidecar/internal/fuzz/accounts/tiers.go and pool.go.
-- Runners/Sequence: seqManager of sidecar/internal/fuzz/runners/seqsubmit.go; `submit_tx` is submitTx,
--   with `account_for`, `peek`, `submitter`, `settle` and the other steps that it goes through.
-- Runners/Shrink: Shrink of shrink.go, one probe of a run log; it asks the comparisons of Oracle and matches the
--   divergences by Corpus/Signature.
-- Mainnet/Rewriter: Rewriter of sidecar/internal/fuzz/mainnet/rewriter.go, with the calls of Rewrite in a sequence.
-- Prelude: Go's maps as association lists, its integers, sorting, decimal printing and the order of
--   texts, and the lemmas that the parts share.
--
-- A method that holds its lock for its whole body is one step from a state to a state. What the network,
-- the container runtime, the clock, the YAML, JSON and wallet libraries and random ids answer is an argument; an
-- error is `none` or a constructor. A Go map is an association list; where a loop ranges over one, the
-- order is that of the list, and a theorem speaks of the entries and not of their order. A Go int is the
-- integer type of Prelude/Int where its sign or its wrap-around is tested, with the wrap-around of the sum of
-- the node counts, of the steps of a recurring event and of the targets of the tiers written out, and a natural number where the program only counts up. The 32-bit account
-- sequences wrap at 2 ^ 32.
--
-- Fuel: decimal printing in Prelude/Show has `suc n` for the number n, which falls with every division by
-- ten. The loop of ExpandRecurring has none in the program; Chaos/Recurring/Ending has the `rounds` that
-- are enough and shows that more change nothing.
--
-- Not modelled: the HTTP server and client, the command line programs, discovery, Kurtosis and Docker calls, the
-- RPC client, which are input and output; the
-- transaction generator, the keys of the accounts, the files of the corpus and the
-- other runners, which are left to extensions of this library; the Starlark topology and the dashboard, which are in other languages.
pub mod Prelude
pub mod Finding
pub mod Chaos
pub mod Crash
pub mod Scenario
pub mod Runners
pub mod Server
pub mod Corpus
pub mod Oracle
pub mod Accounts
pub mod Mainnet
