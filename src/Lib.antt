-- ===== src/Lib.antt =====
-- WireAssume: a verification library for the Rust workspace under crates/.
--
-- The program records the traffic between a consumer and a provider, replays it with one mutation at a
-- time, runs the consumer's workflow as an oracle, and writes what the failing trials show of the
-- consumer to a consumption lock. The experiment crate makes an ExperimentReport of trials; the
-- contract engine makes the lock and the resilience score of it; the delta debugger reduces the fields
-- of a response to those that the consumer needs.
--
-- DeltaDebugger: crates/delta-debugger/src/lib.rs. `ddmin` passes the state that the test closure may
--   change from call to call; the `loop` is `run_loop` on fuel, whose body is `iterate`: `first_match`
--   is one `for` loop over the ranges, `try_complements` the first, `try_subsets` the second and the
--   growth of `n`. `enough_fuel`, one more than length squared plus length, is enough for every test.
--   Async models `ddmin_async`: a future is polled, and changes the state, until it is ready.
-- Model: crates/model/src. Json holds the values of serde_json, Corpus the records of corpus.rs,
--   Canonical the functions of canonical.rs; `serde_json::to_value`, `to_vec` and the SHA-256 digest are
--   parameters (Serde). Redaction is redaction.rs; the regular expressions and the URL parser are
--   parameters (Regexes, Urls). Files is the file system that the artifacts and the corpus are written to:
--   each operation may fail (Faults), and a write that fails may leave anything in its file; Store is
--   `CorpusStore` of corpus.rs over it, with what serde reads and writes as a parameter (Codec).
-- Proxy: the controller of crates/proxy/src/experiment_server.rs, a state with the active override.
-- Replay: crates/replay/src/lib.rs, the index and its lookup, and how the handler of experiment_server.rs
--   chooses between the recorded response and the active override.
-- Config: the validation of a configuration in crates/config/src/lib.rs.
-- Normalizer: crates/normalizer/src/lib.rs.
-- Oracles: crates/oracles/src/lib.rs. An oracle is a parameter: it sees the active override and changes
--   what lies outside the program.
-- MutationEngine: crates/mutation-engine/src. Kind is `MutationKind` of mutation.rs with its derived
--   order, Mutation the rest of mutation.rs: mutations, the escapes of JSON pointers, and the changes at
--   one. `Value::pointer_mut` is a parameter (Pointers): the value that is pointed at, and the whole with
--   another in its place. JsonMutator, ArrayMutator and Protocol are json.rs, arrays.rs and protocol.rs;
--   a function that pushes to a `Vec` returns what it pushes. The identifiers (Fingerprints), SHA-256 and
--   the shuffle of rand (Randomness) are parameters. The walks are recursion on the document. Planner is
--   `MutationPlanner::plan` of planner.rs, with the mutators as parameters.
-- Experiment: crates/experiment/src. Report has the records of a report, lib.rs and minimize.rs; Paths
--   `request_path` and `path_matches` of lib.rs, and Plan `ExperimentRunner::plan`: what the corpus store
--   returns and what the mutators make are parameters; `push_cases` is each of the two inner loops, with
--   `break 'interactions` as a Boolean. Minimize is minimize.rs, over `minimize_success_async`: the closure
--   is a future of four steps on the world and the recorded trials. Artifacts has the artifacts of a run
--   and how they are written, and Run is `ExperimentRunner::run` on a state of the world and the files:
--   `run_case` is one round of the loop over the cases. `?` is `and_then`. Where the reducer of Minimize
--   runs out of fuel, Run has an error of its own; its fuel is that of `ddmin`. Runner plans with the
--   program's mutators.
-- ContractEngine: crates/contract-engine/src/lib.rs. Records has the structs, Kinds the tables by kind
--   of mutation, Build the two builders and the body of the loop of `build_consumption_lock`, Lock the
--   loop, the two `finish` methods and the lock, Analysis `analyze_contract`. `Value::pointer` and what
--   serde writes for a fingerprint are parameters (Callees). A panic of `expect` is an outcome of its
--   own (Failure). Diff is diff.rs: `diff_contracts` on two locks. The other modules hold the proofs.
-- Prelude: what the Rust library gives: tests, slices, results, BTreeMap as an ordered list of entries,
--   the stable sort, and the methods of `str`.
--
-- Integers are natural numbers. The counts are of items in memory, and the weights are at most 4 for a
-- trial, far below 2^64; the subtractions are written as the code has them.
--
-- Not modelled: the comparison with an OpenAPI document, which no theorem here rests on; and the reading of
-- a configuration, the listing of the corpus, the HTTP servers, the oracles' processes and requests, the
-- command line and the printed forms of a lock (YAML, Markdown, HTML,
-- Pact), which are input and output.
pub mod Prelude
pub mod Model
pub mod MutationEngine
pub mod DeltaDebugger
pub mod Normalizer
pub mod Proxy
pub mod Replay
pub mod Oracles
pub mod Experiment
pub mod Config
pub mod ContractEngine
