-- ===== src/Lib.antt =====
-- The effect broker (src/effect_broker), a ledger that lets agents cause external effects at most
-- as often as they mean to.
--
-- The program. A caller submits a request under an operation key to the broker (engine.py), which
-- reserves one effect for it in a store (store/memory.py, sqlite.py or postgres.py, behind
-- base.py) under the contract of its tool (contracts.py). A worker (worker.py) claims due effects,
-- calls the target through an adapter (adapters/base.py) and persists what the answer proves.
-- Where nothing is proved the effect is `outcome_unknown`, and the reconciler (reconcile.py)
-- resolves it by its safety class: it dispatches again under the same key, probes, or asks an
-- operator. Every change of status is an edge of the transition table (statemachine.py) and a
-- compare-and-swap on the version.
--
-- The files, each group with the sources that it models.
--
-- Prelude and its children: booleans, lists, equality, texts as lists of code points, integers,
--   dictionaries in insertion order, decimal numerals. Json: the values of `JsonObject`.
-- Models, Models/Status, Errors: src/effect_broker/models.py and errors.py.
-- StateMachine (`allowed` is `_ALLOWED`), StateMachine/Graph: statemachine.py.
-- Canonical, Canonical/Dumps, Canonical/Validation, Canonical/Keys: canonical.py.
-- Contracts, Contracts/Validation: contracts.py.
-- Store/Interface: the operations of `EffectStore`; Store/Laws: what its clients rely on;
--   Store/Rows: how a stored effect is updated. Store/Memory and its children: `InMemoryStore`, with
--   its state in State, `claim_due` in Claim, the queries in Reads, and the proofs in the other
--   children; Conforms fills the laws.
-- Store/Sql, Store/Numbered, Store/Values: what the two SQL stores share: queries, counts,
--   updates over lists of rows, numbered rows, and the enumerations by their values; and the
--   transactions of postgres.py and of the crash matrix's target.
-- Store/Sqlite and its children: `SqliteStore` of store/sqlite.py. Tables holds the three tables
--   and the INSERT statements with their constraints, and `_transaction` (in_transaction), Records
--   `_record_params` and `_row_to_record`, Methods the methods that change one effect, Claim
--   `claim_due`, Reads the queries; each method is one transaction. The other children are proofs;
--   Agrees compares it with `InMemoryStore`.
-- Store/Postgres and its children: `PostgresStore` of store/postgres.py, in the same way, with its
--   five tables. `transition` is a read and a write, so that others may commit in between (Fencing);
--   the rows that others have locked are an argument of `claim_due`.
-- Observability: the metrics of observability.py.
-- Adapters, Adapters/Conformance: adapters/base.py; Adapters/Simulated: adapters/simulated.py.
--   `dispatch_count`, the charges and the two switches are the state of the target.
-- CrashMatrix and its children: `DurableTarget` and `DurableTargetAdapter` of
--   examples/crash_matrix/target.py, with its two tables as lists of rows; `commit` is one
--   transaction. The children are proofs; Recovery is about the reconciler with this adapter.
-- World: what the asynchronous code acts on, as explicit state; Exec: methods that mutate and may
--   raise, where what was written before a raise stays written.
-- Fenced: the helpers `_transition_and_record` and `_transition_committed`, which worker.py and
--   reconcile.py both define. Worker, Reconcile and Engine: the files of those names.
-- Auth, Auth/Keys: auth.py, with the settings of config.py that it reads.
-- Api, Api/Tenants: the handlers and the error mapping of api.py, after the framework has parsed a
--   request.
-- Tests: the theorems at concrete inputs.
--
-- How state and time are modelled. The in-memory store holds its lock over each whole method, so a
-- method is one step, and any interleaving of callers is a sequence of steps (Store/Memory/Runs).
-- The worker, the reconciler and the broker are proved over any store that keeps StoreLaws, which
-- `InMemoryStore` is shown to do; `SqliteStore` does not keep them, since it refuses metadata that
-- have no canonical form, and the SQL stores have theorems of their own. Each reading of the clock
-- takes the next answer of a function that may be any; the target is any state that an adapter
-- acts on. All loops are recursions on a list, so there is no fuel.
--
-- SQLite serialises writers, so there a method is one step as well. A uuid that a method draws is
-- an argument. Versions and counts are natural numbers; a retry limit that the column cannot hold
-- is an error, as in the databases. The outcome of a COMMIT of sqlite.py is a parameter, as no
-- ROLLBACK follows one that raises; the theorems assume that it succeeds (Faithful), and what a
-- connection does whose transaction stayed open is not modelled. JSON values tell apart what
-- json.dumps encodes and what it refuses: dicts from other mappings, lists and tuples from other
-- sequences, ints of at most 4300 digits from longer ones; the objects at the top level are dicts,
-- and the interpreter's recursion limit is not modelled.
--
-- Not modelled: the MCP interface, the parsing of HTTP requests, the rest of the configuration and
-- the command line; the worker and the runner of the crash matrix, which start and kill processes;
-- connections, the creation of schemas, latency, tracing and the Prometheus text. SHA-256, HMAC,
-- base64 and the printed form of a time are parameters (Platform), and so is what the SQL stores
-- take from json, datetime and the driver to read back what they wrote (Decoders, Driver). Runs in
-- which several workers interleave between the steps of one round are outside this model.
pub mod Prelude
pub mod Json
pub mod Models
pub mod Errors
pub mod StateMachine
pub mod Platform
pub mod Exec
pub mod Canonical
pub mod Contracts
pub mod Store
pub mod Observability
pub mod Adapters
pub mod CrashMatrix
pub mod World
pub mod Fenced
pub mod Worker
pub mod Reconcile
pub mod Engine
pub mod Auth
pub mod Api
pub mod Tests
