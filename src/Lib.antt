-- ===== src/Lib.antt =====
-- The verification library of the agent knowledge base: a local memory layer that coding agents
-- (Claude Code, Codex, Hermes) share. Hooks send events to a service, which keeps them in a ledger
-- for each project, turns ranges of them into memories by jobs of a queue, and serves context to
-- later sessions. Sessions that work on one repository coordinate through leases and claims.
--
-- What is modelled, and where:
-- - Coordination: crates/brain-coordination/src. `Task` is task.rs, `Lease` is lease.rs and `Claims`
--   is claims.rs with the path and overlap rules in `Claims.Paths` and `Claims.Overlap`. `Model`
--   has the rows of the schema in lib.rs. A lease is the right to write for a task: each change of
--   owner raises its generation, which later calls must name. A claim says which paths a session
--   works on, and warns the sessions whose claims overlap. `Invariant` and `Steps` say what holds
--   of the store after any calls.
-- - Jobs: crates/brain-store/src/jobs.rs. `Window` is `unqueued_event_range`, the events that the
--   next job spans; `Enqueue` is the `enqueue_…` functions; `Queue` is `lease_consolidation_job`,
--   `complete_…`, `fail_…`, `defer_…` and `retry_dead_letter_jobs`; `Overview` is the reads, and
--   `Redactions` keeps what was redacted of the evidence that a job sends to a model. The
--   consolidation loop of crates/brain-service leases jobs from here and ends them.
-- - Merge: `validate_merge` of crates/brain-context/src/merge.rs, which refuses or accepts what a
--   language model proposes for two claims. `Merge.Soundness` says what an accepted merge is.
-- - ProviderCache: crates/brain-store/src/provider_cache.rs, which keeps the answers of context
--   providers until they expire and the first prompt of each session. `ProviderCache.Freshness`
--   says what a read gives after a write.
-- - Memory: the memories of a project, in crates/brain-store/src. `Append` is memory.rs's
--   `append_memory`, `Reads` its queries, `Forget` is tombstone.rs and `Eviction` is access.rs and
--   evict.rs. A memory is a sequence of versions, which are never changed; a withdrawal hides it.
-- - Events: the event ledger of crates/brain-store/src/ledger.rs and cursor.rs. A batch of events
--   is appended with the cursor of its source. `Events.Rows` is the tables, `Events.Drift` the schema
--   drifts of sources, `Events.Deliveries` the contexts that were handed to agents, with the types
--   of context_metrics.rs, `Events.Reads` and `Events.Sessions` the queries, and `Events.Dating` the
--   repair of dates in memory.rs. `Events.Pages` and `Events.Channels` say what the reads come to.
-- - Telemetry: crates/brain-store/src/lifecycle.rs. `Store` and `Decisions` are its two tables,
--   `Names` its types, and `Folds` what the service counts of them.
-- - Pushes: crates/brain-store/src/push.rs, the memories that each session has been handed.
-- - Context: crates/brain-context/src. supersession.rs and authority.rs choose among the memories
--   that a query found before a context is written. `Context.Compile` is `compile_blocks` of
--   compiler.rs, which writes the context, with token_budget.rs, which counts its tokens.
-- - Jsonl: crates/brain-adapters/src/jsonl.rs with the types of traits.rs, which reads what a
--   transcript has got since a cursor. The adapters make of its records the batches of `Events`.
-- - Pressure: crates/brain-service/src/backpressure.rs, which pauses work when the disk is full.
-- - Domain: of crates/brain-domain/src, `Harness` and `Event` are event.rs, `Memory` is memory.rs
--   and `Slug` its file names.
-- - Common: lists, texts, Rust's `Result` and the `time` crate's instants, and their lemmas.
--
-- How the code corresponds:
-- - A table is a list of records in the order of insertion, a statement is a list operation, and a
--   clause of the schema (PRIMARY KEY, UNIQUE, CHECK, REFERENCES) is a test before the write. A
--   transaction gives the state after its commit or an error and no change. Where statements run
--   one by one, as in the queue, a function gives its result and the state that it leaves.
-- - Functions keep their names. A helper that stands for a part of a function says which.
-- - An enum is kept where the code writes its name to a text column and reads it back. A UUID is a
--   number. A text is the list of its code points.
-- - An instant is the number of nanoseconds since the `time` crate's first instant. A sum that
--   leaves the crate's range is the error `panicked`, and a column holds an instant only if its
--   Unix nanoseconds fit an `i64`. `u64` generations saturate and must fit an `i64` to be stored,
--   and `u32` attempts are tested when they are read.
-- - Functions are structural recursion on a list, so there is no fuel, but for the loop of
--   `Jsonl.read_records`. It has as fuel the number of bytes and one more, and each turn but the
--   last takes a byte at least.
-- - A BTreeMap is an association list. `Telemetry.Folds` keeps it sorted, `Context` sorts it when
--   it is read. A HashSet of ids is a list, in which only membership counts.
--
-- Parameters: `lowercase` is `str::to_lowercase`, `sha256` is the `sha2` crate, `to_string` and
-- `from_str` are those of `serde_json` (in `EventApi` and `TelemetryApi` with the equality of its
-- values), where a theorem needs it with the hypothesis that the second reads back what the
-- first writes of the value in question. `Decoder` is
-- `serde_json`, `sha2` and the decoding of UTF-8 for a line of a transcript, `FloatApi` is the
-- arithmetic of `f64`, `PathApi` is what the `uuid` and `time` crates and the file system tell of a
-- path, and `show` prints a number or a UUID. Ids that `Uuid::now_v7` makes and instants that
-- `OffsetDateTime::now_utc` gives are arguments.
--
-- Not modelled: the choice of what is written into a context, what runs git or other processes
-- (preflight.rs, worktree.rs), pipes, HTTP, prompts and language models, search scores in floating
-- point, JSON, and the rest of crates/brain-store, whose modules are mostly single statements over
-- other tables. Of memory.rs the global preferences and the repair of the memories' dates are left
-- out. SQLite's own failures (a full disk, a busy database) are left out, and rows that an ORDER BY
-- leaves tied are read in the order of the table, but for the pages of a session: there the order is
-- an argument, `order`, of which `IsOrderBy` says what the ORDER BY promises.
pub mod Common
pub mod Coordination
pub mod Domain
pub mod Jobs
pub mod Merge
pub mod ProviderCache
pub mod Pressure
pub mod Jsonl
pub mod Memory
pub mod Events
pub mod Telemetry
pub mod Context
pub mod Pushes
