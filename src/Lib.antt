-- ===== src/Lib.antt =====
-- The memory runtime pali: what it keeps, who may reach it, and the queue of its background work.
--
-- pali stores memories of tenants in SQLite (internal/repository/sqlite), keeps their embeddings in a
-- vector store, and serves them over HTTP (internal/api) and MCP. The service (internal/core/memory)
-- calls the repository and the vector store, and marks in the table memory_index_jobs whether the
-- vector store has followed. Work that can wait is a row of the table memory_postprocess_jobs, which
-- the workers of internal/core/memory/postprocess_worker.go claim, execute and mark. Requests carry a
-- token that names their tenant (internal/auth), and the handlers compare it with the tenant that the
-- request asks for.
--
-- The files, and the code that they model:
--   Common, and below it: the shared names; Sql has the clauses of SQL over a list of rows
--     (select, update, count, find, order_by), Unique the loops that drop repeated texts, Text the
--     functions of Go's package strings, Words the int64 with given bits, Errors the errors of
--     internal/domain/errors.go and `(value, error)`.
--   Clock: instants, and the order of their texts in SQL.
--   Domain: the types of internal/domain.
--   Queue: memory_postprocess_jobs in internal/repository/sqlite/memory_jobs.go: enqueue is
--     EnqueuePostprocessJobs, Queue/Claim.claim is ClaimPostprocessJobs, Queue/Mark has the marks,
--     the reads and the lists. Queue/Consistency and Queue/History have the invariant.
--   Worker: postprocess_worker.go: retry_delay, normalize_options, process_job for
--     processPostprocessJob, worker_round for a round of runPostprocessWorkerLoop.
--   IndexJobs: memory_index_jobs in memory_jobs.go: mark_index_state is MarkIndexState.
--   Memories: internal/repository/sqlite/memory.go: store, store_batch, delete_memory, get_by_ids
--     and touch over the tables Db. Memories/Search has the searches, with memory_filters.go and
--     list.go; Isolation, Consistency, Returned and Asked prove.
--   Ingest: StoreBatchAsyncIngest of memory_jobs.go, over the tables of Memories and of Queue.
--   Tenants: internal/repository/sqlite/tenant.go and internal/core/tenant.
--   Service: get.go, delete.go, isolation.go and index_state.go of internal/core/memory.
--   Auth: internal/auth, and enforceTenantAccess of internal/api/handlers/authz.go.
--   Api: Delete of internal/api/handlers/memory.go, and statusForError of errors.go.
--   Facts: internal/repository/sqlite/entity_facts.go; Facts/Keys and Facts/Relations have the
--     normal forms of texts, Facts/Service has storeEntityFacts of
--     internal/core/memory/entity_facts.go.
--   Storing: StoreBatch and prepareStoreInputs of internal/core/memory/store.go, tier_policy.go,
--     parser_identity.go, and IngestBatchAsync of ingest_async.go. Storing/Plain is
--     storeBatchWithoutParser, with Storing/Models for the calls of the models, Storing/Vectors
--     for the index, and Storing/Marked and Storing/Indexed for what its marks leave.
--   Search: candidateWindow of internal/core/memory/search_ranking_utils.go and the options of
--     service.go, with internal/wiring/components.go.
--   Telemetry: internal/telemetry/service.go; Telemetry/Records has the methods that record.
--   Config: Validate of internal/config/validation.go, with the settings of config.go and
--     defaults.go; Config/Worker has the options that internal/api/router.go gives the workers.
--   Tests: runs at concrete inputs.
--
-- How the state is modelled. A table is the list of its rows in the order of their insertion; a
-- statement is a function on that list, and a transaction that fails leaves no state behind. Rows
-- that compare equal in an ORDER BY stay in the order of the table. `clock`, `now` and `draw`
-- stand for time.Now() and for the random ids, and every theorem holds for all their values, or
-- says which ids are new. Two transactions do not overlap, since SQLite has one writer at a time.
-- The loops are structural recursion, so no fuel is used.
--
-- Bounds and assumptions. Instants lie in the years 1 to 9999, where the seconds of their texts
-- have a fixed width. A positive int is a natural number, a possibly negative one an integer; the
-- counters of attempts and recalls are taken not to overflow an int64, but the doubling of the
-- retry delay wraps as an int64 does. A row is the record that is stored: the binding and scanning
-- of columns, JSON texts included, is not modelled, but a NaN importance, which SQLite makes NULL,
-- is refused. JSON columns are the values that they encode, and a float64 is the number of its
-- bits, whose comparisons and sums are parameters, as are strings.ToLower and url.ParseRequestURI.
-- The counters of the telemetry are taken not to overflow, and its minutes are those since 1970.
-- The delay after which an error of a job is known, and its text, are parameters of a round.
--
-- What is not modelled. The text of the full-text table and of its query, the table of embeddings,
-- the cascades into it and into the facts, Neo4j, the handlers of the two types of background
-- jobs, the cancellation of a worker, the parsing and ranking of texts, models and their clients,
-- the dashboard, MCP, the reading of the configuration and the start-up. golang-jwt, the vector
-- store, the scorer, the embedder, the full-text search of SQLite and what is stored through a
-- parser are parameters.
pub mod Common
pub mod Api
pub mod Auth
pub mod Clock
pub mod Config
pub mod Domain
pub mod IndexJobs
pub mod Ingest
pub mod Memories
pub mod Queue
pub mod Service
pub mod Facts
pub mod Search
pub mod Storing
pub mod Telemetry
pub mod Tenants
pub mod Worker
mod Tests
