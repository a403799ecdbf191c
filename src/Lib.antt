-- ===== src/Lib.antt =====
-- The workload platform runs workflows: directed acyclic graphs of tasks with dependencies, retries
-- and timeouts. A run is a snapshot of a state machine and its audit log. The kernel in
-- `workflow/` computes the next snapshot, and a store commits the difference with a revision check.
-- One store is a directory of files; the other is a PostgreSQL database, whose repository also hands
-- tasks out to workers under leases. This library models the kernel and both stores.
--
-- Parts and files:
--   Common        Booleans, lists, machine integers, and results with the kinds of errors.
--   Model         workflow/definition.go, executor.go, run.go, and the status types of state.go.
--   State         workflow/state.go: the three transition tables and the functions that take an
--                 edge and append to the log. State/Moves has the steps as a relation, State/Kept
--                 what they leave alone, State/Log and State/Appended the numbering of the events,
--                 State/Spent the attempts that are over.
--   Distributed   workflow/distributed_state.go: Start (QueueTask, ReturnQueuedTaskToReady,
--                 StartQueuedAttempt), Settle (activeAttempt, settleWorkflowIfComplete), Skip
--                 (skipDescendantsFrom), Retry (applyRetryDecision, MakeRetryReady), Results
--                 (ApplyAttemptResult, InterruptAttempt, TimeoutAttempt), Cancel
--                 (CancelRunSnapshot). Operation joins them as one type of calls.
--   Change        workflow/change.go: changeSetFromSnapshots and, in Change/Apply, applyChangeSet.
--   Creation      workflow/run.go: newRunSnapshot and NewRunSnapshotForVersion.
--   Compiler      workflow/compiler.go: Compile; Compiler/Names has the identifiers and blank texts,
--                 Compiler/Values validateJSONValue, Compiler/Kahn the cycle check.
--   Recovery      workflow/recovery.go: prepareForResume and validateAttemptHistoryForResume.
--   Store         workflow/filestore/store.go over a directory of texts (Store/Directory), with the
--                 failure of each step of a write. The JSON codec is a parameter that gives back what was
--                 written but for the inputs of the definition (`read_back`). Store/Adapter puts the
--                 adapter of workflow/persistence.go over it.
--   Engine        workflow/engine.go: Engine/Storage has the interface of the store, the adapter of
--                 workflow/persistence.go, saveSnapshot and the cancellation paths; Engine/Messages
--                 what the loop receives and keeps; Engine/Loop one turn of the loop of
--                 executeSnapshot; Engine/Execution the whole of it; Engine/Registry the active runs
--                 and the cache; Engine/Runs CreateRun, Execute, Cancel, and Resume of recovery.go.
--   Postgres      internal/postgres. Query has the SQL statements on lists of rows, Tables the rows (and
--                 the names of internal/workerprotocol/types.go and the tokens of
--                 internal/workerauth/token.go). Runs (loadSnapshot) and Changes (applyChangeSetTx) are
--                 run_store.go, NewRuns its Create, CreateRun, ListNonTerminal and RequestCancel;
--                 Replay is the idempotency records of repository.go, Catalog definitions.go, Workers
--                 worker_repository.go, Claim dispatch_claim.go, Report dispatch_complete.go, Heartbeat
--                 dispatch_heartbeat.go, Reap dispatch_recovery.go, and Capacity, Schedule and
--                 Dispatching are dispatch_schedule.go. Advances has what each method may do to the
--                 rows of the dispatches, Sound the invariant and Sound/Sessions and Sound/Every the
--                 methods as one relation; Commits, Accepted, Fencing, Renewed, Sessions, Limits,
--                 Repeated and Registration are about commits, reports, leases and their renewal,
--                 sessions, bounds, idempotency and names.
--   Examples      a workflow of two tasks, and the theorems at its runs.
--
-- The kernel never edits a stored snapshot: it works on a copy and returns it. Here a function takes
-- a snapshot and returns the next one or an error. An error has a kind and no message, and comes
-- without a snapshot, since every caller drops the copy that a failed call worked on. The copies
-- themselves (cloneRunSnapshot) are the identity. The `bool` of an operation is `ok none` for false.
--
-- A pointer that may be nil is an `Option`. An instant is the number of nanoseconds since the zero
-- value of Go's time. Event numbers and revisions are `uint64` and wrap at 2 ^ 64; the product of
-- milliseconds and time.Millisecond wraps as `int64`; instants lie 2 ^ 63 nanoseconds or more after
-- the zero value, so a wrapped product does not lead before it. Dependency counts and policies are integers;
-- indices and attempt numbers that are passed in are natural numbers, so the refusal of a negative
-- one is not seen. The JSON round trip that copies a task's input (cloneTaskInput) is a parameter.
--
-- The work list of skipDescendantsFrom runs on fuel: the length of the first queue plus the number of
-- edges of the graph. Each edge is followed once at most.
--
-- The cycle check of Compile runs on fuel, the number of tasks: each task enters its queue once at
-- most. The try of a cancellation after a conflict is a loop of two, as in the source.
--
-- The executor's goroutines, the timers and the channels of the engine are a list of messages, in any
-- order and with any content; the clock and the context are functions that answer each look at them.
-- The lock of the engine and that of the store make their operations atomic. The JSON codec, the file
-- system calls other than the steps of a write, and Go's maps (as association lists) stand for the
-- standard library. What an operation registers as active is released when it returns, so the state
-- of the engine is an argument of Execute and Resume and not a result.
--
-- A table of the database is a list of its rows in the order of its primary key; the rows of tasks,
-- attempts and events stand with their run. A method of internal/postgres is one transaction: it
-- takes the tables and returns new ones with its answer, or an error, which rolls everything back.
-- The row locks make the methods atomic, and FOR UPDATE SKIP LOCKED reads a predicate that says which
-- rows another transaction holds. CURRENT_TIMESTAMP and clock_timestamp are instants that are passed
-- in, and GenerateToken and the random suffixes are lists of what they return. SHA-256, the codec of
-- JSON columns and the order of the collation are the fields of the record `Host`. Of the
-- constraints of the tables there are those whose violation the code handles; numbers that the
-- columns hold as int64 are below 2 ^ 63. A limit or a number of slots that is not positive is zero.
--
-- Not modelled: the agent, the HTTP servers and clients, the coordinators and the runtime of a worker,
-- containers, alerts and telemetry, which call this code or stand beside it; and of internal/postgres
-- the migrations, the pages of queries.go, the pool and the session of the advisory lock.
pub mod Common
pub mod Model
pub mod State
pub mod Store
pub mod Distributed
pub mod Change
pub mod Compiler
pub mod Creation
pub mod Recovery
pub mod Engine
pub mod Examples
pub mod Postgres
