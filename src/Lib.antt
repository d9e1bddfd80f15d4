-- ===== src/Lib.antt =====
-- Ultra Fabric, a Pi extension for context engineering: a model of its coordination core and the
-- theorems that make that core correct. Paths are from the repository's root.
--
-- Parts. The processes of a project share a state file and an event log (src/mesh/store.ts); path
-- leases (src/leases), durable workflows (src/workflows) and lifecycle subscriptions keep their records
-- in it by compare-and-swap. A planner hands a session to an executor through the prewalk state machine
-- (src/prewalk). Compaction is requested and committed later (src/core); consultations of several workers
-- are admitted and reduced (src/consult); old tool results are taken out of what a model sees
-- (src/context); changed files pass a quality gate (src/quality). Children run under a semaphore, turn
-- budgets and activation budgets (src/agents), and a router picks their models (src/routing).
--
-- Files.
--   Prelude      shared names; tests, lists, dictionaries, JavaScript text and integers
--   Semaphore    src/agents/semaphore.ts: acquire, abort, release, step and run over calls
--   Budget       src/agents/persistent/budget.ts: admit, record_tokens, snapshot, restore, summarize
--   Compact      src/core/compact-controller.ts: request, cancel and maybeCommit with its callbacks;
--                Instructions for the encoding in src/compaction/instructions.ts
--   Consult      src/consult/policy.ts: Request for parse_request, Policy for admit_consult;
--                src/consult/reducer.ts: Values for the parsing of a worker's value, Reduce and
--                Perspectives for the loop, Result for what it returns
--   Mesh         src/mesh/store.ts: Keys for the patterns, State for put, delete and get with versions
--                and tombstones; History and Atomic for sequences of calls; Log for the event log:
--                Reading for #readEventsAfter, Compaction for #compactEventLog and #repairEventLog,
--                Publishing for publish; Events and Lines say by lines what a log holds, Cuts where
--                it is cut, Order, Recovery, Seen and Lost what the calls do together
--   LogTail      src/log-tail.ts: read_page, which reads the lines of a file backwards
--   Leases       src/leases/path-leases.ts: Requests for acquire, release, forceRelease and
--                assertCanWrite as updates of the leases; Runs for sequences of calls; Store for
--                the loop of #mutate over the mesh
--   Prewalk      src/prewalk/lifecycle.ts: reduce over the statuses and events; Plan holds the data of
--                src/prewalk/checklist.ts
--   Routing      src/routing/model-router.ts: route_model and the reasons against a candidate
--   Workflows    src/workflows/durable.ts: claim, resume, fail, cancel and complete; Attempts, Claims and
--                Order for sequences of calls; Definition for normalizedDefinition with assertAcyclic,
--                and create; Cycles and Acyclic for the search, Progress for the calls after it
--   TurnBudget   src/agents/turn-budget.ts: resolve_budget and decision
--   Carry        src/runtime/carry-store.ts: persist, snapshot_carry, clear
--   Delivery     src/agents/persistent/delivery-policy.ts: resolve_policy and delivery_notice
--   Retry        src/retry.ts: retry_with_backoff
--   Context      src/context/qos.ts: identities, boundary and the loop that collects results; Retire for
--                the loops that retire them and apply_context_qos; Collecting, Fate and Boundary for
--                what becomes of each message; src/context/handoff-retirement.ts: Handoff for
--                apply_handoff_retirement, Again for applying it twice
--   Quality      src/quality/policy.ts: plan_quality_checks and evaluate_quality_policy
--
-- Conventions. A name is the source's in snake case. `undefined` is `none`, an exception is a
-- constructor of the component's error or result type, a class is a record and a method returns the
-- new record. Numbers are exact: natural numbers, or integers where the source allows a negative one.
-- An object with text keys is an association list in insertion order; that JavaScript puts integer-like
-- keys first is not modelled. A call that holds the mesh lock is one step.
--
-- Parameters. What `node:path` and the file system say of a path, the bytes and digests of JSON texts,
-- fresh ids, the line that JSON makes of an event and what it reads from a line, the texts of canonical
-- arguments and of markers, what resolves the evidence of a consultation, and JavaScript's NFKC and lower
-- case of a text are parameters. A text is cut between characters, never inside a surrogate pair.
--
-- Fuel. A loop runs over a list, or over the attempts that are left; `mutate` runs over a list of its
-- rounds, of any length. `visit`, the search for cycles of a workflow, takes as fuel the number of
-- phases and one more, which is enough because the ids that are being visited are ids of phases, all
-- different. `buffer_start` and `find_from` take the bytes of the file: each round of the first reads a
-- byte or more, and each page that the second asks for starts before the last.
--
-- Names that every object inherits, such as toString, count as live in the compaction of tombstones, as
-- they do there; what else reads `entries` looks at the entries that were written.
--
-- Not modelled: the terminal interface, providers and process transports, which are input and output;
-- the sandbox and the type checker, which are libraries that the source calls. Of what the files above
-- model, the lock of the mesh, its backward reads of recent events and the lines of its log that are
-- objects with no natural sequence, the loops other than #mutate that repeat a compare-and-swap, the
-- reading of a stored workflow, the context of a request to consult and the
-- decoding of compaction instructions are left out.
pub mod Prelude
pub mod Semaphore
pub mod Budget
pub mod Compact
pub mod Consult
pub mod LogTail
pub mod Mesh
pub mod Leases
pub mod Prewalk
pub mod Routing
pub mod Workflows
pub mod TurnBudget
pub mod Carry
pub mod Delivery
pub mod Retry
pub mod Quality
pub mod Context
