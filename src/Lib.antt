-- ===== src/Lib.antt =====
-- Shreni's task graph and the worker over it. The engine of src/taskgraph keeps a project's tasks,
-- their containers, dependencies, leases, plans and events in a database, under the lifecycle that
-- Shreni ships for it (src/policy/lifecycle). A worker (src/sthapathi) polls it for each Kshetra, a
-- repository that it works on: it claims a task, runs agents on it, and keeps its own pauses and
-- counters in a state file (src/kshetra/state.ts).
--
-- Parts, and the files that model them:
--   TaskGraph/Types, Errors    src/taskgraph/types.ts, errors.ts: rows, errors, the result type.
--   TaskGraph/Store            the tables of src/taskgraph/migrations/0001_core.ts for one project,
--                              with the clock taskgraph.now() and the guards' own tables.
--   TaskGraph/Lifecycle        src/taskgraph/lifecycle.ts and permissions.ts: the definition of a
--                              lifecycle, and what the engine looks up in it; Lifecycle/Rules is
--                              lifecycleViolations, rule by rule, and Rules/Registered what follows
--                              for a definition with none.
--   TaskGraph/Client           src/taskgraph/client.ts: the actor handle, assertVersion, check.
--   TaskGraph/Containers       src/taskgraph/containers.ts: parents, live children and dependents.
--   TaskGraph/Moves            src/taskgraph/moves.ts: `check_move` is the part of movesApi that may
--                              throw, `commit_move` the part that writes, `move` both.
--   TaskGraph/Ready            src/taskgraph/ready.ts and filterWhere of reads.ts: readiness, claim
--                              order and filters as tests on a row.
--   TaskGraph/Sweep, Claims    src/taskgraph/claims.ts: the sweep of lapsed leases, claim,
--                              heartbeat, moveClaimed and resume.
--   TaskGraph/Deps             src/taskgraph/deps.ts: dependencies, links and notes.
--   TaskGraph/Tasks            src/taskgraph/tasks.ts and ids.ts: create and delete, and update in
--                              Tasks/Edit.
--   TaskGraph/Requests         src/taskgraph/requests.ts: writes that run once for a request id; in
--                              Requests/Writes the writes of client.ts that answer nothing, under it.
--   TaskGraph/Validators       src/taskgraph/validators.ts: findCycle is Validators/Cycle, by depth-first
--                              search; the built-in validators and runValidators.
--   TaskGraph/Plans            src/taskgraph/plans.ts: moveInTx, create, approve, validate and
--                              tasks.approve; discard and its order are Plans/Discard.
--   TaskGraph/System           the operations of the handles of src/taskgraph/client.ts as the steps of
--                              one system.
--   TaskGraph/Invariant        the well-formedness of the rows, and how an update keeps it.
--   Policy/Guards, Lifecycle   src/policy/lifecycle/guards.ts and lifecycle.ts.
--   Policy/Leases              src/policy/sthapathi/leases.ts: retryUnavailable.
--   Kshetra/State              src/kshetra/state.ts: the state file, and each of its writes.
--   Sthapathi/Phases,          src/sthapathi/lifecycle.ts and index.ts: the phases of a worker, and the
--     Scheduler                loop as steps between its awaits: a timer fires, a hook answers or
--                              throws, a wake, a stop. Scheduler/Timing is recordPhaseChange.
--   Sthapathi/Watchdog         src/sthapathi/watchdog.ts: evaluateStuck and runWatchdogOnce.
--   Sthapathi/CycleErrors      src/sthapathi/errors.ts: classifyError and handleCycleError.
--   Sthapathi/Retry            src/sthapathi/retry.ts: withRetry.
--   Sthapathi/PrFollowup,      src/sthapathi/pr-followup.ts and pr-followup-loop.ts: the feedback on a
--     FollowupLoop             pull request, and the bounded rounds over it.
--   Ext/Budget, Spend          src/ext/budget-policy.ts and spend.ts: the caps on spending, and the sums
--                              of a ledger that they are held against.
--   Samples                    concrete rows, and the theorems applied to them.
--   Common                     names of the library, tests, list lemmas and reachability.
--
-- An operation is a function from a store to a result, which is an error or a new store with an
-- answer. A transaction that throws rolls back, so an error carries no store. The engine locks the
-- rows it writes, and takes a graph lock for edges, until commit: the model runs transactions one
-- after another, and says nothing of transactions that overlap, of retries or of a lost connection.
--
-- A recursive query is the least fixpoint that SQL gives it: `Reaches` is the relation, by the
-- steps along edges, and `reach` decides it by recursion on the edges, so there is no fuel. Other
-- loops are recursion on lists, but for the draws of a new id, which the source bounds at twenty,
-- and the decimal digits of a number, which are no more than the number. Times are milliseconds as
-- natural numbers. New ids (gen_random_uuid, and the random draws of ids.ts) are arguments, and
-- the order in which the database collates ids is a field of the client, total and transitive
-- where a theorem asks for it. Guards are functions of the task, the actor and the store. The keys
-- of an object are a list of pairs; a lifecycle counts as registered when it has no violation and
-- its state names are distinct, as the keys of an object are. The retry loops of lockWithParent
-- and update, and the retry of a create that lost its key to another one, end at once, since no
-- other transaction runs meanwhile. The text of an InvalidRequest is its fixed words.
--
-- A lifecycle may name its claim move as an expiry move, and then a swept task would be leased
-- with no lease; the theorems on sweeps and claims exclude this.
--
-- The search of findCycle has one unit of fuel for each node, and the order of a discard one for
-- each of its tasks: each call marks a new one. The retries of a lost database have one for each
-- millisecond of their time, since a sleep takes at least one; those of an agent's call and the
-- rounds over a pull request are bounded by their own counts. What agents, hooks, timers and the
-- clock do is an argument, or a step of its own kind. A field that an entry of the state file lacks
-- is what its readers take for it. Costs are whole millionths of a dollar, to which the source
-- rounds them; a run's cost is in the ledger before the next run is checked.
--
-- Not modelled: the database driver, sessions and notification, which are input and output; the
-- backstop triggers, but for the one that keeps an approval off a leased task, which is a condition
-- of that step; activation, upgrade and bundles; the stored form and hash of a lifecycle; the
-- dispatch to agents, git, merging, gates and metrics of the orchestrator; the command line, the
-- agents and the web pages.
pub mod Common
pub mod TaskGraph
pub mod Policy
pub mod Kshetra
pub mod Sthapathi
pub mod Ext
pub mod Samples
