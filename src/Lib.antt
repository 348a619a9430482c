-- ===== src/Lib.antt =====
-- The orchestrator of Browser-use: the program that takes browsing tasks over HTTP, queues them, leases
-- browser nodes to run them on, and keeps a pool of such nodes at its target size. It keeps its state in
-- in-memory services, each behind a mutex, that the API handlers, the task runner's workers and the pool
-- manager call concurrently.
--
-- The parts, and the files that model them:
--
-- - Lease (internal/lease/manager.go, inmemory.go): leases on named resources with fencing tokens.
--   InMemoryManager is Lease.Manager; Acquire, Release and Renew are acquire, release and renew, and the
--   part of each under the lock is acquire_locked, release_locked and renew_locked. Lease.Exclusion and
--   Lease.Fencing hold the proofs about histories of calls.
-- - Task (internal/task/service.go): the task service. Task.Types has the records, Task.Service the calls
--   that change a task (create, start, retry, complete, fail, cancel) and get, Task.Listing the three
--   listings, Task.Outputs deriveExtractedOutputs. Task.Validity, Task.Lifecycle and Task.Attempts are
--   about histories of calls.
-- - Session (internal/session/service.go): the session service; Session.Laws is about its histories.
-- - Idempotency (internal/idempotency/store.go, inmemory.go, and internal/api/idempotency.go): the store of
--   answers and claims (Idempotency.Store), its histories (Idempotency.Claims), what the client is sent
--   (Idempotency.Response), and handleIdempotentRequest with waitForIdempotentEntry
--   (Idempotency.Handler): `advance` is a request's next call on the store, so that `interleave` can run
--   two requests against each other. Idempotency.Replay has the theorems about requests.
-- - Pool (internal/pool/types.go, registry.go, manager.go): the node registry (Pool.Registry, Pool.Nodes) and
--   the pool manager's reconcile (Pool.Manager), with its conditions described apart from the code (Pool.Causes), what it
--   may destroy (Pool.Safety), and what it destroys, leaves and asks for (Pool.Capacity, from Pool.Scanning and
--   Pool.Provisioning).
-- - Runner (internal/taskrunner/runner.go, internal/nodeclient/client.go): Runner.Settings is New;
--   Runner.Queue is Enqueue, clearEnqueued and the worker's receive as interleaved steps, Runner.Reconcile an Enqueue
--   with nobody in between and reconcileQueuedOnce, Runner.Requeue enqueueAfterDelay; Runner.Domains the
--   cooldown of blocked domains; Runner.Retry the decision and the delay of a retry; Runner.Nodes
--   tryAcquireReadyNode, releaseNode and the lease keepalive; Runner.Trace the data passed to and from a
--   node; Runner.Process processTask in two parts, `begin` before a node is acquired and `conclude` after
--   the execution, with the failure handlers. Runner.Begin, Runner.Settle, Runner.Recorded and Runner.Sharing are about
--   them; Runner.Sharing joins the runner with the lease manager.
-- - Api (internal/api/security.go, tasks.go, sessions.go, nodes.go, metrics.go, and the routes of server.go): Api.Limiter is the
--   fixed-window limiter, Api.Buckets one call of it and Api.Quota what it grants; Api.Security is withAPISecurity, Api.Routes where a method
--   and a path lead, and Api.Guarding joins the two; Api.Tasks has the parts that the task handlers share
--   (resolveTaskSessionID, ensureSessionExists, enqueueCreatedTask), Api.Handlers the handlers that change
--   state, over Task.Service and Session; Api.Creation, Api.Settling, Api.Outcomes and Api.Cancels are about them. Api.Listings
--   has the handlers that read, Api.Chains is about getReplayChain; Api.Stats is handleTaskStats and Api.Counting and Api.Rates
--   about it; Api.Nodes has the handlers of nodes.go over Pool.Registry, with Api.Recycling about one of them, and Api.Metrics
--   the figures of metrics.go.
-- - Agent (cmd/node-agent/main.go, planner.go, blocker.go): Agent.Egress is the egress policy, Agent.Listing, Agent.Passing and Agent.Policy
--   what passes it; Agent.Blocker is classifyBlocker, joined with the runner's cooldown; Agent.Actions is
--   sanitizePlannedActions and PlanStep, Agent.Plans about them; Agent.Values has the bounds of
--   waits and the checks of extracted values; Agent.Rounds is the goal loop of
--   ExecuteWithActions with what the planner and the page answer as arguments, and Agent.Loop about it.
-- - Base: maps as association lists, texts, signed integers, fmt's decimal digits, RFC 3339 times, sort.Slice and
--   Go's errors, with their lemmas.
--
-- How Go is read:
--
-- - A call that holds a mutex is one step; a history is a list of steps, so every interleaving of callers is
--   one. What a caller does between two critical sections is separate steps (the queue, the idempotent
--   handler, the two parts of processTask).
-- - An instant is a number of nanoseconds since Go's zero time, so the zero time.Time is 0 and IsZero is
--   a comparison with 0; a clock's reading is an argument, one for each call. A duration is a signed
--   integer (ℤ). Instants and durations do not overflow.
-- - A handler of the API makes several calls of the services. Where what comes after the first depends on others,
--   their calls in between are an argument (`others`, `Between`, and `before` and `after` of the runner's begin); a request's decoded body, the dispatcher's answer and the
--   polls of a waiting request are arguments too.
-- - A token or a counter is its 64-bit pattern and wraps at 2^64; an attempt is a natural number.
-- - A Go map is an association list with one entry for a key. Where the source ranges over a map, the
--   order in which the entries come is an argument.
-- - sort.Slice is an insertion sort; it agrees with Go's on what the source fixes.
-- - A text is a sequence of code points; ToLower is exact where its result is compared with an ASCII text, and
--   an argument where two hosts are compared (the egress policy and the cooldown of domains).
-- - An error is a value with its text and its chain of wrapped errors, so that errors.Is and err.Error() are
--   functions.
-- - The hexadecimal SHA-256 (digest), net/url's Parse and Hostname, the answers of the node provider,
--   the artifact store and the node, and generated UUIDs are arguments.
-- - In the node agent, an address and its tests (netip), the resolver and fmt's %q and strings.ToLower are the fields of a record, and
--   strconv.Atoi and net.SplitHostPort are arguments.
-- - All recursion is on the list at hand or on a count that the source fixes (ten tries of enqueueAfterDelay, the
--   nodes to provision, max_depth tasks of a replay chain, twelve actions of a plan, the rounds of the goal loop), so
--   nothing needs fuel.
--
-- Not modelled: the Redis and Postgres variants of the services and the Docker provider (calls of a
-- database or of Docker); the text of the metrics and the dashboard; the artifact store's files; of
-- the node agent, the browser driver (applyAction, internal/cdp, humanize.go), the planners that choose actions
-- and the gRPC server; the generated gRPC code; configuration from the environment; logging. In the
-- runner, the waiting loops (acquireNode, reconcileQueuedLoop), the map of running tasks' cancel functions
-- and the context of an execution are not modelled: what an execution answers after a cancellation or a lost
-- lease is an Outcome like any other, with a flag for the lost lease.
pub mod Base
pub mod Lease
pub mod Task
pub mod Session
pub mod Idempotency
pub mod Pool
pub mod Runner
pub mod Api
pub mod Agent
