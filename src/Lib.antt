-- ===== src/Lib.antt =====
-- Verification of pinchtab's control plane: the scheduler of internal/scheduler, which queues browser
-- tasks of many agents and hands them to workers; the instances of the browser of internal/instance
-- and internal/strategy, and the tabs of internal/bridge/tabs; selectors; the limiter of failed
-- logins, the sessions of agents and of the dashboard; and the guard on addresses of
-- internal/netguard.
--
-- The program. A client submits a task, which the queue admits behind a global limit and a limit per
-- agent. Workers dequeue tasks, fairly among the agents, move them through their states and post them
-- to the instance that holds the tab. Clients may cancel a task; a reaper fails the queued tasks
-- whose deadline has passed; snapshots of all tasks are kept in a store and evicted some time after
-- completion; counters record what happened; the configuration may be reloaded while all this runs.
-- An agent proves who it is by the token of a session, which the store finds by its hash, and a
-- client whose logins fail too often is held off for a while. Behind all this run the instances of
-- the browser: a strategy starts the one that it manages again after a crash, a manager finds the
-- instance that has a tab and allocates one to a request, and in an instance tasks on one tab run one
-- after the other. What a client points at on a page is a selector; where it sends a request is
-- checked by the guard. The orchestrator gives each instance a port, remembers which instance served
-- a session or an agent, and keeps the lists of tabs for a while; a router says which engine serves a
-- request, and before all handlers stands a limit on requests and streams per client
-- and a check of the grants of the session.
--
-- The files.
--   Prelude, Prelude/*: names passed on from the library, tests into Bool, lists and association
--     lists (Go's maps, where the order of the list is the order of a `range`), integers, Go's
--     strings.
--   Heap, Heap/*: the operations of Go's container/heap over a list, for any weak order.
--   Scheduler/Task: internal/scheduler/task.go (TaskState, Task, SetState, Validate).
--   Scheduler/Queue: internal/scheduler/queue.go (TaskQueue and taskHeap).
--   Scheduler/Results: internal/scheduler/results.go (ResultStore).
--   Scheduler/Metrics: internal/scheduler/metrics.go (the recorders).
--   Scheduler/Config, Scheduler/State, Scheduler/Submit, Scheduler/Cancel, Scheduler/Dispatch:
--     internal/scheduler/scheduler.go (New, GetTask, finishTask; Submit; Cancel; worker, dispatch,
--     deadlineReaper, Stop) and internal/scheduler/reload.go (ReloadConfig).
--   Scheduler/Batch: internal/scheduler/batch.go (handleBatch).
--   Scheduler/System: any interleaving of those steps, and what holds of all of them.
--   Authn/Limiter: internal/authn/rate_limit.go (AttemptLimiter); Authn/Limiter/Window holds the
--     record of all failures that it is compared with, and Authn/Limiter/Decision what is to be decided.
--   Session/Store: internal/session/store.go (Store).
--   Browser/Sessions: internal/browsersession/session.go (Manager).
--   Strategy/Autorestart: internal/strategy/autorestart/autorestart.go (New, SetRuntimeConfig,
--     State); Strategy/Autorestart/Handlers: internal/strategy/autorestart/restart.go (launchInitial,
--     handleEvent, handleCrash, restartInstance, stabilityLoop).
--   Bridge/Tabs/Lock, Bridge/Tabs/Executor: internal/bridge/tabs/lock.go (LockManager) and
--     internal/bridge/tabs/tab_executor.go (TabExecutor).
--   Instance/Repository, Instance/Locator, Instance/Policy, Instance/Allocator, Instance/Manager:
--     internal/instance/repository.go, locator.go, allocation/*.go, allocator.go and manager.go.
--   Selector/Kinds, Selector/Semantic: internal/selector/selector.go (Parse, String, Validate;
--     SemanticQuery).
--   Netguard/Addresses, Netguard/Resolve: internal/netguard/netguard.go (ValidatePublicIP; the
--     functions that resolve a host).
--   Orchestrator/Ports, Orchestrator/Bindings, Orchestrator/TabsCache:
--     internal/orchestrator/ports.go, bindings.go and tabs_cache.go.
--   Engine/Rules, Engine/Router: internal/engine/rules.go and router.go.
--   Handlers/RateLimit, Handlers/Grants: internal/handlers/middleware_ratelimit.go and
--     middleware_session_grants.go.
--   The other files below a component hold its lemmas; Samples and Tests hold small examples.
--
-- State and concurrency. An operation that holds a lock is one function from state to state. Tasks
-- are shared by pointers: a TaskRef holds the fields that never change after Submit and the address
-- of the rest, and the scheduler's memory maps addresses to tasks. A worker's dispatch is cut into
-- four steps and Cancel into its critical sections, six at most, between which any other step may
-- come; for these steps the model takes any pointer and any place in the call. Submit, one tick of a
-- reaper, Stop and finishTask are one step each, though in the program other goroutines can come
-- between their critical sections: what is proved of the whole scheduler is proved without those
-- interleavings. The goroutines of the restart strategy and the calls of the tab executor are lists
-- of the places where each stands, and a step moves any one of them from one critical section to the
-- next. A range over a map of instances takes any order, a new one each time.
--
-- Bounds. Every loop is structural recursion on a list, or takes the list's length as its bound where
-- it moves through the heap, which the lemmas on the heap show to be enough. Counters are uint64 and
-- wrap; the limits are ints, and the one place where their bound matters states it. Times are numbers
-- of nanoseconds with 0 for the zero time.
--
-- Not modelled. HTTP, JSON, hashing, logging and the random source are parameters or left out; so are
-- the sending of webhooks, the resolver of tabs and the watcher of the configuration file. The rest
-- of the repository, the bridge to Chrome, the rest of the orchestrator and the command line, is not
-- modelled. The launcher, FetchTabs, the resolver of hosts and the parser of addresses are arguments.
pub mod Prelude
pub mod Heap
pub mod Scheduler
pub mod Authn
pub mod Session
pub mod Browser
pub mod Strategy
pub mod Bridge
pub mod Instance
pub mod Selector
pub mod Netguard
pub mod Orchestrator
pub mod Engine
pub mod Handlers
