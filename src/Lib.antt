-- ===== src/Lib.antt =====
-- Sovereign Core: a control plane for branches of databases, and the governance of its changes.
--
-- The control plane (src/controlplane) keeps orgs, projects, branches and endpoints in a store,
-- boots instances ahead in a warm pool, and routes client connections to backends, which it wakes on
-- demand. The governance package (src/governance/change_pipeline) takes change requests through
-- seven gates, with a solver as its planner.
--
--   Prelude       shared helpers: texts, dictionaries, integers, lists, results, and float64 as an
--                 interface. Prelude.FixedPoint is an instance for the examples.
--   Model         src/controlplane/model.go: the records, the states and canTransition.
--   Store         src/controlplane/store.go: one function for each method of Store. A method that
--                 writes returns the new store. Call and step are the writing methods as steps, run
--                 is any sequence of them.
--   Ports         src/controlplane/ports.go: the interfaces to what is not in the repository. Each
--                 is a record of functions over a world W, and a parameter wherever it is used.
--   WarmPool      src/controlplane/warmpool.go: WarmPool and its policies.
--   Routing       src/controlplane/routing.go: Routing.Registry is RoutingRegistry with its pointers
--                 to backends, Routing.Identify is resolveEndpointID and parseKV.
--   Tasks         goroutines as tasks that take their steps in any order: what is proved of all
--                 interleavings (Interleaving, Keeping), of enough turns (Turns) and of two with
--                 answers (Pair).
--   Base64        encoding/base64, URLEncoding, as mocks.go uses it: EncodeToString and DecodeString.
--   Ids           newID of src/controlplane/mocks.go. Ids.Unique says what makes two ids equal,
--                 and Ids.Routes that the id of an endpoint is routable.
--   Mocks         the mock adapters of mocks.go as instances of the ports; Mocks.Auth is MockAuth, over
--                 a parameter for the JSON of its claims.
--   App           src/controlplane/app.go: App puts store, pool and registry together; App.Goroutines
--                 has the three calls that start a goroutine, with its body as a task, and
--                 App.Waiting is waitOp, which polls while goroutines take turns.
--   Handlers      src/controlplane/handlers.go: startOp, auth, the handlers and the table of routes.
--                 HTTP and JSON stand at the border: a request comes with its body decoded.
--                 Handlers.Race is about two requests at the same time.
--   Walkthrough   src/controlplane/main.go: the walkthrough, which may panic or exit, less what it
--                 prints. Walkthrough.Wiring is NewApp on the mocks.
--   EngineBoundary  src/governance/engine_boundary_sim/main.go; EngineBoundary.Demo is its main.
--   DevEngine     src/training/dev_engine_flow/main.go, where what it prints is what it answers, and
--                 strings.ToLower is a parameter; DevEngine.Session is the loop of main.
--   Pipeline      src/governance/change_pipeline: Pipeline.handle is Handle, gate by gate, over any
--                 adapters; Pipeline.Solver is solver.go; Pipeline.Mocks are the mock adapters,
--                 and Pipeline.Demo is main.
--
-- A string is a list of bytes, so a literal stands for its UTF-8. A Go map is a Dict, an association
-- list in which insert replaces the entry of a key and remove drops it; no code modelled here ranges
-- over a map. An error is its text, and `none` is nil. An int is an unbounded integer, since the code
-- counts far below 2⁶³; in EngineBoundary, whose amounts are the caller's, its sums wrap around. A
-- time.Time is a number of nanoseconds, from a Clock that is a parameter. A float64 is a type F with
-- the operations of Prelude.Floats; no law of it is assumed but where a theorem says so. The formatting
-- of floats and quoted strings, and of the solver's counts, is a parameter.
--
-- A mutex makes each method of Store and WarmPool, and each locked part of Resolve, one step. What
-- may come between the two locks of Resolve is a sequence of calls (Routing.Registry.Race). A goroutine
-- takes one step for each lock or call of a port, and a list of turns says whose step is next.
--
-- Fuel: replenishLocked loops while fewer than `target` instances are ready. Each round adds one or
-- ends the loop, so the target is fuel enough, and a theorem on replenish says that the loop ends
-- by itself. waitOp takes a round for each millisecond of the timeout at most, and two more for the
-- first and the last; a theorem says so. A risk outside its constants is printed with 19 digits at
-- most, which an int does not exceed.
--
-- Not modelled: the data race on a backend that Resolve reads without the lock, cancellation of
-- contexts, AuditLog.Dump, the choice of main, the listening of serve, and what the demonstrations
-- print.
mod Prelude
pub mod Model
pub mod Store
pub mod Ports
pub mod WarmPool
pub mod Routing
pub mod Pipeline
pub mod Tasks
pub mod Base64
pub mod Ids
pub mod Mocks
pub mod App
pub mod Handlers
pub mod Walkthrough
pub mod EngineBoundary
pub mod DevEngine
