-- ===== src/Lib.antt =====
-- Verification of the schedulator, a scheduler of GPU inference replicas over several Kubernetes
-- clusters, written in Go.
--
-- How the parts work together. Ingested events change the world state (internal/worldstate). A cycle of
-- the control loop (internal/controlloop) takes a snapshot of it; the scaling engine
-- (internal/engine/scaling) computes a target count of replicas for each application; the placement
-- engine (internal/engine/placement) turns the approved targets into scale-ups with a cluster and a GPU
-- reservation, and scale-downs, and asks the preemption engine (internal/engine/preemption) where no
-- cluster has room; the rebalancing engine proposes migrations; the plan generator (internal/plangen)
-- turns all decisions into operations with dependencies; the executor (internal/executor) dispatches
-- them to the clusters and closes the reservations.
--
-- Which file models which part.
--   Model, Model/Plans           pkg/model: the domain types, decisions, operations and results.
--   WorldState                   internal/worldstate/worldstate.go: the record WorldState and one function
--                                for each method, named as the method (UpsertReplica is upsert_replica).
--   WorldState/Calls             sequences of calls of the exported mutators, and what they keep.
--   WorldState/Snapshot          internal/worldstate/snapshot.go and internal/engine/engineutil.
--   WorldState/Calls/Closed      a reservation once it is closed.
--   WorldState/Reservations      what closing does to each reservation.
--   WorldState/Leaving           a replica that joins and leaves.
--   Scaling, Scaling/*           ComputeTargets, computeTargetReplicas, computeEffectiveTarget and
--                                applyStabilityControls.
--   Placement, Placement/*       ComputePlacement, findBestCluster, the scores, selectScaleDownVictims.
--   Preemption, Preemption/*     FindPreemptionOpportunity, selectVictims, sortCandidates.
--   PlanGen, PlanGen/*           GeneratePlan; PlanGen/Execution runs its plans in the executor.
--   Executor, Executor/*         Execute: its tables, the dispatch of ready operations, the answers, the
--                                cancellation, and abortTransitive.
--   Prelude, Prelude/*, Floats   what the parts share: integers, lists, maps, and float64 as a parameter.
--   Executor/Operations, /*      internal/executor/operations.go: dispatchOp, scaleUp, preempt, scaleDown and
--                                their waits, on a cluster client as a record (pkg/ports ClusterClient).
--   Rebalancing, Rebalancing/*   FindRebalancingOpportunities, findConsolidationTarget and the scores.
--   Ingestion, Ingestion/Keys    internal/ingestion/event.go and debounce.go: the variables of the loop, one
--                                function for each branch of its select, and the states it reaches.
--   Ingestion/Batches, Latest    what these states and their batches hold.
--   Ingestion/Listeners          internal/ingestion/ingester.go: the events that each listener sends.
--   Ingestion/Breaches           the ingester's SLA check next to the scaling engine's.
--   ControlLoop/Validation       internal/controlloop/validation.go: validatePlan and its three checks.
--   ControlLoop/Events           internal/controlloop/loop.go: applyEvents, applyClusterEvent and
--                                applyScalingDecisions.
--   ControlLoop/Cycle            runCycle.
--   ControlLoop/Turns            Run and runReservationExpiry as turns, with ticks among the calls of a cycle.
--   ControlLoop/Summary          buildCycleSummary and publishAndLog.
--   ControlLoop/Batching, Registry, Consistent, Kept, Cooldown, Plans, Logged
--                                how ingestion, the engines and the world state work together.
--   ConfigStore, ConfigStore/*   internal/configstore/yamlstore.go: convertApps, and what WatchMetrics sends at
--                                its start.
--   EventBus, EventBus/*         internal/apiserver/eventbus.go: Subscribe, its unsubscribe function, Publish, and
--                                the read of handleEventStream.
--   Samples, Witnesses, /*       data and runs.
--
-- How the code is read. A Go `int` is an unbounded integer (no count of the program comes near 2^63).
-- Identifiers are texts. A map is an association list; Go's order of iteration is unspecified, so the
-- theorems range over every list. A time is a number of nanoseconds since Go's zero time. float64 and
-- the functions of `math` are the parameter Float64, since the program only calls them; theorems that need
-- an order of floats say so with IsOrdered, which IEEE 754 gives for `<`. Random identifiers are a
-- function from the number of draws. Mutex-protected methods are single steps. The goroutines of the
-- executor answer in any order: each arrival is one step of an inductive relation.
--
-- The debouncer and the listeners are goroutines that share only channels: a turn of each is one step, and
-- theorems range over every sequence of steps. The executor reaches the world state only by fulfilling and
-- expiring reservations: an operation returns these as a list, and a cycle applies what its execution
-- returned. The sweep runs in a goroutine of its own: its ticks come between the turns of the loop
-- and among the calls of the world state that a cycle and an execution make. ControlLoop/Cycle has the
-- cycle without ticks.
--
-- Fuel: the search of abortTransitive takes the length of its queue and the number of edges that may still
-- join it; each turn of the search takes one entry off the queue. A wait for a replica takes the number of
-- times its poll timer can fire before its timeout, for a poll interval above 0: the timeout over the
-- interval, and one more.
--
-- Not modelled: metrics, traces and logs; the gateways to Kubernetes, files and HTTP, the event
-- log's database and the dashboard, which call libraries and other systems.
pub mod Prelude
pub mod Floats
pub mod Model
pub mod WorldState
pub mod Scaling
pub mod Preemption
pub mod Placement
pub mod PlanGen
pub mod Executor
pub mod Samples
pub mod Witnesses
pub mod ControlLoop
pub mod Rebalancing
pub mod Ingestion
pub mod ConfigStore
pub mod EventBus
