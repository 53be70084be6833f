-- ===== src/Lib.antt =====
-- SayHi plans, guards and records the work on a repository's Tasks. This library models the core of its
-- packages/core/src: the workflow engine, the Dependency Graphs of an Initiative, the readiness of its
-- Tasks, and the barrier that its scheduler puts around reads and writes.
--
-- The parts and where they stand.
-- packages/core/src/workflow.ts is `Workflow`. A Task is a history of events with a projection
-- (`Workflow.Events`). `Workflow.Routes` is routeDefinitions and findTransition, `Workflow.Gates` is
-- validateGates and validateRouteGate, `Workflow.History` is what the guards read out of the history, and
-- `Workflow.Guards` the guards. The operations are `Workflow.Start` (startWorkflowTask),
-- `Workflow.Transition` (transitionWorkflow), `Workflow.Escalation` (escalateQuickToBuild),
-- `Workflow.Adoption` (adoptWorkflowBaseline) and, below `Workflow.Changes`, those that record a change
-- and leave the position of the Task: `Plan` (recordContextManifestChange and recordBuildPlanChange),
-- `Graph` (reviseInitiativeGraph and reviseInitiativeGraphWithRepairs), `Dispatch` and `Outcomes`
-- (recordPhaseExecutionDispatch and recordPhaseExecutionResult) and `Tracker`
-- (recordTrackerSynchronization). `Workflow.Execution` and `Workflow.Payloads` are the tests of a binding,
-- of an Agent result (packages/core/src/execution.ts and record-contracts.ts) and of an event record.
-- `Workflow.Replay` is replayWorkflowEvents and stateMatchesAcceptedHistory; its children `Envelope` and
-- `Failures` are its tests of an event by type, and the others hold the theorems. An operation calls
-- stateMatchesAcceptedHistory: it takes the answer as an argument, which the theorems below
-- `Workflow.Replay` fill in. A transition of an Initiative calls validateDependencyGraph. The types that
-- the engine shares with the graphs are `Records`.
-- packages/core/src/dependency-graph.ts is `DependencyGraph`: `Cycle` is findCycleTaskId and `Validate`
-- is validateDependencyGraph, with its node, edge and repair tests.
-- packages/core/src/initiative-scheduler.ts: `Barrier` is the class InitiativeReadWriteBarrier. Its
-- calls are small machines that the event loop moves one at a time, in any order.
-- packages/core/src/initiative-readiness.ts is `Readiness`: readinessForTask there, and
-- deriveInitiativeReadiness in `Readiness.Derive`.
-- packages/core/src/validation.ts, identity.ts and repository-path.ts are `Validation` and
-- `RepositoryPath`: the tests of identifiers, timestamps, content identities and paths.
-- `Prelude` holds what they share.
--
-- Conventions. A text union is a data type, `null` and `undefined` are `none`, and a diagnostic is its
-- code and its path, less the texts for the reader. Values are typed, so that the tests of the shape of
-- JSON values, which typed values pass, are left out, as are copies and freezing. Two values have the
-- same canonical JSON when they are equal; the contexts of a Task definition are a list, so that two
-- definitions with the same contexts in another order count as different here. The SHA-256 identities
-- and the parts of a URL, which Node computes, are the functions of the record `Host`, of which nothing
-- is assumed.
--
-- Bounds and fuel. Numbers are not bounded, except where the code asks for a safe integer. The `while`
-- loop of findCycleTaskId runs on fuel, the number of nodes and edges; `Cycle.Fuel` shows that it is
-- enough. The recursion of deriveNode runs on fuel too, the depth; `Readiness.Fuel` is about
-- how much is enough. Every other loop is a structural recursion.
--
-- Not modelled: readRouteDefinition and readGateEvidenceKinds, which only read tables out; the scheduler's
-- runs; the rest of packages/core/src; packages/cli, packages/omp-plugin, packages/testing and scripts,
-- which are I/O, glue and tests.
pub mod Prelude
pub mod Records
pub mod Validation
pub mod RepositoryPath
pub mod DependencyGraph
pub mod Workflow
pub mod Barrier
pub mod Readiness
