-- ===== src/Lib.antt =====
-- brokr: a state machine and workflow engine. A definition (model/) is a set of states, some of them
-- composite, with transitions between them; an instance is a database row with its own copy of a
-- definition, a position in it, a context of strings, and a journey. The engine (engine/) handles an
-- event in a transaction: it finds a transition (engine/transitions.go), counts the children before a
-- join, runs the actions (model/executions.go), follows the completions that need no event, and saves
-- the row; after the commit it arms the timers of the new state, publishes the transition, and
-- attempts the join of the parent. Events reach the engine through the dispatcher, which has one actor
-- for each instance that is in use; requests reach the dispatcher through web/, and the host process
-- starts and stops all of it (brokr.go).
--
-- Which file models what:
-- - Model/Kinds, Model/Workflow: the enumerations and structs of model/statemachine.go,
--   model/simple_state.go, model/action_state.go, model/composite_state.go. A definition holds actions
--   that hold definitions, so the structs are one block of data types, and the plain fields of each
--   stand in a record.
-- - Model/State, Model/Composite, Model/Transition: their methods.
-- - Model/Decode, Model/Json: UnmarshalJSON of the enumerations, of CompositeState and of Workflow, and
--   DecodeState.
-- - Model/Defaults: model/defaults.go, with the clock as a parameter.
-- - Model/Guard: Guard.Evaluate of model/guard.go. Floats are a parameter.
-- - Model/AsyncPool: model/asyncpool.go, as steps of its goroutines in any order.
-- - Engine/Instance: WorkflowInstance of persistence/others.go, StateContainer, JourneyEntry,
--   isEndState.
-- - Persistence: Value and Scan of persistence/state_container.go. Cell is a StateContainer whose state
--   may be nil; the engine works on one that has a state.
-- - Engine/Match: the searches of engine/transitions.go, possibleEventsFor of engine/workflow_ops.go and
--   findPendingJoinTransition of engine/autojoin.go.
-- - Engine/Effects: errors (errors/errors.go), the shared state of the process, and the code that has
--   effects: a function from the process to a result and the process after it. An error keeps what was
--   done before it.
-- - Engine/Activities: engine/timers.go and engine/doactivity.go, as far as the rest of the engine
--   sees them; Engine/Activities/Goroutines: what the goroutines of timers do, in any order.
--   Engine/Position: resolveTarget and resolveInitialPosition. Engine/Children: engine/children.go.
--   Engine/Actions: ExecuteActions of model/statemachine.go and the actions of model/executions.go.
--   Engine/Transition: applyTransition. Engine/Chain: runAutomaticChain. Engine/Event: processEvent
--   and NewWorkflowInstance of engine/workflow_ops.go, publishTransition of engine/eventbus.go.
--   Engine/AutoJoin: engine/autojoin.go. Engine/Reads: the other operations of
--   engine/workflow_ops.go and engine/children.go.
-- - Engine/Dispatcher: engine/dispatcher.go: actors, their mailboxes and the counter of Drain, for any
--   processFn; Engine/Dispatcher/Eviction puts the engine in its place.
-- - Engine/Storage: the database as an interface, Storage, which says of the calls of Host that no row
--   comes into it but the one that is written; Engine/Event/Stored, Engine/Reads/Stored,
--   Engine/AutoJoin/Stored, Engine/Dispatcher/Stored and Web/Stored use it, and Web/System puts them
--   together: requests, the dispatcher and the attempts of auto-joins in any order.
-- - View: BuildGraph of dto/graph.go, and the payload of engine/visualizer.go.
-- - Seed: seed.go. Lifecycle: New, Migrate, Boot and Shutdown of brokr.go.
-- - Web: web/controller.go and RegisterRoutes of brokr.go.
-- - Tests: concrete hosts, runs, and the theorems at concrete inputs.
--
-- Parameters. The clock, the generator of uuids, the order in which Go ranges over a map, the
-- network, the database behind gorm, time.ParseDuration, uuid.Parse, and float64 are fields of the
-- records Host and Floats; the world on which they act is any type. encoding/json is a Codec:
-- json.Unmarshal into the structs that the code passes to it, and json.Marshal; Faithful says of it
-- that what is written is read back, where no map has two keys and no definition stands within an
-- action, and Nested that a raw message is shorter than the document around it. strings.ToUpper,
-- strconv.Atoi, the files of a directory, the migration by gorm, and the two ways into the dispatcher
-- that web/ uses are parameters too. draupnir has done its part: a request holds what it reads.
--
-- Conventions. A panic (States[0] of a definition without states) is the value index_out_of_range of
-- Error, which is no error: nothing wraps it and no response is made of it. In a goroutine of an
-- actor or of a batch it ends the program, so that what a run of processEvent leaves behind after one
-- is of no account: the deferred function, which the panic also runs, is left out there. The work
-- that goes on while Shutdown drains is any change of the process. Version is a 64-bit pattern. A
-- string enumeration is a data type with its constants and the empty string, and one constructor for
-- other texts where the decoder lets them in. Errors are constructors that carry the values that are
-- reported; their texts and the log are left out, as are CreatedAt and UpdatedAt. A batch of children
-- is created in the order of its list; the code creates them concurrently, and so does not fix that
-- order. A nil map reads as an empty one. Each critical section and each operation on a channel of
-- the dispatcher, of the pool and of the timers is one step; what a step needs (a place in the
-- mailbox, an idle worker) is its premise, and the histories that the actors and the pool record are
-- read by no step. An iteration of an actor's loop is five steps: a command is received, processFn
-- has run, the reply is sent, pending is decremented, and inflight is; the last may come when the
-- actor has gone on. The run of processFn itself is one step, at its end: the calls that two runs
-- make of the database are not interleaved. Whether an actor has been idle for long enough is not
-- looked at: it may be evicted whenever it is idle.
--
-- Fuel. runAutomaticChain has its own limit of a hundred passes. DecodeState is bounded by the size of
-- its input and one more, which is never reached where raw messages are shorter than their document.
-- The runs that drain the dispatcher and the pool are bounded by the work that is left. Every other
-- loop runs over a list.
--
-- Not modelled: the actions that a do-activity runs (it is recorded as pending, as are the timers; that
-- a timer dispatches its event is a step of Engine/Activities/Goroutines alone), the broker behind the
-- event bus (events are recorded as published) and the mailbox that an auto-join's command waits in (it
-- is recorded as dispatched); draupnir; the flags and messages of cmd/seed-workflows; the HTML of
-- web/static.go; the fields of engine.Config for the event bus; the log.
pub mod Common
pub mod Lifecycle
pub mod Model
pub mod Engine
pub mod View
pub mod Tests
pub mod Seed
pub mod Persistence
pub mod Web
