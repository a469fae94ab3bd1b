-- ===== src/Lib.antt =====
-- Verification of tracklogic-agent, a Go library that runs language-model Agents with tools, Tasks and
-- interactions. The Go code is modelled as functions on explicit states; a theorem is about these
-- functions.
--
-- The parts of the program, and the files that model them:
--   Types          types/message.go, types/errors.go: messages, tool calls, and error values as the
--                  chains of Unwrap that errors.Is and errors.As look through
--   Model          model/interface.go: requests, responses and the chunks of a stream
--   Memory         memory/: Memory.Buffer is BufferMemory, Memory.Summary is SummaryMemory, and Memory
--                  is the interface as the sum of the two
--   Interaction    interaction/types.go: Request.Validate is `validate`, Response.ValidateAgainst is
--                  `validate_against`
--   Task.Protocol  task/types.go: events, turns, results and checkpoints
--   Task.Config    task/types.go and task_runtime.go: the retry, circuit and summary settings and the
--                  three functions that normalize them
--   Exec           methods that change a state and may fail; Exec.Steps and Exec.Runs take them apart
--   Task.Runtime   task_runtime.go: the Task. Emit is Task.emit; Turns starts a turn, waits for it,
--                  cancels it and closes the Task; Finish is the end of runTurn; Checkpoints and Inputs
--                  are the runtime of a turn; Create is newTask; Restore is RestoreTask with
--                  installCheckpoint and continueRestoredAgent; Answers is AnswerInteraction with
--                  resumeRestoredInteraction; Calls has any sequence of these
--   Engine.Stream  engine/stream.go: consumeStream and mergeToolCall
--   Engine.Circuit engine/reliability.go: the circuit of a model instance and the ReliabilityManager
--   Engine.Retry   engine/reliability.go: which errors are tried again, and after how long
--   Engine.Policy  engine/reliability.go: invokeModelWithTaskPolicy, which uses the two above
--   Engine.Tools   engine/agent.go and engine/task_controls.go: executeToolCall, executeTaskControl
--   Engine.Agent   engine/agent.go: Agent.Run, Resume and Continue. Agent.Loop is the loop, Agent.Calls
--                  the loop over tool calls in it, Agent.Compaction is compactTaskMemory, and Agent.Run
--                  what is done before and after
--   ToolLayer      tool/: Validation is BaseTool of tool/interface.go, Registry is tool/registry.go
--   Security       security/permissions.go: the ListPermissionManager; security/validator.go: the validators
--   Workflow       workflow/workflow.go and workflow/task_runtime.go: the nodes of a Workflow. Scoped is
--                  the runtime that they see, Execute executes them, Validate is Validate and
--                  ValidateTaskMode, Run is Workflow.Run, Resume is Workflow.Resume
--   Team           workflow/team.go: Team.Validate; Run is Team.Run, Resume is Team.Resume
--   Tests          concrete runs
--
-- How they interact: an Agent keeps its conversation in a memory, sends it to a model under the retry
-- and circuit policies, drains the stream, runs the tool calls of the response, and reports to the
-- Task runtime by events and checkpoints.
--
-- The surroundings of a run are parameters. Engine.Runtime has them as functions on an arbitrary type W
-- of states of the world: the context, clock and random source, the model, the Task runtime, the lease
-- of a conversation. Engine.Tools has the tools, the permission check and JSON in a `Toolbox`. What the
-- theorems need of them is stated as hypotheses.
--
-- A Task is in an Environment: the caller's sink, the clock, new identifiers, the Harness and JSON as
-- functions on W. An operation of a Task is a function on the Task with its world that gives a result and
-- leaves both changed, on an error too. Operations take effect one after the other, in any order; the run
-- of a turn and a request for input are split where they wait, so that others come in between. A go
-- statement adds a job to the Task, whose result `finish_turn` takes. A deferred deletion of a pending
-- interaction is written at each return. What happens to a context is the flag of the Task, of the turn
-- and the answer of the sink; a call whose context is cancelled while it waits is not modelled further.
--
-- A Workflow runs on its State, its tracker and the world. The predicates, the Agents and the nodes of the
-- user's own are functions on these. Where validateTaskNode calls a method of a nil Node the check is
-- `panics`. The goroutines of a ParallelNode run one after the other, in the order of its children, and those of a parallel Team in the
-- order of its Agents: one of the orders in which they may run.
--
-- Conventions. A string is the list of its code points, taken to be valid UTF-8; strings.ToLower is
-- modelled on ASCII letters. A Go int is an integer without a bound, except in Retry-After and in the
-- jitter of a delay, where the wrap-around of int64 is written out; where rand.Int64N panics the delay is
-- `none` and ends the call as an error of the wait. A temperature counts millionths. A map is an association list.
-- A mutex makes an operation atomic, and concurrent use is a sequence of operations; AnswerInteraction
-- does not hold its mutex throughout, and two such calls at once are not modelled. A node of a Workflow is
-- there or it is nil: a typed nil pointer in a Node is not told from a nil Node. The callbacks of a
-- streamed call are run after the stream is drained, in their order. Logging, durations and run
-- identifiers in outputs are left out.
--
-- Loops: the loop of an Agent recurses on the rounds left, maxLoops less the rounds made, which is
-- enough since each round counts one; the retry loop on the attempts left, MaxAttempts; the doubling
-- of the delay on the failed attempts; the loop of a LoopNode on the iterations left, MaxIter less those
-- made. All other loops recurse on their lists, and the nodes of a Workflow on their tree.
--
-- Not modelled: the accessors of a Task, constructors that only copy their arguments, the built-in tools
-- (tool/builtin/), the sanitizer (security/sanitizer.go), the harness and configuration
-- (harness.go, config.go), the adapters of model vendors (model/), the MCP client (mcp/), the example
-- application (examples/, cmd/), which are I/O or larger parts that nothing here depends on.
pub mod Common
pub mod Types
pub mod Exec
pub mod Model
pub mod Memory
pub mod Interaction
pub mod Task
pub mod Workflow
pub mod Team
pub mod Engine
pub mod Security
pub mod ToolLayer
mod Tests
