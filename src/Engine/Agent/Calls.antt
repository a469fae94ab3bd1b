-- ===== src/Engine/Agent/Calls.antt =====
-- engine/agent.go: the loop over the tool calls of a response, in Agent.run.
use tracklogic_agent.Common.{Text, codes, List, [], ◌∷◌, ◌++◌, Option, none, some, if◌then◌else◌}
use tracklogic_agent.Types.{ToolCall, GoError, wrap_error, event_delivery, plain, Result, ok, err}
use tracklogic_agent.Model.{InvokeResponse}
use tracklogic_agent.Task.Protocol.{
  event, empty_payload, required_ack, tool_started, tool_completed, EventPayload, EventType,
}
use tracklogic_agent.Engine.Runtime.{Runtime, Codec}
use tracklogic_agent.Engine.Tools.{Toolbox, execute_tool_call, execute_task_control}
use tracklogic_agent.Engine.Agent.{
  RunConfig, Agent, RunState, Flow, remember, going, ◌>>=◌, assistant_message, tool_message,
  agent_checkpoint, failed_run, save, progress,
}

module _ {W J : Type 0} (a : Agent) (cfg : RunConfig) (rt : Runtime W) (codec : Codec)
    (box : Toolbox W J) where
  -- A task's tool call that is of a control tool.
  abbrev pub controlled : ToolCall → RunState W → Result Text × W → Flow W
  controlled call s (err e, w) = failed_run e (
      remember (tool_message call (codes "error: " ++ codec.error_text e) (rt.now w))
        (record s { world = w }))
  controlled call s (ok text, w) =
      save a cfg rt (codes "control checkpoint was not acknowledged") none
        (remember (tool_message call text (rt.now w)) (record s { world = w }))

  abbrev pub acknowledged : Text → RunState W → Option GoError × W → Flow W
  acknowledged message s (none, w) = going (record s { world = w })
  acknowledged message s (some e, w) =
      failed_run (wrap_error event_delivery message e) (record s { world = w })

  -- runtime.Emit of an event that the run fails without.
  unfoldable pub announce : Text → EventType → EventPayload → RunState W → Flow W
  announce message kind payload s =
      acknowledged message s
        (rt.emit (record (event kind required_ack payload) { run_id = a.run_id }) s.world)

  abbrev completed_payload : ToolCall → Result Text → EventPayload
  completed_payload call (err e) = record empty_payload {
    tool_name = call.function.name;
    tool_call_id = call.id;
    error = some e;
  }
  completed_payload call (ok text) = elim (codec.encode_text text) [
    | ok encoded ↦ record empty_payload {
      tool_name = call.function.name;
      tool_call_id = call.id;
      tool_result = encoded;
    }
    | err e ↦ record empty_payload {
      tool_name = call.function.name;
      tool_call_id = call.id;
      error = some (plain (codes "encode tool result: " ++ codec.error_text e));
    }
  ]

  abbrev pub result_text : Result Text → Text
  result_text (ok text) = text
  result_text (err e) = codes "error: " ++ codec.error_text e

  -- What follows executeToolCall: the tool's message, and in a task its event and checkpoint.
  abbrev pub after_tool : ToolCall → RunState W → Result Text × W → Flow W
  after_tool call s (result, w) =
      let s' =
        remember (tool_message call (result_text result) (rt.now w)) (record s { world = w }) in
      if a.task_mode
      then (announce (codes "tool completion was not acknowledged") tool_completed
            (completed_payload call result) s'
          >>= λ s''.
              save a cfg rt (codes "completed tool checkpoint was not acknowledged") none s'')
      else going s'

  unfoldable pub run_plain_tool : ToolCall → RunState W → Flow W
  run_plain_tool call s = after_tool call s (execute_tool_call codec box call s.world)

  abbrev pub task_tool : ToolCall → RunState W → Option (Result Text × W) → Flow W
  task_tool call s (some out) = controlled call s out
  task_tool call s none =
      save a cfg rt (codes "tool checkpoint was not acknowledged") (some call) s >>= λ s1.
      announce (codes "tool start was not acknowledged") tool_started
        (record empty_payload { tool_name = call.function.name; tool_call_id = call.id }) s1
      >>= λ s2.
          run_plain_tool call (progress a cfg rt (codes "executing_tool") call.function.name s2)

  -- The body of the loop over the response's tool calls.
  unfoldable pub run_tool : ToolCall → RunState W → Flow W
  unfolding run_plain_tool announce
  run_tool call s =
      if a.task_mode
      then task_tool call s
          (execute_task_control codec rt call (agent_checkpoint a cfg (some call) s) s.world)
      else run_plain_tool call s

  unfoldable pub run_tools : List ToolCall → RunState W → Flow W
  unfolding run_tool
  run_tools [] s = going s
  run_tools (call ∷ calls) s = run_tool call s >>= λ s'. run_tools calls s'

  -- A response with tool calls: the assistant's message, then a message for each call.
  unfoldable pub use_tools : InvokeResponse → RunState W → Flow W
  unfolding run_tools
  use_tools r s = run_tools r.tool_calls (
      remember (assistant_message r r.tool_calls (rt.now s.world))
        (record s { tool_calls = s.tool_calls ++ r.tool_calls }))
