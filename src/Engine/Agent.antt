-- ===== src/Engine/Agent.antt =====
-- engine/agent.go and engine/types.go: the parts of one Agent run, around the loop of Agent/Loop.
pub mod Compaction
pub mod Calls
pub mod Loop
pub mod Run
pub mod Progress
pub mod Rounds
pub mod Messages
pub mod Answer
use tracklogic_agent.Common.{
  ℕ, ◌+◌, Bool, true, false, ◌&&◌, ◌||◌, not, Text, codes, text_eq, trim_space, to_lower, is_empty,
  List, [], ◌∷◌, ◌++◌, length, Option, none, some, is_some, if◌then◌else◌, ltb, leb, ℤ, pos, ltb_ℤ,
  leb_ℤ,
}
use tracklogic_agent.Types.{
  Role, system, user, assistant, tool, Message, ToolCall, GoError, new_error, wrap_error,
  invalid_config, run_cancelled, model_timeout, event_delivery, summary_failed, api_error, plain,
  is_harness, is_canceled, is_deadline, Result, ok, err,
}
use tracklogic_agent.Model.{InvokeRequest, InvokeResponse}
use tracklogic_agent.Memory
use tracklogic_agent.Memory.{Memory, buffer, summary, snapshot}
use tracklogic_agent.Memory.Summary
use tracklogic_agent.Task.Protocol.{
  AgentCheckpoint, Checkpoint, agent, running, event, empty_payload, best_effort, progress_updated,
}
use tracklogic_agent.Engine.Runtime.{Runtime, Codec}
use tracklogic_agent.Engine.Policy.{invoke_with_policy}

pub record RunOutput : Type 0 where
  pub content : Text
  pub tool_calls : List ToolCall
  pub messages : List Message
  pub error : Option GoError  -- `none` for Success
  pub total_tokens : ℕ
  pub loop_count : ℕ

pub record RunConfig : Type 0 where
  pub max_loops : ℤ
  pub streams : Bool  -- streamFunc is set
  pub temperature : ℤ  -- in millionths
  pub max_tokens : ℤ
  pub has_model : Bool

pub record Agent : Type 0 where
  pub name : Text
  pub run_id : Text
  pub system_prompt : Text
  pub tools : List Text  -- the names of the definitions of the tools in scope
  pub task_mode : Bool

-- The variables of the run.
pub record RunState (W : Type 0) : Type 0 where
  pub memory : Memory
  pub tool_calls : List ToolCall
  pub last_content : Text
  pub total_tokens : ℕ
  pub loop_count : ℕ
  pub world : W

-- A piece of the run returns from it, or goes on.
pub data Flow (W : Type 0) : Type 0 where
  returned : RunOutput → W → Memory → Flow W
  going : RunState W → Flow W

infixl 5 ◌>>=◌
abbrev pub ◌>>=◌ : {W : Type 0} → Flow W → (RunState W → Flow W) → Flow W
returned out w m >>= f = returned out w m
going s >>= f = f s

unfoldable pub remember : {W : Type 0} → Message → RunState W → RunState W
remember msg s = record s { memory = Memory.add msg s.memory }

unfoldable pub validate_run_config : RunConfig → Option GoError
validate_run_config c =
    if not c.has_model
    then some (new_error invalid_config (codes "agent model is required"))
    else if leb_ℤ c.max_loops (pos 0)
    then some (new_error invalid_config (codes "max loops must be greater than zero"))
    else if leb_ℤ c.max_tokens (pos 0)
    then some (new_error invalid_config (codes "max tokens must be greater than zero"))
    else if ltb_ℤ c.temperature (pos 0) || ltb_ℤ (pos 2000000) c.temperature
    then some (new_error invalid_config (codes "temperature must be between 0 and 2"))
    else none

unfoldable pub normalize_model_error : GoError → GoError
normalize_model_error e =
    if is_harness e
    then e
    else if is_canceled e
    then wrap_error run_cancelled (codes "model request cancelled") e
    else if is_deadline e
    then wrap_error model_timeout (codes "model request timed out") e
    else e

unfoldable pub response_needs_continuation : InvokeResponse → Bool
response_needs_continuation r =
    let reason = to_lower (trim_space r.finish_reason) in
    if ltb 0 (length r.tool_calls)
    then false
    else if text_eq reason (codes "max_tokens")
        || text_eq reason (codes "max_output_tokens")
        || text_eq reason (codes "length")
    then true
    else is_empty (trim_space r.content)
      && (not (is_empty (trim_space r.reasoning)) || ltb 0 (length r.reasoning_state))

abbrev pub continuation_instruction : Bool → Text
continuation_instruction true =
    codes
      "Continue exactly where the previous response stopped without repeating it, then complete the task with the final user-visible answer."
continuation_instruction false =
    codes
      "Continue from the preserved reasoning state and complete the task now with a final user-visible answer."

abbrev pub plain_message : Role → Text → ℕ → Message
plain_message role content now = record {
  role = role;
  content = content;
  reasoning = [];
  reasoning_state = [];
  tool_call_id = [];
  tool_calls = [];
  name = [];
  created_at = now;
}

abbrev pub assistant_message : InvokeResponse → List ToolCall → ℕ → Message
assistant_message r calls now = record {
  role = assistant;
  content = r.content;
  reasoning = r.reasoning;
  reasoning_state = r.reasoning_state;
  tool_call_id = [];
  tool_calls = calls;
  name = [];
  created_at = now;
}

abbrev pub tool_message : ToolCall → Text → ℕ → Message
tool_message call content now = record (plain_message tool content now) {
  tool_call_id = call.id;
  name = call.function.name;
}

abbrev pub is_system : Role → Bool
is_system system = true
is_system _ = false

unfoldable pub has_system : List Message → Bool
has_system [] = false
has_system (m ∷ ms) = is_system m.role || has_system ms

abbrev pub summary_of : Memory → Text
summary_of (buffer m) = []
summary_of (summary m) = m.summary

-- Agent.buildMessages
unfoldable pub build_messages : Text → ℕ → Memory → List Message
unfolding has_system
build_messages prompt now m =
    let msgs =
      if is_empty (summary_of m)
      then snapshot m
      else plain_message system (codes "Conversation summary:\n" ++ summary_of m) now
        ∷ snapshot m in
    if not (is_empty prompt) && not (has_system msgs)
    then plain_message system prompt now ∷ msgs
    else msgs

-- failedRun, and the same record written out in the loop.
unfoldable pub failed_run : {W : Type 0} → GoError → RunState W → Flow W
failed_run e s =
    returned
      (record {
        content = [];
        tool_calls = s.tool_calls;
        messages = snapshot s.memory;
        error = some e;
        total_tokens = s.total_tokens;
        loop_count = s.loop_count;
      })
      s.world s.memory

module _ {W : Type 0} (a : Agent) (cfg : RunConfig) where
  -- agentCheckpoint
  unfoldable pub agent_checkpoint : Option ToolCall → RunState W → Checkpoint
  agent_checkpoint pending s = record {
    version = 0;
    task_id = [];
    turn_id = [];
    kind = agent;
    target = a.name;
    status = running;
    last_sequence = 0;
    agent = some (record {
      agent_id = a.name;
      run_id = a.run_id;
      messages = snapshot s.memory;
      tool_calls = s.tool_calls;
      pending_tool_call = pending;
      last_content = s.last_content;
      total_tokens = s.total_tokens;
      loop_count = s.loop_count;
      max_loops = cfg.max_loops;
      temperature = cfg.temperature;
      max_tokens = cfg.max_tokens;
      summary = summary_of s.memory;
    });
    team = none;
    workflow = none;
    interaction = none;
  }

  module _ (rt : Runtime W) where
    unfoldable pub checkpoint_result : Text → RunState W → Option GoError × W → Flow W
    unfolding failed_run
    checkpoint_result message s (none, w) = going (record s { world = w })
    checkpoint_result message s (some e, w) =
        failed_run (wrap_error event_delivery message e) (record s { world = w })

    -- runtime.Checkpoint, which the run fails without.
    unfoldable pub save : Text → Option ToolCall → RunState W → Flow W
    unfolding checkpoint_result
    save message pending s =
        checkpoint_result message s (rt.checkpoint (agent_checkpoint pending s) s.world)

    -- A progress event with its phase, whose delivery is of no consequence.
    unfoldable pub progress : Text → Text → RunState W → RunState W
    progress phase tool_name s = record s {
      world =
          (rt.emit
            (record (event progress_updated best_effort
              (record empty_payload { phase = phase; tool_name = tool_name })) {
                run_id = a.run_id;
              })
            s.world).1;
    }
