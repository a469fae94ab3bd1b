-- ===== src/Engine/Agent/Run.antt =====
-- engine/agent.go: Run, Resume and Continue, which set up the loop of Agent/Loop. The memory is what
-- the lease of the conversation, or the Agent's gate, gives; it is given back at the end.
use tracklogic_agent.Common.{◌-◌, Text, codes, [], Option, none, some, if◌then◌else◌, pos_part}
use tracklogic_agent.Types.{
  user, ToolCall, GoError, new_error, wrap_error, run_cancelled, invalid_input, run_interrupted,
  Result, ok, err,
}
use tracklogic_agent.Memory.{Memory}
use tracklogic_agent.Task.Protocol.{AgentCheckpoint}
use tracklogic_agent.Engine.Runtime.{Runtime, Codec}
use tracklogic_agent.Engine.Tools.{Toolbox}
use tracklogic_agent.Engine.Agent.{
  RunOutput, RunConfig, Agent, RunState, Flow, going, validate_run_config, plain_message,
  tool_message, save, remember,
}
use tracklogic_agent.Engine.Agent.Loop.{loop, next_round}

-- What a run begins with: an input, the answer to a pending tool call, or a safe checkpoint.
pub data Start : Type 0 where
  input : Text → Start
  resumed : AgentCheckpoint → ToolCall → Text → Start
  continued : AgentCheckpoint → Start

abbrev pub failure_output : GoError → RunOutput
failure_output e = record {
  content = [];
  tool_calls = [];
  messages = [];
  error = some e;
  total_tokens = 0;
  loop_count = 0;
}

module _ {W J : Type 0} (a : Agent) (rt : Runtime W) (codec : Codec) (box : Toolbox W J)
    (on_chunk : Text → W → W) where
  abbrev from_checkpoint : AgentCheckpoint → Memory → W → RunState W
  from_checkpoint c m w = record {
    memory = m;
    tool_calls = c.tool_calls;
    last_content = c.last_content;
    total_tokens = c.total_tokens;
    loop_count = c.loop_count;
    world = w;
  }

  unfoldable pub start_state : RunConfig → Start → Memory → W → RunState W
  start_state cfg (input text) m w = remember (plain_message user text (rt.now w)) (record {
    memory = m;
    tool_calls = [];
    last_content = [];
    total_tokens = 0;
    loop_count = 0;
    world = w;
  })
  start_state cfg (resumed c call text) m w =
      remember (tool_message call text (rt.now w)) (from_checkpoint c m w)
  start_state cfg (continued c) m w = from_checkpoint c m w

  -- The rounds that are left, and the run through them.
  abbrev pub run_rounds : RunConfig → RunState W → RunOutput × W × Memory
  run_rounds cfg s = loop a cfg rt codec box on_chunk (pos_part cfg.max_loops - s.loop_count) s

  abbrev pub first_save : RunConfig → RunState W → Flow W
  first_save cfg s =
      if a.task_mode
      then save a cfg rt (codes "initial memory checkpoint was not acknowledged") none s
      else going s

  abbrev pub validated : RunConfig → Start → Memory → W → Option GoError → RunOutput × W × Memory
  validated cfg start m w (some e) = (failure_output e, w, m)
  validated cfg start m w none =
      next_round a cfg rt codec box on_chunk (λ s. run_rounds cfg s)
        (first_save cfg (start_state cfg start m w))

  abbrev waiting_error : GoError → GoError
  waiting_error e =
      if a.task_mode
      then wrap_error run_cancelled (codes "cancelled while waiting for task conversation") e
      else wrap_error run_cancelled (codes "cancelled while waiting for agent") e

  abbrev pub give_back : RunOutput × W × Memory → RunOutput × W
  give_back (out, w, m) = (out, rt.release m w)

  abbrev pub leased : RunConfig → Start → Result Memory × W → RunOutput × W
  leased cfg start (err e, w) = (failure_output (waiting_error e), w)
  leased cfg start (ok m, w) = give_back (validated cfg start m w (validate_run_config cfg))

  -- Agent.run
  unfoldable pub run_from : RunConfig → Start → W → RunOutput × W
  unfolding start_state
  run_from cfg start w = leased cfg start (rt.acquire w)

  unfoldable pub run : RunConfig → Text → W → RunOutput × W
  unfolding run_from
  run cfg text w = run_from cfg (input text) w

  abbrev pub checkpoint_config : AgentCheckpoint → RunConfig → RunConfig
  checkpoint_config c cfg = record cfg {
    max_loops = c.max_loops;
    temperature = c.temperature;
    max_tokens = c.max_tokens;
  }

  abbrev resume_pending : RunConfig → AgentCheckpoint → Text → Option ToolCall → W → RunOutput × W
  resume_pending cfg c text none w = (
    failure_output (new_error invalid_input (codes "agent checkpoint has no pending tool call")),
    w,
  )
  resume_pending cfg c text (some call) w =
      run_from (checkpoint_config c cfg) (resumed c call text) w

  -- Agent.Resume
  unfoldable pub resume : RunConfig → AgentCheckpoint → Text → W → RunOutput × W
  unfolding run_from
  resume cfg c text w = resume_pending cfg c text c.pending_tool_call w

  abbrev continue_pending : RunConfig → AgentCheckpoint → Option ToolCall → W → RunOutput × W
  continue_pending cfg c (some call) w = (
    failure_output
        (new_error run_interrupted (codes "cannot continue a checkpoint with an unresolved tool")),
    w,
  )
  continue_pending cfg c none w = run_from (checkpoint_config c cfg) (continued c) w

  -- Agent.Continue
  unfoldable pub continue_run : RunConfig → AgentCheckpoint → W → RunOutput × W
  unfolding run_from
  continue_run cfg c w = continue_pending cfg c c.pending_tool_call w
