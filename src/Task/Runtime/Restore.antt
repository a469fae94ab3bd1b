-- ===== src/Task/Runtime/Restore.antt =====
-- task_runtime.go: restoring a Task from a checkpoint.
pub mod Safety
use tracklogic_agent.Common.{
  ℕ, Bool, true, false, ◌&&◌, ◌||◌, not, Text, codes, text_eq, trim_space, is_empty, List, [], ◌∷◌,
  ◌++◌, ltb, ◌==◌, Option, none, some, is_some, if◌then◌else◌, lookup, insert, pos, ℤ,
}
use tracklogic_agent.Types.{
  GoError, new_error, wrap_error, plain, invalid_config, invalid_input, run_cancelled,
  event_delivery, interaction_not_found, turn_not_found, run_interrupted, Result, ok, err, ToolCall,
}
use tracklogic_agent.Exec.{
  Exec, pure, raise, gets, lift, recover, update, guard, require, ◌>>=◌, ◌>>◌,
}
use tracklogic_agent.Memory.Summary
use tracklogic_agent.Memory.Summary.{SummaryMemory, new_summary}
use tracklogic_agent.Interaction.{Request, Response, validate, validate_against}
use tracklogic_agent.Task.Config.{
  RetryConfig, CircuitConfig, SummaryConfig, RetryOptions, CircuitOptions, SummaryOptions,
  normalize_retry, normalize_circuit, normalize_summary,
}
use tracklogic_agent.Task.Protocol.{
  TurnKind, agent, team, workflow, TurnStatus, running, completed, interrupted, Turn, TurnResult,
  AgentCheckpoint, TeamCheckpoint, WorkflowCheckpoint, Checkpoint, checkpoint_version, task_started,
  interaction_responded, turn_status_changed, empty_payload, event, required_ack,
}
use tracklogic_agent.Task.Runtime.{
  TaskState, TurnState, TurnRuntime, Conversation, PendingInteraction, Machine, Environment, Job,
  continue_agent, resume_agent, resume_team, resume_workflow, with_task, put_turn, put_pending,
  remove_pending, put_conversation, put_answer, spawn,
}
use tracklogic_agent.Task.Runtime.Emit.{emit}
use tracklogic_agent.Task.Runtime.Turns.{delivery_failure, close}
use tracklogic_agent.Task.Runtime.Inputs.{as_error, status_event}
use tracklogic_agent.Task.Runtime.Checkpoints.{runtime_emit}
use tracklogic_agent.Task.Runtime.Create.{
  TaskOptions, default_options, malformed_id, id_required, new_task,
}

abbrev pub first_agent : Option AgentCheckpoint → Option AgentCheckpoint → Option AgentCheckpoint
first_agent none later = later
first_agent (some a) later = some a

abbrev pub agent_in_team : Option TeamCheckpoint → Option AgentCheckpoint
agent_in_team none = none
agent_in_team (some t) = t.agent

abbrev pub agent_in_workflow : Option WorkflowCheckpoint → Option AgentCheckpoint
agent_in_workflow none = none
agent_in_workflow (some w) = w.agent

-- The Agent that a checkpoint is about.
unfoldable pub suspended_agent : Checkpoint → Option AgentCheckpoint
suspended_agent c =
    first_agent c.agent (first_agent (agent_in_team c.team) (agent_in_workflow c.workflow))

-- What becomes of the turn of a checkpoint without an interaction.
pub data Restored : Type 0 where
  finished : Text → Restored
  continues : Restored
  stopped : Text → Restored

abbrev pub is_agent_turn : TurnKind → Bool
is_agent_turn agent = true
is_agent_turn _ = false

abbrev safe : AgentCheckpoint → Restored
safe a = if is_empty a.last_content then continues else finished a.last_content

abbrev unsafe : Restored
unsafe = stopped (codes "checkpoint is not a safe automatic continuation point")

abbrev restored_agent : TurnKind → AgentCheckpoint → Option ToolCall → Restored
restored_agent kind a (some call) =
    stopped (codes "external tool result is unknown and will not be replayed")
restored_agent agent a none = safe a
restored_agent _ a none = unsafe

abbrev restored_as : TurnKind → Option AgentCheckpoint → Restored
restored_as kind none = unsafe
restored_as kind (some a) = restored_agent kind a a.pending_tool_call

unfoldable pub classify : Checkpoint → Restored
unfolding suspended_agent
classify c = restored_as c.kind (suspended_agent c)

abbrev outcome : Checkpoint → TurnState → TurnStatus → Bool → Text → Option GoError → TurnState
outcome c t status success output error = record t {
  turn = record t.turn { status = status };
  result = some (record {
    turn_id = c.turn_id;
    kind = c.kind;
    output = output;
    success = success;
    error = error;
  });
  done = true;
}

unfoldable pub settle_restored : Checkpoint → Restored → TurnState → TurnState
settle_restored c (finished output) t = outcome c t completed true output none
settle_restored c continues t = t
settle_restored c (stopped message) t =
    outcome c t interrupted false [] (some (new_error run_interrupted message))

abbrev pub restored_turn : Text → Checkpoint → TurnState
restored_turn task_id c = record {
  turn = record {
    id = c.turn_id;
    task_id = task_id;
    kind = c.kind;
    target = c.target;
    status = c.status;
    started_at = 0;
    completed_at = 0;
  };
  result = none;
  done = false;
  cancelled = false;
  runtime = record {
    turn_id = c.turn_id;
    kind = c.kind;
    target = c.target;
    progress_count = 0;
    checkpoint = some c;
  };
}

abbrev pub restore_conversation : Option AgentCheckpoint → TaskState → TaskState
restore_conversation none t = t
restore_conversation (some a) t =
    put_conversation a.agent_id
      (record {
        held = false;
        memory = Summary.restore a.summary a.messages (new_summary (pos t.summary.keep_recent));
      })
      t

-- A turn that runs again, with a context of its own.
abbrev pub running_again : TurnState → TurnState
running_again t = record t { turn = record t.turn { status = running }; cancelled = false }

abbrev pub continue_turn :
    Checkpoint → AgentCheckpoint → Bool → Option TurnState → TaskState → TaskState
continue_turn c a known none t = t
continue_turn c a known (some turn) t =
    if not (is_some turn.result) && known
    then spawn c.turn_id (continue_agent c.target a) (put_turn c.turn_id (running_again turn) t)
    else t

abbrev pub continue_agent_turn :
    TurnKind → Option AgentCheckpoint → Option Request → Checkpoint → Bool → TaskState → TaskState
continue_agent_turn agent (some a) none c known t =
    if is_some a.pending_tool_call then t else continue_turn c a known (lookup c.turn_id t.turns) t
continue_agent_turn _ _ _ c known t = t

-- continueRestoredAgent, `known` being whether the Harness has the Agent.
unfoldable pub continue_restored_agent : Bool → Checkpoint → TaskState → TaskState
continue_restored_agent known c t = continue_agent_turn c.kind c.agent c.interaction c known t

module _ {W : Type 0} where
  abbrev pub install_interaction : Checkpoint → TurnState → Option Request → Exec (Machine W) Unit
  install_interaction c t none =
      update (with_task (put_turn c.turn_id (settle_restored c (classify c) t)))
  install_interaction c t (some request) = do
    require (as_error (validate request))
        (λ e. wrap_error invalid_config (codes "checkpoint interaction is invalid") e)
    update (
        with_task
          (put_pending (record { request = request; turn_id = c.turn_id; restored = true })))

  -- installCheckpoint
  unfoldable pub install_checkpoint : Checkpoint → Exec (Machine W) Unit
  unfolding classify settle_restored
  install_checkpoint c = do
    guard (is_empty c.turn_id || is_empty c.target)
        (new_error invalid_config (codes "checkpoint turn id and target are required"))
    id ← gets (λ s. s.task.id)
    update (with_task (put_turn c.turn_id (restored_turn id c)))
    update (with_task (restore_conversation (suspended_agent c)))
    install_interaction c (restored_turn id c) c.interaction

module _ {W : Type 0} (env : Environment W) where
  abbrev pub installed : Checkpoint → Result (Unit {0}) × Machine W → Result TaskState × W
  installed c (err e, s) = (err e, s.world)
  installed c (ok tt, s) = (ok (continue_restored_agent (env.has_agent c.target) c s.task), s.world)

  abbrev pub restored_from : Checkpoint → Result TaskState × W → Result TaskState × W
  restored_from c (err e, w) = (err e, w)
  restored_from c (ok t, w) = installed c (install_checkpoint c (record { task = t; world = w }))

  abbrev pub later : ℕ → ℕ → ℕ
  later a b = if ltb a b then b else a

  -- RestoreTask
  unfoldable pub restore_task : Text → Checkpoint → ℕ → W → Result TaskState × W
  unfolding install_checkpoint continue_restored_agent new_task
  restore_task id c last_sequence w =
      if malformed_id id
      then (err id_required, w)
      else if not (c.version == checkpoint_version)
      then (err (new_error invalid_config (codes "unsupported checkpoint version")), w)
      else if not (text_eq c.task_id id)
      then (
        err (new_error invalid_config (codes "checkpoint task id does not match restore input")),
        w,
      )
      else restored_from c
          (new_task env (default_options id) (later last_sequence c.last_sequence) false w)
