-- ===== src/Task/Runtime/Create.antt =====
-- task_runtime.go: making a Task.
pub mod Fresh
use tracklogic_agent.Common.{
  ℕ, Bool, true, false, ◌&&◌, ◌||◌, not, Text, codes, text_eq, trim_space, is_empty, List, [], ◌∷◌,
  ◌++◌, ltb, ◌==◌, Option, none, some, is_some, if◌then◌else◌, lookup, insert, pos, ℤ,
}
use tracklogic_agent.Types.{
  GoError, new_error, wrap_error, plain, invalid_config, invalid_input, run_cancelled,
  event_delivery, interaction_not_found, turn_not_found, run_interrupted, Result, ok, err, ToolCall,
}
use tracklogic_agent.Exec.{
  Exec, pure, raise, gets, lift, recover, update, guard, require, ◌>>=◌, ◌>>◌,
}
use tracklogic_agent.Memory.Summary
use tracklogic_agent.Memory.Summary.{SummaryMemory, new_summary}
use tracklogic_agent.Interaction.{Request, Response, validate, validate_against}
use tracklogic_agent.Task.Config.{
  RetryConfig, CircuitConfig, SummaryConfig, RetryOptions, CircuitOptions, SummaryOptions,
  normalize_retry, normalize_circuit, normalize_summary,
}
use tracklogic_agent.Task.Protocol.{
  TurnKind, agent, team, workflow, TurnStatus, running, completed, interrupted, Turn, TurnResult,
  AgentCheckpoint, TeamCheckpoint, WorkflowCheckpoint, Checkpoint, checkpoint_version, task_started,
  interaction_responded, turn_status_changed, empty_payload, event, required_ack,
}
use tracklogic_agent.Task.Runtime.{
  TaskState, TurnState, TurnRuntime, Conversation, PendingInteraction, Machine, Environment, Job,
  continue_agent, resume_agent, resume_team, resume_workflow, with_task, put_turn, put_pending,
  remove_pending, put_conversation, put_answer, spawn,
}
use tracklogic_agent.Task.Runtime.Emit.{emit}
use tracklogic_agent.Task.Runtime.Turns.{delivery_failure, close}
use tracklogic_agent.Task.Runtime.Inputs.{as_error, status_event}
use tracklogic_agent.Task.Runtime.Checkpoints.{runtime_emit}

pub record TaskOptions : Type 0 where  -- Options
  pub task_id : Text
  pub retry : RetryOptions
  pub circuit : CircuitOptions
  pub summary : SummaryOptions

abbrev pub default_options : Text → TaskOptions
default_options id = record {
  task_id = id;
  retry = record {
    max_attempts = pos 0;
    base_delay = pos 0;
    max_delay = pos 0;
    max_retry_after = pos 0;
  };
  circuit = record { failure_threshold = pos 0; open_duration = pos 0; half_open_max = pos 0 };
  summary = record { max_messages = pos 0; keep_recent = pos 0; hard_limit = pos 0 };
}

abbrev pub malformed_id : Text → Bool
malformed_id id = is_empty (trim_space id) || not (text_eq id (trim_space id))

abbrev pub id_required : GoError
id_required =
    new_error invalid_config
      (codes "task id is required and must not contain surrounding whitespace")

abbrev pub summary_checked :
    TaskOptions → ℕ → RetryConfig → CircuitConfig → Result SummaryConfig → Result TaskState
summary_checked o sequence retry circuit (err e) = err e
summary_checked o sequence retry circuit (ok summary) = ok (record {
  id = o.task_id;
  retry = retry;
  circuit = circuit;
  summary = summary;
  sequence = sequence;
  closed = false;
  turns = [];
  conversations = [];
  pending = [];
  answers = [];
  jobs = [];
})

abbrev pub circuit_checked : TaskOptions → ℕ → RetryConfig → Result CircuitConfig → Result TaskState
circuit_checked o sequence retry (err e) = err e
circuit_checked o sequence retry (ok circuit) =
    summary_checked o sequence retry circuit (normalize_summary o.summary)

abbrev pub retry_checked : TaskOptions → ℕ → Result RetryConfig → Result TaskState
retry_checked o sequence (err e) = err e
retry_checked o sequence (ok retry) = circuit_checked o sequence retry (normalize_circuit o.circuit)

-- newTask, up to its first event.
unfoldable pub initial_task : TaskOptions → ℕ → Result TaskState
initial_task o sequence =
    if malformed_id o.task_id
    then err id_required
    else retry_checked o sequence (normalize_retry o.retry)

module _ {W : Type 0} (env : Environment W) where
  abbrev pub started : Result (Unit {0}) × Machine W → Result TaskState × W
  started (ok tt, s) = (ok s.task, s.world)
  started (err e, s) =
      (err (wrap_error event_delivery (codes "task start was not acknowledged") e), s.world)

  abbrev pub begun_task : Bool → W → Result TaskState → Result TaskState × W
  begun_task emit_started w (err e) = (err e, w)
  begun_task emit_started w (ok t) =
      if emit_started
      then started (
          emit env (event task_started required_ack empty_payload) (record { task = t; world = w }))
      else (ok t, w)

  -- newTask
  unfoldable pub new_task : TaskOptions → ℕ → Bool → W → Result TaskState × W
  unfolding initial_task
  new_task o sequence emit_started w = begun_task emit_started w (initial_task o sequence)
