-- ===== src/Task/Runtime/Answers.antt =====
-- task_runtime.go: answering an interaction, of a turn that waits or of one that was restored.
pub mod Once
use tracklogic_agent.Common.{
  ℕ, Bool, true, false, ◌&&◌, ◌||◌, not, Text, codes, text_eq, trim_space, is_empty, List, [], ◌∷◌,
  ◌++◌, ltb, ◌==◌, Option, none, some, is_some, if◌then◌else◌, lookup, insert, pos, ℤ,
}
use tracklogic_agent.Types.{
  GoError, new_error, wrap_error, plain, invalid_config, invalid_input, run_cancelled,
  event_delivery, interaction_not_found, turn_not_found, run_interrupted, Result, ok, err, ToolCall,
}
use tracklogic_agent.Exec.{
  Exec, pure, raise, gets, lift, recover, update, guard, require, ◌>>=◌, ◌>>◌,
}
use tracklogic_agent.Memory.Summary
use tracklogic_agent.Memory.Summary.{SummaryMemory, new_summary}
use tracklogic_agent.Interaction.{Request, Response, validate, validate_against}
use tracklogic_agent.Task.Config.{
  RetryConfig, CircuitConfig, SummaryConfig, RetryOptions, CircuitOptions, SummaryOptions,
  normalize_retry, normalize_circuit, normalize_summary,
}
use tracklogic_agent.Task.Protocol.{
  TurnKind, agent, team, workflow, TurnStatus, running, completed, interrupted, Turn, TurnResult,
  AgentCheckpoint, TeamCheckpoint, WorkflowCheckpoint, Checkpoint, checkpoint_version, task_started,
  interaction_responded, turn_status_changed, empty_payload, event, required_ack,
}
use tracklogic_agent.Task.Runtime.{
  TaskState, TurnState, TurnRuntime, Conversation, PendingInteraction, Machine, Environment, Job,
  continue_agent, resume_agent, resume_team, resume_workflow, with_task, put_turn, put_pending,
  remove_pending, put_conversation, put_answer, spawn,
}
use tracklogic_agent.Task.Runtime.Emit.{emit}
use tracklogic_agent.Task.Runtime.Turns.{delivery_failure, close}
use tracklogic_agent.Task.Runtime.Inputs.{as_error, status_event}
use tracklogic_agent.Task.Runtime.Checkpoints.{runtime_emit}
use tracklogic_agent.Task.Runtime.Restore.{suspended_agent, running_again}

module _ {W : Type 0} (env : Environment W) where
  abbrev pub not_waiting : Text → GoError
  not_waiting id =
      new_error interaction_not_found
        (codes "interaction " ++ (env.quote id ++ codes " is not waiting"))

  abbrev pub awaited : Text → Option PendingInteraction → Result PendingInteraction
  awaited id none = err (not_waiting id)
  awaited id (some p) = ok p

  abbrev asks_user : Option ToolCall → Bool
  asks_user none = false
  asks_user (some call) = text_eq call.function.name (codes "request_user_input")

  abbrev resumable : Option AgentCheckpoint → Result AgentCheckpoint
  resumable none =
      err (new_error run_interrupted (codes "checkpoint cannot safely resume this interaction"))
  resumable (some a) =
      if asks_user a.pending_tool_call
      then ok a
      else err
          (new_error run_interrupted (codes "checkpoint cannot safely resume this interaction"))

  abbrev agent_to_resume : Option Checkpoint → Result (Checkpoint × AgentCheckpoint)
  agent_to_resume none =
      err (new_error run_interrupted (codes "checkpoint cannot safely resume this interaction"))
  agent_to_resume (some c) = elim (resumable (suspended_agent c)) [
    | ok a ↦ ok (c, a)
    | err e ↦ err e
  ]

  abbrev encoded : Response → Result Text
  encoded response = elim (env.encode_response response) [
    | ok text ↦ ok text
    | err e ↦ err (wrap_error invalid_input (codes "encode interaction response") e)
  ]

  abbrev unavailable : Text → Text → Text → GoError
  unavailable kind name rest =
      new_error invalid_config (kind ++ (codes " " ++ (env.quote name ++ rest)))

  abbrev team_job : Checkpoint → Text → Option TeamCheckpoint → Result Job
  team_job c text none =
      err (unavailable (codes "team") c.target (codes " checkpoint is unavailable"))
  team_job c text (some t) =
      if env.has_team c.target
      then ok (resume_team c.target t text)
      else err (unavailable (codes "team") c.target (codes " checkpoint is unavailable"))

  abbrev workflow_job : Checkpoint → Text → Option WorkflowCheckpoint → Result Job
  workflow_job c text none =
      err (unavailable (codes "workflow") c.target (codes " checkpoint is unavailable"))
  workflow_job c text (some w) =
      if is_some (env.workflow c.target)
      then ok (resume_workflow c.target w text)
      else err (unavailable (codes "workflow") c.target (codes " checkpoint is unavailable"))

  -- The job of the resumed turn, by the checkpoint's kind.
  abbrev job_of : TurnKind → Checkpoint → AgentCheckpoint → Text → Result Job
  job_of agent c a text =
      if env.has_agent c.target
      then ok (resume_agent c.target a text)
      else err (unavailable (codes "agent") c.target (codes " not found"))
  job_of team c a text = team_job c text c.team
  job_of workflow c a text = workflow_job c text c.workflow

  abbrev stop_turn : Text → TurnState → Exec (Machine W) Unit
  stop_turn id t = update (with_task (put_turn id (record (running_again t) { cancelled = true })))

  abbrev restored_state : Option TurnState → Result TurnState
  restored_state none = err (new_error turn_not_found (codes "restored turn is unavailable"))
  restored_state (some t) = ok t

  -- What cancels the turn's new context when it fails.
  abbrev or_stop :
      {A : Type 0}
      → Text
      → TurnState
      → (GoError → GoError)
      → Exec (Machine W) A
      → Exec (Machine W) A
  or_stop id t wrap m = recover m (λ failure. stop_turn id t >> raise (wrap failure))

  -- resumeRestoredInteraction
  unfoldable pub resume_restored_interaction : Response → Exec (Machine W) Unit
  unfolding suspended_agent runtime_emit
  resume_restored_interaction response = do
    waiting ← gets (λ s. lookup response.request_id s.task.pending)
    p ← lift (awaited response.request_id waiting)
    state ← gets (λ s. lookup p.turn_id s.task.turns)
    update (with_task (remove_pending response.request_id))
    t ← lift (restored_state state)
    found ← lift (agent_to_resume t.runtime.checkpoint)
    text ← lift (encoded response)
    update (with_task (put_turn p.turn_id (running_again t)))
    or_stop p.turn_id t (delivery_failure (codes "resumed turn status was not acknowledged"))
        (runtime_emit env t.runtime.turn_id (status_event env t.runtime.turn_id running))
    job ← or_stop p.turn_id t (λ e. e) (lift (job_of found.0.kind found.0 found.1 text))
    update (with_task (spawn t.turn.id job))

  -- The answer goes to the turn that waits, or resumes the restored turn.
  abbrev pub give : Response → Bool → Exec (Machine W) Unit
  give response true = resume_restored_interaction response
  give response false =
      update (with_task (λ t. put_answer response (remove_pending response.request_id t)))

  -- What AnswerInteraction does once it has found the interaction.
  abbrev pub take_answer : Response → PendingInteraction → Exec (Machine W) Unit
  take_answer response p = do
    require (as_error (validate_against response p.request))
        (λ e. wrap_error invalid_input (codes "interaction response is invalid") e)
    recover
        (emit env
          (record (event interaction_responded required_ack
            (record empty_payload { response = some response })) { turn_id = p.turn_id }))
        (λ failure.
          raise (delivery_failure (codes "interaction response was not acknowledged") failure))
    give response p.restored

  -- AnswerInteraction, with no other answer between its lookup and what follows: the source does not
  -- hold its lock in between.
  unfoldable pub answer_interaction : Response → Exec (Machine W) Unit
  unfolding resume_restored_interaction
  answer_interaction response = do
    waiting ← gets (λ s. lookup response.request_id s.task.pending)
    p ← lift (awaited response.request_id waiting)
    take_answer response p
