-- ===== src/Task/Runtime/Inputs.antt =====
-- task_runtime.go: the rest of a turn's runtime: progress reports, requests for input and
-- conversations. A request for input is split where the turn waits: opening it, and closing it with
-- the answer or the context's error.
use tracklogic_agent.Common.{
  ◌+◌, Bool, true, false, ltb, leb, Text, codes, ◌++◌, length, Option, none, some, is_some,
  if◌then◌else◌, lookup, pos,
}
use tracklogic_agent.Types.{
  GoError, InteractionError, new_error, wrap_error, invalid_input, invalid_interaction, Result, ok,
  err,
}
use tracklogic_agent.Exec.{Exec, pure, raise, gets, recover, update, guard, require, ◌>>=◌, ◌>>◌}
use tracklogic_agent.Memory.Summary.{SummaryMemory, new_summary}
use tracklogic_agent.Interaction.{Request, Response, validate}
use tracklogic_agent.Task.Protocol.{
  Checkpoint, TurnStatus, waiting_input, running, turn_status_changed, interaction_requested,
  progress_updated, empty_payload, Event, event, best_effort, required_ack,
}
use tracklogic_agent.Task.Runtime.{
  TaskState, TurnState, Conversation, Machine, Environment, with_task, put_turn, put_pending,
  remove_pending, put_conversation, drop_answer,
}
use tracklogic_agent.Task.Runtime.Checkpoints.{runtime_emit, save_checkpoint}

abbrev pub as_error : Option InteractionError → Option GoError
as_error none = none
as_error (some e) = some (invalid_interaction e)

-- A request of the turn `r` is registered, with an empty channel for its answer.
abbrev pub register_request : Request → Text → TaskState → TaskState
register_request request r t =
    put_pending (record { request = request; turn_id = r; restored = false })
      (drop_answer request.id t)

module _ {W : Type 0} (env : Environment W) (r : Text) where
  abbrev counted : TurnState → TurnState
  counted t = record t {
    runtime = record t.runtime { progress_count = t.runtime.progress_count + 1 };
  }

  abbrev pub count_progress : Option TurnState → Exec (Machine W) Unit
  count_progress none = pure tt
  count_progress (some t) =
      guard (leb 20 t.runtime.progress_count)
        (new_error invalid_input (codes "progress summary limit exceeded for this turn"))
      >> update (with_task (put_turn r (counted t)))

  -- ReportProgress
  unfoldable pub report_progress : Text → Exec (Machine W) Unit
  unfolding runtime_emit
  report_progress summary = do
    guard (ltb 200 (length summary))
        (new_error invalid_input (codes "progress summary must not exceed 200 Unicode characters"))
    t ← gets (λ s. lookup r s.task.turns)
    count_progress t
    runtime_emit env r
        (event progress_updated best_effort (record empty_payload { text = summary }))

  abbrev pub status_event : TurnStatus → Event
  status_event status =
      event turn_status_changed required_ack (record empty_payload { status = some status })

  abbrev taken : Request → GoError
  taken request =
      new_error invalid_input
        (codes "interaction " ++ (env.quote request.id ++ codes " already exists"))

  -- An event of a request that is registered: the registration is undone when it fails.
  abbrev asking : Request → Event → Exec (Machine W) Unit
  asking request e =
      recover (runtime_emit env r e)
        (λ failure. update (with_task (remove_pending request.id)) >> raise failure)

  -- RequestInput, up to the wait.
  unfoldable pub open_request : Request → Checkpoint → Exec (Machine W) Unit
  unfolding runtime_emit save_checkpoint
  open_request request c = do
    require (as_error (validate request))
        (λ e. wrap_error invalid_input (codes "interaction request is invalid") e)
    save_checkpoint env r (record c { interaction = some request; status = waiting_input })
    exists ← gets (λ s. is_some (lookup request.id s.task.pending))
    guard exists (taken request)
    update (with_task (register_request request r))
    asking request (status_event waiting_input)
    asking request
        (event interaction_requested required_ack (record empty_payload { request = some request }))

  -- The rest of RequestInput, with what ended the wait; the registration is removed at the end.
  unfoldable pub close_request : Request → Result Response → Exec (Machine W) Response
  unfolding runtime_emit
  close_request request (ok response) = do
    recover (runtime_emit env r (status_event running))
        (λ failure. update (with_task (remove_pending request.id)) >> raise failure)
    update (with_task (remove_pending request.id))
    pure response
  close_request request (err e) = do update (with_task (remove_pending request.id)); raise e

abbrev new_conversation : TaskState → Conversation
new_conversation t = record { held = false; memory = new_summary (pos t.summary.keep_recent) }

abbrev pub conversation_of : Text → TaskState → Conversation
conversation_of agent_id t = elim (lookup agent_id t.conversations) [
  | none ↦ new_conversation t
  | some c ↦ c
]

module _ {W : Type 0} where
  -- The lease, where the gate is free.
  abbrev pub acquired : Text → Conversation → Bool → Machine W → Option SummaryMemory × Machine W
  acquired agent_id c held s =
      if held
      then (none, with_task (put_conversation agent_id c) s)
      else (some c.memory, with_task (put_conversation agent_id (record c { held = true })) s)

  -- AcquireConversation: `none` while another run holds the conversation, and the caller waits.
  unfoldable pub acquire_conversation : Text → Machine W → Option SummaryMemory × Machine W
  acquire_conversation agent_id s =
      let c = conversation_of agent_id s.task in acquired agent_id c c.held s

  -- Release of the lease, with the memory that the run leaves.
  unfoldable pub release_conversation : Text → SummaryMemory → Machine W → Machine W
  release_conversation agent_id m s =
      with_task (put_conversation agent_id (record { held = false; memory = m })) s
