-- ===== src/Task/Runtime/Numbering/Interactions.antt =====
-- The operations of a turn's runtime in task_runtime.go, and the answers to it, number their events on.
use tracklogic_agent.Common.{◌≡◌, refl, Bool, true, false, Text, List, Option, none, some, lookup}
use tracklogic_agent.Types.{GoError, Result, ok, err}
use tracklogic_agent.Exec.{update}
use tracklogic_agent.Interaction.{Request, Response}
use tracklogic_agent.Memory.Summary.{SummaryMemory}
use tracklogic_agent.Task.Protocol.{Event, Checkpoint}
use tracklogic_agent.Task.Runtime.{
  TaskState, TurnState, Conversation, Machine, Environment, with_task, remove_pending, put_answer,
  put_conversation,
}
use tracklogic_agent.Task.Runtime.Checkpoints.{save_checkpoint, store_in, store_checkpoint}
use tracklogic_agent.Task.Runtime.Inputs.{
  report_progress, count_progress, register_request, open_request, close_request, conversation_of,
  acquired, acquire_conversation, release_conversation,
}
use tracklogic_agent.Task.Runtime.Answers.{resume_restored_interaction, answer_interaction, give}
use tracklogic_agent.Task.Runtime.Numbering.{Logs, IsLater}
use tracklogic_agent.Task.Runtime.Numbering.Operations.{Later, later, kept-Later}

module _ {W : Type 0} (log : W → List Event) (env : Environment W)
    (deliver : Event → W → Option GoError × W) (logs : Logs env deliver log) where
  store_in-kept :
      (r : Text) (c : Checkpoint) (t : TaskState) (o : Option TurnState)
      → ((store_in env r c t o).sequence ≡ t.sequence) × ((store_in env r c t o).id ≡ t.id)
  store_in-kept r c t none = (refl, refl)
  store_in-kept r c t (some turn) = (refl, refl)

  store_checkpoint-Later :
      (r : Text) (c : Checkpoint)
      → Later log env deliver logs (update (with_task (store_checkpoint env r c)))
  store_checkpoint-Later r c =
      kept-Later log env deliver logs (store_checkpoint env r c)
        (λ t. store_in-kept r c t (lookup r t.turns))

  pub save_checkpoint-Later :
      (r : Text) (c : Checkpoint) → Later log env deliver logs (save_checkpoint env r c)
  unfolding save_checkpoint
  save_checkpoint-Later r c = search (later, store_checkpoint-Later)

  count_progress-Later :
      (r : Text) (o : Option TurnState) → Later log env deliver logs (count_progress env r o)
  count_progress-Later r none = search (later)
  count_progress-Later r (some t) = search (later)

  pub report_progress-Later :
      (r : Text) (summary : Text) → Later log env deliver logs (report_progress env r summary)
  unfolding report_progress
  report_progress-Later r summary = search (later, count_progress-Later)

  registers-Later :
      (request : Request) (r : Text)
      → Later log env deliver logs (update (with_task (register_request request r)))
  registers-Later request r =
      kept-Later log env deliver logs (register_request request r) (λ t. (refl, refl))

  pub open_request-Later :
      (r : Text) (request : Request) (c : Checkpoint)
      → Later log env deliver logs (open_request env r request c)
  unfolding open_request
  open_request-Later r request c = search (later, save_checkpoint-Later, registers-Later) depth 24

  pub close_request-Later :
      (r : Text) (request : Request) (answer : Result Response)
      → Later log env deliver logs (close_request env r request answer)
  unfolding close_request
  close_request-Later r request (ok response) = search (later)
  close_request-Later r request (err e) = search (later)

  resume_restored_interaction-Later :
      (response : Response) → Later log env deliver logs (resume_restored_interaction env response)
  unfolding resume_restored_interaction
  resume_restored_interaction-Later response = search (later) depth 40

  answered-Later :
      (response : Response)
      → Later log env deliver logs
          (update (with_task (λ t. put_answer response (remove_pending response.request_id t))))
  answered-Later response =
      kept-Later log env deliver logs
        (λ t. put_answer response (remove_pending response.request_id t)) (λ t. (refl, refl))

  give-Later : (response : Response) (b : Bool) → Later log env deliver logs (give env response b)
  give-Later response true = resume_restored_interaction-Later response
  give-Later response false = answered-Later response

  pub answer_interaction-Later :
      (response : Response) → Later log env deliver logs (answer_interaction env response)
  unfolding answer_interaction
  answer_interaction-Later response = search (later, give-Later) depth 24

  put_conversation-IsLater :
      (id : Text) (c : Conversation) (s : Machine W)
      → IsLater log s (with_task (put_conversation id c) s)
  unfolding update
  put_conversation-IsLater id c s =
      (kept-Later log env deliver logs (put_conversation id c) (λ t. (refl, refl))).at s

  acquired-IsLater :
      (id : Text) (c : Conversation) (s : Machine W) (held : Bool)
      → IsLater log s (acquired id c held s).1
  acquired-IsLater id c s true = put_conversation-IsLater id _ s
  acquired-IsLater id c s false = put_conversation-IsLater id _ s

  pub acquire_conversation-IsLater :
      (id : Text) (s : Machine W) → IsLater log s (acquire_conversation id s).1
  unfolding acquire_conversation
  acquire_conversation-IsLater id s =
      acquired-IsLater id (conversation_of id s.task) s (conversation_of id s.task).held

  pub release_conversation-IsLater :
      (id : Text) (m : SummaryMemory) (s : Machine W) → IsLater log s (release_conversation id m s)
  unfolding release_conversation
  release_conversation-IsLater id m s = put_conversation-IsLater id _ s
