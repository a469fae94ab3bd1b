-- ===== src/Task/Runtime.antt =====
-- task_runtime.go: the state of a Task. A Go statement `go t.runTurn(...)` adds the job of the new
-- goroutine to `jobs`; the job runs by the operations of the turn's runtime and ends by finish_turn.
-- A cancelled context, a closed channel and a held gate are flags of what owns them.
pub mod Emit
pub mod Turns
pub mod Finish
pub mod Inputs
pub mod Checkpoints
pub mod Create
pub mod Restore
pub mod Answers
pub mod Calls
pub mod Endings
pub mod Numbering
use tracklogic_agent.Common.{
  ℕ, Bool, Text, List, [], ◌∷◌, ◌++◌, Option, none, some, Dict, lookup, insert, erase,
}
use tracklogic_agent.Types.{Message, GoError, Result}
use tracklogic_agent.Memory.Summary.{SummaryMemory}
use tracklogic_agent.Interaction.{Request, Response}
use tracklogic_agent.Task.Config.{RetryConfig, CircuitConfig, SummaryConfig}
use tracklogic_agent.Task.Protocol.{
  TurnKind, Turn, TurnResult, AgentCheckpoint, TeamCheckpoint, WorkflowCheckpoint, Checkpoint,
  Event,
}

-- turnRuntime; `none` is the zero checkpoint.
pub record TurnRuntime : Type 0 where
  pub turn_id : Text
  pub kind : TurnKind
  pub target : Text
  pub progress_count : ℕ
  pub checkpoint : Option Checkpoint

-- taskTurnState
pub record TurnState : Type 0 where
  pub turn : Turn
  pub result : Option TurnResult
  pub done : Bool
  pub cancelled : Bool
  pub runtime : TurnRuntime

-- taskConversation: `held` is the token in its gate.
pub record Conversation : Type 0 where
  pub held : Bool
  pub memory : SummaryMemory

-- pendingInteraction; its channel is in the Task's `answers`.
pub record PendingInteraction : Type 0 where
  pub request : Request
  pub turn_id : Text
  pub restored : Bool

-- What the goroutine of a turn runs.
pub data Job : Type 0 where
  run_agent run_team run_workflow : Text → Text → Job
  continue_agent : Text → AgentCheckpoint → Job
  resume_agent : Text → AgentCheckpoint → Text → Job
  resume_team : Text → TeamCheckpoint → Text → Job
  resume_workflow : Text → WorkflowCheckpoint → Text → Job

pub record TaskState : Type 0 where  -- Task
  pub id : Text
  pub retry : RetryConfig
  pub circuit : CircuitConfig
  pub summary : SummaryConfig
  pub sequence : ℕ
  pub closed : Bool  -- and the Task's context is cancelled
  pub turns : Dict TurnState
  pub conversations : Dict Conversation
  pub pending : Dict PendingInteraction
  pub answers : Dict Response  -- what the channels of the interactions hold, by request
  pub jobs : List (Text × Job)

-- The Task in its world.
pub record Machine (W : Type 0) : Type 0 where
  pub task : TaskState
  pub world : W

-- What a Task asks of its surroundings: the caller's sink, the clock, task.NewID, the Harness and JSON.
pub record Environment (W : Type 0) : Type 0 where
  pub sink : Option (Event → W → Option GoError × W)
  pub now : W → ℕ
  pub new_id : Text → W → Text × W
  pub sanitize : Text → Text
  pub validate_input : Text → Option GoError
  pub has_agent : Text → Bool
  pub has_team : Text → Bool
  pub workflow : Text → Option (Option GoError)  -- ValidateTaskMode of the Workflow of that name
  pub encode_response : Response → Result Text
  pub quote : Text → Text

module _ {W : Type 0} where
  abbrev pub with_task : (TaskState → TaskState) → Machine W → Machine W
  with_task f s = record s { task = f s.task }

abbrev pub put_turn : Text → TurnState → TaskState → TaskState
put_turn id t s = record s { turns = insert id t s.turns }

abbrev pub remove_turn : Text → TaskState → TaskState
remove_turn id s = record s { turns = erase id s.turns }

abbrev pub put_pending : PendingInteraction → TaskState → TaskState
put_pending p s = record s { pending = insert p.request.id p s.pending }

abbrev pub remove_pending : Text → TaskState → TaskState
remove_pending id s = record s { pending = erase id s.pending }

abbrev pub put_answer : Response → TaskState → TaskState
put_answer response s = record s { answers = insert response.request_id response s.answers }

-- The new channel of a request is empty.
abbrev pub drop_answer : Text → TaskState → TaskState
drop_answer id s = record s { answers = erase id s.answers }

abbrev pub put_conversation : Text → Conversation → TaskState → TaskState
put_conversation agent_id c s = record s { conversations = insert agent_id c s.conversations }

abbrev pub spawn : Text → Job → TaskState → TaskState
spawn id job s = record s { jobs = s.jobs ++ (id, job) ∷ [] }
