-- ===== src/Task/Runtime/Calls.antt =====
-- task_runtime.go: the operations of a Task as calls of its users, of the goroutines of its turns and
-- of their runtimes, in the order in which they take effect.
use tracklogic_agent.Common.{Text, List, [], ◌∷◌}
use tracklogic_agent.Types.{Result}
use tracklogic_agent.Interaction.{Request, Response}
use tracklogic_agent.Memory.Summary.{SummaryMemory}
use tracklogic_agent.Task.Protocol.{Event, TurnResult, Checkpoint}
use tracklogic_agent.Task.Runtime.{Machine, Environment}
use tracklogic_agent.Task.Runtime.Turns.{
  start_agent, start_team, start_workflow, cancel_turn, close,
}
use tracklogic_agent.Task.Runtime.Finish.{finish_turn}
use tracklogic_agent.Task.Runtime.Checkpoints.{runtime_emit, save_checkpoint}
use tracklogic_agent.Task.Runtime.Inputs.{
  report_progress, open_request, close_request, acquire_conversation, release_conversation,
}
use tracklogic_agent.Task.Runtime.Answers.{answer_interaction}

-- The turn of a runtime is the first argument of its calls.
pub data Call : Type 0 where
  starts_agent starts_team starts_workflow : Text → Text → Call
  cancels : Text → Call
  answers_with : Response → Call
  closes : Call
  finishes : Text → TurnResult → Call
  emits : Text → Event → Call
  saves : Text → Checkpoint → Call
  reports : Text → Text → Call
  asks : Text → Request → Checkpoint → Call
  stops_asking : Text → Request → Result Response → Call
  acquires : Text → Call
  releases : Text → SummaryMemory → Call

module _ {W : Type 0} (env : Environment W) where
  unfoldable pub perform : Call → Machine W → Machine W
  perform (starts_agent name input) s = (start_agent env name input s).1
  perform (starts_team name input) s = (start_team env name input s).1
  perform (starts_workflow name input) s = (start_workflow env name input s).1
  perform (cancels id) s = (cancel_turn (env.quote id) id s).1
  perform (answers_with response) s = (answer_interaction env response s).1
  perform closes s = (close s).1
  perform (finishes id r) s = (finish_turn env id r s).1
  perform (emits r e) s = (runtime_emit env r e s).1
  perform (saves r c) s = (save_checkpoint env r c s).1
  perform (reports r summary) s = (report_progress env r summary s).1
  perform (asks r request c) s = (open_request env r request c s).1
  perform (stops_asking r request answer) s = (close_request env r request answer s).1
  perform (acquires agent_id) s = (acquire_conversation agent_id s).1
  perform (releases agent_id m) s = release_conversation agent_id m s

  unfoldable pub perform_all : List Call → Machine W → Machine W
  perform_all [] s = s
  perform_all (c ∷ cs) s = perform_all cs (perform c s)
