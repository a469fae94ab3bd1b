-- ===== src/Task/Runtime/Numbering/Calls.antt =====
-- The sequence numbers of task_runtime.go, over any calls of a Task.
use tracklogic_agent.Common.{Option, List, [], ◌∷◌}
use tracklogic_agent.Types.{GoError}
use tracklogic_agent.Task.Protocol.{Event}
use tracklogic_agent.Task.Runtime.{Machine, Environment}
use tracklogic_agent.Task.Runtime.Calls.{
  Call, starts_agent, starts_team, starts_workflow, cancels, answers_with, closes, finishes, emits,
  saves, reports, asks, stops_asking, acquires, releases, perform, perform_all,
}
use tracklogic_agent.Task.Runtime.Numbering.{Logs, IsLater, IsLater-path}
use tracklogic_agent.Task.Runtime.Numbering.Operations.{
  start_agent-Later, start_team-Later, start_workflow-Later, cancel_turn-Later, close-Later,
  finish_turn-Later, runtime_emit-Later,
}
use tracklogic_agent.Task.Runtime.Numbering.Interactions.{
  save_checkpoint-Later, report_progress-Later, open_request-Later, close_request-Later,
  answer_interaction-Later, acquire_conversation-IsLater, release_conversation-IsLater,
}

module _ {W : Type 0} (log : W → List Event) (env : Environment W)
    (deliver : Event → W → Option GoError × W) (logs : Logs env deliver log) where
  perform-IsLater : (c : Call) (s : Machine W) → IsLater log s (perform env c s)
  unfolding perform
  perform-IsLater (starts_agent name input) s =
      (start_agent-Later log env deliver logs name input).at s
  perform-IsLater (starts_team name input) s =
      (start_team-Later log env deliver logs name input).at s
  perform-IsLater (starts_workflow name input) s =
      (start_workflow-Later log env deliver logs name input).at s
  perform-IsLater (cancels id) s = (cancel_turn-Later log env deliver logs (env.quote id) id).at s
  perform-IsLater (answers_with response) s =
      (answer_interaction-Later log env deliver logs response).at s
  perform-IsLater closes s = (close-Later log env deliver logs).at s
  perform-IsLater (finishes id r) s = (finish_turn-Later log env deliver logs id r).at s
  perform-IsLater (emits r e) s = (runtime_emit-Later log env deliver logs r e).at s
  perform-IsLater (saves r c) s = (save_checkpoint-Later log env deliver logs r c).at s
  perform-IsLater (reports r summary) s =
      (report_progress-Later log env deliver logs r summary).at s
  perform-IsLater (asks r request c) s = (open_request-Later log env deliver logs r request c).at s
  perform-IsLater (stops_asking r request answer) s =
      (close_request-Later log env deliver logs r request answer).at s
  perform-IsLater (acquires agent_id) s =
      acquire_conversation-IsLater log env deliver logs agent_id s
  perform-IsLater (releases agent_id m) s =
      release_conversation-IsLater log env deliver logs agent_id m s

  -- Where a log keeps each event that the sink is given, and nothing else changes it: whatever calls a
  -- Task gets, successful or not, the log has only grown, by events of the Task's identifier that are
  -- numbered on one by one from its sequence, and the sequence has counted them.
  pub perform_all-IsLater : (cs : List Call) (s : Machine W) → IsLater log s (perform_all env cs s)
  unfolding perform_all
  perform_all-IsLater [] s = (IsLater-path log).stay s
  perform_all-IsLater (c ∷ cs) s =
      (IsLater-path log).join s (perform env c s) (perform_all env cs (perform env c s))
        (perform-IsLater c s) (perform_all-IsLater cs (perform env c s))
