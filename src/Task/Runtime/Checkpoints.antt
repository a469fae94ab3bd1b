-- ===== src/Task/Runtime/Checkpoints.antt =====
-- task_runtime.go: turnRuntime.Checkpoint, and the events of a turn's runtime. A map of checkpoints
-- holds no nil, so that cloneAgentCheckpoints copies it as it is.
pub mod Waiting
use tracklogic_agent.Common.{
  ℕ, Bool, true, false, ◌&&◌, ◌||◌, not, Text, text_eq, is_empty, List, [], ◌∷◌, Option, none, some,
  is_some, if◌then◌else◌, Dict, lookup, insert,
}
use tracklogic_agent.Types.{Result, ok}
use tracklogic_agent.Exec.{Exec, gets, update, ◌>>=◌, ◌>>◌}
use tracklogic_agent.Interaction.{Request}
use tracklogic_agent.Task.Protocol.{
  TurnKind, agent, team, workflow, AgentCheckpoint, TeamCheckpoint, WorkflowCheckpoint, Checkpoint,
  checkpoint_version, checkpoint_ready, empty_payload, Event, event, required_ack,
}
use tracklogic_agent.Task.Runtime.{
  TaskState, TurnState, TurnRuntime, Machine, Environment, with_task, put_turn,
}
use tracklogic_agent.Task.Runtime.Emit.{emit}

abbrev pub team_of : Option Checkpoint → Option TeamCheckpoint
team_of none = none
team_of (some c) = c.team

abbrev pub workflow_of : Option Checkpoint → Option WorkflowCheckpoint
workflow_of none = none
workflow_of (some c) = c.workflow

abbrev pub interaction_of : Option Checkpoint → Option Request
interaction_of none = none
interaction_of (some c) = c.interaction

abbrev pub empty_team : Text → TeamCheckpoint
empty_team target = record {
  team_id = target;
  mode = [];
  phase = [];
  current_index = 0;
  current_input = [];
  agent_outputs = [];
  pending_agent_id = [];
  agent = none;
  agents = [];
}

abbrev pub empty_workflow : Text → WorkflowCheckpoint
empty_workflow target = record {
  workflow_id = target;
  node_path = [];
  next_node = 0;
  current = [];
  state = [];
  loop_indexes = [];
  branches = [];
  completed = [];
  agent = none;
  agents = [];
  node_data = [];
}

abbrev pub team_base : Text → Option TeamCheckpoint → TeamCheckpoint
team_base target none = empty_team target
team_base target (some t) = t

abbrev pub workflow_base : Text → Option WorkflowCheckpoint → WorkflowCheckpoint
workflow_base target none = empty_workflow target
workflow_base target (some w) = w

-- An Agent that waits on a tool call.
abbrev pub is_waiting : Option AgentCheckpoint → Bool
is_waiting none = false
is_waiting (some a) = is_some a.pending_tool_call

abbrev pub is_agent : Text → Option AgentCheckpoint → Bool
is_agent id none = false
is_agent id (some a) = text_eq a.agent_id id

abbrev pub agent_id_of : Option AgentCheckpoint → Text
agent_id_of none = []
agent_id_of (some a) = a.agent_id

-- The checkpoint of an Agent of a Team, put into that of the Team.
unfoldable pub team_checkpoint :
    Text → TeamCheckpoint → Option Request → AgentCheckpoint → Checkpoint → Checkpoint
team_checkpoint target base previous a c =
    let agents = insert a.agent_id a base.agents in
    if is_waiting base.agent && not (is_agent a.agent_id base.agent)
    then record c {
      kind = team;
      target = target;
      team = some (record base { agents = agents; pending_agent_id = agent_id_of base.agent });
      agent = none;
      interaction = previous;
    }
    else record c {
      kind = team;
      target = target;
      team = some (record base { agents = agents; agent = some a; pending_agent_id = a.agent_id });
      agent = none;
    }

unfoldable pub workflow_checkpoint :
    Text → WorkflowCheckpoint → AgentCheckpoint → Checkpoint → Checkpoint
workflow_checkpoint target base a c = record c {
  kind = workflow;
  target = target;
  workflow = some (record base { agent = some a });
  agent = none;
}

-- The saved Agents that the new checkpoint has no entry for.
unfoldable pub add_missing : Dict AgentCheckpoint → Dict AgentCheckpoint → Dict AgentCheckpoint
add_missing [] agents = agents
add_missing ((key, saved) ∷ rest) agents =
    let added = add_missing rest in
    if is_some (lookup key agents) then added agents else added (insert key saved agents)

abbrev pub keep_saved :
    WorkflowCheckpoint → Option Request → WorkflowCheckpoint → Checkpoint → Checkpoint
keep_saved saved request w c =
    if is_waiting saved.agent && not (is_agent (agent_id_of saved.agent) w.agent)
    then record c {
      workflow = some (record w {
        agent = saved.agent;
        node_path = saved.node_path;
        agents = add_missing saved.agents w.agents;
      });
      interaction = request;
    }
    else c

-- A Workflow's checkpoint does not displace the Agent that waits for the user.
abbrev pub keep_waiting :
    Option WorkflowCheckpoint → Option Request → Option WorkflowCheckpoint → Checkpoint → Checkpoint
keep_waiting (some saved) (some request) (some w) c = keep_saved saved (some request) w c
keep_waiting _ _ _ c = c

-- The first two conditions of Checkpoint, by the kinds of the turn and of the checkpoint.
abbrev pub lift_agent :
    TurnKind
    → TurnKind
    → Text
    → Option Checkpoint
    → Option AgentCheckpoint
    → Checkpoint
    → Checkpoint
lift_agent team agent target previous (some a) c =
    team_checkpoint target (team_base target (team_of previous)) (interaction_of previous) a c
lift_agent workflow agent target previous (some a) c =
    workflow_checkpoint target (workflow_base target (workflow_of previous)) a c
lift_agent _ _ target previous _ c = c

-- The third condition.
abbrev pub guard_waiting : TurnKind → TurnKind → Option Checkpoint → Checkpoint → Checkpoint
guard_waiting workflow workflow previous c =
    keep_waiting (workflow_of previous) (interaction_of previous) c.workflow c
guard_waiting _ _ previous c = c

-- The checkpoint that is stored and emitted.
unfoldable pub merge_checkpoint : Text → TurnRuntime → Checkpoint → Checkpoint
unfolding team_checkpoint workflow_checkpoint add_missing
merge_checkpoint task_id r c =
    let lifted = lift_agent r.kind c.kind r.target r.checkpoint c.agent c in
    record (guard_waiting r.kind lifted.kind r.checkpoint lifted) {
      version = checkpoint_version;
      task_id = task_id;
      turn_id = r.turn_id;
    }

module _ {W : Type 0} (env : Environment W) (r : Text) where
  -- turnRuntime.Emit, `r` being the runtime's turn.
  unfoldable pub runtime_emit : Event → Exec (Machine W) Unit
  runtime_emit e = emit env (if is_empty e.turn_id then record e { turn_id = r } else e)

  abbrev pub store_in : Checkpoint → TaskState → Option TurnState → TaskState
  store_in c t none = t
  store_in c t (some turn) =
      put_turn r (record turn { runtime = record turn.runtime { checkpoint = some c } }) t

  abbrev pub store_checkpoint : Checkpoint → TaskState → TaskState
  store_checkpoint c t = store_in c t (lookup r t.turns)

  abbrev merged : Checkpoint → TaskState → Option TurnState → Checkpoint
  merged c t none = c
  merged c t (some turn) = merge_checkpoint t.id turn.runtime c

  -- turnRuntime.Checkpoint
  unfoldable pub save_checkpoint : Checkpoint → Exec (Machine W) Unit
  unfolding merge_checkpoint runtime_emit
  save_checkpoint c = do
    stored ← gets (λ s. merged c s.task (lookup r s.task.turns))
    update (with_task (store_checkpoint stored))
    runtime_emit
        (event checkpoint_ready required_ack (record empty_payload { checkpoint = some stored }))
