-- ===== src/Task/Runtime/Checkpoints/Waiting.antt =====
-- turnRuntime.Checkpoint in task_runtime.go: the Agent of a Team or a Workflow that waits for the user
-- is not displaced by the checkpoints of the others.
use tracklogic_agent.Common.{◌≡◌, ◌⊎◌, false, Text, text_eq, Option, some}
use tracklogic_agent.Interaction.{Request}
use tracklogic_agent.Task.Protocol.{
  TurnKind, agent, team, workflow, AgentCheckpoint, WorkflowCheckpoint, Checkpoint,
  checkpoint_version,
}
use tracklogic_agent.Task.Runtime.{TurnRuntime}
use tracklogic_agent.Task.Runtime.Restore.{agent_in_team, agent_in_workflow}
use tracklogic_agent.Task.Runtime.Checkpoints.{is_agent, lift_agent, guard_waiting}

-- The Agent that a Team's or a Workflow's checkpoint would resume.
abbrev pub held_agent : TurnKind → Checkpoint → Option AgentCheckpoint
held_agent agent c = c.agent
held_agent team c = agent_in_team c.team
held_agent workflow c = agent_in_workflow c.workflow

-- The Agent `a` waits for the answer to the request `q`.
pub record IsHeld (kind : TurnKind) (q : Request) (a : AgentCheckpoint) (c : Checkpoint)
    : Type 0 where
  pub agent_held : held_agent kind c ≡ some a
  pub request_held : c.interaction ≡ some q

-- A checkpoint of another Agent than `a`.
pub record IsOfAgent (a : AgentCheckpoint) (c : Checkpoint) : Type 0 where
  pub other : AgentCheckpoint
  pub kind_is : c.kind ≡ agent
  pub agent_is : c.agent ≡ some other
  pub differs : text_eq a.agent_id other.agent_id ≡ false
  pub differs_back : text_eq other.agent_id a.agent_id ≡ false

-- A checkpoint of a Workflow at a node that is not the one of `a`.
pub record IsOfWorkflow (a : AgentCheckpoint) (c : Checkpoint) : Type 0 where
  pub at : WorkflowCheckpoint
  pub kind_is : c.kind ≡ workflow
  pub workflow_is : c.workflow ≡ some at
  pub differs : is_agent a.agent_id at.agent ≡ false

abbrev pub IsOther : TurnKind → AgentCheckpoint → Checkpoint → Type 0
IsOther agent a c = ⊥
IsOther team a c = IsOfAgent a c
IsOther workflow a c = IsOfAgent a c ⊎ IsOfWorkflow a c

-- What every stored checkpoint carries.
pub record IsStamped (task_id : Text) (r : TurnRuntime) (c : Checkpoint) : Type 0 where
  pub version_is : c.version ≡ checkpoint_version
  pub task_is : c.task_id ≡ task_id
  pub turn_is : c.turn_id ≡ r.turn_id

-- What Checkpoint makes of `c`, before it is stamped.
abbrev carried : TurnKind → Text → Checkpoint → Checkpoint → Checkpoint
carried kind target prev c =
    let lifted = lift_agent kind c.kind target (some prev) c.agent c in
    guard_waiting kind lifted.kind (some prev) lifted
