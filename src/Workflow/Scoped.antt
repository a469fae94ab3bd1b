-- ===== src/Workflow/Scoped.antt =====
-- workflow/task_runtime.go: the runtime that the nodes of a Workflow see in Task mode.
use tracklogic_agent.Common.{ℕ, Text, codes, List, [], ◌∷◌, ◌++◌, Option, none, some, Dict, insert}
use tracklogic_agent.Types.{GoError, Result, ok, err}
use tracklogic_agent.Interaction.{Request, Response}
use tracklogic_agent.Exec.{Exec, pure, update}
use tracklogic_agent.Task.Protocol.{
  TurnKind, agent, workflow, running, AgentCheckpoint, WorkflowCheckpoint, Checkpoint, StateValue,
}
use tracklogic_agent.Workflow.{Tracker, Scope, Shared, Surroundings, Node, node_id, join}

abbrev pub empty_tracker : Tracker
empty_tracker = record { loops = []; branches = []; completed = []; agents = []; node_data = [] }

-- newWorkflowTracker of a checkpoint
abbrev pub tracker_of : WorkflowCheckpoint → Tracker
tracker_of c = record {
  loops = c.loop_indexes;
  branches = c.branches;
  completed = c.completed;
  agents = c.agents;
  node_data = c.node_data;
}

-- childWorkflowScope
abbrev pub child_scope : {W : Type 0} → Option Scope → Node W → Text → Option Scope
child_scope none child current = none
child_scope (some scope) child current =
    some (record scope { current = current; path = scope.path ++ node_id child ∷ [] })

abbrev pub path_key : Scope → Text
path_key scope = join (codes "/") scope.path

abbrev pub plain_checkpoint : Text → Option WorkflowCheckpoint → Checkpoint
plain_checkpoint name w = record {
  version = 0;
  task_id = [];
  turn_id = [];
  kind = workflow;
  target = name;
  status = running;
  last_sequence = 0;
  agent = none;
  team = none;
  workflow = w;
  interaction = none;
}

abbrev pub position : Text → List Text → ℕ → Text → Dict StateValue → WorkflowCheckpoint
position name path next current state = record {
  workflow_id = name;
  node_path = path;
  next_node = next;
  current = current;
  state = state;
  loop_indexes = [];
  branches = [];
  completed = [];
  agent = none;
  agents = [];
  node_data = [];
}

module _ {W : Type 0} where
  abbrev pub track : (Tracker → Tracker) → Shared W → Shared W
  track f s = record s { tracker = f s.tracker }

  -- A note in the tracker, in Task mode.
  abbrev pub noted : Option Scope → (Tracker → Tracker) → Exec (Shared W) Unit
  noted none f = pure tt
  noted (some scope) f = update (track f)

  -- The checkpoint of a Workflow at a scope, with all that the tracker has.
  abbrev pub scoped : Scope → Shared W → WorkflowCheckpoint
  scoped scope s = record (position scope.id scope.path scope.next scope.current s.state) {
    loop_indexes = s.tracker.loops;
    branches = s.tracker.branches;
    completed = s.tracker.completed;
    agents = s.tracker.agents;
    node_data = s.tracker.node_data;
  }

  abbrev wrapped_agent :
      Scope → Checkpoint → Shared W → TurnKind → Option AgentCheckpoint → Checkpoint × Shared W
  wrapped_agent scope c s agent (some a) =
      let t = track (λ k. record k { agents = insert (path_key scope) a k.agents }) s in
      (
        record c {
          kind = workflow;
          target = scope.id;
          workflow = some (record (scoped scope t) { agent = some a });
          agent = none;
        },
        t,
      )
  wrapped_agent scope c s _ _ = (c, s)

  -- wrap
  unfoldable pub wrap : Scope → Checkpoint → Shared W → Checkpoint × Shared W
  wrap scope c s = wrapped_agent scope c s c.kind c.agent

  module _ (env : Surroundings W) where
    abbrev pub stored : Option GoError × W → Shared W → Result (Unit {0}) × Shared W
    stored (none, w) s = (ok tt, record s { world = w })
    stored (some e, w) s = (err e, record s { world = w })

    abbrev pub delegate : Checkpoint → Exec (Shared W) Unit
    delegate c s = stored (env.checkpoint c s.world) s

    -- workflowRuntime.Checkpoint
    unfoldable pub scoped_checkpoint : Scope → Checkpoint → Exec (Shared W) Unit
    unfolding wrap
    scoped_checkpoint scope c s = let (c', t) = wrap scope c s in delegate c' t

    -- checkpointState, without new data of a node.
    unfoldable pub checkpoint_state : Scope → Exec (Shared W) Unit
    checkpoint_state scope s = delegate (plain_checkpoint scope.id (some (scoped scope s))) s

    -- workflowRuntime.RequestInput
    unfoldable pub scoped_request_input : Scope → Request → Checkpoint → Exec (Shared W) Response
    unfolding wrap
    scoped_request_input scope request c s =
        let (c', t) = wrap scope c s in
        let (response, w) = env.request_input request c' t.world in
        (response, record t { world = w })
