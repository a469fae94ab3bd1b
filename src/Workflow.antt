-- ===== src/Workflow.antt =====
-- workflow/workflow.go and workflow/task_runtime.go: the nodes of a Workflow, and what a run of them
-- shares. A node that is nil is `missing`; NewLoopNode makes MaxIter positive.
pub mod Scoped
pub mod Execute
pub mod Validate
pub mod Run
pub mod Resume
use tracklogic_agent.Common.{
  ℕ, Bool, Text, codes, List, [], ◌∷◌, ◌++◌, Option, Dict, ℤ, pos, pos_part, leb_ℤ, if◌then◌else◌,
  insert, lookup,
}
use tracklogic_agent.Types.{GoError, Result}
use tracklogic_agent.Interaction.{Request, Response}
use tracklogic_agent.Exec.{Exec}
use tracklogic_agent.Task.Protocol.{AgentCheckpoint, Checkpoint, StateValue}

-- workflowTracker
pub record Tracker : Type 0 where
  pub loops : Dict ℕ
  pub branches : Dict Bool
  pub completed : Dict Text
  pub agents : Dict AgentCheckpoint
  pub node_data : Dict Text

-- workflowScope; the State and the tracker that it points to are those of the Shared.
pub record Scope : Type 0 where
  pub id : Text
  pub next : ℕ
  pub current : Text
  pub path : List Text

-- What the nodes of one run share: State, the tracker, and the world around the run.
pub record Shared (W : Type 0) : Type 0 where
  pub state : Dict StateValue
  pub tracker : Tracker
  pub world : W

-- What a run asks of its surroundings: the context, the Task's runtime, and fmt.
pub record Surroundings (W : Type 0) : Type 0 where
  pub in_task : Bool
  pub ctx_err : W → Option GoError
  pub checkpoint : Checkpoint → W → Option GoError × W
  pub request_input : Request → Checkpoint → W → Result Response × W
  pub error_text : GoError → Text
  pub itoa : ℕ → Text
  pub quote : Text → Text  -- %q

-- The Agent of a step; it gets the scope of the runtime in its context, which is none outside Task mode.
pub record StepAgent (W : Type 0) : Type 0 where
  pub run : Option Scope → Text → Exec (Shared W) Text
  pub resume : Option Scope → AgentCheckpoint → Text → Exec (Shared W) Text

-- CheckpointableNode
pub record Saving (W : Type 0) : Type 0 where
  pub save : Text → Exec (Shared W) Text
  pub restore : Text → Exec (Shared W) Unit

-- A Node of the user's own.
pub record Custom (W : Type 0) : Type 0 where
  pub id : Text
  pub node_type : Text
  pub run : Option Scope → Text → Exec (Shared W) Text
  pub saving : Option (Saving W)

pub record Step (W : Type 0) : Type 0 where  -- StepNode
  pub id : Text
  pub agent : Option (StepAgent W)
  pub after_execute : Option (Text → Text → Shared W → Shared W)
  pub input_state_key : Text

mutual
  pub data Node (W : Type 0) : Type 0 where
    step_node : Step W → Node W
    condition_node : Text → Option (Text → Exec (Shared W) Bool) → Child W → Child W → Node W
    loop_node : Text → Option (ℕ → Text → Exec (Shared W) Bool) → Child W → ℕ → Node W
    parallel_node : Text → Children W → Node W
    custom_node : Custom W → Node W

  pub data Child (W : Type 0) : Type 0 where
    missing : Child W
    present : Node W → Child W

  pub data Children (W : Type 0) : Type 0 where
    done : Children W
    next_child : Child W → Children W → Children W

abbrev pub node_id : {W : Type 0} → Node W → Text
node_id (step_node s) = s.id
node_id (condition_node id test on_true on_false) = id
node_id (loop_node id test body n) = id
node_id (parallel_node id children) = id
node_id (custom_node c) = c.id

abbrev pub node_type : {W : Type 0} → Node W → Text
node_type (step_node s) = codes "step"
node_type (condition_node id test on_true on_false) = codes "condition"
node_type (loop_node id test body n) = codes "loop"
node_type (parallel_node id children) = codes "parallel"
node_type (custom_node c) = c.node_type

-- The parts, with the separator between them: strings.Join.
unfoldable pub join : Text → List Text → Text
join sep [] = []
join sep (t ∷ []) = t
join sep (t ∷ u ∷ ts) = t ++ (sep ++ join sep (u ∷ ts))

pub record WorkflowState (W : Type 0) : Type 0 where  -- Workflow
  pub name : Text
  pub nodes : List (Child W)
  pub initial_state : Dict StateValue

pub record StepLog : Type 0 where
  pub node_id : Text
  pub node_type : Text
  pub error : Option GoError  -- `none` for Success

pub record WorkflowResult : Type 0 where
  pub output : Text
  pub error : Option GoError  -- `none` for Success
  pub state : Dict StateValue
  pub step_logs : List StepLog

-- NewLoopNode
unfoldable pub new_loop_node :
    {W : Type 0} → Text → Child W → Option (ℕ → Text → Exec (Shared W) Bool) → ℤ → Node W
new_loop_node id body test max_iter =
    loop_node id test body (if leb_ℤ max_iter (pos 0) then 10 else pos_part max_iter)

-- AddNode
unfoldable pub add_node : {W : Type 0} → Child W → WorkflowState W → WorkflowState W
add_node child w = record w { nodes = w.nodes ++ child ∷ [] }

-- Workflow.SetState
unfoldable pub set_state : {W : Type 0} → Text → StateValue → WorkflowState W → WorkflowState W
set_state key value w = record w { initial_state = insert key value w.initial_state }

-- Workflow.GetState
unfoldable pub get_state : {W : Type 0} → Text → WorkflowState W → Option StateValue
get_state key w = lookup key w.initial_state

-- State.Set, by which the functions of the user change what the nodes share.
unfoldable pub set_value : {W : Type 0} → Text → StateValue → Shared W → Shared W
set_value key value s = record s { state = insert key value s.state }
