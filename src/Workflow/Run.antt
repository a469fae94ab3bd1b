-- ===== src/Workflow/Run.antt =====
-- workflow/workflow.go: Workflow.Run. Validate refuses a nil node, so that the loop only meets nodes
-- that are there.
pub mod Logs
use tracklogic_agent.Common.{
  ℕ, ◌+◌, Bool, true, false, Text, codes, List, [], ◌∷◌, ◌++◌, Option, none, some, if◌then◌else◌,
  Dict, insert, length,
}
use tracklogic_agent.Types.{GoError, wrapped, Result, ok, err}
use tracklogic_agent.Exec.{Exec, pure, recover, raise, require, gets, ◌>>=◌, ◌>>◌}
use tracklogic_agent.Task.Protocol.{StateValue, text}
use tracklogic_agent.Workflow.{
  Tracker, Scope, Shared, Surroundings, Node, Child, missing, present, node_id, node_type,
  WorkflowState, StepLog, WorkflowResult,
}
use tracklogic_agent.Workflow.Scoped.{delegate, empty_tracker, plain_checkpoint, position}
use tracklogic_agent.Workflow.Execute.{execute}
use tracklogic_agent.Workflow.Validate.{validate_workflow}

abbrev pub log_of : {W : Type 0} → Node W → Option GoError → StepLog
log_of n e = record { node_id = node_id n; node_type = node_type n; error = e }

abbrev pub node_failed : Text → GoError → GoError
node_failed id e = wrapped (codes "node " ++ (id ++ codes " failed")) e

module _ {W : Type 0} (env : Surroundings W) where
  -- How a run ends: the state is that of the Shared.
  abbrev pub ended : Text → Option GoError → List StepLog → Shared W → WorkflowResult × Shared W
  ended output e logs s =
      (record { output = output; error = e; state = s.state; step_logs = logs }, s)

  -- A checkpoint of the Workflow itself, in Task mode.
  abbrev pub mark : Text → List Text → ℕ → Text → Text → Exec (Shared W) Unit
  mark name path index current what s =
      if env.in_task
      then recover
          (delegate env (plain_checkpoint name (some (position name path index current s.state))))
          (λ e. raise (wrapped what e)) s
      else (ok tt, s)

  -- What comes before the node `index`, when the context is still alive.
  unfoldable pub before_node : Text → ℕ → Node W → Text → Exec (Shared W) Unit
  before_node name index n current = do
    stop ← gets (λ s. env.ctx_err s.world)
    require stop (λ e. wrapped (codes "workflow cancelled") e)
    mark name (node_id n ∷ []) index current (codes "workflow checkpoint before node " ++ node_id n)

  -- withWorkflowScope
  abbrev pub top_scope : Text → ℕ → Text → Node W → Option Scope
  top_scope name index current n =
      if env.in_task
      then some (record { id = name; next = index; current = current; path = node_id n ∷ [] })
      else none

  abbrev pub after_node :
      Node W
      → Text
      → List StepLog
      → (Text → List StepLog → Shared W → WorkflowResult × Shared W)
      → Result Text × Shared W
      → WorkflowResult × Shared W
  after_node n current logs next (ok output, s) = next output (logs ++ log_of n none ∷ []) s
  after_node n current logs next (err e, s) =
      ended current (some (node_failed (node_id n) e)) (logs ++ log_of n (some e) ∷ []) s

  abbrev pub when_ready :
      Text
      → List StepLog
      → (Shared W → WorkflowResult × Shared W)
      → Result (Unit {0}) × Shared W
      → WorkflowResult × Shared W
  when_ready current logs next (ok tt, s) = next s
  when_ready current logs next (err e, s) = ended current (some e) logs s

  -- The loop of Run from the node `index` on.
  unfoldable pub run_nodes :
      Text → ℕ → List (Child W) → Text → List StepLog → Shared W → WorkflowResult × Shared W
  unfolding before_node
  run_nodes name index [] current logs s =
      when_ready current logs (ended current none logs)
        (mark name [] index current (codes "workflow final checkpoint") s)
  run_nodes name index (missing ∷ rest) current logs s =
      run_nodes name (index + 1) rest current logs s
  run_nodes name index (present n ∷ rest) current logs s =
      when_ready current logs
        (λ t.
          after_node n current logs (run_nodes name (index + 1) rest)
            (execute env (top_scope name index current n) n current t))
        (before_node name index n current s)

  abbrev execute_valid : WorkflowState W → Text → W → Option GoError → WorkflowResult × W
  execute_valid w input world (some e) =
      (record { output = []; error = some e; state = []; step_logs = [] }, world)
  execute_valid w input world none =
      let (result, s) = run_nodes w.name 0 w.nodes input [] (record {
        state = insert (codes "user_input") (text input) w.initial_state;
        tracker = empty_tracker;
        world = world;
      }) in
      (result, s.world)

  -- Workflow.Run
  unfoldable pub execute_workflow : WorkflowState W → Text → W → WorkflowResult × W
  unfolding run_nodes validate_workflow
  execute_workflow w input world = execute_valid w input world (validate_workflow env w)
