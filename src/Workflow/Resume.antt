-- ===== src/Workflow/Resume.antt =====
-- workflow/workflow.go: Workflow.Resume and resumeWorkflowNode. ValidateTaskMode comes first, so that a
-- loop and a parallel node have no nil child here.
pub mod Agreement
use tracklogic_agent.Common.{
  ℕ, zero, suc, ◌+◌, ◌-◌, Bool, true, false, ltb, leb, ◌&&◌, ◌||◌, not, is_some, Text, codes,
  text_eq, is_empty, List, [], ◌∷◌, ◌++◌, Option, none, some, if◌then◌else◌, Dict, lookup, insert,
  length,
}
use tracklogic_agent.Types.{GoError, plain, wrapped, Result, ok, err}
use tracklogic_agent.Exec.{Exec, pure, raise, gets, update, lift, recover, require, ◌>>=◌, ◌>>◌}
use tracklogic_agent.Task.Protocol.{AgentCheckpoint, WorkflowCheckpoint, StateValue}
use tracklogic_agent.Workflow.{
  Tracker, Scope, Shared, Surroundings, StepAgent, Step, Saving, Custom, Node, step_node,
  condition_node, loop_node, parallel_node, custom_node, Child, missing, present, Children, done,
  next_child, node_id, join, WorkflowState, WorkflowResult, StepLog,
}
use tracklogic_agent.Workflow.Scoped.{child_scope, path_key, tracker_of}
use tracklogic_agent.Workflow.Execute.{execute, agent_input, after, part, labelled, step_error}
use tracklogic_agent.Workflow.Validate.{TaskCheck, fits, unfit, panics, validate_task_mode}
use tracklogic_agent.Workflow.Run.{ended, after_node, when_ready, mark, top_scope, log_of}

-- The Agent's checkpoint that was saved at the path of the step, or that of the whole checkpoint.
abbrev pub saved_agent : WorkflowCheckpoint → Option Scope → Option AgentCheckpoint
saved_agent c none = c.agent
saved_agent c (some scope) = elim (lookup (path_key scope) c.agents) [
  | none ↦ c.agent
  | some a ↦ some a
]

-- `len(path) == 0 || path[0] != id`
abbrev pub leads_to : Text → List Text → Bool
leads_to id [] = false
leads_to id (p ∷ path) = text_eq p id

abbrev pub tail : List Text → List Text
tail [] = []
tail (p ∷ path) = path

abbrev waits_on_call : Option AgentCheckpoint → Option AgentCheckpoint
waits_on_call none = none
waits_on_call (some a) = if is_some a.pending_tool_call then some a else none

-- The key under which the result of a parallel child is saved.
abbrev pub child_key : Option Scope → Text
child_key none = []
child_key (some scope) = path_key scope

module _ {W : Type 0} where
  abbrev resume_agent_of :
      Option Scope
      → Step W
      → Text
      → Text
      → StepAgent W
      → Option AgentCheckpoint
      → Exec (Shared W) Text
  resume_agent_of scope n tool input a none =
      raise (step_error n.id (codes " has no pending Agent checkpoint"))
  resume_agent_of scope n tool input a (some saved) = do
    output ← a.resume scope saved tool
    chosen ← gets (agent_input n input)
    update (after n.after_execute chosen output)
    pure output

  abbrev resume_known :
      WorkflowCheckpoint
      → Option Scope
      → Step W
      → Text
      → Text
      → Option (StepAgent W)
      → Exec (Shared W) Text
  resume_known c scope n tool input none = raise (step_error n.id (codes " has no agent"))
  resume_known c scope n tool input (some a) =
      resume_agent_of scope n tool input a (waits_on_call (saved_agent c scope))

  unfoldable pub resume_step :
      WorkflowCheckpoint → Option Scope → Step W → Text → Text → Exec (Shared W) Text
  resume_step c scope n tool input = resume_known c scope n tool input n.agent

  -- The iterations of a loop that is resumed: the tracker is not told of them.
  unfoldable pub iterate_on :
      Option (ℕ → Text → Exec (Shared W) Bool)
      → (Text → Exec (Shared W) Text)
      → ℕ
      → ℕ
      → Text
      → Exec (Shared W) Text
  iterate_on none body i n result = pure result
  iterate_on (some test) body i zero result = pure result
  iterate_on (some test) body i (suc n) result = do
    more ← test i result
    if more
        then (body result >>= λ next. iterate_on (some test) body (i + 1) n next)
        else pure result

  abbrev restore_data : Saving W → Option Text → Exec (Shared W) Unit
  restore_data saving none = pure tt
  restore_data saving (some data') = saving.restore data'

  abbrev resume_saving :
      WorkflowCheckpoint → Option Scope → Custom W → Text → Option (Saving W) → Exec (Shared W) Text
  resume_saving c scope n input none =
      raise (plain (codes "node " ++ (n.id ++ codes " is not resumable")))
  resume_saving c scope n input (some saving) =
      restore_data saving (lookup n.id c.node_data) >> n.run scope input

  unfoldable pub resume_custom :
      WorkflowCheckpoint → Option Scope → Custom W → Text → Exec (Shared W) Text
  resume_custom c scope n input = resume_saving c scope n input n.saving

  abbrev branch_of : WorkflowCheckpoint → Text → Exec (Shared W) Bool
  branch_of c id = elim (lookup id c.branches) [
    | none ↦ raise (plain (codes "condition " ++ (id ++ codes " branch is missing")))
    | some b ↦ pure b
  ]

  abbrev iteration_of : WorkflowCheckpoint → Text → Exec (Shared W) ℕ
  iteration_of c id = elim (lookup id c.loop_indexes) [
    | none ↦ raise (plain (codes "loop " ++ (id ++ codes " iteration is missing")))
    | some i ↦ pure i
  ]

  -- The line of a child in the output of a parallel node that is resumed.
  abbrev line_of : Surroundings W → Text → Exec (Shared W) Text → Exec (Shared W) Text
  line_of env id m =
      recover (m >>= λ output. pure (part env id (ok output))) (λ e. pure (part env id (err e)))

  -- A child that has its result is not run again; that on the path is resumed, the others are run.
  abbrev once :
      Option Text → Bool → Exec (Shared W) Text → Exec (Shared W) Text → Exec (Shared W) Text
  once (some output) waits resumed executed = pure output
  once none waits resumed executed = if waits then resumed else executed

abbrev wrong_path : {W : Type 0} → Surroundings W → Text → GoError
wrong_path env id = plain (codes "checkpoint path does not match node " ++ env.quote id)

abbrev on_path :
    {W : Type 0} → Surroundings W → Text → List Text → Exec (Shared W) Text → Exec (Shared W) Text
on_path env id path m = if leads_to id path then m else raise (wrong_path env id)

unfoldable mutual
  -- resumeWorkflowNode
  pub resume_node :
      {W : Type 0}
      → Surroundings W
      → WorkflowCheckpoint
      → Text
      → Option Scope
      → List Text
      → Node W
      → Text
      → Exec (Shared W) Text
  resume_node env c tool scope path (step_node n) input =
      on_path env n.id path (resume_step c scope n tool input)
  resume_node env c tool scope path (condition_node id test on_true on_false) input =
      on_path env id path (
        branch_of c id >>= λ selected.
        if selected
        then resume_child env c tool scope (tail path) on_true input
        else resume_child env c tool scope (tail path) on_false input)
  resume_node env c tool scope path (loop_node id test body n) input = on_path env id path (
      iteration_of c id >>= λ i. resume_child env c tool scope (tail path) body input >>= λ result.
      iterate_on test (execute_child env scope body) (i + 1) (n - (i + 1)) result)
  resume_node env c tool scope path (parallel_node id children) input =
      on_path env id path
        (resume_all env c tool scope path 0 children input >>= λ parts. pure (join (10 ∷ []) parts))
  resume_node env c tool scope path (custom_node n) input =
      on_path env n.id path (resume_custom c scope n input)

  pub resume_child :
      {W : Type 0}
      → Surroundings W
      → WorkflowCheckpoint
      → Text
      → Option Scope
      → List Text
      → Child W
      → Text
      → Exec (Shared W) Text
  resume_child env c tool scope path missing input = pure input
  resume_child env c tool scope path (present n) input =
      resume_node env c tool (child_scope scope n input) path n input

  pub execute_child :
      {W : Type 0} → Surroundings W → Option Scope → Child W → Text → Exec (Shared W) Text
  execute_child env scope missing current = pure current
  execute_child env scope (present n) current = execute env (child_scope scope n current) n current

  pub resume_all :
      {W : Type 0}
      → Surroundings W
      → WorkflowCheckpoint
      → Text
      → Option Scope
      → List Text
      → ℕ
      → Children W
      → Text
      → Exec (Shared W) (List Text)
  resume_all env c tool scope path i done input = pure []
  resume_all env c tool scope path i (next_child missing rest) input =
      resume_all env c tool scope path (i + 1) rest input >>= λ parts.
      pure (labelled (codes "child_" ++ env.itoa i) (codes "error: nil node") ∷ parts)
  resume_all env c tool scope path i (next_child (present n) rest) input =
      let inner = child_scope scope n input in
      line_of env (node_id n) (
        once (lookup (child_key inner) c.completed) (leads_to (node_id n) (tail path))
          (resume_node env c tool inner (tail path) n input) (execute env inner n input))
      >>= λ line.
          resume_all env c tool scope path (i + 1) rest input >>= λ parts. pure (line ∷ parts)

module _ {W : Type 0} (env : Surroundings W) where
  -- The nodes after the one that is resumed: the context is not looked at, and no checkpoint is made at
  -- the end.
  unfoldable pub resume_rest :
      Text → ℕ → List (Child W) → Text → List StepLog → Shared W → WorkflowResult × Shared W
  resume_rest name index [] current logs s = ended env current none logs s
  resume_rest name index (missing ∷ rest) current logs s =
      resume_rest name (index + 1) rest current logs s
  resume_rest name index (present n ∷ rest) current logs s =
      when_ready env current logs
        (λ t.
          after_node env n current logs (resume_rest name (index + 1) rest)
            (execute env (top_scope env name index current n) n current t))
        (mark env name (node_id n ∷ []) index current
          (codes "workflow checkpoint before node " ++ node_id n) s)

  abbrev resumed_node :
      Node W
      → Text
      → (Text → List StepLog → Shared W → WorkflowResult × Shared W)
      → Result Text × Shared W
      → WorkflowResult × Shared W
  resumed_node n current next (ok output, s) = next output (log_of n none ∷ []) s
  resumed_node n current next (err e, s) =
      ended env current (some (wrapped (codes "resume node " ++ node_id n) e))
        (log_of n (some e) ∷ []) s

  abbrev failed_before : W → GoError → WorkflowResult × W
  failed_before world e =
      (record { output = []; error = some e; state = []; step_logs = [] }, world)

  abbrev resume_flow : WorkflowCheckpoint → W → Shared W
  resume_flow c world = record { state = c.state; tracker = tracker_of c; world = world }

  -- Resume from the node at the checkpoint's position, which the first argument is counted down to.
  unfoldable pub resume_at :
      ℕ → List (Child W) → WorkflowState W → WorkflowCheckpoint → Text → W → WorkflowResult × W
  unfolding resume_node resume_rest
  resume_at n [] w c tool world =
      failed_before world (plain (codes "workflow checkpoint node position is invalid"))
  resume_at zero (missing ∷ rest) w c tool world =
      failed_before world (plain (codes "workflow checkpoint node position is invalid"))
  resume_at zero (present n ∷ rest) w c tool world =
      let (result, s) = resumed_node n c.current (resume_rest w.name (c.next_node + 1) rest) (
        resume_node env c tool (top_scope env w.name c.next_node c.current n) c.node_path n
          c.current (resume_flow c world)) in
      (result, s.world)
  resume_at (suc k) (child ∷ rest) w c tool world = resume_at k rest w c tool world

  abbrev resume_fitting : WorkflowState W → WorkflowCheckpoint → Text → W → WorkflowResult × W
  resume_fitting w c tool world =
      if not (text_eq c.workflow_id w.name)
      then failed_before world (
          plain (
            codes "workflow checkpoint "
            ++ (env.quote c.workflow_id ++ (codes " does not match " ++ env.quote w.name))))
      else if leb (length w.nodes) c.next_node || leb (length c.node_path) 0
      then failed_before world (plain (codes "workflow checkpoint node position is invalid"))
      else resume_at c.next_node w.nodes w c tool world

  abbrev resume_checked :
      WorkflowState W → WorkflowCheckpoint → Text → W → TaskCheck → Option (WorkflowResult × W)
  resume_checked w c tool world fits = some (resume_fitting w c tool world)
  resume_checked w c tool world (unfit e) = some (failed_before world e)
  resume_checked w c tool world panics = none

  -- Workflow.Resume; `none` where it panics.
  unfoldable pub resume_suspended :
      WorkflowState W → WorkflowCheckpoint → Text → W → Option (WorkflowResult × W)
  unfolding resume_at validate_task_mode
  resume_suspended w c tool world = resume_checked w c tool world (validate_task_mode env w)
