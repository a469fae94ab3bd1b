-- ===== src/Workflow/Validate.antt =====
-- workflow/workflow.go: Workflow.Validate and ValidateTaskMode.
pub mod TaskNodes
use tracklogic_agent.Common.{
  ℕ, ◌+◌, ◌≡◌, refl, ◌↔◌, Bool, true, false, ◌||◌, not, Text, codes, text_eq, trim_space, is_empty,
  List, [], ◌∷◌, ◌++◌, Option, none, some, is_some, if◌then◌else◌,
}
use tracklogic_agent.Types.{GoError, plain, wrapped}
use tracklogic_agent.Interaction.{member}
use tracklogic_agent.Workflow.{
  Surroundings, StepAgent, Step, Saving, Custom, Node, step_node, condition_node, loop_node,
  parallel_node, custom_node, Child, missing, present, Children, done, next_child, node_id,
  WorkflowState,
}
use tracklogic_agent.Workflow.Execute.{step_error}

module _ {W : Type 0} (env : Surroundings W) where
  abbrev node_error : Text → ℕ → Text → GoError
  node_error name i what =
      plain (codes "workflow " ++ (env.quote name ++ (codes " node " ++ (env.itoa i ++ what))))

  abbrev duplicate_id : Text → Text → GoError
  duplicate_id name id =
      plain
        (codes "workflow " ++ (env.quote name ++ (codes " has duplicate node id " ++ env.quote id)))

  -- The loop of Validate from the node `i` on, with the identifiers seen.
  unfoldable pub check_nodes : Text → ℕ → List Text → List (Child W) → Option GoError
  check_nodes name i seen [] = none
  check_nodes name i seen (missing ∷ rest) = some (node_error name i (codes " is nil"))
  check_nodes name i seen (present n ∷ rest) =
      let more = check_nodes name (i + 1) (node_id n ∷ seen) rest in
      if is_empty (node_id n)
      then some (node_error name i (codes " has no id"))
      else if member (node_id n) seen
      then some (duplicate_id name (node_id n))
      else more

  -- Workflow.Validate
  unfoldable pub validate_workflow : WorkflowState W → Option GoError
  unfolding check_nodes
  validate_workflow w =
      if is_empty w.name || not (text_eq w.name (trim_space w.name))
      then some
          (plain (codes "workflow name must be non-empty and must not have surrounding whitespace"))
      else check_nodes w.name 0 [] w.nodes

-- What validateTaskNode does with a Node: a nil Node has no methods to call, so that it panics.
pub data TaskCheck : Type 0 where
  fits : TaskCheck
  unfit : GoError → TaskCheck
  panics : TaskCheck

infixl 5 ◌then_check◌
abbrev pub ◌then_check◌ : TaskCheck → TaskCheck → TaskCheck
fits then_check next = next
unfit e then_check next = unfit e
panics then_check next = panics

module _ {W : Type 0} (env : Surroundings W) where
  abbrev pub check_custom : Text → Option (Saving W) → TaskCheck
  check_custom id (some saving) = fits
  check_custom id none = unfit (
      plain (
        codes "custom node "
        ++ (env.quote id ++ codes " must implement workflow.CheckpointableNode in Task mode")))

  abbrev pub check_agent : Text → Option (StepAgent W) → TaskCheck
  check_agent id (some a) = fits
  check_agent id none = unfit (step_error id (codes " has no agent"))

unfoldable mutual
  -- validateTaskNode
  pub validate_task_node : {W : Type 0} → Surroundings W → Node W → TaskCheck
  validate_task_node env (step_node n) = check_agent env n.id n.agent
  validate_task_node env (condition_node id test on_true on_false) =
      validate_branch env on_true then_check validate_branch env on_false
  validate_task_node env (loop_node id test body n) = validate_child env body
  validate_task_node env (parallel_node id children) = validate_children env children
  validate_task_node env (custom_node c) = check_custom env c.id c.saving

  -- A branch of a ConditionNode, which may be nil.
  pub validate_branch : {W : Type 0} → Surroundings W → Child W → TaskCheck
  validate_branch env missing = fits
  validate_branch env (present n) = validate_task_node env n

  pub validate_child : {W : Type 0} → Surroundings W → Child W → TaskCheck
  validate_child env missing = panics
  validate_child env (present n) = validate_task_node env n

  pub validate_children : {W : Type 0} → Surroundings W → Children W → TaskCheck
  validate_children env done = fits
  validate_children env (next_child child rest) =
      validate_child env child then_check validate_children env rest

module _ {W : Type 0} (env : Surroundings W) where
  abbrev pub in_workflow : Text → TaskCheck → TaskCheck
  in_workflow name (unfit e) = unfit (wrapped (codes "workflow " ++ env.quote name) e)
  in_workflow name c = c

  abbrev pub validate_all : Text → List (Child W) → TaskCheck
  validate_all name [] = fits
  validate_all name (child ∷ rest) =
      in_workflow name (validate_child env child) then_check validate_all name rest

  abbrev pub valid_in_task : WorkflowState W → Option GoError → TaskCheck
  valid_in_task w (some e) = unfit e
  valid_in_task w none = validate_all w.name w.nodes

  -- Workflow.ValidateTaskMode
  unfoldable pub validate_task_mode : WorkflowState W → TaskCheck
  unfolding validate_workflow
  validate_task_mode w = valid_in_task w (validate_workflow env w)
