-- ===== src/Workflow/Validate/TaskNodes.antt =====
-- workflow/workflow.go: which Workflows Validate and ValidateTaskMode accept.
use tracklogic_agent.Common.{
  ℕ, ◌+◌, ◌≡◌, ◌≢◌, refl, ◌↔◌, Bool, true, false, ◌||◌, not, Text, text_eq, text_eq_iff, trim_space,
  is_empty, List, [], ◌∷◌, Option, none, some, if◌then◌else◌, All,
}
use tracklogic_agent.Types.{GoError}
use tracklogic_agent.Interaction.{member}
use tracklogic_agent.Interaction.Checks.{
  is_empty-nil, member-Avoids, Avoids, Distinct, All-×, all_Avoids-nil,
}
use tracklogic_agent.Workflow.{
  Surroundings, StepAgent, Saving, Node, step_node, condition_node, loop_node, parallel_node,
  custom_node, Child, missing, present, Children, done, next_child, node_id, WorkflowState,
}
use tracklogic_agent.Workflow.Validate.{
  check_nodes, validate_workflow, TaskCheck, fits, unfit, panics, ◌then_check◌, validate_task_node,
  validate_branch, validate_child, validate_children, validate_all, in_workflow, valid_in_task,
  check_agent, check_custom, validate_task_mode,
}

-- A Node that Task mode can suspend and resume: its steps have Agents, its loops bodies, its parallel
-- nodes no nil child, and its nodes of the user's own can be saved.
unfoldable mutual
  pub IsTaskNode : {W : Type 0} → Node W → Type 0
  IsTaskNode (step_node n) = n.agent ≢ none
  IsTaskNode (condition_node id test on_true on_false) =
      IsTaskBranch on_true × IsTaskBranch on_false
  IsTaskNode (loop_node id test body n) = IsTaskChild body
  IsTaskNode (parallel_node id children) = AreTaskChildren children
  IsTaskNode (custom_node n) = n.saving ≢ none

  pub IsTaskBranch : {W : Type 0} → Child W → Type 0
  IsTaskBranch missing = Unit
  IsTaskBranch (present n) = IsTaskNode n

  pub IsTaskChild : {W : Type 0} → Child W → Type 0
  IsTaskChild missing = ⊥
  IsTaskChild (present n) = IsTaskNode n

  pub AreTaskChildren : {W : Type 0} → Children W → Type 0
  AreTaskChildren done = Unit
  AreTaskChildren (next_child child rest) = IsTaskChild child × AreTaskChildren rest

then_check-fits : (a b : TaskCheck) → ((a then_check b) ≡ fits) ↔ ((a ≡ fits) × (b ≡ fits))
then_check-fits fits b = (λ h. (refl, h), λ h. h.1)
then_check-fits (unfit e) b = (λ h. cc h, λ h. cc h.0)
then_check-fits panics b = (λ h. cc h, λ h. cc h.0)

agent-fits :
    {W : Type 0} (env : Surroundings W) (id : Text) (o : Option (StepAgent W))
    → (check_agent env id o ≡ fits) ↔ (o ≢ none)
agent-fits env id none = (λ h. cc h, λ h. absurd (h refl))
agent-fits env id (some a) = (λ h e. cc e, λ h. refl)

saving-fits :
    {W : Type 0} (env : Surroundings W) (id : Text) (o : Option (Saving W))
    → (check_custom env id o ≡ fits) ↔ (o ≢ none)
saving-fits env id none = (λ h. cc h, λ h. absurd (h refl))
saving-fits env id (some saving) = (λ h e. cc e, λ h. refl)

mutual
  unfolding validate_task_node IsTaskNode

  node-fits :
      {W : Type 0} (env : Surroundings W) (n : Node W)
      → (validate_task_node env n ≡ fits) ↔ IsTaskNode n
  node-fits env (step_node n) = agent-fits env n.id n.agent
  node-fits env (condition_node id test on_true on_false) =
      let both = then_check-fits (validate_branch env on_true) (validate_branch env on_false) in
      let first = branch-fits env on_true in
      let second = branch-fits env on_false in
      (λ h. (first.0 (both.0 h).0, second.0 (both.0 h).1), λ h. both.1 (first.1 h.0, second.1 h.1))
  node-fits env (loop_node id test body n) = child-fits env body
  node-fits env (parallel_node id children) = children-fits env children
  node-fits env (custom_node n) = saving-fits env n.id n.saving

  branch-fits :
      {W : Type 0} (env : Surroundings W) (c : Child W)
      → (validate_branch env c ≡ fits) ↔ IsTaskBranch c
  branch-fits env missing = (λ h. tt, λ h. refl)
  branch-fits env (present n) = node-fits env n

  child-fits :
      {W : Type 0} (env : Surroundings W) (c : Child W)
      → (validate_child env c ≡ fits) ↔ IsTaskChild c
  child-fits env missing = (λ h. cc h, λ h. absurd h)
  child-fits env (present n) = node-fits env n

  children-fits :
      {W : Type 0} (env : Surroundings W) (cs : Children W)
      → (validate_children env cs ≡ fits) ↔ AreTaskChildren cs
  children-fits env done = (λ h. tt, λ h. refl)
  children-fits env (next_child child rest) =
      let both = then_check-fits (validate_child env child) (validate_children env rest) in
      let first = child-fits env child in
      let second = children-fits env rest in
      (λ h. (first.0 (both.0 h).0, second.0 (both.0 h).1), λ h. both.1 (first.1 h.0, second.1 h.1))

-- A list of nodes that are all there, with identifiers that are not empty, differ, and are not `seen`.
abbrev pub IsPresent : {W : Type 0} → Child W → Type 0
IsPresent missing = ⊥
IsPresent (present n) = Unit

abbrev pub node_ids : {W : Type 0} → List (Child W) → List Text
node_ids [] = []
node_ids (missing ∷ rest) = node_ids rest
node_ids (present n ∷ rest) = node_id n ∷ node_ids rest

abbrev AreNamed : {W : Type 0} → List Text → List (Child W) → Type 0
AreNamed seen nodes =
    All IsPresent nodes
    × All (λ t. t ≢ []) (node_ids nodes)
    × Distinct (node_ids nodes)
    × All (Avoids seen) (node_ids nodes)

two_tests :
    (a b : Bool) (e f : GoError) (rest : Option GoError)
    → ((if a then some e else if b then some f else rest) ≡ none)
      ↔ ((a ≡ false) × (b ≡ false) × (rest ≡ none))
two_tests true b e f rest = (λ h. cc h, λ h. cc h.0)
two_tests false true e f rest = (λ h. cc h, λ h. cc h.1)
two_tests false false e f rest = (λ h. (refl, refl, h), λ h. h.2)

name_tests :
    (a b : Bool) (e : GoError) (rest : Option GoError)
    → ((if a || not b then some e else rest) ≡ none) ↔ ((a ≡ false) × (b ≡ true) × (rest ≡ none))
name_tests true b e rest = (λ h. cc h, λ h. cc h.0)
name_tests false false e rest = (λ h. cc h, λ h. cc h.1)
name_tests false true e rest = (λ h. (refl, refl, h), λ h. h.2)

check_nodes-none :
    {W : Type 0} (env : Surroundings W) (name : Text) (i : ℕ) (seen : List Text)
    (nodes : List (Child W))
    → (check_nodes env name i seen nodes ≡ none) ↔ AreNamed seen nodes
unfolding check_nodes
check_nodes-none env name i seen [] = (λ h. (tt, tt, tt, tt), λ h. refl)
check_nodes-none env name i seen (missing ∷ rest) = (λ h. cc h, λ h. absurd h.0.0)
check_nodes-none env name i seen (present n ∷ rest) =
    let id = node_id n in
    let step =
      two_tests (is_empty id) (member id seen) _ _
        (check_nodes env name (i + 1) (id ∷ seen) rest) in
    let ih = check_nodes-none env name (i + 1) (id ∷ seen) rest in
    let both = All-× (λ u. id ≢ u) (Avoids seen) (node_ids rest) in
    (
      λ h.
          let (full, new, more) = step.0 h in
          let (p, f, d, v) = ih.0 more in
          let (apart, old) = both.0 v in
          (
            (tt, p),
            ((is_empty-nil id).0 full, f),
            (apart, d),
            ((member-Avoids id seen).0 new, old),
          ),
      λ h. step.1 (
        (is_empty-nil id).1 h.1.0,
        (member-Avoids id seen).1 h.3.0,
        ih.1 (h.0.1, h.1.1, h.2.1, both.1 (h.2.0, h.3.1)),
      ),
    )

-- A Workflow that can run in Task mode.
pub record IsTaskWorkflow {W : Type 0} (w : WorkflowState W) : Type 0 where
  pub named : w.name ≢ []
  pub trimmed : w.name ≡ trim_space w.name
  pub all_there : All IsPresent w.nodes
  pub identified : All (λ t. t ≢ []) (node_ids w.nodes)
  pub distinct : Distinct (node_ids w.nodes)
  pub resumable : All IsTaskChild w.nodes

module _ {W : Type 0} (env : Surroundings W) where
  in_workflow-fits : (name : Text) (c : TaskCheck) → (in_workflow env name c ≡ fits) ↔ (c ≡ fits)
  in_workflow-fits name fits = (λ h. refl, λ h. refl)
  in_workflow-fits name (unfit e) = (λ h. cc h, λ h. cc h)
  in_workflow-fits name panics = (λ h. cc h, λ h. cc h)

  validate_all-fits :
      (name : Text) (nodes : List (Child W))
      → (validate_all env name nodes ≡ fits) ↔ All IsTaskChild nodes
  validate_all-fits name [] = (λ h. tt, λ h. refl)
  validate_all-fits name (child ∷ rest) =
      let both =
        then_check-fits (in_workflow env name (validate_child env child))
          (validate_all env name rest) in
      let inside = in_workflow-fits name (validate_child env child) in
      let first = child-fits env child in
      let second = validate_all-fits name rest in
      (
        λ h. (first.0 (inside.0 (both.0 h).0), second.0 (both.0 h).1),
        λ h. both.1 (inside.1 (first.1 h.0), second.1 h.1),
      )

  validate_workflow-none :
      (w : WorkflowState W)
      → (validate_workflow env w ≡ none)
        ↔ ((w.name ≢ []) × (w.name ≡ trim_space w.name) × AreNamed [] w.nodes)
  unfolding validate_workflow
  validate_workflow-none w =
      let step =
        name_tests (is_empty w.name) (text_eq w.name (trim_space w.name)) _
          (check_nodes env w.name 0 [] w.nodes) in
      let full = is_empty-nil w.name in
      let same = text_eq_iff w.name (trim_space w.name) in
      let nodes = check_nodes-none env w.name 0 [] w.nodes in
      (
        λ h. let (a, b, rest) = step.0 h in (full.0 a, same.0 b, nodes.0 rest),
        λ h. step.1 (full.1 h.0, same.1 h.1, nodes.1 h.2),
      )

  valid_in_task-fits :
      (w : WorkflowState W) (o : Option GoError)
      → (valid_in_task env w o ≡ fits) ↔ ((o ≡ none) × All IsTaskChild w.nodes)
  valid_in_task-fits w none =
      let all = validate_all-fits w.name w.nodes in (λ h. (refl, all.0 h), λ h. all.1 h.1)
  valid_in_task-fits w (some e) = (λ h. cc h, λ h. cc h.0)

  -- ValidateTaskMode accepts a Workflow exactly when its name is not empty and has no blanks around
  -- it, its nodes are there with identifiers that are not empty and differ, and at every depth its
  -- steps have Agents, its loops bodies, its parallel nodes no nil child, and the nodes of the user's
  -- own can be saved.
  pub validate_task_mode-IsTaskWorkflow :
      (w : WorkflowState W) → (validate_task_mode env w ≡ fits) ↔ IsTaskWorkflow w
  unfolding validate_task_mode
  validate_task_mode-IsTaskWorkflow w =
      let mode = valid_in_task-fits w (validate_workflow env w) in
      let names = validate_workflow-none w in
      (
        λ h.
            let (valid, resumable) = mode.0 h in
            let (named, trimmed, (p, f, d, v)) = names.0 valid in
            record {
              named = named;
              trimmed = trimmed;
              all_there = p;
              identified = f;
              distinct = d;
              resumable = resumable;
            },
        λ (v : IsTaskWorkflow w). mode.1 (
          names.1 (
            v.named,
            v.trimmed,
            (v.all_there, v.identified, v.distinct, all_Avoids-nil (node_ids w.nodes)),
          ),
          v.resumable,
        ),
      )
