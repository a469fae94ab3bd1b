-- ===== src/Workflow/Resume/Agreement.antt =====
-- workflow/workflow.go: the rest of a run that is resumed, and the rest of a run that was not
-- interrupted.
use tracklogic_agent.Common.{
  ℕ, ◌+◌, ◌≡◌, refl, ap, ◌∙◌, Text, codes, List, [], ◌∷◌, ◌++◌, Option, none, some,
}
use tracklogic_agent.Types.{GoError, Result, ok, err, wrapped}
use tracklogic_agent.Exec.{gets, require, bind-ok}
use tracklogic_agent.Workflow.{
  Shared, Surroundings, Node, Child, missing, present, node_id, StepLog, WorkflowResult,
}
use tracklogic_agent.Workflow.Execute.{execute}
use tracklogic_agent.Workflow.Run.{
  run_nodes, before_node, mark, ended, after_node, when_ready, top_scope,
}
use tracklogic_agent.Workflow.Resume.{resume_rest}

module _ {W : Type 0} (env : Surroundings W) where
  abbrev last_index : ℕ → List (Child W) → ℕ
  last_index index [] = index
  last_index index (child ∷ rest) = last_index (index + 1) rest

  abbrev completed_by :
      Text → ℕ → WorkflowResult → Shared W → Option GoError → WorkflowResult × Shared W
  completed_by name last r s (some e) = (r, s)
  completed_by name last r s none =
      when_ready env r.output r.step_logs (ended env r.output none r.step_logs)
        (mark env name [] last r.output (codes "workflow final checkpoint") s)

  -- The final checkpoint, where the run has no error.
  abbrev pub complete : Text → ℕ → WorkflowResult × Shared W → WorkflowResult × Shared W
  complete name last (r, s) = completed_by name last r s r.error

  before_node-mark :
      (name : Text) (index : ℕ) (n : Node W) (current : Text) (s : Shared W)
      → env.ctx_err s.world ≡ none
      → before_node env name index n current s
        ≡ mark env name
            (node_id n ∷ [])
            index
            current
            (codes "workflow checkpoint before node " ++ node_id n)
            s
  unfolding before_node gets require
  before_node-mark name index n current s h =
      bind-ok (gets (λ t. env.ctx_err t.world)) _ none s s (ap (λ o. (ok o, s)) h)
      ∙ bind-ok (require none (λ e. wrapped (codes "workflow cancelled") e)) _ tt s s refl

  after-complete :
      (name : Text) (last : ℕ) (n : Node W) (current : Text) (logs : List StepLog)
      (f g : Text → List StepLog → Shared W → WorkflowResult × Shared W)
      (out : Result Text × Shared W)
      → ((output : Text) (more : List StepLog) (s : Shared W)
          → f output more s ≡ complete name last (g output more s))
      → after_node env n current logs f out
        ≡ complete name last (after_node env n current logs g out)
  after-complete name last n current logs f g (ok output, s) h = h output _ s
  after-complete name last n current logs f g (err e, s) h = refl

  ready-complete :
      (name : Text) (last : ℕ) (current : Text) (logs : List StepLog)
      (f g : Shared W → WorkflowResult × Shared W) (out : Result (Unit {0}) × Shared W)
      → ((s : Shared W) → f s ≡ complete name last (g s))
      → when_ready env current logs f out ≡ complete name last (when_ready env current logs g out)
  ready-complete name last current logs f g (ok tt, s) h = h s
  ready-complete name last current logs f g (err e, s) h = refl

  -- While the context is not cancelled, Run over some nodes does what Resume does over the nodes that are
  -- left to it, with the same output, error, logs, State and calls, and then makes the final
  -- checkpoint where there was no error, which Resume leaves out.
  pub run_nodes-resume_rest :
      (name : Text) (index : ℕ) (nodes : List (Child W)) (current : Text) (logs : List StepLog)
      (s : Shared W)
      → ((w : W) → env.ctx_err w ≡ none)
      → run_nodes env name index nodes current logs s
        ≡ complete name (last_index index nodes) (resume_rest env name index nodes current logs s)
  unfolding run_nodes resume_rest
  run_nodes-resume_rest name index [] current logs s alive = refl
  run_nodes-resume_rest name index (missing ∷ rest) current logs s alive =
      run_nodes-resume_rest name (index + 1) rest current logs s alive
  run_nodes-resume_rest name index (present n ∷ rest) current logs s alive =
      let last = last_index (index + 1) rest in
      ap (when_ready env current logs _) (before_node-mark name index n current s (alive s.world))
      ∙ ready-complete name last current logs _ _ _ (λ t.
        after-complete name last n current logs (run_nodes env name (index + 1) rest)
          (resume_rest env name (index + 1) rest)
          (execute env (top_scope env name index current n) n current t)
          (λ output more u. run_nodes-resume_rest name (index + 1) rest output more u alive))
