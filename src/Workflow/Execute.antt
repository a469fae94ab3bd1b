-- ===== src/Workflow/Execute.antt =====
-- workflow/workflow.go: executing a Node, which is executeWorkflowNode with the Execute of the node's
-- type. The children of a ParallelNode run one after the other here, each to its end, which is one
-- of the orders in which their goroutines may run.
pub mod Loop
use tracklogic_agent.Common.{
  ℕ, zero, suc, ◌+◌, Bool, true, false, Text, codes, is_empty, List, [], ◌∷◌, ◌++◌, Option, none,
  some, if◌then◌else◌, Dict, lookup, insert,
}
use tracklogic_agent.Types.{GoError, plain, wrapped, Result, ok, err}
use tracklogic_agent.Exec.{Exec, pure, raise, gets, update, lift, recover, require, ◌>>=◌, ◌>>◌}
use tracklogic_agent.Task.Protocol.{StateValue, text, other}
use tracklogic_agent.Workflow.{
  Tracker, Scope, Shared, Surroundings, StepAgent, Step, Saving, Custom, Node, step_node,
  condition_node, loop_node, parallel_node, custom_node, Child, missing, present, Children, done,
  next_child, node_id, join,
}
use tracklogic_agent.Workflow.Scoped.{child_scope, path_key, noted, track, checkpoint_state}

-- A value of the State that is a text and not empty.
abbrev pub text_or : Text → Option StateValue → Text
text_or input (some (text t)) = if is_empty t then input else t
text_or input _ = input

abbrev pub step_error : Text → Text → GoError
step_error id what = plain (codes "step " ++ (id ++ what))

abbrev pub labelled : Text → Text → Text
labelled id output = codes "[" ++ (id ++ (codes "] " ++ output))

module _ {W : Type 0} where
  -- The input of a step: that of the run, or what the State has under its key.
  abbrev pub agent_input : Step W → Text → Shared W → Text
  agent_input n input s =
      if is_empty n.input_state_key then input else text_or input (lookup n.input_state_key s.state)

  abbrev pub after : Option (Text → Text → Shared W → Shared W) → Text → Text → Shared W → Shared W
  after none input output s = s
  after (some f) input output s = f input output s

  abbrev run_agent : Option Scope → Step W → Text → Option (StepAgent W) → Exec (Shared W) Text
  run_agent scope n input none = raise (step_error n.id (codes " has no agent"))
  run_agent scope n input (some a) = do
    chosen ← gets (agent_input n input)
    output ←
        recover (a.run scope chosen)
          (λ e. raise (wrapped (codes "step " ++ (n.id ++ codes " failed")) e))
    update (after n.after_execute chosen output)
    pure output

  -- StepNode.Execute
  unfoldable pub run_step : Option Scope → Step W → Text → Exec (Shared W) Text
  run_step scope n input = run_agent scope n input n.agent

  -- The loop of LoopNode.Execute from the iteration `i` on, with `n` iterations left.
  unfoldable pub iterate :
      Surroundings W
      → Option Scope
      → Text
      → (ℕ → Text → Exec (Shared W) Bool)
      → (Text → Exec (Shared W) Text)
      → ℕ
      → ℕ
      → Text
      → Exec (Shared W) Text
  iterate env scope id test body i zero current = pure current
  iterate env scope id test body i (suc n) current = do
    stop ← gets (λ s. env.ctx_err s.world)
    require stop (λ e. e)
    more ← test i current
    if more
        then (noted scope (λ k. record k { loops = insert id i k.loops })
            >> (body current >>= λ result. iterate env scope id test body (i + 1) n result))
        else pure current

  abbrev pub run_loop :
      Surroundings W
      → Option Scope
      → Text
      → ℕ
      → Option (ℕ → Text → Exec (Shared W) Bool)
      → Option (Text → Exec (Shared W) Text)
      → Text
      → Exec (Shared W) Text
  run_loop env scope id n none body input =
      raise (plain (codes "loop " ++ (id ++ codes " has no condition")))
  run_loop env scope id n (some test) none input =
      raise (plain (codes "loop " ++ (id ++ codes " has no body")))
  run_loop env scope id n (some test) (some body) input = iterate env scope id test body 0 n input

  -- The predicate of a ConditionNode, with the branch noted.
  abbrev pub decide :
      Option Scope → Text → Text → Option (Text → Exec (Shared W) Bool) → Exec (Shared W) Bool
  decide scope id input none =
      raise (plain (codes "condition " ++ (id ++ codes " has no predicate")))
  decide scope id input (some test) = do
    result ←
        recover (test input) (λ e. raise (wrapped (codes "condition " ++ (id ++ codes " error")) e))
    noted scope (λ k. record k { branches = insert id result k.branches })
    pure result

  -- Saving of a CheckpointableNode before it runs.
  abbrev note_data : Surroundings W → Text → Text → Option Scope → Exec (Shared W) Unit
  note_data env id data' none = pure tt
  note_data env id data' (some scope) =
      update (track (λ k. record k { node_data = insert id data' k.node_data }))
      >> checkpoint_state env scope

  abbrev save_node :
      Surroundings W → Option Scope → Text → Text → Option (Saving W) → Exec (Shared W) Unit
  save_node env scope id input none = pure tt
  save_node env scope id input (some saving) = do
    data' ←
        recover (saving.save input)
          (λ e. raise (wrapped (codes "save custom node " ++ (id ++ codes " checkpoint")) e))
    note_data env id data' scope

  unfoldable pub run_custom : Surroundings W → Option Scope → Custom W → Text → Exec (Shared W) Text
  run_custom env scope c input = do save_node env scope c.id input c.saving; c.run scope input

  -- The line of one child in the output of a ParallelNode.
  abbrev pub part : Surroundings W → Text → Result Text → Text
  part env id (ok output) = labelled id output
  part env id (err e) = labelled id (codes "error: " ++ env.error_text e)

  abbrev checkpoint_child : Surroundings W → Option Scope → Text → Exec (Shared W) Unit
  checkpoint_child env none output = pure tt
  checkpoint_child env (some scope) output =
      update (track (λ k. record k { completed = insert (path_key scope) output k.completed }))
      >> recover (checkpoint_state env scope) (λ e. pure tt)

  -- One goroutine of a ParallelNode: it never fails.
  abbrev pub run_child :
      Surroundings W → Text → Option Scope → Exec (Shared W) Text → Exec (Shared W) Text
  run_child env id scope m =
      recover (m >>= λ output. checkpoint_child env scope output >> pure (part env id (ok output)))
        (λ e. pure (part env id (err e)))

  abbrev child_number : Surroundings W → ℕ → Text
  child_number env i = codes "child_" ++ env.itoa i

  abbrev pub nil_child : Surroundings W → Text → ℕ → Text
  nil_child env id i = labelled (child_number env i) (
      codes "error: parallel node " ++ (id ++ (codes " child " ++ (env.itoa i ++ codes " is nil"))))

unfoldable mutual
  -- executeWorkflowNode
  pub execute : {W : Type 0} → Surroundings W → Option Scope → Node W → Text → Exec (Shared W) Text
  execute env scope (step_node n) input = run_step scope n input
  execute env scope (condition_node id test on_true on_false) input =
      decide scope id input test >>= λ result.
      if result
      then execute_branch env scope on_true input
      else execute_branch env scope on_false input
  execute env scope (loop_node id test body n) input =
      run_loop env scope id n test (execute_body env scope body) input
  execute env scope (parallel_node id children) input =
      execute_all env scope id 0 children input >>= λ parts. pure (join (10 ∷ []) parts)
  execute env scope (custom_node c) input = run_custom env scope c input

  pub execute_branch :
      {W : Type 0} → Surroundings W → Option Scope → Child W → Text → Exec (Shared W) Text
  execute_branch env scope missing input = pure input
  execute_branch env scope (present n) input = execute env (child_scope scope n input) n input

  pub execute_body :
      {W : Type 0} → Surroundings W → Option Scope → Child W → Option (Text → Exec (Shared W) Text)
  execute_body env scope missing = none
  execute_body env scope (present n) =
      some (λ current. execute env (child_scope scope n current) n current)

  pub execute_all :
      {W : Type 0}
      → Surroundings W
      → Option Scope
      → Text
      → ℕ
      → Children W
      → Text
      → Exec (Shared W) (List Text)
  execute_all env scope id i done input = pure []
  execute_all env scope id i (next_child missing rest) input =
      execute_all env scope id (i + 1) rest input >>= λ parts. pure (nil_child env id i ∷ parts)
  execute_all env scope id i (next_child (present n) rest) input =
      run_child env (node_id n) (child_scope scope n input)
        (execute env (child_scope scope n input) n input)
      >>= λ line. execute_all env scope id (i + 1) rest input >>= λ parts. pure (line ∷ parts)
