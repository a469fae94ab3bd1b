-- ===== src/Tests/Workflows.antt =====
-- A Workflow of two steps and a loop, in a world that counts the runs of their Agents.
use tracklogic_agent.Workflow.{Node, loop_node}
use tracklogic_agent.Workflow.Scoped.{child_scope}
use tracklogic_agent.Common.{
  ℕ, ◌+◌, ◌≡◌, ◌↔◌, refl, Bool, true, Text, codes, List, [], ◌∷◌, ◌++◌, none, some, pos,
}
use tracklogic_agent.Types.{ok, err, eof}
use tracklogic_agent.Exec.{Exec, pure}
use tracklogic_agent.Workflow.{
  Shared, Surroundings, StepAgent, Step, step_node, new_loop_node, Child, present, WorkflowState,
}
use tracklogic_agent.Workflow.Scoped.{empty_tracker}
use tracklogic_agent.Workflow.Execute.{execute}
use tracklogic_agent.Workflow.Execute.Loop.{IsLoop, execute-IsLoop}
use tracklogic_agent.Workflow.Validate.{validate_task_mode, fits}
use tracklogic_agent.Workflow.Validate.TaskNodes.{IsTaskWorkflow, validate_task_mode-IsTaskWorkflow}
use tracklogic_agent.Workflow.Run.{run_nodes}
use tracklogic_agent.Workflow.Run.Logs.{IsLogged, run_nodes-IsLogged}
use tracklogic_agent.Workflow.Resume.{resume_rest}
use tracklogic_agent.Workflow.Resume.Agreement.{complete, run_nodes-resume_rest}

abbrev pits : Surroundings ℕ
pits = record {
  in_task = true;
  ctx_err = λ w. none;
  checkpoint = λ c w. (none, w);
  request_input = λ request c w. (err eof, w);
  error_text = λ e. [];
  itoa = λ n. n ∷ [];
  quote = λ t. t;
}

abbrev lapper : StepAgent ℕ
lapper = record {
  run = λ scope input s. (ok (input ++ codes "."), record s { world = s.world + 1 });
  resume = λ scope c input s. (ok input, record s { world = s.world + 1 });
}

abbrev lap_step : Text → Step ℕ
lap_step id = record { id = id; agent = some lapper; after_execute = none; input_state_key = [] }

abbrev always : ℕ → Text → Exec (Shared ℕ) Bool
always i input = pure true

abbrev laps : List (Child ℕ)
laps =
    present (step_node (lap_step (codes "out")))
    ∷ present (
        new_loop_node (codes "laps") (present (step_node (lap_step (codes "lap")))) (some always)
          (pos 3))
    ∷ present (step_node (lap_step (codes "in")))
    ∷ []

abbrev stint_flow : WorkflowState ℕ
stint_flow = record { name = codes "stint"; nodes = laps; initial_state = [] }

abbrev start_flow : Shared ℕ
start_flow = record { state = []; tracker = empty_tracker; world = 0 }

run_nodes-IsLogged_example :
    IsLogged pits
      (codes "stint")
      0
      laps
      (codes "go")
      start_flow
      []
      (run_nodes pits (codes "stint") 0 laps (codes "go") [] start_flow).0
run_nodes-IsLogged_example =
    run_nodes-IsLogged pits (codes "stint") 0 laps (codes "go") [] start_flow

run_nodes-resume_rest_example :
    run_nodes pits (codes "stint") 0 laps (codes "go") [] start_flow
    ≡ complete pits
        (codes "stint")
        3
        (resume_rest pits (codes "stint") 0 laps (codes "go") [] start_flow)
run_nodes-resume_rest_example =
    run_nodes-resume_rest pits (codes "stint") 0 laps (codes "go") [] start_flow (λ w. refl)

validate_task_mode-IsTaskWorkflow_example :
    (validate_task_mode pits stint_flow ≡ fits) ↔ IsTaskWorkflow stint_flow
validate_task_mode-IsTaskWorkflow_example = validate_task_mode-IsTaskWorkflow pits stint_flow

abbrev lap : Node ℕ
lap = step_node (lap_step (codes "lap"))

execute-IsLoop_example :
    IsLoop pits none
      (codes "laps")
      always
      (λ current. execute pits (child_scope none lap current) lap current)
      3
      0
      (codes "go")
      start_flow
      (execute pits none
        (loop_node (codes "laps") (some always) (present lap) 3)
        (codes "go")
        start_flow)
execute-IsLoop_example =
    execute-IsLoop pits none (codes "laps") always lap 3 (codes "go") start_flow
