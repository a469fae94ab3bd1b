-- ===== src/Team/Run.antt =====
-- workflow/team.go: Team.Run in its three modes. Validate refuses a nil Agent and a Team without
-- Agents, so that the modes go over Agents that are there. The goroutines of the parallel mode run one
-- after the other, in the order of the Agents.
use tracklogic_agent.Common.{
  ℕ, ◌+◌, Text, codes, text_eq, List, [], ◌∷◌, ◌++◌, Option, none, some, if◌then◌else◌, Dict,
  lookup, insert, length, keys,
}
use tracklogic_agent.Types.{GoError, plain, wrapped, Result, ok, err}
use tracklogic_agent.Engine.Agent.{RunOutput}
use tracklogic_agent.ToolLayer.Registry.{sort_texts}
use tracklogic_agent.Workflow.{join}
use tracklogic_agent.Team.{
  TeamMode, sequential, parallel, leader_follower, unknown, TeamAgent, TeamState, TeamOutput,
  TeamEnvironment, members, validate_team, emit_checkpoint,
}

abbrev pub content_of : Option RunOutput → Text
content_of none = []
content_of (some output) = output.content

abbrev pub failed_agent : Text → Text → GoError → GoError
failed_agent role name cause = wrapped (role ++ (codes " " ++ (name ++ codes " failed"))) cause

-- The name of the last Agent.
abbrev pub last_name : {W : Type 0} → List (TeamAgent W) → Text
last_name [] = []
last_name (a ∷ []) = a.name
last_name (a ∷ b ∷ rest) = last_name (b ∷ rest)

-- The line of one Agent in the output of the parallel mode.
abbrev pub titled : Text → Text → Text
titled name content = codes "**" ++ (name ++ (codes "**: " ++ content))

abbrev parts_of : {W : Type 0} → Dict RunOutput → List (TeamAgent W) → List Text
parts_of outputs [] = []
parts_of outputs (a ∷ rest) = elim (lookup a.name outputs) [
  | none ↦ parts_of outputs rest
  | some output ↦ elim output.error [
    | none ↦ titled a.name output.content ∷ parts_of outputs rest
    | some e ↦ parts_of outputs rest
  ]
]

abbrev failures_of : {W : Type 0} → Dict RunOutput → List (TeamAgent W) → List GoError
failures_of outputs [] = []
failures_of outputs (a ∷ rest) = elim (lookup a.name outputs) [
  | none ↦
      plain (codes "agent " ++ (a.name ++ codes " returned no output")) ∷ failures_of outputs rest
  | some output ↦ elim output.error [
    | none ↦ failures_of outputs rest
    | some e ↦ failed_agent (codes "agent") a.name e ∷ failures_of outputs rest
  ]
]

-- formatOutputs, over the sorted names.
unfoldable pub format_names : Dict RunOutput → List Text → Text
format_names outputs [] = []
format_names outputs (name ∷ names) =
    codes "=== "
    ++ (name
        ++ (codes " ===\n"
            ++ (content_of (lookup name outputs) ++ (codes "\n\n" ++ format_names outputs names))))

unfoldable pub format_outputs : Dict RunOutput → Text
unfolding format_names
format_outputs outputs = format_names outputs (sort_texts (keys outputs))

abbrev pub follower_input : Text → Text → Text → Text
follower_input plan task role =
    codes "Plan: " ++ (plan ++ (codes "\n\nTask: " ++ (task ++ (codes "\n\nYour role: " ++ role))))

abbrev pub synthesis_input : Text → Dict RunOutput → Text
synthesis_input request outputs =
    codes "Synthesize the following results into a final answer.\n\nOriginal request: "
    ++ (request ++ (codes "\n\nResults:\n" ++ format_outputs outputs))

abbrev pub team_output : Dict RunOutput → Text → Option GoError → TeamOutput
team_output outputs final e = record { agent_outputs = outputs; final_output = final; error = e }

abbrev pub failed_leader : GoError → GoError
failed_leader e = wrapped (codes "leader failed") e

abbrev pub failed_synthesis : GoError → GoError
failed_synthesis e = wrapped (codes "leader synthesis failed") e

abbrev plan_request : Text → Text
plan_request input =
    codes "Plan the approach for: " ++ (input ++ codes "\n\nProvide a step-by-step plan.")

module _ {W : Type 0} where
  -- A run that goes on after a checkpoint, and stops where it is not stored.
  abbrev pub when_stored :
      Dict RunOutput → Text → (W → TeamOutput × W) → Result (Unit {0}) × W → TeamOutput × W
  when_stored outputs final next (ok tt, w) = next w
  when_stored outputs final next (err e, w) = (team_output outputs final (some e), w)

  abbrev pub agent_done :
      (GoError → GoError)
      → Dict RunOutput
      → Text
      → (Text → Dict RunOutput → W → TeamOutput × W)
      → Text
      → W
      → Option GoError
      → TeamOutput × W
  agent_done wrap outputs final next content w none = next content outputs w
  agent_done wrap outputs final next content w (some e) =
      (team_output outputs final (some (wrap e)), w)

  -- A run that goes on with the content of an Agent's output, and stops where the Agent fails.
  abbrev pub after_agent :
      (GoError → GoError)
      → Text
      → (RunOutput → Text)
      → Dict RunOutput
      → (Text → Dict RunOutput → W → TeamOutput × W)
      → RunOutput × W
      → TeamOutput × W
  after_agent wrap name final outputs next (output, w) =
      agent_done wrap (insert name output outputs) (final output) next output.content w output.error

  abbrev joined : TeamEnvironment W → List GoError → Option GoError
  joined env [] = none
  joined env (e ∷ es) = some (env.join_errors (e ∷ es))

  module _ (env : TeamEnvironment W) (t : TeamState W) where
    -- The loop of runSequential from the Agent `index` on; `final` names the last Agent.
    unfoldable pub run_sequence :
        Text → ℕ → List (TeamAgent W) → Text → Dict RunOutput → W → TeamOutput × W
    unfolding emit_checkpoint
    run_sequence final index [] current outputs w =
        (team_output outputs (content_of (lookup final outputs)) none, w)
    run_sequence final index (a ∷ rest) current outputs w =
        when_stored outputs current
          (λ w1.
            after_agent (failed_agent (codes "agent") a.name) a.name (λ o. o.content) outputs
              (λ content outputs' w2.
                when_stored outputs' content (run_sequence final (index + 1) rest content outputs')
                  (emit_checkpoint env t (codes "agent_completed") (index + 1) content outputs' []
                    w2))
              (a.run current w1))
          (emit_checkpoint env t (codes "agent") index current outputs a.name w)

    unfoldable pub run_all : List (TeamAgent W) → Text → Dict RunOutput → W → Dict RunOutput × W
    run_all [] input outputs w = (outputs, w)
    run_all (a ∷ rest) input outputs w =
        let (output, w') = a.run input w in run_all rest input (insert a.name output outputs) w'

    abbrev collected : Dict RunOutput → W → TeamOutput × W
    collected outputs w = (
      team_output outputs (join (codes "\n\n") (parts_of outputs (members t.agents)))
          (joined env (failures_of outputs (members t.agents))),
      w,
    )

    -- runParallel
    unfoldable pub run_parallel : Text → W → TeamOutput × W
    unfolding run_all emit_checkpoint
    run_parallel input w =
        let (outputs, w') = run_all (members t.agents) input [] w in
        when_stored outputs [] (collected outputs)
          (emit_checkpoint env t (codes "parallel_completed") (length t.agents) input outputs [] w')

    -- The synthesis does not replace the leader's plan among the outputs.
    abbrev synthesized : Dict RunOutput → RunOutput × W → TeamOutput × W
    synthesized outputs (output, w) = elim output.error [
      | none ↦ (team_output outputs output.content none, w)
      | some e ↦ (team_output outputs output.content (some (failed_synthesis e)), w)
    ]

    abbrev synthesize : TeamAgent W → Text → Dict RunOutput → W → TeamOutput × W
    synthesize leader input outputs w =
        when_stored outputs []
          (λ w1. synthesized outputs (leader.run (synthesis_input input outputs) w1))
          (emit_checkpoint env t (codes "leader_synthesis") (length t.agents) input outputs
            leader.name w)

    -- The followers from the Agent `index` on, and the synthesis of the leader.
    unfoldable pub run_followers :
        TeamAgent W → Text → Text → ℕ → List (TeamAgent W) → Dict RunOutput → W → TeamOutput × W
    run_followers leader plan input index [] outputs w = synthesize leader input outputs w
    run_followers leader plan input index (a ∷ rest) outputs w =
        let others = run_followers leader plan input (index + 1) rest in
        if text_eq a.name leader.name
        then others outputs w
        else when_stored outputs []
            (λ w1.
              after_agent (failed_agent (codes "follower") a.name) a.name (λ o. []) outputs
                (λ content outputs' w2. others outputs' w2)
                (a.run (follower_input plan input a.system_prompt) w1))
            (emit_checkpoint env t (codes "follower") index input outputs a.name w)

    abbrev run_leader : Text → W → Option (TeamAgent W) → TeamOutput × W
    run_leader input w none =
        (team_output [] [] (some (plain (codes "leader is required for leader_follower mode"))), w)
    run_leader input w (some leader) =
        when_stored [] []
          (λ w1.
            after_agent failed_leader leader.name (λ o. []) []
              (λ plan outputs w2. run_followers leader plan input 0 (members t.agents) outputs w2)
              (leader.run (plan_request input) w1))
          (emit_checkpoint env t (codes "leader_plan") 0 input [] leader.name w)

    abbrev run_mode : Text → W → TeamMode → TeamOutput × W
    run_mode input w sequential =
        run_sequence (last_name (members t.agents)) 0 (members t.agents) input [] w
    run_mode input w parallel = run_parallel input w
    run_mode input w leader_follower = run_leader input w t.leader
    run_mode input w (unknown m) =
        (team_output [] [] (some (plain (codes "unknown mode: " ++ m))), w)

    abbrev run_validated : Text → W → Option GoError → TeamOutput × W
    run_validated input w (some e) = (team_output [] [] (some e), w)
    run_validated input w none =
        when_stored [] [] (λ w1. run_mode input w1 t.mode)
          (emit_checkpoint env t (codes "starting") 0 input [] [] w)

    -- Team.Run
    unfoldable pub execute_team : Text → W → TeamOutput × W
    unfolding run_sequence run_parallel run_followers validate_team
    execute_team input w = run_validated input w (validate_team env t)
