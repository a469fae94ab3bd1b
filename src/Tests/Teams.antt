-- ===== src/Tests/Teams.antt =====
-- A Team of two Agents in a world that counts their runs.
use tracklogic_agent.Common.{ℕ, ◌+◌, ◌≡◌, refl, true, Text, codes, [], ◌∷◌, ◌++◌, none, some}
use tracklogic_agent.Types.{eof}
use tracklogic_agent.Engine.Agent.{RunOutput}
use tracklogic_agent.Team.{TeamAgent, TeamState, TeamEnvironment, sequential}
use tracklogic_agent.Team.Run.{run_sequence}
use tracklogic_agent.Team.Resume.{resume_sequence}
use tracklogic_agent.Team.Agreement.{run_sequence-resume_sequence}

abbrev said : Text → RunOutput
said content = record {
  content = content;
  tool_calls = [];
  messages = [];
  error = none;
  total_tokens = 0;
  loop_count = 1;
}

abbrev speaker : Text → TeamAgent ℕ
speaker name = record {
  name = name;
  system_prompt = [];
  run = λ input w. (said (input ++ name), w + 1);
  resume = λ c input w. (said input, w + 1);
}

abbrev crew_state : TeamState ℕ
crew_state = record {
  name = codes "crew";
  mode = sequential;
  agents = some (speaker (codes "a")) ∷ some (speaker (codes "b")) ∷ [];
  leader = none;
}

abbrev paddock : TeamEnvironment ℕ
paddock = record {
  in_task = true;
  checkpoint = λ c w. (none, w);
  join_errors = λ es. eof;
  quote = λ t. t;
  itoa = λ n. n ∷ [];
}

run_sequence-resume_sequence_example :
    run_sequence paddock crew_state
      (codes "b")
      0
      (speaker (codes "a") ∷ speaker (codes "b") ∷ [])
      (codes "go")
      []
      0
    ≡ resume_sequence paddock crew_state 0
        (speaker (codes "a") ∷ speaker (codes "b") ∷ [])
        (codes "go")
        []
        0
run_sequence-resume_sequence_example =
    run_sequence-resume_sequence paddock crew_state 0 (speaker (codes "a"))
      (speaker (codes "b") ∷ []) (codes "go") [] 0 (λ c v. refl)
