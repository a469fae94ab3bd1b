-- ===== src/Team/Resume.antt =====
-- workflow/team.go: Team.Resume. It makes a checkpoint only before each further Agent of the
-- sequential mode.
use tracklogic_agent.Common.{
  ℕ, zero, suc, ◌+◌, Bool, false, ◌&&◌, ◌||◌, not, leb, is_some, Text, codes, text_eq, is_empty,
  List, [], ◌∷◌, ◌++◌, Option, none, some, if◌then◌else◌, Dict, lookup, insert,
}
use tracklogic_agent.Types.{GoError, plain, Result, ok, err}
use tracklogic_agent.Task.Protocol.{AgentCheckpoint, TeamCheckpoint}
use tracklogic_agent.Engine.Agent.{RunOutput}
use tracklogic_agent.Workflow.{join}
use tracklogic_agent.Team.{
  TeamMode, sequential, parallel, leader_follower, unknown, TeamAgent, TeamState, TeamOutput,
  TeamEnvironment, members, validate_team, emit_checkpoint,
}
use tracklogic_agent.Team.Run.{
  content_of, failed_agent, failed_synthesis, titled, follower_input, synthesis_input, team_output,
  when_stored, after_agent,
}

-- The outputs that a checkpoint has, as those of successful runs.
abbrev pub restored_outputs : Dict Text → Dict RunOutput
restored_outputs [] = []
restored_outputs ((name, content) ∷ rest) =
    (
      name,
      record {
        content = content;
        tool_calls = [];
        messages = [];
        error = none;
        total_tokens = 0;
        loop_count = 0;
      },
    )
    ∷ restored_outputs rest

abbrev output_of : AgentCheckpoint → RunOutput
output_of a = record {
  content = a.last_content;
  tool_calls = a.tool_calls;
  messages = a.messages;
  error = none;
  total_tokens = a.total_tokens;
  loop_count = a.loop_count;
}

-- An Agent that has answered and waits on nothing.
abbrev finished : Option AgentCheckpoint → Option RunOutput
finished none = none
finished (some a) =
    if is_some a.pending_tool_call || is_empty a.last_content then none else some (output_of a)

abbrev is_success : Option RunOutput → Bool
is_success none = false
is_success (some output) = not (is_some output.error)

abbrev phase_of : Text → Text → Bool
phase_of phase p = text_eq phase p

module _ {W : Type 0} where
  abbrev after_nodes : ℕ → List (TeamAgent W) → List (TeamAgent W)
  after_nodes zero agents = agents
  after_nodes (suc n) [] = []
  after_nodes (suc n) (a ∷ agents) = after_nodes n agents

  abbrev or_leader : Text → Option (TeamAgent W) → Option (TeamAgent W)
  or_leader name none = none
  or_leader name (some leader) = if text_eq leader.name name then some leader else none

  -- agentByName
  unfoldable pub agent_by_name :
      Text → List (TeamAgent W) → Option (TeamAgent W) → Option (TeamAgent W)
  agent_by_name name [] leader = or_leader name leader
  agent_by_name name (a ∷ rest) leader =
      let later = agent_by_name name rest leader in if text_eq a.name name then some a else later

  -- Every Agent without an output must have finished.
  unfoldable pub fill_outputs :
      TeamEnvironment W
      → Dict AgentCheckpoint
      → List (TeamAgent W)
      → Dict RunOutput
      → Result (Unit {0}) × Dict RunOutput
  fill_outputs env saved [] outputs = (ok tt, outputs)
  fill_outputs env saved (a ∷ rest) outputs = elim (lookup a.name outputs) [
    | some output ↦ fill_outputs env saved rest outputs
    | none ↦ elim (finished (lookup a.name saved)) [
      | some output ↦ fill_outputs env saved rest (insert a.name output outputs)
      | none ↦ (
        err (
            plain (
              codes "parallel agent "
              ++ (env.quote a.name ++ codes " state is incomplete; refusing unsafe replay"))),
        outputs,
      )
    ]
  ]

  abbrev titles : Dict RunOutput → List (TeamAgent W) → List Text
  titles outputs [] = []
  titles outputs (a ∷ rest) =
      titled a.name (content_of (lookup a.name outputs)) ∷ titles outputs rest

  abbrev filled : List (TeamAgent W) → Result (Unit {0}) × Dict RunOutput → TeamOutput
  filled agents (ok tt, outputs) =
      team_output outputs (join (codes "\n\n") (titles outputs agents)) none
  filled agents (err e, outputs) = team_output outputs [] (some e)

  module _ (env : TeamEnvironment W) (t : TeamState W) where
    -- The loop over the further Agents of the sequential mode.
    unfoldable pub resume_sequence :
        ℕ → List (TeamAgent W) → Text → Dict RunOutput → W → TeamOutput × W
    unfolding emit_checkpoint
    resume_sequence index [] current outputs w = (team_output outputs current none, w)
    resume_sequence index (a ∷ rest) current outputs w =
        when_stored outputs current
          (λ w1.
            after_agent (failed_agent (codes "agent") a.name) a.name (λ o. o.content) outputs
              (λ content outputs' w2. resume_sequence (index + 1) rest content outputs' w2)
              (a.run current w1))
          (emit_checkpoint env t (codes "agent") index current outputs a.name w)

    abbrev synthesize_again : TeamAgent W → TeamCheckpoint → Dict RunOutput → W → TeamOutput × W
    synthesize_again leader c outputs w =
        after_agent failed_synthesis leader.name (λ o. o.content) outputs
          (λ content outputs' w2. (team_output outputs' content none, w2))
          (leader.run (synthesis_input c.current_input outputs) w)

    -- A follower that does not run again: it has an output, or comes before the one that was resumed.
    abbrev passed : TeamCheckpoint → TeamAgent W → ℕ → Text → Dict RunOutput → Bool
    passed c leader index name outputs =
        text_eq name leader.name
        || (is_success (lookup name outputs)
            || (leb index c.current_index && phase_of c.phase (codes "follower")))

    unfoldable pub resume_followers :
        TeamAgent W
        → TeamCheckpoint
        → Text
        → ℕ
        → List (TeamAgent W)
        → Dict RunOutput
        → W
        → TeamOutput × W
    resume_followers leader c plan index [] outputs w = synthesize_again leader c outputs w
    resume_followers leader c plan index (a ∷ rest) outputs w =
        let others = resume_followers leader c plan (index + 1) rest in
        if passed c leader index a.name outputs
        then others outputs w
        else after_agent (failed_agent (codes "follower") a.name) a.name (λ o. []) outputs
            (λ content outputs' w2. others outputs' w2)
            (a.run (follower_input plan c.current_input a.system_prompt) w)

    abbrev with_plan :
        TeamAgent W → TeamCheckpoint → Dict RunOutput → W → Option RunOutput → TeamOutput × W
    with_plan leader c outputs w plan =
        if is_success plan
        then resume_followers leader c (content_of plan) 0 (members t.agents) outputs w
        else (team_output outputs [] (some (plain (codes "leader plan is unavailable"))), w)

    -- resumeLeaderFollower
    unfoldable pub resume_leader_follower :
        TeamAgent W → TeamCheckpoint → Dict RunOutput → RunOutput → W → TeamOutput × W
    unfolding resume_followers
    resume_leader_follower leader c outputs resumed w =
        if phase_of c.phase (codes "leader_synthesis")
        then (team_output outputs resumed.content none, w)
        else if phase_of c.phase (codes "leader_plan")
        then with_plan leader c (insert leader.name resumed outputs) w (some resumed)
        else if phase_of c.phase (codes "follower")
        then with_plan leader c outputs w (lookup leader.name outputs)
        else (
          team_output outputs [] (
              some
                (plain (codes "unknown leader/follower checkpoint phase " ++ env.quote c.phase))),
          w,
        )

    abbrev led :
        TeamCheckpoint → Dict RunOutput → RunOutput → W → Option (TeamAgent W) → TeamOutput × W
    led c outputs resumed w none =
        (team_output outputs [] (some (plain (codes "leader plan is unavailable"))), w)
    led c outputs resumed w (some leader) = resume_leader_follower leader c outputs resumed w

    abbrev resume_mode : TeamCheckpoint → Dict RunOutput → RunOutput → W → TeamMode → TeamOutput × W
    resume_mode c outputs resumed w sequential =
        let start = c.current_index + 1 in
        resume_sequence start (after_nodes start (members t.agents)) resumed.content outputs w
    resume_mode c outputs resumed w parallel =
        (filled (members t.agents) (fill_outputs env c.agents (members t.agents) outputs), w)
    resume_mode c outputs resumed w leader_follower = led c outputs resumed w t.leader
    resume_mode c outputs resumed w (unknown m) =
        (team_output outputs [] (some (plain (codes "unknown team mode " ++ env.quote m))), w)

    abbrev refused_team : W → GoError → TeamOutput × W
    refused_team w e = (team_output [] [] (some e), w)

    -- The Agent of the checkpoint, where it waits on a tool call.
    abbrev waiting_agent : TeamCheckpoint → Option AgentCheckpoint → Result AgentCheckpoint
    waiting_agent c none = err (plain (codes "team checkpoint is not resumable"))
    waiting_agent c (some a) =
        if not (text_eq c.team_id t.name) || not (is_some a.pending_tool_call)
        then err (plain (codes "team checkpoint is not resumable"))
        else ok a

    abbrev resume_by :
        TeamCheckpoint → AgentCheckpoint → Text → W → Option (TeamAgent W) → TeamOutput × W
    resume_by c saved tool w none =
        refused_team w
          (plain (codes "team agent " ++ (env.quote saved.agent_id ++ codes " not found")))
    resume_by c saved tool w (some a) =
        let (resumed, w1) = a.resume saved tool w in
        let outputs = insert a.name resumed (restored_outputs c.agent_outputs) in
        elim resumed.error [
          | some e ↦ (
            team_output outputs resumed.content (some (failed_agent (codes "agent") a.name e)),
            w1,
          )
          | none ↦ resume_mode c outputs resumed w1 t.mode
        ]

    abbrev resume_waiting : TeamCheckpoint → Text → W → Result AgentCheckpoint → TeamOutput × W
    resume_waiting c tool w (err e) = refused_team w e
    resume_waiting c tool w (ok saved) =
        resume_by c saved tool w (agent_by_name saved.agent_id (members t.agents) t.leader)

    abbrev resume_validated : TeamCheckpoint → Text → W → Option GoError → TeamOutput × W
    resume_validated c tool w (some e) = refused_team w e
    resume_validated c tool w none = resume_waiting c tool w (waiting_agent c c.agent)

    -- Team.Resume
    unfoldable pub resume_suspended_team : TeamCheckpoint → Text → W → TeamOutput × W
    unfolding resume_sequence resume_leader_follower fill_outputs agent_by_name validate_team
    resume_suspended_team c tool w = resume_validated c tool w (validate_team env t)
