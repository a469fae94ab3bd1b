-- ===== src/Team.antt =====
-- workflow/team.go: a Team of Agents. The Agents run with the shared model, if there is one.
pub mod Run
pub mod Resume
pub mod Agreement
use tracklogic_agent.Common.{
  ℕ, ◌+◌, Bool, true, false, ◌||◌, not, Text, codes, text_eq, trim_space, is_empty, List, [], ◌∷◌,
  ◌++◌, Option, none, some, if◌then◌else◌, Dict, length,
}
use tracklogic_agent.Types.{GoError, plain, wrapped, Result, ok, err}
use tracklogic_agent.Exec.{Exec}
use tracklogic_agent.Interaction.{member}
use tracklogic_agent.Task.Protocol.{AgentCheckpoint, TeamCheckpoint, Checkpoint, team, running}
use tracklogic_agent.Engine.Agent.{RunOutput}

pub data TeamMode : Type 0 where
  sequential parallel leader_follower : TeamMode
  unknown : Text → TeamMode

abbrev pub mode_text : TeamMode → Text
mode_text sequential = codes "sequential"
mode_text parallel = codes "parallel"
mode_text leader_follower = codes "leader_follower"
mode_text (unknown t) = t

pub record TeamAgent (W : Type 0) : Type 0 where
  pub name : Text
  pub system_prompt : Text
  pub run : Text → W → RunOutput × W
  pub resume : AgentCheckpoint → Text → W → RunOutput × W

pub record TeamState (W : Type 0) : Type 0 where  -- Team
  pub name : Text
  pub mode : TeamMode
  pub agents : List (Option (TeamAgent W))
  pub leader : Option (TeamAgent W)

pub record TeamOutput : Type 0 where
  pub agent_outputs : Dict RunOutput
  pub final_output : Text
  pub error : Option GoError  -- `none` for Success

-- The Task's runtime, errors.Join of at least one error, and fmt.
pub record TeamEnvironment (W : Type 0) : Type 0 where
  pub in_task : Bool
  pub checkpoint : Checkpoint → W → Option GoError × W
  pub join_errors : List GoError → GoError
  pub quote : Text → Text
  pub itoa : ℕ → Text

abbrev known_mode : TeamMode → Bool
known_mode (unknown t) = false
known_mode _ = true

module _ {W : Type 0} where
  -- The Agents that are there, which after Validate are all.
  abbrev pub members : List (Option (TeamAgent W)) → List (TeamAgent W)
  members [] = []
  members (none ∷ rest) = members rest
  members (some a ∷ rest) = a ∷ members rest

  abbrev needs_leader : TeamMode → Option (TeamAgent W) → Bool
  needs_leader leader_follower none = true
  needs_leader _ _ = false

  module _ (env : TeamEnvironment W) where
    abbrev team_error : Text → Text → GoError
    team_error name what = plain (codes "team " ++ (env.quote name ++ what))

    -- The loop of Validate from the Agent `i` on, with the names seen.
    unfoldable pub check_agents :
        Text → ℕ → List Text → List (Option (TeamAgent W)) → Option GoError
    check_agents name i seen [] = none
    check_agents name i seen (none ∷ rest) =
        some (team_error name (codes " agent " ++ (env.itoa i ++ codes " is nil")))
    check_agents name i seen (some a ∷ rest) =
        let more = check_agents name (i + 1) (a.name ∷ seen) rest in
        if is_empty a.name
        then some (team_error name (codes " agent " ++ (env.itoa i ++ codes " has no name")))
        else if member a.name seen
        then some (team_error name (codes " has duplicate agent name " ++ env.quote a.name))
        else more

    abbrev no_leader : TeamState W → Option GoError
    no_leader t =
        if needs_leader t.mode t.leader
        then some (team_error t.name (codes " requires a leader"))
        else none

    abbrev first_error : Option GoError → Option GoError → Option GoError
    first_error none next = next
    first_error (some e) next = some e

    abbrev no_agents : List (Option (TeamAgent W)) → Bool
    no_agents [] = true
    no_agents _ = false

    -- Team.Validate
    unfoldable pub validate_team : TeamState W → Option GoError
    unfolding check_agents
    validate_team t =
        if is_empty t.name || not (text_eq t.name (trim_space t.name))
        then some
            (plain (codes "team name must be non-empty and must not have surrounding whitespace"))
        else if not (known_mode t.mode)
        then some (plain (codes "unknown team mode: " ++ mode_text t.mode))
        else if no_agents t.agents
        then some (team_error t.name (codes " has no agents"))
        else first_error (check_agents t.name 0 [] t.agents) (no_leader t)

    -- The contents of the outputs that are a success.
    unfoldable pub completed_outputs : Dict RunOutput → Dict Text
    completed_outputs [] = []
    completed_outputs ((name, output) ∷ rest) =
        let more = completed_outputs rest in
        elim output.error [ none ↦ (name, output.content) ∷ more | some e ↦ more ]

    abbrev pub delivered : Option GoError × W → Result (Unit {0}) × W
    delivered (none, w) = (ok tt, w)
    delivered (some e, w) = (err (wrapped (codes "team checkpoint") e), w)

    abbrev pub team_position : TeamState W → Text → ℕ → Text → Dict RunOutput → Text → Checkpoint
    team_position t phase index current outputs pending = record {
      version = 0;
      task_id = [];
      turn_id = [];
      kind = team;
      target = t.name;
      status = running;
      last_sequence = 0;
      agent = none;
      team = some (record {
        team_id = t.name;
        mode = mode_text t.mode;
        phase = phase;
        current_index = index;
        current_input = current;
        agent_outputs = completed_outputs outputs;
        pending_agent_id = pending;
        agent = none;
        agents = [];
      });
      workflow = none;
      interaction = none;
    }

    -- emitCheckpoint
    unfoldable pub emit_checkpoint :
        TeamState W → Text → ℕ → Text → Dict RunOutput → Text → Exec W Unit
    unfolding completed_outputs
    emit_checkpoint t phase index current outputs pending w =
        if env.in_task
        then delivered (env.checkpoint (team_position t phase index current outputs pending) w)
        else (ok tt, w)
