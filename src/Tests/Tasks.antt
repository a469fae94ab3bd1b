-- ===== src/Tests/Tasks.antt =====
-- A Task whose sink keeps the events that it is given, and what its operations do there.
use tracklogic_agent.Common.{
  ℕ, ◌+◌, ◌≡◌, refl, true, false, Text, codes, text_eq, trim_space, List, [], ◌∷◌, ◌++◌, Option,
  none, some, lookup, insert, erase, pos,
}
use tracklogic_agent.Types.{GoError, Result, ok, err}
use tracklogic_agent.Exec.{gets, lift, recover, update, guard, require, ◌>>=◌}
use tracklogic_agent.Interaction.{
  Request, validate_against, check_known, check_answered, check_answers, member,
}
use tracklogic_agent.Task.Config.{normalize_retry, normalize_circuit, normalize_summary}
use tracklogic_agent.Task.Protocol.{
  agent, team, running, TurnResult, AgentCheckpoint, Checkpoint, Event,
}
use tracklogic_agent.Task.Runtime.{TurnState, TurnRuntime, TaskState, Machine, Environment}
use tracklogic_agent.Task.Runtime.Calls.{
  Call, starts_agent, reports, answers_with, finishes, closes, perform_all,
}
use tracklogic_agent.Task.Runtime.Checkpoints.{empty_team}
use tracklogic_agent.Task.Runtime.Create.{default_options, initial_task, new_task}
use tracklogic_agent.Task.Runtime.Create.Fresh.{StartsFrom, new_task-StartsFrom}
use tracklogic_agent.Task.Runtime.Restore.{
  restore_task, install_checkpoint, continue_restored_agent, classify, settle_restored,
  suspended_agent,
}
use tracklogic_agent.Task.Runtime.Restore.Safety.{RunsSafely, restore_task-RunsSafely}
use tracklogic_agent.Task.Runtime.Emit.{emit, stamp}
use tracklogic_agent.Task.Runtime.Turns.{wait_turn}
use tracklogic_agent.Task.Runtime.Finish.{finish_turn}
use tracklogic_agent.Task.Runtime.Endings.{IsEnded, wait_turn-finish_turn}
use tracklogic_agent.Task.Runtime.Answers.{answer_interaction, not_waiting}
use tracklogic_agent.Task.Runtime.Answers.Once.{IsTaken, answer_interaction-IsTaken}
use tracklogic_agent.Task.Runtime.Numbering.{Logs, IsLater}
use tracklogic_agent.Task.Runtime.Numbering.Calls.{perform_all-IsLater}
use tracklogic_agent.Tests.Data.{call_of, retries, breaker, summaries}
use tracklogic_agent.Tests.Interactions.{tyre, pit_stop, chosen}

record Garage : Type 0 where
  log : List Event
  ids : ℕ

abbrev keep : Event → Garage → Option GoError × Garage
keep e g = (none, record g { log = g.log ++ e ∷ [] })

abbrev garage : Environment Garage
garage = record {
  sink = some keep;
  now = λ g. 1;
  new_id = λ prefix g. (prefix ++ g.ids ∷ [], record g { ids = g.ids + 1 });
  sanitize = λ t. t;
  validate_input = λ t. none;
  has_agent = λ name. true;
  has_team = λ name. true;
  workflow = λ name. none;
  encode_response = λ r. ok (codes "{}");
  quote = λ t. t;
}

garage-Logs : Logs garage keep (λ g. g.log)
garage-Logs = record { sink = refl; logged = λ e g. refl; unlogged = λ prefix g. refl }

abbrev stint : TurnState
stint = record {
  turn = record {
    id = codes "t1";
    task_id = codes "race";
    kind = team;
    target = codes "crew";
    status = running;
    started_at = 0;
    completed_at = 0;
  };
  result = none;
  done = false;
  cancelled = false;
  runtime = record {
    turn_id = codes "t1";
    kind = team;
    target = codes "crew";
    progress_count = 0;
    checkpoint = none;
  };
}

abbrev free_stop : Request
free_stop = record pit_stop { questions = record tyre { allow_text = true } ∷ [] }

abbrev race : Machine Garage
race = record {
  task = record {
    id = codes "race";
    retry = retries;
    circuit = breaker;
    summary = summaries;
    sequence = 4;
    closed = false;
    turns = (codes "t1", stint) ∷ [];
    conversations = [];
    pending =
        (codes "stop", record { request = free_stop; turn_id = codes "t1"; restored = false }) ∷ [];
    answers = [];
    jobs = [];
  };
  world = record { log = []; ids = 0 };
}

abbrev success : TurnResult
success = record {
  turn_id = codes "t1";
  kind = team;
  output = codes "two laps";
  success = true;
  error = none;
}

abbrev lap_calls : List Call
lap_calls =
    starts_agent (codes "coach") (codes "how far")
    ∷ reports (codes "t1") (codes "half way")
    ∷ answers_with chosen
    ∷ finishes (codes "t1") success
    ∷ closes
    ∷ []

perform_all-IsLater_example : IsLater (λ g. g.log) race (perform_all garage lap_calls race)
perform_all-IsLater_example =
    perform_all-IsLater (λ g. g.log) garage keep garage-Logs lap_calls race

stint_known : lookup (codes "t1") race.task.turns ≡ some stint
unfolding lookup text_eq
stint_known = refl

wait_turn-finish_turn_example :
    (ended : IsEnded (codes "t1") (finish_turn garage (codes "t1") success race).1) × (wait_turn
        (codes "t1")
        (codes "t1")
        (finish_turn garage (codes "t1") success race).1
      ≡ some (ok ended.result))
wait_turn-finish_turn_example =
    wait_turn-finish_turn garage (codes "t1") (codes "t1") success race stint stint_known

taken : answer_interaction garage chosen race ≡ (ok tt, (answer_interaction garage chosen race).1)
unfolding answer_interaction gets lift require recover update ◌>>=◌ emit stamp validate_against
    check_known check_answered check_answers member lookup erase insert text_eq trim_space
taken = refl

answer_interaction-IsTaken_example :
    IsTaken garage chosen race
    × (answer_interaction garage chosen (answer_interaction garage chosen race).1
        ≡ (err (not_waiting garage (codes "stop")), (answer_interaction garage chosen race).1))
answer_interaction-IsTaken_example =
    answer_interaction-IsTaken garage chosen chosen race (answer_interaction garage chosen race).1
      tt taken refl

abbrev driver : Option Text → AgentCheckpoint
driver waits = record {
  agent_id = elim waits [ none ↦ codes "driver" | some id ↦ id ];
  run_id = codes "r1";
  messages = [];
  tool_calls = [];
  pending_tool_call = elim waits [
    | none ↦ none
    | some id ↦ some (call_of (codes "c1") (codes "{}"))
  ];
  last_content = [];
  total_tokens = 0;
  loop_count = 0;
  max_loops = pos 10;
  temperature = pos 0;
  max_tokens = pos 0;
  summary = [];
}

abbrev checkpoint_of : AgentCheckpoint → Checkpoint
checkpoint_of a = record {
  version = 1;
  task_id = codes "race";
  turn_id = codes "t1";
  kind = agent;
  target = codes "driver";
  status = running;
  last_sequence = 7;
  agent = some a;
  team = none;
  workflow = none;
  interaction = none;
}

abbrev crew_waits : Checkpoint
crew_waits = record (checkpoint_of (driver none)) {
  kind = team;
  target = codes "crew";
  agent = none;
  team =
      some (record (empty_team (codes "crew")) { agent = some (driver (some (codes "engineer"))) });
  interaction = some pit_stop;
}

abbrev crew_runtime : TurnRuntime
crew_runtime = record stint.runtime { checkpoint = some crew_waits }

abbrev task_of : Result TaskState → TaskState
task_of (ok t) = t
task_of (err e) = race.task

abbrev restored : Result TaskState × Garage
restored = restore_task garage (codes "race") (checkpoint_of (driver none)) 5 race.world

restores : restored ≡ (ok (task_of restored.0), restored.1)
unfolding restore_task install_checkpoint continue_restored_agent new_task initial_task
    normalize_retry normalize_circuit normalize_summary classify settle_restored suspended_agent
    gets require recover update guard ◌>>=◌ lookup insert text_eq trim_space
restores = refl

restore_task-RunsSafely_example :
    ((task_of restored.0).sequence ≡ 7)
    × RunsSafely garage (checkpoint_of (driver none)) (task_of restored.0)
restore_task-RunsSafely_example =
    restore_task-RunsSafely garage (checkpoint_of (driver none)) (codes "race") 5 race.world
      restored.1 (task_of restored.0) restores

abbrev created : Result TaskState × Garage
created = new_task garage (default_options (codes "race")) 0 true race.world

creates : created ≡ (ok (task_of created.0), created.1)
unfolding new_task initial_task emit stamp normalize_retry normalize_circuit normalize_summary
    text_eq trim_space
creates = refl

new_task-StartsFrom_example : StartsFrom 1 (task_of created.0)
new_task-StartsFrom_example =
    new_task-StartsFrom garage (default_options (codes "race")) 0 true race.world created.1
      (task_of created.0) creates
