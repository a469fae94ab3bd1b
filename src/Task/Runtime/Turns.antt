-- ===== src/Task/Runtime/Turns.antt =====
-- task_runtime.go: starting a turn, ending it, waiting for it, cancelling it, and closing the Task.
use tracklogic_agent.Common.{
  ℕ, true, false, not, Text, codes, ◌++◌, Option, none, some, if◌then◌else◌, lookup,
}
use tracklogic_agent.Types.{
  GoError, new_error, wrap_error, invalid_config, invalid_input, run_cancelled, event_delivery,
  turn_not_found, run_interrupted, Result, ok, err,
}
use tracklogic_agent.Exec.{Exec, pure, raise, recover, update, guard, require, ◌>>=◌, ◌>>◌}
use tracklogic_agent.Task.Protocol.{
  TurnKind, agent, team, workflow, TurnStatus, running, Turn, TurnResult, EventType, turn_started,
  user_message, EventPayload, empty_payload, Event, event, required_ack,
}
use tracklogic_agent.Task.Runtime.{
  TurnState, Machine, Environment, Job, run_agent, run_team, run_workflow, with_task, put_turn,
  remove_turn, spawn,
}
use tracklogic_agent.Task.Runtime.Emit.{emit}

-- targetPayload
unfoldable pub target_payload : TurnKind → Text → TurnStatus → EventPayload
target_payload agent target status = record empty_payload {
  status = some status;
  agent_id = target;
}
target_payload team target status = record empty_payload { status = some status; team_id = target }
target_payload workflow target status = record empty_payload {
  status = some status;
  workflow_id = target;
}

abbrev pub turn_event : Text → EventType → EventPayload → Event
turn_event id kind payload = record (event kind required_ack payload) { turn_id = id }

abbrev pub delivery_failure : Text → GoError → GoError
delivery_failure message e = wrap_error event_delivery message e

abbrev pub found_turn : Text → Option TurnState → Result TurnState
found_turn message none = err (new_error turn_not_found message)
found_turn message (some t) = ok t

-- WaitTurn, when the turn is done; `none` while it is not, and the caller waits.
abbrev pub waited : TurnState → Option (Result TurnResult)
waited t =
    if t.done
    then some (elim t.result [
      | some r ↦ ok r
      | none ↦ err (new_error run_interrupted (codes "turn ended without a result"))
    ])
    else none

module _ {W : Type 0} where
  unfoldable pub ensure_open : Exec (Machine W) Unit
  ensure_open s = guard s.task.closed (new_error run_cancelled (codes "task is closed")) s

  -- Task.turn; `name` is the turn's identifier as %q prints it.
  unfoldable pub turn_of : Text → Text → Exec (Machine W) TurnState
  turn_of name id s =
      (found_turn (codes "turn " ++ (name ++ codes " not found")) (lookup id s.task.turns), s)

  -- CancelTurn
  unfoldable pub cancel_turn : Text → Text → Exec (Machine W) Unit
  unfolding turn_of
  cancel_turn name id = do
    t ← turn_of name id
    update (with_task (put_turn id (record t { cancelled = true })))

  unfoldable pub wait_turn : Text → Text → Machine W → Option (Result TurnResult)
  wait_turn name id s =
      elim (found_turn (codes "turn " ++ (name ++ codes " not found")) (lookup id s.task.turns)) [
        | err e ↦ some (err e)
        | ok t ↦ waited t
      ]

  -- Close; cancelling the Task's context cancels that of each turn.
  unfoldable pub close : Exec (Machine W) Unit
  close = update (with_task (λ t. record t { closed = true }))

  module _ (env : Environment W) where
    abbrev new_turn : TurnKind → Text → Text → Text → ℕ → TurnState
    new_turn kind target task_id id now = record {
      turn = record {
        id = id;
        task_id = task_id;
        kind = kind;
        target = target;
        status = running;
        started_at = now;
        completed_at = 0;
      };
      result = none;
      done = false;
      cancelled = false;
      runtime = record {
        turn_id = id;
        kind = kind;
        target = target;
        progress_count = 0;
        checkpoint = none;
      };
    }

    unfoldable pub fresh_turn : TurnKind → Text → Exec (Machine W) TurnState
    fresh_turn kind target s =
        let (id, w) = env.new_id (codes "turn") s.world in
        (ok (new_turn kind target s.task.id id (env.now w)), record s { world = w })

    -- A required event of a turn that is being started: the turn is removed when it fails.
    abbrev starting : Text → Text → Event → Exec (Machine W) Unit
    starting id message e =
        recover (emit env e) (λ failure.
          update (with_task (remove_turn id)) >> raise (delivery_failure message failure))

    -- startTurn, with the job of its goroutine for the turn's identifier.
    unfoldable pub start_turn : TurnKind → Text → Text → Job → Exec (Machine W) Turn
    unfolding ensure_open fresh_turn target_payload
    start_turn kind target input job = do
      ensure_open
      require (env.validate_input (env.sanitize input))
          (λ e. wrap_error invalid_input (codes "input validation failed") e)
      t ← fresh_turn kind target
      ensure_open
      update (with_task (put_turn t.turn.id t))
      starting t.turn.id (codes "turn start was not acknowledged")
          (turn_event t.turn.id turn_started (target_payload kind target running))
      starting t.turn.id (codes "user message was not acknowledged")
          (turn_event t.turn.id user_message (record empty_payload { text = env.sanitize input }))
      update (with_task (spawn t.turn.id job))
      pure t.turn

    abbrev missing : Text → Text → GoError
    missing kind name =
        new_error invalid_config (kind ++ (codes " " ++ (env.quote name ++ codes " not found")))

    -- StartAgent
    unfoldable pub start_agent : Text → Text → Exec (Machine W) Turn
    unfolding start_turn
    start_agent name input = do
      guard (not (env.has_agent name)) (missing (codes "agent") name)
      start_turn agent name input (run_agent name input)

    -- StartTeam
    unfoldable pub start_team : Text → Text → Exec (Machine W) Turn
    unfolding start_turn
    start_team name input = do
      guard (not (env.has_team name)) (missing (codes "team") name)
      start_turn team name input (run_team name input)

    abbrev pub task_mode_fit : Text → Option (Option GoError) → Exec (Machine W) Unit
    task_mode_fit name none = raise (missing (codes "workflow") name)
    task_mode_fit name (some unfit) =
        require unfit
          (λ e. wrap_error invalid_config (codes "workflow does not support Task mode") e)

    -- StartWorkflow
    unfoldable pub start_workflow : Text → Text → Exec (Machine W) Turn
    unfolding start_turn
    start_workflow name input = do
      task_mode_fit name (env.workflow name)
      start_turn workflow name input (run_workflow name input)
