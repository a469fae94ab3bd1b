-- ===== src/Task/Runtime/Finish.antt =====
-- task_runtime.go: Task.runTurn, once the job of a turn has given a result.
use tracklogic_agent.Common.{
  ℕ, Bool, true, false, ◌||◌, Text, codes, Option, none, some, if◌then◌else◌, lookup,
}
use tracklogic_agent.Types.{ErrorCode, GoError, network, wrapped, new_error, wrap_error, ok}
use tracklogic_agent.Exec.{Exec, pure, gets, recover, ◌>>=◌, ◌>>◌}
use tracklogic_agent.Task.Protocol.{
  TurnStatus, completed, failed, cancelled, TurnResult, EventType, assistant_message_completed,
  turn_completed, turn_failed, turn_cancelled, empty_payload,
}
use tracklogic_agent.Task.Runtime.{TurnState, Machine, Environment, with_task, put_turn}
use tracklogic_agent.Task.Runtime.Emit.{emit}
use tracklogic_agent.Task.Runtime.Turns.{turn_event, delivery_failure}

-- errors.As(err, &harnessError), and the code that is found.
unfoldable pub harness_code : GoError → Option ErrorCode
harness_code (new_error c m) = some c
harness_code (wrap_error c m e) = some c
harness_code (network e) = harness_code e
harness_code (wrapped m e) = harness_code e
harness_code _ = none

abbrev pub code_of : Option GoError → Option ErrorCode
code_of none = none
code_of (some e) = harness_code e

-- How a turn ends.
pub record Ending : Type 0 where
  pub result : TurnResult
  pub status : TurnStatus
  pub last_event : EventType

abbrev pub first_ending : TurnResult → Bool → Ending
first_ending r stopped =
    if r.success
    then record { result = r; status = completed; last_event = turn_completed }
    else if stopped
    then record { result = r; status = cancelled; last_event = turn_cancelled }
    else record { result = r; status = failed; last_event = turn_failed }

abbrev pub with_failure : GoError → TurnResult → TurnResult
with_failure e r = record r { success = false; error = some e }

abbrev pub settled : ℕ → Ending → TurnState → TurnState
settled now e t = record t {
  turn = record t.turn { status = e.status; completed_at = now };
  result = some e.result;
  done = true;
}

module _ {W : Type 0} (env : Environment W) where
  abbrev pub tell_answer : Text → Ending → Exec (Machine W) Ending
  tell_answer id e =
      recover
        (emit env (
            turn_event id assistant_message_completed
              (record empty_payload { text = e.result.output }))
          >> pure e)
        (λ failure. pure (record {
          result =
              with_failure
                (delivery_failure (codes "assistant message was not acknowledged") failure)
                e.result;
          status = failed;
          last_event = turn_failed;
        }))

  -- The answer is announced before a turn that succeeded ends.
  unfoldable pub announce_answer : Text → Ending → Exec (Machine W) Ending
  announce_answer id e = if e.result.success then tell_answer id e else pure e

  unfoldable pub announce_end : Text → Ending → Exec (Machine W) Ending
  announce_end id e =
      recover
        (emit env (
            turn_event id e.last_event (record empty_payload {
              status = some e.status;
              error = e.result.error;
              error_code = code_of e.result.error;
            }))
          >> pure e)
        (λ failure. pure (record e {
          result =
              with_failure (delivery_failure (codes "turn completion was not acknowledged") failure)
                e.result;
          status = failed;
        }))

  abbrev pub settle_found : Text → Ending → Machine W → Option TurnState → Machine W
  settle_found id e s none = s
  settle_found id e s (some t) = with_task (put_turn id (settled (env.now s.world) e t)) s

  unfoldable pub settle : Text → Ending → Exec (Machine W) Unit
  settle id e s = (ok tt, settle_found id e s (lookup id s.task.turns))

  abbrev pub is_cancelled : Text → Machine W → Bool
  is_cancelled id s =
      s.task.closed || (elim (lookup id s.task.turns) [ none ↦ false | some t ↦ t.cancelled ])

  -- runTurn, once its job has given a result.
  unfoldable pub finish_turn : Text → TurnResult → Exec (Machine W) Unit
  unfolding announce_answer announce_end settle
  finish_turn id r = do
    stopped ← gets (is_cancelled id)
    answered ← announce_answer id (first_ending (record r { turn_id = id }) stopped)
    ended ← announce_end id answered
    settle id ended
