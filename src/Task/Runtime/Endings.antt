-- ===== src/Task/Runtime/Endings.antt =====
-- How Task.runTurn in task_runtime.go ends a turn.
use tracklogic_agent.Common.{
  ◌≡◌, refl, sym, ap, subst, ◌∙◌, Bool, true, false, Text, text_eq_refl, Option, none, some,
  if◌then◌else◌, lookup, lookup-insert,
}
use tracklogic_agent.Types.{GoError, Result, ok, err}
use tracklogic_agent.Exec.{Exec, pure, handled, continue, recover, gets, bind-ok, ◌>>=◌, ◌>>◌}
use tracklogic_agent.Task.Protocol.{Event, TurnStatus, completed, failed, cancelled, TurnResult}
use tracklogic_agent.Task.Runtime.{TaskState, TurnState, Machine, Environment}
use tracklogic_agent.Task.Runtime.Emit.{emit, sent, item_of}
use tracklogic_agent.Task.Runtime.Turns.{wait_turn, waited}
use tracklogic_agent.Task.Runtime.Finish.{
  Ending, first_ending, tell_answer, announce_answer, announce_end, settle, finish_turn,
  is_cancelled, settled,
}

-- The statuses in which runTurn leaves a turn, with the success of its result.
pub data Agrees : TurnStatus → Bool → Type 0 where
  agrees_completed : Agrees completed true
  agrees_failed : Agrees failed false
  agrees_cancelled : Agrees cancelled false

-- The turn `id` is done; its status fits its result.
pub record IsEnded {W : Type 0} (id : Text) (s : Machine W) : Type 0 where
  pub state : TurnState
  pub kept : lookup id s.task.turns ≡ some state
  pub finished : state.done ≡ true
  pub result : TurnResult
  pub given : state.result ≡ some result
  pub agrees : Agrees state.turn.status result.success

-- `m` gives an ending that agrees, and leaves the turns as they are.
pub record Ends {W : Type 0} (m : Exec (Machine W) Ending) (s : Machine W) : Type 0 where
  pub ending : Ending
  pub left : Machine W
  pub gives : m s ≡ (ok ending, left)
  pub turns_kept : left.task.turns ≡ s.task.turns
  pub ending_agrees : Agrees ending.status ending.result.success

first_ending-Agrees :
    (r : TurnResult) (stopped success : Bool)
    → r.success ≡ success
    → Agrees (first_ending r stopped).status (first_ending r stopped).result.success
first_ending-Agrees r stopped true h = rw h agrees_completed
first_ending-Agrees r true false h = rw h agrees_cancelled
first_ending-Agrees r false false h = rw h agrees_failed

module _ {W : Type 0} (env : Environment W) where
  sent-turns :
      (e : Event) (t : TaskState) (o : Option (Event → W → Option GoError × W)) (item : Text × W)
      → (sent env e t o item).1.task.turns ≡ t.turns
  sent-turns e t none (item, w) = refl
  sent-turns e t (some sink) (item, w) = refl

  pub emit-turns : (e : Event) (s : Machine W) → (emit env e s).1.task.turns ≡ s.task.turns
  unfolding emit
  emit-turns e s = sent-turns e _ env.sink (item_of env e s.world)

  -- An event that is announced, with the ending `bad` of its failure.
  abbrev announced :
      Ending → (GoError → Ending) → Result (Unit {0}) × Machine W → Result Ending × Machine W
  announced e bad (ok tt, s) = (ok e, s)
  announced e bad (err failure, s) = (ok (bad failure), s)

  announced-out :
      (e : Ending) (bad : GoError → Ending) (out : Result (Unit {0}) × Machine W)
      → handled (λ failure. pure (bad failure)) (continue (λ _. pure e) out) ≡ announced e bad out
  unfolding pure
  announced-out e bad (ok tt, t) = refl
  announced-out e bad (err failure, t) = refl

  announced-eq :
      (e : Ending) (bad : GoError → Ending) (m : Exec (Machine W) Unit) (s : Machine W)
      → recover (m >> pure e) (λ failure. pure (bad failure)) s ≡ announced e bad (m s)
  unfolding recover ◌>>=◌
  announced-eq e bad m s = announced-out e bad (m s)

  -- The ending of an announcement, by what came of its event.
  outcome-Ends :
      (e : Ending) (bad : GoError → Ending) (m : Exec (Machine W) Ending) (s : Machine W)
      (out : Result (Unit {0}) × Machine W)
      → m s ≡ announced e bad out
      → out.1.task.turns ≡ s.task.turns
      → Agrees e.status e.result.success
      → ((failure : GoError) → Agrees (bad failure).status (bad failure).result.success)
      → Ends m s
  outcome-Ends e bad m s (ok tt, t) eq same good h = record {
    ending = e;
    left = t;
    gives = eq;
    turns_kept = same;
    ending_agrees = good;
  }
  outcome-Ends e bad m s (err failure, t) eq same good h = record {
    ending = bad failure;
    left = t;
    gives = eq;
    turns_kept = same;
    ending_agrees = h failure;
  }

  announced-Ends :
      (e : Ending) (bad : GoError → Ending) (event : Event) (s : Machine W)
      → Agrees e.status e.result.success
      → ((failure : GoError) → Agrees (bad failure).status (bad failure).result.success)
      → Ends (recover (emit env event >> pure e) (λ failure. pure (bad failure))) s
  announced-Ends e bad event s good h =
      outcome-Ends e bad _ s (emit env event s) (announced-eq e bad (emit env event) s)
        (emit-turns event s) good h

  announce_answer-Ends :
      (id : Text) (e : Ending) (s : Machine W)
      → Agrees e.status e.result.success
      → Ends (announce_answer env id e) s
  unfolding announce_answer pure
  announce_answer-Ends id e s good =
      elim e.result.success as (λ b. Ends (if b then tell_answer env id e else pure e) s) [
        | true ↦ announced-Ends e _ _ s good (λ failure. agrees_failed)
        | false ↦ record {
          ending = e;
          left = s;
          gives = refl;
          turns_kept = refl;
          ending_agrees = good;
        }
      ]

  announce_end-Ends :
      (id : Text) (e : Ending) (s : Machine W)
      → Agrees e.status e.result.success
      → Ends (announce_end env id e) s
  unfolding announce_end
  announce_end-Ends id e s good = announced-Ends e _ _ s good (λ failure. agrees_failed)

  settle-IsEnded :
      (id : Text) (e : Ending) (s : Machine W) (t : TurnState)
      → lookup id s.task.turns ≡ some t
      → Agrees e.status e.result.success
      → IsEnded id (settle env id e s).1
  unfolding settle
  settle-IsEnded id e s t h good =
      let state = settled (env.now s.world) e t in
      rw h (record {
        state = state;
        kept = lookup-insert id id state s.task.turns ∙ rw (text_eq_refl id) refl;
        finished = refl;
        result = e.result;
        given = refl;
        agrees = good;
      })

  finish_turn-IsEnded :
      (id : Text) (r : TurnResult) (s : Machine W) (t : TurnState)
      → lookup id s.task.turns ≡ some t
      → IsEnded id (finish_turn env id r s).1
  unfolding finish_turn gets
  finish_turn-IsEnded id r s t h =
      let stopped = is_cancelled env id s in
      let r' = record r { turn_id = id } in
      let answer =
        announce_answer-Ends id (first_ending r' stopped) s
          (first_ending-Agrees r' stopped r.success refl) in
      let end = announce_end-Ends id answer.ending answer.left answer.ending_agrees in
      let settles =
        settle-IsEnded id end.ending end.left t
          (ap (lookup id) (end.turns_kept ∙ answer.turns_kept) ∙ h) end.ending_agrees in
      subst (λ out. IsEnded id out.1)
        (sym (
          bind-ok (gets (is_cancelled env id)) _ stopped s s refl
          ∙ bind-ok (announce_answer env id (first_ending r' stopped)) _ answer.ending s answer.left
              answer.gives
          ∙ bind-ok (announce_end env id answer.ending) _ end.ending answer.left end.left
              end.gives))
        settles

waited-ok :
    (t : TurnState) (r : TurnResult) → t.done ≡ true → t.result ≡ some r → waited t ≡ some (ok r)
waited-ok t r finished given = rw (finished, given) refl

module _ {W : Type 0} where
  wait_turn-IsEnded :
      (name id : Text) (s : Machine W) (ended : IsEnded id s)
      → wait_turn name id s ≡ some (ok ended.result)
  unfolding wait_turn
  wait_turn-IsEnded name id s ended =
      rw (wait_turn, ended.kept) (waited-ok ended.state ended.result ended.finished ended.given)

  -- Once runTurn has ended a turn of the Task, whatever its sink answers and whether or not the turn
  -- was cancelled, the turn is done and keeps a result, which WaitTurn returns; its status is completed
  -- where the result is a success, else failed or cancelled.
  pub wait_turn-finish_turn :
      (env : Environment W) (name id : Text) (r : TurnResult) (s : Machine W) (t : TurnState)
      → lookup id s.task.turns ≡ some t
      → (ended : IsEnded id (finish_turn env id r s).1) × (wait_turn name id
            (finish_turn env id r s).1
          ≡ some (ok ended.result))
  wait_turn-finish_turn env name id r s t h =
      let ended = finish_turn-IsEnded env id r s t h in
      (ended, wait_turn-IsEnded name id (finish_turn env id r s).1 ended)
