-- ===== src/Task/Runtime/Numbering/Operations.antt =====
-- Every operation of task_runtime.go numbers its events on.
use tracklogic_agent.Common.{
  arith, sym, append-nil, ◌∙◌, codes, ◌≡◌, refl, true, Text, List, [], Option, none, some, lookup,
}
use tracklogic_agent.Types.{GoError}
use tracklogic_agent.Exec.{Exec, update, ◌>>◌}
use tracklogic_agent.Exec.Steps.{
  Steps, IsPath, Steps-pure, Steps-raise, Steps-gets, Steps-lift, Steps-guard, Steps-require,
  Steps-update, Steps-if, Steps-bind, Steps-recover, steps,
}
use tracklogic_agent.Task.Protocol.{Event, TurnKind, workflow, TurnResult}
use tracklogic_agent.Task.Runtime.{
  TaskState, TurnState, Machine, Environment, Job, run_workflow, with_task, put_turn, remove_turn,
  spawn, put_pending, remove_pending, PendingInteraction,
}
use tracklogic_agent.Task.Runtime.Turns.{
  ensure_open, turn_of, cancel_turn, close, fresh_turn, start_turn, start_agent, start_team,
  start_workflow, task_mode_fit,
}
use tracklogic_agent.Task.Runtime.Finish.{
  announce_answer, announce_end, settle, finish_turn, Ending, settled, settle_found,
}
use tracklogic_agent.Task.Runtime.Checkpoints.{runtime_emit}
use tracklogic_agent.Task.Runtime.Numbering.{
  Logs, IsLater, IsLater-path, with_task-IsLater, emit-IsLater,
}

module _ {W : Type 0} (log : W → List Event) (env : Environment W)
    (deliver : Event → W → Option GoError × W) (logs : Logs env deliver log) where
  abbrev pub Later : {A : Type 0} → Exec (Machine W) A → Type 0
  Later m = Steps (IsLater log) m

  pub ensure_open-Later : Later ensure_open
  unfolding ensure_open
  ensure_open-Later = record { at = λ s. (Steps-guard (IsLater-path log) s.task.closed _).at s }

  pub fresh_turn-Later : (kind : TurnKind) (target : Text) → Later (fresh_turn env kind target)
  unfolding fresh_turn
  fresh_turn-Later kind target = record {
    at = λ s. record {
      events = [];
      given = logs.unlogged (codes "turn") s.world ∙ sym (append-nil (log s.world));
      numbered = tt;
      counted = omega arith;
      same = refl;
    };
  }

  pub turn_of-Later : (name id : Text) → Later (turn_of {W = W} name id)
  unfolding turn_of
  turn_of-Later name id = record { at = (IsLater-path log).stay }

  -- A change of the Task's maps and flags.
  pub kept-Later :
      (f : TaskState → TaskState)
      → ((t : TaskState) → ((f t).sequence ≡ t.sequence) × ((f t).id ≡ t.id))
      → Later (update (with_task f))
  kept-Later f h = with_task-IsLater log f h

  pub put_turn-Later : (id : Text) (t : TurnState) → Later (update (with_task (put_turn id t)))
  put_turn-Later id t = kept-Later (put_turn id t) (λ s. (refl, refl))

  pub remove_turn-Later : (id : Text) → Later (update (with_task (remove_turn id)))
  remove_turn-Later id = kept-Later (remove_turn id) (λ s. (refl, refl))

  pub spawn-Later : (id : Text) (job : Job) → Later (update (with_task (spawn id job)))
  spawn-Later id job = kept-Later (spawn id job) (λ s. (refl, refl))

  pub put_pending-Later : (p : PendingInteraction) → Later (update (with_task (put_pending p)))
  put_pending-Later p = kept-Later (put_pending p) (λ s. (refl, refl))

  pub remove_pending-Later : (id : Text) → Later (update (with_task (remove_pending id)))
  remove_pending-Later id = kept-Later (remove_pending id) (λ s. (refl, refl))

  pub ruleset later = (
    steps, IsLater-path, emit-IsLater, put_turn-Later, remove_turn-Later, spawn-Later,
    put_pending-Later, remove_pending-Later, ensure_open-Later, fresh_turn-Later, turn_of-Later,
  )

  start_turn-Later :
      (kind : TurnKind) (target text : Text) (job : Job)
      → Later (start_turn env kind target text job)
  unfolding start_turn
  start_turn-Later kind target text job = search (later) depth 24

  pub start_agent-Later : (name text : Text) → Later (start_agent env name text)
  unfolding start_agent
  start_agent-Later name text = search (later, start_turn-Later)

  pub start_team-Later : (name text : Text) → Later (start_team env name text)
  unfolding start_team
  start_team-Later name text = search (later, start_turn-Later)

  pub start_workflow-Later : (name text : Text) → Later (start_workflow env name text)
  unfolding start_workflow
  start_workflow-Later name text =
      elim (env.workflow name)
        as (λ o. Later (
          task_mode_fit env name o >> start_turn env workflow name text (run_workflow name text))) [
            | none ↦ search (later, start_turn-Later)
            | some unfit ↦ search (later, start_turn-Later)
          ]

  pub cancel_turn-Later : (name id : Text) → Later (cancel_turn {W = W} name id)
  unfolding cancel_turn
  cancel_turn-Later name id = search (later)

  pub close-Later : Later (close {W = W})
  unfolding close
  close-Later = kept-Later (λ t. record t { closed = true }) (λ s. (refl, refl))

  announce_answer-Later : (id : Text) (e : Ending) → Later (announce_answer env id e)
  unfolding announce_answer
  announce_answer-Later id e = search (later)

  announce_end-Later : (id : Text) (e : Ending) → Later (announce_end env id e)
  unfolding announce_end
  announce_end-Later id e = search (later)

  settle_found-IsLater :
      (id : Text) (e : Ending) (s : Machine W) (o : Option TurnState)
      → IsLater log s (settle_found env id e s o)
  unfolding update
  settle_found-IsLater id e s none = (IsLater-path log).stay s
  settle_found-IsLater id e s (some t) =
      (kept-Later (put_turn id (settled (env.now s.world) e t)) (λ u. (refl, refl))).at s

  settle-Later : (id : Text) (e : Ending) → Later (settle env id e)
  unfolding settle
  settle-Later id e = record { at = λ s. settle_found-IsLater id e s (lookup id s.task.turns) }

  pub finish_turn-Later : (id : Text) (r : TurnResult) → Later (finish_turn env id r)
  unfolding finish_turn
  finish_turn-Later id r = search (later, announce_answer-Later, announce_end-Later, settle-Later)

  pub runtime_emit-Later : (r : Text) (e : Event) → Later (runtime_emit env r e)
  unfolding runtime_emit
  runtime_emit-Later r e = emit-IsLater log env deliver logs _
