-- ===== src/Task/Runtime/Numbering.antt =====
-- The sequence numbers of task_runtime.go: what every operation of a Task does to the events that its
-- sink has been given.
pub mod Operations
pub mod Interactions
pub mod Calls
use tracklogic_agent.Common.{
  ℕ, ◌+◌, ◌≡◌, refl, sym, ap, ◌∙◌, subst, Bool, true, false, Text, List, [], ◌∷◌, ◌++◌, append-nil,
  append_assoc, length, length-append, Option, none, some, if◌then◌else◌, arith, is_empty, codes,
  lookup,
}
use tracklogic_agent.Types.{GoError, Result, ok, err}
use tracklogic_agent.Exec.{Exec, pure, raise, gets, lift, recover, update, guard, require, ◌>>=◌}
use tracklogic_agent.Exec.Steps.{
  Steps, IsPath, Steps-pure, Steps-raise, Steps-gets, Steps-lift, Steps-guard, Steps-require,
  Steps-update, Steps-if, Steps-bind, Steps-recover,
}
use tracklogic_agent.Task.Protocol.{Event}
use tracklogic_agent.Task.Runtime.{TaskState, Machine, Environment, with_task}
use tracklogic_agent.Task.Runtime.Emit.{stamp, delivery_outcome, item_of, sent, emit}

-- Events of the Task `id` that are numbered from `n + 1` on, without a gap.
abbrev pub Numbered : ℕ → Text → List Event → Type 0
Numbered n id [] = Unit
Numbered n id (e ∷ es) = (e.sequence ≡ n + 1) × (e.task_id ≡ id) × Numbered (n + 1) id es

Numbered-append :
    (n : ℕ) (id : Text) (es fs : List Event)
    → Numbered n id es
    → Numbered (n + length es) id fs
    → Numbered n id (es ++ fs)
Numbered-append n id [] fs h k = subst (λ m. Numbered m id fs) (omega arith) k
Numbered-append n id (e ∷ es) fs h k =
    (h.0, h.1, Numbered-append (n + 1) id es fs h.2 (subst (λ m. Numbered m id fs) (omega arith) k))

-- `log` is what the sink has been given: it gets every event, and nothing else changes it.
pub record Logs {W : Type 0} (env : Environment W) (deliver : Event → W → Option GoError × W)
    (log : W → List Event) : Type 0 where
  pub sink : env.sink ≡ some deliver
  pub logged : (e : Event) (w : W) → log (deliver e w).1 ≡ log w ++ e ∷ []
  pub unlogged : (prefix : Text) (w : W) → log (env.new_id prefix w).1 ≡ log w

module _ {W : Type 0} (log : W → List Event) where
  -- The second state is later: its sink has been given more events, numbered on from the first.
  pub record IsLater (s t : Machine W) : Type 0 where
    pub events : List Event
    pub given : log t.world ≡ log s.world ++ events
    pub numbered : Numbered s.task.sequence s.task.id events
    pub counted : t.task.sequence ≡ s.task.sequence + length events
    pub same : t.task.id ≡ s.task.id

  IsLater-stay : (s : Machine W) → IsLater s s
  IsLater-stay s = record {
    events = [];
    given = sym (append-nil (log s.world));
    numbered = tt;
    counted = omega arith;
    same = refl;
  }

  IsLater-join : (s t u : Machine W) → IsLater s t → IsLater t u → IsLater s u
  IsLater-join s t u a b = record {
    events = a.events ++ b.events;
    given =
        b.given ∙ ap (λ es. es ++ b.events) a.given ∙ append_assoc (log s.world) a.events b.events;
    numbered = Numbered-append s.task.sequence s.task.id a.events b.events a.numbered (
        subst (λ n. Numbered n s.task.id b.events) a.counted
          (subst (λ id. Numbered t.task.sequence id b.events) a.same b.numbered));
    counted = omega (arith, a.counted, b.counted, length-append a.events b.events);
    same = b.same ∙ a.same;
  }

  pub IsLater-path : IsPath IsLater
  IsLater-path = record { stay = IsLater-stay; join = IsLater-join }

  pub with_task-IsLater :
      (f : TaskState → TaskState)
      → ((t : TaskState) → ((f t).sequence ≡ t.sequence) × ((f t).id ≡ t.id))
      → Steps IsLater (update (with_task f))
  with_task-IsLater f h = Steps-update IsLater-path (with_task f) (λ s. record {
    events = [];
    given = sym (append-nil (log s.world));
    numbered = tt;
    counted = omega (arith, (h s.task).0);
    same = (h s.task).1;
  })

  module _ (env : Environment W) (deliver : Event → W → Option GoError × W)
      (logs : Logs env deliver log) where
    item_of-log : (e : Event) (w : W) → log (item_of env e w).1 ≡ log w
    item_of-log e w =
        elim (is_empty e.item_id)
          as (λ b. log (if b then env.new_id (codes "item") w else (e.item_id, w)).1 ≡ log w) [
            | true ↦ logs.unlogged (codes "item") w
            | false ↦ refl
          ]

    sent-IsLater :
        (e : Event) (s : Machine W) (item : Text × W)
        → log item.1 ≡ log s.world
        → IsLater s
            (sent env e (record s.task { sequence = s.task.sequence + 1 }) (some deliver) item).1
    unfolding stamp
    sent-IsLater e s (item, w) h =
        let t = record s.task { sequence = s.task.sequence + 1 } in
        let e' = stamp env t item (env.now w) e in
        record {
          events = e' ∷ [];
          given = logs.logged e' w ∙ ap (λ es. es ++ e' ∷ []) h;
          numbered = (refl, refl, tt);
          counted = refl;
          same = refl;
        }

    pub emit-IsLater : (e : Event) → Steps IsLater (emit env e)
    unfolding emit
    emit-IsLater e = record {
      at = λ s. rw logs.sink (sent-IsLater e s (item_of env e s.world) (item_of-log e s.world));
    }
