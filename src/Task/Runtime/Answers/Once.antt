-- ===== src/Task/Runtime/Answers/Once.antt =====
-- Task.AnswerInteraction in task_runtime.go: only a fitting response to a waiting request is taken,
-- and a request is answered once.
use tracklogic_agent.Common.{
  ◌≡◌, refl, ap, ◌∙◌, Bool, true, false, Text, text_eq_refl, Option, none, some, lookup,
  lookup-erase,
}
use tracklogic_agent.Types.{GoError, InteractionError, ok, err}
use tracklogic_agent.Exec.{update, lift, gets, bind-ok, bind-err}
use tracklogic_agent.Exec.Steps.{Steps, IsPath, Steps-update, steps}
use tracklogic_agent.Exec.Runs.{
  bind-IsBound, gets-ran, lift-ran, require-ran, Leaves, Leaves-rest, Leaves-then, Leaves-update,
}
use tracklogic_agent.Interaction.{Response}
use tracklogic_agent.Interaction.Answers.{Accepts, validate_against-Accepts}
use tracklogic_agent.Task.Protocol.{Event}
use tracklogic_agent.Task.Runtime.{
  TaskState, TurnState, PendingInteraction, Job, Machine, Environment, with_task, put_turn,
  remove_pending, put_answer, spawn,
}
use tracklogic_agent.Task.Runtime.Emit.{emit, sent, item_of}
use tracklogic_agent.Task.Runtime.Checkpoints.{runtime_emit}
use tracklogic_agent.Task.Runtime.Inputs.{as_error}
use tracklogic_agent.Task.Runtime.Answers.{
  awaited, not_waiting, resume_restored_interaction, answer_interaction, give,
}

-- No interaction `id` waits.
pub record IsGone {W : Type 0} (id : Text) (s : Machine W) : Type 0 where
  pub gone : lookup id s.task.pending ≡ none

module _ {W : Type 0} (id : Text) where
  -- An interaction that is gone stays gone.
  abbrev StaysGone : Machine W → Machine W → Type 0
  StaysGone s t = IsGone id s → IsGone id t

  StaysGone-path : IsPath StaysGone
  StaysGone-path = record { stay = λ s h. h; join = λ s t u h k g. k (h g) }

  erased-IsGone : (s : Machine W) → IsGone id (with_task (remove_pending id) s)
  erased-IsGone s = record { gone = lookup-erase id id s.task.pending ∙ rw (text_eq_refl id) refl }

  keeps-StaysGone :
      (f : TaskState → TaskState)
      → ((t : TaskState) → (f t).pending ≡ t.pending)
      → Steps StaysGone (update (with_task {W = W} f))
  keeps-StaysGone f h =
      Steps-update StaysGone-path (with_task f)
        (λ s g. record { gone = ap (lookup id) (h s.task) ∙ g.gone })

  put_turn-StaysGone :
      (turn : Text) (t : TurnState) → Steps StaysGone (update (with_task (put_turn turn t)))
  put_turn-StaysGone turn t = keeps-StaysGone (put_turn turn t) (λ s. refl)

  spawn-StaysGone :
      (turn : Text) (job : Job) → Steps StaysGone (update (with_task (spawn turn job)))
  spawn-StaysGone turn job = keeps-StaysGone (spawn turn job) (λ s. refl)

module _ {W : Type 0} (env : Environment W) where
  sent-pending :
      (e : Event) (t : TaskState) (o : Option (Event → W → Option GoError × W)) (item : Text × W)
      → (sent env e t o item).1.task.pending ≡ t.pending
  sent-pending e t none (item, w) = refl
  sent-pending e t (some sink) (item, w) = refl

  emit-StaysGone : (id : Text) (e : Event) → Steps (StaysGone id) (emit env e)
  unfolding emit
  emit-StaysGone id e = record {
    at = λ s g. record {
      gone = ap (lookup id) (sent-pending e _ env.sink (item_of env e s.world)) ∙ g.gone;
    };
  }

  runtime_emit-StaysGone :
      (id turn : Text) (e : Event) → Steps (StaysGone id) (runtime_emit env turn e)
  unfolding runtime_emit
  runtime_emit-StaysGone id turn e = emit-StaysGone id _

  awaited-ok :
      (id : Text) (o : Option PendingInteraction) (p : PendingInteraction)
      → awaited env id o ≡ ok p
      → o ≡ some p
  awaited-ok id none p h = cc h
  awaited-ok id (some q) p h = cc h

  -- The response is to a request that waited, which accepts it.
  pub record IsTaken (response : Response) (s : Machine W) : Type 0 where
    pub pending : PendingInteraction
    pub waited : lookup response.request_id s.task.pending ≡ some pending
    pub accepted : Accepts pending.request response

  as_error-none : (o : Option InteractionError) → as_error o ≡ none → o ≡ none
  as_error-none none h = refl
  as_error-none (some e) h = cc h

  resumed-IsGone :
      (response : Response)
      → Leaves (IsGone response.request_id) (resume_restored_interaction env response)
  unfolding resume_restored_interaction
  resumed-IsGone response =
      let id = response.request_id in
      Leaves-rest (IsGone id) _ _ (λ waiting. Leaves-rest (IsGone id) _ _ (λ p.
        Leaves-rest (IsGone id) _ _ (λ state.
          Leaves-then (IsGone id) _ _ (Leaves-update (IsGone id) _ (erased-IsGone id)) (λ _.
            search
              (steps, StaysGone-path, put_turn-StaysGone, spawn-StaysGone, runtime_emit-StaysGone)
              depth 40))))

  put_answer-IsGone :
      (response : Response) (s : Machine W)
      → IsGone response.request_id
          (with_task (λ t. put_answer response (remove_pending response.request_id t)) s)
  put_answer-IsGone response s = record { gone = (erased-IsGone response.request_id s).gone }

  give-IsGone :
      (response : Response) (b : Bool) → Leaves (IsGone response.request_id) (give env response b)
  give-IsGone response true = resumed-IsGone response
  give-IsGone response false =
      Leaves-update (IsGone response.request_id) _ (put_answer-IsGone response)

  answered-IsGone :
      (response : Response) → Leaves (IsGone response.request_id) (answer_interaction env response)
  unfolding answer_interaction
  answered-IsGone response =
      let id = response.request_id in
      Leaves-rest (IsGone id) _ _ (λ waiting. Leaves-rest (IsGone id) _ _ (λ p.
        Leaves-rest (IsGone id) _ _
          (λ _. Leaves-rest (IsGone id) _ _ (λ _. give-IsGone response p.restored))))

  answered-IsTaken :
      (response : Response) (s u : Machine W) (b : Unit {0})
      → answer_interaction env response s ≡ (ok b, u)
      → IsTaken response s
  unfolding answer_interaction
  answered-IsTaken response s u b h =
      let waiting = bind-IsBound _ _ s b u h in
      let p = bind-IsBound _ _ waiting.between b u waiting.rest_ran in
      let valid = bind-IsBound _ _ p.between b u p.rest_ran in
      let found = lift-ran _ _ _ _ p.first_ran in
      let checked = require-ran _ _ _ _ _ valid.first_ran in
      record {
        pending = p.first;
        waited =
            (gets-ran _ _ _ _ waiting.first_ran).0 ∙ awaited-ok response.request_id _ _ found.0;
        accepted =
            (validate_against-Accepts response p.first.request).0 (as_error-none _ checked.0);
      }

  refused :
      (response : Response) (s : Machine W)
      → lookup response.request_id s.task.pending ≡ none
      → answer_interaction env response s ≡ (err (not_waiting env response.request_id), s)
  unfolding answer_interaction gets lift
  refused response s h =
      bind-ok (gets (λ s. lookup response.request_id s.task.pending)) _ none s s (rw h refl)
      ∙ bind-err (lift (awaited env response.request_id none)) _ _ s s refl

  -- A response that AnswerInteraction takes is to an interaction that was waiting, and answers its
  -- request as the request demands; the interaction waits no longer, so that a response to it after
  -- that one is refused and changes nothing.
  pub answer_interaction-IsTaken :
      (response again : Response) (s u : Machine W) (b : Unit {0})
      → answer_interaction env response s ≡ (ok b, u)
      → again.request_id ≡ response.request_id
      → IsTaken response s
        × (answer_interaction env again u ≡ (err (not_waiting env again.request_id), u))
  answer_interaction-IsTaken response again s u b h same = (
    answered-IsTaken response s u b h,
    refused again u (
        ap (λ id. lookup id u.task.pending) same ∙ ((answered-IsGone response).after s b u h).gone),
  )
