-- ===== src/Task/Runtime/Restore/Safety.antt =====
-- Harness.RestoreTask in task_runtime.go: what a restored Task runs.
use tracklogic_agent.Common.{
  ℕ, ◌≡◌, refl, ap, subst, ◌∙◌, ◌⊎◌, inl, inr, Bool, true, false, not, ◌&&◌, Text, ◌++◌, [], ◌∷◌,
  Option, none, some, is_some, if◌then◌else◌, lookup, max, arith,
}
use tracklogic_agent.Types.{GoError, Result, ok, err, ToolCall}
use tracklogic_agent.Exec.{update}
use tracklogic_agent.Exec.Steps.{Steps, IsPath, Steps-update, steps}
use tracklogic_agent.Interaction.{Request}
use tracklogic_agent.Task.Protocol.{
  TurnKind, TurnResult, agent, team, workflow, AgentCheckpoint, Checkpoint,
}
use tracklogic_agent.Task.Runtime.{
  TaskState, TurnState, PendingInteraction, continue_agent, spawn, Machine, Environment, with_task,
  put_turn, put_pending,
}
use tracklogic_agent.Task.Runtime.Create.Fresh.{IsFresh, initial_task-IsFresh}
use tracklogic_agent.Task.Runtime.Create.{default_options, new_task, begun_task}
use tracklogic_agent.Task.Runtime.Restore.{
  continue_restored_agent, continue_agent_turn, continue_turn, restore_conversation,
  install_interaction, install_checkpoint, installed, restored_from, restore_task, later,
}

-- The one job of the Task continues the Agent of the checkpoint, which waits on nothing.
pub record IsContinuation {W : Type 0} (env : Environment W) (c : Checkpoint) (t : TaskState)
    : Type 0 where
  pub continued : AgentCheckpoint
  pub kind_is : c.kind ≡ agent
  pub agent_is : c.agent ≡ some continued
  pub no_call : continued.pending_tool_call ≡ none
  pub no_question : c.interaction ≡ none
  pub known : env.has_agent c.target ≡ true
  pub job_is : t.jobs ≡ (c.turn_id, continue_agent c.target continued) ∷ []

-- The same jobs and the same sequence.
abbrev SameWork : {W : Type 0} → Machine W → Machine W → Type 0
SameWork s t = (t.task.jobs ≡ s.task.jobs) × (t.task.sequence ≡ s.task.sequence)

restore_conversation-kept :
    (o : Option AgentCheckpoint) (t : TaskState)
    → ((restore_conversation o t).jobs ≡ t.jobs)
      × ((restore_conversation o t).sequence ≡ t.sequence)
restore_conversation-kept none t = (refl, refl)
restore_conversation-kept (some a) t = (refl, refl)

module _ {W : Type 0} where
  SameWork-path : IsPath (SameWork {W = W})
  SameWork-path = record { stay = λ s. (refl, refl); join = λ s t u h k. (k.0 ∙ h.0, k.1 ∙ h.1) }

  keeps-SameWork :
      (f : TaskState → TaskState)
      → ((t : TaskState) → ((f t).jobs ≡ t.jobs) × ((f t).sequence ≡ t.sequence))
      → Steps (SameWork {W = W}) (update (with_task f))
  keeps-SameWork f h = Steps-update SameWork-path (with_task f) (λ s. h s.task)

  put_turn-SameWork :
      (id : Text) (t : TurnState) → Steps (SameWork {W = W}) (update (with_task (put_turn id t)))
  put_turn-SameWork id t = keeps-SameWork (put_turn id t) (λ s. (refl, refl))

  put_pending-SameWork :
      (p : PendingInteraction) → Steps (SameWork {W = W}) (update (with_task (put_pending p)))
  put_pending-SameWork p = keeps-SameWork (put_pending p) (λ s. (refl, refl))

  restore_conversation-SameWork :
      (o : Option AgentCheckpoint)
      → Steps (SameWork {W = W}) (update (with_task (restore_conversation o)))
  restore_conversation-SameWork o =
      keeps-SameWork (restore_conversation o) (restore_conversation-kept o)

  install_interaction-SameWork :
      (c : Checkpoint) (t : TurnState) (o : Option Request)
      → Steps (SameWork {W = W}) (install_interaction c t o)
  install_interaction-SameWork c t none = put_turn-SameWork _ _
  install_interaction-SameWork c t (some request) =
      search (steps, SameWork-path, put_pending-SameWork)

  install_checkpoint-SameWork : (c : Checkpoint) → Steps (SameWork {W = W}) (install_checkpoint c)
  unfolding install_checkpoint
  install_checkpoint-SameWork c =
      search
        (
          steps, SameWork-path, put_turn-SameWork, restore_conversation-SameWork,
          install_interaction-SameWork,
        )
        depth 24

continued-jobs :
    (c : Checkpoint) (a : AgentCheckpoint) (known : Bool) (result : Option TurnResult)
    (t u : TaskState)
    → t.jobs ≡ []
    → u.jobs ≡ t.jobs
    → let t' =
        if not (is_some result) && known
        then spawn c.turn_id (continue_agent c.target a) u
        else t in
      (t'.jobs ≡ []) ⊎ ((known ≡ true) × (t'.jobs ≡ (c.turn_id, continue_agent c.target a) ∷ []))
continued-jobs c a true none t u h same =
    inr (refl, ap (λ jobs. jobs ++ (c.turn_id, continue_agent c.target a) ∷ []) (same ∙ h))
continued-jobs c a false none t u h same = inl h
continued-jobs c a known (some r) t u h same = inl h

continue_turn-jobs :
    (c : Checkpoint) (a : AgentCheckpoint) (known : Bool) (o : Option TurnState) (t : TaskState)
    → t.jobs ≡ []
    → ((continue_turn c a known o t).jobs ≡ [])
      ⊎ ((known ≡ true)
          × ((continue_turn c a known o t).jobs ≡ (c.turn_id, continue_agent c.target a) ∷ []))
continue_turn-jobs c a known none t h = inl h
continue_turn-jobs c a known (some turn) t h = continued-jobs c a known turn.result t _ h refl

continue_turn-sequence :
    (c : Checkpoint) (a : AgentCheckpoint) (known : Bool) (o : Option TurnState) (t : TaskState)
    → (continue_turn c a known o t).sequence ≡ t.sequence
continue_turn-sequence c a known none t = refl
continue_turn-sequence c a known (some turn) t = ground arith

module _ {W : Type 0} (env : Environment W) (c : Checkpoint) where
  abbrev pub RunsSafely : TaskState → Type 0
  RunsSafely t = (t.jobs ≡ []) ⊎ IsContinuation env c t

  calm-RunsSafely :
      (a : AgentCheckpoint) (call : Option ToolCall) (o : Option TurnState) (t : TaskState)
      → c.kind ≡ agent
      → c.agent ≡ some a
      → c.interaction ≡ none
      → a.pending_tool_call ≡ call
      → t.jobs ≡ []
      → RunsSafely (if is_some call then t else continue_turn c a (env.has_agent c.target) o t)
  calm-RunsSafely a (some call) o t hk ha hi hc h = inl h
  calm-RunsSafely a none o t hk ha hi hc h =
      elim (continue_turn-jobs c a (env.has_agent c.target) o t h) [
        | inl idle ↦ inl idle
        | inr runs ↦ inr (record {
          continued = a;
          kind_is = hk;
          agent_is = ha;
          no_call = hc;
          no_question = hi;
          known = runs.0;
          job_is = runs.1;
        })
      ]

  continued-RunsSafely :
      (kind : TurnKind) (o : Option AgentCheckpoint) (request : Option Request) (t : TaskState)
      → c.kind ≡ kind
      → c.agent ≡ o
      → c.interaction ≡ request
      → t.jobs ≡ []
      → RunsSafely (continue_agent_turn kind o request c (env.has_agent c.target) t)
  continued-RunsSafely agent none request t hk ha hi h = inl h
  continued-RunsSafely agent (some a) none t hk ha hi h =
      calm-RunsSafely a a.pending_tool_call (lookup c.turn_id t.turns) t hk ha hi refl h
  continued-RunsSafely agent (some a) (some request) t hk ha hi h = inl h
  continued-RunsSafely team o request t hk ha hi h = inl h
  continued-RunsSafely workflow o request t hk ha hi h = inl h

  continued-sequence :
      (kind : TurnKind) (o : Option AgentCheckpoint) (request : Option Request) (t : TaskState)
      → (continue_agent_turn kind o request c (env.has_agent c.target) t).sequence ≡ t.sequence
  continued-sequence agent none request t = refl
  continued-sequence agent (some a) none t =
      elim (is_some a.pending_tool_call)
        as (λ b.
          (if b
            then t
            else continue_turn c a (env.has_agent c.target) (lookup c.turn_id t.turns) t).sequence
          ≡ t.sequence) [
            | true ↦ refl
            | false ↦
                continue_turn-sequence c a (env.has_agent c.target) (lookup c.turn_id t.turns) t
          ]
  continued-sequence agent (some a) (some request) t = refl
  continued-sequence team o request t = refl
  continued-sequence workflow o request t = refl

  record IsRestored (n : ℕ) (out : Result TaskState × W) : Type 0 where
    pub safe : (t : TaskState) → out.0 ≡ ok t → (t.sequence ≡ n) × RunsSafely t

  refused-IsRestored : (n : ℕ) (e : GoError) (w : W) → IsRestored n (err e, w)
  refused-IsRestored n e w = record { safe = λ t h. cc h }

  installed-IsRestored :
      (n : ℕ) (out : Result (Unit {0}) × Machine W)
      → out.1.task.jobs ≡ []
      → out.1.task.sequence ≡ n
      → IsRestored n (installed env c out)
  unfolding continue_restored_agent
  installed-IsRestored n (err e, s) h k = refused-IsRestored n e s.world
  installed-IsRestored n (ok tt, s) h k = record {
    safe = λ t eq.
        subst (λ r. elim r [ err e ↦ Unit | ok u ↦ (u.sequence ≡ n) × RunsSafely u ]) eq
          (
            continued-sequence c.kind c.agent c.interaction s.task ∙ k,
            continued-RunsSafely c.kind c.agent c.interaction s.task refl refl refl h,
          );
  }

  restored_from-IsRestored :
      (n : ℕ) (r : Result TaskState) (w : W)
      → IsFresh n r
      → IsRestored n (restored_from env c (begun_task env false w r))
  restored_from-IsRestored n (err e) w h = refused-IsRestored n e w
  restored_from-IsRestored n (ok t) w h =
      let s : Machine W = record { task = t; world = w } in
      let same = (install_checkpoint-SameWork c).at s in
      let start = h.fresh t refl in
      installed-IsRestored n (install_checkpoint c s) (same.0 ∙ start.no_jobs)
        (same.1 ∙ start.numbers_from)

  if-IsRestored :
      (n : ℕ) (b : Bool) (e : GoError) (w : W) (r : Result TaskState × W)
      → IsRestored n r
      → IsRestored n (if b then (err e, w) else r)
  if-IsRestored n true e w r h = refused-IsRestored n e w
  if-IsRestored n false e w r h = h

  restore_task-IsRestored :
      (id : Text) (last : ℕ) (w : W)
      → IsRestored (later env last c.last_sequence) (restore_task env id c last w)
  unfolding restore_task new_task
  restore_task-IsRestored id last w =
      let n = later env last c.last_sequence in
      search
        (if-IsRestored, restored_from-IsRestored n, initial_task-IsFresh (default_options id) n)

  -- A Task that RestoreTask gives numbers its events on from the later of the two sequences that it is
  -- told of. It has no job, or one: to continue the Agent of the checkpoint, where this is the
  -- checkpoint of an Agent's turn, no tool call and no question is open in it, and the Agent is
  -- known.
  pub restore_task-RunsSafely :
      (id : Text) (last : ℕ) (w w' : W) (t : TaskState)
      → restore_task env id c last w ≡ (ok t, w')
      → (t.sequence ≡ max last c.last_sequence) × RunsSafely t
  restore_task-RunsSafely id last w w' t h =
      let (n, safe) = (restore_task-IsRestored id last w).safe t (ap (λ out. out.0) h) in
      (n ∙ ground arith, safe)
