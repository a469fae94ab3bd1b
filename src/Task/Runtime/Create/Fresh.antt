-- ===== src/Task/Runtime/Create/Fresh.antt =====
-- Harness.newTask in task_runtime.go: the Task that it makes.
use tracklogic_agent.Common.{
  ℕ, ◌+◌, ◌≡◌, refl, ap, subst, Bool, true, false, Text, [], Option, none, some, if◌then◌else◌,
}
use tracklogic_agent.Types.{GoError, Result, ok, err}
use tracklogic_agent.Task.Config.{
  RetryConfig, CircuitConfig, SummaryConfig, normalize_retry, normalize_circuit, normalize_summary,
}
use tracklogic_agent.Task.Config.Normal.{
  IsRetry, IsCircuit, IsSummary, normalize_retry-IsRetry, normalize_circuit-IsCircuit,
  normalize_summary-IsSummary,
}
use tracklogic_agent.Task.Protocol.{Event}
use tracklogic_agent.Task.Runtime.{TaskState, Machine, Environment}
use tracklogic_agent.Task.Runtime.Emit.{emit, sent, item_of}
use tracklogic_agent.Task.Runtime.Create.{
  TaskOptions, initial_task, new_task, retry_checked, circuit_checked, summary_checked, started,
  begun_task,
}

-- A Task without turns that numbers its events on from `n`, with settings in their ranges.
pub record StartsFrom (n : ℕ) (t : TaskState) : Type 0 where
  pub numbers_from : t.sequence ≡ n
  pub no_jobs : t.jobs ≡ []
  pub no_turns : t.turns ≡ []
  pub nothing_pending : t.pending ≡ []
  pub is_open : t.closed ≡ false
  pub retry_sound : IsRetry t.retry
  pub circuit_sound : IsCircuit t.circuit
  pub summary_sound : IsSummary t.summary

pub record IsFresh (n : ℕ) (r : Result TaskState) : Type 0 where
  pub fresh : (t : TaskState) → r ≡ ok t → StartsFrom n t

refused-IsFresh : (n : ℕ) (e : GoError) → IsFresh n (err e)
refused-IsFresh n e = record { fresh = λ t h. cc h }

made-IsFresh : (n : ℕ) (t : TaskState) → StartsFrom n t → IsFresh n (ok t)
made-IsFresh n t h = record {
  fresh = λ u eq. subst (λ r. elim r [ err e ↦ Unit | ok v ↦ StartsFrom n v ]) eq h;
}

module _ (o : TaskOptions) (n : ℕ) where
  summary_checked-IsFresh :
      (retry : RetryConfig) (circuit : CircuitConfig) (r : Result SummaryConfig)
      → IsRetry retry
      → IsCircuit circuit
      → normalize_summary o.summary ≡ r
      → IsFresh n (summary_checked o n retry circuit r)
  summary_checked-IsFresh retry circuit (err e) hr hc h = refused-IsFresh n e
  summary_checked-IsFresh retry circuit (ok summary) hr hc h = made-IsFresh n _ (record {
    numbers_from = refl;
    no_jobs = refl;
    no_turns = refl;
    nothing_pending = refl;
    is_open = refl;
    retry_sound = hr;
    circuit_sound = hc;
    summary_sound = normalize_summary-IsSummary o.summary h;
  })

  circuit_checked-IsFresh :
      (retry : RetryConfig) (r : Result CircuitConfig)
      → IsRetry retry
      → normalize_circuit o.circuit ≡ r
      → IsFresh n (circuit_checked o n retry r)
  circuit_checked-IsFresh retry (err e) hr h = refused-IsFresh n e
  circuit_checked-IsFresh retry (ok circuit) hr h =
      summary_checked-IsFresh retry circuit (normalize_summary o.summary) hr
        (normalize_circuit-IsCircuit o.circuit h) refl

  retry_checked-IsFresh :
      (r : Result RetryConfig) → normalize_retry o.retry ≡ r → IsFresh n (retry_checked o n r)
  retry_checked-IsFresh (err e) h = refused-IsFresh n e
  retry_checked-IsFresh (ok retry) h =
      circuit_checked-IsFresh retry (normalize_circuit o.circuit)
        (normalize_retry-IsRetry o.retry h) refl

  if-IsFresh :
      (b : Bool) (e : GoError) (r : Result TaskState)
      → IsFresh n r
      → IsFresh n (if b then err e else r)
  if-IsFresh true e r h = refused-IsFresh n e
  if-IsFresh false e r h = h

  pub initial_task-IsFresh : IsFresh n (initial_task o n)
  unfolding initial_task
  initial_task-IsFresh = if-IsFresh _ _ _ (retry_checked-IsFresh (normalize_retry o.retry) refl)

module _ {W : Type 0} (env : Environment W) where
  -- The first event is counted.
  sent-StartsFrom :
      (n : ℕ) (e : Event) (t : TaskState) (o : Option (Event → W → Option GoError × W))
      (item : Text × W)
      → StartsFrom n t
      → StartsFrom n (sent env e t o item).1.task
  sent-StartsFrom n e t none (item, w) h = h
  sent-StartsFrom n e t (some sink) (item, w) h = h

  counted-StartsFrom :
      (n : ℕ) (t : TaskState)
      → StartsFrom n t
      → StartsFrom (n + 1) (record t { sequence = t.sequence + 1 })
  counted-StartsFrom n t h = record {
    numbers_from = ap (λ m. m + 1) h.numbers_from;
    no_jobs = h.no_jobs;
    no_turns = h.no_turns;
    nothing_pending = h.nothing_pending;
    is_open = h.is_open;
    retry_sound = h.retry_sound;
    circuit_sound = h.circuit_sound;
    summary_sound = h.summary_sound;
  }

  emit-StartsFrom :
      (n : ℕ) (e : Event) (s : Machine W)
      → StartsFrom n s.task
      → StartsFrom (n + 1) (emit env e s).1.task
  unfolding emit
  emit-StartsFrom n e s h =
      sent-StartsFrom (n + 1) e _ env.sink (item_of env e s.world) (counted-StartsFrom n s.task h)

  started-IsFresh :
      (n : ℕ) (out : Result (Unit {0}) × Machine W)
      → StartsFrom n out.1.task
      → IsFresh n (started env out).0
  started-IsFresh n (ok tt, s) h = made-IsFresh n s.task h
  started-IsFresh n (err e, s) h = refused-IsFresh n _

  begun_task-IsFresh :
      (n : ℕ) (emit_started : Bool) (w : W) (r : Result TaskState)
      → IsFresh n r
      → IsFresh (if emit_started then n + 1 else n) (begun_task env emit_started w r).0
  begun_task-IsFresh n emit_started w (err e) h = refused-IsFresh _ e
  begun_task-IsFresh n true w (ok t) h =
      started-IsFresh (n + 1) _
        (emit-StartsFrom n _ (record { task = t; world = w }) (h.fresh t refl))
  begun_task-IsFresh n false w (ok t) h = h

  -- A Task that newTask gives is open and has no turns, no jobs and nothing pending; its retry, circuit
  -- and summary settings are in their ranges, whatever the options; its sequence is the given one,
  -- plus one where its start was announced.
  pub new_task-StartsFrom :
      (o : TaskOptions) (n : ℕ) (emit_started : Bool) (w w' : W) (t : TaskState)
      → new_task env o n emit_started w ≡ (ok t, w')
      → StartsFrom (if emit_started then n + 1 else n) t
  unfolding new_task
  new_task-StartsFrom o n emit_started w w' t h =
      (begun_task-IsFresh n emit_started w (initial_task o n) (initial_task-IsFresh o n)).fresh t
        (ap (λ out. out.0) h)
