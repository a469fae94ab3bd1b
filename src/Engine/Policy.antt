-- ===== src/Engine/Policy.antt =====
-- engine/agent.go and engine/reliability.go: calling a model, and calling it under the retry and
-- circuit policies of a Task. The callbacks of a streamed call are one handler of deltas; they run
-- after the stream is drained, in the order of the deltas.
pub mod Attempts
pub mod Outcome
use tracklogic_agent.Common.{
  ℕ, zero, suc, ◌+◌, ◌/◌, Bool, true, false, ◌&&◌, ◌||◌, not, codes, List, [], ◌∷◌, Option, none,
  some, is_some, if◌then◌else◌, ◌==◌, ℤ, pos, negsuc,
}
use tracklogic_agent.Types.{GoError, plain, new_error, api_error, Result, ok, err}
use tracklogic_agent.Model.{InvokeRequest, InvokeResponse}
use tracklogic_agent.Task.Protocol.{
  empty_payload, event, best_effort, model_attempt_started, content_reset, model_retry_waiting,
}
use tracklogic_agent.Engine.Stream.{Stream, Delta, consume_stream}
use tracklogic_agent.Engine.Circuit.{
  CircuitOutcome, neutral, success, failure, Ticket, allow, finish,
}
use tracklogic_agent.Engine.Retry.{is_retryable_model_error, retry_delay}
use tracklogic_agent.Engine.Runtime.{Runtime}

abbrev pub some_ok : {A : Type 0} → Result A → Result (Option A)
some_ok (ok a) = ok (some a)
some_ok (err e) = err e

abbrev pub milliseconds : ℤ → ℤ
milliseconds (pos n) = pos (n / 1000000)
milliseconds (negsuc n) = elim ((n + 1) / 1000000) [ zero ↦ pos 0 | suc k ↦ negsuc k ]

abbrev has_deltas : List Delta → Bool
has_deltas [] = false
has_deltas (d ∷ ds) = true

-- The handler of a streamed call; `none` when there is no callback, and the call is not streamed.
abbrev pub Handler : Type 0 → Type 0
Handler W = Option (Delta → W → W)

pub deliver : {W : Type 0} → (Delta → W → W) → List Delta → W → W
deliver handle [] w = w
deliver handle (d ∷ ds) w = deliver handle ds (handle d w)

module _ {W : Type 0} (rt : Runtime W) where
  -- What follows InvokeStream: draining the channel. The Boolean says whether a callback has run.
  drain_stream :
      (Delta → W → W) → Result (Option Stream) × W → Result (Option InvokeResponse) × Bool × W
  unfolding deliver
  drain_stream handle (err e, w) = (err e, false, w)
  drain_stream handle (ok none, w) =
      (err (new_error api_error (codes "model returned a nil stream")), false, w)
  drain_stream handle (ok (some s), w) =
      let (result, ds) = consume_stream s in (some_ok result, has_deltas ds, deliver handle ds w)

  -- invokeModel; that the model is present has been checked by validateRunConfig.
  unfoldable pub invoke_model :
      Handler W → InvokeRequest → W → Result (Option InvokeResponse) × Bool × W
  unfolding drain_stream
  invoke_model none request w = let (result, w') = rt.invoke request w in (result, false, w')
  invoke_model (some handle) request w = drain_stream handle (rt.invoke_stream request w)

  abbrev started : ℕ → W → W
  started attempt w =
      (rt.emit
        (event model_attempt_started best_effort
          (record empty_payload { attempt = attempt; max_attempts = rt.retry_policy.max_attempts }))
        w).1

  abbrev reset : Bool → W → W
  reset false w = w
  reset true w = (rt.emit (event content_reset best_effort empty_payload) w).1

  -- The event that announces the delay, and the wait. A panic in place of the delay ends the call; here
  -- it is an error of the wait.
  abbrev pub wait_for : ℕ → Option ℤ → W → Option GoError × W
  wait_for attempt none w = (some (plain (codes "panic: invalid argument to Int64N")), w)
  wait_for attempt (some delay) w =
      rt.sleep delay
        (rt.emit
          (event model_retry_waiting best_effort (record empty_payload {
            attempt = attempt;
            max_attempts = rt.retry_policy.max_attempts;
            next_attempt = attempt + 1;
            delay_ms = milliseconds delay;
          }))
          w).1

  -- The delay before the next attempt, and the wait.
  unfoldable pub wait_retry : ℕ → GoError → Bool → W → Option GoError × W
  wait_retry attempt e streamed w =
      let w1 = reset streamed w in
      wait_for attempt
        (retry_delay rt.parse_time (rt.now w1) (rt.random w1) rt.retry_policy attempt e) w1

  abbrev Attempted : Type 0
  Attempted = Result (Option InvokeResponse) × CircuitOutcome × W

  unfoldable pub must_stop : ℕ → GoError → W → Bool
  must_stop attempt e w =
      is_some (rt.ctx_err w)
      || not (is_retryable_model_error e)
      || attempt == rt.retry_policy.max_attempts

  unfoldable pub stop_outcome : GoError → W → CircuitOutcome
  stop_outcome e w =
      if is_retryable_model_error e && not (is_some (rt.ctx_err w)) then failure else neutral

  -- After the wait: ctx.Done ends the call, the timer leads to the next attempt.
  abbrev after_wait : (W → Attempted) → Option GoError × W → Attempted
  after_wait more (some e, w) = (err e, neutral, w)
  after_wait more (none, w) = more w

  -- The body of the loop after the model call; `more` is the next round.
  unfoldable pub after_call :
      ℕ → (W → Attempted) → Result (Option InvokeResponse) × Bool × W → Attempted
  unfolding must_stop stop_outcome
  after_call attempt more (ok response, streamed, w) = (ok response, success, w)
  after_call attempt more (err e, streamed, w) = elim (must_stop attempt e w) [
    | true ↦ (err e, stop_outcome e w, w)
    | false ↦ after_wait more (wait_retry attempt e streamed w)
  ]

  -- The loop over the attempts, for the rounds that are left.
  unfoldable pub attempts : Handler W → InvokeRequest → ℕ → ℕ → W → Attempted
  unfolding after_call
  attempts handler request zero attempt w =
      (err (new_error api_error (codes "model retry budget exhausted")), failure, w)
  attempts handler request (suc rounds) attempt w =
      after_call attempt (λ w'. attempts handler request rounds (attempt + 1) w')
        (invoke_model handler request (started attempt w))

  -- manager.allow: without a manager nothing is refused, and the ticket is of no use.
  unfoldable pub allow_call : W → Result (Option Ticket) × W
  allow_call w =
      if rt.managed
      then (let (result, m) = allow rt.model_key rt.circuit_policy (rt.now w) (rt.circuits w) in
          (some_ok result, rt.set_circuits m w))
      else (ok none, w)

  unfoldable pub finish_call : Option Ticket → CircuitOutcome → W → W
  finish_call none outcome w = w
  finish_call (some t) outcome w =
      rt.set_circuits (finish rt.circuit_policy (rt.now w) outcome t (rt.circuits w)).1 w

  abbrev finished : Option Ticket → Attempted → Result (Option InvokeResponse) × W
  finished ticket (result, outcome, w) = (result, finish_call ticket outcome w)

  abbrev after_allow :
      (W → Attempted) → Result (Option Ticket) × W → Result (Option InvokeResponse) × W
  after_allow run (err e, w) = (err e, w)
  after_allow run (ok ticket, w) = finished ticket (run w)

  -- invokeModelWithTaskPolicy
  unfoldable pub invoke_with_policy :
      Handler W → InvokeRequest → W → Result (Option InvokeResponse) × W
  unfolding attempts allow_call finish_call
  invoke_with_policy handler request w =
      after_allow (λ w'. attempts handler request rt.retry_policy.max_attempts 1 w') (allow_call w)
