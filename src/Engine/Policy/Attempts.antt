-- ===== src/Engine/Policy/Attempts.antt =====
-- How often engine/reliability.go calls the model, and what a call leaves in its circuit.
use tracklogic_agent.Common.{
  ℕ, zero, suc, ◌+◌, ◌≤◌, ◌<◌, ◌≡◌, refl, ◌∙◌, ◌⊎◌, inl, inr, Bool-cases, Bool, true, false, List,
  [], ◌∷◌, Option, none, some, arith, subst, ap, ℤ,
}
use tracklogic_agent.Types.{GoError, Result, ok, err}
use tracklogic_agent.Model.{InvokeRequest, InvokeResponse}
use tracklogic_agent.Task.Protocol.{Event}
use tracklogic_agent.Engine.Stream.{Stream, Delta, consume_stream}
use tracklogic_agent.Engine.Circuit.{ReliabilityManager, CircuitOutcome, Ticket}
use tracklogic_agent.Engine.Runtime.{Runtime}
use tracklogic_agent.Engine.Policy.{
  Handler, deliver, drain_stream, invoke_model, started, reset, wait_for, wait_retry, must_stop,
  attempts, allow_call, finish_call, invoke_with_policy, after_wait, after_call, finished,
  after_allow,
}

-- `calls` counts the calls of the model, and nothing else that the runtime does changes it.
abbrev pub is_ok : {A : Type 0} → Result A → Bool
is_ok (ok a) = true
is_ok (err e) = false

pub record Counts {W : Type 0} (rt : Runtime W) (calls : W → ℕ) : Type 0 where
  pub emitted : (e : Event) (w : W) → calls (rt.emit e w).1 ≡ calls w
  pub slept : (d : ℤ) (w : W) → calls (rt.sleep d w).1 ≡ calls w
  pub stored : (m : ReliabilityManager) (w : W) → calls (rt.set_circuits m w) ≡ calls w
  pub invoked : (r : InvokeRequest) (w : W) → calls (rt.invoke r w).1 ≡ calls w + 1
  pub streamed : (r : InvokeRequest) (w : W) → calls (rt.invoke_stream r w).1 ≡ calls w + 1

abbrev pub Keeps : {W : Type 0} → (W → ℕ) → Handler W → Type 0
Keeps calls none = Unit
Keeps {W} calls (some handle) = (d : Delta) (w : W) → calls (handle d w) ≡ calls w

module _ {W : Type 0} (rt : Runtime W) (calls : W → ℕ) (counts : Counts rt calls) where
  calls-deliver :
      (handle : Delta → W → W) (ds : List Delta) (w : W)
      → ((d : Delta) (w : W) → calls (handle d w) ≡ calls w)
      → calls (deliver handle ds w) ≡ calls w
  unfolding deliver
  calls-deliver handle [] w keeps = refl
  calls-deliver handle (d ∷ ds) w keeps = calls-deliver handle ds (handle d w) keeps ∙ keeps d w

  calls-drain_stream :
      (handle : Delta → W → W) (out : Result (Option Stream) × W)
      → ((d : Delta) (w : W) → calls (handle d w) ≡ calls w)
      → calls (drain_stream rt handle out).2 ≡ calls out.1
  unfolding drain_stream
  calls-drain_stream handle (err e, w) keeps = refl
  calls-drain_stream handle (ok none, w) keeps = refl
  calls-drain_stream handle (ok (some s), w) keeps =
      calls-deliver handle (consume_stream s).1 w keeps

  calls-invoke_model :
      (handler : Handler W) (request : InvokeRequest) (w : W)
      → Keeps calls handler
      → calls (invoke_model rt handler request w).2 ≡ calls w + 1
  unfolding invoke_model
  calls-invoke_model none request w keeps = counts.invoked request w
  calls-invoke_model (some handle) request w keeps =
      calls-drain_stream handle (rt.invoke_stream request w) keeps ∙ counts.streamed request w

  calls-reset : (streamed : Bool) (w : W) → calls (reset rt streamed w) ≡ calls w
  calls-reset false w = refl
  calls-reset true w = counts.emitted _ w

  calls-wait_for :
      (attempt : ℕ) (o : Option ℤ) (w : W) → calls (wait_for rt attempt o w).1 ≡ calls w
  calls-wait_for attempt none w = refl
  calls-wait_for attempt (some delay) w = counts.slept _ _ ∙ counts.emitted _ _

  calls-wait_retry :
      (attempt : ℕ) (e : GoError) (streamed : Bool) (w : W)
      → calls (wait_retry rt attempt e streamed w).1 ≡ calls w
  unfolding wait_retry
  calls-wait_retry attempt e streamed w =
      calls-wait_for attempt _ (reset rt streamed w) ∙ calls-reset streamed w

  -- The loop makes at most one call a round, and at least one where it yields a response.
  record Bounded (before rounds : ℕ) (out : Result (Option InvokeResponse) × CircuitOutcome × W)
      : Type 0 where
    low : before ≤ calls out.2
    high : calls out.2 ≤ before + rounds
    made : (is_ok out.0 ≡ false) ⊎ (before < calls out.2)

  abbrev After : Type 0
  After = Result (Option InvokeResponse) × CircuitOutcome × W

  after_wait-Bounded :
      (n rounds : ℕ) (more : W → After) (out : Option GoError × W)
      → calls out.1 ≡ n
      → ((w : W) → Bounded (calls w) rounds (more w))
      → Bounded n rounds (after_wait rt more out)
  after_wait-Bounded n rounds more (some e, w) h ih = ground arith
  after_wait-Bounded n rounds more (none, w) h ih = subst (λ k. Bounded k rounds (more w)) h (ih w)

  Bounded-suc :
      (n rounds : ℕ) (out : After) → Bounded (n + 1) rounds out → Bounded n (suc rounds) out
  Bounded-suc n rounds out b = record {
    low = omega (arith, b.low);
    high = omega (arith, b.high);
    made = inr (omega (arith, b.low));
  }

  after_call-Bounded :
      (n rounds attempt : ℕ) (more : W → After) (out : Result (Option InvokeResponse) × Bool × W)
      → calls out.2 ≡ n + 1
      → ((w : W) → Bounded (calls w) rounds (more w))
      → Bounded n (suc rounds) (after_call rt attempt more out)
  unfolding after_call
  after_call-Bounded n rounds attempt more (ok response, streamed, w) h ih = ground arith
  after_call-Bounded n rounds attempt more (err e, streamed, w) h ih =
      elim (Bool-cases (must_stop rt attempt e w)) [
        | inl stop ↦ rw (stop, after_call) (ground arith)
        | inr go ↦
            rw (go, after_call)
              (Bounded-suc n rounds (after_wait rt more (wait_retry rt attempt e streamed w)) (
                after_wait-Bounded (n + 1) rounds more (wait_retry rt attempt e streamed w)
                  (calls-wait_retry attempt e streamed w ∙ h) ih))
      ]

  attempts-Bounded :
      (handler : Handler W) (request : InvokeRequest) (rounds attempt : ℕ) (w : W)
      → Keeps calls handler
      → Bounded (calls w) rounds (attempts rt handler request rounds attempt w)
  unfolding attempts
  attempts-Bounded handler request zero attempt w keeps = ground arith
  attempts-Bounded handler request (suc rounds) attempt w keeps =
      after_call-Bounded (calls w) rounds attempt
        (λ w'. attempts rt handler request rounds (attempt + 1) w')
        (invoke_model rt handler request (started rt attempt w))
        (calls-invoke_model handler request (started rt attempt w) keeps
          ∙ ap (λ k. k + 1) (counts.emitted _ w))
        (λ w'. attempts-Bounded handler request rounds (attempt + 1) w' keeps)

  calls-allow_call : (w : W) → calls (allow_call rt w).1 ≡ calls w
  unfolding allow_call
  calls-allow_call w = elim (Bool-cases rt.managed) [
    | inl m ↦ rw m (counts.stored _ w)
    | inr n ↦ rw n
  ]

  calls-finish_call :
      (t : Option Ticket) (o : CircuitOutcome) (w : W) → calls (finish_call rt t o w) ≡ calls w
  unfolding finish_call
  calls-finish_call none o w = refl
  calls-finish_call (some t) o w = counts.stored _ w

  -- What a whole call does to the counter.
  pub record Spends (before rounds : ℕ) (out : Result (Option InvokeResponse) × W) : Type 0 where
    pub low : before ≤ calls out.1
    pub high : calls out.1 ≤ before + rounds
    pub made : (is_ok out.0 ≡ false) ⊎ (before < calls out.1)

  finished-Spends :
      (n rounds : ℕ) (t : Option Ticket) (out : After)
      → Bounded n rounds out
      → Spends n rounds (finished rt t out)
  finished-Spends n rounds t (result, outcome, w) b = record {
    low = omega (arith, b.low, calls-finish_call t outcome w);
    high = omega (arith, b.high, calls-finish_call t outcome w);
    made = ground (arith, b.made, calls-finish_call t outcome w);
  }

  after_allow-Spends :
      (n rounds : ℕ) (run : W → After) (out : Result (Option Ticket) × W)
      → calls out.1 ≡ n
      → ((w : W) → Bounded (calls w) rounds (run w))
      → Spends n rounds (after_allow rt run out)
  after_allow-Spends n rounds run (err e, w) h ih = ground arith
  after_allow-Spends n rounds run (ok t, w) h ih =
      finished-Spends n rounds t (run w) (subst (λ k. Bounded k rounds (run w)) h (ih w))

  invoke_with_policy-Spends :
      (handler : Handler W) (request : InvokeRequest) (w : W)
      → Keeps calls handler
      → Spends (calls w) rt.retry_policy.max_attempts (invoke_with_policy rt handler request w)
  unfolding invoke_with_policy
  invoke_with_policy-Spends handler request w keeps =
      after_allow-Spends (calls w) rt.retry_policy.max_attempts _ (allow_call rt w)
        (calls-allow_call w)
        (λ w'. attempts-Bounded handler request rt.retry_policy.max_attempts 1 w' keeps)

  -- Counted by a counter that every call of the model advances by one, and that nothing else changes,
  -- the stream's handler included, one call under the policies calls the model at most as often as the retry settings allow
  -- attempts, and it ends in an error or has called the model at least once.
  pub invoke_with_policy_calls :
      (handler : Handler W) (request : InvokeRequest) (w : W)
      → Keeps calls handler
      → let out = invoke_with_policy rt handler request w in
        (calls w ≤ calls out.1)
        × (calls out.1 ≤ calls w + rt.retry_policy.max_attempts)
        × ((is_ok out.0 ≡ false) ⊎ (calls w < calls out.1))
  invoke_with_policy_calls handler request w keeps =
      let spent = invoke_with_policy-Spends handler request w keeps in
      (spent.low, spent.high, spent.made)
