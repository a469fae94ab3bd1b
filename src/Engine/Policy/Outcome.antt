-- ===== src/Engine/Policy/Outcome.antt =====
-- What one call under the policies of engine/reliability.go leaves in the model's circuit.
use tracklogic_agent.Common.{
  ℕ, zero, suc, ◌+◌, ◌<◌, ◌≡◌, refl, ◌∙◌, inl, inr, Bool-cases, Bool, true, false, codes,
  text_eq_iff, text_eq_refl, Option, none, some, arith, subst, ap, insert,
}
use tracklogic_agent.Types.{GoError, new_error, circuit_open, Result, ok, err}
use tracklogic_agent.Model.{InvokeRequest, InvokeResponse}
use tracklogic_agent.Engine.Circuit.{
  ReliabilityManager, CircuitState, CircuitPhase, CircuitOutcome, success, closed, opened, Ticket,
  allow, finish, ticket_of, circuit_of, finish_state, allow_state,
}
use tracklogic_agent.Task.Config.{CircuitConfig}
use tracklogic_agent.Engine.Circuit.Invariant.{circuit_of-insert}
use tracklogic_agent.Engine.Runtime.{Runtime}
use tracklogic_agent.Engine.Policy.{
  Handler, invoke_model, started, wait_retry, must_stop, attempts, allow_call, Attempted,
  finish_call, invoke_with_policy, some_ok, after_wait, after_call, finished, after_allow,
}

-- Storing the circuits is read back by the manager.
abbrev pub StoresCircuits : {W : Type 0} → Runtime W → Type 0
StoresCircuits {W} rt = (m : ReliabilityManager) (w : W) → rt.circuits (rt.set_circuits m w) ≡ m

module _ {W : Type 0} (rt : Runtime W) where
  -- A response is always reported to the circuit as a success.
  abbrev Reports : Attempted rt → Type 0
  Reports (ok r, o, w) = o ≡ success
  Reports (err e, o, w) = Unit

  after_wait-Reports :
      (more : W → Attempted rt) (out : Option GoError × W)
      → ((w : W) → Reports (more w))
      → Reports (after_wait rt more out)
  after_wait-Reports more (some e, w) ih = tt
  after_wait-Reports more (none, w) ih = ih w

  after_call-Reports :
      (attempt : ℕ) (more : W → Attempted rt) (out : Result (Option InvokeResponse) × Bool × W)
      → ((w : W) → Reports (more w))
      → Reports (after_call rt attempt more out)
  unfolding after_call
  after_call-Reports attempt more (ok r, streamed, w) ih = refl
  after_call-Reports attempt more (err e, streamed, w) ih =
      elim (Bool-cases (must_stop rt attempt e w)) [
        | inl stop ↦ rw (stop, after_call) tt
        | inr go ↦
            rw (go, after_call) (after_wait-Reports more (wait_retry rt attempt e streamed w) ih)
      ]

  attempts-Reports :
      (handler : Handler W) (request : InvokeRequest) (rounds attempt : ℕ) (w : W)
      → Reports (attempts rt handler request rounds attempt w)
  unfolding attempts
  attempts-Reports handler request zero attempt w = tt
  attempts-Reports handler request (suc rounds) attempt w =
      after_call-Reports attempt (λ w'. attempts rt handler request rounds (attempt + 1) w')
        (invoke_model rt handler request (started rt attempt w))
        (λ w'. attempts-Reports handler request rounds (attempt + 1) w')

  abbrev circuit : W → CircuitState
  circuit w = circuit_of rt.model_key (rt.circuits w)

  -- The ticket of a managed call is fresh and names the model.
  abbrev IsFresh : Result (Option Ticket) → Type 0
  IsFresh (ok (some t)) = (t.key ≡ rt.model_key) × (t.used ≡ false)
  IsFresh (ok none) = ⊥
  IsFresh (err e) = Unit

  ticket-IsFresh : (r : Result CircuitPhase) → IsFresh (some_ok (ticket_of rt.model_key r))
  ticket-IsFresh (ok p) = (refl, refl)
  ticket-IsFresh (err e) = tt

  allow_call-IsFresh : (w : W) → rt.managed ≡ true → IsFresh (allow_call rt w).0
  unfolding allow_call allow
  allow_call-IsFresh w m =
      simp m (ticket-IsFresh (allow_state rt.circuit_policy (rt.now w) (circuit w)).0)

  -- What a call that returns a response leaves behind.
  abbrev Closes : Result (Option InvokeResponse) × W → Type 0
  Closes (ok r, w) = ((circuit w).phase ≡ closed) × ((circuit w).failures ≡ 0)
  Closes (err e, w) = Unit

  module _ (stores : StoresCircuits rt) where
    circuit-finish_call :
        (t : Ticket) (o : CircuitOutcome) (w : W)
        → t.key ≡ rt.model_key
        → t.used ≡ false
        → circuit (finish_call rt (some t) o w)
          ≡ finish_state rt.circuit_policy (rt.now w) t.phase o (circuit w)
    unfolding finish_call finish
    circuit-finish_call t o w k u =
        rw (stores, u)
          (circuit_of-insert rt.model_key t.key
              (finish_state rt.circuit_policy (rt.now w) t.phase o
                (circuit_of t.key (rt.circuits w)))
              (rt.circuits w)
            ∙ simp ((text_eq_iff t.key rt.model_key).1 k) (
                ap
                  (λ key.
                    finish_state rt.circuit_policy (rt.now w) t.phase o
                      (circuit_of key (rt.circuits w)))
                  k))

    success-closes :
        (c : CircuitConfig) (now : ℕ) (phase : CircuitPhase) (s : CircuitState)
        → ((finish_state c now phase success s).phase ≡ closed)
          × ((finish_state c now phase success s).failures ≡ 0)
    unfolding finish_state
    success-closes c now phase s = (ground arith, ground arith)

    finished-Closes :
        (t : Ticket) (out : Attempted rt)
        → t.key ≡ rt.model_key
        → t.used ≡ false
        → Reports out
        → Closes (finished rt (some t) out)
    finished-Closes t (err e, o, w) k u h = tt
    finished-Closes t (ok r, o, w) k u h =
        rw (circuit-finish_call t o w k u, h)
          (success-closes rt.circuit_policy (rt.now w) t.phase (circuit w))

    after_allow-Closes :
        (run : W → Attempted rt) (out : Result (Option Ticket) × W)
        → IsFresh out.0
        → ((w : W) → Reports (run w))
        → Closes (after_allow rt run out)
    after_allow-Closes run (err e, w) f h = tt
    after_allow-Closes run (ok none, w) f h = absurd f
    after_allow-Closes run (ok (some t), w) f h = finished-Closes t (run w) f.0 f.1 (h w)

    -- Provided that circuits that are stored are read back, when a managed call returns a response, whatever attempts it took and whatever happened to
    -- the circuit meanwhile, the model's circuit is closed afterwards and counts no failures.
    pub response_closes_circuit :
        (handler : Handler W) (request : InvokeRequest) (w w' : W) (r : Option InvokeResponse)
        → rt.managed ≡ true
        → invoke_with_policy rt handler request w ≡ (ok r, w')
        → ((circuit w').phase ≡ closed) × ((circuit w').failures ≡ 0)
    unfolding invoke_with_policy
    response_closes_circuit handler request w w' r m e = subst Closes e (
        after_allow-Closes _ (allow_call rt w) (allow_call-IsFresh w m)
          (λ v. attempts-Reports handler request rt.retry_policy.max_attempts 1 v))

    allow_state-open :
        (c : CircuitConfig) (now : ℕ) (s : CircuitState)
        → s.phase ≡ opened
        → now < s.opened_at + c.open_duration
        → allow_state c now s ≡ (err (new_error circuit_open (codes "model circuit is open")), s)
    unfolding allow_state
    allow_state-open c now s h early = ground arith

    unchanged : W → W
    unchanged w =
        rt.set_circuits
          (record { circuits = insert rt.model_key (circuit w) (rt.circuits w).circuits }) w

    allow_call-open :
        (w : W)
        → rt.managed ≡ true
        → (circuit w).phase ≡ opened
        → rt.now w < (circuit w).opened_at + rt.circuit_policy.open_duration
        → allow_call rt w
          ≡ (err (new_error circuit_open (codes "model circuit is open")), unchanged w)
    unfolding allow_call allow unchanged
    allow_call-open w m h early = simp m (
        ap
          (λ (r : Result CircuitPhase × CircuitState).
            let out : Result (Option Ticket) × W = (
              some_ok (ticket_of rt.model_key r.0),
              rt.set_circuits
                  (record { circuits = insert rt.model_key r.1 (rt.circuits w).circuits }) w,
            ) in
            out)
          (allow_state-open rt.circuit_policy (rt.now w) (circuit w) h early))

    circuit-unchanged : (w : W) → circuit (unchanged w) ≡ circuit w
    unfolding unchanged
    circuit-unchanged w = rw stores (
        circuit_of-insert rt.model_key rt.model_key (circuit w) (rt.circuits w)
        ∙ simp (text_eq_refl rt.model_key))

    -- Provided that circuits that are stored are read back, while the model's circuit is open and its
    -- duration has not passed, a managed call is refused
    -- with the circuit's error; the model is not called, since the world changes only by storing
    -- the circuits, and the model's circuit is left as it was.
    pub open_circuit_refuses :
        (handler : Handler W) (request : InvokeRequest) (w : W)
        → rt.managed ≡ true
        → (circuit w).phase ≡ opened
        → rt.now w < (circuit w).opened_at + rt.circuit_policy.open_duration
        → let out = invoke_with_policy rt handler request w in
          (out.0 ≡ err (new_error circuit_open (codes "model circuit is open")))
          × (out.1
              ≡ rt.set_circuits
                  (record { circuits = insert rt.model_key (circuit w) (rt.circuits w).circuits })
                  w)
          × (circuit out.1 ≡ circuit w)
    unfolding invoke_with_policy unchanged
    open_circuit_refuses handler request w m h early =
        rw (allow_call-open w m h early) (refl, refl, circuit-unchanged w)
