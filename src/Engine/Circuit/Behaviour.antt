-- ===== src/Engine/Circuit/Behaviour.antt =====
-- When the circuit of engine/reliability.go opens, refuses, probes and closes.
use tracklogic_agent.Common.{ℕ, ◌+◌, ◌≤◌, ◌<◌, ◌≡◌, List, [], ◌∷◌, length, arith, codes}
use tracklogic_agent.Types.{Result, ok, err, new_error, circuit_open}
use tracklogic_agent.Task.Config.{CircuitConfig}
use tracklogic_agent.Task.Config.Normal.{IsCircuit}
use tracklogic_agent.Engine.Circuit.{
  CircuitState, CircuitPhase, closed, opened, half_open, neutral, success, failure, allow_state,
  finish_state,
}

-- One call that is allowed and then fails, or that is refused.
abbrev fail_once_with : CircuitConfig → ℕ → Result CircuitPhase × CircuitState → CircuitState
fail_once_with c now (ok phase, s) = finish_state c now phase failure s
fail_once_with c now (err e, s) = s

unfoldable pub fail_once : CircuitConfig → ℕ → CircuitState → CircuitState
fail_once c now s = fail_once_with c now (allow_state c now s)

pub fail_all : CircuitConfig → List ℕ → CircuitState → CircuitState
fail_all c [] s = s
fail_all c (now ∷ times) s = fail_all c times (fail_once c now s)

fail_once-closed :
    (c : CircuitConfig) (now : ℕ) (s : CircuitState)
    → s.phase ≡ closed
    → s.failures + 1 < c.failure_threshold
    → ((fail_once c now s).phase ≡ closed) × ((fail_once c now s).failures ≡ s.failures + 1)
unfolding fail_once allow_state finish_state
fail_once-closed c now s h k = ground arith

fail_once-trips :
    (c : CircuitConfig) (now : ℕ) (s : CircuitState)
    → s.phase ≡ closed
    → c.failure_threshold ≤ s.failures + 1
    → ((fail_once c now s).phase ≡ opened) × ((fail_once c now s).opened_at ≡ now)
unfolding fail_once allow_state finish_state
fail_once-trips c now s h k = ground arith

fail_all-closed :
    (c : CircuitConfig) (times : List ℕ) (s : CircuitState)
    → s.phase ≡ closed
    → s.failures + length times < c.failure_threshold
    → ((fail_all c times s).phase ≡ closed)
      × ((fail_all c times s).failures ≡ s.failures + length times)
unfolding fail_all
fail_all-closed c [] s h k = (h, omega arith)
fail_all-closed c (now ∷ times) s h k =
    let (still, more) = fail_once-closed c now s h (omega arith) in
    let (end, count) = fail_all-closed c times (fail_once c now s) still (omega (arith, more)) in
    (end, omega (arith, count, more))

-- A closed circuit with no failures stays closed under fewer consecutive failing calls than the
-- threshold, and the failing call that reaches the threshold opens it, at the time of that call.
pub opens_at_threshold :
    (c : CircuitConfig) (times : List ℕ) (now : ℕ) (s : CircuitState)
    → s.phase ≡ closed
    → s.failures ≡ 0
    → length times + 1 ≡ c.failure_threshold
    → ((fail_all c times s).phase ≡ closed)
      × ((fail_once c now (fail_all c times s)).phase ≡ opened)
      × ((fail_once c now (fail_all c times s)).opened_at ≡ now)
opens_at_threshold c times now s h z k =
    let (still, count) = fail_all-closed c times s h (omega arith) in
    let (trips, at) = fail_once-trips c now (fail_all c times s) still (omega (arith, count)) in
    (still, trips, at)

-- With normalized settings, an open circuit refuses a call made before its open duration has passed, and is left as it was,
-- so that a call made once the duration has passed is let through as the first probe.
pub open_refuses_then_probes :
    (c : CircuitConfig) (early late : ℕ) (s : CircuitState)
    → IsCircuit c
    → s.phase ≡ opened
    → early < s.opened_at + c.open_duration
    → s.opened_at + c.open_duration ≤ late
    → let refused = allow_state c early s in
      let probe = allow_state c late refused.1 in
      (refused ≡ (err (new_error circuit_open (codes "model circuit is open")), s))
      × (probe.0 ≡ ok half_open)
      × (probe.1.phase ≡ half_open)
      × (probe.1.half_open_run ≡ 1)
unfolding allow_state
open_refuses_then_probes c early late s h p before after =
    (ground arith, ground arith, ground arith, ground arith)

-- The outcome of a probe decides: success closes the circuit with no failures, failure opens it
-- again from that moment, and a neutral outcome only gives the probe's place back.
pub probe_decides :
    (c : CircuitConfig) (now : ℕ) (s : CircuitState)
    → s.phase ≡ half_open
    → 0 < s.half_open_run
    → ((finish_state c now half_open success s).phase ≡ closed)
      × ((finish_state c now half_open success s).failures ≡ 0)
      × ((finish_state c now half_open failure s).phase ≡ opened)
      × ((finish_state c now half_open failure s).opened_at ≡ now)
      × ((finish_state c now half_open neutral s).phase ≡ half_open)
      × ((finish_state c now half_open neutral s).half_open_run + 1 ≡ s.half_open_run)
unfolding finish_state
probe_decides c now s h k =
    (ground arith, ground arith, ground arith, ground arith, ground arith, ground arith)

-- With normalized settings, a half-open circuit with every probe in use and its failures within one of the threshold opens
-- when a call that was let through while it was closed fails; once the open duration has passed
-- since then, a further probe is let through, although none of the earlier ones has finished.
pub late_failure_readmits :
    (c : CircuitConfig) (now later : ℕ) (s : CircuitState)
    → IsCircuit c
    → s.phase ≡ half_open
    → s.half_open_run ≡ c.half_open_max
    → c.failure_threshold ≤ s.failures + 1
    → now + c.open_duration ≤ later
    → (allow_state c later (finish_state c now closed failure s)).0 ≡ ok half_open
unfolding allow_state finish_state
late_failure_readmits c now later s h p full t k = ground arith
