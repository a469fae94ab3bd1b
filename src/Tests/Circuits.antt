-- ===== src/Tests/Circuits.antt =====
-- A circuit that opens at the second failure, and the waits between attempts.
use tracklogic_agent.Common.{ℤ, ◌^◌}
use tracklogic_agent.Types.{eof}
use tracklogic_agent.Task.Config.{RetryConfig}
use tracklogic_agent.Common.{
  ◌≡◌, ◌<◌, ◌+◌, ◌-◌, ℕ, refl, Text, codes, List, [], ◌∷◌, none, some, false, pos, ◌≤ℤ◌, negsuc,
  arith, is_empty, trim_space,
}
use tracklogic_agent.Types.{http, HttpError, new_error, circuit_open, ok, err}
use tracklogic_agent.Task.Config.Normal.{IsRetry, IsCircuit}
use tracklogic_agent.Engine.Circuit.{
  CircuitState, closed, opened, half_open, failure, new_circuit, new_manager, allow_state,
  finish_state,
}
use tracklogic_agent.Engine.Circuit.Invariant.{
  Call, allows, finishes, AreSound, perform_all, perform_all-AreSound, new_manager-AreSound,
}
use tracklogic_agent.Engine.Circuit.Behaviour.{
  fail_once, fail_all, opens_at_threshold, open_refuses_then_probes, late_failure_readmits,
}
use tracklogic_agent.Engine.Retry.{
  retry_delay, retry_after_delay, atoi, find_http, digits_value, bounded_digits,
}
use tracklogic_agent.Engine.Retry.Delay.{
  IsWait, retry_delay_bounded, retry_delay_panics, retry_after_overflows,
}
use tracklogic_agent.Tests.Data.{retries, breaker}

abbrev model : Text
model = codes "mock"

abbrev breaker-IsCircuit : IsCircuit breaker
breaker-IsCircuit = record { threshold = omega arith; duration = omega arith; probes = omega arith }

abbrev retries-IsRetry : IsRetry retries
retries-IsRetry = record {
  attempts = omega arith;
  base = omega arith;
  ordered = omega arith;
  after = omega arith;
}

abbrev history : List Call
history =
    allows model 1
    ∷ finishes (record { key = model; phase = closed; used = false }) failure 2
    ∷ allows model 3
    ∷ finishes (record { key = model; phase = closed; used = false }) failure 4
    ∷ allows model 105
    ∷ []

perform_all-AreSound_example : AreSound breaker (perform_all breaker history new_manager)
perform_all-AreSound_example =
    perform_all-AreSound breaker history new_manager breaker-IsCircuit
      (new_manager-AreSound breaker breaker-IsCircuit)

opens_at_threshold_example :
    ((fail_all breaker (1 ∷ []) new_circuit).phase ≡ closed)
    × ((fail_once breaker 2 (fail_all breaker (1 ∷ []) new_circuit)).phase ≡ opened)
    × ((fail_once breaker 2 (fail_all breaker (1 ∷ []) new_circuit)).opened_at ≡ 2)
opens_at_threshold_example = opens_at_threshold breaker (1 ∷ []) 2 new_circuit refl refl refl

abbrev tripped : CircuitState
tripped = record { phase = opened; failures = 2; opened_at = 4; half_open_run = 0 }

open_refuses_then_probes_example :
    let refused = allow_state breaker 50 tripped in
    let probe = allow_state breaker 104 refused.1 in
    (refused ≡ (err (new_error circuit_open (codes "model circuit is open")), tripped))
    × (probe.0 ≡ ok half_open)
    × (probe.1.phase ≡ half_open)
    × (probe.1.half_open_run ≡ 1)
open_refuses_then_probes_example =
    open_refuses_then_probes breaker 50 104 tripped breaker-IsCircuit refl (omega arith)
      (omega arith)

abbrev probed : CircuitState
probed = record { phase = half_open; failures = 2; opened_at = 4; half_open_run = 1 }

late_failure_readmits_example :
    (allow_state breaker 220 (finish_state breaker 110 closed failure probed)).0 ≡ ok half_open
late_failure_readmits_example =
    late_failure_readmits breaker 110 220 probed breaker-IsCircuit refl refl (omega arith)
      (omega arith)

abbrev throttled : HttpError
throttled = record { status_code = 429; retry_after = codes "9223372037" }

pred-below : (k : ℕ) → 0 < k → k - 1 < k
pred-below k h = omega arith

retry_delay_bounded_example :
    IsWait retries (retry_delay (λ t. none) 0 (λ k. k - 1) retries (0 + 1) (http throttled))
retry_delay_bounded_example =
    retry_delay_bounded (λ t. none) 0 (λ k. k - 1) retries 0 (http throttled) retries-IsRetry
      (omega arith) pred-below

-- The greatest delays that an int64 has.
abbrev patient : RetryConfig
patient = record {
  max_attempts = 3;
  base_delay = 2 ^ 63 - 1;
  max_delay = 2 ^ 63 - 1;
  max_retry_after = 5000;
}

patient-IsRetry : IsRetry patient
patient-IsRetry = record {
  attempts = omega arith;
  base = omega arith;
  ordered = omega arith;
  after = omega arith;
}

no_delay : retry_after_delay (λ t. none) 0 eof ≡ none
unfolding retry_after_delay find_http
no_delay = refl

no_room : retry_delay (λ t. none) 0 (λ k. k - 1) patient (0 + 1) eof ≡ none
no_room =
    retry_delay_panics (λ t. none) 0 (λ k. k - 1) patient 0 eof patient-IsRetry (omega arith)
      (omega arith) no_delay

found : find_http (http throttled) ≡ some throttled
unfolding find_http
found = refl

filled : is_empty (trim_space throttled.retry_after) ≡ false
unfolding trim_space
filled = refl

parsed : atoi (trim_space throttled.retry_after) ≡ some (pos 9223372037)
unfolding trim_space atoi digits_value bounded_digits
parsed = refl

retry_after_overflows_example :
    (d : ℤ) × (retry_delay (λ t. none) 0 (λ k. 0) retries 1 (http throttled) ≡ some d)
    × (d ≤ℤ negsuc 0)
retry_after_overflows_example =
    retry_after_overflows (λ t. none) 0 (λ k. 0) retries 1 (http throttled) throttled 9223372037
      found filled parsed (omega arith) (omega arith)
