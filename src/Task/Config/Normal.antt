-- ===== src/Task/Config/Normal.antt =====
-- What the settings of a Task satisfy once normalized, and which settings are refused.
use tracklogic_agent.Common.{◌≤◌, ◌<◌, ◌≡◌, pos, arith}
use tracklogic_agent.Types.{ok}
use tracklogic_agent.Task.Config.{
  RetryOptions, RetryConfig, CircuitOptions, CircuitConfig, SummaryOptions, SummaryConfig,
  normalize_retry, normalize_circuit, normalize_summary,
}

pub record IsRetry (c : RetryConfig) : Type 0 where
  pub attempts : 0 < c.max_attempts
  pub base : 0 < c.base_delay
  pub ordered : c.base_delay ≤ c.max_delay
  pub after : 0 < c.max_retry_after

pub record IsCircuit (c : CircuitConfig) : Type 0 where
  pub threshold : 0 < c.failure_threshold
  pub duration : 0 < c.open_duration
  pub probes : 0 < c.half_open_max

pub record IsSummary (c : SummaryConfig) : Type 0 where
  pub kept : 0 < c.keep_recent
  pub soft : c.keep_recent < c.max_messages
  pub hard : c.max_messages < c.hard_limit

-- Accepted retry settings allow an attempt, wait a positive time, and order their delays.
pub normalize_retry-IsRetry :
    (c : RetryOptions) {r : RetryConfig} → normalize_retry c ≡ ok r → IsRetry r
unfolding normalize_retry
normalize_retry-IsRetry c h = ground arith

-- Accepted circuit settings are positive.
pub normalize_circuit-IsCircuit :
    (c : CircuitOptions) {r : CircuitConfig} → normalize_circuit c ≡ ok r → IsCircuit r
unfolding normalize_circuit
normalize_circuit-IsCircuit c h = ground arith

-- Accepted summary settings keep some messages and order their three limits strictly.
pub normalize_summary-IsSummary :
    (c : SummaryOptions) {r : SummaryConfig} → normalize_summary c ≡ ok r → IsSummary r
unfolding normalize_summary
normalize_summary-IsSummary c h = ground arith

abbrev pub retry_options : RetryConfig → RetryOptions
retry_options r = record {
  max_attempts = pos r.max_attempts;
  base_delay = pos r.base_delay;
  max_delay = pos r.max_delay;
  max_retry_after = pos r.max_retry_after;
}

abbrev pub circuit_options : CircuitConfig → CircuitOptions
circuit_options r = record {
  failure_threshold = pos r.failure_threshold;
  open_duration = pos r.open_duration;
  half_open_max = pos r.half_open_max;
}

abbrev pub summary_options : SummaryConfig → SummaryOptions
summary_options r = record {
  max_messages = pos r.max_messages;
  keep_recent = pos r.keep_recent;
  hard_limit = pos r.hard_limit;
}

-- Settings that are already normal are accepted unchanged, of each of the three kinds.
pub normalize_idem :
    (r : RetryConfig) (c : CircuitConfig) (s : SummaryConfig)
    → IsRetry r
    → IsCircuit c
    → IsSummary s
    → (normalize_retry (retry_options r) ≡ ok r)
      × (normalize_circuit (circuit_options c) ≡ ok c)
      × (normalize_summary (summary_options s) ≡ ok s)
unfolding normalize_retry normalize_circuit normalize_summary
normalize_idem r c s hr hc hs = (ground arith, ground arith, ground arith)
