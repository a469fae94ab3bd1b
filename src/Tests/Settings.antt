-- ===== src/Tests/Settings.antt =====
-- Settings of a Task.
use tracklogic_agent.Common.{◌≡◌, refl, pos}
use tracklogic_agent.Types.{ok}
use tracklogic_agent.Task.Config.{
  normalize_retry, normalize_circuit, normalize_summary, default_retry,
}
use tracklogic_agent.Task.Config.Normal.{retry_options, circuit_options, summary_options}
use tracklogic_agent.Tests.Data.{retries, breaker, summaries}

normalized : normalize_retry (retry_options retries) ≡ ok retries
unfolding normalize_retry
normalized = refl

tripping : normalize_circuit (circuit_options breaker) ≡ ok breaker
unfolding normalize_circuit
tripping = refl

summarizing : normalize_summary (summary_options summaries) ≡ ok summaries
unfolding normalize_summary
summarizing = refl

unset :
    normalize_retry (record {
      max_attempts = pos 0;
      base_delay = pos 0;
      max_delay = pos 0;
      max_retry_after = pos 0;
    })
    ≡ ok default_retry
unfolding normalize_retry
unset = refl
