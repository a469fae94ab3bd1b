-- ===== src/Task/Config.antt =====
-- task/types.go and task_runtime.go: the retry, circuit and summary settings of a Task. An
-- application gives signed values; the normalized ones are natural numbers, since normalizing
-- refuses every negative value. Durations are nanoseconds.
pub mod Normal
use tracklogic_agent.Common.{
  ℕ, ◌+◌, ◌*◌, ◌-◌, Bool, true, false, ◌&&◌, ◌||◌, codes, if◌then◌else◌, ltb, leb, ◌==◌, ℤ, pos,
  negsuc, ltb_ℤ, leb_ℤ, eqb_ℤ, pos_part,
}
use tracklogic_agent.Types.{GoError, new_error, invalid_config, Result, ok, err}

abbrev pub millisecond : ℕ
millisecond = 1000000

abbrev pub second : ℕ
second = 1000000000

pub record RetryOptions : Type 0 where
  pub max_attempts : ℤ
  pub base_delay : ℤ
  pub max_delay : ℤ
  pub max_retry_after : ℤ

pub record RetryConfig : Type 0 where
  pub max_attempts : ℕ
  pub base_delay : ℕ
  pub max_delay : ℕ
  pub max_retry_after : ℕ

abbrev pub default_retry : RetryConfig
default_retry = record {
  max_attempts = 5;
  base_delay = 500 * millisecond;
  max_delay = 8 * second;
  max_retry_after = 30 * second;
}

pub record CircuitOptions : Type 0 where
  pub failure_threshold : ℤ
  pub open_duration : ℤ
  pub half_open_max : ℤ

pub record CircuitConfig : Type 0 where
  pub failure_threshold : ℕ
  pub open_duration : ℕ
  pub half_open_max : ℕ

abbrev pub default_circuit : CircuitConfig
default_circuit = record { failure_threshold = 3; open_duration = 30 * second; half_open_max = 1 }

pub record SummaryOptions : Type 0 where
  pub max_messages : ℤ
  pub keep_recent : ℤ
  pub hard_limit : ℤ

pub record SummaryConfig : Type 0 where
  pub max_messages : ℕ
  pub keep_recent : ℕ
  pub hard_limit : ℕ

abbrev pub default_summary : SummaryConfig
default_summary = record { max_messages = 50; keep_recent = 20; hard_limit = 100 }

abbrev is_zero : ℤ → Bool
is_zero z = eqb_ℤ z (pos 0)

abbrev is_negative : ℤ → Bool
is_negative z = ltb_ℤ z (pos 0)

-- `if x <= 0 { x = default }`, for a value that is not negative `if x == 0 { x = default }`.
abbrev or_default : ℤ → ℕ → ℕ
or_default z d = if leb_ℤ z (pos 0) then d else pos_part z

unfoldable pub normalize_retry : RetryOptions → Result RetryConfig
normalize_retry c =
    if is_zero c.max_attempts
      && is_zero c.base_delay
      && is_zero c.max_delay
      && is_zero c.max_retry_after
    then ok default_retry
    else if is_negative c.max_attempts
        || is_negative c.base_delay
        || is_negative c.max_delay
        || is_negative c.max_retry_after
    then err (new_error invalid_config (codes "retry values must not be negative"))
    else let attempts =
        if is_zero c.max_attempts then default_retry.max_attempts else pos_part c.max_attempts in
      if leb attempts 0
      then err (new_error invalid_config (codes "retry max attempts must be greater than zero"))
      else let base = or_default c.base_delay default_retry.base_delay in
        let delay = or_default c.max_delay default_retry.max_delay in
        let after = or_default c.max_retry_after default_retry.max_retry_after in
        if ltb delay base
        then err
            (new_error invalid_config (codes "retry max delay must not be less than base delay"))
        else ok (record {
          max_attempts = attempts;
          base_delay = base;
          max_delay = delay;
          max_retry_after = after;
        })

unfoldable pub normalize_circuit : CircuitOptions → Result CircuitConfig
normalize_circuit c =
    if is_zero c.failure_threshold && is_zero c.open_duration && is_zero c.half_open_max
    then ok default_circuit
    else if is_negative c.failure_threshold
        || is_negative c.open_duration
        || is_negative c.half_open_max
    then err (new_error invalid_config (codes "circuit values must not be negative"))
    else ok (record {
      failure_threshold = or_default c.failure_threshold default_circuit.failure_threshold;
      open_duration = or_default c.open_duration default_circuit.open_duration;
      half_open_max = or_default c.half_open_max default_circuit.half_open_max;
    })

unfoldable pub normalize_summary : SummaryOptions → Result SummaryConfig
normalize_summary c =
    if is_zero c.max_messages && is_zero c.keep_recent && is_zero c.hard_limit
    then ok default_summary
    else if is_negative c.max_messages || is_negative c.keep_recent || is_negative c.hard_limit
    then err (new_error invalid_config (codes "summary message limits must not be negative"))
    else let messages = or_default c.max_messages default_summary.max_messages in
      let keep = or_default c.keep_recent default_summary.keep_recent in
      let limit = or_default c.hard_limit default_summary.hard_limit in
      if leb messages keep || leb limit messages
      then err (
          new_error invalid_config
            (codes "summary limits must satisfy keep recent < max messages < hard limit"))
      else ok (record { max_messages = messages; keep_recent = keep; hard_limit = limit })
