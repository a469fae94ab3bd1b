-- ===== src/Engine/Retry.antt =====
-- engine/reliability.go and model/http.go: which model errors are retried, and the delay before the
-- next attempt. Durations are int64 nanoseconds; the library's HTTP-date parser and clock enter as
-- the arguments `parse_time` and `now`, and the results of rand.Int64N as the argument `random`.
pub mod Delay
use tracklogic_agent.Common.{
  ℕ, zero, suc, ◌+◌, ◌-◌, ◌*◌, ◌/◌, ◌%◌, ◌^◌, Bool, true, false, ◌&&◌, ◌||◌, Text, trim_space,
  is_empty, List, [], ◌∷◌, Option, none, some, if◌then◌else◌, ltb, leb, ◌==◌, ℤ, pos, negsuc, ltb_ℤ,
  not,
}
use tracklogic_agent.Types.{
  HttpError, GoError, http, network, wrap_error, wrapped, is_canceled, is_eof, is_network,
}
use tracklogic_agent.Task.Config.{RetryConfig}

-- HTTPError.Retryable
unfoldable pub retryable_status : ℕ → Bool
retryable_status code =
    code == 408
    || code == 425
    || code == 429
    || code == 500
    || code == 502
    || code == 503
    || code == 504

-- errors.As(err, **HTTPError)
unfoldable pub find_http : GoError → Option HttpError
find_http (http e) = some e
find_http (network e) = find_http e
find_http (wrap_error c m e) = find_http e
find_http (wrapped m e) = find_http e
find_http _ = none

unfoldable pub is_retryable_model_error : GoError → Bool
unfolding retryable_status find_http is_canceled is_eof is_network
is_retryable_model_error e = if is_canceled e then false else elim (find_http e) [
  | some upstream ↦ retryable_status upstream.status_code
  | none ↦ if is_eof e then true else is_network e
]

-- An int64: the value n, wrapped around.
abbrev pub wrap_int64 : ℕ → ℤ
wrap_int64 n = let r = n % 2 ^ 64 in if ltb r (2 ^ 63) then pos r else negsuc (2 ^ 64 - r - 1)

abbrev is_digit : ℕ → Bool
is_digit c = leb b'0' c && leb c b'9'

-- The decimal digits of a text, read after `acc`.
unfoldable pub digits_value : ℕ → Text → Option ℕ
digits_value acc [] = some acc
digits_value acc (c ∷ s) =
    let rest = digits_value (acc * 10 + (c - b'0')) s in if is_digit c then rest else none

-- strconv.Atoi on what follows a sign: at least one digit, and no more than `bound`.
unfoldable pub bounded_digits : ℕ → Text → Option ℕ
unfolding digits_value
bounded_digits bound [] = none
bounded_digits bound (c ∷ s) = elim (digits_value 0 (c ∷ s)) [
  | none ↦ none
  | some n ↦ if leb n bound then some n else none
]

abbrev negated : Option ℕ → Option ℤ
negated none = none
negated (some zero) = some (pos 0)
negated (some (suc n)) = some (negsuc n)

abbrev positive : Option ℕ → Option ℤ
positive none = none
positive (some n) = some (pos n)

-- strconv.Atoi
unfoldable pub atoi : Text → Option ℤ
unfolding bounded_digits
atoi [] = none
atoi (c ∷ s) =
    if c == b'-'
    then negated (bounded_digits (2 ^ 63) s)
    else if c == b'+'
    then positive (bounded_digits (2 ^ 63 - 1) s)
    else positive (bounded_digits (2 ^ 63 - 1) (c ∷ s))

abbrev pub nanoseconds : ℕ
nanoseconds = 1000000000

-- The HTTP-date form of the header: time.Until, cut off at zero.
abbrev until : ℕ → Option ℕ → Option ℤ
until now none = none
until now (some when) = some (pos (when - now))

abbrev header_delay : (Text → Option ℕ) → ℕ → Text → Option ℤ → Option ℤ
header_delay parse_time now value (some (pos seconds)) = some (wrap_int64 (seconds * nanoseconds))
header_delay parse_time now value (some (negsuc _)) = until now (parse_time value)
header_delay parse_time now value none = until now (parse_time value)

unfoldable pub retry_after_delay : (Text → Option ℕ) → ℕ → GoError → Option ℤ
unfolding find_http atoi trim_space
retry_after_delay parse_time now e = elim (find_http e) [
  | none ↦ none
  | some upstream ↦
      let value = trim_space upstream.retry_after in
      if is_empty value then none else header_delay parse_time now value (atoi value)
]

-- The loop that doubles `maximum`, for the rounds that are left.
unfoldable pub double_delay : ℕ → ℕ → ℕ → ℕ
double_delay zero limit maximum = maximum
double_delay (suc rounds) limit maximum =
    let next = double_delay rounds limit (maximum * 2) in
    if ltb maximum limit then (if ltb (limit / 2) maximum then limit else next) else maximum

-- The upper end of the jitter after `failed_attempt` failures.
unfoldable pub backoff_maximum : RetryConfig → ℕ → ℕ
unfolding double_delay
backoff_maximum config failed_attempt =
    let maximum = double_delay (failed_attempt - 1) config.max_delay config.base_delay in
    if ltb config.max_delay maximum then config.max_delay else maximum

abbrev clip : ℕ → ℤ → ℤ
clip limit delay = if ltb_ℤ (pos limit) delay then pos limit else delay

-- rand.Int64N, which panics where its argument is not positive: `none`.
abbrev pub int64_n : (ℕ → ℕ) → ℤ → Option ℤ
int64_n random (pos zero) = none
int64_n random (pos (suc n)) = some (pos (random (suc n)))
int64_n random (negsuc n) = none

-- `none` is a panic.
unfoldable pub retry_delay : (Text → Option ℕ) → ℕ → (ℕ → ℕ) → RetryConfig → ℕ → GoError → Option ℤ
unfolding retry_after_delay backoff_maximum
retry_delay parse_time now random config failed_attempt e =
    elim (retry_after_delay parse_time now e) [
      | some after ↦ some (clip config.max_retry_after after)
      | none ↦
          let maximum = backoff_maximum config failed_attempt in
          if leb maximum 0 then some (pos 0) else int64_n random (wrap_int64 (maximum + 1))
    ]
