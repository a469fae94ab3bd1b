-- ===== src/Engine/Retry/Delay.antt =====
-- How long engine/reliability.go waits between attempts.
use tracklogic_agent.Common.{
  ℕ, zero, suc, ◌+◌, ◌-◌, ◌*◌, ◌^◌, ◌≤◌, ◌<◌, min, max, ap, ◌≡◌, inl, inr, subst, sym, ◌∙◌, refl,
  false, Text, Option, ℤ, none, some, Option-cases, arith, pos, negsuc, ◌≤ℤ◌, is_empty, trim_space,
}
use tracklogic_agent.Types.{GoError, HttpError}
use tracklogic_agent.Task.Config.{RetryConfig}
use tracklogic_agent.Task.Config.Normal.{IsRetry}
use tracklogic_agent.Engine.Retry.{
  find_http, atoi, double_delay, backoff_maximum, retry_delay, retry_after_delay, nanoseconds,
  wrap_int64, int64_n,
}
use native.Mathlib.Decide.{dec_lt}
use native.Mathlib.Nat.{pow-suc}

plus_minus : (n : ℕ) → n + 1 - 1 ≡ n
plus_minus n = omega arith

pow-pos : (n : ℕ) → 0 < 2 ^ n
pow-pos zero = omega arith
pow-pos (suc n) = rw pow-suc (omega (arith, pow-pos n))

le-mul_pow : (a n : ℕ) → a ≤ a * 2 ^ n
le-mul_pow a n = grind (arith, pow-pos n)

mul-pow-suc : (a n : ℕ) → a * 2 ^ suc n ≡ a * 2 * 2 ^ n
mul-pow-suc a n = rw pow-suc (grind arith)

-- The doubling loop is the power of two, cut off at the limit.
double_delay-min :
    (rounds limit maximum : ℕ)
    → 0 < maximum
    → maximum ≤ limit
    → double_delay rounds limit maximum ≡ min (maximum * 2 ^ rounds) limit
unfolding double_delay
double_delay-min zero limit maximum p h = omega arith
double_delay-min (suc rounds) limit maximum p h =
    rw (mul-pow-suc maximum rounds)
      (ground (arith, le-mul_pow (maximum * 2) rounds, double_delay-min rounds limit (maximum * 2)))

-- With normalized settings, the delay's upper end after n + 1 failed attempts is the base delay
-- doubled n times, cut off at the greatest delay.
pub backoff_maximum-min :
    (c : RetryConfig) (n : ℕ)
    → IsRetry c
    → backoff_maximum c (n + 1) ≡ min (c.base_delay * 2 ^ n) c.max_delay
unfolding backoff_maximum
backoff_maximum-min c n v = ground (
  arith,
  double_delay-min (n + 1 - 1) c.max_delay c.base_delay,
  ap (λ k. c.base_delay * 2 ^ k) (plus_minus n),
)

-- With normalized settings, the upper end lies between 1 and the greatest delay.
backoff_maximum_bounds :
    (c : RetryConfig) (n : ℕ)
    → IsRetry c
    → (0 < backoff_maximum c (n + 1)) × (backoff_maximum c (n + 1) ≤ c.max_delay)
backoff_maximum_bounds c n v =
    omega (arith, backoff_maximum-min c n v, le-mul_pow c.base_delay n, v.base, v.ordered)

wrap_int64_small : (m : ℕ) → m < 2 ^ 63 → wrap_int64 m ≡ pos m
wrap_int64_small m h = ground arith

wrap_int64_end : (m : ℕ) → m ≡ 2 ^ 63 → wrap_int64 m ≡ negsuc (2 ^ 63 - 1)
wrap_int64_end m h = ground arith

int64_n_positive : (random : ℕ → ℕ) (n : ℕ) → 0 < n → int64_n random (pos n) ≡ some (pos (random n))
int64_n_positive random zero h = absurd (omega arith)
int64_n_positive random (suc n) h = refl

-- The jitter below an upper end that an int64 has room above.
jitter :
    (random : ℕ → ℕ) (maximum : ℕ)
    → maximum + 1 < 2 ^ 63
    → int64_n random (wrap_int64 (maximum + 1)) ≡ some (pos (random (maximum + 1)))
jitter random maximum h =
    ap (int64_n random) (wrap_int64_small (maximum + 1) h)
    ∙ int64_n_positive random (maximum + 1) (omega arith)

-- There is no room above the greatest int64.
no_jitter :
    (random : ℕ → ℕ) (maximum : ℕ)
    → maximum + 1 ≡ 2 ^ 63
    → int64_n random (wrap_int64 (maximum + 1)) ≡ none
no_jitter random maximum h = ap (int64_n random) (wrap_int64_end (maximum + 1) h)

-- How a wait is computed: as at most the greater of the two limits, or not at all, for lack of room
-- above the greatest delay.
abbrev pub IsWait : RetryConfig → Option ℤ → Type 0
IsWait c none = c.max_delay + 1 ≡ 2 ^ 63
IsWait c (some d) = d ≤ℤ pos (max c.max_delay c.max_retry_after)

jitter-IsWait :
    (random : ℕ → ℕ) (c : RetryConfig) (maximum : ℕ)
    → ((k : ℕ) → 0 < k → random k < k)
    → maximum ≤ c.max_delay
    → c.max_delay < 2 ^ 63
    → IsWait c (int64_n random (wrap_int64 (maximum + 1)))
jitter-IsWait random c maximum below le fits = elim (dec_lt (maximum + 1) (2 ^ 63)) [
  | yes room ↦
      subst (IsWait c) (sym (jitter random maximum room))
        (omega (arith, below (maximum + 1) (omega arith)))
  | no full ↦ subst (IsWait c) (sym (no_jitter random maximum (omega arith))) (omega arith)
]

-- What the delay is where the error names none.
own_delay :
    (parse_time : Text → Option ℕ) (now : ℕ) (random : ℕ → ℕ) (c : RetryConfig) (n : ℕ)
    (e : GoError)
    → IsRetry c
    → retry_after_delay parse_time now e ≡ none
    → retry_delay parse_time now random c (n + 1) e
      ≡ int64_n random (wrap_int64 (backoff_maximum c (n + 1) + 1))
unfolding retry_delay
own_delay parse_time now random c n e v absent =
    rw (absent, retry_delay) (ground (arith, backoff_maximum_bounds c n v))

-- With normalized settings whose greatest delay is an int64, whatever the error, and with a random
-- source that keeps its results below its argument, the wait before the next attempt is at most the
-- greater of the two limits of the settings, or its computation panics; the latter only where the
-- greatest delay is the greatest int64.
pub retry_delay_bounded :
    (parse_time : Text → Option ℕ) (now : ℕ) (random : ℕ → ℕ) (c : RetryConfig) (n : ℕ)
    (e : GoError)
    → IsRetry c
    → c.max_delay < 2 ^ 63
    → ((k : ℕ) → 0 < k → random k < k)
    → IsWait c (retry_delay parse_time now random c (n + 1) e)
unfolding retry_delay
retry_delay_bounded parse_time now random c n e v fits below =
    elim (Option-cases (retry_after_delay parse_time now e)) [
      | inl absent ↦
          let (positive, le) = backoff_maximum_bounds c n v in
          subst (IsWait c) (sym (own_delay parse_time now random c n e v absent))
            (jitter-IsWait random c (backoff_maximum c (n + 1)) below le fits)
      | inr (after, found) ↦ rw (found, retry_delay) (ground arith)
    ]

-- With normalized settings whose greatest delay is the greatest int64, the wait panics once the base
-- delay, doubled after each failed attempt but the first, has reached it, unless the error names the
-- delay.
pub retry_delay_panics :
    (parse_time : Text → Option ℕ) (now : ℕ) (random : ℕ → ℕ) (c : RetryConfig) (n : ℕ)
    (e : GoError)
    → IsRetry c
    → c.max_delay + 1 ≡ 2 ^ 63
    → c.max_delay ≤ c.base_delay * 2 ^ n
    → retry_after_delay parse_time now e ≡ none
    → retry_delay parse_time now random c (n + 1) e ≡ none
retry_delay_panics parse_time now random c n e v greatest reached absent =
    own_delay parse_time now random c n e v absent
    ∙ no_jitter random (backoff_maximum c (n + 1)) (omega (arith, backoff_maximum-min c n v))

-- A Retry-After header of so many seconds that their nanoseconds pass the greatest int64, though
-- not by a whole turn, makes the wait negative: the next attempt is made at once.
pub retry_after_overflows :
    (parse_time : Text → Option ℕ) (now : ℕ) (random : ℕ → ℕ) (c : RetryConfig) (n : ℕ)
    (e : GoError) (h : HttpError) (seconds : ℕ)
    → find_http e ≡ some h
    → is_empty (trim_space h.retry_after) ≡ false
    → atoi (trim_space h.retry_after) ≡ some (pos seconds)
    → 2 ^ 63 ≤ seconds * nanoseconds
    → seconds * nanoseconds < 2 ^ 64
    → (d : ℤ) × (retry_delay parse_time now random c n e ≡ some d) × (d ≤ℤ negsuc 0)
unfolding retry_delay
retry_after_overflows parse_time now random c n e h seconds found some_value parsed low high = (
  wrap_int64 (seconds * nanoseconds),
  rw (found, some_value, parsed, retry_delay, retry_after_delay) (ground arith),
  ground arith,
)
