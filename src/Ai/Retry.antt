-- ===== src/Ai/Retry.antt =====
-- internal/ai/controls.go: the retry policy and `ExecuteWithRetries`.
pub mod Attempts
pub mod Backoff
use telemetry_one_backend.Base.{
  ℕ, zero, suc, ◌+◌, ◌*◌, ◌/◌, ◌%◌, ◌^◌, Bool, true, false, ◌||◌, not, Option, none, some, List, [],
  ◌∷◌, if◌then◌else◌, ◌==◌, nat_eq, ℤ, pos, negsuc, sub_ℕ, pos_part, ltb, ltb_ℤ, leb_ℤ, ◌*ℤ◌, mul64,
}
use telemetry_one_backend.Base.Result.{Result, ok, err, first_error}
use telemetry_one_backend.Ai.Error.{
  AiError, RateLimit, leaf, joined, is_error, as_rate_limit, ProviderResponse, retry_exhausted,
  provider_not_available, provider_rejected, provider_timeout, canceled, deadline_exceeded,
}
use telemetry_one_backend.Ai.Budget.{ConfigError, bad_attempts, bad_base_backoff, bad_max_backoff}

pub record RetryPolicy : Type 0 where
  pub max_attempts : ℤ
  pub base_backoff_ms : ℤ
  pub max_backoff_ms : ℤ

unfoldable pub default_retry_policy : RetryPolicy
default_retry_policy = record {
  max_attempts = pos 3;
  base_backoff_ms = pos 1000;
  max_backoff_ms = pos 10000;
}

unfoldable pub policy_checks : RetryPolicy → List (Bool × ConfigError)
policy_checks p =
    (ltb_ℤ p.max_attempts (pos 1), bad_attempts)
    ∷ (ltb_ℤ p.base_backoff_ms (pos 100), bad_base_backoff)
    ∷ (ltb_ℤ p.max_backoff_ms p.base_backoff_ms, bad_max_backoff)
    ∷ []

unfoldable pub validate_policy : RetryPolicy → Option ConfigError
unfolding policy_checks
validate_policy p = first_error (policy_checks p)

unfoldable pub is_retryable : AiError → Bool
is_retryable e =
    if is_error e canceled || is_error e deadline_exceeded
    then false
    else if is_error e provider_rejected
    then false
    else is_error e provider_not_available || is_error e provider_timeout

-- By how many bits a 64-bit number is longer than 53, counted with `fuel` at most.
abbrev pub excess_bits : ℕ → ℕ → ℕ
excess_bits zero n = 0
excess_bits (suc fuel) n =
    let more = excess_bits fuel (n / 2) in if ltb n (2 ^ 53) then 0 else suc more

-- The nearest multiple of the unit, of two the one with an even factor.
abbrev pub round_even : ℕ → ℕ → ℕ
round_even n unit =
    let factor = n / unit in
    let twice = 2 * (n % unit) in
    if ltb twice unit
    then factor * unit
    else if ltb unit twice
    then (factor + 1) * unit
    else (factor + factor % 2) * unit

-- `float64(z)` of an `int`: the nearest number with 53 bits.
unfoldable pub float64 : ℤ → ℤ
float64 (pos n) = pos (round_even n (2 ^ excess_bits 11 n))
float64 (negsuc n) = sub_ℕ 0 (round_even (suc n) (2 ^ excess_bits 11 (suc n)))

-- `Backoff` in nanoseconds, of an attempt that is not negative. The product with a power of two is
-- exact or infinite, which the largest backoff cuts off as well, for a base that is not negative.
unfoldable pub backoff : RetryPolicy → ℕ → ℤ
backoff p zero = pos 0
backoff p (suc n) =
    let backoff_ms = float64 p.base_backoff_ms *ℤ pos (2 ^ n) in
    let largest = float64 p.max_backoff_ms in
    mul64 (if ltb_ℤ largest backoff_ms then largest else backoff_ms) (pos 1000000)

abbrev asked_seconds : Option RateLimit → Option ℤ
asked_seconds none = none
asked_seconds (some limit) = limit.retry_after_seconds

unfoldable pub retry_delay : RetryPolicy → ℕ → Option AiError → ℤ
retry_delay p attempt none = backoff p attempt
retry_delay p attempt (some e) = elim (asked_seconds (as_rate_limit e)) [
  | some seconds ↦
      if ltb_ℤ (pos 0) seconds then mul64 seconds (pos 1000000000) else backoff p attempt
  | none ↦ backoff p attempt
]

-- What is outside of the controller: the call, the context's error, the sleep before a retry, which
-- the context can cut short, and the hook on a failed retry. `W` is the state of all that.
pub record World (W : Type 0) : Type 0 where
  pub call : W → W × Result AiError ProviderResponse
  pub context_error : W → Option AiError
  pub sleep : ℤ → W → W × Option AiError
  pub retry_hook : ℕ → AiError → W → W

-- `ErrRetryExhausted` with the last error.
unfoldable pub exhausted : Option AiError → AiError
exhausted none = leaf retry_exhausted
exhausted (some e) = joined (leaf retry_exhausted) e

-- `maxAttempts`
unfoldable pub attempt_limit : RetryPolicy → ℕ
attempt_limit p = if ltb_ℤ p.max_attempts (pos 1) then 1 else pos_part p.max_attempts

module _ {W : Type 0} (o : World W) (p : RetryPolicy) where
  unfoldable pub sleep_before_retry : ℤ → W → W × Option AiError
  sleep_before_retry delay w = if leb_ℤ delay (pos 0) then (w, none) else o.sleep delay w

  -- What comes before the attempt with a number: nothing before the first one.
  unfoldable pub before_attempt : ℕ → Option AiError → W → W × Option AiError
  before_attempt zero last w = (w, none)
  before_attempt (suc n) last w = elim (o.context_error w) [
    | some e ↦ (w, some e)
    | none ↦ sleep_before_retry (retry_delay p (suc n) last) w
  ]

  unfoldable pub note_retry : ℕ → AiError → W → W
  note_retry zero e w = w
  note_retry (suc n) e w = o.retry_hook (suc n) e w

  -- The loop, with the attempts that are left and the number of the next one.
  unfoldable pub retry_loop : ℕ → ℕ → Option AiError → W → W × Result AiError ProviderResponse
  retry_loop zero attempt last w = (w, err (exhausted last))
  retry_loop (suc left) attempt last w =
      let ready = before_attempt attempt last w in
      elim ready.1 [
        | some e ↦ (ready.0, err e)
        | none ↦
            let answer = o.call ready.0 in
            elim answer.1 [
              | ok response ↦ (answer.0, ok response)
              | err e ↦
                  let noted = note_retry attempt e answer.0 in
                  elim (is_retryable e) [
                    | true ↦ retry_loop left (attempt + 1) (some e) noted
                    | false ↦ (noted, err e)
                  ]
            ]
      ]

  unfoldable pub execute_with_retries : W → W × Result AiError ProviderResponse
  execute_with_retries w = retry_loop (attempt_limit p) 0 none w
