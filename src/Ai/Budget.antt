-- ===== src/Ai/Budget.antt =====
-- internal/ai/controls.go: the token budget, and the rate limit of a session as a token bucket.
use telemetry_one_backend.Base.{
  String, Bool, true, false, Option, none, some, List, [], ◌∷◌, if◌then◌else◌, quot_by, rem_by,
  saturate, string_eq, ℤ, pos, ltb_ℤ, leb_ℤ, ◌-ℤ◌,
}
use telemetry_one_backend.Base.Float.{Float64}
use telemetry_one_backend.Base.Dict.{Dict, lookup, insert}
use telemetry_one_backend.Base.Result.{first_error}
use telemetry_one_backend.Ai.Error.{AiError, leaf, wrapped, budget_exceeded}

pub record TokenBudget : Type 0 where
  pub max_prompt_chars : ℤ
  pub max_completion_tokens : ℤ
  pub max_events_per_request : ℤ

unfoldable pub default_token_budget : TokenBudget
default_token_budget = record {
  max_prompt_chars = pos 40000;
  max_completion_tokens = pos 2000;
  max_events_per_request = pos 50;
}

pub data ConfigError : Type 0 where
  bad_prompt_chars bad_completion_tokens bad_events : ConfigError
  bad_attempts bad_base_backoff bad_max_backoff : ConfigError

unfoldable pub budget_checks : TokenBudget → List (Bool × ConfigError)
budget_checks b =
    (leb_ℤ b.max_prompt_chars (pos 0), bad_prompt_chars)
    ∷ (leb_ℤ b.max_completion_tokens (pos 0), bad_completion_tokens)
    ∷ (leb_ℤ b.max_events_per_request (pos 0), bad_events)
    ∷ []

unfoldable pub validate_budget : TokenBudget → Option ConfigError
unfolding budget_checks
validate_budget b = first_error (budget_checks b)

unfoldable pub check_prompt_chars : TokenBudget → ℤ → Option AiError
check_prompt_chars b chars =
    if ltb_ℤ b.max_prompt_chars chars then some (wrapped (leaf budget_exceeded)) else none

unfoldable pub check_events : TokenBudget → ℤ → Option AiError
check_events b count =
    if ltb_ℤ b.max_events_per_request count then some (wrapped (leaf budget_exceeded)) else none

-- Times and durations are nanoseconds.
pub record TokenBucket (F : Type 0) : Type 0 where
  pub tokens : F
  pub last_refill : ℤ

pub record RateLimiter (F : Type 0) : Type 0 where
  pub sessions : Dict String (TokenBucket F)
  pub rate : F
  pub burst : ℤ

module _ {F : Type 0} ⦃fl : Float64 F⦄ where
  open fl use {literal, of_int, to_int, add, sub, mul, div, lt, le, is_nan}

  unfoldable pub new_rate_limiter : F → ℤ → RateLimiter F
  new_rate_limiter rate_per_sec burst = record {
    sessions = [];
    rate = if le rate_per_sec (literal 0 0) then literal 10 0 else rate_per_sec;
    burst = if leb_ℤ burst (pos 0) then pos 5 else burst;
  }

  -- `math.Min`, but for the sign of a zero.
  unfoldable pub float_min : F → F → F
  float_min x y = if is_nan x then x else if is_nan y then y else if lt x y then x else y

  -- `d.Seconds()`: whole seconds and the rest.
  unfoldable pub seconds : ℤ → F
  seconds d =
      add (of_int (quot_by d 1000000000))
        (div (of_int (rem_by d 1000000000)) (literal 1000000000 0))

  -- The bucket after the time from its last refill to `now`.
  unfoldable pub refill : RateLimiter F → TokenBucket F → ℤ → TokenBucket F
  refill rl bucket now = record {
    tokens =
        float_min (of_int rl.burst)
          (add bucket.tokens (mul (seconds (saturate (now -ℤ bucket.last_refill))) rl.rate));
    last_refill = now;
  }

  -- `Allow` at the time `now`: whether the request may go on, and else how long to wait.
  unfoldable pub allow : RateLimiter F → String → ℤ → RateLimiter F × Bool × ℤ
  allow rl session_id now = elim (lookup session_id rl.sessions) [
    | none ↦
        let bucket : TokenBucket F = record {
          tokens = sub (of_int rl.burst) (literal 1 0);
          last_refill = now;
        } in
        (record rl { sessions = insert session_id bucket rl.sessions }, true, pos 0)
    | some old ↦
        let bucket = refill rl old now in
        let taken = record bucket { tokens = sub bucket.tokens (literal 1 0) } in
        if le (literal 1 0) bucket.tokens
        then (record rl { sessions = insert session_id taken rl.sessions }, true, pos 0)
        else (
          record rl { sessions = insert session_id bucket rl.sessions },
          false,
          to_int (mul (div (sub (literal 1 0) bucket.tokens) rl.rate) (literal 1000000000 0)),
        )
  ]
