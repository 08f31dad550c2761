-- ===== src/Ai/Error.antt =====
-- internal/ai/controls.go and gateway.go: errors, how they wrap each other, and what a provider
-- answers. `errors.Is` and `errors.As` walk an error and all that it wraps, depth first.
use mathlib.Core.Option
use telemetry_one_backend.Base.{ℕ, String, Bool, ◌||◌, Option, none, some, ◌==◌, nat_eq, ℤ}

pub data Sentinel : Type 0 where
  budget_exceeded rate_limited retry_exhausted : Sentinel
  provider_not_available provider_rejected provider_timeout : Sentinel
  invalid_provider_response canceled deadline_exceeded other : Sentinel

pub record RateLimit : Type 0 where
  pub retry_after_seconds : Option ℤ
  pub provider_name : String
  pub model : String

-- A sentinel, an error that wraps one or two others by `%w`, or a rate limit of the provider with
-- what it says of it and the error it unwraps to.
pub data AiError : Type 0 where
  leaf : Sentinel → AiError
  wrapped : AiError → AiError
  joined : AiError → AiError → AiError
  provider_rate_limit : RateLimit → AiError → AiError

abbrev number : Sentinel → ℕ
number budget_exceeded = 0
number rate_limited = 1
number retry_exhausted = 2
number provider_not_available = 3
number provider_rejected = 4
number provider_timeout = 5
number canceled = 6
number deadline_exceeded = 7
number other = 8
number invalid_provider_response = 9

-- `errors.Is`
unfoldable pub is_error : AiError → Sentinel → Bool
is_error (leaf s) target = number s == number target
is_error (wrapped e) target = is_error e target
is_error (joined a b) target = is_error a target || is_error b target
is_error (provider_rate_limit limit e) target = is_error e target

-- `errors.As` for `*ProviderRateLimitError`.
unfoldable pub as_rate_limit : AiError → Option RateLimit
as_rate_limit (leaf s) = none
as_rate_limit (wrapped e) = as_rate_limit e
as_rate_limit (joined a b) = Option.or_else (as_rate_limit a) (as_rate_limit b)
as_rate_limit (provider_rate_limit limit e) = some limit

pub record UsageInfo : Type 0 where
  pub prompt_tokens : ℤ
  pub completion_tokens : ℤ
  pub total_tokens : ℤ

pub record ProviderResponse : Type 0 where
  pub content : String
  pub model : String
  pub finish_reason : String
  pub usage : UsageInfo
