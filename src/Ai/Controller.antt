-- ===== src/Ai/Controller.antt =====
-- internal/ai/controls.go: the controller that checks, calls, and accounts for a request.
pub mod Charges
use mathlib.Core.Option
use telemetry_one_backend.Base.{
  ℕ, String, Bool, true, false, Option, none, some, List, [], ◌∷◌, if◌then◌else◌, ◌==◌, string_eq,
  ℤ, pos, add64,
}
use telemetry_one_backend.Base.Float.{Float64}
use telemetry_one_backend.Base.Dict.{Dict, lookup, insert}
use telemetry_one_backend.Base.Result.{Result, ok, err}
use telemetry_one_backend.Ai.Error.{
  AiError, leaf, wrapped, rate_limited, ProviderResponse, UsageInfo,
}
use telemetry_one_backend.Ai.Budget.{
  TokenBudget, ConfigError, validate_budget, check_prompt_chars, check_events, RateLimiter, allow,
}
use telemetry_one_backend.Ai.Retry.{RetryPolicy, validate_policy, World, execute_with_retries}

pub record CostEstimator (F : Type 0) : Type 0 where
  pub per_prompt_token : F
  pub per_completion_token : F

pub record SessionUsage (F : Type 0) : Type 0 where
  pub total_requests : ℤ
  pub total_prompt_tokens : ℤ
  pub total_completion_tokens : ℤ
  pub total_cost : F

abbrev pub UsageAccount : Type 0 → Type 0
UsageAccount F = Dict String (SessionUsage F)

-- The hooks but for that of a retry: they observe, and act on the world alone.
pub record Hooks (W : Type 0) : Type 0 where
  pub budget_exceeded : AiError → W → W
  pub rate_limited_for : ℤ → W → W
  pub after_request : ℤ → ℤ → Option AiError → W → W

pub record Controller (F W : Type 0) : Type 0 where
  pub budget : TokenBudget
  pub retry : RetryPolicy
  pub cost_estimator : CostEstimator F
  pub hooks : Hooks W
  pub outside : World W

-- What the calls change: the limiter and the account, where there are such, and the world.
pub record State (F W : Type 0) : Type 0 where
  pub rate_limiter : Option (RateLimiter F)
  pub account : Option (UsageAccount F)
  pub world : W

unfoldable pub validate_controller : {F W : Type 0} → Controller F W → Option ConfigError
validate_controller c = Option.or_else (validate_budget c.budget) (validate_policy c.retry)

module _ {F : Type 0} ⦃fl : Float64 F⦄ where
  open fl use {literal, of_int, add, mul, div}

  unfoldable pub default_cost_estimator : CostEstimator F
  default_cost_estimator = record {
    per_prompt_token = literal 15 5;
    per_completion_token = literal 60 5;
  }

  unfoldable pub estimate_cost : CostEstimator F → ℤ → ℤ → F
  estimate_cost e prompt_tokens completion_tokens =
      add (mul (div (of_int prompt_tokens) (literal 1000 0)) e.per_prompt_token)
        (mul (div (of_int completion_tokens) (literal 1000 0)) e.per_completion_token)

  abbrev no_usage : SessionUsage F
  no_usage = record {
    total_requests = pos 0;
    total_prompt_tokens = pos 0;
    total_completion_tokens = pos 0;
    total_cost = literal 0 0;
  }

  unfoldable pub add_usage : SessionUsage F → ℤ → ℤ → F → SessionUsage F
  add_usage u prompt_tokens completion_tokens cost = record {
    total_requests = add64 u.total_requests (pos 1);
    total_prompt_tokens = add64 u.total_prompt_tokens prompt_tokens;
    total_completion_tokens = add64 u.total_completion_tokens completion_tokens;
    total_cost = add u.total_cost cost;
  }

  -- `UsageAccount.Record`
  unfoldable pub record_usage : UsageAccount F → String → ℤ → ℤ → F → UsageAccount F
  record_usage a session_id prompt_tokens completion_tokens cost =
      let usage : SessionUsage F = elim (lookup session_id a) [ none ↦ no_usage | some u ↦ u ] in
      insert session_id (add_usage usage prompt_tokens completion_tokens cost) a

  unfoldable pub session_usage : UsageAccount F → String → Option (SessionUsage F)
  session_usage a session_id = lookup session_id a

  module _ {W : Type 0} (c : Controller F W) where
    -- The rate limit at the time `now`.
    unfoldable pub check_rate : String → ℤ → State F W → State F W × Option AiError
    check_rate session_id now s = elim s.rate_limiter [
      | none ↦ (s, none)
      | some rl ↦
          let asked = allow rl session_id now in
          let s' = record s { rate_limiter = some asked.0 } in
          if asked.1 then (s', none) else (
            record s' { world = c.hooks.rate_limited_for asked.2 s.world },
            some (wrapped (leaf rate_limited)),
          )
    ]

    -- A budget that is exceeded is reported to its hook.
    abbrev over_budget : AiError → State F W → State F W × Option AiError
    over_budget e s = (record s { world = c.hooks.budget_exceeded e s.world }, some e)

    unfoldable pub pre_check : String → ℤ → ℤ → ℤ → State F W → State F W × Option AiError
    pre_check session_id now chars count s = elim (check_prompt_chars c.budget chars) [
      | some e ↦ over_budget e s
      | none ↦ elim (check_events c.budget count) [
        | some e ↦ over_budget e s
        | none ↦ check_rate session_id now s
      ]
    ]

    -- `RecordResult` with a response of the call, empty where it failed.
    unfoldable pub record_result : String → Result AiError ProviderResponse → State F W → State F W
    record_result session_id (err e) s = record s {
      world = c.hooks.after_request (pos 0) (pos 0) (some e) s.world;
    }
    record_result session_id (ok response) s =
        let prompt = response.usage.prompt_tokens in
        let completion = response.usage.completion_tokens in
        let cost = estimate_cost c.cost_estimator prompt completion in
        record s {
          account = Option.map (λ a. record_usage a session_id prompt completion cost) s.account;
          world = c.hooks.after_request prompt completion none s.world;
        }

    -- `Execute`, with the adapter's `Analyze` as the call of the world.
    unfoldable pub execute :
        String → ℤ → ℤ → ℤ → State F W → State F W × Result AiError ProviderResponse
    execute session_id now chars count s =
        let checked = pre_check session_id now chars count s in
        elim checked.1 [
          | some e ↦ (checked.0, err e)
          | none ↦
              let answer = execute_with_retries c.outside c.retry checked.0.world in
              (record_result session_id answer.1 (record checked.0 { world = answer.0 }), answer.1)
        ]
