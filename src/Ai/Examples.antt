-- ===== src/Ai/Examples.antt =====
-- The theorems on the controls at a provider that answers from a script, in thousandths.
use telemetry_one_backend.Base.{
  arith, length, ◌≤◌, ◌⊎◌, ◌≡◌, refl, none, some, List, [], ◌∷◌, ℤ, pos, ◌≤ℤ◌, wrap64, ◌*ℤ◌,
}
use telemetry_one_backend.Base.Float.{Milli, milli_float}
use telemetry_one_backend.Base.Result.{ok, err, first_error}
use mathlib.Core.Option
use mathlib.Core.List.{Perm}
use telemetry_one_backend.Base.{String, All, ◌++◌}
use telemetry_one_backend.Base.Text.{decimal}
use telemetry_one_backend.Base.Sort.{sort_by, insert_by}
use telemetry_one_backend.Base.Result.{first_error}
use telemetry_one_backend.Events.Event.{one_of}
use telemetry_one_backend.Ai.Input.{
  GatewayRequest, validate_gateway_request, validate_input, validate_session_context,
  validate_envelopes_from, validate_signals_from, validate_signal, signal_checks, validate_safety,
  validate_kinds, allowed_input_kind,
}
use telemetry_one_backend.Ai.Context.{EventSummary}
use telemetry_one_backend.Ai.Fallback.{
  GatewayResponse, fallback_analyze, displayed, sort_by_severity_desc, severity_to_weight,
}
use telemetry_one_backend.Ai.Fallback.Answers.{
  IsBefore, IsAnswered, fallback_analyze_lem, displayed_lem,
}
use telemetry_one_backend.Ai.Service.{analyze}
use telemetry_one_backend.Ai.Error.{
  AiError, leaf, wrapped, provider_rate_limit, ProviderResponse, is_error, as_rate_limit,
  provider_timeout, provider_not_available, provider_rejected,
}
use telemetry_one_backend.Ai.Budget.{default_token_budget, new_rate_limiter}
use telemetry_one_backend.Ai.Retry.{
  default_retry_policy, policy_checks, validate_policy, float64, backoff, attempt_limit,
  is_retryable, World, retry_delay, sleep_before_retry, before_attempt, note_retry, retry_loop,
  execute_with_retries,
}
use telemetry_one_backend.Ai.Retry.Attempts.{
  Answer, logged, Attempts, execute_with_retries-Attempts,
}
use telemetry_one_backend.Ai.Retry.Backoff.{backoff_bounds}
use telemetry_one_backend.Ai.Controller.{Controller, State, default_cost_estimator, execute}
use telemetry_one_backend.Ai.Controller.Charges.{charged, execute_lem}

abbrev hello : ProviderResponse
hello = record {
  content = "hello";
  model = "m";
  finish_reason = "stop";
  usage = record { prompt_tokens = pos 1000; completion_tokens = pos 200; total_tokens = pos 1200 };
}

-- The answers to come, and the delays slept so far, the last one first.
abbrev Script : Type 0
Script = List Answer × List ℤ

abbrev next_answer : Script → Script × Answer
next_answer ([], slept) = (([], slept), err (leaf provider_not_available))
next_answer (a ∷ answers, slept) = ((answers, slept), a)

abbrev scripted : World Script
scripted = record {
  call = next_answer;
  context_error = λ s. none;
  sleep = λ delay s. ((s.0, delay ∷ s.1), none);
  retry_hook = λ n e s. s;
}

abbrev limited : AiError
limited =
    provider_rate_limit
      (record { retry_after_seconds = some (pos 7); provider_name = "openrouter"; model = "" })
      (leaf provider_not_available)

abbrev script : Script
script = (err (wrapped (leaf provider_timeout)) ∷ err limited ∷ ok hello ∷ [], [])

abbrev rejecting : Script
rejecting = (err (leaf provider_rejected) ∷ ok hello ∷ [], [])

script_run :
    execute_with_retries scripted default_retry_policy script
    ≡ (([], pos 7000000000 ∷ pos 1000000000 ∷ []), ok hello)
unfolding execute_with_retries attempt_limit retry_loop before_attempt sleep_before_retry note_retry
    retry_delay backoff float64 is_retryable is_error as_rate_limit default_retry_policy wrap64 ◌*ℤ◌
script_run = refl

rejecting_run :
    (execute_with_retries scripted default_retry_policy rejecting).1 ≡ err (leaf provider_rejected)
unfolding execute_with_retries attempt_limit retry_loop before_attempt note_retry is_retryable
    is_error default_retry_policy
rejecting_run = refl

execute_with_retries_example :
    let end = execute_with_retries (logged scripted) default_retry_policy (script, []) in
    Attempts (attempt_limit default_retry_policy) end.0.1 end.1
execute_with_retries_example = execute_with_retries-Attempts scripted default_retry_policy script

default_is_valid : validate_policy default_retry_policy ≡ none
unfolding validate_policy policy_checks default_retry_policy first_error
default_is_valid = refl

default_backoff_run : default_retry_policy.max_backoff_ms ≤ℤ pos 9223372036854
unfolding default_retry_policy
default_backoff_run = omega arith

backoff_example :
    (default_retry_policy.base_backoff_ms *ℤ pos 1000000 ≤ℤ backoff default_retry_policy 2)
    × (backoff default_retry_policy 2 ≤ℤ default_retry_policy.max_backoff_ms *ℤ pos 1000000)
    × (backoff default_retry_policy 2 ≤ℤ backoff default_retry_policy 3)
backoff_example = backoff_bounds default_retry_policy 1 default_is_valid default_backoff_run

abbrev controller : Controller Milli Script
controller = record {
  budget = default_token_budget;
  retry = default_retry_policy;
  cost_estimator = default_cost_estimator;
  hooks = record {
    budget_exceeded = λ e s. s;
    rate_limited_for = λ wait s. s;
    after_request = λ prompt completion e s. s;
  };
  outside = scripted;
}

abbrev initial : State Milli Script
initial = record {
  rate_limiter = some (new_rate_limiter (some (pos 0)) (pos 0));
  account = some [];
  world = script;
}

execute_example :
    let end = execute controller "s1" (pos 0) (pos 500) (pos 3) initial in
    ((response : ProviderResponse)
      → end.1 ≡ ok response
      → (pos 500 ≤ℤ default_token_budget.max_prompt_chars)
        × (pos 3 ≤ℤ default_token_budget.max_events_per_request)
        × (end.0.account ≡ charged controller "s1" (pos 0) (pos 500) (pos 3) initial response))
    × ((e : AiError) → end.1 ≡ err e → end.0.account ≡ initial.account)
execute_example = execute_lem controller "s1" (pos 0) (pos 500) (pos 3) initial

abbrev request : GatewayRequest Milli
request = record {
  input = record {
    contract_version = "telemetry-one.ai-consumer-input.v1";
    session = record { session_id = "s1"; track = none; layout = none };
    events = [];
    signals =
        record { kind = "pace"; severity = "low"; summary = "The pace drops."; details = [] } ∷ [];
    safety = record {
      redaction_policy = "no_raw_telemetry";
      allowed_input_kinds = "derived_signals" ∷ [];
    };
    constraints = [];
  };
  mode = "engineer";
}

request_run : validate_gateway_request request ≡ none
unfolding validate_gateway_request validate_input validate_session_context validate_envelopes_from
    validate_signals_from validate_signal signal_checks validate_safety validate_kinds
    allowed_input_kind one_of first_error Option.or_else
request_run = refl

abbrev unrounded : Milli → String
unrounded none = "NaN"
unrounded (some thousandths) = decimal thousandths

fallback_analyze_example :
    let end =
      fallback_analyze unrounded
        (λ e. "unavailable")
        (analyze controller (λ r. pos 500) (pos 0))
        request
        initial in
    (response : GatewayResponse Milli) × (end.1 ≡ ok response)
    × IsAnswered unrounded
        (λ e. "unavailable")
        controller
        (λ r. pos 500)
        (pos 0)
        request
        initial
        end.0.account
        response
fallback_analyze_example =
    fallback_analyze_lem unrounded (λ e. "unavailable") controller (λ r. pos 500) (pos 0) request
      initial request_run

abbrev summary_of : String → String → EventSummary Milli
summary_of id severity = record {
  event_id = id;
  event_type = "late_throttle";
  severity = severity;
  confidence = some (pos 800);
  lap_number = pos 3;
  corner = "";
  metric_summary = "";
}

abbrev found : List (EventSummary Milli)
found =
    summary_of "a" "low"
    ∷ summary_of "b" "high"
    ∷ summary_of "c" "medium"
    ∷ summary_of "d" "high"
    ∷ []

displayed_run :
    displayed found ≡ summary_of "b" "high" ∷ summary_of "d" "high" ∷ summary_of "c" "medium" ∷ []
unfolding displayed sort_by_severity_desc sort_by insert_by severity_to_weight
displayed_run = refl

displayed_example :
    (hidden : List (EventSummary Milli)) × Perm (displayed found ++ hidden) found
    × (length (displayed found) ≤ 3)
    × ((length (displayed found) ≡ 3) ⊎ (hidden ≡ []))
    × All (λ shown. All (λ e. IsBefore shown.severity e.severity) hidden) (displayed found)
displayed_example = displayed_lem found
