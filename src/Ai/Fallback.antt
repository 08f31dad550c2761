-- ===== src/Ai/Fallback.antt =====
-- internal/ai/fallback.go: the answer that needs no AI provider.
pub mod Answers
use telemetry_one_backend.Base.{
  ℕ, ◌-◌, String, Bool, true, false, ◌&&◌, ◌||◌, not, Option, none, some, List, [], ◌∷◌, ◌++◌, map,
  if◌then◌else◌, ◌==◌, string_eq, ℤ, pos, length, take, ltb,
}
use telemetry_one_backend.Base.Float.{Float64}
use telemetry_one_backend.Base.Result.{Result, ok, err}
use telemetry_one_backend.Base.Sort.{sort_by}
use telemetry_one_backend.Base.Text.{◌&◌, decimal, join}
use telemetry_one_backend.Ai.Error.{
  AiError, RateLimit, UsageInfo, leaf, is_error, as_rate_limit, budget_exceeded, rate_limited,
  retry_exhausted, provider_not_available, provider_timeout, invalid_provider_response,
}
use telemetry_one_backend.Ai.Input.{
  ConsumerInput, GatewayRequest, EventEnvelope, Signal, InputError, is_empty,
  validate_gateway_request,
}
use telemetry_one_backend.Ai.Context.{
  EventSummary, ContextSummary, build_context, session_lines, signal_part, metric_line, count_of,
  or_text,
}

pub record EventExplanation (F : Type 0) : Type 0 where
  pub event_id : String
  pub event_type : String
  pub explanation : String
  pub relevance : F

pub record ProviderResultInfo : Type 0 where
  pub model : String
  pub finish_reason : String
  pub usage : UsageInfo
  pub retry_after_seconds : Option ℤ
  pub provider_name : String

pub record GatewayResponse (F : Type 0) : Type 0 where
  pub summary : String
  pub event_explanations : List (EventExplanation F)
  pub recommendations : List String
  pub referenced_events : List String
  pub signals : List Signal
  pub provider_info : ProviderResultInfo
  pub status : String
  pub error : String

unfoldable pub severity_to_weight : String → ℕ
severity_to_weight s =
    if s == "low" then 1 else if s == "medium" then 2 else if s == "high" then 3 else 0

-- The status of an answer without the provider, from the provider's error and the rate limit in it.
unfoldable pub status_with : AiError → Option RateLimit → String
status_with e (some limit) = "rate_limited"
status_with e none =
    if is_error e budget_exceeded
    then "budget_limited"
    else if is_error e rate_limited
    then "rate_limited"
    else if is_error e retry_exhausted
        || is_error e provider_not_available
        || is_error e provider_timeout
    then "provider_error"
    else if is_error e invalid_provider_response
    then "invalid_response"
    else "provider_error"

unfoldable pub status_from_error : AiError → String
status_from_error e = status_with e (as_rate_limit e)

abbrev no_tokens : UsageInfo
no_tokens = record { prompt_tokens = pos 0; completion_tokens = pos 0; total_tokens = pos 0 }

-- What is said of the provider, with the rate limit in the error.
unfoldable pub limit_info : String → Option RateLimit → ProviderResultInfo
limit_info status none = record {
  model = "";
  finish_reason = status;
  usage = no_tokens;
  retry_after_seconds = none;
  provider_name = "";
}
limit_info status (some limit) = record {
  model = limit.model;
  finish_reason = status;
  usage = no_tokens;
  retry_after_seconds = limit.retry_after_seconds;
  provider_name = limit.provider_name;
}

module _ {F : Type 0} where
  -- internal/ai/audit.go: `extractEventIDs`
  unfoldable pub extract_event_ids : List (EventEnvelope F) → List String
  extract_event_ids [] = []
  extract_event_ids (e ∷ es) = e.event.event_id ∷ extract_event_ids es

  abbrev pub is_graver : EventSummary F → EventSummary F → Bool
  is_graver a b = ltb (severity_to_weight b.severity) (severity_to_weight a.severity)

  unfoldable pub sort_by_severity_desc : List (EventSummary F) → List (EventSummary F)
  sort_by_severity_desc events = sort_by is_graver events

  unfoldable pub event_lines : EventSummary F → List String
  event_lines e =
      ("  ["
        & e.event_id
        & "] "
        & e.event_type
        & " - severity: "
        & e.severity
        & ", lap: "
        & decimal e.lap_number
        & ", corner: "
        & or_text e.corner "unknown corner")
      ∷ metric_line e.metric_summary

  unfoldable pub all_event_lines : List (EventSummary F) → List String
  all_event_lines [] = []
  all_event_lines (e ∷ es) = event_lines e ++ all_event_lines es

  -- The events that are shown.
  unfoldable pub displayed : List (EventSummary F) → List (EventSummary F)
  displayed events = take 3 (sort_by_severity_desc events)

  unfoldable pub remaining_lines : List (EventSummary F) → List String
  remaining_lines events =
      let remaining = length events - length (displayed events) in
      if ltb 0 remaining
      then ("  ... and " & decimal (pos remaining) & " more event(s)") ∷ []
      else []

  unfoldable pub fallback_summary : ContextSummary F → String → String
  fallback_summary c status = join "\n" (
      ("AI analysis is currently unavailable (" & status & ").")
        ∷ ""
        ∷ "The following summary is based on deterministic event data:"
        ∷ ""
        ∷ session_lines c.session
      ++ ("" ∷ ("Engineer Events (" & count_of c.events & " total):") ∷ [])
      ++ all_event_lines (displayed c.events)
      ++ remaining_lines c.events
      ++ signal_part "Derived Signals" "  " c.signals
      ++ (""
          ∷ "No AI explanations or recommendations are available for this request."
          ∷ (if is_empty c.signals
              then "Review the highest severity events above for manual analysis."
              else "Review the derived signals above for manual analysis.")
          ∷ []))

-- `two_decimals` is `fmt.Sprintf("%.2f", x)`, and `text_of` is `err.Error()`.
module _ {F : Type 0} ⦃fl : Float64 F⦄ (two_decimals : F → String)
    (text_of : AiError → String) where
  unfoldable pub build_fallback_summary : ConsumerInput F → String → String
  build_fallback_summary input status = fallback_summary (build_context two_decimals input) status

  unfoldable pub build_fallback_response : GatewayRequest F → AiError → String → GatewayResponse F
  build_fallback_response r e status = record {
    summary = build_fallback_summary r.input status;
    event_explanations = [];
    recommendations = [];
    referenced_events = extract_event_ids r.input.events;
    signals = r.input.signals;
    provider_info = limit_info status (as_rate_limit e);
    status = status;
    error = text_of e;
  }

  -- The answer, from what the service inside returns.
  unfoldable pub answer : GatewayRequest F → Result AiError (GatewayResponse F) → GatewayResponse F
  answer r (err e) = build_fallback_response r e (status_from_error e)
  answer r (ok given) =
      if given.summary == ""
      then build_fallback_response r (leaf invalid_provider_response) "invalid_response"
      else if not (is_empty r.input.events) && is_empty given.referenced_events
      then build_fallback_response r (leaf invalid_provider_response) "invalid_response"
      else record given { status = "success" }

  abbrev pub analyze_checked :
      {S : Type 0}
      → (GatewayRequest F → S → S × Result AiError (GatewayResponse F))
      → GatewayRequest F
      → Option InputError
      → S
      → S × Result InputError (GatewayResponse F)
  analyze_checked inner r (some e) s = (s, err e)
  analyze_checked inner r none s = let (s', given) = inner r s in (s', ok (answer r given))

  -- `FallbackService.Analyze`; `S` is what the service inside changes.
  unfoldable pub fallback_analyze :
      {S : Type 0}
      → (GatewayRequest F → S → S × Result AiError (GatewayResponse F))
      → GatewayRequest F
      → S
      → S × Result InputError (GatewayResponse F)
  fallback_analyze inner r s = analyze_checked inner r (validate_gateway_request r) s
