-- ===== src/Ai/Service.antt =====
-- internal/ai/service.go: a request to the AI provider through the controller.
use telemetry_one_backend.Base.{Option, none, some, [], ◌+◌, ℤ, pos, length}
use telemetry_one_backend.Base.Float.{Float64}
use telemetry_one_backend.Base.Result.{Result, ok, err}
use telemetry_one_backend.Ai.Error.{AiError, ProviderResponse, leaf, other}
use telemetry_one_backend.Ai.Input.{GatewayRequest, InputError, validate_gateway_request}
use telemetry_one_backend.Ai.Controller.{Controller, State, execute}
use telemetry_one_backend.Ai.Fallback.{GatewayResponse, extract_event_ids}

module _ {F : Type 0} ⦃fl : Float64 F⦄ where
  unfoldable pub response_of : GatewayRequest F → ProviderResponse → GatewayResponse F
  response_of r answer = record {
    summary = answer.content;
    event_explanations = [];
    recommendations = [];
    referenced_events = extract_event_ids r.input.events;
    signals = r.input.signals;
    provider_info = record {
      model = answer.model;
      finish_reason = answer.finish_reason;
      usage = answer.usage;
      retry_after_seconds = none;
      provider_name = "";
    };
    status = "";
    error = "";
  }

  abbrev pub responded :
      {S : Type 0}
      → GatewayRequest F
      → S × Result AiError ProviderResponse
      → S × Result AiError (GatewayResponse F)
  responded r (s, err e) = (s, err e)
  responded r (s, ok answer) = (s, ok (response_of r answer))

  -- `prompt_chars` is the length of the two prompts that the builder makes of the request, and `now`
  -- the time of the rate limit.
  module _ {W : Type 0} (c : Controller F W) (prompt_chars : GatewayRequest F → ℤ) (now : ℤ) where
    -- After the checks of the request.
    unfoldable pub analyze_valid :
        GatewayRequest F → State F W → State F W × Result AiError (GatewayResponse F)
    analyze_valid r s = responded r (
        execute c r.input.session.session_id now (prompt_chars r)
          (pos (length r.input.events + length r.input.signals)) s)

    abbrev pub analyze_if :
        GatewayRequest F
        → Option InputError
        → State F W
        → State F W × Result AiError (GatewayResponse F)
    -- an error of the checks is none of those that the provider returns
    analyze_if r (some e) s = (s, err (leaf other))
    analyze_if r none s = analyze_valid r s

    -- `Service.Analyze`
    unfoldable pub analyze :
        GatewayRequest F → State F W → State F W × Result AiError (GatewayResponse F)
    analyze r s = analyze_if r (validate_gateway_request r) s
