-- ===== src/Ai/Input.antt =====
-- internal/ai/input.go and gateway.go: what is asked of the AI service, and its checks.
use mathlib.Core.Option
use telemetry_one_backend.Base.{
  ℕ, suc, String, Bool, true, false, ◌&&◌, ◌||◌, not, Option, none, some, List, [], ◌∷◌,
  if◌then◌else◌, ◌==◌, string_eq,
}
use telemetry_one_backend.Base.Float.{Float64}
use telemetry_one_backend.Base.Result.{first_error}
use telemetry_one_backend.Events.Event.{
  EngineerEvent, CatalogRef, EventError, one_of, validate_event,
}

pub data InputError : Type 0 where
  missing_contract_version unsupported_contract missing_session_id missing_events : InputError
  missing_signal_kind missing_signal_summary unsupported_severity : InputError
  missing_redaction_policy missing_allowed_input_kind unsupported_input_kind : InputError
  empty_gateway_request no_events_in_gateway unsupported_gateway_mode : InputError
  -- `ErrInvalidEvent` at an index, with the fault that it shows
  invalid_event : ℕ → EventError → InputError
  invalid_signal : ℕ → InputError → InputError

abbrev contract_version_v1 : String
contract_version_v1 = "telemetry-one.ai-consumer-input.v1"

pub record SessionContext : Type 0 where
  pub session_id : String
  pub track : Option CatalogRef
  pub layout : Option CatalogRef

pub record EventEnvelope (F : Type 0) : Type 0 where
  pub event : EngineerEvent F

pub record Signal : Type 0 where
  pub kind : String
  pub severity : String
  pub summary : String
  pub details : List String

pub record SafetyMetadata : Type 0 where
  pub redaction_policy : String
  pub allowed_input_kinds : List String

pub record ConsumerInput (F : Type 0) : Type 0 where
  pub contract_version : String
  pub session : SessionContext
  pub events : List (EventEnvelope F)
  pub signals : List Signal
  pub safety : SafetyMetadata
  pub constraints : List String

pub record GatewayRequest (F : Type 0) : Type 0 where
  pub input : ConsumerInput F
  pub mode : String

unfoldable pub validate_session_context : SessionContext → Option InputError
validate_session_context s = if s.session_id == "" then some missing_session_id else none

unfoldable pub allowed_input_kind : String → Bool
allowed_input_kind kind = one_of kind (
    "engineer_events" ∷ "derived_metrics" ∷ "derived_signals" ∷ "catalog_refs" ∷ "session_context"
    ∷ "unknown_states_explicit" ∷ [])

unfoldable pub validate_kinds : List String → Option InputError
validate_kinds [] = none
validate_kinds (kind ∷ kinds) =
    let rest = validate_kinds kinds in
    if allowed_input_kind kind then rest else some unsupported_input_kind

abbrev pub is_empty {ℓ} : {A : Type ℓ} → List A → Bool
is_empty [] = true
is_empty (x ∷ xs) = false

unfoldable pub validate_safety : SafetyMetadata → Option InputError
validate_safety s =
    Option.or_else
      (first_error (
        (s.redaction_policy == "", missing_redaction_policy)
        ∷ (is_empty s.allowed_input_kinds, missing_allowed_input_kind)
        ∷ []))
      (validate_kinds s.allowed_input_kinds)

unfoldable pub signal_checks : Signal → List (Bool × InputError)
signal_checks s =
    (s.kind == "", missing_signal_kind)
    ∷ (s.summary == "", missing_signal_summary)
    ∷ (
      not (s.severity == "")
          && not (s.severity == "low")
          && not (s.severity == "medium")
          && not (s.severity == "high"),
      unsupported_severity,
    )
    ∷ []

unfoldable pub validate_signal : Signal → Option InputError
unfolding signal_checks
validate_signal s = first_error (signal_checks s)

unfoldable pub validate_signals_from : ℕ → List Signal → Option InputError
validate_signals_from i [] = none
validate_signals_from i (s ∷ ss) =
    Option.or_else (Option.map (invalid_signal i) (validate_signal s))
      (validate_signals_from (suc i) ss)

module _ {F : Type 0} ⦃fl : Float64 F⦄ where
  unfoldable pub validate_envelopes_from : ℕ → List (EventEnvelope F) → Option InputError
  validate_envelopes_from i [] = none
  validate_envelopes_from i (e ∷ es) =
      Option.or_else (Option.map (invalid_event i) (validate_event e.event))
        (validate_envelopes_from (suc i) es)

  unfoldable pub validate_input : ConsumerInput F → Option InputError
  validate_input i =
      Option.or_else
        (first_error (
          (i.contract_version == "", missing_contract_version)
          ∷ (not (i.contract_version == contract_version_v1), unsupported_contract)
          ∷ []))
        (Option.or_else (validate_session_context i.session) (
          Option.or_else
            (if is_empty i.events && is_empty i.signals then some missing_events else none)
            (Option.or_else (validate_envelopes_from 0 i.events)
              (Option.or_else (validate_signals_from 0 i.signals) (validate_safety i.safety)))))

  unfoldable pub validate_gateway_request : GatewayRequest F → Option InputError
  validate_gateway_request r =
      Option.or_else
        (first_error (
          (r.input.contract_version == "", empty_gateway_request)
          ∷ (is_empty r.input.events && is_empty r.input.signals, no_events_in_gateway)
          ∷ []))
        (Option.or_else (validate_input r.input) (
          if r.mode == "engineer" || r.mode == "coach"
          then none
          else some unsupported_gateway_mode))
