-- ===== src/Ai/Context.antt =====
-- internal/ai/context.go: what a request says, summed up for a prompt.
use mathlib.Core.Option
use telemetry_one_backend.Base.{
  String, Option, none, some, List, [], ◌∷◌, ◌++◌, map, if◌then◌else◌, ◌==◌, string_eq, ℤ, pos,
  length,
}
use telemetry_one_backend.Base.Text.{◌&◌, decimal, join}
use telemetry_one_backend.Events.Event.{CatalogRef, MetricEvidence}
use telemetry_one_backend.Ai.Input.{
  ConsumerInput, SessionContext, EventEnvelope, Signal, SafetyMetadata,
}

pub record SessionSummary : Type 0 where
  pub session_id : String
  pub track : String
  pub layout : String

pub record EventSummary (F : Type 0) : Type 0 where
  pub event_id : String
  pub event_type : String
  pub severity : String
  pub confidence : F
  pub lap_number : ℤ
  pub corner : String
  pub metric_summary : String

pub record SafetySummary : Type 0 where
  pub redaction_policy : String
  pub allowed_kinds : List String

pub record ContextSummary (F : Type 0) : Type 0 where
  pub session : SessionSummary
  pub events : List (EventSummary F)
  pub signals : List Signal
  pub safety : SafetySummary

-- The name of a reference, or "" where there is none.
unfoldable pub name_of : Option CatalogRef → String
name_of none = ""
name_of (some ref) = Option.get_or ref.name ""

unfoldable pub session_summary : SessionContext → SessionSummary
session_summary s = record {
  session_id = s.session_id;
  track = name_of s.track;
  layout = name_of s.layout;
}

unfoldable pub safety_summary : SafetyMetadata → SafetySummary
safety_summary s = record {
  redaction_policy = s.redaction_policy;
  allowed_kinds = s.allowed_input_kinds;
}

abbrev pub or_text : String → String → String
or_text text default_text = if text == "" then default_text else text

-- The lines of a signal, where each starts as `mark` says.
unfoldable pub signal_lines : String → Signal → List String
signal_lines mark s =
    (mark & "[" & s.kind & "] " & s.summary)
    ∷ ((if s.severity == "" then [] else ("    severity: " & s.severity) ∷ [])
        ++ map (λ detail. "    detail: " & detail) s.details)

unfoldable pub all_signal_lines : String → List Signal → List String
all_signal_lines mark [] = []
all_signal_lines mark (s ∷ ss) = signal_lines mark s ++ all_signal_lines mark ss

abbrev pub count_of {ℓ} : {A : Type ℓ} → List A → String
count_of xs = decimal (pos (length xs))

-- Signals under their title, if there are any.
unfoldable pub signal_part : String → String → List Signal → List String
signal_part title mark [] = []
signal_part title mark (s ∷ ss) =
    "" ∷ (title & " (" & count_of (s ∷ ss) & " total):") ∷ all_signal_lines mark (s ∷ ss)

-- The three lines on the session.
unfoldable pub session_lines : SessionSummary → List String
session_lines s =
    ("Session: " & s.session_id)
    ∷ ("Track: " & or_text s.track "unknown")
    ∷ ("Layout: " & or_text s.layout "unknown")
    ∷ []

abbrev pub metric_line : String → List String
metric_line summary = if summary == "" then [] else ("    metrics: " & summary) ∷ []

-- `two_decimals` is `fmt.Sprintf("%.2f", x)`.
module _ {F : Type 0} (two_decimals : F → String) where
  unfoldable pub metric_part : MetricEvidence F → String
  metric_part m =
      m.name
      & "="
      & two_decimals m.value
      & (if m.unit == "" then "" else " " & m.unit)
      & (if m.role == "" then "" else " (" & m.role & ")")

  unfoldable pub metric_summary : List (MetricEvidence F) → String
  metric_summary metrics = join ", " (map metric_part metrics)

  unfoldable pub event_summary : EventEnvelope F → EventSummary F
  event_summary e = record {
    event_id = e.event.event_id;
    event_type = e.event.event_type;
    severity = e.event.severity;
    confidence = e.event.confidence;
    lap_number = e.event.lap_number;
    corner = name_of e.event.corner;
    metric_summary = metric_summary e.event.metrics;
  }

  unfoldable pub build_context : ConsumerInput F → ContextSummary F
  build_context input = record {
    session = session_summary input.session;
    events = map event_summary input.events;
    signals = input.signals;
    safety = safety_summary input.safety;
  }

  unfoldable pub prompt_event_lines : EventSummary F → List String
  prompt_event_lines e =
      ("  - ["
        & e.event_id
        & "] "
        & e.event_type
        & " (severity: "
        & e.severity
        & ", confidence: "
        & two_decimals e.confidence
        & ", lap: "
        & decimal e.lap_number
        & ", corner: "
        & or_text e.corner "unknown corner"
        & ")")
      ∷ metric_line e.metric_summary

  unfoldable pub all_prompt_event_lines : List (EventSummary F) → List String
  all_prompt_event_lines [] = []
  all_prompt_event_lines (e ∷ es) = prompt_event_lines e ++ all_prompt_event_lines es

  unfoldable pub build_prompt_summary : ConsumerInput F → String
  build_prompt_summary input =
      let c = build_context input in
      join "\n" (
        session_lines c.session
        ++ ("" ∷ ("Engineer Events (" & count_of c.events & " total):") ∷ [])
        ++ all_prompt_event_lines c.events
        ++ signal_part "Signals" "  - " c.signals
        ++ ("" ∷ ("Safety: " & c.safety.redaction_policy) ∷ []))
