-- ===== src/Events/Event.antt =====
-- internal/events/event.go and repository.go: an engineer event, a query, and their checks.
pub mod Contract
use mathlib.Core.Option
use telemetry_one_backend.Base.{
  ℕ, String, Bool, true, false, ◌&&◌, ◌||◌, not, Option, none, some, List, [], ◌∷◌, if◌then◌else◌,
  ◌==◌, string_eq, nat_eq, ℤ, pos, ltb_ℤ, leb_ℤ, length,
}
use telemetry_one_backend.Base.Float.{Float64}
use telemetry_one_backend.Base.Result.{first_error}

pub data EventError : Type 0 where
  missing_event_id missing_session_id missing_version unsupported_version : EventError
  missing_type unsupported_type missing_severity unsupported_severity : EventError
  invalid_confidence invalid_timestamp invalid_time_range invalid_lap_number : EventError
  missing_source unsupported_source_kind missing_metric_name invalid_metric_value : EventError
  unsupported_metric_status unsupported_metric_role missing_metrics : EventError
  raw_metric invalid_catalog_ref : EventError

abbrev pub contract_version_v1 : String
contract_version_v1 = "telemetry-one.engineer-event.v1"

abbrev pub event_types : List String
event_types =
    "early_braking" ∷ "late_braking" ∷ "late_throttle" ∷ "low_exit_speed" ∷ "inconsistent_corner"
    ∷ "lap_time_regression" ∷ "off_track_stint" ∷ []

abbrev pub severities : List String
severities = "low" ∷ "medium" ∷ "high" ∷ []

abbrev pub raw_fields : List String
raw_fields =
    "positionX" ∷ "positionY" ∷ "positionZ" ∷ "yawRadians" ∷ "yawRate" ∷ "speedMps" ∷ "rpm" ∷ "gear"
    ∷ "throttle" ∷ "brake" ∷ "steering" ∷ "fuelLiters" ∷ "wheelSpeedFL" ∷ "wheelSpeedFR"
    ∷ "wheelSpeedRL" ∷ "wheelSpeedRR" ∷ "isOnTrack" ∷ []

-- A `switch` that is true on the words listed.
unfoldable pub one_of : String → List String → Bool
one_of s [] = false
one_of s (t ∷ ts) = s == t || one_of s ts

pub record TimeRange : Type 0 where
  pub start_unix_ms : ℤ
  pub end_unix_ms : ℤ

pub record CatalogRef : Type 0 where
  pub id : Option String
  pub name : Option String
  pub display_strategy : String

pub record MetricEvidence (F : Type 0) : Type 0 where
  pub name : String
  pub value : F
  pub unit : String
  pub status : String
  pub reason : String
  pub role : String

pub record EventSource : Type 0 where
  pub kind : String
  pub rule_id : String
  pub rule_version : String

pub record EngineerEvent (F : Type 0) : Type 0 where
  pub event_id : String
  pub session_id : String
  pub version : String
  pub event_type : String
  pub severity : String
  pub confidence : F
  pub timestamp_unix_ms : ℤ
  pub time_range : Option TimeRange
  pub lap_number : ℤ
  pub track : Option CatalogRef
  pub layout : Option CatalogRef
  pub corner : Option CatalogRef
  pub metrics : List (MetricEvidence F)
  pub source : EventSource

unfoldable pub supported_type : String → Bool
supported_type t = one_of t event_types

unfoldable pub supported_severity : String → Bool
supported_severity s = one_of s severities

unfoldable pub raw_telemetry_metric : String → Bool
raw_telemetry_metric name = one_of name raw_fields

-- `p == nil || *p == ""`
abbrev pub is_blank : Option String → Bool
is_blank none = true
is_blank (some s) = s == ""

abbrev pub is_given : Option String → Bool
is_given none = false
is_given (some s) = true

-- What the `switch` on the display strategy refuses.
unfoldable pub is_bad_ref : CatalogRef → Bool
is_bad_ref r =
    if r.display_strategy == "catalog_name"
    then is_blank r.id || is_blank r.name
    else if r.display_strategy == "id_only"
    then is_blank r.id || is_given r.name
    else if r.display_strategy == "none"
    then is_given r.id || is_given r.name
    else true

unfoldable pub validate_ref : Option CatalogRef → Option EventError
validate_ref none = none
validate_ref (some r) = if is_bad_ref r then some invalid_catalog_ref else none

unfoldable pub source_checks : EventSource → List (Bool × EventError)
source_checks s =
    (s.kind == "" || s.rule_version == "", missing_source)
    ∷ (not (s.kind == "deterministic_rule"), unsupported_source_kind)
    ∷ []

unfoldable pub validate_source : EventSource → Option EventError
unfolding source_checks
validate_source s = first_error (source_checks s)

unfoldable pub is_bad_range : Option TimeRange → Bool
is_bad_range none = false
is_bad_range (some r) =
    leb_ℤ r.start_unix_ms (pos 0)
    || leb_ℤ r.end_unix_ms (pos 0)
    || ltb_ℤ r.end_unix_ms r.start_unix_ms

module _ {F : Type 0} ⦃fl : Float64 F⦄ where
  open fl use {literal, lt, is_nan, is_inf}

  unfoldable pub finite : F → Bool
  finite x = not (is_nan x) && not (is_inf x)

  unfoldable pub metric_checks : MetricEvidence F → List (Bool × EventError)
  metric_checks m =
      (m.name == "", missing_metric_name)
      ∷ (raw_telemetry_metric m.name, raw_metric)
      ∷ (not (finite m.value), invalid_metric_value)
      ∷ (
        not (m.status == "available") && not (m.status == "unavailable"),
        unsupported_metric_status,
      )
      ∷ (
        not (m.role == "")
            && not (m.role == "actual")
            && not (m.role == "reference")
            && not (m.role == "delta")
            && not (m.role == "threshold"),
        unsupported_metric_role,
      )
      ∷ []

  unfoldable pub validate_metric : MetricEvidence F → Option EventError
  unfolding metric_checks
  validate_metric m = first_error (metric_checks m)

  unfoldable pub validate_metrics : List (MetricEvidence F) → Option EventError
  validate_metrics [] = none
  validate_metrics (m ∷ ms) = Option.or_else (validate_metric m) (validate_metrics ms)

  -- The tests of `Validate` up to the references.
  unfoldable pub event_checks : EngineerEvent F → List (Bool × EventError)
  event_checks e =
      (e.event_id == "", missing_event_id)
      ∷ (e.session_id == "", missing_session_id)
      ∷ (e.version == "", missing_version)
      ∷ (not (e.version == contract_version_v1), unsupported_version)
      ∷ (e.event_type == "", missing_type)
      ∷ (not (supported_type e.event_type), unsupported_type)
      ∷ (e.severity == "", missing_severity)
      ∷ (not (supported_severity e.severity), unsupported_severity)
      ∷ (
        not (finite e.confidence) || lt e.confidence (literal 0 0) || lt (literal 1 0) e.confidence,
        invalid_confidence,
      )
      ∷ (leb_ℤ e.timestamp_unix_ms (pos 0), invalid_timestamp)
      ∷ (is_bad_range e.time_range, invalid_time_range)
      ∷ (ltb_ℤ e.lap_number (pos 0), invalid_lap_number)
      ∷ []

  -- `EngineerEvent.Validate`
  unfoldable pub validate_event : EngineerEvent F → Option EventError
  unfolding event_checks validate_ref validate_metrics validate_source
  validate_event e = Option.or_else (first_error (event_checks e)) (
      Option.or_else (validate_ref e.track) (
        Option.or_else (validate_ref e.layout) (
          Option.or_else (validate_ref e.corner) (
            Option.or_else (if length e.metrics == 0 then some missing_metrics else none)
              (Option.or_else (validate_metrics e.metrics) (validate_source e.source))))))

pub record Query : Type 0 where
  pub session_id : String
  pub lap_number : Option ℤ
  pub corner_id : String
  pub event_type : String

abbrev is_negative : Option ℤ → Bool
is_negative none = false
is_negative (some n) = ltb_ℤ n (pos 0)

unfoldable pub query_checks : Query → List (Bool × EventError)
query_checks q =
    (q.session_id == "", missing_session_id)
    ∷ (is_negative q.lap_number, invalid_lap_number)
    ∷ (not (q.event_type == "") && not (supported_type q.event_type), unsupported_type)
    ∷ []

unfoldable pub validate_query : Query → Option EventError
unfolding query_checks
validate_query q = first_error (query_checks q)
