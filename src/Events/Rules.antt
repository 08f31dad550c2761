-- ===== src/Events/Rules.antt =====
-- internal/events/rules.go: the events of a corner, from its analysis (internal/corners/analysis.go).
pub mod Generated
use telemetry_one_backend.Base.{
  ℕ, ◌+◌, String, Bool, true, false, ◌&&◌, ◌||◌, not, Option, none, some, List, [], ◌∷◌, ◌++◌,
  if◌then◌else◌, ◌==◌, string_eq, ℤ, pos, leb_ℤ, ltb_ℤ, sub64,
}
use telemetry_one_backend.Base.Float.{Float64}
use telemetry_one_backend.Base.Text.{◌&◌, decimal}
use telemetry_one_backend.Base.Result.{Result, ok, err, or_error}
use telemetry_one_backend.Corners.Analysis.{Analysis}
use telemetry_one_backend.Events.Event.{
  EngineerEvent, CatalogRef, MetricEvidence, TimeRange, EventError, finite, contract_version_v1,
}
use telemetry_one_backend.Events.Identity.{
  severity_for_int64, confidence_for_severity, time_range, sanitize_id,
}
use telemetry_one_backend.Events.Producer.{metric}
use telemetry_one_backend.Events.Regression.{first_fault}

pub record RuleOptions (F : Type 0) : Type 0 where
  pub late_throttle_delay_low_ms : ℤ
  pub late_throttle_delay_medium_ms : ℤ
  pub late_throttle_delay_high_ms : ℤ
  pub low_exit_speed_delta_low_kph : F
  pub low_exit_speed_delta_medium_kph : F
  pub low_exit_speed_delta_high_kph : F

pub record ScalarReference (F : Type 0) : Type 0 where
  pub available : Bool
  pub value : F

pub record ReferenceMetrics (F : Type 0) : Type 0 where
  pub exit_speed_kph : ScalarReference F

pub record RuleInput (F : Type 0) : Type 0 where
  pub session_id : String
  pub lap_number : ℤ
  pub timestamp_unix_ms : ℤ
  pub corner_analysis : Analysis F
  pub reference : Option (ReferenceMetrics F)
  pub track : Option CatalogRef
  pub layout : Option CatalogRef
  pub corner : Option CatalogRef
  pub options : RuleOptions F

-- A threshold that is not above its bound is replaced.
abbrev pub replace_ms : ℤ → ℤ → ℤ → ℤ
replace_ms bound value default_value = if leb_ℤ value bound then default_value else value

module _ {F : Type 0} where
  unfoldable pub corner_event_id : RuleInput F → String → String
  corner_event_id input event_type =
      let id = input.corner_analysis.corner_id in
      sanitize_id (
        input.session_id
        & "-lap-"
        & decimal input.lap_number
        & "-"
        & (if id == "" then "unknown-corner" else id)
        & "-"
        & event_type)

module _ {F : Type 0} ⦃fl : Float64 F⦄ where
  open fl use {literal, of_int, sub, lt, le, is_nan, is_inf}

  unfoldable pub severity_for_float64 : F → F → F → String
  severity_for_float64 value medium high =
      if le high value then "high" else if le medium value then "medium" else "low"

  unfoldable pub default_rule_options : RuleOptions F
  default_rule_options = record {
    late_throttle_delay_low_ms = pos 250;
    late_throttle_delay_medium_ms = pos 500;
    late_throttle_delay_high_ms = pos 750;
    low_exit_speed_delta_low_kph = literal 5 0;
    low_exit_speed_delta_medium_kph = literal 10 0;
    low_exit_speed_delta_high_kph = literal 15 0;
  }

  -- A threshold that is not above its bound, or not finite, is replaced.
  abbrev pub replace_kph : F → F → F → F
  replace_kph bound value default_value =
      if le value bound || is_nan value || is_inf value then default_value else value

  unfoldable pub normalize_rule_options : RuleOptions F → RuleOptions F
  normalize_rule_options o =
      let d = default_rule_options in
      let low = replace_ms (pos 0) o.late_throttle_delay_low_ms d.late_throttle_delay_low_ms in
      let medium = replace_ms low o.late_throttle_delay_medium_ms d.late_throttle_delay_medium_ms in
      let slow =
        replace_kph (literal 0 0) o.low_exit_speed_delta_low_kph d.low_exit_speed_delta_low_kph in
      let slower =
        replace_kph slow o.low_exit_speed_delta_medium_kph d.low_exit_speed_delta_medium_kph in
      record {
        late_throttle_delay_low_ms = low;
        late_throttle_delay_medium_ms = medium;
        late_throttle_delay_high_ms =
            replace_ms medium o.late_throttle_delay_high_ms d.late_throttle_delay_high_ms;
        low_exit_speed_delta_low_kph = slow;
        low_exit_speed_delta_medium_kph = slower;
        low_exit_speed_delta_high_kph =
            replace_kph slower o.low_exit_speed_delta_high_kph d.low_exit_speed_delta_high_kph;
      }

  unfoldable pub base_event :
      RuleInput F
      → String
      → String
      → String
      → List (MetricEvidence F)
      → Option TimeRange
      → EngineerEvent F
  base_event input event_type severity rule_id metrics range = record {
    event_id = corner_event_id input event_type;
    session_id = input.session_id;
    version = contract_version_v1;
    event_type = event_type;
    severity = severity;
    confidence = confidence_for_severity severity;
    timestamp_unix_ms = input.timestamp_unix_ms;
    time_range = range;
    lap_number = input.lap_number;
    track = input.track;
    layout = input.layout;
    corner = input.corner;
    metrics = metrics;
    source = record { kind = "deterministic_rule"; rule_id = rule_id; rule_version = "v1" };
  }

  unfoldable pub late_throttle_event : RuleInput F → RuleOptions F → Option (EngineerEvent F)
  late_throttle_event input options =
      let m = input.corner_analysis.first_throttle_reapplication in
      let low = options.late_throttle_delay_low_ms in
      if not (m.status == "available")
        || ltb_ℤ m.time_offset_ms low
        || leb_ℤ input.timestamp_unix_ms (pos 0)
      then none
      else some (
          base_event input "late_throttle"
            (severity_for_int64 m.time_offset_ms options.late_throttle_delay_medium_ms
              options.late_throttle_delay_high_ms)
            "late_throttle.v1"
            (metric "firstThrottleReapplicationOffsetMs" (of_int m.time_offset_ms) "ms" "actual"
              ∷ metric "lateThrottleDelayThresholdMs" (of_int low) "ms" "threshold"
              ∷ metric "firstThrottleReapplicationDistanceMeters" m.distance_from_start "m" "actual"
              ∷ [])
            (time_range (sub64 m.timestamp_unix_ms m.time_offset_ms) m.timestamp_unix_ms))

  -- The event for a reference that is finite.
  unfoldable pub exit_speed_event : RuleInput F → RuleOptions F → F → Option (EngineerEvent F)
  exit_speed_event input options reference =
      let actual = input.corner_analysis.exit_speed_kph in
      let delta = sub reference actual.value in
      let low = options.low_exit_speed_delta_low_kph in
      if not (actual.status == "available")
        || not (finite actual.value)
        || leb_ℤ input.timestamp_unix_ms (pos 0)
        || lt delta low
      then none
      else some (
          base_event input "low_exit_speed"
            (severity_for_float64 delta options.low_exit_speed_delta_medium_kph
              options.low_exit_speed_delta_high_kph)
            "low_exit_speed.v1"
            (metric "exitSpeedKph" actual.value "kph" "actual"
              ∷ metric "referenceExitSpeedKph" reference "kph" "reference"
              ∷ metric "exitSpeedDeltaKph" delta "kph" "delta"
              ∷ metric "lowExitSpeedDeltaThresholdKph" low "kph" "threshold"
              ∷ [])
            (time_range input.timestamp_unix_ms input.timestamp_unix_ms))

  unfoldable pub referenced_event :
      RuleInput F → RuleOptions F → Option (ReferenceMetrics F) → Option (EngineerEvent F)
  referenced_event input options none = none
  referenced_event input options (some reference) =
      let speed = reference.exit_speed_kph in
      if not speed.available || not (finite speed.value)
      then none
      else exit_speed_event input options speed.value

  unfoldable pub low_exit_speed_event : RuleInput F → RuleOptions F → Option (EngineerEvent F)
  low_exit_speed_event input options = referenced_event input options input.reference

  abbrev pub given_event : Option (EngineerEvent F) → List (EngineerEvent F)
  given_event none = []
  given_event (some e) = e ∷ []

  -- `Generate`
  unfoldable pub generate : RuleInput F → Result EventError (List (EngineerEvent F))
  generate input =
      let options = normalize_rule_options input.options in
      let events =
        given_event (late_throttle_event input options)
        ++ given_event (low_exit_speed_event input options) in
      if input.corner_analysis.status == "unavailable"
      then ok []
      else or_error (first_fault events) events
