-- ===== src/Events/Examples/Generate.antt =====
-- The theorems on the rules and on what frames give, at concrete inputs.
use mathlib.Core.Option
use telemetry_one_backend.Base.{
  nat_eq, false, All, ◌+ℤ◌, ◌==◌, string_eq, String, length, wrap64, ◌-ℤ◌, ◌*ℤ◌, ◌≤◌, ◌≡◌, refl,
  none, some, List, [], ◌∷◌, pos,
}
use telemetry_one_backend.Base.Float.{Milli, milli_float}
use telemetry_one_backend.Base.Text.{decimal}
use telemetry_one_backend.Base.Text.Trim.{trim_space}
use telemetry_one_backend.Base.Result.{first_error, or_error, ok}
use telemetry_one_backend.Events.Event.{
  EngineerEvent, validate_event, event_checks, validate_ref, is_bad_ref, validate_metrics,
  validate_metric, metric_checks, validate_source, source_checks, is_bad_range, finite,
  supported_type, supported_severity, raw_telemetry_metric, one_of,
}
use telemetry_one_backend.Events.Producer.{
  next_streak, off_track_streaks, append_off_track_tail, prefix_before, up_to_before,
  off_track_suffix, default_frame_event_options, metric, base_frame_event, frame_event_id,
  off_track_stint_events, emit_all,
}
use telemetry_one_backend.Events.Regression.{
  lap_time_regression_events, first_fault, regression_event, generate_frame_events_for_append,
  regression_loop, regresses, regression_threshold, previous_lap_regression_events, pace_drop_loop,
  pace_drop_step, by_lap, drops_from,
}
use telemetry_one_backend.Events.Identity.{
  lower, plain_text, trim_left_dashes, trim_right_dashes, sanitize_id, severity_for_int64,
  confidence_for_severity, time_range,
}
use telemetry_one_backend.Corners.Analysis.{ScalarMetric}
use telemetry_one_backend.Events.Rules.{
  RuleInput, generate, default_rule_options, normalize_rule_options, late_throttle_event,
  low_exit_speed_event, referenced_event, base_event, corner_event_id,
}
use telemetry_one_backend.Events.Rules.Generated.{IsAbout, generate_lem}
use telemetry_one_backend.Events.FrameEvents.Generated.{
  IsFrom, generate_frame_events_for_append_lem,
}
use telemetry_one_backend.Base.Dict.{lookup, insert}
use telemetry_one_backend.Laps.Lap.{extract_completed, extract_from, reports_lap, completed_lap}
use telemetry_one_backend.Events.Examples.{slow_lap}

abbrev unmeasured : ScalarMetric Milli
unmeasured = record {
  status = "unavailable";
  reason = "insufficient_samples";
  value = some (pos 0);
}

-- Throttle six tenths of a second after the corner's minimum, and no reference.
abbrev slow_corner : RuleInput Milli
slow_corner = record {
  session_id = "s1";
  lap_number = pos 3;
  timestamp_unix_ms = pos 9000;
  corner_analysis = record {
    status = "complete";
    reason = "";
    corner_id = "c1";
    corner_name = "";
    number = pos 1;
    sample_count = pos 20;
    entry_speed_kph = unmeasured;
    minimum_speed_kph = unmeasured;
    exit_speed_kph = unmeasured;
    max_brake_percent = unmeasured;
    first_throttle_reapplication = record {
      status = "available";
      reason = "";
      distance_from_start = some (pos 100000);
      timestamp_unix_ms = pos 8600;
      time_offset_ms = pos 600;
    };
    exit_acceleration_delta_kph = unmeasured;
  };
  reference = none;
  track = none;
  layout = none;
  corner = none;
  options = default_rule_options;
}

abbrev late_event : EngineerEvent Milli
late_event =
    base_event slow_corner "late_throttle" "medium" "late_throttle.v1"
      (metric "firstThrottleReapplicationOffsetMs" (some (pos 600000)) "ms" "actual"
        ∷ metric "lateThrottleDelayThresholdMs" (some (pos 250000)) "ms" "threshold"
        ∷ metric "firstThrottleReapplicationDistanceMeters" (some (pos 100000)) "m" "actual"
        ∷ [])
      (some (record { start_unix_ms = pos 8000; end_unix_ms = pos 8600 }))

generate_run : generate slow_corner ≡ ok (late_event ∷ [])
unfolding generate default_rule_options normalize_rule_options late_throttle_event
    low_exit_speed_event referenced_event base_event corner_event_id severity_for_int64
    confidence_for_severity time_range sanitize_id plain_text trim_left_dashes trim_right_dashes
    lower trim_space decimal first_fault validate_event first_error event_checks validate_ref
    is_bad_ref validate_metrics validate_metric metric_checks validate_source source_checks
    is_bad_range finite supported_type supported_severity raw_telemetry_metric one_of Option.or_else
    or_error wrap64 ◌-ℤ◌ ◌*ℤ◌ ◌+ℤ◌
generate_run = refl

generate_example :
    All (λ e. validate_event e ≡ none) (late_event ∷ [])
    × All (IsAbout slow_corner) (late_event ∷ [])
    × (length (late_event ∷ []) ≤ 2)
generate_example = generate_lem slow_corner (late_event ∷ []) generate_run

abbrev slow_events : List (EngineerEvent Milli)
slow_events = regression_event "s1" default_frame_event_options slow_lap ∷ []

append_run :
    generate_frame_events_for_append "s1" (slow_lap ∷ []) (slow_lap ∷ []) none none ≡ ok slow_events
unfolding generate_frame_events_for_append default_frame_event_options regression_event
    regression_loop regresses regression_threshold previous_lap_regression_events pace_drop_loop
    pace_drop_step by_lap drops_from base_frame_event frame_event_id off_track_stint_events emit_all
    off_track_streaks next_streak append_off_track_tail prefix_before up_to_before off_track_suffix
    lap_time_regression_events severity_for_int64 confidence_for_severity time_range sanitize_id
    plain_text trim_left_dashes trim_right_dashes lower trim_space decimal first_fault
    validate_event first_error event_checks validate_ref is_bad_ref validate_metrics validate_metric
    metric_checks validate_source source_checks is_bad_range finite supported_type
    supported_severity raw_telemetry_metric one_of Option.or_else or_error wrap64 ◌-ℤ◌ ◌*ℤ◌ ◌+ℤ◌
    extract_completed extract_from reports_lap completed_lap lookup insert
append_run = refl

generate_frame_events_for_append_example :
    ((◌==◌ {A = String} "s1" "") ≡ false)
    × All (λ e. validate_event e ≡ none) slow_events
    × All (IsFrom Milli "s1" none none) slow_events
generate_frame_events_for_append_example =
    generate_frame_events_for_append_lem "s1" (slow_lap ∷ []) (slow_lap ∷ []) none none slow_events
      append_run
