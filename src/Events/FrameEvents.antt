-- ===== src/Events/FrameEvents.antt =====
-- internal/events/producer.go: the events of a run of frames, with options that a caller sets.
pub mod Generated
use telemetry_one_backend.Base.{
  String, Option, none, List, ◌++◌, if◌then◌else◌, ◌==◌, string_eq, pos,
}
use telemetry_one_backend.Base.Float.{Float64}
use telemetry_one_backend.Base.Result.{Result, err, or_error}
use telemetry_one_backend.Telemetry.Frame.{Frame}
use telemetry_one_backend.Events.Event.{EngineerEvent, EventError, missing_session_id}
use telemetry_one_backend.Events.Producer.{
  FrameEventOptions, default_frame_event_options, off_track_stint_events,
}
use telemetry_one_backend.Events.Regression.{
  lap_time_regression_events, generate_frame_events_for_append, first_fault,
}
use telemetry_one_backend.Events.Rules.{replace_ms, replace_kph}

module _ {F : Type 0} ⦃fl : Float64 F⦄ where
  unfoldable pub normalize_frame_event_options : FrameEventOptions F → FrameEventOptions F
  normalize_frame_event_options o =
      let d = default_frame_event_options in
      let low = replace_ms (pos 0) o.off_track_low_duration_ms d.off_track_low_duration_ms in
      let medium = replace_ms low o.off_track_medium_duration_ms d.off_track_medium_duration_ms in
      record {
        lap_regression_min_delta_ms =
            replace_ms (pos 0) o.lap_regression_min_delta_ms d.lap_regression_min_delta_ms;
        lap_regression_delta_pct =
            replace_kph (fl.literal 0 0) o.lap_regression_delta_pct d.lap_regression_delta_pct;
        off_track_min_duration_ms =
            replace_ms (pos 0) o.off_track_min_duration_ms d.off_track_min_duration_ms;
        off_track_low_duration_ms = low;
        off_track_medium_duration_ms = medium;
        off_track_high_duration_ms =
            replace_ms medium o.off_track_high_duration_ms d.off_track_high_duration_ms;
        track = o.track;
        layout = o.layout;
      }

  unfoldable pub generate_frame_events_with_options :
      String → List (Frame F) → FrameEventOptions F → Result EventError (List (EngineerEvent F))
  generate_frame_events_with_options session_id frames given =
      let options = normalize_frame_event_options given in
      let events =
        lap_time_regression_events session_id frames options
        ++ off_track_stint_events session_id frames options in
      if session_id == "" then err missing_session_id else or_error (first_fault events) events

  unfoldable pub generate_frame_events :
      String → List (Frame F) → Result EventError (List (EngineerEvent F))
  generate_frame_events session_id frames =
      generate_frame_events_with_options session_id frames default_frame_event_options

  -- `GenerateFrameEventsForAppend`
  unfoldable pub generate_for_append_without_refs :
      String → List (Frame F) → List (Frame F) → Result EventError (List (EngineerEvent F))
  generate_for_append_without_refs session_id accumulated appended =
      generate_frame_events_for_append session_id accumulated appended none none
