-- ===== src/Events/Producer.antt =====
-- internal/events/producer.go: the events that a run of frames gives.
pub mod LastStreak
pub mod OffTrack
use telemetry_one_backend.Base.{
  ℕ, zero, suc, ◌+◌, ◌-◌, String, Bool, true, false, ◌&&◌, ◌||◌, not, Option, none, some, List, [],
  ◌∷◌, ◌++◌, if◌then◌else◌, ◌==◌, string_eq, int_eq, ℤ, pos, leb_ℤ, ltb_ℤ, sub64, add64, mul64,
  length, nat_eq,
}
use telemetry_one_backend.Base.Float.{Float64}
use telemetry_one_backend.Base.Dict.{Dict, lookup, insert}
use telemetry_one_backend.Base.Text.{◌&◌, decimal}
use telemetry_one_backend.Base.Result.{Result, ok, err, or_error}
use telemetry_one_backend.Telemetry.Frame.{Frame}
use telemetry_one_backend.Laps.Lap.{CompletedLap, contains, given, or_zero, extract_completed}
use telemetry_one_backend.Events.Event.{
  EngineerEvent, CatalogRef, MetricEvidence, TimeRange, EventError, missing_session_id,
  validate_event, contract_version_v1,
}
use telemetry_one_backend.Events.Identity.{
  severity_for_int64, confidence_for_severity, time_range, sanitize_id,
}

pub record FrameEventOptions (F : Type 0) : Type 0 where
  pub lap_regression_min_delta_ms : ℤ
  pub lap_regression_delta_pct : F
  pub off_track_min_duration_ms : ℤ
  pub off_track_low_duration_ms : ℤ
  pub off_track_medium_duration_ms : ℤ
  pub off_track_high_duration_ms : ℤ
  pub track : Option CatalogRef
  pub layout : Option CatalogRef

unfoldable pub frame_event_id : String → ℤ → String → Option TimeRange → String
frame_event_id session_id lap_number event_type none =
    sanitize_id (session_id & "-lap-" & decimal lap_number & "-" & event_type)
frame_event_id session_id lap_number event_type (some r) = sanitize_id (
    session_id
    & "-lap-"
    & decimal lap_number
    & "-"
    & event_type
    & "-"
    & decimal r.start_unix_ms
    & "-"
    & decimal r.end_unix_ms)

-- The frames without a break off the track: the first, the last, and how many.
pub record Streak (F : Type 0) : Type 0 where
  pub start : Frame F
  pub end : Frame F
  pub count : ℕ

module _ {F : Type 0} where
  -- The streak that is not over after one more frame.
  unfoldable pub next_streak : Option (Streak F) → Frame F → Option (Streak F)
  next_streak none f =
      if f.is_on_track then none else some (record { start = f; end = f; count = 1 })
  next_streak (some s) f =
      if f.is_on_track then none else some (record s { end = f; count = s.count + 1 })

  -- The loop over the frames: a streak is over at a frame on the track, or at the end.
  unfoldable pub off_track_streaks : Option (Streak F) → List (Frame F) → List (Streak F)
  off_track_streaks none [] = []
  off_track_streaks (some s) [] = s ∷ []
  off_track_streaks none (f ∷ fs) = off_track_streaks (next_streak none f) fs
  off_track_streaks (some s) (f ∷ fs) =
      let rest = off_track_streaks (next_streak (some s) f) fs in
      if f.is_on_track then s ∷ rest else rest

  -- There is no frame, or the last one is on the track.
  abbrev pub ends_on_track : List (Frame F) → Bool
  ends_on_track [] = true
  ends_on_track (f ∷ []) = f.is_on_track
  ends_on_track (f ∷ g ∷ fs) = ends_on_track (g ∷ fs)

  abbrev is_nil : List (Frame F) → Bool
  is_nil [] = true
  is_nil (f ∷ fs) = false

  -- The frames up to the last one before the time.
  unfoldable pub up_to_before : ℤ → List (Frame F) → List (Frame F)
  up_to_before time [] = []
  up_to_before time (f ∷ fs) =
      let rest = up_to_before time fs in
      if is_nil rest && not (ltb_ℤ f.timestamp_unix_ms time) then [] else f ∷ rest

  -- `prefix`: all that is accumulated where no frame is before the first one appended.
  unfoldable pub prefix_before : List (Frame F) → List (Frame F) → List (Frame F)
  prefix_before accumulated [] = accumulated
  prefix_before accumulated (a ∷ appended) =
      let kept = up_to_before a.timestamp_unix_ms accumulated in
      if is_nil kept then accumulated else kept

  -- The frames after the last one on the track.
  unfoldable pub off_track_suffix : List (Frame F) → List (Frame F)
  off_track_suffix [] = []
  off_track_suffix (f ∷ fs) =
      let rest = off_track_suffix fs in
      if length rest == length fs && not f.is_on_track then f ∷ rest else rest

  unfoldable pub append_off_track_tail : List (Frame F) → List (Frame F) → List (Frame F)
  append_off_track_tail accumulated appended =
      let prefix = prefix_before accumulated appended in
      if ends_on_track accumulated || ends_on_track prefix
      then appended
      else off_track_suffix prefix ++ appended

  unfoldable pub streak_duration : Streak F → ℤ
  streak_duration s = sub64 s.end.timestamp_unix_ms s.start.timestamp_unix_ms

module _ {F : Type 0} ⦃fl : Float64 F⦄ where
  open fl use {literal, of_int, to_int, mul, ceil, le, is_nan, is_inf}

  unfoldable pub default_frame_event_options : FrameEventOptions F
  default_frame_event_options = record {
    lap_regression_min_delta_ms = pos 1500;
    lap_regression_delta_pct = literal 3 2;
    off_track_min_duration_ms = pos 500;
    off_track_low_duration_ms = pos 500;
    off_track_medium_duration_ms = pos 1500;
    off_track_high_duration_ms = pos 3000;
    track = none;
    layout = none;
  }

  abbrev pub metric : String → F → String → String → MetricEvidence F
  metric name value unit role = record {
    name = name;
    value = value;
    unit = unit;
    status = "available";
    reason = "";
    role = role;
  }

  unfoldable pub base_frame_event :
      String
      → ℤ
      → ℤ
      → String
      → String
      → String
      → List (MetricEvidence F)
      → Option TimeRange
      → Option CatalogRef
      → Option CatalogRef
      → EngineerEvent F
  base_frame_event session_id lap_number time event_type severity rule_id metrics range track
        layout =
      record {
        event_id = frame_event_id session_id lap_number event_type range;
        session_id = session_id;
        version = contract_version_v1;
        event_type = event_type;
        severity = severity;
        confidence = confidence_for_severity severity;
        timestamp_unix_ms = time;
        time_range = range;
        lap_number = lap_number;
        track = track;
        layout = layout;
        corner = none;
        metrics = metrics;
        source = record { kind = "deterministic_rule"; rule_id = rule_id; rule_version = "v1" };
      }

  -- The event of a streak that is long enough.
  unfoldable pub streak_event : String → FrameEventOptions F → Streak F → EngineerEvent F
  streak_event session_id options s =
      let duration = streak_duration s in
      let lap = if ltb_ℤ s.start.lap_number (pos 0) then pos 0 else s.start.lap_number in
      base_frame_event session_id lap s.end.timestamp_unix_ms "off_track_stint"
        (severity_for_int64 duration options.off_track_medium_duration_ms
          options.off_track_high_duration_ms)
        "off_track_stint.v1"
        (metric "offTrackDurationMs" (of_int duration) "ms" "actual"
          ∷ metric "offTrackFrameCount" (of_int (pos s.count)) "frames" "actual"
          ∷ metric "offTrackThresholdMs" (of_int options.off_track_min_duration_ms) "ms" "threshold"
          ∷ [])
        (time_range s.start.timestamp_unix_ms s.end.timestamp_unix_ms) options.track options.layout

  -- What `emit` appends for the streaks.
  unfoldable pub emit_all : String → FrameEventOptions F → List (Streak F) → List (EngineerEvent F)
  emit_all session_id options [] = []
  emit_all session_id options (s ∷ ss) =
      let rest = emit_all session_id options ss in
      if ltb_ℤ (streak_duration s) options.off_track_min_duration_ms
      then rest
      else streak_event session_id options s ∷ rest

  unfoldable pub off_track_stint_events :
      String → List (Frame F) → FrameEventOptions F → List (EngineerEvent F)
  off_track_stint_events session_id frames options =
      emit_all session_id options (off_track_streaks none frames)
