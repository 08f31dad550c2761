-- ===== src/Events/Regression.antt =====
-- internal/events/producer.go: the events on laps that are slower than the best or the previous one,
-- and the events of the ingest of a batch.
pub mod Once
use telemetry_one_backend.Base.{
  ℕ, ◌+◌, ◌-◌, String, Bool, true, false, ◌&&◌, ◌||◌, not, Option, none, some, List, [], ◌∷◌, ◌++◌,
  if◌then◌else◌, ◌==◌, string_eq, int_eq, ℤ, pos, leb_ℤ, ltb_ℤ, sub64, mul64,
}
use telemetry_one_backend.Base.Float.{Float64}
use telemetry_one_backend.Base.Dict.{Dict, lookup, insert}
use telemetry_one_backend.Base.Text.{◌&◌, decimal}
use telemetry_one_backend.Base.Result.{Result, ok, err, or_error}
use telemetry_one_backend.Telemetry.Frame.{Frame}
use telemetry_one_backend.Laps.Lap.{CompletedLap, contains, given, or_zero, extract_completed}
use telemetry_one_backend.Events.Event.{
  EngineerEvent, CatalogRef, MetricEvidence, TimeRange, EventError, missing_session_id,
  validate_event, validate_metric,
}
use telemetry_one_backend.Events.Identity.{severity_for_int64, time_range, sanitize_id}
use telemetry_one_backend.Events.Producer.{
  FrameEventOptions, default_frame_event_options, base_frame_event, metric, off_track_stint_events,
  append_off_track_tail,
}

-- `p != nil && *p > 0`
abbrev pub is_positive : Option ℤ → Bool
is_positive o = given o (λ v. ltb_ℤ (pos 0) v)

-- `completionByLap`
unfoldable pub by_lap : List CompletedLap → Dict ℤ CompletedLap → Dict ℤ CompletedLap
by_lap [] m = m
by_lap (lap ∷ laps) m = by_lap laps (insert lap.lap_number lap m)

module _ {F : Type 0} ⦃fl : Float64 F⦄ where
  open fl use {of_int, to_int, mul, ceil}

  -- The larger of a time and a part of another, rounded up.
  unfoldable pub regression_threshold : ℤ → F → ℤ → ℤ
  regression_threshold min_delta part time =
      let ratio = to_int (ceil (mul (of_int time) part)) in
      if ltb_ℤ min_delta ratio then ratio else min_delta

module _ (F : Type 0) ⦃fl : Float64 F⦄ where
  abbrev pub pace_threshold : CompletedLap → ℤ
  pace_threshold previous = regression_threshold (pos 1500) (fl.literal 3 2) previous.lap_time_ms

  -- The lap was slower than the one before it by the threshold or more.
  unfoldable pub drops_from : CompletedLap → CompletedLap → Bool
  drops_from previous lap =
      ltb_ℤ (pos 0) previous.lap_time_ms
      && not (ltb_ℤ (sub64 lap.lap_time_ms previous.lap_time_ms) (pace_threshold previous))

module _ {F : Type 0} ⦃fl : Float64 F⦄ where
  open fl use {of_int}

  abbrev pub own_threshold : FrameEventOptions F → Frame F → ℤ
  own_threshold options f =
      regression_threshold options.lap_regression_min_delta_ms options.lap_regression_delta_pct
        (or_zero f.best_lap_ms)

  abbrev pub own_delta : Frame F → ℤ
  own_delta f = sub64 (or_zero f.last_lap_ms) (or_zero f.best_lap_ms)

  -- The frame reports a lap that is slower than the best one by the threshold or more.
  unfoldable pub regresses : FrameEventOptions F → Frame F → Bool
  regresses options f =
      ltb_ℤ (pos 0) f.lap_number
      && is_positive f.last_lap_ms
      && is_positive f.best_lap_ms
      && not (ltb_ℤ (sub64 f.lap_number (pos 1)) (pos 0))
      && not (ltb_ℤ (own_delta f) (own_threshold options f))

  unfoldable pub regression_event : String → FrameEventOptions F → Frame F → EngineerEvent F
  regression_event session_id options f =
      let threshold = own_threshold options f in
      base_frame_event session_id (sub64 f.lap_number (pos 1)) f.timestamp_unix_ms
        "lap_time_regression"
        (severity_for_int64 (own_delta f) (mul64 threshold (pos 2)) (mul64 threshold (pos 3)))
        "lap_time_regression.v1"
        (metric "lastLapMs" (of_int (or_zero f.last_lap_ms)) "ms" "actual"
          ∷ metric "bestLapMs" (of_int (or_zero f.best_lap_ms)) "ms" "reference"
          ∷ metric "lapRegressionDeltaMs" (of_int (own_delta f)) "ms" "delta"
          ∷ metric "lapRegressionThresholdMs" (of_int threshold) "ms" "threshold"
          ∷ [])
        (time_range f.timestamp_unix_ms f.timestamp_unix_ms) options.track options.layout

  -- The loop; `seen` holds the laps that have their event.
  unfoldable pub regression_loop :
      String → FrameEventOptions F → List ℤ → List (Frame F) → List (EngineerEvent F)
  regression_loop session_id options seen [] = []
  regression_loop session_id options seen (f ∷ fs) =
      let n = sub64 f.lap_number (pos 1) in
      let found = regresses options f && not (contains n seen) in
      let rest = regression_loop session_id options (if found then n ∷ seen else seen) fs in
      if found then regression_event session_id options f ∷ rest else rest

  unfoldable pub lap_time_regression_events :
      String → List (Frame F) → FrameEventOptions F → List (EngineerEvent F)
  lap_time_regression_events session_id frames options =
      regression_loop session_id options [] frames

  unfoldable pub pace_drop_event :
      String → Option CatalogRef → Option CatalogRef → CompletedLap → CompletedLap → EngineerEvent F
  pace_drop_event session_id track layout previous lap =
      let threshold = pace_threshold F previous in
      let delta = sub64 lap.lap_time_ms previous.lap_time_ms in
      record (base_frame_event session_id lap.lap_number lap.completed_at_unix_ms
        "lap_time_regression"
        (severity_for_int64 delta (mul64 threshold (pos 2)) (mul64 threshold (pos 3)))
        "lap_time_regression.previous_lap.v1"
        (metric "completedLapMs" (of_int lap.lap_time_ms) "ms" "actual"
          ∷ metric "previousCompletedLapMs" (of_int previous.lap_time_ms) "ms" "reference"
          ∷ metric "lapPaceDropDeltaMs" (of_int delta) "ms" "delta"
          ∷ metric "lapPaceDropThresholdMs" (of_int threshold) "ms" "threshold"
          ∷ [])
        none track layout) {
          event_id = sanitize_id (
              session_id
              & "-lap-"
              & decimal lap.lap_number
              & "-"
              & "lap_time_regression"
              & "-"
              & "lap_time_regression.previous_lap.v1");
        }

  -- One lap of the loop, with the lap before it where that is known.
  unfoldable pub pace_drop_step :
      String
      → Option CatalogRef
      → Option CatalogRef
      → CompletedLap
      → Option CompletedLap
      → List (EngineerEvent F)
      → List (EngineerEvent F)
  pace_drop_step session_id track layout lap none rest = rest
  pace_drop_step session_id track layout lap (some previous) rest =
      if drops_from F previous lap
      then pace_drop_event session_id track layout previous lap ∷ rest
      else rest

  unfoldable pub pace_drop_loop :
      String
      → Option CatalogRef
      → Option CatalogRef
      → Dict ℤ CompletedLap
      → List CompletedLap
      → List (EngineerEvent F)
  pace_drop_loop session_id track layout known [] = []
  pace_drop_loop session_id track layout known (lap ∷ laps) =
      pace_drop_step session_id track layout lap (lookup (sub64 lap.lap_number (pos 1)) known)
        (pace_drop_loop session_id track layout known laps)

  unfoldable pub previous_lap_regression_events :
      String
      → List (Frame F)
      → List (Frame F)
      → Option CatalogRef
      → Option CatalogRef
      → List (EngineerEvent F)
  previous_lap_regression_events session_id accumulated appended track layout =
      pace_drop_loop session_id track layout (by_lap (extract_completed "events" accumulated) [])
        (extract_completed "events" appended)

  unfoldable pub first_fault : List (EngineerEvent F) → Option EventError
  first_fault [] = none
  first_fault (e ∷ es) = elim (validate_event e) [ some fault ↦ some fault | none ↦ first_fault es ]

  -- `GenerateFrameEventsForAppendWithRefs`
  unfoldable pub generate_frame_events_for_append :
      String
      → List (Frame F)
      → List (Frame F)
      → Option CatalogRef
      → Option CatalogRef
      → Result EventError (List (EngineerEvent F))
  generate_frame_events_for_append session_id accumulated appended track layout =
      let options = record default_frame_event_options { track = track; layout = layout } in
      let events =
        lap_time_regression_events session_id appended options
        ++ previous_lap_regression_events session_id accumulated appended track layout
        ++ off_track_stint_events session_id (append_off_track_tail accumulated appended) options in
      if session_id == "" then err missing_session_id else or_error (first_fault events) events
