-- ===== src/Geometry/Continuity.antt =====
-- internal/geometry/lap_continuity.go: what a car's places on the track say about its laps.
pub mod Counting
use telemetry_one_backend.Base.{
  ℕ, Bool, true, false, ◌&&◌, ◌||◌, not, Option, none, some, List, [], ◌∷◌, if◌then◌else◌, ℤ, pos,
  add64,
}
use telemetry_one_backend.Base.Float.{Float64}
use telemetry_one_backend.Base.Result.{Result, ok, err}
use telemetry_one_backend.Geometry.Centerline.{
  GeometryError, invalid_track_length, invalid_projection_distance, Projection, Centerline,
  zero_float, is_finite, normalize_distance, normalized_progress, forward_delta,
}

pub record LapContinuityOptions (F : Type 0) : Type 0 where
  pub jitter_tolerance_meters : F
  pub max_forward_delta_meters : F
  pub max_reverse_delta_meters : F

pub record LapContinuityState (F : Type 0) : Type 0 where
  pub initialized : Bool
  pub closed : Bool
  pub lap_index : ℤ
  pub lap_count : ℤ
  pub distance_meters : F
  pub progress : F
  pub forward_delta_meters : F
  pub reverse_delta_meters : F
  pub total_forward_meters : F
  pub wrapped_start_finish_line : Bool
  pub reversed : Bool
  pub large_jump : Bool
  pub accepted : Bool

pub record LapContinuityTracker (F : Type 0) : Type 0 where
  pub options : LapContinuityOptions F
  pub state : LapContinuityState F

abbrev pub same_bool : Bool → Bool → Bool
same_bool true b = b
same_bool false b = not b

module _ {F : Type 0} ⦃fl : Float64 F⦄ where
  open fl use {literal, add, sub, abs, lt, le}

  unfoldable pub default_lap_continuity_options : LapContinuityOptions F
  default_lap_continuity_options = record {
    jitter_tolerance_meters = literal 1 0;
    max_forward_delta_meters = literal 250 0;
    max_reverse_delta_meters = literal 25 0;
  }

  unfoldable pub normalize_lap_continuity_options : LapContinuityOptions F → LapContinuityOptions F
  normalize_lap_continuity_options o =
      let d = default_lap_continuity_options in
      record {
        jitter_tolerance_meters =
            if lt o.jitter_tolerance_meters zero_float
            then d.jitter_tolerance_meters
            else o.jitter_tolerance_meters;
        max_forward_delta_meters =
            if le o.max_forward_delta_meters zero_float
            then d.max_forward_delta_meters
            else o.max_forward_delta_meters;
        max_reverse_delta_meters =
            if le o.max_reverse_delta_meters zero_float
            then d.max_reverse_delta_meters
            else o.max_reverse_delta_meters;
      }

  -- `LapContinuityState{}`
  unfoldable pub no_state : LapContinuityState F
  no_state = record {
    initialized = false;
    closed = false;
    lap_index = pos 0;
    lap_count = pos 0;
    distance_meters = zero_float;
    progress = zero_float;
    forward_delta_meters = zero_float;
    reverse_delta_meters = zero_float;
    total_forward_meters = zero_float;
    wrapped_start_finish_line = false;
    reversed = false;
    large_jump = false;
    accepted = false;
  }

  unfoldable pub new_lap_continuity_tracker : LapContinuityOptions F → LapContinuityTracker F
  new_lap_continuity_tracker options = record {
    options = normalize_lap_continuity_options options;
    state = no_state;
  }

  unfoldable pub reset : LapContinuityTracker F → LapContinuityTracker F
  reset t = record t { state = no_state }

  unfoldable pub clamp_open_distance : F → F → F
  clamp_open_distance distance total =
      if lt distance zero_float then zero_float else if lt total distance then total else distance

  -- The value of a result, and Go's zero where there is an error.
  abbrev value_or_zero : Result GeometryError F → F
  value_or_zero (ok d) = d
  value_or_zero (err e) = zero_float

  -- The state at the new place, after a move forward or back.
  unfoldable pub moved_forward : LapContinuityState F → F → F → F → Bool → LapContinuityState F
  moved_forward s delta distance progress wrapped = record s {
    forward_delta_meters = delta;
    total_forward_meters = add s.total_forward_meters delta;
    wrapped_start_finish_line = if wrapped then true else s.wrapped_start_finish_line;
    lap_index = if wrapped then add64 s.lap_index (pos 1) else s.lap_index;
    lap_count = if wrapped then add64 s.lap_count (pos 1) else s.lap_count;
    distance_meters = distance;
    progress = progress;
    accepted = true;
  }

  unfoldable pub moved_back : LapContinuityState F → F → F → F → LapContinuityState F
  moved_back s delta distance progress = record s {
    reverse_delta_meters = delta;
    reversed = true;
    distance_meters = distance;
    progress = progress;
    accepted = true;
  }

  unfoldable pub update_closed :
      LapContinuityOptions F → LapContinuityState F → F → F → F → LapContinuityState F
  update_closed o s distance progress total =
      let forward = value_or_zero (forward_delta s.distance_meters distance total) in
      let back = value_or_zero (forward_delta distance s.distance_meters total) in
      if le forward o.jitter_tolerance_meters || le back o.jitter_tolerance_meters
      then record s { accepted = true }
      else if le forward o.max_forward_delta_meters && lt forward back
      then moved_forward s forward distance progress (lt distance s.distance_meters)
      else if le back o.max_reverse_delta_meters
      then moved_back s back distance progress
      else record s { large_jump = true }

  unfoldable pub update_open :
      LapContinuityOptions F → LapContinuityState F → F → F → LapContinuityState F
  update_open o s distance progress =
      let delta = sub distance s.distance_meters in
      if le (abs delta) o.jitter_tolerance_meters
      then record s { accepted = true }
      else if lt zero_float delta && le delta o.max_forward_delta_meters
      then moved_forward s delta distance progress false
      else if lt delta zero_float && le (abs delta) o.max_reverse_delta_meters
      then moved_back s (abs delta) distance progress
      else record s { large_jump = true }

  -- The state that the first place gives, and the first one after `closed` changes.
  unfoldable pub first_state : Bool → F → F → LapContinuityState F
  first_state closed distance progress = record no_state {
    initialized = true;
    closed = closed;
    distance_meters = distance;
    progress = progress;
    accepted = true;
  }

  -- What the last update reported, taken back.
  unfoldable pub cleared : LapContinuityState F → LapContinuityState F
  cleared s = record s {
    forward_delta_meters = zero_float;
    reverse_delta_meters = zero_float;
    wrapped_start_finish_line = false;
    reversed = false;
    large_jump = false;
    accepted = false;
  }

  -- The state after a place that is finite, on a track with a length.
  unfoldable pub next_state :
      LapContinuityOptions F → LapContinuityState F → F → F → Bool → LapContinuityState F
  next_state o s distance_meters total closed =
      let distance =
        if closed
        then normalize_distance distance_meters total
        else clamp_open_distance distance_meters total in
      let progress = normalized_progress distance total closed in
      if not s.initialized || not (same_bool s.closed closed)
      then first_state closed distance progress
      else if closed
      then update_closed o (cleared s) distance progress total
      else update_open o (cleared s) distance progress

  unfoldable pub update :
      LapContinuityTracker F
      → F
      → F
      → Bool
      → LapContinuityTracker F × Result GeometryError (LapContinuityState F)
  update t distance_meters total closed =
      let s = next_state t.options t.state distance_meters total closed in
      if le total zero_float
      then (t, err invalid_track_length)
      else if not (is_finite distance_meters)
      then (t, err invalid_projection_distance)
      else (record t { state = s }, ok s)

  -- `UpdateLapContinuity` with a tracker that is there.
  unfoldable pub update_lap_continuity :
      LapContinuityTracker F
      → Projection F
      → Centerline F
      → LapContinuityTracker F × Result GeometryError (LapContinuityState F)
  update_lap_continuity t projection centerline =
      update t projection.distance_from_start centerline.total_meters centerline.closed
