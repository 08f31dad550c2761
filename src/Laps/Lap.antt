-- ===== src/Laps/Lap.antt =====
-- internal/laps/lap.go: a completed lap, and the laps that a run of frames completes.
use telemetry_one_backend.Base.{
  String, Bool, false, ◌||◌, Option, none, some, List, [], ◌∷◌, if◌then◌else◌, ◌==◌, string_eq,
  int_eq, ◌&&◌, not, ℤ, pos, leb_ℤ, ltb_ℤ, sub64,
}
use telemetry_one_backend.Base.Text.{◌&◌, decimal}
use telemetry_one_backend.Base.Result.{first_error}
use telemetry_one_backend.Telemetry.Frame.{Frame}

pub data LapError : Type 0 where
  missing_session_id invalid_lap_number invalid_lap_time invalid_best_lap_time : LapError
  invalid_timestamp invalid_sample_count invalid_gap_count : LapError
  missing_lap_id invalid_sample_distance invalid_sample_source : LapError
  invalid_sample_timestamp invalid_sample_bucket : LapError

pub record CompletedLap : Type 0 where
  pub id : String
  pub session_id : String
  pub lap_number : ℤ
  pub lap_time_ms : ℤ
  pub completed_at_unix_ms : ℤ
  pub best_lap_ms : Option ℤ
  pub sample_count : Option ℤ
  pub telemetry_gap_count : ℤ

unfoldable pub new_completed_lap_id : String → ℤ → String
new_completed_lap_id session_id lap_number = "lap_" & session_id & "_" & decimal lap_number

-- `p != nil && test(*p)`
abbrev pub given : Option ℤ → (ℤ → Bool) → Bool
given none test = false
given (some v) test = test v

unfoldable pub lap_checks : CompletedLap → List (Bool × LapError)
lap_checks lap =
    (lap.session_id == "", missing_session_id)
    ∷ (ltb_ℤ lap.lap_number (pos 0), invalid_lap_number)
    ∷ (leb_ℤ lap.lap_time_ms (pos 0), invalid_lap_time)
    ∷ (leb_ℤ lap.completed_at_unix_ms (pos 0), invalid_timestamp)
    ∷ (given lap.best_lap_ms (λ v. ltb_ℤ v (pos 0)), invalid_best_lap_time)
    ∷ (given lap.sample_count (λ v. leb_ℤ v (pos 0)), invalid_sample_count)
    ∷ (ltb_ℤ lap.telemetry_gap_count (pos 0), invalid_gap_count)
    ∷ []

unfoldable pub validate_lap : CompletedLap → Option LapError
unfolding lap_checks
validate_lap lap = first_error (lap_checks lap)

-- `withDefaults`: an identifier where there is none.
unfoldable pub lap_with_defaults : CompletedLap → CompletedLap
lap_with_defaults lap =
    if lap.id == "" && not (lap.session_id == "") && leb_ℤ (pos 0) lap.lap_number
    then record lap { id = new_completed_lap_id lap.session_id lap.lap_number }
    else lap

abbrev pub or_zero : Option ℤ → ℤ
or_zero none = pos 0
or_zero (some v) = v

abbrev pub contains : ℤ → List ℤ → Bool
contains n [] = false
contains n (m ∷ ms) = m == n || contains n ms

module _ {F : Type 0} where
  -- The frame reports the time of the lap before its own.
  unfoldable pub reports_lap : Frame F → Bool
  reports_lap f =
      not (
        leb_ℤ f.lap_number (pos 0)
        || not (given f.last_lap_ms (λ v. ltb_ℤ (pos 0) v))
        || leb_ℤ f.timestamp_unix_ms (pos 0))
      && not (ltb_ℤ (sub64 f.lap_number (pos 1)) (pos 0))

  unfoldable pub completed_lap : String → Frame F → CompletedLap
  completed_lap session_id f = record {
    id = new_completed_lap_id session_id (sub64 f.lap_number (pos 1));
    session_id = session_id;
    lap_number = sub64 f.lap_number (pos 1);
    lap_time_ms = or_zero f.last_lap_ms;
    completed_at_unix_ms = f.timestamp_unix_ms;
    best_lap_ms = f.best_lap_ms;
    sample_count = none;
    telemetry_gap_count = pos 0;
  }

  -- The loop of `ExtractCompleted`; `seen` holds the numbers of the laps found so far.
  unfoldable pub extract_from : String → List ℤ → List (Frame F) → List CompletedLap
  extract_from session_id seen [] = []
  extract_from session_id seen (f ∷ fs) =
      let n = sub64 f.lap_number (pos 1) in
      let found = reports_lap f && not (contains n seen) in
      let rest = extract_from session_id (if found then n ∷ seen else seen) fs in
      if found then completed_lap session_id f ∷ rest else rest

  unfoldable pub extract_completed : String → List (Frame F) → List CompletedLap
  extract_completed session_id frames =
      if session_id == "" then [] else extract_from session_id [] frames
