-- ===== src/Telemetry/Examples.antt =====
-- The theorems on frames at concrete batches, in thousandths.
use telemetry_one_backend.Base.{
  string_eq, ℕ, String, ◌≡◌, refl, ◌↔◌, true, none, some, List, [], ◌∷◌, ◌++◌, arith, pos, negsuc,
  take_last,
}
use text.Mathlib.TextEquality.{eq_iff}
use telemetry_one_backend.Base.Float.{Milli, milli_float}
use telemetry_one_backend.Base.Result.{ok, first_error, or_error}
use telemetry_one_backend.Base.Dict.{lookup, insert}
use telemetry_one_backend.Base.Sort.Laws.{IsSorted}
use telemetry_one_backend.Telemetry.Rejection.{
  RejectionError, reject, invalid_speed, non_monotonic_timestamp,
}
use telemetry_one_backend.Telemetry.Frame.{
  Frame, normalize, checks, is_finite, is_finite_non_negative, is_optional_finite,
  is_optional_finite_non_negative, is_optional_int64_non_negative, is_outside_unit,
}
use telemetry_one_backend.Telemetry.Ranges.{IsNormalized, normalize_iff}
use telemetry_one_backend.Telemetry.Batch.{
  NormalizeResult, IngestBatchRequest, normalize_batch, validate_batch, normalize_frames,
  normalize_frame, batch_checks, validate_batch_consistency, consistency_checks, at_index,
  first_rejection,
}
use telemetry_one_backend.Telemetry.WellFormed.{IsWellFormed}
use telemetry_one_backend.Telemetry.Intake.{
  IsAdmissible, Indexed, survivors, normalize_batch_lem, validate_batch_iff,
}
use telemetry_one_backend.Telemetry.Summary.{build_rejection_summary, reason_less}
use telemetry_one_backend.Telemetry.Summary.Laws.{
  tally, occurrences, DistinctCodes, build_rejection_summary_lem,
}
use telemetry_one_backend.Telemetry.Store.{
  frames_of, append_all, append, incoming, retained, new_frame_store,
}
use telemetry_one_backend.Telemetry.Store.Window.{sent, append_all_lem}

-- A frame at a time and in a lap, with the speed given.
abbrev pub frame : ℕ → ℕ → Milli → Frame Milli
frame time lap speed = record {
  timestamp_unix_ms = pos time;
  speed_mps = speed;
  rpm = some (pos 7000000);
  gear = pos 3;
  throttle = some (pos 500);
  brake = some (pos 0);
  steering = some (negsuc 4);
  fuel_liters = some (pos 40000);
  position_x = some (pos 1000);
  position_y = some (pos 0);
  position_z = some (pos 2000);
  yaw_radians = none;
  yaw_rate = none;
  wheel_speed_fl = none;
  wheel_speed_fr = none;
  wheel_speed_rl = none;
  wheel_speed_rr = none;
  lap_distance_meters = some (some (pos 12000));
  lap_number = pos lap;
  current_lap_ms = pos time;
  last_lap_ms = none;
  best_lap_ms = none;
  is_on_track = true;
}

abbrev pub fast : Milli
fast = some (pos 50000)

abbrev batch : IngestBatchRequest Milli
batch = record {
  session_id = "s1";
  frames = frame 100 1 fast ∷ frame 200 1 none ∷ frame 150 1 fast ∷ frame 50 1 fast ∷ [];
}

abbrev clean_batch : IngestBatchRequest Milli
clean_batch = record { session_id = "s1"; frames = frame 100 1 fast ∷ frame 200 1 fast ∷ [] }

abbrev batch_result : NormalizeResult Milli
batch_result = record {
  frames = frame 100 1 fast ∷ frame 150 1 fast ∷ [];
  rejections =
      at_index 1 (reject "invalid_speed" "frame" "speedMps" none invalid_speed)
      ∷ reject "non_monotonic_timestamp" "consistency" "timestampUnixMs" (some 3)
          non_monotonic_timestamp
      ∷ [];
}

runs : normalize_batch batch ≡ ok batch_result
unfolding normalize_batch normalize_frames normalize_frame normalize checks first_error or_error
    batch_checks validate_batch_consistency consistency_checks is_finite is_finite_non_negative
    is_optional_finite is_optional_finite_non_negative is_optional_int64_non_negative
    is_outside_unit
runs = refl

clean_runs : validate_batch clean_batch ≡ none
unfolding validate_batch first_rejection normalize_batch normalize_frames normalize_frame normalize
    checks first_error or_error batch_checks validate_batch_consistency consistency_checks is_finite
    is_finite_non_negative is_optional_finite is_optional_finite_non_negative
    is_optional_int64_non_negative is_outside_unit
clean_runs = refl

validate_batch_example :
    (validate_batch clean_batch ≡ none)
    ↔ (IsAdmissible clean_batch × IsWellFormed none clean_batch.frames)
validate_batch_example = validate_batch_iff clean_batch

normalize_batch_example :
    IsAdmissible batch
    × IsWellFormed none batch_result.frames
    × Indexed 0 4 batch_result.rejections
    × (batch_result.frames ≡ survivors 0 batch.frames batch_result.rejections)
normalize_batch_example = normalize_batch_lem batch batch_result runs

normalize_example :
    (normalize (frame 100 1 fast) ≡ ok (frame 100 1 fast))
    ↔ ((frame 100 1 fast ≡ frame 100 1 fast) × IsNormalized (frame 100 1 fast))
normalize_example = normalize_iff (frame 100 1 fast) (frame 100 1 fast)

abbrev calls : List (String × List ℕ)
calls = ("a", 1 ∷ 2 ∷ []) ∷ ("b", 7 ∷ []) ∷ ("", 9 ∷ []) ∷ ("a", 3 ∷ 4 ∷ 5 ∷ []) ∷ []

append_all_example :
    frames_of (append_all (new_frame_store (pos 4)) calls) "a"
    ≡ take_last (new_frame_store {A = ℕ} (pos 4)).capacity (sent "a" calls)
append_all_example = append_all_lem (pos 4) calls "a" (ground (arith, eq_iff "a" ""))

append_all_run : frames_of (append_all (new_frame_store (pos 4)) calls) "a" ≡ 2 ∷ 3 ∷ 4 ∷ 5 ∷ []
unfolding frames_of append_all append incoming retained new_frame_store lookup insert
append_all_run = refl

abbrev rejections : List RejectionError
rejections = batch_result.rejections ++ batch_result.rejections

build_rejection_summary_example :
    ((code : String)
      → tally code (build_rejection_summary rejections) ≡ occurrences code rejections)
    × DistinctCodes (build_rejection_summary rejections)
    × IsSorted reason_less (build_rejection_summary rejections)
build_rejection_summary_example = build_rejection_summary_lem rejections
