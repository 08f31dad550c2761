-- ===== src/Laps/Sampling.antt =====
-- internal/laps/sample.go: the sample at a distance, from the two frames around it.
pub mod Bracket
use mathlib.Core.Option
use telemetry_one_backend.Base.{
  String, Bool, ◌&&◌, Option, none, some, List, [], ◌∷◌, if◌then◌else◌, ℤ,
}
use telemetry_one_backend.Base.Float.{Float64}
use telemetry_one_backend.Telemetry.Frame.{Frame}
use telemetry_one_backend.Laps.Sample.{LapSample, sample_with_defaults}

module _ {F : Type 0} ⦃fl : Float64 F⦄ where
  open fl use {literal, of_int, to_int, add, sub, mul, div, round, lt, le, eq}

  -- `*frame.LapDistanceMeters`, which the caller has tested not to be nil.
  abbrev pub meters : Frame F → F
  meters f = Option.get_or f.lap_distance_meters (literal 0 0)

  unfoldable pub interpolate_float64 : F → F → F → F
  interpolate_float64 left right ratio = add left (mul (sub right left) ratio)

  -- Between two values that are both there.
  unfoldable pub between_optional : Option F → Option F → F → Option F
  between_optional (some left) (some right) ratio = some (interpolate_float64 left right ratio)
  between_optional _ _ ratio = none

  unfoldable pub interpolate_optional_float64 : Option F → Option F → F → Option F
  interpolate_optional_float64 left right ratio =
      if le ratio (literal 0 0)
      then left
      else if le (literal 1 0) ratio
      then right
      else between_optional left right ratio

  unfoldable pub interpolate_int64 : ℤ → ℤ → F → ℤ
  interpolate_int64 left right ratio =
      to_int (round (add (of_int left) (mul (sub (of_int right) (of_int left)) ratio)))

  unfoldable pub nearest_gear : ℤ → ℤ → F → ℤ
  nearest_gear left right ratio = if lt ratio (literal 5 1) then left else right

  unfoldable pub interpolation_ratio : F → Frame F → Frame F → F
  interpolation_ratio distance left right =
      if eq (meters right) (meters left)
      then literal 0 0
      else div (sub distance (meters left)) (sub (meters right) (meters left))

  unfoldable pub interpolate_sample : String → ℤ → Frame F → Frame F → LapSample F
  interpolate_sample lap_id distance_meters left right =
      let ratio = interpolation_ratio (of_int distance_meters) left right in
      sample_with_defaults (record {
        id = "";
        lap_id = lap_id;
        distance_meters = distance_meters;
        source = "explicit_lap_distance";
        timestamp_unix_ms =
            some (interpolate_int64 left.timestamp_unix_ms right.timestamp_unix_ms ratio);
        speed_mps = some (interpolate_float64 left.speed_mps right.speed_mps ratio);
        rpm = some (interpolate_float64 left.rpm right.rpm ratio);
        gear = some (nearest_gear left.gear right.gear ratio);
        throttle = some (interpolate_float64 left.throttle right.throttle ratio);
        brake = some (interpolate_float64 left.brake right.brake ratio);
        steering = some (interpolate_float64 left.steering right.steering ratio);
        fuel_liters = some (interpolate_float64 left.fuel_liters right.fuel_liters ratio);
        yaw_radians = interpolate_optional_float64 left.yaw_radians right.yaw_radians ratio;
        yaw_rate = interpolate_optional_float64 left.yaw_rate right.yaw_rate ratio;
        wheel_speed_fl =
            interpolate_optional_float64 left.wheel_speed_fl right.wheel_speed_fl ratio;
        wheel_speed_fr =
            interpolate_optional_float64 left.wheel_speed_fr right.wheel_speed_fr ratio;
        wheel_speed_rl =
            interpolate_optional_float64 left.wheel_speed_rl right.wheel_speed_rl ratio;
        wheel_speed_rr =
            interpolate_optional_float64 left.wheel_speed_rr right.wheel_speed_rr ratio;
      })

  -- Of a run of frames at one distance, the last; `last` is the one at the end of `collapsed`.
  unfoldable pub collapse_from : Frame F → List (Frame F) → List (Frame F)
  collapse_from last [] = last ∷ []
  collapse_from last (f ∷ fs) =
      let rest = collapse_from f fs in if eq (meters f) (meters last) then rest else last ∷ rest

  unfoldable pub collapse_duplicate_distance_frames : List (Frame F) → List (Frame F)
  collapse_duplicate_distance_frames [] = []
  collapse_duplicate_distance_frames (f ∷ fs) = collapse_from f fs

  -- No frames: the caller has at least two.
  unfoldable pub bracket_frames : List (Frame F) → F → Option (Frame F × Frame F)
  bracket_frames [] distance = none
  bracket_frames (last ∷ []) distance =
      if eq distance (meters last) then some (last, last) else none
  bracket_frames (left ∷ right ∷ fs) distance =
      let rest = bracket_frames (right ∷ fs) distance in
      if eq distance (meters left)
      then some (left, left)
      else if le (meters left) distance
          && le distance (meters right)
          && lt (meters left) (meters right)
      then some (left, right)
      else rest
