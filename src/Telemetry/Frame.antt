-- ===== src/Telemetry/Frame.antt =====
-- internal/telemetry/frame.go: a frame and `Frame.Normalize`.
use telemetry_one_backend.Base.{
  Bool, true, ◌&&◌, ◌||◌, not, Option, none, some, List, [], ◌∷◌, string_eq, ℤ, pos, ltb_ℤ, leb_ℤ,
}
use telemetry_one_backend.Base.Float.{Float64}
use telemetry_one_backend.Telemetry.Rejection.{
  RejectionError, reject, invalid_timestamp, invalid_speed, invalid_rpm, invalid_throttle,
  invalid_brake, invalid_steering, invalid_fuel, invalid_position, invalid_yaw, invalid_wheel_speed,
  invalid_lap_distance, invalid_lap_number, invalid_lap_time,
}
use telemetry_one_backend.Base.Result.{Result, ok, err, first_error, or_error}

pub record Frame (F : Type 0) : Type 0 where
  pub timestamp_unix_ms : ℤ
  pub speed_mps : F
  pub rpm : F
  pub gear : ℤ
  pub throttle : F
  pub brake : F
  pub steering : F
  pub fuel_liters : F
  pub position_x : F
  pub position_y : F
  pub position_z : F
  pub yaw_radians : Option F
  pub yaw_rate : Option F
  pub wheel_speed_fl : Option F
  pub wheel_speed_fr : Option F
  pub wheel_speed_rl : Option F
  pub wheel_speed_rr : Option F
  pub lap_distance_meters : Option F
  pub lap_number : ℤ
  pub current_lap_ms : ℤ
  pub last_lap_ms : Option ℤ
  pub best_lap_ms : Option ℤ
  pub is_on_track : Bool

unfoldable pub is_optional_int64_non_negative : Option ℤ → Bool
is_optional_int64_non_negative none = true
is_optional_int64_non_negative (some v) = leb_ℤ (pos 0) v

module _ {F : Type 0} ⦃fl : Float64 F⦄ where
  open fl use {literal, lt, le, is_nan, is_inf}

  unfoldable pub is_finite : F → Bool
  is_finite x = not (is_nan x) && not (is_inf x)

  unfoldable pub is_finite_non_negative : F → Bool
  unfolding is_finite
  is_finite_non_negative x = is_finite x && le (literal 0 0) x

  unfoldable pub is_optional_finite : Option F → Bool
  is_optional_finite none = true
  is_optional_finite (some x) = is_finite x

  unfoldable pub is_optional_finite_non_negative : Option F → Bool
  is_optional_finite_non_negative none = true
  is_optional_finite_non_negative (some x) = is_finite_non_negative x

  -- `!isFinite(x) || x < 0 || x > 1`
  unfoldable pub is_outside_unit : F → Bool
  is_outside_unit x = not (is_finite x) || lt x (literal 0 0) || lt (literal 1 0) x

  -- The tests of `Normalize` in their order, each with what it returns.
  unfoldable pub checks : Frame F → List (Bool × RejectionError)
  checks f =
      (
        (leb_ℤ f.timestamp_unix_ms (pos 0)),
        reject "invalid_timestamp" "frame" "timestampUnixMs" none invalid_timestamp,
      )
      ∷ (
        (not (is_finite_non_negative f.speed_mps)),
        reject "invalid_speed" "frame" "speedMps" none invalid_speed,
      )
      ∷ ((not (is_finite_non_negative f.rpm)), reject "invalid_rpm" "frame" "rpm" none invalid_rpm)
      ∷ (
        (is_outside_unit f.throttle),
        reject "invalid_throttle" "frame" "throttle" none invalid_throttle,
      )
      ∷ ((is_outside_unit f.brake), reject "invalid_brake" "frame" "brake" none invalid_brake)
      ∷ (
        (not (is_finite f.steering)),
        reject "invalid_steering" "frame" "steering" none invalid_steering,
      )
      ∷ (
        (not (is_finite_non_negative f.fuel_liters)),
        reject "invalid_fuel" "frame" "fuelLiters" none invalid_fuel,
      )
      ∷ (
        (not (is_finite f.position_x)
            || not (is_finite f.position_y)
            || not (is_finite f.position_z)),
        reject "invalid_position" "frame" "position" none invalid_position,
      )
      ∷ (
        (not (is_optional_finite f.yaw_radians) || not (is_optional_finite f.yaw_rate)),
        reject "invalid_yaw" "frame" "yaw" none invalid_yaw,
      )
      ∷ (
        (not (is_optional_finite_non_negative f.wheel_speed_fl)
            || not (is_optional_finite_non_negative f.wheel_speed_fr)
            || not (is_optional_finite_non_negative f.wheel_speed_rl)
            || not (is_optional_finite_non_negative f.wheel_speed_rr)),
        reject "invalid_wheel_speed" "frame" "wheelSpeed" none invalid_wheel_speed,
      )
      ∷ (
        (not (is_optional_finite_non_negative f.lap_distance_meters)),
        reject "invalid_lap_distance" "frame" "lapDistanceMeters" none invalid_lap_distance,
      )
      ∷ (
        (ltb_ℤ f.lap_number (pos 0)),
        reject "invalid_lap_number" "frame" "lapNumber" none invalid_lap_number,
      )
      ∷ (
        (ltb_ℤ f.current_lap_ms (pos 0)
            || not (is_optional_int64_non_negative f.last_lap_ms)
            || not (is_optional_int64_non_negative f.best_lap_ms)),
        reject "invalid_lap_time" "frame" "lapTime" none invalid_lap_time,
      )
      ∷ []

  unfoldable pub normalize : Frame F → Result RejectionError (Frame F)
  normalize f = or_error (first_error (checks f)) f

  unfoldable pub validate : Frame F → Option RejectionError
  validate f = elim (normalize f) [ ok _ ↦ none | err e ↦ some e ]
