-- ===== src/Laps/Sample.antt =====
-- internal/laps/sample.go: a sample of a lap at a distance, and its checks.
use telemetry_one_backend.Base.{
  ℕ, suc, ◌%◌, String, Bool, ◌&&◌, not, Option, List, [], ◌∷◌, if◌then◌else◌, ◌==◌, string_eq,
  nat_eq, ℤ, pos, negsuc, leb_ℤ, ltb_ℤ,
}
use telemetry_one_backend.Base.Text.{◌&◌, decimal}
use telemetry_one_backend.Base.Result.{first_error}
use telemetry_one_backend.Laps.Lap.{
  LapError, missing_lap_id, invalid_sample_distance, invalid_sample_bucket, invalid_sample_source,
  invalid_sample_timestamp, given,
}

abbrev pub default_sample_step_meters : ℕ
default_sample_step_meters = 5

pub record LapSample (F : Type 0) : Type 0 where
  pub id : String
  pub lap_id : String
  pub distance_meters : ℤ
  pub source : String
  pub timestamp_unix_ms : Option ℤ
  pub speed_mps : Option F
  pub rpm : Option F
  pub gear : Option ℤ
  pub throttle : Option F
  pub brake : Option F
  pub steering : Option F
  pub fuel_liters : Option F
  pub yaw_radians : Option F
  pub yaw_rate : Option F
  pub wheel_speed_fl : Option F
  pub wheel_speed_fr : Option F
  pub wheel_speed_rl : Option F
  pub wheel_speed_rr : Option F

unfoldable pub new_lap_sample_id : String → ℤ → String
new_lap_sample_id lap_id distance_meters = "lap_sample_" & lap_id & "_" & decimal distance_meters

-- `d % 5 != 0`: Go's remainder is 0 for just the multiples, whatever their sign.
abbrev pub is_off_step : ℤ → Bool
is_off_step (pos n) = not (n % default_sample_step_meters == 0)
is_off_step (negsuc n) = not (suc n % default_sample_step_meters == 0)

module _ {F : Type 0} where
  unfoldable pub sample_checks : LapSample F → List (Bool × LapError)
  sample_checks s =
      (s.lap_id == "", missing_lap_id)
      ∷ (ltb_ℤ s.distance_meters (pos 0), invalid_sample_distance)
      ∷ (is_off_step s.distance_meters, invalid_sample_bucket)
      ∷ (s.source == "", invalid_sample_source)
      ∷ (given s.timestamp_unix_ms (λ v. leb_ℤ v (pos 0)), invalid_sample_timestamp)
      ∷ []

  unfoldable pub validate_sample : LapSample F → Option LapError
  unfolding sample_checks
  validate_sample s = first_error (sample_checks s)

  unfoldable pub sample_with_defaults : LapSample F → LapSample F
  sample_with_defaults s =
      if s.id == "" && not (s.lap_id == "") && leb_ℤ (pos 0) s.distance_meters
      then record s { id = new_lap_sample_id s.lap_id s.distance_meters }
      else s
