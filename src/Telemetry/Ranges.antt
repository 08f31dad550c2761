-- ===== src/Telemetry/Ranges.antt =====
-- The ranges that docs/telemetry-normalization.md gives for the fields of a frame, and that
-- `Frame.Normalize` accepts just the frames in range.
use telemetry_one_backend.Base.{
  ◌≡◌, refl, ◌↔◌, true, false, not, Option, none, some, arith, ℤ, pos, ◌≤ℤ◌, ◌<ℤ◌, or-eq-false,
  leb-eq-false, ltb-eq-false,
}
use telemetry_one_backend.Base.Float.{Float64}
use telemetry_one_backend.Base.Result.{
  ok, first_error, or_error, or_error-eq-ok, Passes, Passes-of_first_error, first_error_of_Passes,
}
use telemetry_one_backend.Telemetry.Frame.{
  Frame, checks, normalize, is_finite, is_finite_non_negative, is_optional_finite,
  is_optional_finite_non_negative, is_outside_unit, is_optional_int64_non_negative,
}

abbrev pub Optional {ℓ} : {A : Type ℓ} → (A → Type 0) → Option A → Type 0
Optional P none = Unit
Optional P (some x) = P x

OptionalTime-test :
    (o : Option ℤ) → (not (is_optional_int64_non_negative o) ≡ false) ↔ Optional (λ v. pos 0 ≤ℤ v) o
unfolding is_optional_int64_non_negative
OptionalTime-test none = (λ _. tt, λ _. refl)
OptionalTime-test (some v) = (λ h. ground arith, λ h. ground arith)

module _ {F : Type 0} ⦃fl : Float64 F⦄ where
  open fl use {literal, lt, le, is_nan, is_inf}

  -- The ranges that docs/telemetry-normalization.md gives for each field.
  abbrev pub Finite : F → Type 0
  Finite x = (is_nan x ≡ false) × (is_inf x ≡ false)

  abbrev pub NonNegative : F → Type 0
  NonNegative x = (is_nan x ≡ false) × (is_inf x ≡ false) × (le (literal 0 0) x ≡ true)

  abbrev pub InUnit : F → Type 0
  InUnit x =
      (is_nan x ≡ false)
      × (is_inf x ≡ false)
      × (lt x (literal 0 0) ≡ false)
      × (lt (literal 1 0) x ≡ false)

  pub record IsNormalized (f : Frame F) : Type 0 where
    pub timestamp : pos 0 <ℤ f.timestamp_unix_ms
    pub speed : NonNegative f.speed_mps
    pub rpm : NonNegative f.rpm
    pub throttle : InUnit f.throttle
    pub brake : InUnit f.brake
    pub steering : Finite f.steering
    pub fuel : NonNegative f.fuel_liters
    pub position_x : Finite f.position_x
    pub position_y : Finite f.position_y
    pub position_z : Finite f.position_z
    pub yaw_radians : Optional Finite f.yaw_radians
    pub yaw_rate : Optional Finite f.yaw_rate
    pub wheel_speed_fl : Optional NonNegative f.wheel_speed_fl
    pub wheel_speed_fr : Optional NonNegative f.wheel_speed_fr
    pub wheel_speed_rl : Optional NonNegative f.wheel_speed_rl
    pub wheel_speed_rr : Optional NonNegative f.wheel_speed_rr
    pub lap_distance : Optional NonNegative f.lap_distance_meters
    pub lap_number : pos 0 ≤ℤ f.lap_number
    pub current_lap : pos 0 ≤ℤ f.current_lap_ms
    pub last_lap : Optional (λ v. pos 0 ≤ℤ v) f.last_lap_ms
    pub best_lap : Optional (λ v. pos 0 ≤ℤ v) f.best_lap_ms

  Finite-test : (x : F) → (not (is_finite x) ≡ false) ↔ Finite x
  unfolding is_finite
  Finite-test x = ground arith

  NonNegative-test : (x : F) → (not (is_finite_non_negative x) ≡ false) ↔ NonNegative x
  unfolding is_finite_non_negative
  NonNegative-test x = ground arith

  InUnit-test : (x : F) → (is_outside_unit x ≡ false) ↔ InUnit x
  unfolding is_outside_unit is_finite
  InUnit-test x = ground arith

  OptionalFinite-test : (o : Option F) → (not (is_optional_finite o) ≡ false) ↔ Optional Finite o
  unfolding is_optional_finite
  OptionalFinite-test none = (λ _. tt, λ _. refl)
  OptionalFinite-test (some x) = Finite-test x

  OptionalNonNegative-test :
      (o : Option F) → (not (is_optional_finite_non_negative o) ≡ false) ↔ Optional NonNegative o
  unfolding is_optional_finite_non_negative
  OptionalNonNegative-test none = (λ _. tt, λ _. refl)
  OptionalNonNegative-test (some x) = NonNegative-test x

  IsNormalized-of_Passes : (f : Frame F) → Passes (checks f) → IsNormalized f
  unfolding checks
  IsNormalized-of_Passes f
        (
          time,
          (
            speed,
            (
              rpm,
              (
                throttle,
                (
                  brake,
                  (steering, (fuel, (position, (yaw, (wheels, (distance, (number, (lap, _)))))))),
                ),
              ),
            ),
          ),
        ) =
      let (pxy, pz) = (or-eq-false _ _).0 position in
      let (px, py) = (or-eq-false _ _).0 pxy in
      let (yr, yv) = (or-eq-false _ _).0 yaw in
      let (w123, w4) = (or-eq-false _ _).0 wheels in
      let (w12, w3) = (or-eq-false _ _).0 w123 in
      let (w1, w2) = (or-eq-false _ _).0 w12 in
      let (times, best) = (or-eq-false _ _).0 lap in
      let (current, last) = (or-eq-false _ _).0 times in
      record {
        timestamp = (leb-eq-false f.timestamp_unix_ms (pos 0)).0 time;
        speed = (NonNegative-test _).0 speed;
        rpm = (NonNegative-test _).0 rpm;
        throttle = (InUnit-test _).0 throttle;
        brake = (InUnit-test _).0 brake;
        steering = (Finite-test _).0 steering;
        fuel = (NonNegative-test _).0 fuel;
        position_x = (Finite-test _).0 px;
        position_y = (Finite-test _).0 py;
        position_z = (Finite-test _).0 pz;
        yaw_radians = (OptionalFinite-test _).0 yr;
        yaw_rate = (OptionalFinite-test _).0 yv;
        wheel_speed_fl = (OptionalNonNegative-test _).0 w1;
        wheel_speed_fr = (OptionalNonNegative-test _).0 w2;
        wheel_speed_rl = (OptionalNonNegative-test _).0 w3;
        wheel_speed_rr = (OptionalNonNegative-test _).0 w4;
        lap_distance = (OptionalNonNegative-test _).0 distance;
        lap_number = (ltb-eq-false f.lap_number (pos 0)).0 number;
        current_lap = (ltb-eq-false f.current_lap_ms (pos 0)).0 current;
        last_lap = (OptionalTime-test _).0 last;
        best_lap = (OptionalTime-test _).0 best;
      }

  Passes-of_IsNormalized : (f : Frame F) → IsNormalized f → Passes (checks f)
  unfolding checks
  Passes-of_IsNormalized f v = (
    (leb-eq-false f.timestamp_unix_ms (pos 0)).1 v.timestamp,
    (
      (NonNegative-test _).1 v.speed,
      (
        (NonNegative-test _).1 v.rpm,
        (
          (InUnit-test _).1 v.throttle,
          (
            (InUnit-test _).1 v.brake,
            (
              (Finite-test _).1 v.steering,
              (
                (NonNegative-test _).1 v.fuel,
                (
                  (or-eq-false _ _).1 (
                    (or-eq-false _ _).1
                        ((Finite-test _).1 v.position_x, (Finite-test _).1 v.position_y),
                    (Finite-test _).1 v.position_z,
                  ),
                  (
                    (or-eq-false _ _).1 (
                      (OptionalFinite-test _).1 v.yaw_radians,
                      (OptionalFinite-test _).1 v.yaw_rate,
                    ),
                    (
                      (or-eq-false _ _).1 (
                        (or-eq-false _ _).1 (
                          (or-eq-false _ _).1 (
                            (OptionalNonNegative-test _).1 v.wheel_speed_fl,
                            (OptionalNonNegative-test _).1 v.wheel_speed_fr,
                          ),
                          (OptionalNonNegative-test _).1 v.wheel_speed_rl,
                        ),
                        (OptionalNonNegative-test _).1 v.wheel_speed_rr,
                      ),
                      (
                        (OptionalNonNegative-test _).1 v.lap_distance,
                        (
                          (ltb-eq-false f.lap_number (pos 0)).1 v.lap_number,
                          (
                            (or-eq-false _ _).1 (
                              (or-eq-false _ _).1 (
                                (ltb-eq-false f.current_lap_ms (pos 0)).1 v.current_lap,
                                (OptionalTime-test _).1 v.last_lap,
                              ),
                              (OptionalTime-test _).1 v.best_lap,
                            ),
                            tt,
                          ),
                        ),
                      ),
                    ),
                  ),
                ),
              ),
            ),
          ),
        ),
      ),
    ),
  )

  -- `Normalize` returns a frame just if it is in range, and returns it as it was.
  pub normalize_iff : (f g : Frame F) → (normalize f ≡ ok g) ↔ ((g ≡ f) × IsNormalized f)
  unfolding normalize or_error
  normalize_iff f g = (
    λ h.
        let (passed, same) = or_error-eq-ok (first_error (checks f)) h in
        (same, IsNormalized-of_Passes f (Passes-of_first_error (checks f) passed)),
    λ (same, v). rw (same, first_error_of_Passes (checks f) (Passes-of_IsNormalized f v)),
  )
