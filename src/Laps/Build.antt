-- ===== src/Laps/Build.antt =====
-- internal/laps/sample.go: the samples of a lap, one every few meters.
pub mod Series
use telemetry_one_backend.Base.{
  ℕ, zero, suc, String, Bool, true, false, ◌&&◌, ◌||◌, not, Option, none, some, List, [], ◌∷◌,
  if◌then◌else◌, ◌==◌, string_eq, int_eq, ℤ, pos, leb_ℤ, ltb_ℤ, add64,
}
use telemetry_one_backend.Base.Float.{Float64}
use telemetry_one_backend.Base.Sort.{sort_by}
use telemetry_one_backend.Telemetry.Frame.{Frame}
use telemetry_one_backend.Laps.Lap.{CompletedLap}
use telemetry_one_backend.Laps.Sample.{LapSample}
use telemetry_one_backend.Laps.Sampling.{
  meters, collapse_duplicate_distance_frames, bracket_frames, interpolate_sample,
}

module _ {F : Type 0} ⦃fl : Float64 F⦄ where
  open fl use {literal, of_int, lt, le, is_nan, is_inf}

  unfoldable pub frames_in_lap : ℤ → List (Frame F) → List (Frame F)
  frames_in_lap lap [] = []
  frames_in_lap lap (f ∷ fs) =
      let rest = frames_in_lap lap fs in if f.lap_number == lap then f ∷ rest else rest

  abbrev pub is_earlier : Frame F → Frame F → Bool
  is_earlier a b = ltb_ℤ a.timestamp_unix_ms b.timestamp_unix_ms

  abbrev pub is_usable : Option F → Bool
  is_usable none = false
  is_usable (some d) = not (is_nan d) && not (is_inf d) && not (lt d (literal 0 0))

  -- The tests of the frames after the first one.
  unfoldable pub rises_from : Frame F → List (Frame F) → Bool
  rises_from previous [] = true
  rises_from previous (f ∷ fs) =
      is_usable f.lap_distance_meters && not (lt (meters f) (meters previous)) && rises_from f fs

  unfoldable pub rises : List (Frame F) → Bool
  rises [] = true
  rises (f ∷ fs) = is_usable f.lap_distance_meters && rises_from f fs

  unfoldable pub last_frame : Frame F → List (Frame F) → Frame F
  last_frame f [] = f
  last_frame f (g ∷ gs) = last_frame g gs

  abbrev pub with_sample :
      String → ℤ → Option (Frame F × Frame F) → List (LapSample F) → List (LapSample F)
  with_sample lap_id bucket none rest = rest
  with_sample lap_id bucket (some (left, right)) rest =
      interpolate_sample lap_id bucket left right ∷ rest

  abbrev pub after_bucket :
      String
      → ℤ
      → Bool
      → Option (Frame F × Frame F)
      → Option (List (LapSample F))
      → Option (List (LapSample F))
  after_bucket lap_id bucket before around none = none
  after_bucket lap_id bucket before around (some rest) =
      some (if before then rest else with_sample lap_id bucket around rest)

  -- The loop over the buckets; `none` where the fuel is used up.
  unfoldable pub bucket_loop :
      ℕ → String → ℤ → List (Frame F) → F → F → ℤ → Option (List (LapSample F))
  bucket_loop zero lap_id step frames first last bucket = none
  bucket_loop (suc fuel) lap_id step frames first last bucket =
      let rest = bucket_loop fuel lap_id step frames first last (add64 bucket step) in
      if le (of_int bucket) last
      then after_bucket lap_id bucket (lt (of_int bucket) first)
          (bracket_frames frames (of_int bucket)) rest
      else some []

  -- No samples are no result.
  abbrev pub unless_empty : Option (List (LapSample F)) → Option (Option (List (LapSample F)))
  unless_empty none = none
  unless_empty (some []) = some none
  unless_empty (some (s ∷ ss)) = some (some (s ∷ ss))

  -- From frames of rising distances, no two of one distance.
  unfoldable pub samples_of : ℕ → String → ℤ → List (Frame F) → Option (Option (List (LapSample F)))
  samples_of fuel lap_id step [] = some none
  samples_of fuel lap_id step (f ∷ []) = some none
  samples_of fuel lap_id step (f ∷ g ∷ fs) =
      let last = meters (last_frame g fs) in
      if le last (meters f)
      then some none
      else unless_empty (bucket_loop fuel lap_id step (f ∷ g ∷ fs) (meters f) last (pos 0))

  unfoldable pub samples_of_sorted :
      ℕ → String → ℤ → List (Frame F) → Option (Option (List (LapSample F)))
  samples_of_sorted fuel lap_id step [] = some none
  samples_of_sorted fuel lap_id step (f ∷ []) = some none
  samples_of_sorted fuel lap_id step (f ∷ g ∷ fs) =
      if rises (f ∷ g ∷ fs)
      then samples_of fuel lap_id step (collapse_duplicate_distance_frames (f ∷ g ∷ fs))
      else some none

  -- `some none` is Go's `nil, false`, and `none` that the fuel is used up.
  unfoldable pub build_lap_samples :
      ℕ → CompletedLap → List (Frame F) → ℤ → Option (Option (List (LapSample F)))
  build_lap_samples fuel lap frames step_meters =
      if leb_ℤ step_meters (pos 0) || lap.id == ""
      then some none
      else samples_of_sorted fuel lap.id step_meters
          (sort_by is_earlier (frames_in_lap lap.lap_number frames))
