-- ===== src/Laps/Gap.antt =====
-- internal/laps/gap.go: how many gaps the telemetry of a lap has.
pub mod Bounds
pub mod Order
use telemetry_one_backend.Base.{
  ℕ, suc, ◌+◌, ◌-◌, ◌/◌, ◌%◌, Bool, List, [], ◌∷◌, if◌then◌else◌, ◌==◌, nat_eq, int_eq, ℤ, pos,
  ltb_ℤ, leb_ℤ, sub64, add64, mul64, length, get_or, ltb,
}
use telemetry_one_backend.Base.Sort.{sort_by}
use telemetry_one_backend.Telemetry.Frame.{Frame}
use telemetry_one_backend.Laps.Lap.{CompletedLap}

abbrev pub telemetry_gap_floor_ms : ℤ
telemetry_gap_floor_ms = pos 250

-- `sorted[i]`, which the code reads only within the bounds.
abbrev pub at : List ℤ → ℕ → ℤ
at values i = get_or values i (pos 0)

unfoldable pub median_times_four : List ℤ → ℤ
median_times_four sorted =
    let mid = length sorted / 2 in
    if length sorted % 2 == 1
    then mul64 (pos 4) (at sorted mid)
    else mul64 (pos 2) (add64 (at sorted (mid - 1)) (at sorted mid))

unfoldable pub telemetry_gap_threshold_ms : List ℤ → ℤ
telemetry_gap_threshold_ms values =
    if length values == 0
    then telemetry_gap_floor_ms
    else (let threshold = median_times_four (sort_by ltb_ℤ values) in
        if ltb_ℤ threshold telemetry_gap_floor_ms then telemetry_gap_floor_ms else threshold)

-- How many values exceed the threshold.
unfoldable pub count_above : ℤ → List ℤ → ℕ
count_above threshold [] = 0
count_above threshold (d ∷ ds) =
    let rest = count_above threshold ds in if ltb_ℤ threshold d then suc rest else rest

-- `len(deltas) == 0` gives 0 with no threshold.
unfoldable pub count_gaps : List ℤ → ℕ
count_gaps [] = 0
count_gaps (d ∷ ds) = count_above (telemetry_gap_threshold_ms (d ∷ ds)) (d ∷ ds)

module _ {F : Type 0} where
  unfoldable pub frames_of_lap : ℤ → List (Frame F) → List (Frame F)
  frames_of_lap n [] = []
  frames_of_lap n (f ∷ fs) =
      let rest = frames_of_lap n fs in if f.lap_number == n then f ∷ rest else rest

  abbrev pub earlier : Frame F → Frame F → Bool
  earlier a b = ltb_ℤ a.timestamp_unix_ms b.timestamp_unix_ms

  -- The differences of the times in the list, `previous` the one before it.
  unfoldable pub deltas_from : Frame F → List (Frame F) → List ℤ
  deltas_from previous [] = []
  deltas_from previous (f ∷ fs) =
      let delta = sub64 f.timestamp_unix_ms previous.timestamp_unix_ms in
      let rest = deltas_from f fs in if leb_ℤ delta (pos 0) then rest else delta ∷ rest

  unfoldable pub positive_timestamp_deltas : List (Frame F) → List ℤ
  positive_timestamp_deltas [] = []
  positive_timestamp_deltas (f ∷ fs) = deltas_from f fs

  unfoldable pub count_telemetry_gaps : CompletedLap → List (Frame F) → ℕ
  count_telemetry_gaps lap frames =
      let lap_frames = frames_of_lap lap.lap_number frames in
      if ltb (length lap_frames) 2
      then 0
      else count_gaps (positive_timestamp_deltas (sort_by earlier lap_frames))
