-- ===== src/Laps/Examples.antt =====
-- The theorems on laps at concrete frames and laps, in thousandths.
use telemetry_one_backend.Base.{
  ◌*◌, ◌-◌, ◌≤◌, ◌≡◌, refl, false, none, some, List, [], ◌∷◌, arith, ℤ, pos, negsuc, length, All,
}
use mathlib.Core.List.Perm
use mathlib.Core.Option
use text.Mathlib.TextEquality.{eq_iff}
use telemetry_one_backend.Base.Float.{Milli}
use telemetry_one_backend.Base.Dict.{lookup}
use telemetry_one_backend.Telemetry.Frame.{Frame}
use telemetry_one_backend.Telemetry.Examples.{frame, fast}
use telemetry_one_backend.Laps.Lap.{CompletedLap, validate_lap, extract_completed, completed_lap}
use telemetry_one_backend.Laps.Extract.{find_lap, DistinctLaps, first_report, extract_completed_lem}
use telemetry_one_backend.Laps.Gap.{count_telemetry_gaps, frames_of_lap}
use telemetry_one_backend.Laps.Gap.Order.{
  count_telemetry_gaps_bound, count_telemetry_gaps-eq_of_perm,
}
use telemetry_one_backend.Base.Float.{milli_float}
use telemetry_one_backend.Base.{ℕ, ◌*◌, ◌<◌, ◌*ℤ◌, Option}
use telemetry_one_backend.Laps.Sample.{LapSample}
use telemetry_one_backend.Laps.Build.{frames_in_lap, build_lap_samples}
use telemetry_one_backend.Laps.Build.Series.{IsNear, IsBuilt, path_of, build_lap_samples_lem}
use telemetry_one_backend.Laps.Repository.{MemoryRepository, stored_lap, upsert_completed}
use telemetry_one_backend.Laps.Repository.Settle.{upsert_completed-first_wins}
use telemetry_one_backend.Base.Float.{milli_float}

abbrev reporting : Frame Milli
reporting = record (frame 9000 2 fast) { last_lap_ms = some (pos 8500) }

abbrev laps_run : List (Frame Milli)
laps_run =
    frame 100 1 fast
    ∷ frame 5000 1 fast
    ∷ reporting
    ∷ record reporting { timestamp_unix_ms = pos 9100 }
    ∷ []

extract_completed_example :
    All (λ l. validate_lap l ≡ none) (extract_completed "s1" laps_run)
    × DistinctLaps (extract_completed "s1" laps_run)
    × ((n : ℤ)
        → find_lap n (extract_completed "s1" laps_run)
          ≡ Option.map (completed_lap "s1") (first_report n laps_run))
extract_completed_example =
    extract_completed_lem "s1" laps_run (ground (arith, eq_iff "s1" "")) (tt, (tt, (tt, (tt, tt))))

abbrev first_lap : CompletedLap
first_lap = record {
  id = "";
  session_id = "s1";
  lap_number = pos 1;
  lap_time_ms = pos 8500;
  completed_at_unix_ms = pos 9000;
  best_lap_ms = none;
  sample_count = none;
  telemetry_gap_count = pos 0;
}

abbrev gappy : List (Frame Milli)
gappy =
    frame 100 1 fast
    ∷ frame 150 1 fast
    ∷ frame 200 1 fast
    ∷ frame 900 1 fast
    ∷ frame 950 1 fast
    ∷ []

abbrev shuffled : List (Frame Milli)
shuffled =
    frame 150 1 fast
    ∷ frame 100 1 fast
    ∷ frame 200 1 fast
    ∷ frame 900 1 fast
    ∷ frame 950 1 fast
    ∷ []

count_telemetry_gaps_bound_example :
    2 * count_telemetry_gaps first_lap gappy ≤ length (frames_of_lap (pos 1) gappy) - 2
count_telemetry_gaps_bound_example = count_telemetry_gaps_bound first_lap gappy (
  (omega arith, omega arith),
  (
    (omega arith, omega arith),
    ((omega arith, omega arith), ((omega arith, omega arith), ((omega arith, omega arith), tt))),
  ),
)

count_telemetry_gaps_perm_example :
    count_telemetry_gaps first_lap gappy ≡ count_telemetry_gaps first_lap shuffled
count_telemetry_gaps_perm_example = count_telemetry_gaps-eq_of_perm first_lap gappy shuffled (
    Perm.swap (frame 150 1 fast) (frame 100 1 fast)
      (frame 200 1 fast ∷ frame 900 1 fast ∷ frame 950 1 fast ∷ []))

abbrev empty_repository : MemoryRepository Milli
empty_repository = record { laps = []; samples = [] }

abbrev held : CompletedLap
held = record first_lap { id = "lap_s1_1"; lap_time_ms = pos 8400 }

abbrev repository : MemoryRepository Milli
repository = record empty_repository { laps = ("s1", (pos 1, held) ∷ []) ∷ [] }

abbrev bad_lap : CompletedLap
bad_lap = record first_lap { lap_number = pos 2; lap_time_ms = negsuc 0 }

upsert_completed-first_wins_example :
    (count : ℤ) × (stored_lap
        (upsert_completed false repository (first_lap ∷ bad_lap ∷ [])).0
        "s1"
        (pos 1)
      ≡ some (record held { telemetry_gap_count = count }))
unfolding lookup
upsert_completed-first_wins_example =
    upsert_completed-first_wins false repository (first_lap ∷ bad_lap ∷ []) "s1" (pos 1) held refl

abbrev at_meters : ℕ → Frame Milli
at_meters m = record (frame (m * 20) 1 fast) { lap_distance_meters = some (some (pos (m * 1000))) }

-- Three frames of the lap, and one far off in the next.
abbrev spaced : List (Frame Milli)
spaced =
    at_meters 8 ∷ at_meters 13 ∷ at_meters 17 ∷ record (at_meters 900) { lap_number = pos 2 } ∷ []

near :
    (m n : ℕ) → m < n → milli_float.le (milli_float.of_int (pos n)) (some (pos (m * 1000))) ≡ false
unfolding ◌*ℤ◌
near m n h = ground arith

spaced-IsNear : All (IsNear 20) (frames_in_lap (pos 1) spaced)
unfolding frames_in_lap
spaced-IsNear = (
  λ n h. near 8 n (omega arith),
  (λ n h. near 13 n (omega arith), (λ n h. near 17 n (omega arith), tt)),
)

build_lap_samples_example :
    (built : Option (List (LapSample Milli))) × (build_lap_samples 21
        (record first_lap { id = "l1" })
        spaced
        (pos 5)
      ≡ some built)
    × IsBuilt "l1" 5 (path_of (record first_lap { id = "l1" }) spaced) built
build_lap_samples_example =
    build_lap_samples_lem (record first_lap { id = "l1" }) spaced 4 20 (omega arith) spaced-IsNear
