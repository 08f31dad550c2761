-- ===== src/Laps/Extract.antt =====
-- `ExtractCompleted` finds each completed lap once, at the first frame that reports it.
use telemetry_one_backend.Base.{
  String, ◌≡◌, ◌≢◌, true, false, Option, none, some, List, [], ◌∷◌, arith, if◌then◌else◌, ◌==◌,
  string_eq, int_eq, eqb_ℤ_iff, ◌&&◌, ℤ, pos, ◌≤ℤ◌, sub64, All, inl, inr, Bool-cases, All-imp,
  or-eq-false,
}
use mathlib.Core.Option
use text.Mathlib.TextEquality.{eq_iff}
use telemetry_one_backend.Base.Result.{first_error}
use telemetry_one_backend.Telemetry.Frame.{Frame}
use telemetry_one_backend.Telemetry.Ranges.{Optional}
use telemetry_one_backend.Laps.Lap.{
  CompletedLap, validate_lap, contains, reports_lap, completed_lap, extract_from, extract_completed,
}

-- The lap of the list with the number `n`.
pub find_lap : ℤ → List CompletedLap → Option CompletedLap
find_lap n [] = none
find_lap n (l ∷ ls) = if l.lap_number == n then some l else find_lap n ls

-- No two laps of the list have one number.
abbrev pub DistinctLaps : List CompletedLap → Type 0
DistinctLaps [] = Unit
DistinctLaps (l ∷ ls) = All (λ other. other.lap_number ≢ l.lap_number) ls × DistinctLaps ls

module _ {F : Type 0} where
  -- The first frame that reports the time of the lap `n`.
  pub first_report : ℤ → List (Frame F) → Option (Frame F)
  first_report n [] = none
  first_report n (f ∷ fs) =
      if reports_lap f && sub64 f.lap_number (pos 1) == n then some f else first_report n fs

  find_lap-extract_from :
      (session_id : String) (seen : List ℤ) (fs : List (Frame F)) (n : ℤ)
      → find_lap n (extract_from session_id seen fs) ≡ (
          if contains n seen
          then none
          else Option.map (completed_lap session_id) (first_report n fs))
  unfolding find_lap extract_from first_report completed_lap
  find_lap-extract_from id seen [] n = ground arith
  find_lap-extract_from id seen (f ∷ fs) n =
      let m = sub64 f.lap_number (pos 1) in
      ground (
        arith,
        eqb_ℤ_iff m n,
        find_lap-extract_from id seen fs n,
        find_lap-extract_from id (m ∷ seen) fs n,
      )

  -- The numbers found are not among those seen before.
  extract_from-unseen :
      (session_id : String) (seen : List ℤ) (fs : List (Frame F))
      → All (λ l. contains l.lap_number seen ≡ false) (extract_from session_id seen fs)
        × DistinctLaps (extract_from session_id seen fs)
  unfolding extract_from completed_lap
  extract_from-unseen id seen [] = (tt, tt)
  extract_from-unseen id seen (f ∷ fs) =
      let m = sub64 f.lap_number (pos 1) in
      elim (Bool-cases (reports_lap f)) [
        | inl reports ↦ elim (Bool-cases (contains m seen)) [
          | inl old ↦ rw (reports, old) (extract_from-unseen id seen fs)
          | inr new ↦
              let later = extract_from id (m ∷ seen) fs in
              let (unseen, distinct) = extract_from-unseen id (m ∷ seen) fs in
              rw (reports, new)
                (
                  (
                    new,
                    All-imp _ _ later
                        (λ l h.
                          ((or-eq-false (m == l.lap_number) (contains l.lap_number seen)).0 h).1)
                        unseen,
                  ),
                  (
                    All-imp _ _ later (λ l h p. ground (arith, eqb_ℤ_iff m l.lap_number)) unseen,
                    distinct,
                  ),
                )
        ]
        | inr silent ↦ rw silent (extract_from-unseen id seen fs)
      ]

  completed_lap-IsValid :
      (session_id : String) (f : Frame F)
      → session_id ≢ ""
      → Optional (λ v. pos 0 ≤ℤ v) f.best_lap_ms
      → reports_lap f ≡ true
      → validate_lap (completed_lap session_id f) ≡ none
  unfolding validate_lap first_error completed_lap reports_lap
  completed_lap-IsValid session_id f named best reports = ground (arith, eq_iff session_id "")

  extract_from-IsValid :
      (session_id : String) (seen : List ℤ) (fs : List (Frame F))
      → session_id ≢ ""
      → All (λ f. Optional (λ v. pos 0 ≤ℤ v) f.best_lap_ms) fs
      → All (λ l. validate_lap l ≡ none) (extract_from session_id seen fs)
  unfolding extract_from
  extract_from-IsValid id seen [] named best = tt
  extract_from-IsValid id seen (f ∷ fs) named best =
      let m = sub64 f.lap_number (pos 1) in
      ground (
        arith,
        completed_lap-IsValid id f named best.0,
        extract_from-IsValid id seen fs named best.1,
        extract_from-IsValid id (m ∷ seen) fs named best.1,
      )

  -- From frames of a named session with no negative best time, `ExtractCompleted` takes laps that
  -- all pass `Validate` and bear different numbers, and the lap with a given number is the one that
  -- the first frame to report it gives; where no frame reports it there is none.
  pub extract_completed_lem :
      (session_id : String) (fs : List (Frame F))
      → session_id ≢ ""
      → All (λ f. Optional (λ v. pos 0 ≤ℤ v) f.best_lap_ms) fs
      → All (λ l. validate_lap l ≡ none) (extract_completed session_id fs)
        × DistinctLaps (extract_completed session_id fs)
        × ((n : ℤ)
            → find_lap n (extract_completed session_id fs)
              ≡ Option.map (completed_lap session_id) (first_report n fs))
  unfolding extract_completed
  extract_completed_lem id fs named best =
      let no_name : (id == "") ≡ false = ground (arith, eq_iff id "") in
      rw no_name (
        extract_from-IsValid id [] fs named best,
        (extract_from-unseen id [] fs).1,
        find_lap-extract_from id [] fs,
      )
