-- ===== src/Laps/Repository.antt =====
-- internal/laps/memory_repository.go: the laps of each session by number, and the samples of each
-- lap by distance. A copy of a lap or a sample is equal to it; the repository is not `nil`, and the
-- context of a call is live or is done.
pub mod Settle
use telemetry_one_backend.Base.{
  ℕ, String, ◌≡◌, Bool, true, false, Option, none, some, List, [], ◌∷◌, map, if◌then◌else◌, ◌==◌,
  string_eq, int_eq, ℤ, pos, leb_ℤ, ltb_ℤ,
}
use telemetry_one_backend.Base.Dict.{Dict, lookup, insert}
use telemetry_one_backend.Base.Sort.{sort_by}
use telemetry_one_backend.Base.Result.{Result, ok, err}
use telemetry_one_backend.Base.Text.Order.{string_lt}
use telemetry_one_backend.Laps.Lap.{
  LapError, CompletedLap, validate_lap, lap_with_defaults, invalid_lap_number, invalid_gap_count,
}
use telemetry_one_backend.Laps.Sample.{LapSample, validate_sample, sample_with_defaults}

-- `ctx.Err()`, or an error of the package.
pub data RepositoryError : Type 0 where
  context_done : RepositoryError
  refused : LapError → RepositoryError

pub record MemoryRepository (F : Type 0) : Type 0 where
  pub laps : Dict String (Dict ℤ CompletedLap)
  pub samples : Dict String (Dict ℤ (LapSample F))

-- `m[k]` of a map of maps: an empty one where the key is missing.
abbrev pub inner {ℓ} : {V : Type ℓ} → String → Dict String (Dict ℤ V) → Dict ℤ V
inner k m = elim (lookup k m) [ none ↦ [] | some by_key ↦ by_key ]

unfoldable pub values {ℓ} : {V : Type ℓ} → Dict ℤ V → List V
values [] = []
values ((k, v) ∷ m) = v ∷ values m

-- What is stored when `lap` comes to what was stored before.
abbrev pub merge_lap : CompletedLap → Option CompletedLap → CompletedLap
merge_lap lap none = lap
merge_lap lap (some existing) = record existing { telemetry_gap_count = lap.telemetry_gap_count }

unfoldable pub lap_less : CompletedLap → CompletedLap → Bool
lap_less a b =
    if a.lap_number == b.lap_number then string_lt a.id b.id else ltb_ℤ a.lap_number b.lap_number

module _ {F : Type 0} where
  abbrev pub stored_lap : MemoryRepository F → String → ℤ → Option CompletedLap
  stored_lap r session_id n = lookup n (inner session_id r.laps)

  abbrev pub put_lap : MemoryRepository F → String → ℤ → CompletedLap → MemoryRepository F
  put_lap r session_id n lap = record r {
    laps = insert session_id (insert n lap (inner session_id r.laps)) r.laps;
  }

  unfoldable pub upsert_lap : MemoryRepository F → CompletedLap → MemoryRepository F
  upsert_lap r lap =
      put_lap r lap.session_id lap.lap_number
        (merge_lap lap (stored_lap r lap.session_id lap.lap_number))

  -- The loop: it stops at the first lap that is not valid, and keeps what it wrote before.
  unfoldable pub upsert_laps :
      MemoryRepository F → List CompletedLap → MemoryRepository F × Option RepositoryError
  upsert_laps r [] = (r, none)
  upsert_laps r (lap ∷ laps) =
      let lap' = lap_with_defaults lap in
      elim (validate_lap lap') [
        | some e ↦ (r, some (refused e))
        | none ↦ upsert_laps (upsert_lap r lap') laps
      ]

  unfoldable pub upsert_completed :
      Bool → MemoryRepository F → List CompletedLap → MemoryRepository F × Option RepositoryError
  upsert_completed done r laps = if done then (r, some context_done) else upsert_laps r laps

  unfoldable pub set_gap_count : MemoryRepository F → String → ℤ → ℤ → MemoryRepository F
  set_gap_count r session_id n count = elim (stored_lap r session_id n) [
    | none ↦ r
    | some lap ↦ put_lap r session_id n (record lap { telemetry_gap_count = count })
  ]

  unfoldable pub update_telemetry_gap_count :
      Bool → MemoryRepository F → String → ℤ → ℤ → MemoryRepository F × Option RepositoryError
  update_telemetry_gap_count done r session_id n count =
      if done
      then (r, some context_done)
      else if session_id == ""
      then (r, none)
      else if ltb_ℤ n (pos 0)
      then (r, some (refused invalid_lap_number))
      else if ltb_ℤ count (pos 0)
      then (r, some (refused invalid_gap_count))
      else (set_gap_count r session_id n count, none)

  unfoldable pub list_by_session :
      Bool → MemoryRepository F → String → Result RepositoryError (List CompletedLap)
  list_by_session done r session_id =
      if done
      then err context_done
      else if session_id == ""
      then ok []
      else ok (
          map lap_with_defaults
            (sort_by lap_less (map lap_with_defaults (values (inner session_id r.laps)))))

  unfoldable pub upsert_sample : MemoryRepository F → LapSample F → MemoryRepository F
  upsert_sample r s = elim (lookup s.distance_meters (inner s.lap_id r.samples)) [
    | some _ ↦ record r { samples = insert s.lap_id (inner s.lap_id r.samples) r.samples }
    | none ↦ record r {
      samples = insert s.lap_id (insert s.distance_meters s (inner s.lap_id r.samples)) r.samples;
    }
  ]

  unfoldable pub upsert_sample_loop :
      MemoryRepository F → List (LapSample F) → MemoryRepository F × Option RepositoryError
  upsert_sample_loop r [] = (r, none)
  upsert_sample_loop r (s ∷ ss) =
      let s' = sample_with_defaults s in
      elim (validate_sample s') [
        | some e ↦ (r, some (refused e))
        | none ↦ upsert_sample_loop (upsert_sample r s') ss
      ]

  unfoldable pub upsert_samples :
      Bool → MemoryRepository F → List (LapSample F) → MemoryRepository F × Option RepositoryError
  upsert_samples done r samples =
      if done then (r, some context_done) else upsert_sample_loop r samples

  unfoldable pub sample_less : LapSample F → LapSample F → Bool
  sample_less a b =
      if a.distance_meters == b.distance_meters
      then string_lt a.id b.id
      else ltb_ℤ a.distance_meters b.distance_meters

  unfoldable pub list_samples :
      Bool → MemoryRepository F → String → Result RepositoryError (List (LapSample F))
  list_samples done r lap_id =
      if done
      then err context_done
      else if lap_id == ""
      then ok []
      else ok (
          map sample_with_defaults
            (sort_by sample_less (map sample_with_defaults (values (inner lap_id r.samples)))))
