-- ===== src/Tracks/Ranges.antt =====
-- internal/tracks/catalog.go: the checks of what a layout holds.
use mathlib.Core.Option
use telemetry_one_backend.Base.{
  ℕ, suc, String, Bool, true, false, ◌&&◌, ◌||◌, not, Option, none, some, List, [], ◌∷◌,
  if◌then◌else◌, ◌==◌, string_eq, nat_eq, length, ltb,
}
use telemetry_one_backend.Base.Float.{Float64}
use telemetry_one_backend.Base.Dict.{Dict, lookup, insert}
use telemetry_one_backend.Base.Text.{◌&◌}
use telemetry_one_backend.Base.Result.{Result, ok, err, or_error, first_error, ◌>>=◌, ◌>>◌}
use telemetry_one_backend.Tracks.Types.{
  Point, Sector, Corner, Fault, fault, is_finite, point_finite, point_distance, missing_sector_name,
  missing_corner_id, missing_corner_name, duplicate_id, invalid_distance_range,
  overlapping_distance_range, invalid_center_line, unsupported_corner_definition_mode,
}
use telemetry_one_backend.Tracks.Sources.{at, validate_sources}

-- The identifiers seen so far, each with its place.
abbrev pub Ids : Type 0
Ids = Dict String String

abbrev pub remember_new : Ids → String → String → Option String → Result Fault Ids
remember_new ids id path (some existing) =
    err (fault (path & " duplicates " & existing) duplicate_id)
remember_new ids id path none = ok (insert id path ids)

-- The new identifier goes to the map that the caller shares.
unfoldable pub remember_id : Ids → String → String → Result Fault Ids
remember_id ids id path = remember_new ids id path (lookup id ids)

-- `if err := ...; err != nil { return err }`
abbrev pub check : Option Fault → Result Fault (Unit {0})
check o = or_error o tt

-- What the loop over the corners keeps. `previous_end` is Go's 0 until a corner sets it.
pub record CornerState (F : Type 0) : Type 0 where
  pub previous_end : F
  pub first_start : Option F
  pub has_wrap_around : Bool

module _ {F : Type 0} ⦃fl : Float64 F⦄ where
  open fl use {literal, lt, le, eq}

  abbrev pub zero_float : F
  zero_float = literal 0 0

  -- The loop over the sectors; `previous` is the end of the one before, if there is one.
  abbrev pub sector_checks : String → F → Option F → Sector F → List (Bool × Fault)
  sector_checks path length_meters previous s =
      (
        lt s.start_meters zero_float
            || le s.end_meters s.start_meters
            || lt length_meters s.end_meters,
        fault path invalid_distance_range,
      )
      ∷ (
        elim previous [ none ↦ false | some e ↦ lt s.start_meters e ],
        fault path overlapping_distance_range,
      )
      ∷ []

  unfoldable pub validate_sectors_from : String → F → Option F → ℕ → List (Sector F) → Option Fault
  validate_sectors_from path length_meters previous i [] = none
  validate_sectors_from path length_meters previous i (s ∷ ss) =
      Option.or_else
        (if s.name == "" then some (fault (at path i & ".name") missing_sector_name) else none)
        (Option.or_else (validate_sources (at path i & ".sources") s.sources) (
          Option.or_else (first_error (sector_checks (at path i) length_meters previous s))
            (validate_sectors_from path length_meters (some s.end_meters) (suc i) ss)))

  unfoldable pub validate_sectors : String → List (Sector F) → F → Option Fault
  validate_sectors path sectors length_meters =
      validate_sectors_from path length_meters none 0 sectors

  abbrev pub outside : F → F → Bool
  outside length_meters d = lt d zero_float || lt length_meters d

  -- Whether the range of a corner wraps around the line, or `none` where it is no range.
  unfoldable pub validate_corner_range : Corner F → F → Option Bool
  validate_corner_range c length_meters =
      if not (is_finite c.start_meters)
        || not (is_finite c.apex_meters)
        || not (is_finite c.end_meters)
      then none
      else if outside length_meters c.start_meters
          || outside length_meters c.apex_meters
          || outside length_meters c.end_meters
      then none
      else if lt c.start_meters c.end_meters
      then (if le c.apex_meters c.start_meters || le c.end_meters c.apex_meters
          then none
          else some false)
      else if eq c.start_meters c.end_meters
      then none
      else if lt c.apex_meters c.start_meters && le c.end_meters c.apex_meters
      then none
      else some true

  abbrev pub given_or : Option F → F → F
  given_or none d = d
  given_or (some v) d = v

  -- The tests of a range after the corners before it; `first` is the start of the first range.
  abbrev pub overlap_checks :
      String → ℕ → ℕ → CornerState F → Corner F → Bool → F → List (Bool × Fault)
  overlap_checks path count i state c wraps first =
      (
        state.has_wrap_around || (wraps && not (suc i == count)),
        fault path overlapping_distance_range,
      )
      ∷ (ltb 0 i && lt c.start_meters state.previous_end, fault path overlapping_distance_range)
      ∷ (wraps && ltb 1 count && lt first c.end_meters, fault path overlapping_distance_range)
      ∷ []

  -- A corner with a range of its own.
  unfoldable pub manual_corner :
      String → F → ℕ → ℕ → CornerState F → Corner F → Option Bool → Result Fault (CornerState F)
  manual_corner path length_meters count i state c none = err (fault path invalid_distance_range)
  manual_corner path length_meters count i state c (some wraps) =
      let first = given_or state.first_start c.start_meters in
      or_error (first_error (overlap_checks path count i state c wraps first)) (record {
        previous_end = if wraps then length_meters else c.end_meters;
        first_start = some first;
        has_wrap_around = state.has_wrap_around || wraps;
      })

  unfoldable pub place_corner :
      String → F → ℕ → ℕ → CornerState F → Corner F → Result Fault (CornerState F)
  place_corner path length_meters count i state c =
      if c.definition_mode == "catalog_enumerated"
      then (if not (eq c.start_meters zero_float)
            || not (eq c.apex_meters zero_float)
            || not (eq c.end_meters zero_float)
          then err (fault path invalid_distance_range)
          else ok state)
      else manual_corner path length_meters count i state c (validate_corner_range c length_meters)

  abbrev pub corner_checks : String → Corner F → List (Bool × Fault)
  corner_checks path c =
      (c.id == "", fault (path & ".id") missing_corner_id)
      ∷ (c.name == "", fault (path & ".name") missing_corner_name)
      ∷ (
        not (c.definition_mode == "catalog_manual")
            && not (c.definition_mode == "catalog_enumerated"),
        fault (path & ".definitionMode") unsupported_corner_definition_mode,
      )
      ∷ []

  unfoldable pub validate_corners_from :
      String → F → ℕ → ℕ → CornerState F → Ids → List (Corner F) → Result Fault Ids
  validate_corners_from path length_meters count i state ids [] = ok ids
  validate_corners_from path length_meters count i state ids (c ∷ cs) = do
    check (first_error (corner_checks (at path i) c))
    ids' ← remember_id ids c.id (at path i)
    check (validate_sources (at path i & ".sources") c.sources)
    state' ← place_corner (at path i) length_meters count i state c
    validate_corners_from path length_meters count (suc i) state' ids' cs

  unfoldable pub validate_corners : String → List (Corner F) → F → Ids → Result Fault Ids
  validate_corners path corners length_meters ids =
      validate_corners_from path length_meters (length corners) 0
        (record { previous_end = zero_float; first_start = none; has_wrap_around = false }) ids
        corners

  -- `previous` is the point before, if there is one; Go starts from -1.
  abbrev pub point_checks : String → F → Option (Point F) → Point F → List (Bool × Fault)
  point_checks path length_meters previous p =
      (not (point_finite p) || not (is_finite p.accumulated_meters), fault path invalid_center_line)
      ∷ (
        outside length_meters p.accumulated_meters,
        fault (path & ".accumulatedMeters") invalid_center_line,
      )
      ∷ (
        elim previous [
          | none ↦ le p.accumulated_meters (fl.sub zero_float (literal 1 0))
          | some q ↦ le p.accumulated_meters q.accumulated_meters
        ],
        fault (path & ".accumulatedMeters") invalid_center_line,
      )
      ∷ (
        elim previous [ none ↦ false | some q ↦ eq (point_distance q p) zero_float ],
        fault path invalid_center_line,
      )
      ∷ []

  unfoldable pub validate_points_from :
      String → F → Option (Point F) → ℕ → List (Point F) → Option Fault
  validate_points_from path length_meters previous i [] = none
  validate_points_from path length_meters previous i (p ∷ ps) =
      Option.or_else (first_error (point_checks (at path i) length_meters previous p))
        (validate_points_from path length_meters (some p) (suc i) ps)

  unfoldable pub validate_center_line : String → List (Point F) → F → Option Fault
  validate_center_line path [] length_meters = none
  validate_center_line path (p ∷ []) length_meters = some (fault path invalid_center_line)
  validate_center_line path (p ∷ q ∷ ps) length_meters =
      Option.or_else (validate_points_from path length_meters none 0 (p ∷ q ∷ ps)) (
        if eq p.accumulated_meters zero_float
        then none
        else some (fault (path & "[0].accumulatedMeters") invalid_center_line))
