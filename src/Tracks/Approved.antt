-- ===== src/Tracks/Approved.antt =====
-- internal/tracks/approved_geometry.go: geometry that is approved for a layout.
use mathlib.Core.Option
use telemetry_one_backend.Base.{
  ℕ, suc, String, Bool, ◌||◌, not, Option, none, some, List, [], ◌∷◌, if◌then◌else◌, ◌==◌,
  string_eq, length,
}
use telemetry_one_backend.Base.Float.{Float64}
use telemetry_one_backend.Base.Text.{◌&◌}
use telemetry_one_backend.Base.Result.{Result, ok, err, first_error, ◌>>=◌, ◌>>◌}
use telemetry_one_backend.Tracks.Types.{
  Point, Catalog, ApprovedGeometryLayout, ApprovedGeometryManifest, Fault, fault, is_finite,
  point_finite, point_distance, missing_track_id, missing_layout_id, invalid_length,
  invalid_center_line,
}
use telemetry_one_backend.Tracks.Sources.{at}
use telemetry_one_backend.Tracks.Ranges.{Ids, check, remember_id, zero_float}

unfoldable pub approved_geometry_key : String → String → String
approved_geometry_key track_id layout_id = track_id & "::" & layout_id

module _ {F : Type 0} ⦃fl : Float64 F⦄ where
  open fl use {literal, add, sub, mul, abs, lt, le, eq, is_nan, is_inf}

  -- `math.Max` of two values that are not negative, or NaN.
  abbrev float_max : F → F → F
  float_max a b =
      if is_inf a
      then a
      else if is_inf b
      then b
      else if is_nan a
      then a
      else if is_nan b
      then b
      else if lt a b
      then b
      else a

  unfoldable pub geometry_tolerance : F → F → F
  geometry_tolerance a b =
      let max = float_max (abs a) (abs b) in
      if le max (literal 1 0) then literal 1 0 else mul max (literal 1 2)

  abbrev pub off_by : F → F → Bool
  off_by a b = lt (geometry_tolerance a b) (abs (sub a b))

  -- The tests of a point after another one.
  abbrev pub next_point_checks : String → Point F → Point F → List (Bool × Fault)
  next_point_checks path previous p =
      let delta = sub p.accumulated_meters previous.accumulated_meters in
      let segment = point_distance previous p in
      (not (point_finite p) || not (is_finite p.accumulated_meters), fault path invalid_center_line)
      ∷ (
        le p.accumulated_meters previous.accumulated_meters,
        fault (path & ".accumulatedMeters") invalid_center_line,
      )
      ∷ (
        le segment zero_float || lt (geometry_tolerance delta segment) (abs (sub segment delta)),
        fault path invalid_center_line,
      )
      ∷ []

  unfoldable pub approved_points_from : String → ℕ → Point F → List (Point F) → Option Fault
  approved_points_from path i previous [] = none
  approved_points_from path i previous (p ∷ ps) =
      Option.or_else (first_error (next_point_checks (at (path & ".centerLine") i) previous p))
        (approved_points_from path (suc i) p ps)

  unfoldable pub last_point : Point F → List (Point F) → Point F
  last_point p [] = p
  last_point p (q ∷ ps) = last_point q ps

  abbrev pub closing_checks :
      String → ApprovedGeometryLayout F → Point F → Point F → ℕ → List (Bool × Fault)
  closing_checks path layout first last index =
      let back = point_distance first last in
      (
        lt (geometry_tolerance layout.length_meters last.accumulated_meters)
            (abs (sub last.accumulated_meters layout.length_meters)),
        fault (at (path & ".centerLine") index & ".accumulatedMeters") invalid_center_line,
      )
      ∷ (
        lt (geometry_tolerance layout.length_meters back) back,
        fault (path & ".centerLine") invalid_center_line,
      )
      ∷ []

  unfoldable pub approved_line : String → ApprovedGeometryLayout F → List (Point F) → Option Fault
  approved_line path layout [] = some (fault (path & ".centerLine") invalid_center_line)
  approved_line path layout (p ∷ []) = some (fault (path & ".centerLine") invalid_center_line)
  approved_line path layout (first ∷ q ∷ ps) =
      let start = at (path & ".centerLine") 0 in
      Option.or_else
        (first_error (
          (
            not (is_finite first.accumulated_meters)
                || not (eq first.accumulated_meters zero_float),
            fault (start & ".accumulatedMeters") invalid_center_line,
          )
          ∷ (not (point_finite first), fault start invalid_center_line)
          ∷ []))
        (Option.or_else (approved_points_from path 1 first (q ∷ ps))
          (first_error (closing_checks path layout first (last_point q ps) (suc (length ps)))))

  unfoldable pub validate_approved_geometry_layout :
      String → ApprovedGeometryLayout F → Ids → Result Fault Ids
  validate_approved_geometry_layout path layout ids = do
    check (
        first_error (
          (layout.track_id == "", fault (path & ".trackId") missing_track_id)
          ∷ (layout.layout_id == "", fault (path & ".layoutId") missing_layout_id)
          ∷ (le layout.length_meters zero_float, fault (path & ".lengthMeters") invalid_length)
          ∷ []))
    ids' ← remember_id ids (approved_geometry_key layout.track_id layout.layout_id) path
    check (approved_line path layout layout.center_line)
    ok ids'

  -- The loop of `Validate`.
  unfoldable pub validate_manifest_from :
      ℕ → Ids → List (ApprovedGeometryLayout F) → Result Fault Ids
  validate_manifest_from i ids [] = ok ids
  validate_manifest_from i ids (l ∷ ls) = do
    ids' ← validate_approved_geometry_layout (at "layouts" i) l ids
    validate_manifest_from (suc i) ids' ls

  unfoldable pub validate_manifest : ApprovedGeometryManifest F → Result Fault Ids
  validate_manifest m = validate_manifest_from 0 [] m.layouts

  -- The map after a layout that failed: its key stays, if it came to that.
  unfoldable pub ids_after_failure : String → ApprovedGeometryLayout F → Ids → Ids
  ids_after_failure path layout ids =
      if layout.track_id == "" || layout.layout_id == "" || le layout.length_meters zero_float
      then ids
      else elim (remember_id ids (approved_geometry_key layout.track_id layout.layout_id) path) [
        | ok ids' ↦ ids'
        | err f ↦ ids
      ]

  -- One layout of the loop: it is kept, passed over, or the end of the loop.
  abbrev pub after_layout :
      Bool
      → ApprovedGeometryLayout F
      → Result Fault Ids
      → (Ids → Result Fault (List (ApprovedGeometryLayout F)))
      → Result Fault (List (ApprovedGeometryLayout F))
      → Result Fault (List (ApprovedGeometryLayout F))
  after_layout skip_invalid l (ok ids) kept skipped = kept ids >>= λ out. ok (l ∷ out)
  after_layout skip_invalid l (err f) kept skipped = if skip_invalid then skipped else err f

  -- The loop of `sanitized`.
  unfoldable pub sanitize_from :
      Bool
      → ℕ
      → Ids
      → List (ApprovedGeometryLayout F)
      → Result Fault (List (ApprovedGeometryLayout F))
  sanitize_from skip_invalid i ids [] = ok []
  sanitize_from skip_invalid i ids (l ∷ ls) =
      let path = at "layouts" i in
      let skipped = sanitize_from skip_invalid (suc i) (ids_after_failure path l ids) ls in
      after_layout skip_invalid l (validate_approved_geometry_layout path l ids)
        (λ ids'. sanitize_from skip_invalid (suc i) ids' ls) skipped

  unfoldable pub prepare_approved_geometry : Catalog F → Bool → Result Fault (Catalog F)
  prepare_approved_geometry c skip_invalid = do
    layouts ← sanitize_from skip_invalid 0 [] c.approved_geometry.layouts
    ok (record c { approved_geometry = record { layouts = layouts } })
