-- ===== src/Geometry/Centerline.antt =====
-- internal/geometry/centerline.go: a line of segments, and the place on it that is nearest to a point.
pub mod Chain
pub mod Nearest
use telemetry_one_backend.Base.{
  ℕ, suc, ◌+◌, Bool, true, false, ◌&&◌, ◌||◌, not, Option, none, some, List, [], ◌∷◌, ◌++◌,
  if◌then◌else◌, length, ltb, get_last?, ℤ, pos, negsuc,
}
use telemetry_one_backend.Base.Float.{Float64}
use telemetry_one_backend.Base.Result.{Result, ok, err}

pub data GeometryError : Type 0 where
  centerline_too_short : GeometryError
  centerline_invalid_point : ℕ → GeometryError
  centerline_zero_length : GeometryError
  invalid_track_length : GeometryError
  invalid_projection_distance : GeometryError

pub record Point (F : Type 0) : Type 0 where
  pub x : F
  pub y : F
  pub z : F

pub record Segment (F : Type 0) : Type 0 where
  pub start : Point F
  pub end : Point F
  pub start_meters : F
  pub end_meters : F
  pub length : F

pub record Centerline (F : Type 0) : Type 0 where
  pub points : List (Point F)
  pub segments : List (Segment F)
  pub total_meters : F
  pub closed : Bool

pub record Projection (F : Type 0) : Type 0 where
  pub segment_index : ℤ
  pub segment_ratio : F
  pub point : Point F
  pub distance_from_start : F
  pub normalized_progress : F
  pub off_centerline_meters : F

module _ {F : Type 0} ⦃fl : Float64 F⦄ where
  open fl use {literal, add, sub, mul, div, fmod, sqrt, infinity, lt, le, eq, is_nan, is_inf}

  abbrev pub zero_float : F
  zero_float = literal 0 0

  unfoldable pub is_finite : F → Bool
  is_finite value = not (is_nan value) && not (is_inf value)

  unfoldable pub same_point : Point F → Point F → Bool
  same_point a b = eq a.x b.x && eq a.y b.y && eq a.z b.z

  unfoldable pub distance : Point F → Point F → F
  distance a b =
      let dx = sub b.x a.x in
      let dy = sub b.y a.y in
      let dz = sub b.z a.z in sqrt (add (add (mul dx dx) (mul dy dy)) (mul dz dz))

  unfoldable pub new_segment : Point F → Point F → F → Option (Segment F)
  new_segment start end start_meters =
      let length = distance start end in
      if eq length zero_float
      then none
      else some (record {
        start = start;
        end = end;
        start_meters = start_meters;
        end_meters = add start_meters length;
        length = length;
      })

  -- A segment that is there, before the others, which start where it ends.
  unfoldable pub then_segments : Option (Segment F) → F → (F → List (Segment F)) → List (Segment F)
  then_segments none total rest = rest total
  then_segments (some segment) total rest = segment ∷ rest segment.end_meters

  -- The loop over the points, from `total`; `closing` gives what follows the last point.
  unfoldable pub segments_from :
      (Point F → F → List (Segment F)) → Point F → List (Point F) → F → List (Segment F)
  segments_from closing p [] total = closing p total
  segments_from closing p (q ∷ ps) total =
      then_segments (new_segment p q total) total (segments_from closing q ps)

  -- The segment from the last point to the first one.
  unfoldable pub closing_segment : Bool → Point F → Point F → F → List (Segment F)
  closing_segment closed first last total =
      if closed && not (same_point first last)
      then then_segments (new_segment last first total) total (λ t. [])
      else []

  -- `total` after the segments.
  unfoldable pub total_after : F → List (Segment F) → F
  total_after total [] = total
  total_after total (s ∷ ss) = total_after s.end_meters ss

  abbrev is_finite_point : Point F → Bool
  is_finite_point p = is_finite p.x && is_finite p.y && is_finite p.z

  unfoldable pub invalid_point : ℕ → List (Point F) → Option ℕ
  invalid_point i [] = none
  invalid_point i (p ∷ ps) =
      let rest = invalid_point (suc i) ps in if is_finite_point p then rest else some i

  abbrev is_empty : List (Segment F) → Bool
  is_empty [] = true
  is_empty (s ∷ ss) = false

  -- The centerline of the segments, where they have a length.
  unfoldable pub of_segments :
      List (Point F) → Bool → List (Segment F) → Result GeometryError (Centerline F)
  of_segments points closed segments =
      let total = total_after zero_float segments in
      if le total zero_float || is_empty segments
      then err centerline_zero_length
      else ok
          (record { points = points; segments = segments; total_meters = total; closed = closed })

  abbrev pub unless_invalid :
      Option ℕ → Result GeometryError (Centerline F) → Result GeometryError (Centerline F)
  unless_invalid (some i) result = err (centerline_invalid_point i)
  unless_invalid none result = result

  unfoldable pub new_centerline : List (Point F) → Bool → Result GeometryError (Centerline F)
  new_centerline [] closed = err centerline_too_short
  new_centerline (p ∷ []) closed = err centerline_too_short
  new_centerline (p ∷ q ∷ ps) closed = unless_invalid (invalid_point 0 (p ∷ q ∷ ps)) (
      of_segments (p ∷ q ∷ ps) closed
        (segments_from (closing_segment closed p) p (q ∷ ps) zero_float))

  unfoldable pub normalize_distance : F → F → F
  normalize_distance distance total =
      let rest = fmod distance total in
      let normalized = if lt rest zero_float then add rest total else rest in
      if le total zero_float
      then zero_float
      else if eq normalized total
      then zero_float
      else normalized

  unfoldable pub normalized_progress : F → F → Bool → F
  normalized_progress distance total closed =
      if le total zero_float
      then zero_float
      else if closed
      then div (normalize_distance distance total) total
      else if le distance zero_float
      then zero_float
      else if le total distance
      then literal 1 0
      else div distance total

  unfoldable pub forward_delta : F → F → F → Result GeometryError F
  forward_delta previous_meters current_meters total =
      let previous = normalize_distance previous_meters total in
      let current = normalize_distance current_meters total in
      if le total zero_float
      then err invalid_track_length
      else if le previous current
      then ok (sub current previous)
      else ok (add (sub total previous) current)

  abbrev clamp_ratio : F → F
  clamp_ratio ratio =
      let low = if lt ratio zero_float then zero_float else ratio in
      if lt (literal 1 0) low then literal 1 0 else low

  unfoldable pub project_on_segment : Point F → Segment F → F × Point F
  project_on_segment point segment =
      let start = segment.start in
      let dx = sub segment.end.x start.x in
      let dy = sub segment.end.y start.y in
      let dz = sub segment.end.z start.z in
      let denominator = add (add (mul dx dx) (mul dy dy)) (mul dz dz) in
      let ratio = clamp_ratio (
        div
          (add (add (mul (sub point.x start.x) dx) (mul (sub point.y start.y) dy))
            (mul (sub point.z start.z) dz))
          denominator) in
      if eq denominator zero_float then (zero_float, start) else (
        ratio,
        record {
          x = add start.x (mul dx ratio);
          y = add start.y (mul dy ratio);
          z = add start.z (mul dz ratio);
        },
      )

  -- The place on one segment.
  unfoldable pub on_segment : Centerline F → Point F → ℕ → Segment F → Projection F
  on_segment c point i segment =
      let (ratio, projected) = project_on_segment point segment in
      let along = add segment.start_meters (mul segment.length ratio) in
      let from_start = if c.closed then normalize_distance along c.total_meters else along in
      record {
        segment_index = pos i;
        segment_ratio = ratio;
        point = projected;
        distance_from_start = from_start;
        normalized_progress = normalized_progress from_start c.total_meters c.closed;
        off_centerline_meters = distance point projected;
      }

  -- The loop: a segment that is not nearer than the best one is passed over.
  unfoldable pub nearest :
      Centerline F → Point F → Projection F → ℕ → List (Segment F) → Projection F
  nearest c point best i [] = best
  nearest c point best i (s ∷ ss) =
      let here = on_segment c point i s in
      nearest c point
        (if le best.off_centerline_meters here.off_centerline_meters then best else here) (suc i) ss

  unfoldable pub no_projection : Projection F
  no_projection = record {
    segment_index = negsuc 0;
    segment_ratio = zero_float;
    point = record { x = zero_float; y = zero_float; z = zero_float };
    distance_from_start = zero_float;
    normalized_progress = zero_float;
    off_centerline_meters = infinity;
  }

  unfoldable pub project : Centerline F → Point F → Projection F
  project c point = nearest c point no_projection 0 c.segments
