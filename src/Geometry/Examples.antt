-- ===== src/Geometry/Examples.antt =====
-- The theorems on centerlines and trackers at a small track, in thousandths.
use telemetry_one_backend.Base.{
  ℕ, ◌+◌, ◌*◌, ◌≡◌, refl, true, false, none, some, List, [], ◌∷◌, map, arith, pos, length, All,
  get_elem?, wrap64, ◌+ℤ◌, ◌-ℤ◌, ◌*ℤ◌,
}
use telemetry_one_backend.Base.Float.{Milli, milli_float, milli_order}
use telemetry_one_backend.Base.Result.{ok}
use telemetry_one_backend.Geometry.Centerline.{
  Point, Segment, Centerline, distance, new_segment, then_segments, segments_from, closing_segment,
  same_point, total_after, invalid_point, is_finite, of_segments, new_centerline, zero_float,
  project_on_segment, on_segment, project, normalize_distance, normalized_progress, forward_delta,
}
use telemetry_one_backend.Geometry.Centerline.Chain.{IsChain, steps, ends, new_centerline_lem}
use telemetry_one_backend.Geometry.Centerline.Nearest.{gap, project_lem}
use telemetry_one_backend.Geometry.Continuity.{
  default_lap_continuity_options, normalize_lap_continuity_options, new_lap_continuity_tracker,
  update, next_state, update_closed, cleared, first_state, no_state, moved_forward, moved_back,
}
use telemetry_one_backend.Geometry.Continuity.Counting.{
  Place, IsReport, updates, crossings, updates_lem,
}

abbrev meters : ℕ → Milli
meters n = some (pos (n * 1000))

abbrev corner_at : ℕ → ℕ → Point Milli
corner_at x y = record { x = meters x; y = meters y; z = meters 0 }

abbrev square : List (Point Milli)
square = corner_at 0 0 ∷ corner_at 100 0 ∷ corner_at 100 0 ∷ corner_at 100 50 ∷ corner_at 0 50 ∷ []

abbrev side : ℕ → ℕ → ℕ → ℕ → ℕ → ℕ → Segment Milli
side a b c d from length = record {
  start = corner_at a b;
  end = corner_at c d;
  start_meters = meters from;
  end_meters = meters (from + length);
  length = meters length;
}

abbrev track : Centerline Milli
track = record {
  points = square;
  segments =
      side 0 0 100 0 0 100
      ∷ side 100 0 100 50 100 50
      ∷ side 100 50 0 50 150 100
      ∷ side 0 50 0 0 250 50
      ∷ [];
  total_meters = meters 300;
  closed = true;
}

new_centerline_run : new_centerline square true ≡ ok track
unfolding new_centerline invalid_point is_finite segments_from then_segments new_segment distance
    closing_segment same_point total_after of_segments ◌+ℤ◌ ◌-ℤ◌ ◌*ℤ◌
new_centerline_run = refl

new_centerline_example :
    (track.points ≡ square)
    × (track.closed ≡ true)
    × (milli_float.le track.total_meters zero_float ≡ false)
    × (map ends track.segments ≡ steps true square)
    × IsChain zero_float track.segments track.total_meters
new_centerline_example = new_centerline_lem square true track new_centerline_run

near_bounds :
    All
      (λ s.
        (milli_float.is_nan (gap (corner_at 60 4) s) ≡ false)
        × (milli_float.le milli_float.infinity (gap (corner_at 60 4) s) ≡ false))
      track.segments
unfolding project_on_segment distance ◌+ℤ◌ ◌-ℤ◌ ◌*ℤ◌
near_bounds = ((refl, refl), ((refl, refl), ((refl, refl), ((refl, refl), tt))))

project_example :
    let r = project track (corner_at 60 4) in
    (i : ℕ) × (t : Segment Milli) × (get_elem? track.segments i ≡ some t)
    × (r ≡ on_segment track (corner_at 60 4) i t)
    × All
        (λ u. milli_float.le r.off_centerline_meters (gap (corner_at 60 4) u) ≡ true)
        track.segments
project_example =
    project_lem track (corner_at 60 4) (side 0 0 100 0 0 100)
      (side 100 0 100 50 100 50 ∷ side 100 50 0 50 150 100 ∷ side 0 50 0 0 250 50 ∷ []) refl
      near_bounds

abbrev at_place : ℕ → Place Milli
at_place d = record { distance_meters = meters d; total_meters = meters 300; closed = true }

abbrev round : List (Place Milli)
round = at_place 270 ∷ at_place 295 ∷ at_place 8 ∷ at_place 1 ∷ []

round_run :
    crossings none 0 (updates (new_lap_continuity_tracker default_lap_continuity_options) round).1
    ≡ 1
unfolding crossings updates update next_state new_lap_continuity_tracker
    normalize_lap_continuity_options default_lap_continuity_options no_state first_state cleared
    update_closed forward_delta normalize_distance normalized_progress moved_forward moved_back
    is_finite ◌+ℤ◌ ◌-ℤ◌ ◌*ℤ◌ wrap64
round_run = refl

updates_example :
    let (t, states) =
      updates (new_lap_continuity_tracker (default_lap_continuity_options {F = Milli})) round in
    All IsReport states
    × (t.state.lap_count ≡ pos (crossings none 0 states))
    × (t.state.lap_index ≡ pos (crossings none 0 states))
updates_example = updates_lem default_lap_continuity_options round (omega arith)
