-- ===== src/Tracks/Capabilities/Prepared.antt =====
-- Approved geometry that `PrepareApprovedGeometry` has sorted out.
use telemetry_one_backend.Base.{
  ℕ, suc, String, ◌≡◌, refl, true, ◌&&◌, Option, none, some, List, [], ◌∷◌, ◌==◌, string_eq, inl,
  inr, Bool-cases, All, ap, ◌∙◌, arith,
}
use telemetry_one_backend.Base.Float.{Float64}
use telemetry_one_backend.Base.Dict.{lookup}
use telemetry_one_backend.Base.Result.{
  Result, ok, err, or_error, ◌>>◌, Passes-of_first_error, first_error_of_Passes, or_else-eq-none,
  >>=-eq-ok,
}
use telemetry_one_backend.Tracks.Types.{Point, Catalog, ApprovedGeometryLayout, Fault}
use telemetry_one_backend.Tracks.Sources.{at}
use telemetry_one_backend.Tracks.Ranges.{Ids, check, remember_id}
use telemetry_one_backend.Tracks.Validation.Accepted.{check-eq-ok}
use telemetry_one_backend.Tracks.Approved.{
  approved_geometry_key, approved_points_from, approved_line, validate_approved_geometry_layout,
  ids_after_failure, after_layout, sanitize_from, prepare_approved_geometry,
}
use telemetry_one_backend.Tracks.Capabilities.{
  GeometryState, missing, invalid, valid, geometry_state, geometry_of, approved_geometry_for,
}

check-none {ℓ} :
    {B : Type ℓ} (o : Option Fault) (rest : Result Fault B) → o ≡ none → (check o >> rest) ≡ rest
unfolding or_error
check-none none rest h = refl
check-none (some f) rest h = cc h

module _ {F : Type 0} ⦃fl : Float64 F⦄ where
  -- Whether points pass does not depend on the path that is written before a fault.
  points_any_path :
      (path path' : String) (i i' : ℕ) (previous : Point F) (ps : List (Point F))
      → approved_points_from path i previous ps ≡ none
      → approved_points_from path' i' previous ps ≡ none
  unfolding approved_points_from
  points_any_path path path' i i' previous [] h = refl
  points_any_path path path' i i' previous (p ∷ ps) h =
      let (first, rest) = (or_else-eq-none _ _).0 h in
      let (finite, (rising, (apart, end))) = Passes-of_first_error _ first in
      (or_else-eq-none _ _).1 (
        first_error_of_Passes _ (finite, (rising, (apart, tt))),
        points_any_path path path' (suc i) (suc i') p ps rest,
      )

  line_any_path :
      (path path' : String) (l : ApprovedGeometryLayout F) (ps : List (Point F))
      → approved_line path l ps ≡ none
      → approved_line path' l ps ≡ none
  unfolding approved_line
  line_any_path path path' l [] h = cc h
  line_any_path path path' l (p ∷ []) h = cc h
  line_any_path path path' l (p ∷ q ∷ ps) h =
      let (start, rest) = (or_else-eq-none _ _).0 h in
      let (points, closed) = (or_else-eq-none _ _).0 rest in
      let (from_zero, (finite, end)) = Passes-of_first_error _ start in
      let (long, (back, end')) = Passes-of_first_error _ closed in
      (or_else-eq-none _ _).1 (
        first_error_of_Passes _ (from_zero, (finite, tt)),
        (or_else-eq-none _ _).1 (
          points_any_path path path' 1 1 p (q ∷ ps) points,
          first_error_of_Passes _ (long, (back, tt)),
        ),
      )

  -- A layout that passes among others passes alone.
  alone-state :
      (path : String) (ids ids' : Ids) (l : ApprovedGeometryLayout F)
      → validate_approved_geometry_layout path l ids ≡ ok ids'
      → geometry_state l (validate_approved_geometry_layout "approvedGeometry" l []) ≡ valid l
  unfolding validate_approved_geometry_layout geometry_state remember_id lookup or_error
  alone-state path ids ids' l h =
      let (named, h1) = check-eq-ok _ _ h in
      let (ids1, new, h2) =
        >>=-eq-ok (remember_id ids (approved_geometry_key l.track_id l.layout_id) path) _ h1 in
      let (line, h3) = check-eq-ok (approved_line path l l.center_line) (ok ids1) h2 in
      let (track, (layout, (long, end))) = Passes-of_first_error _ named in
      ap (geometry_state l) (
        check-none _ _ (first_error_of_Passes _ (track, (layout, (long, tt))))
        ∙ check-none (approved_line "approvedGeometry" l l.center_line) _
            (line_any_path path "approvedGeometry" l l.center_line line))

  -- Geometry that passes on its own.
  abbrev IsSound : ApprovedGeometryLayout F → Type 0
  IsSound l = geometry_state l (validate_approved_geometry_layout "approvedGeometry" l []) ≡ valid l

  after_layout-IsSound :
      (path : String) (ids : Ids) (l : ApprovedGeometryLayout F) (r : Result Fault Ids)
      (kept : Ids → Result Fault (List (ApprovedGeometryLayout F)))
      (skipped : Result Fault (List (ApprovedGeometryLayout F)))
      → validate_approved_geometry_layout path l ids ≡ r
      → ((known : Ids)
          → (out : List (ApprovedGeometryLayout F)) × (kept known ≡ ok out) × All IsSound out)
      → (out : List (ApprovedGeometryLayout F)) × (skipped ≡ ok out) × All IsSound out
      → (out : List (ApprovedGeometryLayout F)) × (after_layout true l r kept skipped ≡ ok out)
        × All IsSound out
  after_layout-IsSound path ids l (ok ids') kept skipped e p q =
      let (out, h, sound) = p ids' in (l ∷ out, rw h refl, (alone-state path ids ids' l e, sound))
  after_layout-IsSound path ids l (err f) kept skipped e p q = q

  sanitize_from-IsSound :
      (i : ℕ) (ids : Ids) (ls : List (ApprovedGeometryLayout F))
      → (out : List (ApprovedGeometryLayout F)) × (sanitize_from true i ids ls ≡ ok out)
        × All IsSound out
  unfolding sanitize_from
  sanitize_from-IsSound i ids [] = ([], refl, tt)
  sanitize_from-IsSound i ids (l ∷ ls) =
      after_layout-IsSound (at "layouts" i) ids l
        (validate_approved_geometry_layout (at "layouts" i) l ids) _ _ refl
        (λ known. sanitize_from-IsSound (suc i) known ls)
        (sanitize_from-IsSound (suc i) (ids_after_failure (at "layouts" i) l ids) ls)

  -- No geometry, or one of the layout that is asked for.
  abbrev pub IsUsable : String → String → GeometryState F → Type 0
  IsUsable track_id layout_id missing = Unit
  IsUsable track_id layout_id invalid = ⊥
  IsUsable track_id layout_id (valid l) = (l.track_id ≡ track_id) × (l.layout_id ≡ layout_id)

  geometry_of-IsUsable :
      (track_id layout_id : String) (ls : List (ApprovedGeometryLayout F))
      → All IsSound ls
      → IsUsable track_id layout_id (geometry_of track_id layout_id ls)
  unfolding geometry_of
  geometry_of-IsUsable track_id layout_id [] a = tt
  geometry_of-IsUsable track_id layout_id (l ∷ ls) (sound, rest) =
      elim (Bool-cases (l.track_id == track_id && l.layout_id == layout_id)) [
        | inr other ↦ rw other (geometry_of-IsUsable track_id layout_id ls rest)
        | inl here ↦
            rw (here, sound)
              (
                (string_eq.test_iff l.track_id track_id).0 (ground (arith, here)),
                (string_eq.test_iff l.layout_id layout_id).0 (ground (arith, here)),
              )
      ]

  -- `PrepareApprovedGeometry` that skips invalid geometry succeeds; it leaves the tracks as they are,
  -- and of any layout the catalog has after it either no approved geometry or a valid one.
  pub prepare_approved_geometry_lem :
      (c : Catalog F) (track_id layout_id : String)
      → (prepared : Catalog F) × (prepare_approved_geometry c true ≡ ok prepared)
        × (prepared.tracks ≡ c.tracks)
        × IsUsable track_id layout_id (approved_geometry_for prepared track_id layout_id)
  unfolding prepare_approved_geometry approved_geometry_for
  prepare_approved_geometry_lem c track_id layout_id =
      let (out, h, sound) = sanitize_from-IsSound 0 [] c.approved_geometry.layouts in
      (
        record c { approved_geometry = record { layouts = out } },
        rw h refl,
        refl,
        geometry_of-IsUsable track_id layout_id out sound,
      )
