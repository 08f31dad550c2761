-- ===== src/Tracks/Validation.antt =====
-- internal/tracks/catalog.go: the checks of a catalog.
pub mod Accepted
use mathlib.Core.Option
use telemetry_one_backend.Base.{
  ℕ, suc, ◌<◌, String, Bool, true, false, ◌&&◌, ◌||◌, not, Option, none, some, List, [], ◌∷◌,
  if◌then◌else◌, ◌==◌, string_eq, nat_eq, pos, length, ltb,
}
use telemetry_one_backend.Base.Float.{Float64}
use telemetry_one_backend.Base.Dict.{Dict, lookup, insert}
use telemetry_one_backend.Base.Text.{◌&◌}
use telemetry_one_backend.Base.Result.{Result, ok, err, or_error, first_error, ◌>>=◌, ◌>>◌}
use telemetry_one_backend.Tracks.Types.{
  Source, Point, Sector, Corner, CatalogLayout, CatalogTrack, Catalog, Cause, Fault, fault,
  is_finite, point_finite, point_distance, unsupported_catalog_version, missing_catalog_version,
  missing_track_id, missing_track_name, missing_layout_id, missing_layout_name, missing_sector_name,
  missing_corner_id, missing_corner_name, duplicate_id, invalid_length, invalid_distance_range,
  overlapping_distance_range, invalid_center_line, unsupported_corner_definition_mode,
}
use telemetry_one_backend.Tracks.Ranges.{
  Ids, check, remember_id, zero_float, validate_sectors, validate_corners, validate_center_line,
}
use telemetry_one_backend.Tracks.Sources.{at, validate_sources, require_production_sources}

abbrev pub catalog_version_v1 : String
catalog_version_v1 = "telemetry-one.track-catalog.v1"

module _ {F : Type 0} ⦃fl : Float64 F⦄ where
  open fl use {literal, lt, le, eq}

  unfoldable pub validate_layout : String → Ids → CatalogLayout F → Result Fault Ids
  validate_layout path ids l = do
    check (
        first_error (
          (l.id == "", fault (path & ".id") missing_layout_id)
          ∷ (l.name == "", fault (path & ".name") missing_layout_name)
          ∷ []))
    ids' ← remember_id ids l.id path
    check (
        if le l.length_meters zero_float
        then some (fault (path & ".lengthMeters") invalid_length)
        else none)
    check (validate_sources (path & ".sources") l.sources)
    check (validate_sectors (path & ".sectors") l.sectors l.length_meters)
    ids'' ← validate_corners (path & ".corners") l.corners l.length_meters ids'
    check (validate_center_line (path & ".centerLine") l.center_line l.length_meters)
    ok ids''

  unfoldable pub validate_layouts_from :
      String → ℕ → Ids → List (CatalogLayout F) → Result Fault Ids
  validate_layouts_from path i ids [] = ok ids
  validate_layouts_from path i ids (l ∷ ls) = do
    ids' ← validate_layout (at (path & ".layouts") i) ids l
    validate_layouts_from path (suc i) ids' ls

  unfoldable pub validate_tracks_from : ℕ → Ids → List (CatalogTrack F) → Result Fault Ids
  validate_tracks_from i ids [] = ok ids
  validate_tracks_from i ids (t ∷ ts) = do
    let path = at "tracks" i
    check (
        first_error (
          (t.id == "", fault (path & ".id") missing_track_id)
          ∷ (t.name == "", fault (path & ".name") missing_track_name)
          ∷ []))
    ids' ← remember_id ids t.id path
    check (validate_sources (path & ".sources") t.sources)
    ids'' ← validate_layouts_from path 0 ids' t.layouts
    validate_tracks_from (suc i) ids'' ts

  -- The identifiers of an accepted catalog, which Go drops.
  unfoldable pub validate_catalog : Catalog F → Result Fault Ids
  validate_catalog c = do
    check (
        first_error (
          (c.catalog_version == "", fault "" missing_catalog_version)
          ∷ (not (c.catalog_version == catalog_version_v1), fault "" unsupported_catalog_version)
          ∷ []))
    validate_tracks_from 0 [] c.tracks
