-- ===== src/Tracks/Capabilities.antt =====
-- internal/tracks/approved_geometry.go: what a layout can be used for.
pub mod Prepared
use mathlib.Core.Option
use telemetry_one_backend.Base.{
  String, Bool, false, ◌&&◌, ◌||◌, not, Option, none, some, List, [], ◌∷◌, if◌then◌else◌, ◌==◌,
  string_eq, length, leb,
}
use telemetry_one_backend.Base.Float.{Float64}
use telemetry_one_backend.Base.Result.{Result, ok, err}
use telemetry_one_backend.Tracks.Types.{
  Corner, CatalogLayout, CatalogTrack, Catalog, ApprovedGeometryLayout, Fault,
}
use telemetry_one_backend.Tracks.Ranges.{Ids}
use telemetry_one_backend.Tracks.Approved.{geometry_tolerance, validate_approved_geometry_layout}

pub record Capability : Type 0 where
  pub state : String
  pub reason : String

pub record LayoutCapabilities : Type 0 where
  pub detection : Capability
  pub distance_delta : Capability
  pub micro_sectors : Capability
  pub corner_analysis : Capability
  pub official_corner_names : Capability

unfoldable pub available_capability : Capability
available_capability = record { state = "available"; reason = "" }

unfoldable pub partial_capability : String → Capability
partial_capability reason = record { state = "partial"; reason = reason }

unfoldable pub unavailable_capability : String → Capability
unavailable_capability reason = record { state = "unavailable"; reason = reason }

pub data GeometryState (F : Type 0) : Type 0 where
  missing : GeometryState F
  invalid : GeometryState F
  valid : ApprovedGeometryLayout F → GeometryState F

-- All but the detection, which is given.
unfoldable pub all_unavailable : Capability → String → LayoutCapabilities
all_unavailable detection reason = record {
  detection = detection;
  distance_delta = unavailable_capability reason;
  micro_sectors = unavailable_capability reason;
  corner_analysis = unavailable_capability reason;
  official_corner_names = unavailable_capability reason;
}

module _ {F : Type 0} ⦃fl : Float64 F⦄ where
  open fl use {sub, abs, lt}

  -- The approved geometry of a layout: the first one under its identifiers.
  unfoldable pub geometry_state : ApprovedGeometryLayout F → Result Fault Ids → GeometryState F
  geometry_state l (ok ids) = valid l
  geometry_state l (err f) = invalid

  unfoldable pub geometry_of : String → String → List (ApprovedGeometryLayout F) → GeometryState F
  geometry_of track_id layout_id [] = missing
  geometry_of track_id layout_id (l ∷ ls) =
      let rest = geometry_of track_id layout_id ls in
      if l.track_id == track_id && l.layout_id == layout_id
      then geometry_state l (validate_approved_geometry_layout "approvedGeometry" l [])
      else rest

  unfoldable pub approved_geometry_for : Catalog F → String → String → GeometryState F
  approved_geometry_for c track_id layout_id =
      geometry_of track_id layout_id c.approved_geometry.layouts

  unfoldable pub find_layout : String → List (CatalogLayout F) → Option (CatalogLayout F)
  find_layout id [] = none
  find_layout id (l ∷ ls) = let rest = find_layout id ls in if l.id == id then some l else rest

  abbrev pub with_track :
      CatalogTrack F → Option (CatalogLayout F) → Option (CatalogTrack F × CatalogLayout F)
  with_track t none = none
  with_track t (some l) = some (t, l)

  -- The first layout with the identifier, in a track with the identifier.
  unfoldable pub layout_in :
      String → String → List (CatalogTrack F) → Option (CatalogTrack F × CatalogLayout F)
  layout_in track_id layout_id [] = none
  layout_in track_id layout_id (t ∷ ts) =
      let rest = layout_in track_id layout_id ts in
      if t.id == track_id
      then Option.or_else (with_track t (find_layout layout_id t.layouts)) rest
      else rest

  unfoldable pub layout_by_id :
      Catalog F → String → String → Option (CatalogTrack F × CatalogLayout F)
  layout_by_id c track_id layout_id = layout_in track_id layout_id c.tracks

  unfoldable pub has_spatial_corner_definitions : List (Corner F) → Bool
  has_spatial_corner_definitions [] = false
  has_spatial_corner_definitions (c ∷ cs) =
      c.definition_mode == "catalog_manual" || has_spatial_corner_definitions cs

  unfoldable pub has_official_corner_names : List (Corner F) → Bool
  has_official_corner_names [] = false
  has_official_corner_names (c ∷ cs) =
      c.definition_mode == "catalog_manual" && not (c.name == "") || has_official_corner_names cs

  unfoldable pub capabilities_of : CatalogLayout F → GeometryState F → LayoutCapabilities
  capabilities_of layout missing = all_unavailable available_capability "approved_geometry_missing"
  capabilities_of layout invalid = all_unavailable available_capability "approved_geometry_invalid"
  capabilities_of layout (valid approved) = record {
    detection = available_capability;
    distance_delta =
        if lt (geometry_tolerance layout.length_meters approved.length_meters)
          (abs (sub approved.length_meters layout.length_meters))
        then unavailable_capability "approved_geometry_length_mismatch"
        else available_capability;
    micro_sectors =
        if leb 8 (length approved.center_line)
        then available_capability
        else partial_capability "approved_geometry_insufficient_density";
    corner_analysis =
        if has_spatial_corner_definitions layout.corners
        then available_capability
        else partial_capability "no_spatial_corner_definitions";
    official_corner_names =
        if has_official_corner_names layout.corners
        then available_capability
        else partial_capability "enumerated_corners_only";
  }

  unfoldable pub found_capabilities :
      Catalog F → Option (CatalogTrack F × CatalogLayout F) → LayoutCapabilities
  found_capabilities c none =
      all_unavailable (unavailable_capability "layout_not_found") "layout_not_found"
  found_capabilities c (some (t, l)) = capabilities_of l (approved_geometry_for c t.id l.id)

  unfoldable pub layout_capabilities : Catalog F → String → String → LayoutCapabilities
  layout_capabilities c track_id layout_id =
      found_capabilities c (layout_by_id c track_id layout_id)
