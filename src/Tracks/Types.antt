-- ===== src/Tracks/Types.antt =====
-- internal/tracks/track.go, and the types of catalog.go and approved_geometry.go.
use telemetry_one_backend.Base.{Bool, not, ◌&&◌, String, List, ℤ}
use telemetry_one_backend.Base.Float.{Float64}

pub record Source : Type 0 where
  pub url : String
  pub source_type : String
  pub retrieved_at : String
  pub note : String

pub record Point (F : Type 0) : Type 0 where
  pub index : ℤ
  pub x : F
  pub y : F
  pub z : F
  pub accumulated_meters : F
  pub heading_radians : F
  pub curvature : F

pub record Sector (F : Type 0) : Type 0 where
  pub number : ℤ
  pub name : String
  pub start_meters : F
  pub end_meters : F
  pub sources : List Source

pub record Corner (F : Type 0) : Type 0 where
  pub id : String
  pub number : ℤ
  pub name : String
  pub definition_mode : String
  pub start_meters : F
  pub apex_meters : F
  pub end_meters : F
  pub direction : String
  pub radius_meters : F
  pub severity : String
  pub confidence : F
  pub sources : List Source

pub record Fingerprint (F : Type 0) : Type 0 where
  pub normalized_length : F
  pub sample_count : ℤ
  pub signature : List F
  pub elevation_profile : List F

pub record CatalogLayout (F : Type 0) : Type 0 where
  pub id : String
  pub name : String
  pub length_meters : F
  pub sources : List Source
  pub sectors : List (Sector F)
  pub corners : List (Corner F)
  pub center_line : List (Point F)
  pub fingerprint : Fingerprint F

pub record CatalogTrack (F : Type 0) : Type 0 where
  pub id : String
  pub name : String
  pub country : String
  pub sources : List Source
  pub layouts : List (CatalogLayout F)

pub record ApprovedGeometryLayout (F : Type 0) : Type 0 where
  pub track_id : String
  pub layout_id : String
  pub length_meters : F
  pub center_line : List (Point F)

pub record ApprovedGeometryManifest (F : Type 0) : Type 0 where
  pub layouts : List (ApprovedGeometryLayout F)

pub record Catalog (F : Type 0) : Type 0 where
  pub catalog_version : String
  pub generated_by : String
  pub notes : String
  pub tracks : List (CatalogTrack F)
  pub approved_geometry : ApprovedGeometryManifest F

pub data Cause : Type 0 where
  unsupported_catalog_version missing_catalog_version missing_track_id missing_track_name : Cause
  missing_layout_id missing_layout_name missing_sector_name missing_corner_id : Cause
  missing_corner_name duplicate_id invalid_length invalid_distance_range : Cause
  overlapping_distance_range missing_source_url missing_source_type : Cause
  missing_source_retrieved_at missing_metadata_source unsupported_source_of_truth_source : Cause
  invalid_center_line unsupported_corner_definition_mode : Cause

-- What `fmt.Errorf` writes before the error that it wraps, and that error.
pub record Fault : Type 0 where
  pub place : String
  pub cause : Cause

abbrev pub fault : String → Cause → Fault
fault place cause = record { place = place; cause = cause }

module _ {F : Type 0} ⦃fl : Float64 F⦄ where
  open fl use {literal, add, sub, mul, sqrt, is_nan, is_inf}

  unfoldable pub is_finite : F → Bool
  is_finite value = not (is_nan value) && not (is_inf value)

  unfoldable pub point_finite : Point F → Bool
  point_finite p = is_finite p.x && is_finite p.y && is_finite p.z

  unfoldable pub point_distance : Point F → Point F → F
  point_distance a b =
      let dx = sub b.x a.x in
      let dy = sub b.y a.y in
      let dz = sub b.z a.z in sqrt (add (add (mul dx dx) (mul dy dy)) (mul dz dz))
