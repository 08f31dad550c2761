-- ===== src/Corners/Examples.antt =====
-- The theorems on corners at a layout of 300 m with two corners, in thousandths.
use mathlib.Core.Option
use telemetry_one_backend.Base.{
  String, ℕ, ◌*◌, ◌≡◌, refl, true, ◌+ℤ◌, ◌-ℤ◌, ◌*ℤ◌, none, some, List, [], ◌∷◌, pos,
}
use telemetry_one_backend.Base.Float.{Milli, milli_float, milli_order}
use telemetry_one_backend.Base.Result.{ok, or_error, first_error}
use telemetry_one_backend.Base.Dict.{lookup, insert}
use telemetry_one_backend.Base.Text.{decimal}
use telemetry_one_backend.Tracks.Types.{Corner, CatalogLayout, is_finite}
use telemetry_one_backend.Tracks.Validation.{validate_layout}
use telemetry_one_backend.Tracks.Sources.{validate_sources, validate_sources_from}
use telemetry_one_backend.Tracks.Ranges.{
  remember_id, validate_sectors, validate_sectors_from, validate_corners, validate_corners_from,
  place_corner, manual_corner, validate_corner_range, validate_center_line,
}
use telemetry_one_backend.Corners.Resolver.{
  Resolution, normalize_distance, contains_distance, resolve_current,
}
use telemetry_one_backend.Corners.Resolver.Unique.{holding, IsShown, resolve_current_lem}
use telemetry_one_backend.Corners.Analysis.{
  AnalysisSample, Analysis, default_analysis_options, normalize_analysis_options, valid_sample,
  valid_corner_range, is_within, samples_in, analyze_corner,
}
use telemetry_one_backend.Corners.Analysis.Measured.{IsMeasured, analyze_corner_lem}

abbrev meters : ℕ → Milli
meters n = some (pos (n * 1000))

abbrev corner : String → ℕ → ℕ → ℕ → Corner Milli
corner id start apex end = record {
  id = id;
  number = pos 1;
  name = id;
  definition_mode = "catalog_manual";
  start_meters = meters start;
  apex_meters = meters apex;
  end_meters = meters end;
  direction = "left";
  radius_meters = meters 40;
  severity = "medium";
  confidence = meters 1;
  sources = [];
}

-- The second corner goes around the line.
abbrev layout : CatalogLayout Milli
layout = record {
  id = "oval-full";
  name = "Full";
  length_meters = meters 300;
  sources = [];
  sectors = [];
  corners = corner "first" 50 80 100 ∷ corner "last" 280 290 20 ∷ [];
  center_line = [];
  fingerprint = record {
    normalized_length = meters 0;
    sample_count = pos 0;
    signature = [];
    elevation_profile = [];
  };
}

abbrev ids : List (String × String)
ids = ("oval-full", "layout") ∷ ("first", "layout.corners[0]") ∷ ("last", "layout.corners[1]") ∷ []

layout_run : validate_layout "layout" [] layout ≡ ok ids
unfolding validate_layout or_error first_error remember_id lookup insert validate_sources
    validate_sources_from Option.or_else validate_sectors validate_sectors_from validate_corners
    validate_corners_from place_corner manual_corner validate_corner_range is_finite
    validate_center_line decimal
layout_run = refl

resolve_current_example :
    (r : Resolution Milli) × (resolve_current layout (meters 310) true ≡ ok r)
    × IsShown (holding layout (meters 310) true) r
unfolding is_finite
resolve_current_example =
    resolve_current_lem "layout" [] ids layout (meters 310) true layout_run refl

abbrev sample : ℕ → ℕ → ℕ → AnalysisSample Milli
sample time distance speed = record {
  timestamp_unix_ms = pos time;
  distance_from_start = meters distance;
  progress = meters 0;
  speed_mps = meters speed;
  throttle = none;
  brake = none;
}

abbrev samples : List (AnalysisSample Milli)
samples = sample 100 40 60 ∷ sample 200 60 50 ∷ sample 300 80 30 ∷ sample 400 90 35 ∷ []

samples_run :
    samples_in (corner "first" 50 80 100) (meters 300) true samples
    ≡ sample 200 60 50 ∷ sample 300 80 30 ∷ sample 400 90 35 ∷ []
unfolding samples_in is_within valid_sample is_finite contains_distance normalize_distance ◌+ℤ◌ ◌-ℤ◌
    ◌*ℤ◌
samples_run = refl

analyze_corner_example :
    (a : Analysis Milli) × (analyze_corner
        (corner "first" 50 80 100)
        samples
        (meters 300)
        true
        default_analysis_options
      ≡ ok a)
    × IsMeasured
        (corner "first" 50 80 100)
        (normalize_analysis_options
          (default_analysis_options {F = Milli})).throttle_applied_threshold
        (sample 200 60 50)
        (sample 300 80 30 ∷ sample 400 90 35 ∷ [])
        a
unfolding valid_corner_range is_finite
analyze_corner_example =
    analyze_corner_lem (corner "first" 50 80 100) samples (meters 300) true default_analysis_options
      (sample 200 60 50) (sample 300 80 30 ∷ sample 400 90 35 ∷ []) refl refl refl samples_run
