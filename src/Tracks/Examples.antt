-- ===== src/Tracks/Examples.antt =====
-- The theorems on the catalog and on detection at a small catalog, in thousandths.
use telemetry_one_backend.Base.{
  String, ℕ, ◌*◌, ◌≡◌, refl, subst, true, false, arith, none, inr, ◌+ℤ◌, ◌-ℤ◌, ◌*ℤ◌, some, List, [],
  ◌∷◌, pos, All,
}
use telemetry_one_backend.Base.Float.{Milli, milli_float, milli_order}
use telemetry_one_backend.Base.Result.{ok, or_error, first_error}
use telemetry_one_backend.Base.Dict.{lookup, insert}
use telemetry_one_backend.Base.Text.{decimal}
use telemetry_one_backend.Base.Sort.{sort_by, insert_by}
use mathlib.Core.Option
use telemetry_one_backend.Telemetry.Frame.{Frame}
use telemetry_one_backend.Telemetry.Examples.{frame, fast}
use telemetry_one_backend.Tracks.Types.{
  Source, CatalogLayout, CatalogTrack, Catalog, ApprovedGeometryLayout,
}
use telemetry_one_backend.Tracks.Validation.{
  catalog_version_v1, validate_catalog, validate_tracks_from, validate_layouts_from,
  validate_layout,
}
use telemetry_one_backend.Tracks.Sources.{validate_sources, validate_sources_from}
use telemetry_one_backend.Tracks.Ranges.{
  remember_id, validate_sectors, validate_sectors_from, validate_corners, validate_corners_from,
  validate_center_line,
}
use telemetry_one_backend.Tracks.Validation.Accepted.{
  IsTrack, Distinct, track_ids, validate_catalog-Accepted,
}
use telemetry_one_backend.Tracks.Approved.{prepare_approved_geometry}
use telemetry_one_backend.Tracks.Capabilities.{approved_geometry_for}
use telemetry_one_backend.Tracks.Capabilities.Prepared.{IsUsable, prepare_approved_geometry_lem}
use telemetry_one_backend.Tracks.Selectable.{
  has_selectable_layout_metadata, build_catalog_track_layout_summary, find_selectable_track_layout,
}
use telemetry_one_backend.Tracks.Selectable.Listed.{is_found, offers}
use telemetry_one_backend.Tracks.Selectable.Agreement.{find_selectable-eq-offers}
use telemetry_one_backend.Tracks.Detection.{
  default_detection_options, detect_for, observed_from, frame_distance, matching_candidates,
  candidates_in, candidates_in_track, is_candidate, candidate, candidate_less, choose, is_ambiguous,
  detected_result, fallback_result, DetectionOptions, normalize_detection_options,
  observed_completed_lap_length, detect_track,
}
use telemetry_one_backend.Tracks.Detection.Candidates.{match_confidence, EachFitting}
use telemetry_one_backend.Tracks.Detection.Found.{IsDetected, detect_track_lem}

abbrev meters : ℕ → Milli
meters n = some (pos (n * 1000))

abbrev courses : Source
courses = record {
  url = "https://ddm999.github.io/gt7info";
  source_type = "gt7info_course_csv";
  retrieved_at = "2026-01-01";
  note = "";
}

abbrev oval : CatalogLayout Milli
oval = record {
  id = "oval-full";
  name = "Full";
  length_meters = meters 300;
  sources = courses ∷ [];
  sectors = [];
  corners = [];
  center_line = [];
  fingerprint = record {
    normalized_length = meters 0;
    sample_count = pos 0;
    signature = [];
    elevation_profile = [];
  };
}

abbrev speedway : CatalogTrack Milli
speedway = record {
  id = "oval";
  name = "Oval";
  country = "";
  sources = courses ∷ [];
  layouts = oval ∷ record oval { id = "oval-short"; length_meters = meters 200 } ∷ [];
}

abbrev catalog : Catalog Milli
catalog = record {
  catalog_version = catalog_version_v1;
  generated_by = "";
  notes = "";
  tracks = speedway ∷ [];
  approved_geometry = record { layouts = [] };
}

abbrev ids : List (String × String)
ids =
    ("oval", "tracks[0]")
    ∷ ("oval-full", "tracks[0].layouts[0]")
    ∷ ("oval-short", "tracks[0].layouts[1]")
    ∷ []

catalog_run : validate_catalog catalog ≡ ok ids
unfolding validate_catalog or_error first_error validate_tracks_from remember_id lookup
    validate_sources validate_sources_from Option.or_else validate_layouts_from validate_layout
    insert validate_sectors validate_sectors_from validate_corners validate_corners_from
    validate_center_line decimal
catalog_run = refl

abbrev at_corner : ℕ → ℕ → ℕ → ℕ → Frame Milli
at_corner time lap x z = record (frame time lap fast) {
  position_x = meters x;
  position_z = meters z;
  is_on_track = true;
}

-- Once around a rectangle of 100 by 50 m, and on.
abbrev drive : List (Frame Milli)
drive =
    at_corner 100 1 0 0
    ∷ at_corner 200 1 100 0
    ∷ at_corner 300 1 100 50
    ∷ at_corner 400 1 0 50
    ∷ at_corner 500 2 0 0
    ∷ []

abbrev options : DetectionOptions Milli
options = record {
  min_completed_lap_frames = pos 5;
  length_tolerance_ratio = meters 0;
  ambiguous_score_margin = meters 0;
  min_detected_confidence = meters 0;
}

drive_run : (detect_track drive catalog options).layout_id ≡ some "oval-full"
unfolding detect_track detect_for normalize_detection_options default_detection_options
    observed_completed_lap_length observed_from frame_distance matching_candidates candidates_in
    candidates_in_track is_candidate candidate has_selectable_layout_metadata validate_sources
    validate_sources_from sort_by insert_by candidate_less choose is_ambiguous detected_result
    fallback_result Option.or_else first_error decimal ◌+ℤ◌ ◌-ℤ◌ ◌*ℤ◌
drive_run = refl

validate_catalog-Accepted_example :
    (catalog.catalog_version ≡ catalog_version_v1)
    × Distinct [] (track_ids catalog.tracks)
    × All IsTrack catalog.tracks
validate_catalog-Accepted_example = validate_catalog-Accepted catalog ids catalog_run

find_selectable-eq-offers_example :
    is_found (find_selectable_track_layout catalog "oval" "oval-short")
    ≡ offers "oval" "oval-short" (build_catalog_track_layout_summary catalog).tracks
find_selectable-eq-offers_example =
    find_selectable-eq-offers catalog ids "oval" "oval-short" catalog_run

equal_milli :
    (a b : Milli)
    → milli_float.eq a b ≡ true
    → (milli_float.le a b ≡ true) × (milli_float.le b a ≡ true)
equal_milli none b h = cc h
equal_milli (some a) none h = cc h
equal_milli (some a) (some b) h = ground arith

abbrev normalized : DetectionOptions Milli
normalized = normalize_detection_options options

drive_length :
    observed_completed_lap_length drive normalized.min_completed_lap_frames ≡ some (meters 300)
unfolding normalize_detection_options default_detection_options observed_completed_lap_length
    observed_from frame_distance ◌+ℤ◌ ◌-ℤ◌ ◌*ℤ◌
drive_length = refl

drive_numbers :
    EachFitting
      (meters 300)
      normalized.length_tolerance_ratio
      (λ t l.
        milli_float.is_nan (match_confidence (meters 300) normalized.length_tolerance_ratio l)
        ≡ false)
      catalog.tracks
unfolding normalize_detection_options default_detection_options ◌+ℤ◌ ◌-ℤ◌ ◌*ℤ◌
drive_numbers = ((inr refl, (inr refl, tt)), tt)

drive_numbers_at :
    (observed : Milli)
    → observed_completed_lap_length drive normalized.min_completed_lap_frames ≡ some observed
    → EachFitting observed normalized.length_tolerance_ratio
        (λ t l.
          milli_float.is_nan (match_confidence observed normalized.length_tolerance_ratio l)
          ≡ false)
        catalog.tracks
drive_numbers_at observed e =
    let same : meters 300 ≡ observed = cc (drive_length, e) in
    subst
      (λ x.
        EachFitting x normalized.length_tolerance_ratio
          (λ t l.
            milli_float.is_nan (match_confidence x normalized.length_tolerance_ratio l) ≡ false)
          catalog.tracks)
      same drive_numbers

detect_track_example :
    (observed : Milli) × (observed_completed_lap_length drive normalized.min_completed_lap_frames
      ≡ some observed)
    × IsDetected normalized catalog observed (detect_track drive catalog options)
detect_track_example =
    detect_track_lem equal_milli drive catalog options "oval-full" drive_numbers_at drive_run

-- Geometry without points.
abbrev bent : ApprovedGeometryLayout Milli
bent = record {
  track_id = "oval";
  layout_id = "oval-full";
  length_meters = meters 300;
  center_line = [];
}

abbrev unprepared : Catalog Milli
unprepared = record catalog { approved_geometry = record { layouts = bent ∷ [] } }

prepare_approved_geometry_example :
    (prepared : Catalog Milli) × (prepare_approved_geometry unprepared true ≡ ok prepared)
    × (prepared.tracks ≡ speedway ∷ [])
    × IsUsable "oval" "oval-full" (approved_geometry_for prepared "oval" "oval-full")
prepare_approved_geometry_example = prepare_approved_geometry_lem unprepared "oval" "oval-full"
