-- ===== src/Tracks/Detection.antt =====
-- internal/tracks/detection.go: which layout of the catalog a lap was driven on.
pub mod Candidates
pub mod Found
use telemetry_one_backend.Base.{
  ℕ, zero, suc, ◌+◌, String, Bool, true, false, ◌&&◌, ◌||◌, not, Option, none, some, List, [], ◌∷◌,
  ◌++◌, if◌then◌else◌, ◌==◌, string_eq, length, ltb, leb, ℤ, pos, leb_ℤ, ltb_ℤ,
}
use telemetry_one_backend.Base.Float.{Float64}
use telemetry_one_backend.Base.Sort.{sort_by}
use telemetry_one_backend.Base.Text.Order.{string_lt}
use telemetry_one_backend.Telemetry.Frame.{Frame}
use telemetry_one_backend.Tracks.Types.{CatalogLayout, CatalogTrack, Catalog}
use telemetry_one_backend.Tracks.Ranges.{zero_float}
use telemetry_one_backend.Tracks.Selectable.{has_selectable_layout_metadata}
use telemetry_one_backend.Tracks.Capabilities.{LayoutCapabilities, layout_capabilities}

pub record DetectionOptions (F : Type 0) : Type 0 where
  pub min_completed_lap_frames : ℤ
  pub length_tolerance_ratio : F
  pub ambiguous_score_margin : F
  pub min_detected_confidence : F

pub record DetectionEvidence (F : Type 0) : Type 0 where
  pub reason : String
  pub message : String
  pub track_id : String
  pub layout_id : String
  pub catalog_meters : F
  pub observed_meters : F
  pub difference_meters : F
  pub confidence : F

pub record DetectionResult (F : Type 0) : Type 0 where
  pub status : String
  pub track_id : Option String
  pub layout_id : Option String
  pub track_name : Option String
  pub layout_name : Option String
  pub confidence : F
  pub observed_length_meters : F
  pub reasons : List String
  pub evidence : List (DetectionEvidence F)
  pub next_action : String
  pub capabilities : Option LayoutCapabilities

pub record LayoutCandidate (F : Type 0) : Type 0 where
  pub track_id : String
  pub track_name : String
  pub layout_id : String
  pub layout_name : String
  pub length_meters : F
  pub difference : F
  pub confidence : F

module _ {F : Type 0} ⦃fl : Float64 F⦄ where
  open fl use {literal, add, sub, mul, div, abs, sqrt, lt, le, eq}

  unfoldable pub default_detection_options : DetectionOptions F
  default_detection_options = record {
    min_completed_lap_frames = pos 20;
    length_tolerance_ratio = literal 3 2;
    ambiguous_score_margin = literal 5 2;
    min_detected_confidence = literal 65 2;
  }

  unfoldable pub normalize_detection_options : DetectionOptions F → DetectionOptions F
  normalize_detection_options o =
      let d = default_detection_options in
      record {
        min_completed_lap_frames =
            if leb_ℤ o.min_completed_lap_frames (pos 0)
            then d.min_completed_lap_frames
            else o.min_completed_lap_frames;
        length_tolerance_ratio =
            if le o.length_tolerance_ratio zero_float
            then d.length_tolerance_ratio
            else o.length_tolerance_ratio;
        ambiguous_score_margin =
            if le o.ambiguous_score_margin zero_float
            then d.ambiguous_score_margin
            else o.ambiguous_score_margin;
        min_detected_confidence =
            if le o.min_detected_confidence zero_float
            then d.min_detected_confidence
            else o.min_detected_confidence;
      }

  unfoldable pub frame_distance : Frame F → Frame F → F
  frame_distance a b =
      let dx = sub b.position_x a.position_x in
      let dy = sub b.position_y a.position_y in
      let dz = sub b.position_z a.position_z in sqrt (add (add (mul dx dx) (mul dy dy)) (mul dz dz))

  -- The loop over the frames after the first: the lap, its length and its frames so far.
  unfoldable pub observed_from : ℤ → Frame F → ℤ → F → ℕ → List (Frame F) → Option F
  observed_from min_frames previous lap travelled samples [] = none
  observed_from min_frames previous lap travelled samples (f ∷ fs) =
      let travelled' =
        if f.is_on_track && previous.is_on_track
        then add travelled (frame_distance previous f)
        else travelled in
      let samples' = samples + 1 in
      let same = observed_from min_frames f lap travelled' samples' fs in
      let next = observed_from min_frames f f.lap_number zero_float 1 fs in
      if ltb_ℤ lap f.lap_number
      then (if leb_ℤ min_frames (pos samples') && lt zero_float travelled'
          then some travelled'
          else next)
      else same

  unfoldable pub observed_completed_lap_length : List (Frame F) → ℤ → Option F
  observed_completed_lap_length [] min_frames = none
  observed_completed_lap_length (f ∷ fs) min_frames =
      if ltb_ℤ (pos (length (f ∷ fs))) min_frames
      then none
      else observed_from min_frames f f.lap_number zero_float 1 fs

  -- How far the layout's length may be from the observed one.
  abbrev pub allowed : F → CatalogLayout F → F
  allowed tolerance l = mul l.length_meters tolerance

  abbrev pub length_difference : F → CatalogLayout F → F
  length_difference observed l = abs (sub observed l.length_meters)

  unfoldable pub is_candidate : F → F → CatalogTrack F → CatalogLayout F → Bool
  is_candidate observed tolerance t l =
      has_selectable_layout_metadata t l
      && not (le l.length_meters zero_float)
      && not (lt (allowed tolerance l) (length_difference observed l))

  unfoldable pub candidate : F → F → CatalogTrack F → CatalogLayout F → LayoutCandidate F
  candidate observed tolerance t l = record {
    track_id = t.id;
    track_name = t.name;
    layout_id = l.id;
    layout_name = l.name;
    length_meters = l.length_meters;
    difference = length_difference observed l;
    confidence =
        if lt zero_float (allowed tolerance l)
        then add (literal 65 2) (
            mul (literal 20 2)
              (sub (literal 1 0) (div (length_difference observed l) (allowed tolerance l))))
        else literal 85 2;
  }

  unfoldable pub candidates_in_track :
      F → F → CatalogTrack F → List (CatalogLayout F) → List (LayoutCandidate F)
  candidates_in_track observed tolerance t [] = []
  candidates_in_track observed tolerance t (l ∷ ls) =
      let rest = candidates_in_track observed tolerance t ls in
      if is_candidate observed tolerance t l then candidate observed tolerance t l ∷ rest else rest

  unfoldable pub candidates_in : F → F → List (CatalogTrack F) → List (LayoutCandidate F)
  candidates_in observed tolerance [] = []
  candidates_in observed tolerance (t ∷ ts) =
      candidates_in_track observed tolerance t t.layouts ++ candidates_in observed tolerance ts

  unfoldable pub candidate_less : LayoutCandidate F → LayoutCandidate F → Bool
  candidate_less a b =
      if eq a.confidence b.confidence
      then string_lt a.layout_id b.layout_id
      else lt b.confidence a.confidence

  unfoldable pub matching_candidates : Catalog F → F → F → List (LayoutCandidate F)
  matching_candidates c observed tolerance =
      sort_by candidate_less (candidates_in observed tolerance c.tracks)

  abbrev pub evidence_of : String → String → F → LayoutCandidate F → DetectionEvidence F
  evidence_of reason message observed c = record {
    reason = reason;
    message = message;
    track_id = c.track_id;
    layout_id = c.layout_id;
    catalog_meters = c.length_meters;
    observed_meters = observed;
    difference_meters = c.difference;
    confidence = c.confidence;
  }

  -- Those whose confidence is within the margin of the best one's.
  unfoldable pub ambiguous_from : F → F → F → List (LayoutCandidate F) → List (DetectionEvidence F)
  ambiguous_from best observed margin [] = []
  ambiguous_from best observed margin (c ∷ cs) =
      let rest = ambiguous_from best observed margin cs in
      if lt margin (sub best c.confidence)
      then rest
      else evidence_of "ambiguous_length"
          "multiple catalog layouts have similar observed lap length evidence" observed c
        ∷ rest

  unfoldable pub ambiguous_evidence : List (LayoutCandidate F) → F → F → List (DetectionEvidence F)
  ambiguous_evidence [] observed margin = []
  ambiguous_evidence (c ∷ cs) observed margin = ambiguous_from c.confidence observed margin (c ∷ cs)

  abbrev pub first_reason : List (DetectionEvidence F) → List String
  first_reason [] = []
  first_reason (e ∷ es) = e.reason ∷ []

  unfoldable pub fallback_result :
      String → F → F → String → List (DetectionEvidence F) → DetectionResult F
  fallback_result status confidence observed next_action evidence = record {
    status = status;
    track_id = none;
    layout_id = none;
    track_name = none;
    layout_name = none;
    confidence = confidence;
    observed_length_meters = observed;
    reasons = first_reason evidence;
    evidence = evidence;
    next_action = next_action;
    capabilities = none;
  }

  abbrev plain_evidence : String → String → F → DetectionEvidence F
  plain_evidence reason message observed = record {
    reason = reason;
    message = message;
    track_id = "";
    layout_id = "";
    catalog_meters = zero_float;
    observed_meters = observed;
    difference_meters = zero_float;
    confidence = zero_float;
  }

  -- The second candidate is as good as the first, by the margin.
  unfoldable pub is_ambiguous : F → LayoutCandidate F → List (LayoutCandidate F) → Bool
  is_ambiguous margin best [] = false
  is_ambiguous margin best (second ∷ cs) =
      (lt zero_float best.difference || eq second.difference zero_float)
      && le (sub best.confidence second.confidence) margin

  unfoldable pub detected_result : Catalog F → F → LayoutCandidate F → DetectionResult F
  detected_result c observed best = record {
    status = "detected";
    track_id = some best.track_id;
    layout_id = some best.layout_id;
    track_name = some best.track_name;
    layout_name = some best.layout_name;
    confidence = best.confidence;
    observed_length_meters = observed;
    reasons = "length_match" ∷ [];
    evidence =
        evidence_of "length_match"
          "observed completed lap length matched one catalog layout within tolerance" observed best
        ∷ [];
    next_action = "use_detected_catalog_layout";
    capabilities = some (layout_capabilities c best.track_id best.layout_id);
  }

  -- The result for an observed length and the sorted candidates.
  unfoldable pub choose :
      DetectionOptions F → Catalog F → F → List (LayoutCandidate F) → DetectionResult F
  choose o c observed [] =
      fallback_result "unknown" zero_float observed "prompt_manual_track_selection" (
        plain_evidence "no_catalog_match" "observed lap length is outside catalog tolerance"
          observed
        ∷ [])
  choose o c observed (best ∷ others) =
      if is_ambiguous o.ambiguous_score_margin best others
      then fallback_result "ambiguous" zero_float observed "prompt_manual_track_selection"
          (ambiguous_evidence (best ∷ others) observed o.ambiguous_score_margin)
      else if lt best.confidence o.min_detected_confidence
      then fallback_result "low_confidence" best.confidence observed "prompt_manual_track_selection"
          (evidence_of "low_confidence"
              "best catalog layout match is below the minimum detection confidence" observed best
            ∷ [])
      else detected_result c observed best

  -- The result where no lap was completed.
  unfoldable pub pending_result : DetectionOptions F → List (Frame F) → DetectionResult F
  pending_result o frames =
      if ltb_ℤ (pos (length frames)) o.min_completed_lap_frames
      then fallback_result "pending" zero_float zero_float "collect_more_frames" (
          plain_evidence "insufficient_data" "not enough retained frames to detect a completed lap"
            zero_float
          ∷ [])
      else fallback_result "pending" zero_float zero_float "wait_for_completed_lap" (
          plain_evidence "no_completed_lap" "no completed lap was observed in retained frames"
            zero_float
          ∷ [])

  unfoldable pub detect_for :
      DetectionOptions F → List (Frame F) → Catalog F → Option F → DetectionResult F
  detect_for o frames c none = pending_result o frames
  detect_for o frames c (some observed) =
      choose o c observed (matching_candidates c observed o.length_tolerance_ratio)

  unfoldable pub detect_track : List (Frame F) → Catalog F → DetectionOptions F → DetectionResult F
  detect_track frames c options =
      let o = normalize_detection_options options in
      detect_for o frames c (observed_completed_lap_length frames o.min_completed_lap_frames)
