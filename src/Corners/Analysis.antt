-- ===== src/Corners/Analysis.antt =====
-- internal/corners/analysis.go: what the samples of a lap show of a corner.
pub mod Measured
pub mod Throttle
use telemetry_one_backend.Base.{
  String, Bool, true, false, ◌&&◌, ◌||◌, not, Option, none, some, List, [], ◌∷◌, if◌then◌else◌,
  ◌==◌, string_eq, ℤ, pos, ltb_ℤ, sub64, length,
}
use telemetry_one_backend.Base.Float.{Float64}
use telemetry_one_backend.Base.Result.{Result, ok, err}
use telemetry_one_backend.Tracks.Types.{Corner, is_finite}
use telemetry_one_backend.Corners.Resolver.{is_manual, normalize_distance, contains_distance}

pub data AnalysisError : Type 0 where
  invalid_analysis_length : AnalysisError

pub record AnalysisSample (F : Type 0) : Type 0 where
  pub timestamp_unix_ms : ℤ
  pub distance_from_start : F
  pub progress : F
  pub speed_mps : F
  pub throttle : Option F
  pub brake : Option F

pub record AnalysisOptions (F : Type 0) : Type 0 where
  pub brake_applied_threshold : F
  pub throttle_applied_threshold : F

pub record ScalarMetric (F : Type 0) : Type 0 where
  pub status : String
  pub reason : String
  pub value : F

pub record PointMetric (F : Type 0) : Type 0 where
  pub status : String
  pub reason : String
  pub distance_from_start : F
  pub timestamp_unix_ms : ℤ
  pub time_offset_ms : ℤ

pub record Analysis (F : Type 0) : Type 0 where
  pub status : String
  pub reason : String
  pub corner_id : String
  pub corner_name : String
  pub number : ℤ
  pub sample_count : ℤ
  pub entry_speed_kph : ScalarMetric F
  pub minimum_speed_kph : ScalarMetric F
  pub exit_speed_kph : ScalarMetric F
  pub max_brake_percent : ScalarMetric F
  pub first_throttle_reapplication : PointMetric F
  pub exit_acceleration_delta_kph : ScalarMetric F

module _ {F : Type 0} where
  unfoldable pub has_unavailable_metric : Analysis F → Bool
  has_unavailable_metric a =
      a.entry_speed_kph.status == "unavailable"
      || a.minimum_speed_kph.status == "unavailable"
      || a.exit_speed_kph.status == "unavailable"
      || a.max_brake_percent.status == "unavailable"
      || a.first_throttle_reapplication.status == "unavailable"
      || a.exit_acceleration_delta_kph.status == "unavailable"

  -- The last of the samples after the first one.
  unfoldable pub exit_sample : AnalysisSample F → List (AnalysisSample F) → AnalysisSample F
  exit_sample s [] = s
  exit_sample s (t ∷ ts) = exit_sample t ts

module _ {F : Type 0} ⦃fl : Float64 F⦄ where
  open fl use {literal, sub, mul, lt, le, eq}

  unfoldable pub default_analysis_options : AnalysisOptions F
  default_analysis_options = record {
    brake_applied_threshold = literal 5 2;
    throttle_applied_threshold = literal 5 2;
  }

  abbrev pub replace_threshold : F → F → F
  replace_threshold value default_value =
      if le value (literal 0 0) || lt (literal 1 0) value || not (is_finite value)
      then default_value
      else value

  unfoldable pub normalize_analysis_options : AnalysisOptions F → AnalysisOptions F
  normalize_analysis_options o =
      let d = default_analysis_options in
      record {
        brake_applied_threshold =
            replace_threshold o.brake_applied_threshold d.brake_applied_threshold;
        throttle_applied_threshold =
            replace_threshold o.throttle_applied_threshold d.throttle_applied_threshold;
      }

  unfoldable pub available_scalar : F → ScalarMetric F
  available_scalar value = record { status = "available"; reason = ""; value = value }

  unfoldable pub unavailable_scalar : String → ScalarMetric F
  unavailable_scalar reason = record {
    status = "unavailable";
    reason = reason;
    value = literal 0 0;
  }

  unfoldable pub unavailable_point : String → PointMetric F
  unavailable_point reason = record {
    status = "unavailable";
    reason = reason;
    distance_from_start = literal 0 0;
    timestamp_unix_ms = pos 0;
    time_offset_ms = pos 0;
  }

  unfoldable pub speed_kph : F → F
  speed_kph speed_mps = mul speed_mps (literal 36 1)

  unfoldable pub valid_sample : AnalysisSample F → Bool
  valid_sample s =
      is_finite s.distance_from_start
      && is_finite s.progress
      && is_finite s.speed_mps
      && le (literal 0 0) s.speed_mps

  unfoldable pub valid_corner_range : Corner F → F → Bool
  valid_corner_range c length_meters =
      if not (is_finite c.start_meters)
        || not (is_finite c.apex_meters)
        || not (is_finite c.end_meters)
      then false
      else if lt c.start_meters (literal 0 0)
          || lt c.apex_meters (literal 0 0)
          || lt c.end_meters (literal 0 0)
          || lt length_meters c.start_meters
          || lt length_meters c.apex_meters
          || lt length_meters c.end_meters
      then false
      else if lt c.start_meters c.end_meters
      then lt c.start_meters c.apex_meters && lt c.apex_meters c.end_meters
      else if eq c.start_meters c.end_meters
      then false
      else le c.start_meters c.apex_meters || lt c.apex_meters c.end_meters

  unfoldable pub distance_at_or_after_apex : F → Corner F → Bool
  distance_at_or_after_apex distance c =
      if lt c.start_meters c.end_meters
      then le c.apex_meters distance
      else if le c.start_meters c.apex_meters
      then le c.apex_meters distance || lt distance c.end_meters
      else lt distance c.end_meters && le c.apex_meters distance

  unfoldable pub unavailable_analysis : Corner F → String → Analysis F
  unavailable_analysis c reason = record {
    status = "unavailable";
    reason = reason;
    corner_id = c.id;
    corner_name = c.name;
    number = c.number;
    sample_count = pos 0;
    entry_speed_kph = unavailable_scalar reason;
    minimum_speed_kph = unavailable_scalar reason;
    exit_speed_kph = unavailable_scalar reason;
    max_brake_percent = unavailable_scalar reason;
    first_throttle_reapplication = unavailable_point reason;
    exit_acceleration_delta_kph = unavailable_scalar reason;
  }

  -- A sample at its place on the layout.
  abbrev pub placed : F → Bool → AnalysisSample F → AnalysisSample F
  placed length_meters closed s = record s {
    distance_from_start =
        if closed
        then normalize_distance s.distance_from_start length_meters
        else s.distance_from_start;
  }

  unfoldable pub is_within : Corner F → F → Bool → AnalysisSample F → Bool
  is_within c length_meters closed s =
      valid_sample s
      && contains_distance c (placed length_meters closed s).distance_from_start closed

  unfoldable pub samples_in :
      Corner F → F → Bool → List (AnalysisSample F) → List (AnalysisSample F)
  samples_in c length_meters closed [] = []
  samples_in c length_meters closed (s ∷ ss) =
      let rest = samples_in c length_meters closed ss in
      if is_within c length_meters closed s then placed length_meters closed s ∷ rest else rest

  -- The slowest sample, the first of those as slow.
  unfoldable pub slowest : AnalysisSample F → List (AnalysisSample F) → AnalysisSample F
  slowest least [] = least
  slowest least (s ∷ ss) = slowest (if lt s.speed_mps least.speed_mps then s else least) ss

  -- A reading that is there and finite.
  abbrev pub reading : Option F → Option F
  reading none = none
  reading (some v) = if is_finite v then some v else none

  abbrev pub max_brake_with : F → Option F → F
  max_brake_with most none = most
  max_brake_with most (some v) = if lt most v then v else most

  abbrev pub is_reading : Option F → Bool
  is_reading none = false
  is_reading (some v) = true

  unfoldable pub max_brake_from : Bool → F → List (AnalysisSample F) → ScalarMetric F
  max_brake_from has_brake most [] =
      if has_brake
      then available_scalar (mul most (literal 100 0))
      else unavailable_scalar "missing_brake_data"
  max_brake_from has_brake most (s ∷ ss) =
      let r = reading s.brake in
      max_brake_from (has_brake || is_reading r) (max_brake_with most r) ss

  unfoldable pub max_brake_metric : List (AnalysisSample F) → ScalarMetric F
  max_brake_metric samples = max_brake_from false (literal 0 0) samples

  abbrev pub reapplied : ℤ → AnalysisSample F → PointMetric F
  reapplied entry s = record {
    status = "available";
    reason = "";
    distance_from_start = s.distance_from_start;
    timestamp_unix_ms = s.timestamp_unix_ms;
    time_offset_ms = sub64 s.timestamp_unix_ms entry;
  }

  -- One sample of the loop, with its reading, and how the loop goes on without it or after it.
  unfoldable pub throttle_at :
      Corner F
      → F
      → ℤ
      → Bool
      → AnalysisSample F
      → Option F
      → PointMetric F
      → (F → PointMetric F)
      → PointMetric F
  throttle_at c threshold entry previous_below s none passed rest = passed
  throttle_at c threshold entry previous_below s (some v) passed rest =
      if not (distance_at_or_after_apex s.distance_from_start c)
      then rest v
      else if previous_below && le threshold v
      then reapplied entry s
      else rest v

  -- The loop over the samples: whether the throttle before was below the threshold, and whether any
  -- was read.
  unfoldable pub throttle_from :
      Corner F → F → ℤ → Bool → Bool → List (AnalysisSample F) → PointMetric F
  throttle_from c threshold entry previous_below has_throttle [] =
      if has_throttle
      then unavailable_point "no_throttle_reapplication"
      else unavailable_point "missing_throttle_data"
  throttle_from c threshold entry previous_below has_throttle (s ∷ ss) =
      throttle_at c threshold entry previous_below s (reading s.throttle)
        (throttle_from c threshold entry previous_below has_throttle ss)
        (λ v. throttle_from c threshold entry (lt v threshold) true ss)

  unfoldable pub throttle_reapplication_metric :
      AnalysisSample F → List (AnalysisSample F) → Corner F → F → PointMetric F
  throttle_reapplication_metric first others c threshold =
      throttle_from c threshold first.timestamp_unix_ms false false (first ∷ others)

  unfoldable pub exit_acceleration_metric :
      AnalysisSample F → List (AnalysisSample F) → AnalysisSample F → ScalarMetric F
  exit_acceleration_metric first [] least = unavailable_scalar "insufficient_samples"
  exit_acceleration_metric first (s ∷ ss) least =
      let exit = exit_sample s ss in
      if ltb_ℤ exit.timestamp_unix_ms least.timestamp_unix_ms
      then unavailable_scalar "acceleration_not_derived"
      else available_scalar (speed_kph (sub exit.speed_mps least.speed_mps))

  -- The analysis of the samples in the corner, before its status is set.
  unfoldable pub measured :
      Corner F → AnalysisOptions F → AnalysisSample F → List (AnalysisSample F) → Analysis F
  measured c o first others =
      let least = slowest first others in
      record {
        status = "complete";
        reason = "";
        corner_id = c.id;
        corner_name = c.name;
        number = c.number;
        sample_count = pos (length (first ∷ others));
        entry_speed_kph = available_scalar (speed_kph first.speed_mps);
        minimum_speed_kph = available_scalar (speed_kph least.speed_mps);
        exit_speed_kph = available_scalar (speed_kph (exit_sample first others).speed_mps);
        max_brake_percent = max_brake_metric (first ∷ others);
        first_throttle_reapplication =
            throttle_reapplication_metric first others c o.throttle_applied_threshold;
        exit_acceleration_delta_kph = exit_acceleration_metric first others least;
      }

  unfoldable pub with_status : Analysis F → Analysis F
  with_status a = if has_unavailable_metric a then record a { status = "partial" } else a

  unfoldable pub analyze_samples :
      Corner F → AnalysisOptions F → List (AnalysisSample F) → Analysis F
  analyze_samples c o [] = unavailable_analysis c "no_samples_in_corner"
  analyze_samples c o (first ∷ others) = with_status (measured c o first others)

  abbrev is_empty : List (AnalysisSample F) → Bool
  is_empty [] = true
  is_empty (s ∷ ss) = false

  unfoldable pub analyze_corner :
      Corner F
      → List (AnalysisSample F)
      → F
      → Bool
      → AnalysisOptions F
      → Result AnalysisError (Analysis F)
  analyze_corner c samples length_meters closed options =
      if le length_meters (literal 0 0)
      then err invalid_analysis_length
      else if not (is_manual c)
      then ok (unavailable_analysis c "unsupported_corner_definition")
      else if not (valid_corner_range c length_meters)
      then ok (unavailable_analysis c "invalid_corner_range")
      else if is_empty samples
      then ok (unavailable_analysis c "no_samples")
      else ok (
          analyze_samples c (normalize_analysis_options options)
            (samples_in c length_meters closed samples))
