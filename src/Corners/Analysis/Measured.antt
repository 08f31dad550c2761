-- ===== src/Corners/Analysis/Measured.antt =====
-- What `AnalyzeCorner` says of the samples in a corner.
use telemetry_one_backend.Base.{
  ℕ, zero, suc, String, ◌≡◌, refl, subst, Bool, true, false, some, List, [], ◌∷◌, if◌then◌else◌,
  ◌⊎◌, inl, inr, Bool-cases, arith, All, pos, length, get_elem?, get_last?,
}
use telemetry_one_backend.Base.Float.{Float64, FloatOrder}
use telemetry_one_backend.Base.Result.{ok}
use telemetry_one_backend.Tracks.Types.{Corner, is_finite}
use telemetry_one_backend.Corners.Resolver.{is_manual}
use telemetry_one_backend.Corners.Analysis.Throttle.{IsReapplied, throttle_from-Shows, Shows-start}
use telemetry_one_backend.Corners.Analysis.{
  AnalysisSample, AnalysisOptions, Analysis, has_unavailable_metric, exit_sample,
  normalize_analysis_options, available_scalar, unavailable_point, speed_kph, valid_sample,
  valid_corner_range, is_within, samples_in, slowest, throttle_reapplication_metric, measured,
  with_status, analyze_samples, analyze_corner,
}

module _ {F : Type 0} ⦃fl : Float64 F⦄ where
  abbrev HasNumber : AnalysisSample F → Type 0
  HasNumber s = fl.is_nan s.speed_mps ≡ false

  within-HasNumber :
      (c : Corner F) (length_meters : F) (closed : Bool) (s : AnalysisSample F)
      → is_within c length_meters closed s ≡ true
      → HasNumber s
  unfolding is_within valid_sample is_finite
  within-HasNumber c length_meters closed s h = ground arith

  samples_in-HasNumber :
      (c : Corner F) (length_meters : F) (closed : Bool) (ss : List (AnalysisSample F))
      → All HasNumber (samples_in c length_meters closed ss)
  unfolding samples_in
  samples_in-HasNumber c length_meters closed [] = tt
  samples_in-HasNumber c length_meters closed (s ∷ ss) =
      elim (Bool-cases (is_within c length_meters closed s)) [
        | inl here ↦ rw here (
          within-HasNumber c length_meters closed s here,
          samples_in-HasNumber c length_meters closed ss,
        )
        | inr other ↦ rw other (samples_in-HasNumber c length_meters closed ss)
      ]

  -- A sample of the list that no other one of it is slower than.
  pub record IsSlowest (ss : List (AnalysisSample F)) (least : AnalysisSample F) : Type 0 where
    pub index : ℕ
    pub there : get_elem? ss index ≡ some least
    pub least_of : All (λ s. fl.le least.speed_mps s.speed_mps ≡ true) ss

  put_second :
      (first second found : AnalysisSample F) (ss : List (AnalysisSample F)) (i : ℕ)
      → get_elem? (first ∷ ss) i ≡ some found
      → (j : ℕ) × (get_elem? (first ∷ second ∷ ss) j ≡ some found)
  put_second first second found ss zero h = (zero, h)
  put_second first second found ss (suc i) h = (suc (suc i), h)

  module _ ⦃fo : FloatOrder F⦄ where
    slowest-IsSlowest :
        (least : AnalysisSample F) (ss : List (AnalysisSample F))
        → HasNumber least
        → All HasNumber ss
        → IsSlowest (least ∷ ss) (slowest least ss)
    unfolding slowest
    slowest-IsSlowest least [] n ns = record {
      index = zero;
      there = refl;
      least_of = (fo.le_refl least.speed_mps n, tt);
    }
    slowest-IsSlowest least (s ∷ ss) n (m, ns) =
        elim (Bool-cases (fl.lt s.speed_mps least.speed_mps)) [
          | inl slower ↦
              let r = slowest-IsSlowest s ss m ns in
              let below =
                fo.le_trans _ s.speed_mps least.speed_mps r.least_of.0
                  (fo.lt-le s.speed_mps least.speed_mps slower) in
              rw slower
                (record { index = suc r.index; there = r.there; least_of = (below, r.least_of) })
          | inr faster ↦
              let r = slowest-IsSlowest least ss n ns in
              let (index, there) = put_second least s (slowest least ss) ss r.index r.there in
              let below =
                fo.le_trans _ least.speed_mps s.speed_mps r.least_of.0
                  (fo.not_lt-le s.speed_mps least.speed_mps m n faster) in
              rw faster (record {
                index = index;
                there = there;
                least_of = (r.least_of.0, (below, r.least_of.1));
              })
        ]

  nothing_inside :
      (c : Corner F) (length_meters : F) (closed : Bool) {first : AnalysisSample F}
      {others : List (AnalysisSample F)}
      → samples_in c length_meters closed [] ≡ first ∷ others
      → ⊥
  unfolding samples_in
  nothing_inside c length_meters closed h = cc h

  exit_sample-last :
      (s : AnalysisSample F) (ss : List (AnalysisSample F))
      → get_last? (s ∷ ss) ≡ some (exit_sample s ss)
  unfolding exit_sample
  exit_sample-last s [] = refl
  exit_sample-last s (t ∷ ts) = exit_sample-last t ts

  -- The figures of an analysis, read off the samples in the corner.
  pub record IsMeasured (c : Corner F) (threshold : F) (first : AnalysisSample F)
      (others : List (AnalysisSample F)) (a : Analysis F) : Type 0 where
    pub about : a.corner_id ≡ c.id
    pub count : a.sample_count ≡ pos (length (first ∷ others))
    pub entry : a.entry_speed_kph ≡ available_scalar (speed_kph first.speed_mps)
    pub last : AnalysisSample F
    pub last_there : get_last? (first ∷ others) ≡ some last
    pub exit : a.exit_speed_kph ≡ available_scalar (speed_kph last.speed_mps)
    pub least : AnalysisSample F
    pub slowest_there : IsSlowest (first ∷ others) least
    pub minimum : a.minimum_speed_kph ≡ available_scalar (speed_kph least.speed_mps)
    pub throttle :
        ((reason : String) × (a.first_throttle_reapplication ≡ unavailable_point reason))
        ⊎ IsReapplied c threshold first.timestamp_unix_ms
            (first ∷ others)
            a.first_throttle_reapplication
    pub status : a.status ≡ (if has_unavailable_metric a then "partial" else "complete")

  module _ ⦃fo : FloatOrder F⦄ where
    with_status-IsMeasured :
        (c : Corner F) (o : AnalysisOptions F) (first : AnalysisSample F)
        (others : List (AnalysisSample F))
        → HasNumber first
        → All HasNumber others
        → IsMeasured c o.throttle_applied_threshold first others
            (with_status (measured c o first others))
    unfolding with_status measured has_unavailable_metric throttle_reapplication_metric
    with_status-IsMeasured c o first others n ns =
        let slow = slowest-IsSlowest first others n ns in
        let again = Shows-start (
          throttle_from-Shows c o.throttle_applied_threshold first.timestamp_unix_ms false false
            (first ∷ others)) in
        elim (Bool-cases (has_unavailable_metric (measured c o first others))) [
          | inl lacks ↦ rw lacks (record {
            about = refl;
            count = refl;
            entry = refl;
            last = exit_sample first others;
            last_there = exit_sample-last first others;
            exit = refl;
            least = slowest first others;
            slowest_there = slow;
            minimum = refl;
            throttle = again;
            status = rw lacks refl;
          })
          | inr has ↦ rw has (record {
            about = refl;
            count = refl;
            entry = refl;
            last = exit_sample first others;
            last_there = exit_sample-last first others;
            exit = refl;
            least = slowest first others;
            slowest_there = slow;
            minimum = refl;
            throttle = again;
            status = rw has refl;
          })
        ]

    -- Of a manual corner with a valid range on a layout with a length, `AnalyzeCorner` measures the
    -- samples in the corner, where there are any: their number, the speeds of the first, the last and
    -- a slowest one of them, a sample past the apex at which the throttle is applied again, the reading
    -- before it having been below the threshold, if any is shown, and whether any figure is missing.
    pub analyze_corner_lem :
        (c : Corner F) (ss : List (AnalysisSample F)) (length_meters : F) (closed : Bool)
        (o : AnalysisOptions F) (first : AnalysisSample F) (others : List (AnalysisSample F))
        → fl.le length_meters (fl.literal 0 0) ≡ false
        → is_manual c ≡ true
        → valid_corner_range c length_meters ≡ true
        → samples_in c length_meters closed ss ≡ first ∷ others
        → (a : Analysis F) × (analyze_corner c ss length_meters closed o ≡ ok a)
          × IsMeasured c (normalize_analysis_options o).throttle_applied_threshold first others a
    unfolding analyze_corner analyze_samples
    analyze_corner_lem c [] length_meters closed o first others long manual range inside =
        absurd (nothing_inside c length_meters closed inside)
    analyze_corner_lem c (s ∷ ss) length_meters closed o first others long manual range inside =
        let (n, ns) =
          subst (All HasNumber) inside (samples_in-HasNumber c length_meters closed (s ∷ ss)) in
        (
          with_status (measured c (normalize_analysis_options o) first others),
          rw (long, manual, range, inside) refl,
          with_status-IsMeasured c (normalize_analysis_options o) first others n ns,
        )
