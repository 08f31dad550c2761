-- ===== src/Tracks/Detection/Found.antt =====
-- What a detected layout is: of the layouts that fit the observed length, the surest one.
use mathlib.Core.List.{Perm}
use telemetry_one_backend.Base.{
  String, ◌≡◌, refl, sym, ap, subst, ◌∙◌, true, false, none, some, List, [], ◌∷◌, inl, inr,
  Bool-cases, Option-cases, All, length, ltb_ℤ, pos, arith,
}
use telemetry_one_backend.Base.Float.{Float64, FloatOrder}
use telemetry_one_backend.Base.Sort.Laws.{sort_by-perm, All-sort_by}
use telemetry_one_backend.Base.Sort.Ranked.{IsRank, Ranked, sort_by-Ranked, All-of_sort_by}
use telemetry_one_backend.Telemetry.Frame.{Frame}
use telemetry_one_backend.Tracks.Types.{Catalog}
use telemetry_one_backend.Tracks.Detection.{
  DetectionOptions, DetectionResult, LayoutCandidate, normalize_detection_options,
  observed_completed_lap_length, candidate, candidates_in, candidate_less, matching_candidates,
  is_ambiguous, fallback_result, detected_result, choose, pending_result, detect_for, detect_track,
}
use telemetry_one_backend.Tracks.Detection.Candidates.{
  match_confidence, IsOf, EachFitting, candidates-IsOf, candidates-each, each-candidates,
}

module _ {F : Type 0} ⦃fl : Float64 F⦄ where
  -- The first is at least as sure as the second.
  abbrev pub IsSurer : LayoutCandidate F → LayoutCandidate F → Type 0
  IsSurer a b = fl.le b.confidence a.confidence ≡ true

  -- The best candidate stands out from the others: there is none; or the surest of them is behind by
  -- more than the margin; or the best one has the observed length and the surest other one has not.
  pub data StandsOut (margin : F) (best : LayoutCandidate F) (others : List (LayoutCandidate F))
      : Type 0 where
    alone : others ≡ [] → StandsOut margin best others
    ahead :
        (second : LayoutCandidate F) (rest : List (LayoutCandidate F))
        → others ≡ second ∷ rest
        → All (IsSurer second) rest
        → fl.le (fl.sub best.confidence second.confidence) margin ≡ false
        → StandsOut margin best others
    exact :
        (second : LayoutCandidate F) (rest : List (LayoutCandidate F))
        → others ≡ second ∷ rest
        → All (IsSurer second) rest
        → fl.lt (fl.literal 0 0) best.difference ≡ false
        → fl.eq second.difference (fl.literal 0 0) ≡ false
        → StandsOut margin best others

  -- The result is a layout of the catalog that fits the observed length. No layout that fits is surer,
  -- it is as sure as is asked for, and it stands out from the other candidates.
  pub record IsDetected (o : DetectionOptions F) (c : Catalog F) (observed : F)
      (r : DetectionResult F) : Type 0 where
    pub best : LayoutCandidate F
    pub others : List (LayoutCandidate F)
    pub all : Perm (best ∷ others) (candidates_in observed o.length_tolerance_ratio c.tracks)
    pub there : IsOf observed o.length_tolerance_ratio c.tracks best
    pub status : r.status ≡ "detected"
    pub track_id : r.track_id ≡ some there.track.id
    pub layout_id : r.layout_id ≡ some there.layout.id
    pub confidence : r.confidence ≡ match_confidence observed o.length_tolerance_ratio there.layout
    pub confident : fl.lt r.confidence o.min_detected_confidence ≡ false
    pub surest :
        EachFitting observed o.length_tolerance_ratio
          (λ t l. fl.le (match_confidence observed o.length_tolerance_ratio l) r.confidence ≡ true)
          c.tracks
    pub clear : StandsOut o.ambiguous_score_margin best others

  -- The result is the first candidate, which is not ambiguous and not below the least confidence.
  pub record IsChosen (o : DetectionOptions F) (c : Catalog F) (observed : F)
      (ks : List (LayoutCandidate F)) (r : DetectionResult F) : Type 0 where
    pub best : LayoutCandidate F
    pub others : List (LayoutCandidate F)
    pub first : ks ≡ best ∷ others
    pub clear : is_ambiguous o.ambiguous_score_margin best others ≡ false
    pub confident : fl.lt best.confidence o.min_detected_confidence ≡ false
    pub result : r ≡ detected_result c observed best

  choose-IsChosen :
      (o : DetectionOptions F) (c : Catalog F) (observed : F) (ks : List (LayoutCandidate F))
      (id : String)
      → (choose o c observed ks).layout_id ≡ some id
      → IsChosen o c observed ks (choose o c observed ks)
  unfolding choose fallback_result
  choose-IsChosen o c observed [] id h = cc h
  choose-IsChosen o c observed (best ∷ others) id h =
      elim (Bool-cases (is_ambiguous o.ambiguous_score_margin best others)) [
        | inl unclear ↦ cc (rw unclear at h)
        | inr clear ↦ elim (Bool-cases (fl.lt best.confidence o.min_detected_confidence)) [
          | inl low ↦ cc (rw (clear, low) at h)
          | inr high ↦ record {
            best = best;
            others = others;
            first = refl;
            clear = clear;
            confident = high;
            result = rw (clear, high) refl;
          }
        ]
      ]

  pending_none :
      (o : DetectionOptions F) (frames : List (Frame F))
      → (pending_result o frames).layout_id ≡ none
  unfolding pending_result fallback_result
  pending_none o frames =
      elim (Bool-cases (ltb_ℤ (pos (length frames)) o.min_completed_lap_frames)) [
        | inl short ↦ rw short refl
        | inr long ↦ rw long refl
      ]

  not_ambiguous-StandsOut :
      (margin : F) (best : LayoutCandidate F) (others : List (LayoutCandidate F))
      → Ranked IsSurer others
      → is_ambiguous margin best others ≡ false
      → StandsOut margin best others
  unfolding is_ambiguous
  not_ambiguous-StandsOut margin best [] s h = alone refl
  not_ambiguous-StandsOut margin best (second ∷ rest) s h =
      elim (Bool-cases (fl.le (fl.sub best.confidence second.confidence) margin)) [
        | inr behind ↦ ahead second rest refl s.0 behind
        | inl close ↦
            exact second rest refl s.0 (ground (arith, h, close)) (ground (arith, h, close))
      ]

  module _ ⦃fo : FloatOrder F⦄
      (equal : (a b : F) → fl.eq a b ≡ true → (fl.le a b ≡ true) × (fl.le b a ≡ true)) where
    candidate_less-IsRank :
        IsRank candidate_less (λ (k : LayoutCandidate F). fl.is_nan k.confidence ≡ false) IsSurer
    unfolding candidate_less
    candidate_less-IsRank = record {
      less-R = λ x y p q h. elim (Bool-cases (fl.eq x.confidence y.confidence)) [
        | inl e ↦ (equal x.confidence y.confidence e).1
        | inr e ↦ fo.lt-le y.confidence x.confidence (rw e at h)
      ];
      not_less-R = λ x y p q h. elim (Bool-cases (fl.eq x.confidence y.confidence)) [
        | inl e ↦ (equal x.confidence y.confidence e).0
        | inr e ↦ fo.not_lt-le y.confidence x.confidence q p (rw e at h)
      ];
      trans = λ x y z h k. fo.le_trans z.confidence y.confidence x.confidence k h;
    }

    choose-IsDetected :
        (o : DetectionOptions F) (c : Catalog F) (observed : F) (id : String)
        → EachFitting observed o.length_tolerance_ratio
            (λ t l. fl.is_nan (match_confidence observed o.length_tolerance_ratio l) ≡ false)
            c.tracks
        → (choose o c observed (matching_candidates c observed o.length_tolerance_ratio)).layout_id
          ≡ some id
        → IsDetected o c observed
            (choose o c observed (matching_candidates c observed o.length_tolerance_ratio))
    unfolding matching_candidates candidate detected_result
    choose-IsDetected o c observed id numbers h =
        let tolerance = o.length_tolerance_ratio in
        let found = candidates_in observed tolerance c.tracks in
        let ks = matching_candidates c observed tolerance in
        let p = choose-IsChosen o c observed ks id h in
        let a =
          each-candidates observed tolerance (λ k. fl.is_nan k.confidence ≡ false) c.tracks
            numbers in
        let ranked : Ranked IsSurer (p.best ∷ p.others) =
          subst (Ranked IsSurer) p.first
            (sort_by-Ranked candidate_less _ IsSurer candidate_less-IsRank found a) in
        let there : IsOf observed tolerance c.tracks p.best =
          (subst (All (IsOf observed tolerance c.tracks)) p.first
            (All-sort_by candidate_less _ _ (candidates-IsOf observed tolerance c.tracks))).0 in
        let number : fl.is_nan p.best.confidence ≡ false =
          (subst (All (λ k. fl.is_nan k.confidence ≡ false)) p.first
            (All-sort_by candidate_less _ _ a)).0 in
        let least : All (IsSurer p.best) ks =
          subst (All (IsSurer p.best)) (sym p.first)
            (fo.le_refl p.best.confidence number, ranked.0) in
        let sure : p.best.confidence ≡ match_confidence observed tolerance there.layout =
          ap (λ k. k.confidence) there.made in
        let given : (choose o c observed ks).confidence ≡ p.best.confidence =
          ap (λ r. r.confidence) p.result in
        record {
          best = p.best;
          others = p.others;
          all = subst (λ l. Perm l found) p.first (sort_by-perm candidate_less found);
          there = there;
          status = ap (λ r. r.status) p.result;
          track_id = ap (λ r. r.track_id) p.result ∙ ap (λ k. some k.track_id) there.made;
          layout_id = ap (λ r. r.layout_id) p.result ∙ ap (λ k. some k.layout_id) there.made;
          confidence = given ∙ sure;
          confident =
              subst (λ x. fl.lt x o.min_detected_confidence ≡ false) (sym given) p.confident;
          surest =
              subst
                (λ x.
                  EachFitting observed tolerance
                    (λ t l. fl.le (match_confidence observed tolerance l) x ≡ true) c.tracks)
                (sym given)
                (candidates-each observed tolerance (IsSurer p.best) c.tracks
                  (All-of_sort_by candidate_less (IsSurer p.best) found least));
          clear = not_ambiguous-StandsOut o.ambiguous_score_margin p.best p.others ranked.1 p.clear;
        }

    -- Let the confidence be a number for every layout that fits the observed length: with complete
    -- metadata, and of a positive length within the tolerance. Where a layout is detected, a lap
    -- was completed, of an observed length, and the layout is in the catalog and fits it. No
    -- layout that fits is surer; its confidence is not below the least one asked for; and it
    -- stands out: no other fits, or the surest other one is behind by more than the margin, or has
    -- not the observed length while the detected one has. The laws of `<` and `<=` on numbers are
    -- assumed, and that equal numbers are `<=` each other.
    pub detect_track_lem :
        (frames : List (Frame F)) (c : Catalog F) (options : DetectionOptions F) (id : String)
        → ((observed : F)
            → observed_completed_lap_length frames
                (normalize_detection_options options).min_completed_lap_frames
              ≡ some observed
            → EachFitting observed
                (normalize_detection_options options).length_tolerance_ratio
                (λ t l.
                  fl.is_nan (
                    match_confidence observed
                      (normalize_detection_options options).length_tolerance_ratio
                      l)
                  ≡ false)
                c.tracks)
        → (detect_track frames c options).layout_id ≡ some id
        → let o = normalize_detection_options options in
          (observed : F) × (observed_completed_lap_length frames o.min_completed_lap_frames
            ≡ some observed)
          × IsDetected o c observed (detect_track frames c options)
    unfolding detect_track detect_for
    detect_track_lem frames c options id numbers h =
        let o = normalize_detection_options options in
        elim (Option-cases (observed_completed_lap_length frames o.min_completed_lap_frames)) [
          | inl nothing ↦ cc (rw nothing at h, pending_none o frames)
          | inr (observed, e) ↦ rw e (
            observed,
            refl,
            choose-IsDetected o c observed id (numbers observed e)
                (subst (λ x. (detect_for o frames c x).layout_id ≡ some id) e h),
          )
        ]
