-- ===== src/Corners/Analysis/Throttle.antt =====
-- Where `AnalyzeCorner` says that the throttle is applied again.
use telemetry_one_backend.Base.{
  String, ◌≡◌, refl, Bool, true, false, ◌&&◌, Option, none, some, List, [], ◌∷◌, ◌⊎◌, inl, inr,
  Bool-cases, arith, All, ℤ, ◌++◌, ap,
}
use telemetry_one_backend.Base.Float.{Float64}
use telemetry_one_backend.Tracks.Types.{Corner}
use telemetry_one_backend.Corners.Analysis.{
  AnalysisSample, PointMetric, unavailable_point, distance_at_or_after_apex, reading, reapplied,
  throttle_at, throttle_from,
}

module _ {F : Type 0} ⦃fl : Float64 F⦄ where
  -- The sample at which the throttle was applied again: a sample before it has a reading below the
  -- threshold, and those between the two have no reading.
  pub record IsReapplied (c : Corner F) (threshold : F) (entry : ℤ) (ss : List (AnalysisSample F))
      (m : PointMetric F) : Type 0 where
    pub earlier : List (AnalysisSample F)
    pub released : AnalysisSample F
    pub unread : List (AnalysisSample F)
    pub sample : AnalysisSample F
    pub later : List (AnalysisSample F)
    pub split : ss ≡ earlier ++ released ∷ unread ++ sample ∷ later
    pub low : F
    pub low_read : reading released.throttle ≡ some low
    pub below : fl.lt low threshold ≡ true
    pub silent : All (λ s. reading s.throttle ≡ none) unread
    pub throttle : F
    pub read : reading sample.throttle ≡ some throttle
    pub applied : fl.le threshold throttle ≡ true
    pub past_apex : distance_at_or_after_apex sample.distance_from_start c ≡ true
    pub shown : m ≡ reapplied entry sample

  -- The first sample with a reading is at or above the threshold.
  pub record IsNext (c : Corner F) (threshold : F) (entry : ℤ) (ss : List (AnalysisSample F))
      (m : PointMetric F) : Type 0 where
    unread : List (AnalysisSample F)
    sample : AnalysisSample F
    later : List (AnalysisSample F)
    split : ss ≡ unread ++ sample ∷ later
    silent : All (λ s. reading s.throttle ≡ none) unread
    throttle : F
    read : reading sample.throttle ≡ some throttle
    applied : fl.le threshold throttle ≡ true
    past_apex : distance_at_or_after_apex sample.distance_from_start c ≡ true
    shown : m ≡ reapplied entry sample

  -- What the loop shows of the samples that are left, where the reading before them was below the
  -- threshold or not.
  pub data Shows (c : Corner F) (threshold : F) (entry : ℤ) (below : Bool)
      (ss : List (AnalysisSample F)) (m : PointMetric F) : Type 0 where
    nothing : (reason : String) → m ≡ unavailable_point reason → Shows c threshold entry below ss m
    within : IsReapplied c threshold entry ss m → Shows c threshold entry below ss m
    next : below ≡ true → IsNext c threshold entry ss m → Shows c threshold entry below ss m

  further :
      {c : Corner F} {threshold : F} {entry : ℤ} {ss : List (AnalysisSample F)} {m : PointMetric F}
      (s : AnalysisSample F)
      → IsReapplied c threshold entry ss m
      → IsReapplied c threshold entry (s ∷ ss) m
  further s p = record {
    earlier = s ∷ p.earlier;
    released = p.released;
    unread = p.unread;
    sample = p.sample;
    later = p.later;
    split = ap (λ l. s ∷ l) p.split;
    low = p.low;
    low_read = p.low_read;
    below = p.below;
    silent = p.silent;
    throttle = p.throttle;
    read = p.read;
    applied = p.applied;
    past_apex = p.past_apex;
    shown = p.shown;
  }

  further-IsNext :
      {c : Corner F} {threshold : F} {entry : ℤ} {ss : List (AnalysisSample F)} {m : PointMetric F}
      (s : AnalysisSample F)
      → reading s.throttle ≡ none
      → IsNext c threshold entry ss m
      → IsNext c threshold entry (s ∷ ss) m
  further-IsNext s none_read p = record {
    unread = s ∷ p.unread;
    sample = p.sample;
    later = p.later;
    split = ap (λ l. s ∷ l) p.split;
    silent = (none_read, p.silent);
    throttle = p.throttle;
    read = p.read;
    applied = p.applied;
    past_apex = p.past_apex;
    shown = p.shown;
  }

  next-IsReapplied :
      {c : Corner F} {threshold : F} {entry : ℤ} {ss : List (AnalysisSample F)} {m : PointMetric F}
      (s : AnalysisSample F) (v : F)
      → reading s.throttle ≡ some v
      → fl.lt v threshold ≡ true
      → IsNext c threshold entry ss m
      → IsReapplied c threshold entry (s ∷ ss) m
  next-IsReapplied s v e under p = record {
    earlier = [];
    released = s;
    unread = p.unread;
    sample = p.sample;
    later = p.later;
    split = ap (λ l. s ∷ l) p.split;
    low = v;
    low_read = e;
    below = under;
    silent = p.silent;
    throttle = p.throttle;
    read = p.read;
    applied = p.applied;
    past_apex = p.past_apex;
    shown = p.shown;
  }

  unread-Shows :
      (c : Corner F) (threshold : F) (entry : ℤ) (below : Bool) (s : AnalysisSample F)
      (ss : List (AnalysisSample F)) (m : PointMetric F)
      → reading s.throttle ≡ none
      → Shows c threshold entry below ss m
      → Shows c threshold entry below (s ∷ ss) m
  unread-Shows c threshold entry below s ss m e (nothing reason h) = nothing reason h
  unread-Shows c threshold entry below s ss m e (within p) = within (further s p)
  unread-Shows c threshold entry below s ss m e (next h p) = next h (further-IsNext s e p)

  read-Shows :
      (c : Corner F) (threshold : F) (entry : ℤ) (below : Bool) (s : AnalysisSample F)
      (ss : List (AnalysisSample F)) (m : PointMetric F) (v : F)
      → reading s.throttle ≡ some v
      → Shows c threshold entry (fl.lt v threshold) ss m
      → Shows c threshold entry below (s ∷ ss) m
  read-Shows c threshold entry below s ss m v e (nothing reason h) = nothing reason h
  read-Shows c threshold entry below s ss m v e (within p) = within (further s p)
  read-Shows c threshold entry below s ss m v e (next h p) = within (next-IsReapplied s v e h p)

  throttle_at-Shows :
      (c : Corner F) (threshold : F) (entry : ℤ) (below : Bool) (s : AnalysisSample F)
      (ss : List (AnalysisSample F)) (o : Option F) (passed : PointMetric F)
      (rest : F → PointMetric F)
      → reading s.throttle ≡ o
      → Shows c threshold entry below ss passed
      → ((v : F) → Shows c threshold entry (fl.lt v threshold) ss (rest v))
      → Shows c threshold entry below (s ∷ ss) (throttle_at c threshold entry below s o passed rest)
  unfolding throttle_at
  throttle_at-Shows c threshold entry below s ss none passed rest e p q =
      unread-Shows c threshold entry below s ss passed e p
  throttle_at-Shows c threshold entry below s ss (some v) passed rest e p q =
      let on = read-Shows c threshold entry below s ss (rest v) v e (q v) in
      elim (Bool-cases (distance_at_or_after_apex s.distance_from_start c)) [
        | inr before ↦ rw before on
        | inl past ↦ elim (Bool-cases (below && fl.le threshold v)) [
          | inr other ↦ rw (past, other) on
          | inl again ↦
              rw (past, again)
                (next (ground (arith, again)) (record {
                  unread = [];
                  sample = s;
                  later = ss;
                  split = refl;
                  silent = tt;
                  throttle = v;
                  read = e;
                  applied = ground (arith, again);
                  past_apex = past;
                  shown = refl;
                }))
        ]
      ]

  pub throttle_from-Shows :
      (c : Corner F) (threshold : F) (entry : ℤ) (below has_throttle : Bool)
      (ss : List (AnalysisSample F))
      → Shows c threshold entry below ss (throttle_from c threshold entry below has_throttle ss)
  unfolding throttle_from
  throttle_from-Shows c threshold entry below true [] = nothing "no_throttle_reapplication" refl
  throttle_from-Shows c threshold entry below false [] = nothing "missing_throttle_data" refl
  throttle_from-Shows c threshold entry below has_throttle (s ∷ ss) =
      throttle_at-Shows c threshold entry below s ss (reading s.throttle) _ _ refl
        (throttle_from-Shows c threshold entry below has_throttle ss)
        (λ v. throttle_from-Shows c threshold entry (fl.lt v threshold) true ss)

  -- Where there was no reading before the samples.
  pub Shows-start :
      {c : Corner F} {threshold : F} {entry : ℤ} {ss : List (AnalysisSample F)} {m : PointMetric F}
      → Shows c threshold entry false ss m
      → ((reason : String) × (m ≡ unavailable_point reason)) ⊎ IsReapplied c threshold entry ss m
  Shows-start (nothing reason h) = inl (reason, h)
  Shows-start (within p) = inr p
  Shows-start (next h p) = cc h
