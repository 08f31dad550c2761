-- ===== src/Telemetry/WellFormed.antt =====
-- What a batch must look like to be taken whole, and that `Normalize` keeps just such frames.
use telemetry_one_backend.Base.{
  ℕ, ◌≡◌, refl, ◌↔◌, Option, none, some, List, [], ◌∷◌, ◌++◌, arith, int_eq, eqb_ℤ_iff, ◌≤ℤ◌, ◌<ℤ◌,
  get_last?, last_from, ◌⊎◌, inl, inr, Option-cases,
}
use telemetry_one_backend.Base.Float.{Float64}
use telemetry_one_backend.Base.Result.{Result, ok, err, first_error}
use telemetry_one_backend.Telemetry.Rejection.{RejectionError, reject}
use telemetry_one_backend.Telemetry.Frame.{Frame, normalize}
use telemetry_one_backend.Telemetry.Ranges.{IsNormalized, normalize_iff}
use telemetry_one_backend.Telemetry.Batch.{
  NormalizeResult, at_index, consistency_checks, validate_batch_consistency, normalize_frame,
}

module _ {F : Type 0} where
  -- `f` may stand after `last`: time grows, laps do not fall, and neither does the lap's clock.
  pub record Follows (last f : Frame F) : Type 0 where
    pub later : last.timestamp_unix_ms <ℤ f.timestamp_unix_ms
    pub laps : last.lap_number ≤ℤ f.lap_number
    pub clock : f.lap_number ≡ last.lap_number → last.current_lap_ms ≤ℤ f.current_lap_ms

  abbrev pub FollowsLast : Option (Frame F) → Frame F → Type 0
  FollowsLast none f = Unit
  FollowsLast (some last) f = Follows last f

module _ {F : Type 0} ⦃fl : Float64 F⦄ where
  -- Every frame is in range and follows the one before it, the first one `last`.
  abbrev pub IsWellFormed : Option (Frame F) → List (Frame F) → Type 0
  IsWellFormed last [] = Unit
  IsWellFormed last (f ∷ fs) = IsNormalized f × FollowsLast last f × IsWellFormed (some f) fs

  consistency_iff :
      (last f : Frame F) (i : ℕ)
      → (first_error (consistency_checks last f i) ≡ none) ↔ Follows last f
  unfolding consistency_checks first_error
  consistency_iff last f i = (
    λ h. record { later = ground arith; laps = ground arith; clock = λ e. ground arith },
    λ v. ground (arith, v.clock, eqb_ℤ_iff f.lap_number last.lap_number),
  )

  pub validate_batch_consistency_iff :
      (previous : List (Frame F)) (f : Frame F) (i : ℕ)
      → (validate_batch_consistency previous f i ≡ none) ↔ FollowsLast (get_last? previous) f
  unfolding validate_batch_consistency
  validate_batch_consistency_iff previous f i = elim (Option-cases (get_last? previous)) [
    | inl e ↦ rw (e, validate_batch_consistency) (λ h. tt, λ h. refl)
    | inr (last, e) ↦ rw (e, validate_batch_consistency) (consistency_iff last f i)
  ]

  pub IsWellFormed-append :
      (last : Option (Frame F)) (xs : List (Frame F)) (f : Frame F)
      → IsWellFormed last xs
      → IsNormalized f
      → FollowsLast (last_from last xs) f
      → IsWellFormed last (xs ++ f ∷ [])
  IsWellFormed-append last [] f w n v = (n, v, tt)
  IsWellFormed-append last (x ∷ xs) f w n v = (w.0, w.1, IsWellFormed-append (some x) xs f w.2 n v)

  -- What one round of the loop does: keep the frame, or refuse it under its index.
  abbrev pub Kept : ℕ → Frame F → NormalizeResult F → Type 0
  Kept i f r =
      IsNormalized f
      × FollowsLast (get_last? r.frames) f
      × (normalize_frame i f r ≡ record r { frames = r.frames ++ f ∷ [] })

  abbrev pub Refused : ℕ → Frame F → NormalizeResult F → Type 0
  Refused i f r =
      (e : RejectionError) × (e.frame_index ≡ some i)
      × (normalize_frame i f r ≡ record r { rejections = r.rejections ++ e ∷ [] })

  consistency_index :
      (last f : Frame F) (i : ℕ) (e : RejectionError)
      → first_error (consistency_checks last f i) ≡ some e
      → e.frame_index ≡ some i
  unfolding consistency_checks first_error reject
  consistency_index last f i e h = ground arith

  validate_batch_consistency_index :
      (previous : List (Frame F)) (f : Frame F) (i : ℕ) (e : RejectionError)
      → validate_batch_consistency previous f i ≡ some e
      → e.frame_index ≡ some i
  unfolding validate_batch_consistency
  validate_batch_consistency_index previous f i e h = elim (Option-cases (get_last? previous)) [
    | inl n ↦ cc (rw (n, validate_batch_consistency) at h)
    | inr (last, l) ↦ consistency_index last f i e (rw (l, validate_batch_consistency) at h)
  ]

  Result-cases :
      (r : Result RejectionError (Frame F))
      → ((e : RejectionError) × (r ≡ err e)) ⊎ ((g : Frame F) × (r ≡ ok g))
  Result-cases (err e) = inl (e, refl)
  Result-cases (ok g) = inr (g, refl)

  pub normalize_frame-cases :
      (i : ℕ) (f : Frame F) (r : NormalizeResult F) → Kept i f r ⊎ Refused i f r
  unfolding normalize_frame at_index
  normalize_frame-cases i f r = elim (Result-cases (normalize f)) [
    | inl (e, n) ↦ inr (at_index i e, refl, rw (n, normalize_frame) refl)
    | inr (g, n) ↦
        let (same, range) = (normalize_iff f g).0 n in
        let n' : normalize f ≡ ok f = (normalize_iff f f).1 (refl, range) in
        elim (Option-cases (validate_batch_consistency r.frames f i)) [
          | inl c ↦ inl (
            range,
            (validate_batch_consistency_iff r.frames f i).0 c,
            rw (n', c, normalize_frame) refl,
          )
          | inr (e, c) ↦ inr (
            e,
            validate_batch_consistency_index r.frames f i e c,
            rw (n', c, normalize_frame) refl,
          )
        ]
  ]

  pub normalize_frame_of_good :
      (i : ℕ) (f : Frame F) (r : NormalizeResult F)
      → IsNormalized f
      → FollowsLast (get_last? r.frames) f
      → normalize_frame i f r ≡ record r { frames = r.frames ++ f ∷ [] }
  unfolding normalize_frame
  normalize_frame_of_good i f r range follows =
      let n : normalize f ≡ ok f = (normalize_iff f f).1 (refl, range) in
      rw (n, (validate_batch_consistency_iff r.frames f i).1 follows, normalize_frame)
