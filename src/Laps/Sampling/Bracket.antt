-- ===== src/Laps/Sampling/Bracket.antt =====
-- The two frames around a distance.
use telemetry_one_backend.Base.{
  ◌≡◌, sym, ap, ◌∙◌, Bool, true, false, ◌&&◌, Option, none, some, List, [], ◌∷◌, inl, inr, ◌⊎◌,
  Bool-cases, arith, All,
}
use telemetry_one_backend.Base.Float.{Float64}
use telemetry_one_backend.Telemetry.Frame.{Frame}
use telemetry_one_backend.Laps.Sampling.{meters, bracket_frames}

and-eq-true : (a b c : Bool) → (a && b && c) ≡ true → (a ≡ true) × (b ≡ true) × (c ≡ true)
and-eq-true a b c = ground arith

module _ {F : Type 0} ⦃fl : Float64 F⦄ where
  open fl use {eq, le, lt}

  -- The distance is at both frames, which are one, or it lies between two frames that are apart.
  abbrev pub IsAround : F → Frame F → Frame F → Type 0
  IsAround distance left right =
      ((left ≡ right) × (eq distance (meters left) ≡ true))
      ⊎ ((le (meters left) distance ≡ true)
          × (le distance (meters right) ≡ true)
          × (lt (meters left) (meters right) ≡ true))

  found-injective :
      {a b c d : Frame F}
      → ◌≡◌ {A = Option (Frame F × Frame F)} (some (a, b)) (some (c, d))
      → (a ≡ c) × (b ≡ d)
  found-injective h = (cc h, cc h)

  -- The frames that `bracketFrames` finds are one frame at the distance, or two frames that are apart,
  -- with the distance between them.
  pub bracket_frames_lem :
      (frames : List (Frame F)) (distance : F) (left right : Frame F)
      → bracket_frames frames distance ≡ some (left, right)
      → IsAround distance left right
  unfolding bracket_frames
  bracket_frames_lem [] distance left right h = cc h
  bracket_frames_lem (f ∷ []) distance left right h = elim (Bool-cases (eq distance (meters f))) [
    | inl at ↦
        let (l, r) = found-injective (rw at at h) in
        inl (sym l ∙ r, ap (λ x. eq distance (meters x)) (sym l) ∙ at)
    | inr off ↦ cc (rw off at h)
  ]
  bracket_frames_lem (f ∷ g ∷ fs) distance left right h =
      elim (Bool-cases (eq distance (meters f))) [
        | inl at ↦
            let (l, r) = found-injective (rw at at h) in
            inl (sym l ∙ r, ap (λ x. eq distance (meters x)) (sym l) ∙ at)
        | inr off ↦
            elim (Bool-cases
              (le (meters f) distance && le distance (meters g) && lt (meters f) (meters g))) [
                | inl inside ↦
                    let (l, r) = found-injective (rw (off, inside) at h) in
                    let (from, to, apart) = and-eq-true _ _ _ inside in
                    inr (
                      ap (λ x. le (meters x) distance) (sym l) ∙ from,
                      ap (λ x. le distance (meters x)) (sym r) ∙ to,
                      ap (λ x. lt (meters x) (meters right)) (sym l)
                          ∙ ap (λ x. lt (meters f) (meters x)) (sym r)
                          ∙ apart,
                    )
                | inr outside ↦
                    bracket_frames_lem (g ∷ fs) distance left right (rw (off, outside) at h)
              ]
      ]

  -- Where `bracketFrames` finds no frames, no frame is at the distance.
  pub bracket_frames-none :
      (frames : List (Frame F)) (distance : F)
      → bracket_frames frames distance ≡ none
      → All (λ f. eq distance (meters f) ≡ false) frames
  unfolding bracket_frames
  bracket_frames-none [] distance h = tt
  bracket_frames-none (f ∷ []) distance h = elim (Bool-cases (eq distance (meters f))) [
    | inl at ↦ cc (rw at at h)
    | inr off ↦ (off, tt)
  ]
  bracket_frames-none (f ∷ g ∷ fs) distance h = elim (Bool-cases (eq distance (meters f))) [
    | inl at ↦ cc (rw at at h)
    | inr off ↦
        elim (Bool-cases
          (le (meters f) distance && le distance (meters g) && lt (meters f) (meters g))) [
            | inl inside ↦ cc (rw (off, inside) at h)
            | inr outside ↦ (off, bracket_frames-none (g ∷ fs) distance (rw (off, outside) at h))
          ]
  ]
