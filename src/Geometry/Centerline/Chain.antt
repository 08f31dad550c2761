-- ===== src/Geometry/Centerline/Chain.antt =====
-- The segments of a centerline are the steps between its points, one behind the other.
use telemetry_one_backend.Base.{
  ◌≡◌, refl, sym, subst, ◌∙◌, ap, Bool, false, ◌&&◌, not, List, [], ◌∷◌, map, if◌then◌else◌, inl,
  inr, Bool-cases, Option-cases,
}
use telemetry_one_backend.Base.Float.{Float64}
use telemetry_one_backend.Base.Result.{Result, ok}
use telemetry_one_backend.Geometry.Centerline.{
  Point, Segment, Centerline, same_point, distance, new_segment, then_segments, segments_from,
  closing_segment, total_after, invalid_point, of_segments, is_empty, GeometryError, new_centerline,
  zero_float,
}

module _ {F : Type 0} ⦃fl : Float64 F⦄ where
  -- Each segment starts at the distance where the one before it ends, and is as long as it is far
  -- from its start to its end, which is not 0.
  abbrev pub IsChain : F → List (Segment F) → F → Type 0
  IsChain total [] end = total ≡ end
  IsChain total (s ∷ ss) end =
      (s.start_meters ≡ total)
      × (s.length ≡ distance s.start s.end)
      × (fl.eq s.length zero_float ≡ false)
      × (s.end_meters ≡ fl.add s.start_meters s.length)
      × IsChain s.end_meters ss end

  -- The steps from one point to the next that are not of length 0, and the step back to the first
  -- point of a line that is closed.
  abbrev pub step : Point F → Point F → List (Point F × Point F) → List (Point F × Point F)
  step p q rest = if fl.eq (distance p q) zero_float then rest else (p, q) ∷ rest

  abbrev pub steps_from : Bool → Point F → Point F → List (Point F) → List (Point F × Point F)
  steps_from closed first p [] = if closed && not (same_point first p) then step p first [] else []
  steps_from closed first p (q ∷ ps) = step p q (steps_from closed first q ps)

  abbrev pub ends : Segment F → Point F × Point F
  ends s = (s.start, s.end)

  -- The segments are a chain from `total` along the steps.
  abbrev IsAlong : F → List (Segment F) → List (Point F × Point F) → Type 0
  IsAlong total ss steps = IsChain total ss (total_after total ss) × (map ends ss ≡ steps)

  then_segments-IsAlong :
      (p q : Point F) (total : F) (rest : F → List (Segment F)) (steps : List (Point F × Point F))
      → ((t : F) → IsAlong t (rest t) steps)
      → IsAlong total (then_segments (new_segment p q total) total rest) (step p q steps)
  unfolding then_segments new_segment total_after
  then_segments-IsAlong p q total rest steps h =
      elim (Bool-cases (fl.eq (distance p q) zero_float)) [
        | inl empty ↦ rw empty (h total)
        | inr long ↦
            let (chain, same) = h (fl.add total (distance p q)) in
            rw long ((refl, refl, long, refl, chain), ap (λ xs. (p, q) ∷ xs) same)
      ]

  nothing-IsAlong : (t : F) → IsAlong t [] []
  unfolding total_after
  nothing-IsAlong t = (refl, refl)

  segments-IsAlong :
      (closed : Bool) (first p : Point F) (ps : List (Point F)) (total : F)
      → IsAlong total
          (segments_from (closing_segment closed first) p ps total)
          (steps_from closed first p ps)
  unfolding segments_from closing_segment
  segments-IsAlong closed first p [] total =
      elim (Bool-cases (closed && not (same_point first p))) [
        | inl back ↦ rw back (then_segments-IsAlong p first total (λ t. []) [] nothing-IsAlong)
        | inr end ↦ rw end (nothing-IsAlong total)
      ]
  segments-IsAlong closed first p (q ∷ ps) total =
      then_segments-IsAlong p q total _ _ (segments-IsAlong closed first q ps)

  -- The steps of a line through the points.
  abbrev pub steps : Bool → List (Point F) → List (Point F × Point F)
  steps closed [] = []
  steps closed (p ∷ ps) = steps_from closed p p ps

  of_ok :
      (c d : Centerline F)
      → ◌≡◌ {A = Result GeometryError (Centerline F)} (ok d) (ok c)
      → fl.le d.total_meters zero_float ≡ false
      → (c.points ≡ d.points)
        × (c.closed ≡ d.closed)
        × (c.segments ≡ d.segments)
        × (c.total_meters ≡ d.total_meters)
        × (fl.le c.total_meters zero_float ≡ false)
  of_ok c d h long =
      let e : c ≡ d = cc h in
      (
        ap (λ x. x.points) e,
        ap (λ x. x.closed) e,
        ap (λ x. x.segments) e,
        ap (λ x. x.total_meters) e,
        ap (λ x. fl.le x.total_meters zero_float) e ∙ long,
      )

  of_segments_lem :
      (points : List (Point F)) (closed : Bool) (segments : List (Segment F)) (c : Centerline F)
      → of_segments points closed segments ≡ ok c
      → (c.points ≡ points)
        × (c.closed ≡ closed)
        × (c.segments ≡ segments)
        × (c.total_meters ≡ total_after zero_float segments)
        × (fl.le c.total_meters zero_float ≡ false)
  unfolding of_segments
  of_segments_lem points closed segments c h =
      elim (Bool-cases (fl.le (total_after zero_float segments) zero_float)) [
        | inl flat ↦ cc (rw flat at h)
        | inr long ↦ elim (Bool-cases (is_empty segments)) [
          | inl none_left ↦ cc (rw (long, none_left) at h)
          | inr some_left ↦ of_ok c _ (rw (long, some_left) at h) long
        ]
      ]

  -- A centerline has a length above 0, and its segments are the steps between its points of a length
  -- other than 0, with the step back where it is closed; they start at 0 and end at its length, each
  -- starts where the one before it ends, and is as long as its ends are apart.
  pub new_centerline_lem :
      (points : List (Point F)) (closed : Bool) (c : Centerline F)
      → new_centerline points closed ≡ ok c
      → (c.points ≡ points)
        × (c.closed ≡ closed)
        × (fl.le c.total_meters zero_float ≡ false)
        × (map ends c.segments ≡ steps closed points)
        × IsChain zero_float c.segments c.total_meters
  unfolding new_centerline
  new_centerline_lem [] closed c h = cc h
  new_centerline_lem (p ∷ []) closed c h = cc h
  new_centerline_lem (p ∷ q ∷ ps) closed c h = elim (Option-cases (invalid_point 0 (p ∷ q ∷ ps))) [
    | inl fine ↦
        let ss = segments_from (closing_segment closed p) p (q ∷ ps) zero_float in
        let (points, same, segments, total, long) = of_segments_lem _ closed ss c (rw fine at h) in
        let (chain, along) = segments-IsAlong closed p p (q ∷ ps) zero_float in
        (
          points,
          same,
          long,
          ap (λ xs. map ends xs) segments ∙ along,
          subst (λ xs. IsChain zero_float xs c.total_meters) (sym segments)
              (subst (λ t. IsChain zero_float ss t) (sym total) chain),
        )
    | inr (i, bad) ↦ cc (rw bad at h)
  ]
