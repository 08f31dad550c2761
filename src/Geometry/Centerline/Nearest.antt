-- ===== src/Geometry/Centerline/Nearest.antt =====
-- `Project` finds the nearest place on the line.
use telemetry_one_backend.Base.{
  ℕ, zero, suc, ◌+◌, ◌≡◌, refl, sym, subst, ap, ◌∙◌, Bool, true, false, some, List, [], ◌∷◌,
  if◌then◌else◌, inl, inr, ◌⊎◌, Bool-cases, All, All-imp, get_elem?, arith,
}
use telemetry_one_backend.Base.Float.{Float64, FloatOrder}
use telemetry_one_backend.Geometry.Centerline.{
  Point, Segment, Centerline, Projection, distance, project_on_segment, on_segment, nearest,
  no_projection, project,
}

zero_plus : (j : ℕ) → 0 + j ≡ j
zero_plus j = omega arith

plus_zero : (i : ℕ) → i ≡ i + zero
plus_zero i = omega arith

module _ {F : Type 0} ⦃fl : Float64 F⦄ ⦃order : FloatOrder F⦄ where
  open fl use {le, is_nan, infinity}
  open order use {le_refl, le_trans, le_total, infinity_number}

  -- How far the point is from a segment.
  abbrev pub gap : Point F → Segment F → F
  gap point s = distance point (project_on_segment point s).1

  on_segment-gap :
      (c : Centerline F) (point : Point F) (i : ℕ) (s : Segment F)
      → (on_segment c point i s).off_centerline_meters ≡ gap point s
  unfolding on_segment
  on_segment-gap c point i s = refl

  -- Among the segments, which are counted from `i`, stands the one that the projection lies on.
  abbrev IsOn : Centerline F → Point F → ℕ → List (Segment F) → Projection F → Type 0
  IsOn c point i ss r =
      (j : ℕ) × (s : Segment F) × (get_elem? ss j ≡ some s) × (r ≡ on_segment c point (i + j) s)

  IsOn-cons :
      (c : Centerline F) (point : Point F) (i : ℕ) (s : Segment F) (ss : List (Segment F))
      (r : Projection F)
      → IsOn c point (suc i) ss r
      → IsOn c point i (s ∷ ss) r
  IsOn-cons c point i s ss r (j, t, found, same) =
      let e : suc i + j ≡ i + suc j = omega arith in
      (suc j, t, found, same ∙ ap (λ k. on_segment c point k t) e)

  -- `r` is `best` or lies on one of the segments, and is not farther than `best` or any of them.
  abbrev IsNearest :
      Centerline F → Point F → Projection F → ℕ → List (Segment F) → Projection F → Type 0
  IsNearest c point best i ss r =
      ((r ≡ best) ⊎ IsOn c point i ss r)
      × (le r.off_centerline_meters best.off_centerline_meters ≡ true)
      × All (λ s. le r.off_centerline_meters (gap point s) ≡ true) ss

  place-cons :
      (c : Centerline F) (point : Point F) (best : Projection F) (i : ℕ) (s : Segment F)
      (ss : List (Segment F)) (r : Projection F)
      → ((r ≡ best) ⊎ IsOn c point (suc i) ss r)
      → (r ≡ best) ⊎ IsOn c point i (s ∷ ss) r
  place-cons c point best i s ss r (inl same) = inl same
  place-cons c point best i s ss r (inr on) = inr (IsOn-cons c point i s ss r on)

  -- A segment that is not nearer than the best place is passed over.
  keep-IsNearest :
      (c : Centerline F) (point : Point F) (best : Projection F) (i : ℕ) (s : Segment F)
      (ss : List (Segment F)) (r : Projection F)
      → le best.off_centerline_meters (gap point s) ≡ true
      → IsNearest c point best (suc i) ss r
      → IsNearest c point best i (s ∷ ss) r
  keep-IsNearest c point best i s ss r farther (place, below, all) =
      (place-cons c point best i s ss r place, below, (le_trans _ _ _ below farther, all))

  -- A nearer segment has the best place so far.
  take-IsNearest :
      (c : Centerline F) (point : Point F) (best : Projection F) (i : ℕ) (s : Segment F)
      (ss : List (Segment F)) (r : Projection F)
      → le (gap point s) best.off_centerline_meters ≡ true
      → IsNearest c point (on_segment c point i s) (suc i) ss r
      → IsNearest c point best i (s ∷ ss) r
  unfolding on_segment
  take-IsNearest c point best i s ss r nearer (place, below, all) =
      let here = on_segment c point i s in
      (
        elim place [
          | inl same ↦ inr (zero, s, refl, same ∙ ap (λ k. on_segment c point k s) (plus_zero i))
          | inr on ↦ inr (IsOn-cons c point i s ss r on)
        ],
        le_trans _ _ _ below nearer,
        (below, all),
      )

  nearest-IsNearest :
      (c : Centerline F) (point : Point F) (best : Projection F) (i : ℕ) (ss : List (Segment F))
      → is_nan best.off_centerline_meters ≡ false
      → All (λ s. is_nan (gap point s) ≡ false) ss
      → IsNearest c point best i ss (nearest c point best i ss)
  unfolding nearest on_segment
  nearest-IsNearest c point best i [] number numbers = (inl refl, le_refl _ number, tt)
  nearest-IsNearest c point best i (s ∷ ss) number numbers =
      let here = on_segment c point i s in
      let goal = λ (b : Bool).
        IsNearest c point best i (s ∷ ss) (nearest c point (if b then best else here) (suc i) ss) in
      elim (Bool-cases (le best.off_centerline_meters (gap point s))) [
        | inl farther ↦ subst goal (sym farther) (
            keep-IsNearest c point best i s ss _ farther
              (nearest-IsNearest c point best (suc i) ss number numbers.1))
        | inr nearer ↦ subst goal (sym nearer) (
            take-IsNearest c point best i s ss _ (le_total _ _ number numbers.0 nearer)
              (nearest-IsNearest c point here (suc i) ss numbers.0 numbers.1))
      ]

  -- Where every segment is a number of meters from the point, and nearer than infinitely far, `Project`
  -- gives the place on one of the segments, with its index, and no segment is nearer to the point.
  pub project_lem :
      (c : Centerline F) (point : Point F) (s : Segment F) (ss : List (Segment F))
      → c.segments ≡ s ∷ ss
      → All (λ s. (is_nan (gap point s) ≡ false) × (le infinity (gap point s) ≡ false)) c.segments
      → let r = project c point in
        (i : ℕ) × (t : Segment F) × (get_elem? c.segments i ≡ some t)
        × (r ≡ on_segment c point i t)
        × All (λ u. le r.off_centerline_meters (gap point u) ≡ true) c.segments
  unfolding project no_projection
  project_lem c point s ss some_segment bounds =
      let number =
        λ (s : Segment F)
            (b : (is_nan (gap point s) ≡ false) × (le infinity (gap point s) ≡ false)).
          b.0 in
      let (place, below, all) =
        nearest-IsNearest c point no_projection 0 c.segments infinity_number
          (All-imp _ _ c.segments number bounds) in
      elim place [
        | inl lost ↦
            let first =
              subst
                (λ xs.
                  All (λ u. le (project c point).off_centerline_meters (gap point u) ≡ true) xs)
                some_segment all in
            let near =
              subst
                (λ xs.
                  All (λ s. (is_nan (gap point s) ≡ false) × (le infinity (gap point s) ≡ false))
                    xs)
                some_segment bounds in
            cc (lost, first.0, near.0.1)
        | inr (j, t, found, same) ↦
            (j, t, found, same ∙ ap (λ k. on_segment c point k t) (zero_plus j), all)
      ]
