-- ===== src/Corners/Resolver/Unique.antt =====
-- `ResolveCurrent` gives the one corner that holds the place.
use telemetry_one_backend.Base.{
  String, ◌≡◌, refl, Bool, true, false, ◌&&◌, Option, none, some, List, [], ◌∷◌, if◌then◌else◌, ◌⊎◌,
  inl, inr, Bool-cases, All, ap,
}
use telemetry_one_backend.Base.Float.{Float64, FloatOrder}
use telemetry_one_backend.Base.Result.{ok, >>=-eq-ok}
use telemetry_one_backend.Base.Text.{◌&◌}
use telemetry_one_backend.Tracks.Types.{Corner, CatalogLayout, is_finite}
use telemetry_one_backend.Tracks.Ranges.{Ids, remember_id, validate_corners}
use telemetry_one_backend.Tracks.Validation.{validate_layout}
use telemetry_one_backend.Tracks.Validation.Accepted.{check-eq-ok, validate_layout-IsNew}
use telemetry_one_backend.Corners.Resolver.{
  Resolution, is_manual, in_corner, no_corner, no_corner_reason, contains_distance, find_manual,
  resolution, place_of, is_outside, resolve_on, resolve_current,
}
use telemetry_one_backend.Corners.Resolver.Apart.{AreApart, AllApart, validate_corners-AllApart}

module _ {F : Type 0} ⦃fl : Float64 F⦄ where
  abbrev holds : F → Bool → Corner F → Bool
  holds d closed c = is_manual c && contains_distance c d closed

  -- All manual corners that contain the distance.
  abbrev holders : F → Bool → List (Corner F) → List (Corner F)
  holders d closed [] = []
  holders d closed (c ∷ cs) =
      if holds d closed c then c ∷ holders d closed cs else holders d closed cs

  -- All manual corners of the layout that contain the place, if it is on the layout.
  abbrev pub holding : CatalogLayout F → F → Bool → List (Corner F)
  holding l distance closed =
      if is_outside l distance closed
      then []
      else holders (place_of l distance closed) closed l.corners

  no_holders :
      (d : F) (closed : Bool) (cs : List (Corner F))
      → All (λ c. holds d closed c ≡ false) cs
      → holders d closed cs ≡ []
  no_holders d closed [] h = refl
  no_holders d closed (c ∷ cs) (h, rest) = rw h (no_holders d closed cs rest)

  none_of_AreApart :
      (d : F) (closed : Bool) (c : Corner F) (cs : List (Corner F))
      → holds d closed c ≡ true
      → All (AreApart c) cs
      → All (λ b. holds d closed b ≡ false) cs
  none_of_AreApart d closed c [] h a = tt
  none_of_AreApart d closed c (b ∷ cs) h (apart, rest) =
      (apart d closed h, none_of_AreApart d closed c cs h rest)

  -- What is found is the one corner that holds the distance, or there is none.
  abbrev IsOnly : Option (Corner F) → List (Corner F) → Type 0
  IsOnly found hs =
      ((found ≡ none) × (hs ≡ [])) ⊎ ((c : Corner F) × (found ≡ some c) × (hs ≡ c ∷ []))

  find_manual-IsOnly :
      (d : F) (closed : Bool) (cs : List (Corner F))
      → AllApart cs
      → IsOnly (find_manual d closed cs) (holders d closed cs)
  unfolding find_manual
  find_manual-IsOnly d closed [] a = inl (refl, refl)
  find_manual-IsOnly d closed (c ∷ cs) (apart, rest) = elim (Bool-cases (holds d closed c)) [
    | inl here ↦ rw here (
        inr (
          c,
          refl,
          ap (λ hs. c ∷ hs) (no_holders d closed cs (none_of_AreApart d closed c cs here apart)),
        ))
    | inr other ↦ rw other (find_manual-IsOnly d closed cs rest)
  ]

  module _ ⦃fo : FloatOrder F⦄ where
    validated_corners :
        (path : String) (ids ids' : Ids) (l : CatalogLayout F)
        → validate_layout path ids l ≡ ok ids'
        → AllApart l.corners
    unfolding validate_layout
    validated_corners path ids ids' l h =
        let (named, h1) = check-eq-ok _ _ h in
        let (ids1, new, h2) = >>=-eq-ok (remember_id ids l.id path) _ h1 in
        let (long, h3) = check-eq-ok _ _ h2 in
        let (sources, h4) = check-eq-ok _ _ h3 in
        let (sectors, h5) = check-eq-ok _ _ h4 in
        let (ids2, corners, h6) =
          >>=-eq-ok (validate_corners (path & ".corners") l.corners l.length_meters ids1) _ h5 in
        validate_corners-AllApart (path & ".corners") l.length_meters ids1 ids2 l.corners corners

  -- A corner as the resolver shows it, or none with a reason.
  abbrev pub IsShown : List (Corner F) → Resolution F → Type 0
  IsShown hs r =
      ((reason : String) × (hs ≡ []) × (r ≡ no_corner reason))
      ⊎ ((c : Corner F) × (hs ≡ c ∷ []) × (r ≡ in_corner c))

  resolution-IsShown :
      (cs : List (Corner F)) (found : Option (Corner F)) (hs : List (Corner F))
      → IsOnly found hs
      → IsShown hs (resolution cs found)
  unfolding resolution
  resolution-IsShown cs found hs (inl (nothing, empty)) =
      inl (no_corner_reason cs, empty, ap (resolution cs) nothing)
  resolution-IsShown cs found hs (inr (c, here, one)) = inr (c, one, ap (resolution cs) here)

  resolve_on-IsShown :
      (l : CatalogLayout F) (distance : F) (closed : Bool) (cs : List (Corner F))
      → AllApart cs
      → IsShown
          (if is_outside l distance closed
            then []
            else holders (place_of l distance closed) closed cs)
          (resolve_on l distance closed cs)
  unfolding resolve_on
  resolve_on-IsShown l distance closed [] a = elim (Bool-cases (is_outside l distance closed)) [
    | inl outside ↦ rw outside (inl ("catalog_has_no_corners", refl, refl))
    | inr on ↦ rw on (inl ("catalog_has_no_corners", refl, refl))
  ]
  resolve_on-IsShown l distance closed (c ∷ cs) a =
      elim (Bool-cases (is_outside l distance closed)) [
        | inl outside ↦ rw outside (inl ("outside_corner_range", refl, refl))
        | inr on ↦ rw on (
            resolution-IsShown (c ∷ cs) _ _
              (find_manual-IsOnly (place_of l distance closed) closed (c ∷ cs) a))
      ]

  -- On a layout that is validated, and for a finite distance, `ResolveCurrent` succeeds: at most one
  -- manual corner holds the place, and it shows that one, or no corner where there is none.
  pub resolve_current_lem :
      ⦃fo : FloatOrder F⦄
      → (path : String) (ids ids' : Ids) (l : CatalogLayout F) (distance : F) (closed : Bool)
      → validate_layout path ids l ≡ ok ids'
      → is_finite distance ≡ true
      → (r : Resolution F) × (resolve_current l distance closed ≡ ok r)
        × IsShown (holding l distance closed) r
  unfolding resolve_current
  resolve_current_lem path ids ids' l distance closed h finite =
      let (layout, new) = validate_layout-IsNew path ids ids' l h in
      (
        resolve_on l distance closed l.corners,
        rw (layout.has_length, finite) refl,
        resolve_on-IsShown l distance closed l.corners (validated_corners path ids ids' l h),
      )
