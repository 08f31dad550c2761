-- ===== src/Corners/Resolver/Apart.antt =====
-- The corners of an accepted layout do not overlap.
use telemetry_one_backend.Base.{
  ℕ, suc, String, ◌≡◌, refl, subst, ap, Bool, true, false, ◌&&◌, none, List, [], ◌∷◌, string_eq,
  nat_eq, ◌⊎◌, inl, inr, Bool-cases, arith, All, All-imp, ltb,
}
use telemetry_one_backend.Base.Float.{Float64, FloatOrder}
use telemetry_one_backend.Base.Result.{ok, >>=-eq-ok}
use telemetry_one_backend.Tracks.Types.{Corner}
use telemetry_one_backend.Corners.Resolver.{is_manual, contains_distance}
use telemetry_one_backend.Tracks.Sources.{at}
use telemetry_one_backend.Tracks.Validation.Accepted.{check-eq-ok}
use telemetry_one_backend.Tracks.Ranges.{
  Ids, CornerState, given_or, place_corner, validate_corners_from, validate_corners, remember_id,
}
use telemetry_one_backend.Corners.Resolver.Placed.{
  IsPlaced, place_corner-cases, range_facts, IsAfter, IsBehind, next-IsBehind, placed-IsBehind,
  enumerated-not_manual,
}

not_true : (b : Bool) → (b ≡ true → ⊥) → b ≡ false
not_true true h = absurd (h refl)
not_true false h = refl

true-not_false : {b : Bool} → b ≡ true → b ≡ false → ⊥
true-not_false p q = cc

every {ℓ κ} : {A : Type ℓ} (P : A → Type κ) → ((x : A) → P x) → (xs : List A) → All P xs
every P h [] = tt
every P h (x ∷ xs) = (h x, every P h xs)

module _ {F : Type 0} ⦃fl : Float64 F⦄ where
  -- No place is in both corners.
  abbrev pub AreApart : Corner F → Corner F → Type 0
  AreApart a b =
      (d : F) (closed : Bool)
      → (is_manual a && contains_distance a d closed) ≡ true
      → (is_manual b && contains_distance b d closed) ≡ false

  abbrev pub AllApart : List (Corner F) → Type 0
  AllApart [] = Unit
  AllApart (c ∷ cs) = All (AreApart c) cs × AllApart cs

  module _ ⦃fo : FloatOrder F⦄ where
    corners-IsAfter :
        (path : String) (length_meters e f : F) (count i : ℕ) (state : CornerState F)
        (ids ids' : Ids) (cs : List (Corner F))
        → ltb 0 i ≡ true
        → IsBehind e f state
        → validate_corners_from path length_meters count i state ids cs ≡ ok ids'
        → All (λ c. is_manual c ≡ true → (state.has_wrap_around ≡ false) × IsAfter e f c) cs
    unfolding validate_corners_from
    corners-IsAfter path length_meters e f count i state ids ids' [] later behind h = tt
    corners-IsAfter path length_meters e f count i state ids ids' (c ∷ cs) later behind h =
        let (named, h1) = check-eq-ok _ _ h in
        let (ids1, new, h2) = >>=-eq-ok (remember_id ids c.id (at path i)) _ h1 in
        let (sources, h3) = check-eq-ok _ _ h2 in
        let (state', placed, rest) =
          >>=-eq-ok (place_corner (at path i) length_meters count i state c) _ h3 in
        elim (place_corner-cases (at path i) length_meters count i state c state' placed) [
          | inl (enumerated, same) ↦ (
            λ manual.
                absurd (ground (arith, enumerated, enumerated-not_manual c.definition_mode manual)),
            corners-IsAfter path length_meters e f count (suc i) state ids1 ids' cs (ground arith)
                behind
                (subst
                  (λ s. validate_corners_from path length_meters count (suc i) s ids1 cs ≡ ok ids')
                  same rest),
          )
          | inr p ↦
              let (alone, after, onward) =
                placed-IsBehind length_meters e f count i state c state' later behind p in
              (
                λ manual. (alone, after),
                All-imp _ _ cs (λ k q manual. (alone, (q manual).1))
                    (corners-IsAfter path length_meters e f count (suc i) state' ids1 ids' cs
                      (ground arith) onward rest),
              )
        ]

    pair-AreApart :
        (f : F) (a b : Corner F)
        → fl.le f a.start_meters ≡ true
        → (is_manual b ≡ true
            → (fl.lt a.start_meters a.end_meters ≡ true) × IsAfter a.end_meters f b)
        → AreApart a b
    unfolding contains_distance
    pair-AreApart f a b first after d closed inside = elim (Bool-cases (is_manual b)) [
      | inr other ↦ ground (arith, other)
      | inl manual ↦
          let (rising, (start, end)) = after manual in
          let from_a : fl.le a.start_meters d ≡ true = ground (arith, inside, rising) in
          let to_a : fl.lt d a.end_meters ≡ true = ground (arith, inside, rising) in
          let before_b : fl.le b.start_meters d ≡ false = not_true _ (λ h.
            true-not_false (fo.le_trans a.end_meters b.start_meters d start h)
              (fo.lt-not_le d a.end_meters to_a)) in
          elim (Bool-cases (fl.lt b.start_meters b.end_meters)) [
            | inl onward ↦ ground (arith, onward, before_b)
            | inr falling ↦
                let back =
                  fo.le_trans b.end_meters a.start_meters d
                    (fo.le_trans b.end_meters f a.start_meters (end falling) first) from_a in
                let past_b =
                  not_true _ (λ h. true-not_false back (fo.lt-not_le d b.end_meters h)) in
                ground (arith, falling, before_b, past_b)
          ]
    ]

    -- Before a corner either none had a range, or they lie before it.
    abbrev IsStart : ℕ → CornerState F → Type 0
    IsStart i state = (state.first_start ≡ none) ⊎ ((f : F) × (ltb 0 i ≡ true) × IsBehind f f state)

    start-IsBehind :
        (length_meters : F) (count i : ℕ) (state : CornerState F) (c : Corner F)
        (state' : CornerState F)
        → IsStart i state
        → IsPlaced length_meters count i state c state'
        → (f : F) × (fl.le f c.start_meters ≡ true)
          × IsBehind c.end_meters f state'
          × IsBehind f f state'
    start-IsBehind length_meters count i state c state' (inl none_before) p =
        let (start_number, end_number, order) = range_facts length_meters c p.wraps p.range in
        let same : given_or state.first_start c.start_meters ≡ c.start_meters =
          ap (λ o. given_or o c.start_meters) none_before in
        (
          c.start_meters,
          fo.le_refl c.start_meters start_number,
          next-IsBehind length_meters c.end_meters c.start_meters count i state c state' same
              start_number (λ rising. fo.le_refl c.end_meters end_number) p,
          next-IsBehind length_meters c.start_meters c.start_meters count i state c state' same
              start_number (fo.lt-le c.start_meters c.end_meters) p,
        )
    start-IsBehind length_meters count i state c state' (inr (f, later, inl wrapped)) p =
        absurd (ground (arith, p.alone, wrapped))
    start-IsBehind length_meters count i state c state' (inr (f, later, inr l)) p =
        let (start_number, end_number, order) = range_facts length_meters c p.wraps p.range in
        let (alone, after, onward) =
          placed-IsBehind length_meters f f count i state c state' later (inr l) p in
        (
          f,
          after.0,
          next-IsBehind length_meters c.end_meters f count i state c state'
              (ap (λ o. given_or o c.start_meters) l.first) l.first_number
              (λ rising. fo.le_refl c.end_meters end_number) p,
          onward,
        )

    later-IsStart : (i : ℕ) (state : CornerState F) → IsStart i state → IsStart (suc i) state
    later-IsStart i state (inl none_before) = inl none_before
    later-IsStart i state (inr (f, later, behind)) = inr (f, ground arith, behind)

    -- A corner that wraps around the line is the last.
    wraps-alone :
        (length_meters : F) (count i : ℕ) (state : CornerState F) (c : Corner F)
        (state' : CornerState F)
        → IsPlaced length_meters count i state c state'
        → state'.has_wrap_around ≡ false
        → fl.lt c.start_meters c.end_meters ≡ true
    wraps-alone length_meters count i state c state' p none_wraps =
        let (start_number, end_number, order) = range_facts length_meters c p.wraps p.range in
        ground (arith, p.next, order, none_wraps)

    corners-AllApart :
        (path : String) (length_meters : F) (count i : ℕ) (state : CornerState F) (ids ids' : Ids)
        (cs : List (Corner F))
        → IsStart i state
        → validate_corners_from path length_meters count i state ids cs ≡ ok ids'
        → AllApart cs
    unfolding validate_corners_from
    corners-AllApart path length_meters count i state ids ids' [] start h = tt
    corners-AllApart path length_meters count i state ids ids' (c ∷ cs) start h =
        let (named, h1) = check-eq-ok _ _ h in
        let (ids1, new, h2) = >>=-eq-ok (remember_id ids c.id (at path i)) _ h1 in
        let (sources, h3) = check-eq-ok _ _ h2 in
        let (state', placed, rest) =
          >>=-eq-ok (place_corner (at path i) length_meters count i state c) _ h3 in
        elim (place_corner-cases (at path i) length_meters count i state c state' placed) [
          | inl (enumerated, same) ↦ (
            every _
                (λ b d closed inside.
                  absurd
                    (ground (arith, inside, enumerated, enumerated-not_manual c.definition_mode)))
                cs,
            corners-AllApart path length_meters count (suc i) state ids1 ids' cs
                (later-IsStart i state start)
                (subst
                  (λ s. validate_corners_from path length_meters count (suc i) s ids1 cs ≡ ok ids')
                  same rest),
          )
          | inr p ↦
              let (f, first, behind, onward) =
                start-IsBehind length_meters count i state c state' start p in
              (
                All-imp _ (AreApart c) cs
                    (λ b q. pair-AreApart f c b first (λ manual. (
                      wraps-alone length_meters count i state c state' p (q manual).0,
                      (q manual).1,
                    )))
                    (corners-IsAfter path length_meters c.end_meters f count (suc i) state' ids1
                      ids' cs (ground arith) behind rest),
                corners-AllApart path length_meters count (suc i) state' ids1 ids' cs
                    (inr (f, ground arith, onward)) rest,
              )
        ]

    -- No two corners of a layout that is validated have a place in common.
    pub validate_corners-AllApart :
        (path : String) (length_meters : F) (ids ids' : Ids) (cs : List (Corner F))
        → validate_corners path cs length_meters ids ≡ ok ids'
        → AllApart cs
    unfolding validate_corners
    validate_corners-AllApart path length_meters ids ids' cs h =
        corners-AllApart path length_meters _ 0 _ ids ids' cs (inl refl) h
