-- ===== src/Corners/Resolver/Placed.antt =====
-- The corners of a layout lie behind each other where their checks pass.
use telemetry_one_backend.Base.{
  ℕ, suc, String, ◌≡◌, refl, sym, subst, ap, ◌∙◌, Bool, true, false, ◌&&◌, ◌||◌, not, Option, none,
  some, if◌then◌else◌, ◌==◌, string_eq, nat_eq, ◌⊎◌, inl, inr, Bool-cases, arith, ltb,
}
use telemetry_one_backend.Base.Float.{Float64, FloatOrder}
use telemetry_one_backend.Base.Result.{ok, err, or_error-eq-ok, Passes-of_first_error}
use telemetry_one_backend.Tracks.Types.{Corner, fault, invalid_distance_range, is_finite}
use telemetry_one_backend.Tracks.Ranges.{
  CornerState, given_or, validate_corner_range, manual_corner, place_corner,
}

pub enumerated-not_manual :
    (mode : String) → (mode == "catalog_manual") ≡ true → (mode == "catalog_enumerated") ≡ false
enumerated-not_manual mode h =
    ap (λ m. m == "catalog_enumerated") ((string_eq.test_iff mode "catalog_manual").0 h)

module _ {F : Type 0} ⦃fl : Float64 F⦄ where
  -- What a corner with a range passes, and the state after it.
  pub record IsPlaced (length_meters : F) (count i : ℕ) (state : CornerState F) (c : Corner F)
      (state' : CornerState F) : Type 0 where
    pub wraps : Bool
    pub range : validate_corner_range c length_meters ≡ some wraps
    pub alone : (state.has_wrap_around || (wraps && not (suc i == count))) ≡ false
    pub after : (ltb 0 i && fl.lt c.start_meters state.previous_end) ≡ false
    pub around :
        (wraps && ltb 1 count && fl.lt (given_or state.first_start c.start_meters) c.end_meters)
        ≡ false
    pub next : state' ≡ record {
      previous_end = if wraps then length_meters else c.end_meters;
      first_start = some (given_or state.first_start c.start_meters);
      has_wrap_around = state.has_wrap_around || wraps;
    }

  manual_corner-IsPlaced :
      (path : String) (length_meters : F) (count i : ℕ) (state : CornerState F) (c : Corner F)
      (state' : CornerState F) (o : Option Bool)
      → validate_corner_range c length_meters ≡ o
      → manual_corner path length_meters count i state c o ≡ ok state'
      → IsPlaced length_meters count i state c state'
  unfolding manual_corner
  manual_corner-IsPlaced path length_meters count i state c state' none r h = cc h
  manual_corner-IsPlaced path length_meters count i state c state' (some wraps) r h =
      let (passed, next) = or_error-eq-ok _ h in
      let (alone, (after, (around, end))) = Passes-of_first_error _ passed in
      record {
        wraps = wraps;
        range = r;
        alone = alone;
        after = after;
        around = around;
        next = next;
      }

  kept :
      (path : String) (state state' : CornerState F) (bad : Bool)
      → (if bad then err (fault path invalid_distance_range) else ok state) ≡ ok state'
      → state' ≡ state
  kept path state state' true h = cc h
  kept path state state' false h = cc h

  pub place_corner-cases :
      (path : String) (length_meters : F) (count i : ℕ) (state : CornerState F) (c : Corner F)
      (state' : CornerState F)
      → place_corner path length_meters count i state c ≡ ok state'
      → (((c.definition_mode == "catalog_enumerated") ≡ true) × (state' ≡ state))
        ⊎ IsPlaced length_meters count i state c state'
  unfolding place_corner
  place_corner-cases path length_meters count i state c state' h =
      elim (Bool-cases (c.definition_mode == "catalog_enumerated")) [
        | inr ranged ↦ inr (
            manual_corner-IsPlaced path length_meters count i state c state'
              (validate_corner_range c length_meters) refl (rw ranged at h))
        | inl enumerated ↦ inl (enumerated, kept path state state' _ (rw enumerated at h))
      ]

  pub range_facts :
      (length_meters : F) (c : Corner F) (wraps : Bool)
      → validate_corner_range c length_meters ≡ some wraps
      → (fl.is_nan c.start_meters ≡ false)
        × (fl.is_nan c.end_meters ≡ false)
        × (fl.lt c.start_meters c.end_meters ≡ not wraps)
  unfolding validate_corner_range is_finite
  range_facts length_meters c wraps h = ground arith

  -- The corner starts at `e` or behind it and, where it wraps around the line, ends at `f` or before it.
  abbrev pub IsAfter : F → F → Corner F → Type 0
  IsAfter e f c =
      (fl.le e c.start_meters ≡ true)
      × (fl.lt c.start_meters c.end_meters ≡ false → fl.le c.end_meters f ≡ true)

  -- No corner with a range can come, or it comes behind `e`, where `f` is the start of the first one.
  pub record Limits (e f : F) (state : CornerState F) : Type 0 where
    pub first : state.first_start ≡ some f
    pub first_number : fl.is_nan f ≡ false
    pub end_number : fl.is_nan state.previous_end ≡ false
    pub behind : fl.le e state.previous_end ≡ true

  abbrev pub IsBehind : F → F → CornerState F → Type 0
  IsBehind e f state = (state.has_wrap_around ≡ true) ⊎ Limits e f state

  pub next-IsBehind :
      (length_meters e f : F) (count i : ℕ) (state : CornerState F) (c : Corner F)
      (state' : CornerState F)
      → given_or state.first_start c.start_meters ≡ f
      → fl.is_nan f ≡ false
      → (fl.lt c.start_meters c.end_meters ≡ true → fl.le e c.end_meters ≡ true)
      → IsPlaced length_meters count i state c state'
      → IsBehind e f state'
  next-IsBehind length_meters e f count i state c state' first number behind p =
      let (start_number, end_number, order) = range_facts length_meters c p.wraps p.range in
      elim (Bool-cases p.wraps) [
        | inl wraps ↦ inl (ground (arith, p.next, wraps))
        | inr onward ↦ inr (
            subst (Limits e f) (sym p.next) (record {
              first = ap some first;
              first_number = number;
              end_number = rw onward end_number;
              behind = rw onward (behind (order ∙ ap not onward));
            }))
      ]

  module _ ⦃fo : FloatOrder F⦄ where
    -- A corner with a range, behind others.
    pub placed-IsBehind :
        (length_meters e f : F) (count i : ℕ) (state : CornerState F) (c : Corner F)
        (state' : CornerState F)
        → ltb 0 i ≡ true
        → IsBehind e f state
        → IsPlaced length_meters count i state c state'
        → (state.has_wrap_around ≡ false) × IsAfter e f c × IsBehind e f state'
    placed-IsBehind length_meters e f count i state c state' later (inl wrapped) p =
        absurd (ground (arith, p.alone, wrapped))
    placed-IsBehind length_meters e f count i state c state' later (inr l) p =
        let (start_number, end_number, order) = range_facts length_meters c p.wraps p.range in
        let close =
          fo.not_lt-le c.start_meters state.previous_end start_number l.end_number
            (ground (arith, p.after)) in
        let from_e = fo.le_trans e state.previous_end c.start_meters l.behind close in
        let same_first : given_or state.first_start c.start_meters ≡ f =
          ap (λ o. given_or o c.start_meters) l.first in
        (
          ground (arith, p.alone),
          (
            from_e,
            λ falling.
                fo.not_lt-le f c.end_meters l.first_number end_number
                  (ground (arith, p.around, p.alone, falling, order, same_first)),
          ),
          next-IsBehind length_meters e f count i state c state' same_first l.first_number
              (λ rising.
                fo.le_trans e c.start_meters c.end_meters from_e
                  (fo.lt-le c.start_meters c.end_meters rising))
              p,
        )
