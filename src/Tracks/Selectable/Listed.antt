-- ===== src/Tracks/Selectable/Listed.antt =====
-- When a layout is listed, and that no layout is listed twice.
use telemetry_one_backend.Base.{
  ℕ, suc, String, ◌≡◌, refl, ap, Bool, true, false, ◌&&◌, ◌||◌, not, Option, none, some, List, [],
  ◌∷◌, ◌++◌, ◌==◌, string_eq, inl, inr, Bool-cases, arith, All, All-after,
}
use telemetry_one_backend.Base.Float.{Float64}
use telemetry_one_backend.Base.Result.{first_error_of_Passes, or_else-eq-none}
use telemetry_one_backend.Tracks.Types.{Source, CatalogLayout, CatalogTrack}
use telemetry_one_backend.Tracks.Sources.{
  at, validate_sources_from, validate_sources, source_checks, filter_production_sources,
}
use telemetry_one_backend.Tracks.Validation.Accepted.{
  IsComplete, IsLayout, IsTrack, Distinct, mem, push, layout_ids, track_ids, corner_ids,
}
use telemetry_one_backend.Tracks.Selectable.{
  CatalogTrackLayoutItem, CatalogTrackLayoutSummaryItem, is_empty, is_none,
  has_selectable_layout_metadata, is_listed, layout_item, layout_items, track_item, track_items,
}

sources_of_IsComplete :
    (path : String) (i : ℕ) (ss : List Source)
    → All IsComplete ss
    → validate_sources_from path i ss ≡ none
unfolding validate_sources_from
sources_of_IsComplete path i [] h = refl
sources_of_IsComplete path i (s ∷ ss) (c, rest) = (or_else-eq-none _ _).1 (
  first_error_of_Passes (source_checks (at path i) s) (c.has_url, (c.has_type, (c.has_date, tt))),
  sources_of_IsComplete path (suc i) ss rest,
)

pub complete_none :
    (path : String) (ss : List Source)
    → All IsComplete ss
    → is_none (validate_sources path ss) ≡ true
unfolding validate_sources
complete_none path ss h = ap is_none (sources_of_IsComplete path 0 ss h)

pub filtered_some :
    (ss : List Source) → is_empty (filter_production_sources ss) ≡ false → is_empty ss ≡ false
unfolding filter_production_sources
filtered_some [] h = h
filtered_some (s ∷ ss) h = refl

-- An identifier that is known is none of the new ones.
pub later-ne :
    (id : String) (known xs : List String)
    → mem id known ≡ true
    → Distinct known xs
    → All (λ x. (id == x) ≡ false) xs
later-ne id known [] h d = tt
later-ne id known (x ∷ xs) h (fresh, d) =
    (ground (arith, string_eq.test_iff id x), later-ne id (x ∷ known) xs (ground arith) d)

module _ {F : Type 0} where
  abbrev pub has_item : String → List (CatalogTrackLayoutSummaryItem F) → Bool
  has_item layout_id [] = false
  has_item layout_id (l ∷ ls) = l.id == layout_id || has_item layout_id ls

  -- The summary lists the layout of the track.
  abbrev pub offers : String → String → List (CatalogTrackLayoutItem F) → Bool
  offers track_id layout_id [] = false
  offers track_id layout_id (t ∷ ts) =
      t.id == track_id && has_item layout_id t.layouts || offers track_id layout_id ts

  abbrev pub is_found : Option (CatalogTrack F × CatalogLayout F) → Bool
  is_found none = false
  is_found (some f) = true

pub Distinct-after :
    (xs ys known : List String) → Distinct known (xs ++ ys) → Distinct (push xs known) ys
Distinct-after [] ys known h = h
Distinct-after (x ∷ xs) ys known h = Distinct-after xs ys (x ∷ known) h.1

pub Distinct-before : (xs ys known : List String) → Distinct known (xs ++ ys) → Distinct known xs
Distinct-before [] ys known h = tt
Distinct-before (x ∷ xs) ys known h = (h.0, Distinct-before xs ys (x ∷ known) h.1)

pub or_false : (b : Bool) → (b || false) ≡ b
or_false b = ground arith

pub mem_self : (x : String) (known : List String) → mem x (x ∷ known) ≡ true
mem_self x known = ground (arith, string_eq.test_iff x x)

pub empty_has_none :
    {F : Type 0} (id : String) (ls : List (CatalogTrackLayoutSummaryItem F))
    → is_empty ls ≡ true
    → has_item id ls ≡ false
empty_has_none id [] h = refl
empty_has_none id (l ∷ ls) h = cc h

module _ {F : Type 0} ⦃fl : Float64 F⦄ where
  -- Whether a layout of a complete track is listed is a matter of its sources alone.
  pub is_listed-eq :
      (t : CatalogTrack F) (l : CatalogLayout F)
      → IsTrack t
      → IsLayout l
      → is_empty t.sources ≡ false
      → is_listed t l ≡ not (is_empty (filter_production_sources l.sources))
  unfolding is_listed has_selectable_layout_metadata
  is_listed-eq t l track layout some_source =
      elim (Bool-cases (is_empty (filter_production_sources l.sources))) [
        | inl empty ↦ rw empty (ground arith)
        | inr full ↦
            rw
              (
                full,
                track.has_id,
                track.has_name,
                layout.has_id,
                layout.has_name,
                some_source,
                filtered_some l.sources full,
                complete_none "track.sources" t.sources track.has_sources,
                complete_none "layout.sources" l.sources layout.has_sources,
              )
              refl
      ]

  pub has_item-absent :
      (t : CatalogTrack F) (id : String) (ls : List (CatalogLayout F))
      → All (λ l. (id == l.id) ≡ false) ls
      → has_item id (layout_items t ls) ≡ false
  unfolding layout_items layout_item
  has_item-absent t id [] h = refl
  has_item-absent t id (l ∷ ls) (other, rest) =
      ground (
        arith,
        string_eq.test_iff id l.id,
        string_eq.test_iff l.id id,
        has_item-absent t id ls rest,
      )

  pub offers-absent :
      (track_id layout_id : String) (ts : List (CatalogTrack F))
      → All (λ t. (track_id == t.id) ≡ false) ts
      → offers track_id layout_id (track_items ts) ≡ false
  unfolding track_items track_item
  offers-absent track_id layout_id [] h = refl
  offers-absent track_id layout_id (t ∷ ts) (other, rest) = ground (
    arith,
    string_eq.test_iff track_id t.id,
    string_eq.test_iff t.id track_id,
    offers-absent track_id layout_id ts rest,
  )

  pub layouts-ne :
      (id : String) (ls : List (CatalogLayout F))
      → All (λ x. (id == x) ≡ false) (layout_ids ls)
      → All (λ l. (id == l.id) ≡ false) ls
  layouts-ne id [] h = tt
  layouts-ne id (l ∷ ls) h =
      (h.0, layouts-ne id ls (All-after _ (corner_ids l.corners) (layout_ids ls) h.1))

  pub tracks-ne :
      (id : String) (ts : List (CatalogTrack F))
      → All (λ x. (id == x) ≡ false) (track_ids ts)
      → All (λ t. (id == t.id) ≡ false) ts
  tracks-ne id [] h = tt
  tracks-ne id (t ∷ ts) h =
      (h.0, tracks-ne id ts (All-after _ (layout_ids t.layouts) (track_ids ts) h.1))
