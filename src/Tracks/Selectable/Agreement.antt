-- ===== src/Tracks/Selectable/Agreement.antt =====
-- A layout can be selected just if the summary lists it.
use telemetry_one_backend.Base.{
  String, ◌≡◌, refl, sym, subst, ap, ◌∙◌, true, false, ◌&&◌, ◌||◌, List, [], ◌∷◌, ◌==◌, string_eq,
  inl, inr, Bool-cases, All, All-after,
}
use telemetry_one_backend.Base.Float.{Float64}
use telemetry_one_backend.Base.Result.{ok}
use telemetry_one_backend.Tracks.Types.{CatalogLayout, CatalogTrack, Catalog}
use telemetry_one_backend.Tracks.Sources.{filter_production_sources}
use telemetry_one_backend.Tracks.Ranges.{Ids}
use telemetry_one_backend.Tracks.Validation.{validate_catalog}
use telemetry_one_backend.Tracks.Validation.Accepted.{
  IsLayout, IsTrack, Distinct, push, layout_ids, track_ids, corner_ids, validate_catalog-Accepted,
}
use telemetry_one_backend.Tracks.Selectable.{
  is_empty, is_listed, layout_item, layout_items, track_item, track_items,
  build_catalog_track_layout_summary, selectable_in, selectable_among, find_selectable_track_layout,
}
use telemetry_one_backend.Tracks.Selectable.Listed.{
  complete_none, filtered_some, later-ne, has_item, offers, is_found, Distinct-after,
  Distinct-before, or_false, mem_self, empty_has_none, is_listed-eq, has_item-absent, offers-absent,
  layouts-ne, tracks-ne,
}

module _ {F : Type 0} ⦃fl : Float64 F⦄ where
  -- The layout with the identifier, of which no other layout has it.
  here-agree :
      (t : CatalogTrack F) (l : CatalogLayout F) (id : String) (ls : List (CatalogLayout F))
      → IsTrack t
      → IsLayout l
      → is_empty t.sources ≡ false
      → (l.id == id) ≡ true
      → has_item id (layout_items t ls) ≡ false
      → is_found (selectable_in t id (l ∷ ls)) ≡ has_item id (layout_items t (l ∷ ls))
  unfolding selectable_in layout_items layout_item
  here-agree t l id ls track layout some_source here gone =
      let listed = is_listed-eq t l track layout some_source in
      elim (Bool-cases (is_empty (filter_production_sources l.sources))) [
        | inl empty ↦ rw (here, listed, empty, gone) refl
        | inr full ↦
            rw
              (
                here,
                listed,
                full,
                some_source,
                filtered_some l.sources full,
                complete_none "track.sources" t.sources track.has_sources,
                complete_none "layout.sources" l.sources layout.has_sources,
              )
              (ap (λ b. b || has_item id (layout_items t ls)) (sym here))
      ]

  other-agree :
      (t : CatalogTrack F) (l : CatalogLayout F) (id : String) (ls : List (CatalogLayout F))
      → (l.id == id) ≡ false
      → is_found (selectable_in t id ls) ≡ has_item id (layout_items t ls)
      → is_found (selectable_in t id (l ∷ ls)) ≡ has_item id (layout_items t (l ∷ ls))
  unfolding selectable_in layout_items layout_item
  other-agree t l id ls other rest = elim (Bool-cases (is_listed t l)) [
    | inl listed ↦
        rw (other, listed) (rest ∙ ap (λ b. b || has_item id (layout_items t ls)) (sym other))
    | inr unlisted ↦ rw (other, unlisted) rest
  ]

  -- In one track the search and the list agree.
  layouts-agree :
      (t : CatalogTrack F) (known : List String) (id : String) (ls : List (CatalogLayout F))
      → IsTrack t
      → All IsLayout ls
      → Distinct known (layout_ids ls)
      → is_empty t.sources ≡ false
      → is_found (selectable_in t id ls) ≡ has_item id (layout_items t ls)
  unfolding selectable_in layout_items layout_item
  layouts-agree t known id [] track layouts distinct some_source = refl
  layouts-agree t known id (l ∷ ls) track (layout, layouts) distinct some_source =
      elim (Bool-cases (l.id == id)) [
        | inl here ↦
            let same : l.id ≡ id = (string_eq.test_iff l.id id).0 here in
            let gone =
              subst (λ x. has_item x (layout_items t ls) ≡ false) same
                (has_item-absent t l.id ls (
                  layouts-ne l.id ls (
                    All-after _ (corner_ids l.corners) (layout_ids ls)
                      (later-ne l.id (l.id ∷ known) _ (mem_self l.id known) distinct.1)))) in
            here-agree t l id ls track layout some_source here gone
        | inr other ↦ other-agree t l id ls other (
            layouts-agree t (push (l.id ∷ corner_ids l.corners) known) id ls track layouts
              (Distinct-after (l.id ∷ corner_ids l.corners) (layout_ids ls) known distinct)
              some_source)
      ]

  no_items :
      (t : CatalogTrack F) (id : String)
      → is_empty (layout_items t t.layouts) ≡ true
      → has_item id (layout_items t t.layouts) ≡ false
  no_items t id h = empty_has_none id (layout_items t t.layouts) h

  -- The track with the identifier, of which no other track has it.
  track-agree :
      (t : CatalogTrack F) (track_id layout_id : String) (ts : List (CatalogTrack F))
      → (t.id == track_id) ≡ true
      → (is_empty (filter_production_sources t.sources) ≡ false
          → is_found (selectable_in t layout_id t.layouts)
            ≡ has_item layout_id (layout_items t t.layouts))
      → offers track_id layout_id (track_items ts) ≡ false
      → is_found (selectable_among track_id layout_id (t ∷ ts))
        ≡ offers track_id layout_id (track_items (t ∷ ts))
  unfolding selectable_among track_items track_item
  track-agree t track_id layout_id ts here inside gone =
      elim (Bool-cases (is_empty (filter_production_sources t.sources))) [
        | inl empty ↦ rw (here, empty, gone) refl
        | inr full ↦ elim (Bool-cases (is_empty (layout_items t t.layouts))) [
          | inl none_there ↦
              rw (here, full, none_there, gone) (inside full ∙ no_items t layout_id none_there)
          | inr some_there ↦
              rw (here, full, some_there)
                (inside full
                  ∙ sym (
                      ap
                        (λ b.
                          b && has_item layout_id (layout_items t t.layouts)
                          || offers track_id layout_id (track_items ts))
                        here
                      ∙ ap (λ b. has_item layout_id (layout_items t t.layouts) || b) gone
                      ∙ or_false (has_item layout_id (layout_items t t.layouts))))
        ]
      ]

  past-agree :
      (t : CatalogTrack F) (track_id layout_id : String) (ts : List (CatalogTrack F))
      → (t.id == track_id) ≡ false
      → is_found (selectable_among track_id layout_id ts)
        ≡ offers track_id layout_id (track_items ts)
      → is_found (selectable_among track_id layout_id (t ∷ ts))
        ≡ offers track_id layout_id (track_items (t ∷ ts))
  unfolding selectable_among track_items track_item
  past-agree t track_id layout_id ts other rest =
      elim (Bool-cases
        (is_empty (filter_production_sources t.sources) || is_empty (layout_items t t.layouts))) [
          | inl unlisted ↦ rw (other, unlisted) rest
          | inr listed ↦
              rw (other, listed)
                (rest
                  ∙ ap
                      (λ b.
                        b && has_item layout_id (layout_items t t.layouts)
                        || offers track_id layout_id (track_items ts))
                      (sym other))
        ]

  tracks-agree :
      (known : List String) (track_id layout_id : String) (ts : List (CatalogTrack F))
      → All IsTrack ts
      → Distinct known (track_ids ts)
      → is_found (selectable_among track_id layout_id ts)
        ≡ offers track_id layout_id (track_items ts)
  unfolding selectable_among track_items
  tracks-agree known track_id layout_id [] tracks distinct = refl
  tracks-agree known track_id layout_id (t ∷ ts) (track, tracks) distinct =
      elim (Bool-cases (t.id == track_id)) [
        | inl here ↦
            let same : t.id ≡ track_id = (string_eq.test_iff t.id track_id).0 here in
            let own =
              Distinct-before (layout_ids t.layouts) (track_ids ts) (t.id ∷ known) distinct.1 in
            let gone =
              subst (λ x. offers x layout_id (track_items ts) ≡ false) same
                (offers-absent t.id layout_id ts (
                  tracks-ne t.id ts (
                    All-after _ (layout_ids t.layouts) (track_ids ts)
                      (later-ne t.id (t.id ∷ known) _ (mem_self t.id known) distinct.1)))) in
            track-agree t track_id layout_id ts here
              (λ full.
                layouts-agree t (t.id ∷ known) layout_id t.layouts track track.has_layouts own
                  (filtered_some t.sources full))
              gone
        | inr other ↦ past-agree t track_id layout_id ts other (
            tracks-agree (push (t.id ∷ layout_ids t.layouts) known) track_id layout_id ts tracks
              (Distinct-after (t.id ∷ layout_ids t.layouts) (track_ids ts) known distinct))
      ]

  -- In a catalog that `Validate` accepts, `FindSelectableTrackLayout` finds a layout of a track just if
  -- the summary of the catalog lists it.
  pub find_selectable-eq-offers :
      (c : Catalog F) (ids : Ids) (track_id layout_id : String)
      → validate_catalog c ≡ ok ids
      → is_found (find_selectable_track_layout c track_id layout_id)
        ≡ offers track_id layout_id (build_catalog_track_layout_summary c).tracks
  unfolding find_selectable_track_layout build_catalog_track_layout_summary
  find_selectable-eq-offers c ids track_id layout_id h =
      let (version, distinct, tracks) = validate_catalog-Accepted c ids h in
      tracks-agree [] track_id layout_id c.tracks tracks distinct
