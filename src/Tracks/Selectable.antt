-- ===== src/Tracks/Selectable.antt =====
-- internal/tracks/catalog_summary.go: the layouts that a driver may choose.
pub mod Listed
pub mod Agreement
use telemetry_one_backend.Base.{
  String, Bool, true, false, ◌&&◌, ◌||◌, not, Option, none, some, List, [], ◌∷◌, if◌then◌else◌,
  ◌==◌, string_eq,
}
use telemetry_one_backend.Tracks.Types.{Source, CatalogLayout, CatalogTrack, Catalog}
use telemetry_one_backend.Tracks.Sources.{validate_sources, filter_production_sources}

pub record CatalogTrackLayoutSummaryItem (F : Type 0) : Type 0 where
  pub id : String
  pub name : String
  pub length_meters : F
  pub sources : List Source

pub record CatalogTrackLayoutItem (F : Type 0) : Type 0 where
  pub id : String
  pub name : String
  pub country : String
  pub sources : List Source
  pub layouts : List (CatalogTrackLayoutSummaryItem F)

pub record CatalogTrackLayoutSummary (F : Type 0) : Type 0 where
  pub catalog_version : String
  pub tracks : List (CatalogTrackLayoutItem F)

abbrev pub is_empty {ℓ} : {A : Type ℓ} → List A → Bool
is_empty [] = true
is_empty (x ∷ xs) = false

abbrev pub is_none {ℓ} : {A : Type ℓ} → Option A → Bool
is_none none = true
is_none (some a) = false

module _ {F : Type 0} where
  unfoldable pub has_selectable_layout_metadata : CatalogTrack F → CatalogLayout F → Bool
  has_selectable_layout_metadata t l =
      not (t.id == "" || t.name == "" || l.id == "" || l.name == "")
      && not (is_empty t.sources || is_empty l.sources)
      && is_none (validate_sources "track.sources" t.sources)
      && is_none (validate_sources "layout.sources" l.sources)

  -- The layout is listed.
  unfoldable pub is_listed : CatalogTrack F → CatalogLayout F → Bool
  is_listed t l =
      has_selectable_layout_metadata t l && not (is_empty (filter_production_sources l.sources))

  unfoldable pub layout_item : CatalogLayout F → CatalogTrackLayoutSummaryItem F
  layout_item l = record {
    id = l.id;
    name = l.name;
    length_meters = l.length_meters;
    sources = filter_production_sources l.sources;
  }

  unfoldable pub layout_items :
      CatalogTrack F → List (CatalogLayout F) → List (CatalogTrackLayoutSummaryItem F)
  layout_items t [] = []
  layout_items t (l ∷ ls) =
      let rest = layout_items t ls in if is_listed t l then layout_item l ∷ rest else rest

  unfoldable pub track_item : CatalogTrack F → CatalogTrackLayoutItem F
  track_item t = record {
    id = t.id;
    name = t.name;
    country = t.country;
    sources = filter_production_sources t.sources;
    layouts = layout_items t t.layouts;
  }

  unfoldable pub track_items : List (CatalogTrack F) → List (CatalogTrackLayoutItem F)
  track_items [] = []
  track_items (t ∷ ts) =
      let rest = track_items ts in
      if is_empty (filter_production_sources t.sources) || is_empty (layout_items t t.layouts)
      then rest
      else track_item t ∷ rest

  unfoldable pub build_catalog_track_layout_summary : Catalog F → CatalogTrackLayoutSummary F
  build_catalog_track_layout_summary c = record {
    catalog_version = c.catalog_version;
    tracks = track_items c.tracks;
  }

  -- The layout that has the identifier, where it may be chosen.
  unfoldable pub selectable_in :
      CatalogTrack F → String → List (CatalogLayout F) → Option (CatalogTrack F × CatalogLayout F)
  selectable_in t layout_id [] = none
  selectable_in t layout_id (l ∷ ls) =
      let rest = selectable_in t layout_id ls in
      if not (l.id == layout_id)
      then rest
      else if is_empty (filter_production_sources l.sources)
      then none
      else if is_empty t.sources || is_empty l.sources
      then none
      else if not (is_none (validate_sources "track.sources" t.sources))
          || not (is_none (validate_sources "layout.sources" l.sources))
      then none
      else some (t, l)

  unfoldable pub selectable_among :
      String → String → List (CatalogTrack F) → Option (CatalogTrack F × CatalogLayout F)
  selectable_among track_id layout_id [] = none
  selectable_among track_id layout_id (t ∷ ts) =
      let rest = selectable_among track_id layout_id ts in
      if not (t.id == track_id)
      then rest
      else if is_empty (filter_production_sources t.sources)
      then none
      else selectable_in t layout_id t.layouts

  unfoldable pub find_selectable_track_layout :
      Catalog F → String → String → Option (CatalogTrack F × CatalogLayout F)
  find_selectable_track_layout c track_id layout_id = selectable_among track_id layout_id c.tracks
