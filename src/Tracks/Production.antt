-- ===== src/Tracks/Production.antt =====
-- internal/tracks/catalog.go: the checks that a catalog may be seeded from.
use mathlib.Core.Option
use telemetry_one_backend.Base.{ℕ, suc, String, Option, none, List, [], ◌∷◌, string_eq, nat_eq}
use telemetry_one_backend.Base.Float.{Float64}
use telemetry_one_backend.Base.Text.{◌&◌}
use telemetry_one_backend.Base.Result.{Result, ◌>>=◌}
use telemetry_one_backend.Tracks.Types.{Sector, Corner, CatalogLayout, CatalogTrack, Catalog, Fault}
use telemetry_one_backend.Tracks.Ranges.{check}
use telemetry_one_backend.Tracks.Validation.{validate_catalog}
use telemetry_one_backend.Tracks.Sources.{at, require_production_sources}

module _ {F : Type 0} ⦃fl : Float64 F⦄ where
  open fl use {literal, lt, le, eq}

  -- `ValidateSourceOfTruth`, part by part.
  unfoldable pub production_sectors_from : String → ℕ → List (Sector F) → Option Fault
  production_sectors_from path i [] = none
  production_sectors_from path i (s ∷ ss) =
      Option.or_else (require_production_sources (at (path & ".sectors") i & ".sources") s.sources)
        (production_sectors_from path (suc i) ss)

  unfoldable pub production_corners_from : String → ℕ → List (Corner F) → Option Fault
  production_corners_from path i [] = none
  production_corners_from path i (c ∷ cs) =
      Option.or_else (require_production_sources (at (path & ".corners") i & ".sources") c.sources)
        (production_corners_from path (suc i) cs)

  unfoldable pub production_layouts_from : String → ℕ → List (CatalogLayout F) → Option Fault
  production_layouts_from path i [] = none
  production_layouts_from path i (l ∷ ls) =
      let layout_path = at (path & ".layouts") i in
      Option.or_else (require_production_sources (layout_path & ".sources") l.sources) (
        Option.or_else (production_sectors_from layout_path 0 l.sectors) (
          Option.or_else (production_corners_from layout_path 0 l.corners)
            (production_layouts_from path (suc i) ls)))

  unfoldable pub production_tracks_from : ℕ → List (CatalogTrack F) → Option Fault
  production_tracks_from i [] = none
  production_tracks_from i (t ∷ ts) =
      Option.or_else (require_production_sources (at "tracks" i & ".sources") t.sources) (
        Option.or_else (production_layouts_from (at "tracks" i) 0 t.layouts)
          (production_tracks_from (suc i) ts))

  unfoldable pub validate_source_of_truth : Catalog F → Result Fault (Unit {0})
  validate_source_of_truth c = do
    ids ← validate_catalog c
    check (production_tracks_from 0 c.tracks)
