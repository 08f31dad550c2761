-- ===== src/Tracks/Sources.antt =====
-- internal/tracks/catalog.go and catalog_summary.go: where the data of a catalog comes from.
use mathlib.Core.Option
use telemetry_one_backend.Base.{
  ℕ, suc, String, Bool, ◌||◌, Option, none, some, List, [], ◌∷◌, if◌then◌else◌, ◌==◌, string_eq,
  pos,
}
use telemetry_one_backend.Base.Text.{◌&◌, decimal}
use telemetry_one_backend.Base.Result.{first_error}
use telemetry_one_backend.Tracks.Types.{
  Source, Fault, fault, missing_source_url, missing_source_type, missing_source_retrieved_at,
  missing_metadata_source, unsupported_source_of_truth_source,
}

-- `path[i]`
abbrev pub at : String → ℕ → String
at path i = path & "[" & decimal (pos i) & "]"

abbrev pub source_checks : String → Source → List (Bool × Fault)
source_checks path s =
    (s.url == "", fault (path & ".url") missing_source_url)
    ∷ (s.source_type == "", fault (path & ".sourceType") missing_source_type)
    ∷ (s.retrieved_at == "", fault (path & ".retrievedAt") missing_source_retrieved_at)
    ∷ []

unfoldable pub validate_sources_from : String → ℕ → List Source → Option Fault
validate_sources_from path i [] = none
validate_sources_from path i (s ∷ ss) =
    Option.or_else (first_error (source_checks (at path i) s))
      (validate_sources_from path (suc i) ss)

unfoldable pub validate_sources : String → List Source → Option Fault
validate_sources path sources = validate_sources_from path 0 sources

unfoldable pub is_production_source_type : String → Bool
is_production_source_type source_type =
    source_type == "official_gran_turismo_tracklist_asset" || source_type == "gt7info_course_csv"

unfoldable pub require_sources : String → List Source → Option Fault
require_sources path [] = some (fault path missing_metadata_source)
require_sources path (s ∷ ss) = validate_sources path (s ∷ ss)

unfoldable pub production_from : String → ℕ → List Source → Option Fault
production_from path i [] = none
production_from path i (s ∷ ss) =
    let rest = production_from path (suc i) ss in
    if is_production_source_type s.source_type
    then rest
    else some (fault (at path i & ".sourceType") unsupported_source_of_truth_source)

unfoldable pub require_production_sources : String → List Source → Option Fault
require_production_sources path sources =
    Option.or_else (require_sources path sources) (production_from path 0 sources)

unfoldable pub filter_production_sources : List Source → List Source
filter_production_sources [] = []
filter_production_sources (s ∷ ss) =
    let rest = filter_production_sources ss in
    if is_production_source_type s.source_type then s ∷ rest else rest
