-- ===== src/Corners/Resolver.antt =====
-- internal/corners/resolver.go: which corner a place is in.
pub mod Placed
pub mod Apart
pub mod Unique
use telemetry_one_backend.Base.{
  String, Bool, true, false, ◌&&◌, ◌||◌, not, Option, none, some, List, [], ◌∷◌, if◌then◌else◌,
  ◌==◌, string_eq, ℤ, pos,
}
use telemetry_one_backend.Base.Float.{Float64}
use telemetry_one_backend.Base.Result.{Result, ok, err}
use telemetry_one_backend.Tracks.Types.{Corner, CatalogLayout, is_finite}

pub data ResolveError : Type 0 where
  invalid_distance : ResolveError
  invalid_length : ResolveError

pub record Resolution (F : Type 0) : Type 0 where
  pub status : String
  pub reason : String
  pub corner_id : String
  pub corner_name : String
  pub number : ℤ
  pub start_meters : F
  pub apex_meters : F
  pub end_meters : F

module _ {F : Type 0} where
  abbrev pub is_manual : Corner F → Bool
  is_manual c = c.definition_mode == "catalog_manual"

  unfoldable pub in_corner : Corner F → Resolution F
  in_corner c = record {
    status = "in_corner";
    reason = "";
    corner_id = c.id;
    corner_name = c.name;
    number = c.number;
    start_meters = c.start_meters;
    apex_meters = c.apex_meters;
    end_meters = c.end_meters;
  }

  -- The loop over the corners where no manual one contains the distance.
  unfoldable pub no_corner_reason : List (Corner F) → String
  no_corner_reason [] = "outside_corner_range"
  no_corner_reason (c ∷ cs) =
      let rest = no_corner_reason cs in
      if c.definition_mode == "catalog_enumerated"
      then "catalog_has_enumerated_corners"
      else if not (is_manual c)
      then "unsupported_corner_definition"
      else rest

module _ {F : Type 0} ⦃fl : Float64 F⦄ where
  open fl use {literal, add, fmod, lt, le, eq}

  unfoldable pub no_corner : String → Resolution F
  no_corner reason = record {
    status = "no_corner";
    reason = reason;
    corner_id = "";
    corner_name = "";
    number = pos 0;
    start_meters = literal 0 0;
    apex_meters = literal 0 0;
    end_meters = literal 0 0;
  }

  unfoldable pub normalize_distance : F → F → F
  normalize_distance distance total =
      let normalized = fmod distance total in
      if lt normalized (literal 0 0) then add normalized total else normalized

  unfoldable pub contains_distance : Corner F → F → Bool → Bool
  contains_distance c distance closed =
      if lt c.start_meters c.end_meters
      then le c.start_meters distance && lt distance c.end_meters
      else if not closed || eq c.start_meters c.end_meters
      then false
      else le c.start_meters distance || lt distance c.end_meters

  -- The first manual corner that contains the distance.
  unfoldable pub find_manual : F → Bool → List (Corner F) → Option (Corner F)
  find_manual distance closed [] = none
  find_manual distance closed (c ∷ cs) =
      let rest = find_manual distance closed cs in
      if is_manual c && contains_distance c distance closed then some c else rest

  unfoldable pub resolution : List (Corner F) → Option (Corner F) → Resolution F
  resolution cs none = no_corner (no_corner_reason cs)
  resolution cs (some c) = in_corner c

  -- Where on the layout the distance is.
  unfoldable pub place_of : CatalogLayout F → F → Bool → F
  place_of l distance closed =
      if closed then normalize_distance distance l.length_meters else distance

  -- On an open course, a distance that is not on the layout.
  unfoldable pub is_outside : CatalogLayout F → F → Bool → Bool
  is_outside l distance closed =
      not closed && (lt distance (literal 0 0) || le l.length_meters distance)

  unfoldable pub resolve_on : CatalogLayout F → F → Bool → List (Corner F) → Resolution F
  resolve_on l distance closed [] = no_corner "catalog_has_no_corners"
  resolve_on l distance closed (c ∷ cs) =
      if is_outside l distance closed
      then no_corner "outside_corner_range"
      else resolution (c ∷ cs) (find_manual (place_of l distance closed) closed (c ∷ cs))

  unfoldable pub resolve_current : CatalogLayout F → F → Bool → Result ResolveError (Resolution F)
  resolve_current l distance closed =
      if le l.length_meters (literal 0 0)
      then err invalid_length
      else if not (is_finite distance)
      then err invalid_distance
      else ok (resolve_on l distance closed l.corners)
