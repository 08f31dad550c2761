-- ===== src/Tracks/Validation/Accepted.antt =====
-- What a catalog that `Validate` accepts is like.
use telemetry_one_backend.Base.{
  ℕ, suc, String, ◌≡◌, refl, sym, subst, ap, ◌∙◌, Bool, true, false, ◌||◌, not, Option, none, some,
  List, [], ◌∷◌, ◌++◌, map, if◌then◌else◌, ◌==◌, string_eq, inl, inr, Option-cases, arith, All,
}
use telemetry_one_backend.Base.Float.{Float64}
use telemetry_one_backend.Base.Dict.{lookup, insert, lookup-insert}
use telemetry_one_backend.Base.Text.{◌&◌}
use telemetry_one_backend.Base.Result.{
  Result, ok, or_error, ◌>>◌, Passes-of_first_error, or_else-eq-none, >>=-eq-ok,
}
use telemetry_one_backend.Tracks.Types.{Source, Corner, CatalogLayout, CatalogTrack, Catalog, Fault}
use telemetry_one_backend.Tracks.Sources.{at, validate_sources_from, validate_sources}
use telemetry_one_backend.Tracks.Ranges.{
  Ids, check, remember_id, zero_float, CornerState, place_corner, validate_corners_from,
  validate_corners,
}
use telemetry_one_backend.Tracks.Validation.{
  validate_layout, validate_layouts_from, validate_tracks_from, validate_catalog,
  catalog_version_v1,
}

abbrev pub mem : String → List String → Bool
mem x [] = false
mem x (y ∷ ys) = y == x || mem x ys

-- The identifiers are new after those that are known, and no two are the same.
abbrev pub Distinct : List String → List String → Type 0
Distinct known [] = Unit
Distinct known (x ∷ xs) = (mem x known ≡ false) × Distinct (x ∷ known) xs

abbrev pub push : List String → List String → List String
push [] known = known
push (x ∷ xs) known = push xs (x ∷ known)

pub Distinct-append :
    (xs ys known : List String)
    → Distinct known xs
    → Distinct (push xs known) ys
    → Distinct known (xs ++ ys)
Distinct-append [] ys known h k = k
Distinct-append (x ∷ xs) ys known h k = (h.0, Distinct-append xs ys (x ∷ known) h.1 k)

pub push-append : (xs ys known : List String) → push (xs ++ ys) known ≡ push ys (push xs known)
push-append [] ys known = refl
push-append (x ∷ xs) ys known = push-append xs ys (x ∷ known)

abbrev is_some : Option String → Bool
is_some none = false
is_some (some a) = true

-- The map holds just the identifiers that are known.
abbrev Knows : Ids → List String → Type 0
Knows ids known = (k : String) → is_some (lookup k ids) ≡ mem k known

remember-Knows :
    (ids ids' : Ids) (known : List String) (id path : String)
    → remember_id ids id path ≡ ok ids'
    → Knows ids known
    → (mem id known ≡ false) × Knows ids' (id ∷ known)
unfolding remember_id
remember-Knows ids ids' known id path h knows = elim (Option-cases (lookup id ids)) [
  | inr (place, found) ↦ cc (rw found at h)
  | inl fresh ↦
      let same : ids' ≡ insert id path ids = cc (rw fresh at h) in
      (
        sym (knows id) ∙ ap is_some fresh,
        λ k. rw same (ground (arith, lookup-insert id k path ids, knows k)),
      )
]

-- A check that the code has passed.
pub check-eq-ok {ℓ} :
    {B : Type ℓ} (o : Option Fault) (rest : Result Fault B) {b : B}
    → (check o >> rest) ≡ ok b
    → (o ≡ none) × (rest ≡ ok b)
unfolding or_error
check-eq-ok none rest h = (refl, h)
check-eq-ok (some f) rest h = cc h

-- From the identifiers `ids` the checks came to `ids'` by way of the new ones.
abbrev IsNew : Ids → List String → Ids → Type 0
IsNew ids new ids' =
    (known : List String) → Knows ids known → Distinct known new × Knows ids' (push new known)

IsNew-append :
    (ids ids' ids'' : Ids) (xs ys : List String)
    → IsNew ids xs ids'
    → IsNew ids' ys ids''
    → IsNew ids (xs ++ ys) ids''
IsNew-append ids ids' ids'' xs ys h k known knows =
    let (first, then_knows) = h known knows in
    let (second, last) = k (push xs known) then_knows in
    (
      Distinct-append xs ys known first second,
      subst (λ l. Knows ids'' l) (sym (push-append xs ys known)) last,
    )

IsNew-one :
    (ids ids' : Ids) (id path : String)
    → remember_id ids id path ≡ ok ids'
    → IsNew ids (id ∷ []) ids'
IsNew-one ids ids' id path h known knows =
    let (fresh, now) = remember-Knows ids ids' known id path h knows in ((fresh, tt), now)

IsNew-none : (ids : Ids) → IsNew ids [] ids
IsNew-none ids known knows = (tt, knows)

pub record IsComplete (s : Source) : Type 0 where
  pub has_url : (s.url == "") ≡ false
  pub has_type : (s.source_type == "") ≡ false
  pub has_date : (s.retrieved_at == "") ≡ false

pub sources-IsComplete :
    (path : String) (i : ℕ) (ss : List Source)
    → validate_sources_from path i ss ≡ none
    → All IsComplete ss
unfolding validate_sources_from
sources-IsComplete path i [] h = tt
sources-IsComplete path i (s ∷ ss) h =
    let (first, rest) = (or_else-eq-none _ _).0 h in
    let (url, (type, (date, end))) = Passes-of_first_error _ first in
    (
      record { has_url = url; has_type = type; has_date = date },
      sources-IsComplete path (suc i) ss rest,
    )

none-eq-false : (b : Bool) (f : Fault) → (if b then some f else none) ≡ none → b ≡ false
none-eq-false true f h = cc h
none-eq-false false f h = refl

version_eq : (v : String) → not (v == catalog_version_v1) ≡ false → v ≡ catalog_version_v1
version_eq v h = ground (arith, string_eq.test_iff v catalog_version_v1)

nothing-Knows : Knows [] []
unfolding lookup
nothing-Knows k = refl

module _ {F : Type 0} ⦃fl : Float64 F⦄ where
  abbrev pub corner_ids : List (Corner F) → List String
  corner_ids cs = map (λ c. c.id) cs

  abbrev pub layout_ids : List (CatalogLayout F) → List String
  layout_ids [] = []
  layout_ids (l ∷ ls) = (l.id ∷ corner_ids l.corners) ++ layout_ids ls

  abbrev pub track_ids : List (CatalogTrack F) → List String
  track_ids [] = []
  track_ids (t ∷ ts) = (t.id ∷ layout_ids t.layouts) ++ track_ids ts

  corners-IsNew :
      (path : String) (length_meters : F) (count i : ℕ) (state : CornerState F) (ids ids' : Ids)
      (cs : List (Corner F))
      → validate_corners_from path length_meters count i state ids cs ≡ ok ids'
      → IsNew ids (corner_ids cs) ids'
  unfolding validate_corners_from
  corners-IsNew path length_meters count i state ids ids' [] h =
      let e : ids ≡ ids' = cc h in subst (λ x. IsNew ids [] x) e (IsNew-none ids)
  corners-IsNew path length_meters count i state ids ids' (c ∷ cs) h =
      let (named, h1) = check-eq-ok _ _ h in
      let (ids1, new, h2) = >>=-eq-ok (remember_id ids c.id (at path i)) _ h1 in
      let (sources, h3) = check-eq-ok _ _ h2 in
      let (state', placed, h4) =
        >>=-eq-ok (place_corner (at path i) length_meters count i state c) _ h3 in
      IsNew-append ids ids1 ids' (c.id ∷ []) (corner_ids cs)
        (IsNew-one ids ids1 c.id (at path i) new)
        (corners-IsNew path length_meters count (suc i) state' ids1 ids' cs h4)

  -- What an accepted layout is like.
  pub record IsLayout (l : CatalogLayout F) : Type 0 where
    pub has_id : (l.id == "") ≡ false
    pub has_name : (l.name == "") ≡ false
    pub has_length : fl.le l.length_meters zero_float ≡ false
    pub has_sources : All IsComplete l.sources

  pub validate_layout-IsNew :
      (path : String) (ids ids' : Ids) (l : CatalogLayout F)
      → validate_layout path ids l ≡ ok ids'
      → IsLayout l × IsNew ids (l.id ∷ corner_ids l.corners) ids'
  unfolding validate_layout validate_corners validate_sources
  validate_layout-IsNew path ids ids' l h =
      let (named, h1) = check-eq-ok _ _ h in
      let (ids1, new, h2) = >>=-eq-ok (remember_id ids l.id path) _ h1 in
      let (long, h3) = check-eq-ok _ _ h2 in
      let (sources, h4) = check-eq-ok _ _ h3 in
      let (sectors, h5) = check-eq-ok _ _ h4 in
      let (ids2, corners, h6) =
        >>=-eq-ok (validate_corners (path & ".corners") l.corners l.length_meters ids1) _ h5 in
      let (line, h7) = check-eq-ok _ _ h6 in
      let same : ids2 ≡ ids' = cc h7 in
      let (id, (name, rest)) = Passes-of_first_error _ named in
      (
        record {
          has_id = id;
          has_name = name;
          has_length = none-eq-false _ _ long;
          has_sources = sources-IsComplete (path & ".sources") 0 l.sources sources;
        },
        subst (λ x. IsNew ids (l.id ∷ corner_ids l.corners) x) same
            (IsNew-append ids ids1 ids2 (l.id ∷ []) (corner_ids l.corners)
              (IsNew-one ids ids1 l.id path new)
              (corners-IsNew _ _ _ _ _ ids1 ids2 l.corners corners)),
      )

  layouts-IsNew :
      (path : String) (i : ℕ) (ids ids' : Ids) (ls : List (CatalogLayout F))
      → validate_layouts_from path i ids ls ≡ ok ids'
      → All IsLayout ls × IsNew ids (layout_ids ls) ids'
  unfolding validate_layouts_from
  layouts-IsNew path i ids ids' [] h =
      let e : ids ≡ ids' = cc h in (tt, subst (λ x. IsNew ids [] x) e (IsNew-none ids))
  layouts-IsNew path i ids ids' (l ∷ ls) h =
      let (ids1, first, rest) = >>=-eq-ok (validate_layout (at (path & ".layouts") i) ids l) _ h in
      let (is_layout, new) = validate_layout-IsNew (at (path & ".layouts") i) ids ids1 l first in
      let (all, others) = layouts-IsNew path (suc i) ids1 ids' ls rest in
      (
        (is_layout, all),
        IsNew-append ids ids1 ids' (l.id ∷ corner_ids l.corners) (layout_ids ls) new others,
      )

  -- What an accepted track is like.
  pub record IsTrack (t : CatalogTrack F) : Type 0 where
    pub has_id : (t.id == "") ≡ false
    pub has_name : (t.name == "") ≡ false
    pub has_sources : All IsComplete t.sources
    pub has_layouts : All IsLayout t.layouts

  tracks-IsNew :
      (i : ℕ) (ids ids' : Ids) (ts : List (CatalogTrack F))
      → validate_tracks_from i ids ts ≡ ok ids'
      → All IsTrack ts × IsNew ids (track_ids ts) ids'
  unfolding validate_tracks_from validate_sources
  tracks-IsNew i ids ids' [] h =
      let e : ids ≡ ids' = cc h in (tt, subst (λ x. IsNew ids [] x) e (IsNew-none ids))
  tracks-IsNew i ids ids' (t ∷ ts) h =
      let path = at "tracks" i in
      let (named, h1) = check-eq-ok _ _ h in
      let (ids1, new, h2) = >>=-eq-ok (remember_id ids t.id path) _ h1 in
      let (sources, h3) = check-eq-ok _ _ h2 in
      let (ids2, layouts, h4) = >>=-eq-ok (validate_layouts_from path 0 ids1 t.layouts) _ h3 in
      let (id, (name, rest)) = Passes-of_first_error _ named in
      let (all, inner) = layouts-IsNew path 0 ids1 ids2 t.layouts layouts in
      let (tracks, others) = tracks-IsNew (suc i) ids2 ids' ts h4 in
      (
        (
          record {
            has_id = id;
            has_name = name;
            has_sources = sources-IsComplete (path & ".sources") 0 t.sources sources;
            has_layouts = all;
          },
          tracks,
        ),
        IsNew-append ids ids2 ids' (t.id ∷ layout_ids t.layouts) (track_ids ts)
            (IsNew-append ids ids1 ids2 (t.id ∷ []) (layout_ids t.layouts)
              (IsNew-one ids ids1 t.id path new) inner)
            others,
      )

  -- Of a catalog that `Validate` accepts, no identifier of a track, a layout or a corner occurs twice;
  -- the version is the supported one; every track and layout has an identifier, a name, and sources
  -- that are complete, and every layout a length above 0.
  pub validate_catalog-Accepted :
      (c : Catalog F) (ids : Ids)
      → validate_catalog c ≡ ok ids
      → (c.catalog_version ≡ catalog_version_v1)
        × Distinct [] (track_ids c.tracks)
        × All IsTrack c.tracks
  unfolding validate_catalog
  validate_catalog-Accepted c ids h =
      let (version, h1) = check-eq-ok _ _ h in
      let (given, (supported, rest)) = Passes-of_first_error _ version in
      let (all, new) = tracks-IsNew 0 [] ids c.tracks h1 in
      (version_eq c.catalog_version supported, (new [] nothing-Knows).0, all)
