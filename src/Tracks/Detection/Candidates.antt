-- ===== src/Tracks/Detection/Candidates.antt =====
-- The candidates are the layouts of the catalog that fit the observed length.
use telemetry_one_backend.Base.{
  ℕ, zero, suc, ◌≡◌, refl, true, false, some, List, [], ◌∷◌, ◌++◌, inl, inr, ◌⊎◌, Bool-cases, All,
  All-append, All-after, All-imp, get_elem?, if◌then◌else◌, arith,
}
use telemetry_one_backend.Base.Float.{Float64}
use telemetry_one_backend.Tracks.Types.{CatalogLayout, CatalogTrack}
use telemetry_one_backend.Tracks.Selectable.{has_selectable_layout_metadata}
use telemetry_one_backend.Tracks.Detection.{
  LayoutCandidate, is_candidate, candidate, candidates_in_track, candidates_in,
}

module _ {F : Type 0} ⦃fl : Float64 F⦄ (observed tolerance : F) where
  -- The layout's metadata are complete, and its length is positive and not further from the observed
  -- one than the tolerance times the length.
  pub record Fits (t : CatalogTrack F) (l : CatalogLayout F) : Type 0 where
    pub complete : has_selectable_layout_metadata t l ≡ true
    pub long : fl.le l.length_meters (fl.literal 0 0) ≡ false
    pub close :
        fl.lt (fl.mul l.length_meters tolerance) (fl.abs (fl.sub observed l.length_meters)) ≡ false

  pub data Misses (t : CatalogTrack F) (l : CatalogLayout F) : Type 0 where
    incomplete : has_selectable_layout_metadata t l ≡ false → Misses t l
    short : fl.le l.length_meters (fl.literal 0 0) ≡ true → Misses t l
    far :
        fl.lt (fl.mul l.length_meters tolerance) (fl.abs (fl.sub observed l.length_meters)) ≡ true
        → Misses t l

  -- How sure the match is: 0.85 at the observed length, down to 0.65 at the tolerance.
  abbrev pub match_confidence : CatalogLayout F → F
  match_confidence l =
      let most = fl.mul l.length_meters tolerance in
      let off = fl.abs (fl.sub observed l.length_meters) in
      if fl.lt (fl.literal 0 0) most
      then fl.add (fl.literal 65 2)
          (fl.mul (fl.literal 20 2) (fl.sub (fl.literal 1 0) (fl.div off most)))
      else fl.literal 85 2

  -- The candidate stands for a layout of the tracks that fits.
  pub record IsOf (ts : List (CatalogTrack F)) (k : LayoutCandidate F) : Type 0 where
    pub track_index : ℕ
    pub layout_index : ℕ
    pub track : CatalogTrack F
    pub layout : CatalogLayout F
    pub track_there : get_elem? ts track_index ≡ some track
    pub layout_there : get_elem? track.layouts layout_index ≡ some layout
    pub fits : Fits track layout
    pub made : k ≡ candidate observed tolerance track layout

  -- Every layout of the tracks misses, or has the property with its candidate.
  abbrev pub EachFitting :
      (CatalogTrack F → CatalogLayout F → Type 0) → List (CatalogTrack F) → Type 0
  EachFitting Q ts = All (λ t. All (λ l. Misses t l ⊎ Q t l) t.layouts) ts

  is_candidate-Fits :
      (t : CatalogTrack F) (l : CatalogLayout F)
      → is_candidate observed tolerance t l ≡ true
      → Fits t l
  unfolding is_candidate
  is_candidate-Fits t l h = record {
    complete = ground (arith, h);
    long = ground (arith, h);
    close = ground (arith, h);
  }

  not_candidate-Misses :
      (t : CatalogTrack F) (l : CatalogLayout F)
      → is_candidate observed tolerance t l ≡ false
      → Misses t l
  unfolding is_candidate
  not_candidate-Misses t l h = elim (Bool-cases (has_selectable_layout_metadata t l)) [
    | inr lacks ↦ incomplete lacks
    | inl complete ↦ elim (Bool-cases (fl.le l.length_meters (fl.literal 0 0))) [
      | inl none_long ↦ short none_long
      | inr long ↦ far (ground (arith, h, complete, long))
    ]
  ]

  record IsIn (t : CatalogTrack F) (ls : List (CatalogLayout F)) (k : LayoutCandidate F)
      : Type 0 where
    index : ℕ
    layout : CatalogLayout F
    there : get_elem? ls index ≡ some layout
    fits : Fits t layout
    made : k ≡ candidate observed tolerance t layout

  candidates_in_track-IsIn :
      (t : CatalogTrack F) (ls : List (CatalogLayout F))
      → All (IsIn t ls) (candidates_in_track observed tolerance t ls)
  unfolding candidates_in_track
  candidates_in_track-IsIn t [] = tt
  candidates_in_track-IsIn t (l ∷ ls) =
      let rest =
        All-imp (IsIn t ls) (IsIn t (l ∷ ls)) (candidates_in_track observed tolerance t ls)
          (λ k p. record {
            index = suc p.index;
            layout = p.layout;
            there = p.there;
            fits = p.fits;
            made = p.made;
          })
          (candidates_in_track-IsIn t ls) in
      elim (Bool-cases (is_candidate observed tolerance t l)) [
        | inl fits ↦ rw fits (
          record {
            index = zero;
            layout = l;
            there = refl;
            fits = is_candidate-Fits t l fits;
            made = refl;
          },
          rest,
        )
        | inr misses ↦ rw misses rest
      ]

  pub candidates-IsOf :
      (ts : List (CatalogTrack F)) → All (IsOf ts) (candidates_in observed tolerance ts)
  unfolding candidates_in
  candidates-IsOf [] = tt
  candidates-IsOf (t ∷ ts) =
      All-append (IsOf (t ∷ ts)) (candidates_in_track observed tolerance t t.layouts)
        (candidates_in observed tolerance ts)
        (All-imp (IsIn t t.layouts) _ _
          (λ k p. record {
            track_index = zero;
            layout_index = p.index;
            track = t;
            layout = p.layout;
            track_there = refl;
            layout_there = p.there;
            fits = p.fits;
            made = p.made;
          })
          (candidates_in_track-IsIn t t.layouts))
        (All-imp (IsOf ts) _ _
          (λ k p. record {
            track_index = suc p.track_index;
            layout_index = p.layout_index;
            track = p.track;
            layout = p.layout;
            track_there = p.track_there;
            layout_there = p.layout_there;
            fits = p.fits;
            made = p.made;
          })
          (candidates-IsOf ts))

  module _ (Q : LayoutCandidate F → Type 0) where
    candidates_in_track-each :
        (t : CatalogTrack F) (ls : List (CatalogLayout F)) (rest : List (LayoutCandidate F))
        → All Q (candidates_in_track observed tolerance t ls ++ rest)
        → All (λ l. Misses t l ⊎ Q (candidate observed tolerance t l)) ls
    unfolding candidates_in_track
    candidates_in_track-each t [] rest a = tt
    candidates_in_track-each t (l ∷ ls) rest a =
        elim (Bool-cases (is_candidate observed tolerance t l)) [
          | inl fits ↦
              let b : Q (candidate observed tolerance t l)
                  × All Q (candidates_in_track observed tolerance t ls ++ rest) =
                rw fits at a in
              (inr b.0, candidates_in_track-each t ls rest b.1)
          | inr misses ↦
              let b : All Q (candidates_in_track observed tolerance t ls ++ rest) =
                rw misses at a in
              (inl (not_candidate-Misses t l misses), candidates_in_track-each t ls rest b)
        ]

    -- What holds of all candidates holds of every layout that fits.
    pub candidates-each :
        (ts : List (CatalogTrack F))
        → All Q (candidates_in observed tolerance ts)
        → EachFitting (λ t l. Q (candidate observed tolerance t l)) ts
    unfolding candidates_in
    candidates-each [] a = tt
    candidates-each (t ∷ ts) a = (
      candidates_in_track-each t t.layouts (candidates_in observed tolerance ts) a,
      candidates-each ts (
          All-after Q (candidates_in_track observed tolerance t t.layouts)
            (candidates_in observed tolerance ts) a),
    )

    Misses-not_candidate :
        (t : CatalogTrack F) (l : CatalogLayout F)
        → Misses t l
        → is_candidate observed tolerance t l ≡ false
    unfolding is_candidate
    Misses-not_candidate t l (incomplete h) = ground (arith, h)
    Misses-not_candidate t l (short h) = ground (arith, h)
    Misses-not_candidate t l (far h) = ground (arith, h)

    each-candidates_in_track :
        (t : CatalogTrack F) (ls : List (CatalogLayout F))
        → All (λ l. Misses t l ⊎ Q (candidate observed tolerance t l)) ls
        → All Q (candidates_in_track observed tolerance t ls)
    unfolding candidates_in_track
    each-candidates_in_track t [] a = tt
    each-candidates_in_track t (l ∷ ls) (inl misses, a) =
        rw (Misses-not_candidate t l misses) (each-candidates_in_track t ls a)
    each-candidates_in_track t (l ∷ ls) (inr q, a) =
        elim (Bool-cases (is_candidate observed tolerance t l)) [
          | inl fits ↦ rw fits (q, each-candidates_in_track t ls a)
          | inr misses ↦ rw misses (each-candidates_in_track t ls a)
        ]

    -- What holds of every layout that fits holds of all candidates.
    pub each-candidates :
        (ts : List (CatalogTrack F))
        → EachFitting (λ t l. Q (candidate observed tolerance t l)) ts
        → All Q (candidates_in observed tolerance ts)
    unfolding candidates_in
    each-candidates [] a = tt
    each-candidates (t ∷ ts) (a, rest) =
        All-append Q (candidates_in_track observed tolerance t t.layouts)
          (candidates_in observed tolerance ts) (each-candidates_in_track t t.layouts a)
          (each-candidates ts rest)
