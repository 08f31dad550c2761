-- ===== src/Laps/Build/Series.antt =====
-- `BuildLapSamples` ends, with samples at rising distances.
use native.Mathlib.Nat.{add-mod_right, zero-mod}
use telemetry_one_backend.Base.{
  ℕ, zero, suc, ◌+◌, ◌%◌, ◌^◌, ◌≤◌, ◌<◌, String, ◌≡◌, refl, sym, ap, ◌∙◌, Bool, true, false, ◌&&◌,
  not, Option, none, some, List, [], ◌∷◌, ◌==◌, string_eq, int_eq, inl, inr, Bool-cases, ltb, arith,
  All, ℤ, pos, leb_ℤ, add64, wrap64, ◌+ℤ◌,
}
use telemetry_one_backend.Base.Float.{Float64}
use telemetry_one_backend.Base.Sort.{sort_by}
use telemetry_one_backend.Base.Sort.Laws.{All-sort_by}
use telemetry_one_backend.Telemetry.Frame.{Frame}
use telemetry_one_backend.Laps.Lap.{CompletedLap}
use telemetry_one_backend.Laps.Sample.{LapSample, sample_with_defaults}
use telemetry_one_backend.Laps.Sampling.{
  meters, collapse_from, collapse_duplicate_distance_frames, bracket_frames, interpolate_sample,
}
use telemetry_one_backend.Laps.Build.{
  frames_in_lap, is_earlier, rises, last_frame, after_bucket, bucket_loop, unless_empty, samples_of,
  samples_of_sorted, build_lap_samples,
}

add64_small : (m k : ℕ) → m + k < 2 ^ 63 → add64 (pos m) (pos k) ≡ pos (m + k)
unfolding wrap64 ◌+ℤ◌
add64_small m k h = ground arith

step_forward : (k : ℕ) → leb_ℤ (pos (suc k)) (pos 0) ≡ false
step_forward k = ground arith

next_multiple : (m k : ℕ) → m % suc k ≡ 0 → (m + suc k) % suc k ≡ 0
next_multiple m k h = add-mod_right m (suc k) ∙ h

module _ {F : Type 0} ⦃fl : Float64 F⦄ where
  -- The number of meters `n` or more lies behind the distance.
  abbrev pub IsShort : ℕ → F → Type 0
  IsShort limit d = (n : ℕ) → limit ≤ n → fl.le (fl.of_int (pos n)) d ≡ false

  -- The sample is what the frames show at its distance.
  pub record IsShown (lap_id : String) (frames : List (Frame F)) (s : LapSample F) : Type 0 where
    pub left : Frame F
    pub right : Frame F
    pub around : bracket_frames frames (fl.of_int s.distance_meters) ≡ some (left, right)
    pub shown : s ≡ interpolate_sample lap_id s.distance_meters left right

  -- Samples at rising multiples of the step, from the distance `low` on.
  abbrev pub IsSeries : ℕ → ℕ → List (LapSample F) → Type 0
  IsSeries step low [] = Unit
  IsSeries step low (s ∷ ss) =
      (n : ℕ) × (s.distance_meters ≡ pos n) × (low ≤ n) × (n % step ≡ 0) × IsSeries step (n + 1) ss

  IsSeries-lower :
      (step low low' : ℕ) (ss : List (LapSample F))
      → low' ≤ low
      → IsSeries step low ss
      → IsSeries step low' ss
  IsSeries-lower step low low' [] h s = tt
  IsSeries-lower step low low' (s ∷ ss) h (n, at, above, multiple, rest) =
      (n, at, omega arith, multiple, rest)

  defaults_distance :
      (s : LapSample F) → (sample_with_defaults s).distance_meters ≡ s.distance_meters
  unfolding sample_with_defaults
  defaults_distance s =
      elim (Bool-cases (s.id == "" && not (s.lap_id == "") && leb_ℤ (pos 0) s.distance_meters)) [
        | inl given ↦ rw given refl
        | inr kept ↦ rw kept refl
      ]

  sample_distance :
      (lap_id : String) (d : ℤ) (left right : Frame F)
      → (interpolate_sample lap_id d left right).distance_meters ≡ d
  unfolding interpolate_sample
  sample_distance lap_id d left right = defaults_distance _

  below_limit :
      (limit : ℕ) (last : F) (m : ℕ)
      → fl.le (fl.of_int (pos m)) last ≡ true
      → IsShort limit last
      → m < limit
  below_limit limit last m under short = elim (Bool-cases (ltb m limit)) [
    | inl below ↦ ground (arith, below)
    | inr above ↦ absurd (ground (arith, under, short m (ground (arith, above))))
  ]

  module _ (lap_id : String) (k limit : ℕ) (frames : List (Frame F)) (first last : F) where
    -- What is there from a bucket on.
    abbrev GoesOn : ℕ → Option (List (LapSample F)) → Type 0
    GoesOn m r =
        (ss : List (LapSample F)) × (r ≡ some ss)
        × IsSeries (suc k) m ss
        × All (IsShown lap_id frames) ss

    with_sample-GoesOn :
        (m : ℕ) (before : Bool) (around : Option (Frame F × Frame F)) (ss : List (LapSample F))
        → m % suc k ≡ 0
        → bracket_frames frames (fl.of_int (pos m)) ≡ around
        → IsSeries (suc k) (m + suc k) ss
        → All (IsShown lap_id frames) ss
        → GoesOn m (after_bucket lap_id (pos m) before around (some ss))
    with_sample-GoesOn m true around ss multiple e series shown =
        (ss, refl, IsSeries-lower (suc k) (m + suc k) m ss (omega arith) series, shown)
    with_sample-GoesOn m false none ss multiple e series shown =
        (ss, refl, IsSeries-lower (suc k) (m + suc k) m ss (omega arith) series, shown)
    with_sample-GoesOn m false (some (left, right)) ss multiple e series shown =
        let at = sample_distance lap_id (pos m) left right in
        (
          interpolate_sample lap_id (pos m) left right ∷ ss,
          refl,
          (
            m,
            at,
            omega arith,
            multiple,
            IsSeries-lower (suc k) (m + suc k) (m + 1) ss (omega arith) series,
          ),
          (
            record {
              left = left;
              right = right;
              around = ap (λ d. bracket_frames frames (fl.of_int d)) at ∙ e;
              shown = ap (λ d. interpolate_sample lap_id d left right) (sym at);
            },
            shown,
          ),
        )

    bucket_loop-GoesOn :
        (fuel m : ℕ)
        → limit + suc k < 2 ^ 63
        → IsShort limit last
        → m % suc k ≡ 0
        → limit ≤ m + fuel
        → GoesOn m (bucket_loop (suc fuel) lap_id (pos (suc k)) frames first last (pos m))
    unfolding bucket_loop
    bucket_loop-GoesOn zero m small short multiple enough =
        let over = short m (omega arith) in rw over ([], refl, tt, tt)
    bucket_loop-GoesOn (suc fuel) m small short multiple enough =
        elim (Bool-cases (fl.le (fl.of_int (pos m)) last)) [
          | inr over ↦ rw over ([], refl, tt, tt)
          | inl under ↦
              let below : m < limit = below_limit limit last m under short in
              let (ss, found, series, shown) =
                bucket_loop-GoesOn fuel (m + suc k) small short (next_multiple m k multiple)
                  (omega arith) in
              let next = add64_small m (suc k) (omega arith) in
              let rest : bucket_loop (suc fuel) lap_id (pos (suc k)) frames first last
                    (add64 (pos m) (pos (suc k)))
                  ≡ some ss =
                ap (bucket_loop (suc fuel) lap_id (pos (suc k)) frames first last) next ∙ found in
              rw (under, rest)
                (with_sample-GoesOn m (fl.lt (fl.of_int (pos m)) first)
                  (bracket_frames frames (fl.of_int (pos m))) ss multiple refl series shown)
        ]

  -- A frame whose distance is below the limit.
  abbrev pub IsNear : ℕ → Frame F → Type 0
  IsNear limit f = IsShort limit (meters f)

  collapse_from-All :
      (P : Frame F → Type 0) (last : Frame F) (fs : List (Frame F))
      → P last
      → All P fs
      → All P (collapse_from last fs)
  unfolding collapse_from
  collapse_from-All P last [] h a = (h, tt)
  collapse_from-All P last (f ∷ fs) h (a, rest) =
      elim (Bool-cases (fl.eq (meters f) (meters last))) [
        | inl same ↦ rw same (collapse_from-All P f fs a rest)
        | inr other ↦ rw other (h, collapse_from-All P f fs a rest)
      ]

  last_frame-All :
      (P : Frame F → Type 0) (f : Frame F) (fs : List (Frame F))
      → P f
      → All P fs
      → P (last_frame f fs)
  unfolding last_frame
  last_frame-All P f [] h a = h
  last_frame-All P f (g ∷ gs) h (a, rest) = last_frame-All P g gs a rest

  -- The frames of the lap in the order of their times, of those at one distance the last.
  abbrev pub path_of : CompletedLap → List (Frame F) → List (Frame F)
  path_of lap frames =
      collapse_duplicate_distance_frames (sort_by is_earlier (frames_in_lap lap.lap_number frames))

  -- No samples, or samples at rising multiples of the step that the frames show.
  abbrev pub IsBuilt : String → ℕ → List (Frame F) → Option (List (LapSample F)) → Type 0
  IsBuilt lap_id step frames none = Unit
  IsBuilt lap_id step frames (some ss) = IsSeries step 0 ss × All (IsShown lap_id frames) ss

  abbrev Ends : String → ℕ → List (Frame F) → Option (Option (List (LapSample F))) → Type 0
  Ends lap_id step frames r =
      (built : Option (List (LapSample F))) × (r ≡ some built) × IsBuilt lap_id step frames built

  unless_empty-Ends :
      (lap_id : String) (step : ℕ) (frames : List (Frame F)) (ss : List (LapSample F))
      → IsSeries step 0 ss
      → All (IsShown lap_id frames) ss
      → Ends lap_id step frames (unless_empty (some ss))
  unless_empty-Ends lap_id step frames [] series shown = (none, refl, tt)
  unless_empty-Ends lap_id step frames (s ∷ ss) series shown =
      (some (s ∷ ss), refl, (series, shown))

  samples_of-Ends :
      (lap_id : String) (k limit : ℕ) (frames : List (Frame F))
      → limit + suc k < 2 ^ 63
      → All (IsNear limit) frames
      → Ends lap_id (suc k) frames (samples_of (suc limit) lap_id (pos (suc k)) frames)
  unfolding samples_of
  samples_of-Ends lap_id k limit [] small near = (none, refl, tt)
  samples_of-Ends lap_id k limit (f ∷ []) small near = (none, refl, tt)
  samples_of-Ends lap_id k limit (f ∷ g ∷ fs) small (near, (next, rest)) =
      let last = meters (last_frame g fs) in
      let (ss, found, series, shown) =
        bucket_loop-GoesOn lap_id k limit (f ∷ g ∷ fs) (meters f) last limit 0 small
          (last_frame-All (IsNear limit) g fs next rest) (zero-mod (suc k)) (omega arith) in
      elim (Bool-cases (fl.le last (meters f))) [
        | inl still ↦ rw still (none, refl, tt)
        | inr onward ↦
            rw (onward, found) (unless_empty-Ends lap_id (suc k) (f ∷ g ∷ fs) ss series shown)
      ]

  samples_of_sorted-Ends :
      (lap_id : String) (k limit : ℕ) (frames : List (Frame F))
      → limit + suc k < 2 ^ 63
      → All (IsNear limit) frames
      → Ends lap_id
          (suc k)
          (collapse_duplicate_distance_frames frames)
          (samples_of_sorted (suc limit) lap_id (pos (suc k)) frames)
  unfolding samples_of_sorted collapse_duplicate_distance_frames
  samples_of_sorted-Ends lap_id k limit [] small near = (none, refl, tt)
  samples_of_sorted-Ends lap_id k limit (f ∷ []) small near = (none, refl, tt)
  samples_of_sorted-Ends lap_id k limit (f ∷ g ∷ fs) small (near, rest) =
      elim (Bool-cases (rises (f ∷ g ∷ fs))) [
        | inl up ↦ rw up (
            samples_of-Ends lap_id k limit (collapse_from f (g ∷ fs)) small
              (collapse_from-All (IsNear limit) f (g ∷ fs) near rest))
        | inr down ↦ rw down (none, refl, tt)
      ]

  -- Where every frame of the lap has a distance below a limit of whole meters, and the limit and the
  -- step together are below 2 ^ 63, `BuildLapSamples` ends before it has tried more buckets than the
  -- limit: with no samples, or with samples at rising multiples of the step, each of which is what the
  -- two frames around its distance show.
  pub build_lap_samples_lem :
      (lap : CompletedLap) (frames : List (Frame F)) (k limit : ℕ)
      → limit + suc k < 2 ^ 63
      → All (IsNear limit) (frames_in_lap lap.lap_number frames)
      → (built : Option (List (LapSample F))) × (build_lap_samples
            (suc limit)
            lap
            frames
            (pos (suc k))
          ≡ some built)
        × IsBuilt lap.id (suc k) (path_of lap frames) built
  unfolding build_lap_samples
  build_lap_samples_lem lap frames k limit small near =
      let near_path = All-sort_by is_earlier (IsNear limit) _ near in
      let forward = step_forward k in
      elim (Bool-cases (lap.id == "")) [
        | inl nameless ↦ rw (forward, nameless) (none, refl, tt)
        | inr named ↦ rw (forward, named) (samples_of_sorted-Ends lap.id k limit _ small near_path)
      ]
