-- ===== src/Laps/Gap/Order.antt =====
-- The gaps of a lap: their bound, and that the order in which frames arrive does not matter.
use telemetry_one_backend.Base.{
  ℕ, suc, ◌-◌, ◌*◌, ◌≤◌, ◌≡◌, refl, sym, ap, ◌∙◌, List, [], ◌∷◌, map, arith, if◌then◌else◌, ◌==◌,
  nat_eq, int_eq, ℤ, pos, ltb_ℤ, leb_ℤ, sub64, length, All, eq_of_parts, ltb, inl, inr, Bool-cases,
}
use mathlib.Core.List.{Perm, Permᴰ}
use mathlib.Core.Logic.{∥∥₁_elim}
use native.Mathlib.Nat.{ℕ_set}
use telemetry_one_backend.Base.Sort.{sort_by, insert_by}
use telemetry_one_backend.Base.Sort.Laws.{IsTotal, All-sort_by, insert_by-insert_by, length-sort_by}
use telemetry_one_backend.Telemetry.Frame.{Frame}
use telemetry_one_backend.Laps.Lap.{CompletedLap}
use telemetry_one_backend.Laps.Gap.{
  count_gaps, frames_of_lap, earlier, deltas_from, positive_timestamp_deltas, count_telemetry_gaps,
}
use telemetry_one_backend.Laps.Gap.Bounds.{
  ltb_ℤ-IsOrder, IsTime, IsSpan, count_gaps_half, deltas_from-spans,
}

ltb_ℤ-IsTotal : IsTotal ltb_ℤ
ltb_ℤ-IsTotal x y h k = eq_of_parts x y (ground arith)

module _ {F : Type 0} where
  All-frames_of_lap :
      (P : Frame F → Type 0) (n : ℤ) (fs : List (Frame F)) → All P fs → All P (frames_of_lap n fs)
  unfolding frames_of_lap
  All-frames_of_lap P n [] a = tt
  All-frames_of_lap P n (f ∷ fs) a = elim (Bool-cases (f.lap_number == n)) [
    | inl e ↦ rw e (a.0, All-frames_of_lap P n fs a.1)
    | inr e ↦ rw e (All-frames_of_lap P n fs a.1)
  ]

  spans :
      (fs : List (Frame F))
      → All IsTime fs
      → All IsSpan (positive_timestamp_deltas fs)
        × (length (positive_timestamp_deltas fs) ≤ length fs - 1)
  unfolding positive_timestamp_deltas
  spans [] a = omega arith
  spans (f ∷ fs) a = let (s, count) = deltas_from-spans f fs a.0 a.1 in (s, omega arith)

  -- Of a lap with `n` frames, whose times are not negative and below 2 ^ 61, twice the number of
  -- gaps is at most `n - 2`: fewer than half of its intervals are gaps.
  pub count_telemetry_gaps_bound :
      (lap : CompletedLap) (fs : List (Frame F))
      → All IsTime fs
      → 2 * count_telemetry_gaps lap fs ≤ length (frames_of_lap lap.lap_number fs) - 2
  unfolding count_telemetry_gaps
  count_telemetry_gaps_bound lap fs times =
      let own = frames_of_lap lap.lap_number fs in
      let sorted = sort_by earlier own in
      let (s, count) =
        spans sorted
          (All-sort_by earlier IsTime own (All-frames_of_lap IsTime lap.lap_number fs times)) in
      ground
        (arith, count_gaps_half (positive_timestamp_deltas sorted) s, length-sort_by earlier own)

-- The intervals between the times of a list, as far as they are positive.
intervals_from : ℤ → List ℤ → List ℤ
intervals_from previous [] = []
intervals_from previous (t ∷ ts) =
    let delta = sub64 t previous in
    let rest = intervals_from t ts in if leb_ℤ delta (pos 0) then rest else delta ∷ rest

intervals : List ℤ → List ℤ
intervals [] = []
intervals (t ∷ ts) = intervals_from t ts

-- The count in terms of the sorted times alone.
abbrev gaps_of_times : List ℤ → ℕ
gaps_of_times ts = if ltb (length ts) 2 then 0 else count_gaps (intervals ts)

module _ {F : Type 0} where
  abbrev time : Frame F → ℤ
  time f = f.timestamp_unix_ms

  times_insert :
      (f : Frame F) (fs : List (Frame F))
      → map time (insert_by earlier f fs) ≡ insert_by ltb_ℤ (time f) (map time fs)
  unfolding insert_by
  times_insert f [] = refl
  times_insert f (g ∷ gs) = elim (Bool-cases (earlier g f)) [
    | inl e ↦ rw (e, times_insert f gs)
    | inr e ↦ rw e
  ]

  times_sort : (fs : List (Frame F)) → map time (sort_by earlier fs) ≡ sort_by ltb_ℤ (map time fs)
  unfolding sort_by
  times_sort [] = refl
  times_sort (f ∷ fs) =
      times_insert f (sort_by earlier fs) ∙ ap (insert_by ltb_ℤ (time f)) (times_sort fs)

  intervals_of_times :
      (f : Frame F) (fs : List (Frame F)) → deltas_from f fs ≡ intervals_from (time f) (map time fs)
  unfolding deltas_from intervals_from
  intervals_of_times f [] = refl
  intervals_of_times f (g ∷ gs) = rw (intervals_of_times g gs)

  deltas-eq-intervals :
      (fs : List (Frame F)) → positive_timestamp_deltas fs ≡ intervals (map time fs)
  unfolding positive_timestamp_deltas intervals
  deltas-eq-intervals [] = refl
  deltas-eq-intervals (f ∷ fs) = intervals_of_times f fs

  lap_times : ℤ → List (Frame F) → List ℤ
  unfolding frames_of_lap
  lap_times n fs = map time (frames_of_lap n fs)

  length-lap_times : (fs : List (Frame F)) → length (map time fs) ≡ length fs
  length-lap_times [] = refl
  length-lap_times (f ∷ fs) = ap suc (length-lap_times fs)

  sort-lap_times_perm :
      (n : ℤ) {fs gs : List (Frame F)}
      → Permᴰ fs gs
      → sort_by ltb_ℤ (lap_times n fs) ≡ sort_by ltb_ℤ (lap_times n gs)
  unfolding lap_times sort_by
  sort-lap_times_perm n Permᴰ.nil = refl
  sort-lap_times_perm n (Permᴰ.cons {a = a} {b = b} e p) =
      rw e (elim (Bool-cases (b.lap_number == n)) [
        | inl own ↦ rw own (ap (insert_by ltb_ℤ (time b)) (sort-lap_times_perm n p))
        | inr other ↦ rw other (sort-lap_times_perm n p)
      ])
  sort-lap_times_perm n (Permᴰ.swap {a' = a} {b' = b} {l = l} e f) =
      rw (e, f)
        (elim (Bool-cases (a.lap_number == n)) [
          | inl ours ↦ elim (Bool-cases (b.lap_number == n)) [
            | inl own ↦
                rw (ours, own)
                  (insert_by-insert_by ltb_ℤ ltb_ℤ-IsOrder ltb_ℤ-IsTotal (time b) (time a)
                    (sort_by ltb_ℤ (lap_times n l)))
            | inr other ↦ rw (ours, other)
          ]
          | inr theirs ↦ rw theirs
        ])
  sort-lap_times_perm n (Permᴰ.trans p q) = sort-lap_times_perm n p ∙ sort-lap_times_perm n q

  count-eq-gaps_of_times :
      (lap : CompletedLap) (fs : List (Frame F))
      → count_telemetry_gaps lap fs ≡ gaps_of_times (sort_by ltb_ℤ (lap_times lap.lap_number fs))
  unfolding count_telemetry_gaps lap_times
  count-eq-gaps_of_times lap fs =
      let own = frames_of_lap lap.lap_number fs in
      let same : length (sort_by ltb_ℤ (map time own)) ≡ length own =
        length-sort_by ltb_ℤ (map time own) ∙ length-lap_times own in
      rw (same, deltas-eq-intervals (sort_by earlier own), times_sort own)

  -- The number of gaps does not depend on the order of the frames.
  pub count_telemetry_gaps-eq_of_perm :
      (lap : CompletedLap) (fs gs : List (Frame F))
      → Perm fs gs
      → count_telemetry_gaps lap fs ≡ count_telemetry_gaps lap gs
  count_telemetry_gaps-eq_of_perm lap fs gs p = ∥∥₁_elim p (ℕ_set _ _) λ q.
      count-eq-gaps_of_times lap fs
      ∙ ap gaps_of_times (sort-lap_times_perm lap.lap_number q)
      ∙ sym (count-eq-gaps_of_times lap gs)
