-- ===== src/Laps/Gap/Bounds.antt =====
-- At most half of the intervals of a lap are gaps.
use telemetry_one_backend.Base.{
  ℕ, zero, suc, ◌+◌, ◌-◌, ◌*◌, ◌/◌, ◌%◌, ◌^◌, ◌≤◌, ◌<◌, ◌≡◌, refl, ap, ◌∙◌, false, List, [], ◌∷◌,
  arith, ◌==◌, nat_eq, int_eq, ℤ, pos, negsuc, pos_part, neg_part, ◌≤ℤ◌, ◌<ℤ◌, ltb_ℤ, leb_ℤ, sub64,
  add64, mul64, ◌+ℤ◌, ◌*ℤ◌, wrap64, wrap64_of_IsInt64, length, All, sub64_of_nonneg, leb-eq-false,
  -ℤ_parts, parts_exclusive, inl, inr, Bool-cases,
}
use mathlib.Core.List.{Permᴰ}
use mathlib.Core.Logic.{∥∥₁_elim}
use native.Mathlib.Nat.{ℕ_set}
use telemetry_one_backend.Base.Sort.{sort_by}
use telemetry_one_backend.Base.Sort.Laws.{
  IsOrder, IsSorted, All-sort_by, length-sort_by, sort_by-perm, sort_by-IsSorted,
}
use telemetry_one_backend.Telemetry.Frame.{Frame}
use telemetry_one_backend.Laps.Gap.{
  at, median_times_four, telemetry_gap_threshold_ms, count_above, count_gaps, deltas_from,
}

pub ltb_ℤ-IsOrder : IsOrder ltb_ℤ
ltb_ℤ-IsOrder = record { asymm = λ x y h. ground arith; trans = λ x y z h k. ground arith }

count_above_perm : (t : ℤ) {l m : List ℤ} → Permᴰ l m → count_above t l ≡ count_above t m
unfolding count_above
count_above_perm t Permᴰ.nil = refl
count_above_perm t (Permᴰ.cons e p) = cc (count_above_perm t p)
count_above_perm t (Permᴰ.swap e f) = rw (e, f) (ground arith)
count_above_perm t (Permᴰ.trans p q) = count_above_perm t p ∙ count_above_perm t q

count_above-sort : (t : ℤ) (l : List ℤ) → count_above t (sort_by ltb_ℤ l) ≡ count_above t l
count_above-sort t l = ∥∥₁_elim (sort_by-perm ltb_ℤ l) (ℕ_set _ _) (count_above_perm t)

count_above-le-length : (t : ℤ) (l : List ℤ) → count_above t l ≤ length l
unfolding count_above
count_above-le-length t [] = omega arith
count_above-le-length t (d ∷ ds) = ground (arith, count_above-le-length t ds)

All-at : (P : ℤ → Type 0) (l : List ℤ) (i : ℕ) → All P l → i < length l → P (at l i)
All-at P [] i a h = absurd (omega arith)
All-at P (d ∷ ds) zero a h = a.0
All-at P (d ∷ ds) (suc i) a h = All-at P ds i a.1 (omega arith)

-- In a sorted list no value up to the position `i` exceeds the one at `i`.
count_above-sorted :
    (t : ℤ) (l : List ℤ) (i : ℕ)
    → IsSorted ltb_ℤ l
    → i < length l
    → at l i ≤ℤ t
    → count_above t l + i + 1 ≤ length l
unfolding count_above
count_above-sorted t [] i s h le = absurd (omega arith)
count_above-sorted t (d ∷ ds) zero s h le = ground (arith, count_above-le-length t ds)
count_above-sorted t (d ∷ ds) (suc i) s h le =
    ground (arith, All-at (λ e. ltb_ℤ e d ≡ false) ds i s.0, count_above-sorted t ds i s.1)

abbrev pub IsSpan : ℤ → Type 0
IsSpan d = (pos 0 <ℤ d) × (pos_part d < 2 ^ 61)

times_four : (d : ℤ) → IsSpan d → mul64 (pos 4) d ≡ pos (4 * pos_part d)
unfolding ◌*ℤ◌
times_four (pos n) h =
    let e : pos 4 *ℤ pos n ≡ pos (4 * n) = ground arith in
    ap wrap64 e ∙ wrap64_of_IsInt64 (pos (4 * n)) (omega arith)
times_four (negsuc n) h = absurd (omega arith)

plus : (a b : ℤ) → IsSpan a → IsSpan b → add64 a b ≡ pos (pos_part a + pos_part b)
unfolding ◌+ℤ◌
plus (pos a) (pos b) h k =
    let e : pos a +ℤ pos b ≡ pos (a + b) = ground arith in
    ap wrap64 e ∙ wrap64_of_IsInt64 (pos (a + b)) (omega arith)
plus (pos a) (negsuc b) h k = absurd (omega arith)
plus (negsuc a) b h k = absurd (omega arith)

times_two : (n : ℕ) → n < 2 ^ 62 → mul64 (pos 2) (pos n) ≡ pos (2 * n)
unfolding ◌*ℤ◌
times_two n h =
    let e : pos 2 *ℤ pos n ≡ pos (2 * n) = ground arith in
    ap wrap64 e ∙ wrap64_of_IsInt64 (pos (2 * n)) (omega arith)

-- The value in the middle is at most what the threshold is taken from.
at-le-median_times_four :
    (l : List ℤ) → All IsSpan l → 0 < length l → at l (length l / 2) ≤ℤ median_times_four l
unfolding median_times_four
at-le-median_times_four l a h =
    let mid = length l / 2 in
    let x = All-at IsSpan l mid a (omega arith) in
    elim (Bool-cases (length l % 2 == 1)) [
      | inl odd ↦ rw (odd, times_four (at l mid) x) (omega arith)
      | inr even ↦
          let y = All-at IsSpan l (mid - 1) a (omega arith) in
          rw
            (
              even,
              plus (at l (mid - 1)) (at l mid) y x,
              times_two (pos_part (at l (mid - 1)) + pos_part (at l mid)) (omega arith),
            )
            (omega arith)
    ]

threshold_bound :
    (d : ℤ) (ds : List ℤ)
    → median_times_four (sort_by ltb_ℤ (d ∷ ds)) ≤ℤ telemetry_gap_threshold_ms (d ∷ ds)
unfolding telemetry_gap_threshold_ms
threshold_bound d ds = ground arith

-- Of positive intervals fewer than half count as gaps.
pub count_gaps_half : (l : List ℤ) → All IsSpan l → 2 * count_gaps l ≤ length l - 1
unfolding count_gaps
count_gaps_half [] a = omega arith
count_gaps_half (d ∷ ds) a =
    let l = d ∷ ds in
    let s = sort_by ltb_ℤ l in
    let t = telemetry_gap_threshold_ms l in
    let size : length s ≡ suc (length ds) = length-sort_by ltb_ℤ l in
    let median = at-le-median_times_four s (All-sort_by ltb_ℤ IsSpan l a) (omega arith) in
    let below : at s (length s / 2) ≤ℤ t = omega (arith, median, threshold_bound d ds) in
    omega (
      arith,
      count_above-sorted t s (length s / 2) (sort_by-IsSorted ltb_ℤ ltb_ℤ-IsOrder l) (omega arith)
          below,
      count_above-sort t l,
    )

module _ {F : Type 0} where
  -- A time that differences of which cannot overflow: before the year 73,000,000.
  abbrev pub IsTime : Frame F → Type 0
  IsTime f = (pos 0 ≤ℤ f.timestamp_unix_ms) × (pos_part f.timestamp_unix_ms < 2 ^ 61)

  delta-IsSpan :
      (previous f : Frame F)
      → IsTime previous
      → IsTime f
      → leb_ℤ (sub64 f.timestamp_unix_ms previous.timestamp_unix_ms) (pos 0) ≡ false
      → IsSpan (sub64 f.timestamp_unix_ms previous.timestamp_unix_ms)
  delta-IsSpan previous f p q h =
      let a = f.timestamp_unix_ms in
      let b = previous.timestamp_unix_ms in
      let e = sub64_of_nonneg a b (omega arith) (omega arith) q.0 p.0 in
      let positive = (leb-eq-false (sub64 a b) (pos 0)).0 h in
      (
        positive,
        omega (arith, ap pos_part e, -ℤ_parts a b, ap neg_part e, parts_exclusive (sub64 a b)),
      )

  pub deltas_from-spans :
      (previous : Frame F) (fs : List (Frame F))
      → IsTime previous
      → All IsTime fs
      → All IsSpan (deltas_from previous fs) × (length (deltas_from previous fs) ≤ length fs)
  unfolding deltas_from
  deltas_from-spans previous [] p a = omega arith
  deltas_from-spans previous (f ∷ fs) p a =
      let delta = sub64 f.timestamp_unix_ms previous.timestamp_unix_ms in
      let (spans, count) = deltas_from-spans f fs a.0 a.1 in
      elim (Bool-cases (leb_ℤ delta (pos 0))) [
        | inl none ↦ rw none (spans, omega arith)
        | inr some ↦ rw some ((delta-IsSpan previous f p a.0 some, spans), omega arith)
      ]
