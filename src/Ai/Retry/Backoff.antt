-- ===== src/Ai/Retry/Backoff.antt =====
-- The waits between attempts.
use native.Mathlib.Nat.{one-le-pow, le-mul_of_pos_right, mul-le-mul_left, pow-le-pow_right}
use telemetry_one_backend.Base.{
  ℕ, zero, suc, ◌*◌, ◌^◌, ◌≤◌, ◌<◌, ◌≡◌, refl, ap, ◌∙◌, true, none, arith, ltb, if◌then◌else◌, ℤ,
  pos, negsuc, pos_part, ltb_ℤ, ◌≤ℤ◌, ◌*ℤ◌, wrap64_of_IsInt64,
}
use telemetry_one_backend.Base.Result.{Passes-of_first_error}
use telemetry_one_backend.Ai.Retry.{
  RetryPolicy, policy_checks, validate_policy, excess_bits, round_even, float64, backoff,
}

of_nonneg : (z : ℤ) → pos 0 ≤ℤ z → z ≡ pos (pos_part z)
of_nonneg (pos n) h = refl
of_nonneg (negsuc n) h = absurd (omega arith)

mul_pos : (a b : ℕ) → pos a *ℤ pos b ≡ pos (a * b)
unfolding ◌*ℤ◌
mul_pos a b = ground arith

excess_bits-none : (fuel n : ℕ) → n < 2 ^ 53 → excess_bits fuel n ≡ 0
excess_bits-none zero n h = refl
excess_bits-none (suc fuel) n h = let e : ltb n (2 ^ 53) ≡ true = ground arith in rw e refl

round_even-one : (n : ℕ) → round_even n 1 ≡ n
round_even-one n = ground arith

float64_small : (n : ℕ) → n < 2 ^ 53 → float64 (pos n) ≡ pos n
unfolding float64
float64_small n h =
    ap (λ e. pos (round_even n (2 ^ e))) (excess_bits-none 11 n h) ∙ ap pos (round_even-one n)

-- The milliseconds, for numbers that `float64` keeps.
abbrev capped : ℕ → ℕ → ℕ → ℕ
capped b m q = if ltb m (b * q) then m else b * q

capped_bounds : (b m q : ℕ) → b ≤ m → b ≤ b * q → (b ≤ capped b m q) × (capped b m q ≤ m)
capped_bounds b m q h k = ground arith

capped_mono : (b m q q' : ℕ) → b * q ≤ b * q' → capped b m q ≤ capped b m q'
capped_mono b m q q' h = ground arith

capped-pos :
    (m x : ℕ) → (if ltb_ℤ (pos m) (pos x) then pos m else pos x) ≡ pos (if ltb m x then m else x)
capped-pos m x = ground arith

backoff_small :
    (p : RetryPolicy) (b m n : ℕ)
    → p.base_backoff_ms ≡ pos b
    → p.max_backoff_ms ≡ pos m
    → b ≤ m
    → m ≤ 9223372036854
    → backoff p (suc n) ≡ pos (capped b m (2 ^ n) * 1000000)
unfolding backoff
backoff_small p b m n base largest h k =
    let few : capped b m (2 ^ n) ≤ 9223372036854 = ground arith in
    rw
      (
        base,
        largest,
        float64_small b (omega arith),
        float64_small m (omega arith),
        mul_pos b (2 ^ n),
        capped-pos m (b * 2 ^ n),
        mul_pos (capped b m (2 ^ n)) 1000000,
      )
      (wrap64_of_IsInt64 (pos (capped b m (2 ^ n) * 1000000)) (omega arith, omega arith))

-- For a valid policy whose largest backoff is within the milliseconds that a duration holds, the
-- `Backoff` of an attempt from 1 on is between the base and the largest backoff, as nanoseconds, and
-- does not fall from one attempt to the next.
pub backoff_bounds :
    (p : RetryPolicy) (n : ℕ)
    → validate_policy p ≡ none
    → p.max_backoff_ms ≤ℤ pos 9223372036854
    → (p.base_backoff_ms *ℤ pos 1000000 ≤ℤ backoff p (suc n))
      × (backoff p (suc n) ≤ℤ p.max_backoff_ms *ℤ pos 1000000)
      × (backoff p (suc n) ≤ℤ backoff p (suc (suc n)))
unfolding validate_policy policy_checks
backoff_bounds p n h fits =
    let (_, (least, (order, _))) = Passes-of_first_error (policy_checks p) h in
    let b = pos_part p.base_backoff_ms in
    let m = pos_part p.max_backoff_ms in
    let base = of_nonneg p.base_backoff_ms (ground arith) in
    let largest = of_nonneg p.max_backoff_ms (ground arith) in
    let ordered : b ≤ m = ground arith in
    let few : m ≤ 9223372036854 = ground arith in
    let at_least : b ≤ b * 2 ^ n = le-mul_of_pos_right b (one-le-pow n 2 (omega arith)) in
    let grows : b * 2 ^ n ≤ b * 2 ^ suc n =
      mul-le-mul_left b (pow-le-pow_right (omega arith) (omega arith)) in
    let (above, below) = capped_bounds b m (2 ^ n) ordered at_least in
    let rises = capped_mono b m (2 ^ n) (2 ^ suc n) grows in
    let lower : p.base_backoff_ms *ℤ pos 1000000 ≡ pos (b * 1000000) =
      ap (λ z. z *ℤ pos 1000000) base ∙ mul_pos b 1000000 in
    let upper : p.max_backoff_ms *ℤ pos 1000000 ≡ pos (m * 1000000) =
      ap (λ z. z *ℤ pos 1000000) largest ∙ mul_pos m 1000000 in
    rw
      (
        lower,
        upper,
        backoff_small p b m n base largest ordered few,
        backoff_small p b m (suc n) base largest ordered few,
      )
      (omega arith, omega arith, omega arith)
