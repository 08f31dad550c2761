-- ===== src/Base/Window.antt =====
-- The last elements of a list, up to a number of them.
use telemetry_one_backend.Base.{
  ℕ, ◌+◌, ◌-◌, ◌≤◌, ◌≡◌, sym, ap, ◌∙◌, List, ◌++◌, arith, length, length-append, length-drop, drop,
  drop-append_ge, drop-append_le, drop-drop, take_last,
}
use native.Mathlib.Decide.{dec_le}

module _ {A : Type 0} where
  pub take_last_short : (n : ℕ) (xs : List A) → length xs ≤ n → take_last n xs ≡ xs
  take_last_short n xs h = let e : length xs - n ≡ 0 = omega arith in rw e

  pub take_last-append_left :
      (n : ℕ) (xs ys : List A) → take_last n (take_last n xs ++ ys) ≡ take_last n (xs ++ ys)
  take_last-append_left n xs ys =
      let k = length xs - n in
      let cut : drop k xs ++ ys ≡ drop k (xs ++ ys) = sym (drop-append_le k xs ys (omega arith)) in
      let m = length (drop k xs ++ ys) - n in
      let count : k + m ≡ length (xs ++ ys) - n =
        omega (arith, length-append xs ys, length-append (drop k xs) ys, length-drop k xs) in
      ap (drop m) cut ∙ drop-drop m k (xs ++ ys) ∙ ap (λ i. drop i (xs ++ ys)) count

  pub take_last-append_long :
      (n : ℕ) (xs ys : List A) → n ≤ length ys → take_last n (xs ++ ys) ≡ take_last n ys
  take_last-append_long n xs ys h =
      let k = length (xs ++ ys) - n in
      let count : k - length xs ≡ length ys - n = omega (arith, length-append xs ys) in
      drop-append_ge k xs ys (omega (arith, length-append xs ys)) ∙ ap (λ i. drop i ys) count

  pub take_last-append_right :
      (n : ℕ) (xs ys : List A) → take_last n (xs ++ take_last n ys) ≡ take_last n (xs ++ ys)
  take_last-append_right n xs ys = elim (dec_le n (length ys)) [
    | yes h ↦
        let tail = take_last n ys in
        let full : length tail ≡ n = omega (arith, length-drop (length ys - n) ys) in
        take_last-append_long n xs tail (omega arith)
        ∙ take_last_short n tail (omega arith)
        ∙ sym (take_last-append_long n xs ys h)
    | no h ↦ ap (λ t. take_last n (xs ++ t)) (take_last_short n ys (omega arith))
  ]
