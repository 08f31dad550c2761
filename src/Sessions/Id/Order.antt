-- ===== src/Sessions/Id/Order.antt =====
-- Identifiers sort by the time they were made at, and a reader has their bytes back.
use Prim.Native.Char.{code}
use telemetry_one_backend.Base.{
  ℕ, suc, ◌+◌, ◌*◌, ◌/◌, ◌^◌, ◌<◌, ◌≡◌, refl, subst, sym, ap, ◌∙◌, true, some, List, [], ◌∷◌, ◌⊎◌,
  inl, inr, arith, All, ltb, length, take, drop, length-drop, length-take_le, All-take, All-drop,
  String, pos,
}
use telemetry_one_backend.Base.Text.Order.{string_lt, string_lt-cons, string_lt-append}
use telemetry_one_backend.Sessions.Id.{
  letter, letters, ulid_digits, encode_ulid, big_endian_from, ulid_value, new_ulid, new_id,
}
use telemetry_one_backend.Sessions.Id.Digits.{
  passes_below, passes_below_lem, read_from, read-ulid_digits, ulid_digits-All,
}

trichotomy : (a b : ℕ) → (a < b) ⊎ (a ≡ b) ⊎ (b < a)
trichotomy a b = ground arith

order_table :
    passes_below (λ b. passes_below (λ a. ltb (code (letter a)) (code (letter b))) b) 32 ≡ true
unfolding passes_below letter
order_table = refl

letter_mono : (a b : ℕ) → b < 32 → a < b → ltb (code (letter a)) (code (letter b)) ≡ true
letter_mono a b hb h = passes_below_lem _ b a h (passes_below_lem _ 32 b hb order_table)

-- A smaller front of digits is smaller with whatever digits behind it.
read_mono :
    (ds es : List ℕ) (a b : ℕ)
    → length ds ≡ length es
    → All (λ d. d < 32) ds
    → a < b
    → read_from a ds < read_from b es
read_mono [] [] a b l hd h = h
read_mono [] (e ∷ es) a b l hd h = absurd (omega arith)
read_mono (d ∷ ds) [] a b l hd h = absurd (omega arith)
read_mono (d ∷ ds) (e ∷ es) a b l hd h =
    read_mono ds es (a * 32 + d) (b * 32 + e) (omega arith) hd.1 (omega arith)

letters_mono :
    (ds es : List ℕ) (a : ℕ)
    → length ds ≡ length es
    → All (λ d. d < 32) ds
    → All (λ d. d < 32) es
    → read_from a ds < read_from a es
    → string_lt (letters ds) (letters es) ≡ true
unfolding string_lt letters
letters_mono [] [] a l hd he h = absurd (omega arith)
letters_mono [] (e ∷ es) a l hd he h = absurd (omega arith)
letters_mono (d ∷ ds) [] a l hd he h = absurd (omega arith)
letters_mono (d ∷ ds) (e ∷ es) a l hd he h = elim (trichotomy d e) [
  | inl less ↦ rw (letter_mono d e he.0 less) refl
  | inr (inl same) ↦
      subst (λ x. string_lt (letters (d ∷ ds)) (letters (x ∷ es)) ≡ true) same
        (string_lt-cons (letter d) (letters ds) (letters es)
          ∙ letters_mono ds es (a * 32 + d) (omega arith) hd.1 he.1
              (subst (λ x. read_from (a * 32 + d) ds < read_from (a * 32 + x) es) (sym same) h))
  | inr (inr more) ↦
      absurd
        (omega (arith, read_mono es ds (a * 32 + e) (a * 32 + d) (omega arith) he.1 (omega arith)))
]

regroup : (a b p r : ℕ) → (a * 256 + b) * p + r ≡ a * (256 * p) + (b * p + r)
regroup a b p r = grind arith

pow_suc : (n : ℕ) → 256 * 256 ^ n ≡ 256 ^ suc n
pow_suc n = omega arith

zero_add : (b : ℕ) → b ≡ 0 + b
zero_add b = omega arith

pub big_endian_shift :
    (bs : List ℕ) (a : ℕ) → big_endian_from a bs ≡ a * 256 ^ length bs + big_endian_from 0 bs
big_endian_shift [] a = omega arith
big_endian_shift (b ∷ bs) a =
    let rest = big_endian_from 0 bs in
    big_endian_shift bs (a * 256 + b)
    ∙ regroup a b (256 ^ length bs) rest
    ∙ ap (λ (t : ℕ). a * t + (b * 256 ^ length bs + rest)) (pow_suc (length bs))
    ∙ ap (λ (t : ℕ). a * 256 ^ suc (length bs) + t) (sym (big_endian_shift bs b))
    ∙ ap (λ (t : ℕ). a * 256 ^ suc (length bs) + big_endian_from t bs) (zero_add b)

big_endian_bound : (bs : List ℕ) → All (λ b. b < 256) bs → big_endian_from 0 bs < 256 ^ length bs
big_endian_bound [] h = omega arith
big_endian_bound (b ∷ bs) h = grind (arith, big_endian_shift bs (0 + b), big_endian_bound bs h.1)

length-ulid_digits : (hi lo : ℕ) → length (ulid_digits hi lo) ≡ 26
unfolding ulid_digits
length-ulid_digits hi lo = omega arith

eight_bytes : (bs : List ℕ) → length bs ≡ 8 → All (λ b. b < 256) bs → big_endian_from 0 bs < 2 ^ 64
eight_bytes bs l h = subst (λ n. big_endian_from 0 bs < 256 ^ n) l (big_endian_bound bs h)

-- The two words of sixteen bytes.
pub halves :
    (v : List ℕ)
    → length v ≡ 16
    → All (λ b. b < 256) v
    → (big_endian_from 0 (take 8 v) < 2 ^ 64) × (big_endian_from 0 (drop 8 v) < 2 ^ 64)
halves v l h = (
  eight_bytes (take 8 v) (length-take_le 8 v (omega arith)) (All-take (λ b. b < 256) 8 v h),
  eight_bytes (drop 8 v) (omega (arith, length-drop 8 v)) (All-drop (λ b. b < 256) 8 v h),
)

pub encode_mono :
    (v w : List ℕ)
    → length v ≡ 16
    → length w ≡ 16
    → All (λ b. b < 256) v
    → All (λ b. b < 256) w
    → big_endian_from 0 (take 8 v) < big_endian_from 0 (take 8 w)
    → string_lt (encode_ulid v) (encode_ulid w) ≡ true
unfolding encode_ulid
encode_mono v w lv lw hv hw h =
    let (fv, bv) = halves v lv hv in
    let (fw, bw) = halves w lw hw in
    letters_mono _ _ 0 (length-ulid_digits _ _ ∙ sym (length-ulid_digits _ _))
      (ulid_digits-All _ _ bv) (ulid_digits-All _ _ bw)
      (rw (read-ulid_digits _ _ fv bv, read-ulid_digits _ _ fw bw) (omega arith))

-- What `rand.Read` fills `entropy` with.
abbrev pub IsEntropy : List ℕ → Type 0
IsEntropy es = (length es ≡ 10) × All (λ b. b < 256) es

value-IsBytes :
    (t : ℕ) (es : List ℕ)
    → IsEntropy es
    → (length (ulid_value (pos t) es) ≡ 16) × All (λ b. b < 256) (ulid_value (pos t) es)
unfolding ulid_value
value-IsBytes t es (l, h) = (
  omega arith,
  (omega arith, (omega arith, (omega arith, (omega arith, (omega arith, (omega arith, h)))))),
)

-- Of the upper word, the time has all but the lowest 16 bits.
time_part :
    (t : ℕ) (es : List ℕ)
    → t < 2 ^ 48
    → IsEntropy es
    → big_endian_from 0 (take 8 (ulid_value (pos t) es)) / 65536 ≡ t
unfolding ulid_value
time_part t [] small (l, h) = absurd (omega arith)
time_part t (x ∷ []) small (l, h) = absurd (omega arith)
time_part t (x ∷ y ∷ es) small (l, h) = omega arith

-- Of two identifiers made at different milliseconds before the year 10889 the later one sorts behind
-- the earlier one, whatever their random bytes are.
pub new_id_sorted :
    (t u : ℕ) (es fs : List ℕ)
    → IsEntropy es
    → IsEntropy fs
    → t < u
    → u < 2 ^ 48
    → (a : String) × (b : String) × (new_id (pos t) (some es) ≡ some a)
      × (new_id (pos u) (some fs) ≡ some b)
      × (string_lt a b ≡ true)
unfolding new_id new_ulid
new_id_sorted t u es fs he hf h small =
    let (le, be) = value-IsBytes t es he in
    let (lf, bf) = value-IsBytes u fs hf in
    (
      _,
      _,
      refl,
      refl,
      string_lt-append "session_" _ _
          ∙ encode_mono _ _ le lf be bf
              (omega (arith, time_part t es (omega arith) he, time_part u fs small hf)),
    )
