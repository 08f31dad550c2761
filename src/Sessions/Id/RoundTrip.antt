-- ===== src/Sessions/Id/RoundTrip.antt =====
-- A reader of identifiers has their bytes back.
use Prim.Native.Char.{Char, code}
use telemetry_one_backend.Base.{
  ℕ, suc, ◌+◌, ◌*◌, ◌^◌, ◌<◌, ◌≡◌, refl, sym, ap, ◌∙◌, Bool, true, false, Option, none, some, List,
  [], ◌∷◌, ◌++◌, arith, All, nat_eqb, nat_eqb_iff, length, take, drop, take-append-drop,
  if◌then◌else◌, String, length-drop,
}
use telemetry_one_backend.Sessions.Id.{
  letter, letters, crockford_base32, ulid_digits, encode_ulid, big_endian_from,
}
use telemetry_one_backend.Sessions.Id.Digits.{
  passes_below, passes_below_lem, read_from, read-ulid_digits, ulid_digits-All,
}
use telemetry_one_backend.Sessions.Id.Order.{halves, big_endian_shift}

-- Crockford's reading of a letter: its place in the alphabet.
place_in : String → Char → Option ℕ
place_in String.[] c = none
place_in (String.◌∷◌ d s) c =
    if nat_eqb (code d) (code c)
    then some 0
    else elim (place_in s c) [ none ↦ none | some n ↦ some (suc n) ]

is_place : Option ℕ → ℕ → Bool
is_place none n = false
is_place (some m) n = nat_eqb m n

is_place-eq : (o : Option ℕ) (n : ℕ) → is_place o n ≡ true → o ≡ some n
unfolding is_place
is_place-eq none n h = cc h
is_place-eq (some m) n h = ground (arith, nat_eqb_iff m n)

place_table : passes_below (λ d. is_place (place_in crockford_base32 (letter d)) d) 32 ≡ true
unfolding passes_below letter is_place place_in
place_table = refl

place-letter : (d : ℕ) → d < 32 → place_in crockford_base32 (letter d) ≡ some d
place-letter d h = is_place-eq _ d (passes_below_lem _ 32 d h place_table)

abbrev with_digit : Option ℕ → (ℕ → Option ℕ) → Option ℕ
with_digit none f = none
with_digit (some d) f = f d

-- The number to the base 32 that a text stands for.
pub decode_from : ℕ → String → Option ℕ
decode_from acc String.[] = some acc
decode_from acc (String.◌∷◌ c s) =
    with_digit (place_in crockford_base32 c) (λ d. decode_from (acc * 32 + d) s)

decode-letters :
    (ds : List ℕ) (acc : ℕ)
    → All (λ d. d < 32) ds
    → decode_from acc (letters ds) ≡ some (read_from acc ds)
unfolding decode_from letters
decode-letters [] acc h = refl
decode-letters (d ∷ ds) acc h = rw (place-letter d h.0) (decode-letters ds (acc * 32 + d) h.1)

big_endian-append :
    (xs ys : List ℕ) (a : ℕ)
    → big_endian_from a (xs ++ ys) ≡ big_endian_from (big_endian_from a xs) ys
big_endian-append [] ys a = refl
big_endian-append (x ∷ xs) ys a = big_endian-append xs ys (a * 256 + x)

words :
    (v : List ℕ)
    → length v ≡ 16
    → big_endian_from 0 v ≡ big_endian_from 0 (take 8 v) * 2 ^ 64 + big_endian_from 0 (drop 8 v)
words v l =
    let n : length (drop 8 v) ≡ 8 = omega (arith, length-drop 8 v) in
    ap (λ xs. big_endian_from 0 xs) (sym (take-append-drop 8 v))
    ∙ big_endian-append (take 8 v) (drop 8 v) 0
    ∙ big_endian_shift (drop 8 v) (big_endian_from 0 (take 8 v))
    ∙ ap (λ (k : ℕ). big_endian_from 0 (take 8 v) * 256 ^ k + big_endian_from 0 (drop 8 v)) n

-- Sixteen bytes become a text whose letters, read as digits to the base 32 by their place in
-- Crockford's alphabet, are the number that the bytes are, the highest first.
pub decode-encode_ulid :
    (v : List ℕ)
    → length v ≡ 16
    → All (λ b. b < 256) v
    → decode_from 0 (encode_ulid v) ≡ some (big_endian_from 0 v)
unfolding encode_ulid
decode-encode_ulid v l h =
    let (hi, lo) = halves v l h in
    decode-letters (ulid_digits _ _) 0 (ulid_digits-All _ _ lo)
    ∙ ap some (read-ulid_digits _ _ hi lo ∙ sym (words v l))
