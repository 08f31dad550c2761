-- ===== src/Sessions/Id/Digits.antt =====
-- The letters of an identifier are the digits to the base 32 of the number that its bytes are.
use Prim.Native.Nat.{bit_or}
use native.Mathlib.Nat.{div-div-eq-div-mul}
use telemetry_one_backend.Base.{
  ℕ, zero, suc, ◌+◌, ◌*◌, ◌/◌, ◌%◌, ◌^◌, ◌<◌, ◌≡◌, refl, subst, sym, ap, ◌∙◌, Bool, true, ◌&&◌,
  List, [], ◌∷◌, ◌⊎◌, inl, inr, arith, All, nat_eqb, nat_eqb_iff,
}
use telemetry_one_backend.Sessions.Id.{ulid_digits}

-- Whether a test passes for every number below the bound, which a small bound lets evaluate.
unfoldable pub passes_below : (ℕ → Bool) → ℕ → Bool
passes_below test zero = true
passes_below test (suc bound) = passes_below test bound && test bound

pub passes_below_lem :
    (test : ℕ → Bool) (bound k : ℕ) → k < bound → passes_below test bound ≡ true → test k ≡ true
unfolding passes_below
passes_below_lem test zero k small passes = absurd (omega arith)
passes_below_lem test (suc bound) k small passes = ground (arith, passes_below_lem test bound k)

middle_table :
    passes_below (λ b. nat_eqb (bit_or 0 b) b && nat_eqb (bit_or 16 b) (16 + b)) 16 ≡ true
unfolding passes_below
middle_table = refl

half : (a : ℕ) → (a % 2 ≡ 0) ⊎ (a % 2 ≡ 1)
half a = ground arith

middle_digit : (a b : ℕ) → b < 16 → bit_or (a % 2 * 16) b ≡ a % 2 * 16 + b
middle_digit a b h = elim (half a) [
  | inl even ↦
      rw even (ground (arith, nat_eqb_iff (bit_or 0 b) b, passes_below_lem _ 16 b h middle_table))
  | inr odd ↦
      rw odd
        (ground (arith, nat_eqb_iff (bit_or 16 b) (16 + b), passes_below_lem _ 16 b h middle_table))
]

-- The number that digits stand for, after `acc`.
abbrev pub read_from : ℕ → List ℕ → ℕ
read_from acc [] = acc
read_from acc (d ∷ ds) = read_from (acc * 32 + d) ds

shifted : ℕ → ℕ → List ℕ
shifted n zero = []
shifted n (suc j) = (n / 32 ^ j % 32) ∷ shifted n j

pow_suc : (n j : ℕ) → n / 32 ^ suc j ≡ n / 32 ^ j / 32
pow_suc n j =
    let e : 32 ^ suc j ≡ 32 ^ j * 32 = omega arith in
    ap (λ (t : ℕ). n / t) e ∙ sym (div-div-eq-div-mul n (32 ^ j) 32)

read-shifted : (n j : ℕ) → read_from (n / 32 ^ j) (shifted n j) ≡ n
unfolding shifted
read-shifted n zero = omega arith
read-shifted n (suc j) =
    let step : n / 32 ^ suc j * 32 + n / 32 ^ j % 32 ≡ n / 32 ^ j = omega (arith, pow_suc n j) in
    subst (λ a. read_from a (shifted n j) ≡ n) (sym step) (read-shifted n j)

pub cons_eq {ℓ} : {A : Type ℓ} {x y : A} {xs ys : List A} → x ≡ y → xs ≡ ys → x ∷ xs ≡ y ∷ ys
cons_eq p q = cc

digits-shifted : (hi lo : ℕ) → lo < 2 ^ 64 → ulid_digits hi lo ≡ shifted (hi * 2 ^ 64 + lo) 26
unfolding ulid_digits shifted
digits-shifted hi lo h = cons_eq (omega arith) (
    cons_eq (omega arith) (
      cons_eq (omega arith) (
        cons_eq (omega arith) (
          cons_eq (omega arith) (
            cons_eq (omega arith) (
              cons_eq (omega arith) (
                cons_eq (omega arith) (
                  cons_eq (omega arith) (
                    cons_eq (omega arith) (
                      cons_eq (omega arith) (
                        cons_eq (omega arith) (
                          cons_eq (omega arith) (
                            cons_eq (middle_digit hi (lo / 2 ^ 60 % 16) (omega arith) ∙ omega arith)
                              (cons_eq (omega arith) (
                                cons_eq (omega arith) (
                                  cons_eq (omega arith) (
                                    cons_eq (omega arith) (
                                      cons_eq (omega arith) (
                                        cons_eq (omega arith) (
                                          cons_eq (omega arith) (
                                            cons_eq (omega arith) (
                                              cons_eq (omega arith) (
                                                cons_eq (omega arith) (
                                                  cons_eq (omega arith) (
                                                    cons_eq (omega arith)
                                                      refl)))))))))))))))))))))))))

-- The digits of an identifier, read as a number to the base 32, are its sixteen bytes.
pub read-ulid_digits :
    (hi lo : ℕ) → hi < 2 ^ 64 → lo < 2 ^ 64 → read_from 0 (ulid_digits hi lo) ≡ hi * 2 ^ 64 + lo
read-ulid_digits hi lo hh hl =
    let n = hi * 2 ^ 64 + lo in
    let start : n / 32 ^ 26 ≡ 0 = omega arith in
    rw (digits-shifted hi lo hl)
      (subst (λ a. read_from a (shifted n 26) ≡ n) start (read-shifted n 26))

shifted-All : (n j : ℕ) → All (λ d. d < 32) (shifted n j)
unfolding shifted
shifted-All n zero = tt
shifted-All n (suc j) = (omega arith, shifted-All n j)

pub ulid_digits-All : (hi lo : ℕ) → lo < 2 ^ 64 → All (λ d. d < 32) (ulid_digits hi lo)
ulid_digits-All hi lo h = rw (digits-shifted hi lo h) (shifted-All (hi * 2 ^ 64 + lo) 26)
