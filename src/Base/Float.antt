-- ===== src/Base/Float.antt =====
-- Go's `float64`: the type and the operations that the program uses are parameters of the model.
use Prim.Native.Nat.{ℕ, zero, suc, ◌+◌, ◌*◌, ◌/◌, ◌^◌}
use mathlib.Core.Path.{◌≡◌, refl}
use native.Mathlib.Omega.{arith}
use mathlib.Core.Bool.{Bool, true, false}
use mathlib.Core.Option.{Option, none, some}
use telemetry_one_backend.Base.Tests.{ltb, if◌then◌else◌, ◌==◌, nat_eq}
use telemetry_one_backend.Base.Int.{
  ℤ, pos, pos_part, neg_part, sub_ℕ, ◌+ℤ◌, ◌-ℤ◌, ◌*ℤ◌, ltb_ℤ, leb_ℤ, eqb_ℤ,
}

pub record Float64 (F : Type 0) : Type 0 where
  -- the literal `m / 10 ^ places`
  pub literal : ℕ → ℕ → F
  -- `float64(z)` and `int64(x)`
  pub of_int : ℤ → F
  pub to_int : F → ℤ
  pub add : F → F → F
  pub sub : F → F → F
  pub mul : F → F → F
  pub div : F → F → F
  -- `math.Mod`, `math.Abs`, `math.Ceil`, `math.Round`, `math.Sqrt`, `math.Inf(1)`
  pub fmod : F → F → F
  pub abs : F → F
  pub ceil : F → F
  pub round : F → F
  pub sqrt : F → F
  pub infinity : F
  pub lt : F → F → Bool
  pub le : F → F → Bool
  pub eq : F → F → Bool
  pub is_nan : F → Bool
  pub is_inf : F → Bool

-- A small arithmetic to run the model on: whole thousandths, with `none` for NaN.
abbrev pub Milli : Type 0
Milli = Option ℤ

abbrev map_milli : (ℤ → Milli) → Milli → Milli
map_milli f none = none
map_milli f (some a) = f a

abbrev map_milli₂ : (ℤ → ℤ → Milli) → Milli → Milli → Milli
map_milli₂ f (some a) (some b) = f a b
map_milli₂ f _ _ = none

abbrev test_milli : (ℤ → ℤ → Bool) → Milli → Milli → Bool
test_milli f (some a) (some b) = f a b
test_milli f _ _ = false

-- Division towards zero.
abbrev quot : ℤ → ℤ → ℤ
quot a b =
    sub_ℕ (pos_part a / pos_part b + neg_part a / neg_part b)
      (pos_part a / neg_part b + neg_part a / pos_part b)

abbrev div_milli : ℤ → ℤ → Milli
div_milli a (pos zero) = none
div_milli a b = some (quot (a *ℤ pos 1000) b)

abbrev mod_milli : ℤ → ℤ → Milli
mod_milli a (pos zero) = none
mod_milli a b = some (a -ℤ b *ℤ quot a b)

abbrev to_int_milli : Milli → ℤ
to_int_milli none = pos 0
to_int_milli (some a) = quot a (pos 1000)

-- The whole part of a square root, for a fuel above half the length of `n`.
abbrev root : ℕ → ℕ → ℕ
root zero n = 0
root (suc f) n =
    let r = root f (n / 4) * 2 in
    if n == 0 then 0 else if ltb n ((r + 1) * (r + 1)) then r else r + 1

abbrev is_none : Milli → Bool
is_none none = true
is_none (some a) = false

instance abbrev pub milli_float : Float64 Milli
milli_float = record {
  literal = λ m places. some (pos (m * 1000 / 10 ^ places));
  of_int = λ z. some (z *ℤ pos 1000);
  to_int = to_int_milli;
  add = map_milli₂ (λ a b. some (a +ℤ b));
  sub = map_milli₂ (λ a b. some (a -ℤ b));
  mul = map_milli₂ (λ a b. some (quot (a *ℤ b) (pos 1000)));
  div = map_milli₂ div_milli;
  fmod = map_milli₂ mod_milli;
  abs = map_milli (λ a. some (pos (pos_part a + neg_part a)));
  ceil = map_milli (λ a. some (quot (a +ℤ pos 999) (pos 1000) *ℤ pos 1000));
  round = map_milli (λ a. some (quot (a +ℤ pos 500) (pos 1000) *ℤ pos 1000));
  sqrt =
      map_milli (λ a. if ltb_ℤ a (pos 0) then none else some (pos (root 64 (pos_part a * 1000))));
  -- above all that the examples add up
  infinity = some (pos (10 ^ 30));
  lt = test_milli ltb_ℤ;
  le = test_milli leb_ℤ;
  eq = test_milli eqb_ℤ;
  is_nan = is_none;
  is_inf = λ x. false;
}

-- What the order of numbers keeps of an order, where none of them is NaN.
pub record FloatOrder (F : Type 0) ⦃fl : Float64 F⦄ : Type 0 where
  pub le_refl : (a : F) → fl.is_nan a ≡ false → fl.le a a ≡ true
  pub le_trans : (a b c : F) → fl.le a b ≡ true → fl.le b c ≡ true → fl.le a c ≡ true
  pub le_total :
      (a b : F) → fl.is_nan a ≡ false → fl.is_nan b ≡ false → fl.le a b ≡ false → fl.le b a ≡ true
  pub infinity_number : fl.is_nan fl.infinity ≡ false
  pub lt-le : (a b : F) → fl.lt a b ≡ true → fl.le a b ≡ true
  pub lt-not_le : (a b : F) → fl.lt a b ≡ true → fl.le b a ≡ false
  pub not_lt-le :
      (a b : F) → fl.is_nan a ≡ false → fl.is_nan b ≡ false → fl.lt a b ≡ false → fl.le b a ≡ true

pub milli_le_refl : (a : Milli) → is_none a ≡ false → milli_float.le a a ≡ true
milli_le_refl none h = cc
milli_le_refl (some a) h = ground arith

pub milli_le_trans :
    (a b c : Milli)
    → milli_float.le a b ≡ true
    → milli_float.le b c ≡ true
    → milli_float.le a c ≡ true
milli_le_trans none b c h k = cc h
milli_le_trans (some a) none c h k = cc h
milli_le_trans (some a) (some b) none h k = cc k
milli_le_trans (some a) (some b) (some c) h k = ground arith

pub milli_le_total :
    (a b : Milli)
    → is_none a ≡ false
    → is_none b ≡ false
    → milli_float.le a b ≡ false
    → milli_float.le b a ≡ true
milli_le_total none b p q h = cc
milli_le_total (some a) none p q h = cc
milli_le_total (some a) (some b) p q h = ground arith

pub milli_lt-le : (a b : Milli) → milli_float.lt a b ≡ true → milli_float.le a b ≡ true
milli_lt-le none b h = cc h
milli_lt-le (some a) none h = cc h
milli_lt-le (some a) (some b) h = ground arith

pub milli_lt-not_le : (a b : Milli) → milli_float.lt a b ≡ true → milli_float.le b a ≡ false
milli_lt-not_le none b h = cc h
milli_lt-not_le (some a) none h = cc
milli_lt-not_le (some a) (some b) h = ground arith

pub milli_not_lt-le :
    (a b : Milli)
    → is_none a ≡ false
    → is_none b ≡ false
    → milli_float.lt a b ≡ false
    → milli_float.le b a ≡ true
milli_not_lt-le none b p q h = cc
milli_not_lt-le (some a) none p q h = cc
milli_not_lt-le (some a) (some b) p q h = ground arith

instance abbrev pub milli_order : FloatOrder Milli
milli_order = record {
  le_refl = milli_le_refl;
  le_trans = milli_le_trans;
  le_total = milli_le_total;
  infinity_number = refl;
  lt-le = milli_lt-le;
  lt-not_le = milli_lt-not_le;
  not_lt-le = milli_not_lt-le;
}
