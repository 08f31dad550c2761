-- ===== src/Base/Text/Order.antt =====
-- Go's `<` on strings: UTF-8 keeps the order of the code points.
use Prim.Native.Char.{Char, code}
use Prim.Native.String.{String, [], ◌∷◌, ◌++◌}
use mathlib.Core.Path.{◌≡◌, refl, ap₂, ◌∙◌}
use mathlib.Core.Bool.{Bool, true, false}
use native.Mathlib.Omega.{arith}
use text.Mathlib.TextLemmas.{nil-append, cons-append}
use text.Mathlib.TextEquality.{Char-path}
use telemetry_one_backend.Base.Tests.{if◌then◌else◌, ltb}
use telemetry_one_backend.Base.Sort.Laws.{IsOrder, IsTotal}

unfoldable pub string_lt : String → String → Bool
string_lt s [] = false
string_lt [] (d ∷ t) = true
string_lt (c ∷ s) (d ∷ t) =
    let rest = string_lt s t in
    if ltb (code c) (code d) then true else if ltb (code d) (code c) then false else rest

string_lt-asymm : (s t : String) → string_lt s t ≡ true → string_lt t s ≡ false
unfolding string_lt
string_lt-asymm [] [] h = refl
string_lt-asymm [] (d ∷ t) h = refl
string_lt-asymm (c ∷ s) [] h = cc
string_lt-asymm (c ∷ s) (d ∷ t) h = ground (arith, string_lt-asymm s t)

string_lt_trans :
    (s t u : String) → string_lt t s ≡ false → string_lt u t ≡ false → string_lt u s ≡ false
unfolding string_lt
string_lt_trans [] [] [] h k = refl
string_lt_trans [] [] (e ∷ u) h k = refl
string_lt_trans [] (d ∷ t) [] h k = cc
string_lt_trans [] (d ∷ t) (e ∷ u) h k = refl
string_lt_trans (c ∷ s) [] [] h k = cc
string_lt_trans (c ∷ s) [] (e ∷ u) h k = cc
string_lt_trans (c ∷ s) (d ∷ t) [] h k = cc
string_lt_trans (c ∷ s) (d ∷ t) (e ∷ u) h k = ground (arith, string_lt_trans s t u)

eq_of_not_string_lt : IsTotal string_lt
unfolding string_lt
eq_of_not_string_lt [] [] h k = refl
eq_of_not_string_lt [] (d ∷ t) h k = cc
eq_of_not_string_lt (c ∷ s) [] h k = cc
eq_of_not_string_lt (c ∷ s) (d ∷ t) h k =
    let same : code c ≡ code d = ground arith in
    ap₂ ◌∷◌ (Char-path c d same) (eq_of_not_string_lt s t (ground arith) (ground arith))

pub string_lt-IsOrder : IsOrder string_lt
string_lt-IsOrder = record { asymm = string_lt-asymm; trans = string_lt_trans }

pub string_lt-IsTotal : IsTotal string_lt
string_lt-IsTotal = eq_of_not_string_lt

pub string_lt-cons : (c : Char) (s t : String) → string_lt (c ∷ s) (c ∷ t) ≡ string_lt s t
unfolding string_lt
string_lt-cons c s t = ground arith

-- A common front does not matter.
pub string_lt-append : (p s t : String) → string_lt (p ++ s) (p ++ t) ≡ string_lt s t
string_lt-append [] s t = ap₂ string_lt (nil-append s) (nil-append t)
string_lt-append (c ∷ p) s t =
    ap₂ string_lt (cons-append c p s) (cons-append c p t)
    ∙ string_lt-cons c (p ++ s) (p ++ t)
    ∙ string_lt-append p s t
