-- ===== src/Base/Text/Trim.antt =====
-- Go's `strings.TrimSpace`.
use Prim.Native.Nat.{ℕ}
use Prim.Native.Char.{Char, code}
use Prim.Native.String.{String, [], ◌∷◌}
use mathlib.Core.Bool.{Bool, true, false, ◌&&◌, ◌||◌}
use telemetry_one_backend.Base.Tests.{if◌then◌else◌, leb, ◌==◌, nat_eq}

abbrev between : ℕ → ℕ → ℕ → Bool
between lo n hi = leb lo n && leb n hi

-- `unicode.IsSpace`
abbrev is_space : Char → Bool
is_space c =
    let n = code c in
    between 9 n 13
    || n == 32
    || n == 133
    || n == 160
    || n == 5760
    || between 8192 n 8202
    || between 8232 n 8233
    || n == 8239
    || n == 8287
    || n == 12288

abbrev is_empty : String → Bool
is_empty [] = true
is_empty (c ∷ s) = false

trim_left : String → String
trim_left [] = ""
trim_left (c ∷ s) = let rest = trim_left s in if is_space c then rest else c ∷ s

trim_right : String → String
trim_right [] = ""
trim_right (c ∷ s) = let rest = trim_right s in if is_space c && is_empty rest then "" else c ∷ rest

unfoldable pub trim_space : String → String
unfolding trim_left trim_right
trim_space s = trim_right (trim_left s)
