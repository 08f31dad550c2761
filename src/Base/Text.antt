-- ===== src/Base/Text.antt =====
-- Text that the program formats.
pub mod Order
pub mod Trim
use Prim.Native.Nat.{ℕ, zero, suc, ◌/◌, ◌%◌, ◌+◌}
use Prim.Native.String.{String, ◌++◌}
use mathlib.Core.List.{List, [], ◌∷◌}
use telemetry_one_backend.Base.Tests.{if◌then◌else◌, ltb}
use telemetry_one_backend.Base.Int.{ℤ, pos, negsuc}

infixr 65 ◌&◌
abbrev pub ◌&◌ : String → String → String
s & t = s ++ t

digit : ℕ → String
digit zero = "0"
digit (suc zero) = "1"
digit (suc (suc zero)) = "2"
digit (suc (suc (suc zero))) = "3"
digit (suc (suc (suc (suc zero)))) = "4"
digit (suc (suc (suc (suc (suc zero))))) = "5"
digit (suc (suc (suc (suc (suc (suc zero)))))) = "6"
digit (suc (suc (suc (suc (suc (suc (suc zero))))))) = "7"
digit (suc (suc (suc (suc (suc (suc (suc (suc zero)))))))) = "8"
digit _ = "9"

-- The decimal digits of `n`, for a fuel above `n`.
decimal_from : ℕ → ℕ → String
unfolding digit
decimal_from zero n = ""
decimal_from (suc f) n =
    let rest = decimal_from f (n / 10) in if ltb n 10 then digit n else rest & digit (n % 10)

-- `%d`
unfoldable pub decimal : ℤ → String
unfolding decimal_from
decimal (pos n) = decimal_from (n + 1) n
decimal (negsuc n) = "-" & decimal_from (n + 2) (n + 1)

-- `strings.Join`
unfoldable pub join : String → List String → String
join separator [] = ""
join separator (part ∷ []) = part
join separator (part ∷ next ∷ parts) = part & separator & join separator (next ∷ parts)
