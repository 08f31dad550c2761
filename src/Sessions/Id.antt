-- ===== src/Sessions/Id.antt =====
-- internal/sessions/id.go: identifiers of sessions.
pub mod Digits
pub mod Order
pub mod RoundTrip
mod Examples
use Prim.Native.Char.{Char}
use Prim.Native.Nat.{bit_or}
use telemetry_one_backend.Base.{
  ℕ, zero, suc, ◌+◌, ◌*◌, ◌/◌, ◌%◌, ◌^◌, String, Option, none, some, List, [], ◌∷◌, ◌++◌, take,
  drop, ◌-◌, ℤ, pos, negsuc,
}
use telemetry_one_backend.Base.Text.{◌&◌}

abbrev crockford_base32 : String
crockford_base32 = "0123456789ABCDEFGHJKMNPQRSTVWXYZ"

-- `s[n]`, and 0 past the end.
abbrev byte_at : String → ℕ → Char
byte_at String.[] n = "0"
byte_at (String.◌∷◌ c s) zero = c
byte_at (String.◌∷◌ c s) (suc n) = byte_at s n

unfoldable pub letter : ℕ → Char
letter n = byte_at crockford_base32 n

-- `binary.BigEndian.Uint64` of eight bytes.
abbrev pub big_endian_from : ℕ → List ℕ → ℕ
big_endian_from n [] = n
big_endian_from n (b ∷ bs) = big_endian_from (n * 256 + b) bs

-- What the letters of `out` stand for, in their order; `x & 0x1f` is `x % 32`.
unfoldable pub ulid_digits : ℕ → ℕ → List ℕ
ulid_digits hi lo =
    (hi / 2 ^ 61 % 32)
    ∷ (hi / 2 ^ 56 % 32)
    ∷ (hi / 2 ^ 51 % 32)
    ∷ (hi / 2 ^ 46 % 32)
    ∷ (hi / 2 ^ 41 % 32)
    ∷ (hi / 2 ^ 36 % 32)
    ∷ (hi / 2 ^ 31 % 32)
    ∷ (hi / 2 ^ 26 % 32)
    ∷ (hi / 2 ^ 21 % 32)
    ∷ (hi / 2 ^ 16 % 32)
    ∷ (hi / 2 ^ 11 % 32)
    ∷ (hi / 2 ^ 6 % 32)
    ∷ (hi / 2 ^ 1 % 32)
    ∷ bit_or (hi % 2 * 16) (lo / 2 ^ 60 % 16)
    ∷ (lo / 2 ^ 55 % 32)
    ∷ (lo / 2 ^ 50 % 32)
    ∷ (lo / 2 ^ 45 % 32)
    ∷ (lo / 2 ^ 40 % 32)
    ∷ (lo / 2 ^ 35 % 32)
    ∷ (lo / 2 ^ 30 % 32)
    ∷ (lo / 2 ^ 25 % 32)
    ∷ (lo / 2 ^ 20 % 32)
    ∷ (lo / 2 ^ 15 % 32)
    ∷ (lo / 2 ^ 10 % 32)
    ∷ (lo / 2 ^ 5 % 32)
    ∷ (lo % 32)
    ∷ []

unfoldable pub letters : List ℕ → String
letters [] = String.[]
letters (d ∷ ds) = String.◌∷◌ (letter d) (letters ds)

-- Of sixteen bytes.
unfoldable pub encode_ulid : List ℕ → String
encode_ulid value =
    letters (ulid_digits (big_endian_from 0 (take 8 value)) (big_endian_from 0 (drop 8 value)))

-- `uint64(t.UnixMilli())`
abbrev to_uint64 : ℤ → ℕ
to_uint64 (pos n) = n % 2 ^ 64
to_uint64 (negsuc n) = 2 ^ 64 - 1 - n % 2 ^ 64

unfoldable pub ulid_value : ℤ → List ℕ → List ℕ
ulid_value unix_milli entropy =
    let millis = to_uint64 unix_milli in
    (millis / 2 ^ 40 % 256)
    ∷ (millis / 2 ^ 32 % 256)
    ∷ (millis / 2 ^ 24 % 256)
    ∷ (millis / 2 ^ 16 % 256)
    ∷ (millis / 2 ^ 8 % 256)
    ∷ (millis % 256)
    ∷ entropy

-- The clock's time and the ten bytes of `rand.Read`, `none` if it fails, are the arguments.
unfoldable pub new_ulid : ℤ → Option (List ℕ) → Option String
new_ulid unix_milli none = none
new_ulid unix_milli (some entropy) = some (encode_ulid (ulid_value unix_milli entropy))

unfoldable pub new_id : ℤ → Option (List ℕ) → Option String
new_id unix_milli random = elim (new_ulid unix_milli random) [
  | none ↦ none
  | some ulid ↦ some ("session_" & ulid)
]
