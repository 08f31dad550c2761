-- ===== src/Sessions/Id/Examples.antt =====
-- The theorems on identifiers at concrete bytes.
use telemetry_one_backend.Base.{ℕ, String, ◌≡◌, refl, some, true, List, [], ◌∷◌, pos, arith}
use telemetry_one_backend.Base.Text.Order.{string_lt}
use telemetry_one_backend.Sessions.Id.{
  encode_ulid, letters, letter, ulid_digits, new_id, big_endian_from,
}
use telemetry_one_backend.Sessions.Id.Order.{new_id_sorted}
use telemetry_one_backend.Sessions.Id.RoundTrip.{decode_from, decode-encode_ulid}

abbrev high_bytes : List ℕ
high_bytes = 255 ∷ 255 ∷ 255 ∷ 255 ∷ 255 ∷ 255 ∷ 255 ∷ 255 ∷ 255 ∷ 254 ∷ []

abbrev low_bytes : List ℕ
low_bytes = 0 ∷ 0 ∷ 0 ∷ 0 ∷ 0 ∷ 0 ∷ 0 ∷ 0 ∷ 0 ∷ 1 ∷ []

abbrev sixteen : List ℕ
sixteen = 1 ∷ 139 ∷ 207 ∷ 229 ∷ 104 ∷ 0 ∷ high_bytes

encode_run : encode_ulid sixteen ≡ "01HF7YAT00ZZZZZZZZZZZZZZZY"
unfolding encode_ulid letters letter ulid_digits
encode_run = refl

new_id_sorted_example :
    (a : String) × (b : String) × (new_id (pos 1700000000000) (some high_bytes) ≡ some a)
    × (new_id (pos 1700000000001) (some low_bytes) ≡ some b)
    × (string_lt a b ≡ true)
new_id_sorted_example =
    new_id_sorted 1700000000000 1700000000001 high_bytes low_bytes (omega arith) (omega arith)
      (omega arith) (omega arith)

decode-encode_ulid_example : decode_from 0 (encode_ulid sixteen) ≡ some (big_endian_from 0 sixteen)
decode-encode_ulid_example = decode-encode_ulid sixteen (omega arith) (omega arith)
