-- ===== src/Events/Identity.antt =====
-- internal/events/rules.go: how severe an event is, and how its identifier is made.
use Prim.Native.Char.{Char, code}
use Prim.Native.String.{slice}
use telemetry_one_backend.Base.{
  ℕ, ◌-◌, String, Bool, false, ◌&&◌, ◌||◌, not, Option, none, some, if◌then◌else◌, ◌==◌, string_eq,
  nat_eq, ℤ, pos, leb_ℤ, ltb_ℤ, leb,
}
use telemetry_one_backend.Base.Float.{Float64}
use telemetry_one_backend.Base.Text.{◌&◌}
use telemetry_one_backend.Base.Text.Trim.{trim_space}
use telemetry_one_backend.Events.Event.{TimeRange}

unfoldable pub severity_for_int64 : ℤ → ℤ → ℤ → String
severity_for_int64 value medium high =
    if leb_ℤ high value then "high" else if leb_ℤ medium value then "medium" else "low"

module _ {F : Type 0} ⦃fl : Float64 F⦄ where
  unfoldable pub confidence_for_severity : String → F
  confidence_for_severity severity =
      if severity == "high"
      then fl.literal 9 1
      else if severity == "medium"
      then fl.literal 82 2
      else fl.literal 75 2

unfoldable pub time_range : ℤ → ℤ → Option TimeRange
time_range start end =
    if leb_ℤ start (pos 0) || leb_ℤ end (pos 0) || ltb_ℤ end start
    then none
    else some (record { start_unix_ms = start; end_unix_ms = end })

abbrev letters : String
letters = "abcdefghijklmnopqrstuvwxyz"

abbrev between : ℕ → ℕ → ℕ → Bool
between lo n hi = leb lo n && leb n hi

-- `unicode.ToLower` as far as its result is ASCII: besides the capitals, two letters become ASCII.
abbrev lower_char : Char → String
lower_char c =
    let n = code c in
    if between 65 n 90
    then slice letters (n - 65) (n - 64)
    else if n == 304
    then "i"
    else if n == 8490
    then "k"
    else String.◌∷◌ c String.[]

unfoldable pub lower : String → String
lower String.[] = ""
lower (String.◌∷◌ c s) = lower_char c & lower s

-- `a` to `z`, `0` to `9`, `_` and `-`
abbrev is_plain : Char → Bool
is_plain c = let n = code c in between 97 n 122 || between 48 n 57 || n == 95 || n == 45

-- Every run of other characters becomes one dash.
unfoldable pub plain_text : Bool → String → String
plain_text previous_dash String.[] = ""
plain_text previous_dash (String.◌∷◌ c s) =
    let plain = is_plain c in
    let rest = plain_text (not plain) s in
    if plain then String.◌∷◌ c rest else if previous_dash then rest else "-" & rest

unfoldable pub trim_left_dashes : String → String
trim_left_dashes String.[] = ""
trim_left_dashes (String.◌∷◌ c s) =
    let rest = trim_left_dashes s in if code c == 45 then rest else String.◌∷◌ c s

unfoldable pub trim_right_dashes : String → String
trim_right_dashes String.[] = ""
trim_right_dashes (String.◌∷◌ c s) =
    let rest = trim_right_dashes s in if code c == 45 && rest == "" then "" else String.◌∷◌ c rest

-- `sanitizeID`. It makes a dash of every character that is not ASCII when lowered.
unfoldable pub sanitize_id : String → String
unfolding lower plain_text trim_left_dashes trim_right_dashes
sanitize_id value =
    let trimmed = trim_space (lower value) in
    if trimmed == ""
    then "engineer-event"
    else trim_right_dashes (trim_left_dashes (plain_text false trimmed))
