-- ===== src/Sessions/Session.antt =====
-- internal/sessions/session.go and errors.go: a session, what is shown of it, and its requests. A
-- `time.Time` is its nanoseconds since 1970, whatever its location.
use telemetry_one_backend.Base.{
  String, Bool, Option, none, some, List, [], ◌∷◌, if◌then◌else◌, ◌==◌, string_eq, ℤ, pos, leb_ℤ,
  quot_by, saturate, ◌-ℤ◌, ◌*ℤ◌,
}
use telemetry_one_backend.Base.Result.{first_error}

pub data SessionError : Type 0 where
  missing_source missing_game missing_platform invalid_started_at : SessionError
  not_found already_exists already_finished invalid_ended_at missing_id : SessionError

pub data Status : Type 0 where
  active finished : Status

pub record Session : Type 0 where
  pub id : String
  pub source : String
  pub game : String
  pub platform : String
  pub driver_alias : String
  pub started_at : ℤ
  pub ended_at : Option ℤ
  pub track_id : String
  pub layout_id : String
  pub detected_track_id : String
  pub detected_layout_id : String

unfoldable pub effective_layout_id : Session → String
effective_layout_id s = if s.layout_id == "" then s.detected_layout_id else s.layout_id

unfoldable pub status : Session → Status
status s = elim s.ended_at [ none ↦ active | some _ ↦ finished ]

-- `d.Milliseconds()`
abbrev pub milliseconds : ℤ → ℤ
milliseconds d = quot_by d 1000000

unfoldable pub duration_ms : Session → Option ℤ
unfolding saturate
duration_ms s = elim s.ended_at [
  | none ↦ none
  | some ended ↦ some (milliseconds (saturate (ended -ℤ s.started_at)))
]

pub record Dto : Type 0 where
  pub id : String
  pub source : String
  pub game : String
  pub platform : String
  pub driver_alias : String
  pub started_at : ℤ
  pub ended_at : Option ℤ
  pub track_id : String
  pub layout_id : String
  pub state : Status
  pub duration : Option ℤ
  pub frame_count : ℤ
  pub event_count : ℤ
  pub detected_track_id : Option String
  pub detected_layout_id : Option String

abbrev given_or_none : String → Option String
given_or_none s = if s == "" then none else some s

unfoldable pub new_dto : Session → ℤ → ℤ → Dto
new_dto s frame_count event_count = record {
  id = s.id;
  source = s.source;
  game = s.game;
  platform = s.platform;
  driver_alias = s.driver_alias;
  started_at = s.started_at;
  ended_at = s.ended_at;
  track_id = s.track_id;
  layout_id = effective_layout_id s;
  state = status s;
  duration = duration_ms s;
  frame_count = frame_count;
  event_count = event_count;
  detected_track_id = given_or_none s.detected_track_id;
  detected_layout_id = given_or_none s.detected_layout_id;
}

pub record CreateRequest : Type 0 where
  pub source : String
  pub game : String
  pub platform : String
  pub driver_alias : String
  pub track_id : String
  pub started_unix_ms : ℤ

unfoldable pub create_checks : CreateRequest → List (Bool × SessionError)
create_checks r =
    (r.source == "", missing_source)
    ∷ (r.game == "", missing_game)
    ∷ (r.platform == "", missing_platform)
    ∷ (leb_ℤ r.started_unix_ms (pos 0), invalid_started_at)
    ∷ []

unfoldable pub validate_create : CreateRequest → Option SessionError
unfolding create_checks
validate_create r = first_error (create_checks r)

-- `FinishRequest.EndedAt` with what the clock shows.
unfoldable pub request_ended_at : Option ℤ → ℤ → ℤ
request_ended_at none now = now
request_ended_at (some ended_unix_ms) now = ended_unix_ms *ℤ pos 1000000
