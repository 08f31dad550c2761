-- ===== src/Sessions/Repository.antt =====
-- internal/sessions/memory_repository.go: the sessions by identifier. A copy of a session is equal
-- to it, and the lock makes each call one step.
pub mod Lifecycle
pub mod Finish
use telemetry_one_backend.Base.{
  String, ◌≡◌, Bool, true, false, ◌&&◌, Option, none, some, List, [], ◌∷◌, if◌then◌else◌, ◌==◌,
  string_eq, ℤ, ltb_ℤ,
}
use telemetry_one_backend.Base.Dict.{Dict, lookup, insert}
use telemetry_one_backend.Base.Result.{Result, ok, err}
use telemetry_one_backend.Sessions.Session.{
  SessionError, Session, missing_id, not_found, already_exists, already_finished, invalid_ended_at,
}

abbrev pub MemoryRepository : Type 0
MemoryRepository = Dict String Session

-- The repository after a call, and what the call returns.
abbrev pub Outcome : Type 0
Outcome = MemoryRepository × Result SessionError Session

unfoldable pub create : MemoryRepository → Session → Outcome
create r session = if session.id == "" then (r, err missing_id) else elim (lookup session.id r) [
  | some _ ↦ (r, err already_exists)
  | none ↦ (insert session.id session r, ok session)
]

unfoldable pub find_by_id : MemoryRepository → String → Result SessionError Session
find_by_id r id = elim (lookup id r) [ none ↦ err not_found | some session ↦ ok session ]

unfoldable pub end_session : MemoryRepository → String → ℤ → Outcome
end_session r id ended_at = elim (lookup id r) [
  | none ↦ (r, err not_found)
  | some session ↦ elim session.ended_at [
    | some _ ↦ (r, err already_finished)
    | none ↦
        if ltb_ℤ ended_at session.started_at
        then (r, err invalid_ended_at)
        else (let ended = record session { ended_at = some ended_at } in
            (insert id ended r, ok ended))
  ]
]

unfoldable pub update : MemoryRepository → Session → Outcome
update r session = if session.id == "" then (r, err missing_id) else elim (lookup session.id r) [
  | none ↦ (r, err not_found)
  | some _ ↦ (insert session.id session r, ok session)
]

unfoldable pub set_detected_track_layout : MemoryRepository → String → String → String → Outcome
set_detected_track_layout r id track_id layout_id = elim (lookup id r) [
  | none ↦ (r, err not_found)
  | some session ↦
      if session.detected_track_id == "" && session.detected_layout_id == ""
      then (let detected = record session {
        detected_track_id = track_id;
        detected_layout_id = layout_id;
      } in
          (insert id detected r, ok detected))
      else (r, ok session)
]

unfoldable pub set_track_layout : MemoryRepository → String → String → String → Outcome
set_track_layout r id track_id layout_id = elim (lookup id r) [
  | none ↦ (r, err not_found)
  | some session ↦
      let selected = record session { track_id = track_id; layout_id = layout_id } in
      (insert id selected r, ok selected)
]

-- `List` in the order of the map.
unfoldable pub list : MemoryRepository → List Session
list [] = []
list ((id, session) ∷ r) = session ∷ list r
