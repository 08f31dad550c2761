-- ===== src/Sessions/Examples.antt =====
-- The theorems on sessions at a concrete life.
use telemetry_one_backend.Base.{List, length}
use telemetry_one_backend.Base.Float.{Milli}
use telemetry_one_backend.Telemetry.Frame.{Frame}
use telemetry_one_backend.Telemetry.Examples.{frame, fast}
use telemetry_one_backend.Telemetry.Store.{frames_of}
use telemetry_one_backend.Sessions.Summaries.{
  MemorySummaryRepository, SessionDetailSummary, event_count_of, range_from, time_range, detail,
  session_detail,
}
use telemetry_one_backend.Sessions.Summaries.Detail.{IsRange, IsLapCount, session_detail_lem}
use telemetry_one_backend.Base.{ℕ, ◌≡◌, refl, ◌⊎◌, none, some, [], ◌∷◌, string_eq, pos}
use telemetry_one_backend.Base.Dict.{lookup, insert}
use telemetry_one_backend.Base.Result.{ok, err}
use telemetry_one_backend.Sessions.Session.{Session, active, finished, already_finished, new_dto}
use telemetry_one_backend.Sessions.Repository.{
  find_by_id, MemoryRepository, create, end_session, set_detected_track_layout, set_track_layout,
}
use telemetry_one_backend.Sessions.Repository.Lifecycle.{
  Steps, done, next, created, ended, detected, IsConsistent, Evolves, reachable-IsConsistent,
  Steps-Evolves,
}
use telemetry_one_backend.Sessions.Repository.Finish.{end_session-once, new_dto_lem}

abbrev fresh_session : Session
fresh_session = record {
  id = "s1";
  source = "gt7";
  game = "gt7";
  platform = "ps5";
  driver_alias = "";
  started_at = pos 1000000000;
  ended_at = none;
  track_id = "";
  layout_id = "";
  detected_track_id = "";
  detected_layout_id = "";
}

abbrev detected_session : Session
detected_session = record fresh_session { detected_track_id = "t1"; detected_layout_id = "l1" }

abbrev ended_session : Session
ended_session = record detected_session { ended_at = some (pos 9000000000) }

abbrev life : MemoryRepository
life = ("s1", ended_session) ∷ []

life-Steps : Steps [] life
unfolding create end_session set_detected_track_layout set_track_layout lookup insert
life-Steps =
    next
      (next (next (next done (created fresh_session refl)) (detected "s1" "t1" "l1"))
        (detected "s1" "t2" "l2"))
      (ended "s1" (pos 9000000000))

life_found : lookup "s1" life ≡ some ended_session
unfolding lookup
life_found = refl

reachable_example : IsConsistent life
reachable_example = reachable-IsConsistent life life-Steps

abbrev started : MemoryRepository
started = ("s1", fresh_session) ∷ []

started_life : Steps started life
unfolding end_session set_detected_track_layout lookup insert
started_life = next (next done (detected "s1" "t1" "l1")) (ended "s1" (pos 9000000000))

started_found : lookup "s1" started ≡ some fresh_session
unfolding lookup
started_found = refl

Steps-Evolves_example : (t : Session) × (lookup "s1" life ≡ some t) × Evolves fresh_session t
Steps-Evolves_example = Steps-Evolves "s1" fresh_session started_life started_found

ending :
    (end_session started "s1" (pos 9000000000)).1
    ≡ ok (record fresh_session { ended_at = some (pos 9000000000) })
unfolding end_session lookup
ending = refl

abbrev finished_session : Session
finished_session = record fresh_session { ended_at = some (pos 9000000000) }

abbrev over : MemoryRepository
over = (end_session started "s1" (pos 9000000000)).0

abbrev afterwards : MemoryRepository
afterwards = (set_detected_track_layout over "s1" "t1" "l1").0

end_session-once_example :
    (lookup "s1" over ≡ some finished_session)
    × (some (pos 9000000000) ≡ some (pos 9000000000))
    × (end_session afterwards "s1" (pos 9500000000) ≡ (afterwards, err already_finished))
end_session-once_example =
    end_session-once started afterwards "s1" (pos 9000000000) (pos 9500000000) finished_session
      ending (next done (detected "s1" "t1" "l1"))

new_dto_example :
    let d = new_dto ended_session (pos 3) (pos 1) in
    ((d.state ≡ active) × (d.duration ≡ none))
    ⊎ ((d.state ≡ finished) × (ms : ℕ) × (d.duration ≡ some (pos ms)))
new_dto_example = new_dto_lem life "s1" ended_session (pos 3) (pos 1) life-Steps life_found

abbrev frames : List (Frame Milli)
frames = frame 300 1 fast ∷ frame 100 2 fast ∷ frame 200 1 fast ∷ []

abbrev stores : MemorySummaryRepository Milli
stores = record {
  sessions = life;
  frames = record { capacity = 10; frames = ("s1", frames) ∷ [] };
  events = none;
  rejections = none;
}

abbrev summed_up : SessionDetailSummary
summed_up = detail stores "s1" ended_session 0

detail_run : summed_up.time_range_ms ≡ some (record { from = pos 100; to = pos 300 })
unfolding detail frames_of lookup time_range range_from
detail_run = refl

session_detail_run : session_detail stores "s1" ≡ ok summed_up
unfolding session_detail find_by_id lookup event_count_of
session_detail_run = refl

session_detail_example :
    let fs = frames_of stores.frames "s1" in
    (summed_up.persisted_frames ≡ length fs)
    × IsRange fs summed_up.time_range_ms
    × IsLapCount fs summed_up.laps_detected
session_detail_example = session_detail_lem stores "s1" summed_up session_detail_run
