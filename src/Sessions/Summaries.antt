-- ===== src/Sessions/Summaries.antt =====
-- internal/sessions/summary_repository.go and memory_summary_repository.go: sessions summed up from
-- what the stores hold of them. Times are shown as they are, not as text.
pub mod Detail
use mathlib.Core.Option
use telemetry_one_backend.Base.{
  ℕ, String, Bool, true, false, ◌||◌, Option, none, some, List, [], ◌∷◌, if◌then◌else◌, ◌==◌,
  string_eq, int_eq, ℤ, pos, leb_ℤ, ltb_ℤ, length, take, pos_part,
}
use telemetry_one_backend.Base.Float.{Float64}
use telemetry_one_backend.Base.Dict.{Dict, lookup}
use telemetry_one_backend.Base.Result.{Result, ok, err, ◌>>=◌}
use telemetry_one_backend.Base.Sort.{sort_by}
use telemetry_one_backend.Base.Text.Order.{string_lt}
use telemetry_one_backend.Telemetry.Frame.{Frame}
use telemetry_one_backend.Telemetry.Store.{FrameStore, frames_of}
use telemetry_one_backend.Telemetry.Summary.{
  RejectionSummary, RejectedSummaryAggregate, SummaryStore, summary, summaries,
}
use telemetry_one_backend.Events.Event.{Query}
use telemetry_one_backend.Events.Store.{Store, StoreError, list as list_events}
use telemetry_one_backend.Sessions.Session.{
  SessionError, Session, Status, effective_layout_id, status, duration_ms,
}
use telemetry_one_backend.Sessions.Repository.{MemoryRepository, find_by_id, list}

pub record SessionSummaryItem : Type 0 where
  pub id : String
  pub source : String
  pub game : String
  pub platform : String
  pub driver_alias : String
  pub track_id : String
  pub layout_id : String
  pub state : Status
  pub started_at : ℤ
  pub ended_at : Option ℤ
  pub duration : Option ℤ
  pub frame_batches : ℕ
  pub persisted_frames : ℕ
  pub rejected_frames : ℕ
  pub event_count : ℕ
  pub detected_track_id : Option String
  pub detected_layout_id : Option String

pub record TimeRange : Type 0 where
  pub from : ℤ
  pub to : ℤ

pub record SessionDetailSummary : Type 0 where
  pub session : SessionSummaryItem
  pub frame_batches : ℕ
  pub persisted_frames : ℕ
  pub time_range_ms : Option TimeRange
  pub laps_detected : ℕ
  pub engineer_event_count : ℕ
  pub ai_audit_log_count : ℕ
  pub rejection_summary : Option RejectionSummary

pub data SummaryError : Type 0 where
  of_session : SessionError → SummaryError
  of_events : StoreError → SummaryError

-- The stores that are read; the events and the rejections may be left out.
pub record MemorySummaryRepository (F : Type 0) : Type 0 where
  pub sessions : MemoryRepository
  pub frames : FrameStore (Frame F)
  pub events : Option (Store F)
  pub rejections : Option SummaryStore

-- Newer sessions first, and of those that started at one time the greater identifier.
abbrev pub is_before : Session → Session → Bool
is_before a b =
    if a.started_at == b.started_at then string_lt b.id a.id else ltb_ℤ b.started_at a.started_at

abbrev unless_blank : String → Option String
unless_blank s = if s == "" then none else some s

-- `buildItem`, with the number of frames and events.
unfoldable pub build_item : Session → ℕ → ℕ → SessionSummaryItem
build_item s frames events = record {
  id = s.id;
  source = s.source;
  game = s.game;
  platform = s.platform;
  driver_alias = s.driver_alias;
  track_id = s.track_id;
  layout_id = effective_layout_id s;
  state = status s;
  started_at = s.started_at;
  ended_at = s.ended_at;
  duration = duration_ms s;
  frame_batches = 0;
  persisted_frames = frames;
  rejected_frames = 0;
  event_count = events;
  detected_track_id = unless_blank s.detected_track_id;
  detected_layout_id = unless_blank s.detected_layout_id;
}

abbrev no_rejections : RejectedSummaryAggregate
no_rejections = record { rejected_frames = 0; summary = [] }

unfoldable pub rejected_in : Dict String RejectedSummaryAggregate → String → ℕ
rejected_in rejections id = (Option.get_or (lookup id rejections) no_rejections).rejected_frames

unfoldable pub session_ids : List Session → List String
session_ids [] = []
session_ids (s ∷ ss) = s.id ∷ session_ids ss

unfoldable pub rejections_of :
    Option SummaryStore → List Session → Dict String RejectedSummaryAggregate
rejections_of none ss = []
rejections_of (some store) ss = summaries store (session_ids ss)

-- A limit that is none, or too large, is the number of sessions.
abbrev pub limited : ℤ → List Session → List Session
limited limit ss =
    if leb_ℤ limit (pos 0) || ltb_ℤ (pos (length ss)) limit then ss else take (pos_part limit) ss

abbrev pub counted {ℓ} : {A : Type ℓ} → Result StoreError (List A) → Result SummaryError ℕ
counted (err e) = err (of_events e)
counted (ok es) = ok (length es)

abbrev pub is_in : ℤ → List ℤ → Bool
is_in n [] = false
is_in n (m ∷ ms) = m == n || is_in n ms

abbrev aggregate_of : Option SummaryStore → String → RejectedSummaryAggregate
aggregate_of none id = no_rejections
aggregate_of (some store) id = summary store id

abbrev unless_empty : RejectionSummary → Option RejectionSummary
unless_empty [] = none
unless_empty (r ∷ rs) = some (r ∷ rs)

abbrev pub found : Result SessionError Session → Result SummaryError Session
found (err e) = err (of_session e)
found (ok s) = ok s

module _ {F : Type 0} where
  unfoldable pub event_count_of : Option (Store F) → String → Result SummaryError ℕ
  event_count_of none id = ok 0
  event_count_of (some store) id = counted (
      list_events false store
        (record { session_id = id; lap_number = none; corner_id = ""; event_type = "" }))

  -- An item of a session with the stores' numbers.
  unfoldable pub load_item :
      MemorySummaryRepository F → Session → Result SummaryError SessionSummaryItem
  load_item r s = do
    events ← event_count_of r.events s.id
    ok (build_item s (length (frames_of r.frames s.id)) events)

  unfoldable pub list_from :
      MemorySummaryRepository F
      → Dict String RejectedSummaryAggregate
      → List Session
      → Result SummaryError (List SessionSummaryItem)
  list_from r rejections [] = ok []
  list_from r rejections (s ∷ ss) = do
    item ← load_item r s
    items ← list_from r rejections ss
    ok (record item { rejected_frames = rejected_in rejections s.id } ∷ items)

  unfoldable pub list_summaries :
      MemorySummaryRepository F → ℤ → Result SummaryError (List SessionSummaryItem)
  list_summaries r limit =
      let shown = limited limit (sort_by is_before (list r.sessions)) in
      list_from r (rejections_of r.rejections shown) shown

  -- The loop over the frames after the first one.
  unfoldable pub range_from : ℤ → ℤ → List (Frame F) → TimeRange
  range_from from to [] = record { from = from; to = to }
  range_from from to (f ∷ fs) =
      let t = f.timestamp_unix_ms in
      range_from (if ltb_ℤ t from then t else from) (if ltb_ℤ to t then t else to) fs

  unfoldable pub time_range : List (Frame F) → Option TimeRange
  time_range [] = none
  time_range (f ∷ fs) = some (range_from f.timestamp_unix_ms f.timestamp_unix_ms (f ∷ fs))

  -- The set of the laps of the frames.
  unfoldable pub lap_set : List ℤ → List (Frame F) → List ℤ
  lap_set seen [] = seen
  lap_set seen (f ∷ fs) = lap_set (if is_in f.lap_number seen then seen else f.lap_number ∷ seen) fs

  unfoldable pub detail : MemorySummaryRepository F → String → Session → ℕ → SessionDetailSummary
  detail r session_id session events =
      let fs = frames_of r.frames session_id in
      let aggregate = aggregate_of r.rejections session_id in
      record {
        session = record (build_item session (length fs) events) {
          rejected_frames = aggregate.rejected_frames;
        };
        frame_batches = 0;
        persisted_frames = length fs;
        time_range_ms = time_range fs;
        laps_detected = length (lap_set [] fs);
        engineer_event_count = events;
        ai_audit_log_count = 0;
        rejection_summary = unless_empty aggregate.summary;
      }

  -- `Summary`
  unfoldable pub session_detail :
      MemorySummaryRepository F → String → Result SummaryError SessionDetailSummary
  session_detail r session_id = do
    session ← found (find_by_id r.sessions session_id)
    events ← event_count_of r.events session.id
    ok (detail r session_id session events)
