-- ===== src/Events/Store.antt =====
-- internal/events/store.go: the events that are kept in memory. The store is made by `NewStore`, and
-- the context of a call is live or is done.
pub mod History
use telemetry_one_backend.Base.{
  ℕ, String, Bool, true, false, ◌||◌, ◌&&◌, not, Option, none, some, List, [], ◌∷◌, ◌++◌,
  if◌then◌else◌, ◌==◌, string_eq, int_eq, nat_eq, ℤ, pos, pos_part, leb_ℤ, ltb, length, take_last,
}
use telemetry_one_backend.Base.Float.{Float64}
use telemetry_one_backend.Base.Result.{Result, ok, err}
use telemetry_one_backend.Events.Event.{
  EventError, EngineerEvent, Query, validate_event, validate_query,
}
use telemetry_one_backend.Events.Dedup.{
  EventDeduplicator, new_event_deduplicator, filter, catalog_ref_id,
}

-- `ctx.Err()`, or an error of the package.
pub data StoreError : Type 0 where
  context_done : StoreError
  refused : EventError → StoreError

pub record Store (F : Type 0) : Type 0 where
  pub events : List (EngineerEvent F)
  pub deduplicator : EventDeduplicator F
  pub limit : ℕ

abbrev pub default_stored_events_limit : ℕ
default_stored_events_limit = 1000

unfoldable pub new_store : {F : Type 0} → ℤ → ℤ → Store F
new_store limit cooldown = record {
  events = [];
  deduplicator = new_event_deduplicator cooldown;
  limit = if leb_ℤ limit (pos 0) then default_stored_events_limit else pos_part limit;
}

-- `q != nil && v != *q`
abbrev differs : Option ℤ → ℤ → Bool
differs none v = false
differs (some n) v = not (v == n)

module _ {F : Type 0} where
  unfoldable pub keep_last : ℕ → List (EngineerEvent F) → List (EngineerEvent F)
  keep_last limit es = if ltb limit (length es) then take_last limit es else es

  -- What `Append` does with an event that is valid, and whether it takes the event.
  unfoldable pub append_valid : Store F → EngineerEvent F → Store F × Bool
  append_valid s event =
      let filtered = filter s.deduplicator (event ∷ []) in
      let s' = record s { deduplicator = filtered.deduplicator } in
      if length filtered.accepted == 0
      then (s', false)
      else (record s' { events = keep_last s.limit (s.events ++ event ∷ []) }, true)

  -- The conditions of `List` under which an event is passed over.
  unfoldable pub is_passed_over : Query → EngineerEvent F → Bool
  is_passed_over q e =
      not (e.session_id == q.session_id)
      || differs q.lap_number e.lap_number
      || (not (q.corner_id == "") && not (catalog_ref_id e.corner == q.corner_id))
      || (not (q.event_type == "") && not (e.event_type == q.event_type))

  unfoldable pub select : Query → List (EngineerEvent F) → List (EngineerEvent F)
  select q [] = []
  select q (e ∷ es) = let rest = select q es in if is_passed_over q e then rest else e ∷ rest

  unfoldable pub list : Bool → Store F → Query → Result StoreError (List (EngineerEvent F))
  list done s q =
      if done
      then err context_done
      else elim (validate_query q) [ some e ↦ err (refused e) | none ↦ ok (select q s.events) ]

module _ {F : Type 0} ⦃fl : Float64 F⦄ where
  unfoldable pub append :
      Bool → Store F → EngineerEvent F → Store F × Result StoreError (EngineerEvent F × Bool)
  append done s event = if done then (s, err context_done) else elim (validate_event event) [
    | some e ↦ (s, err (refused e))
    | none ↦ let (s', taken) = append_valid s event in (s', ok (event, taken))
  ]

  -- A series of `Append` calls with live contexts.
  unfoldable pub append_events : Store F → List (EngineerEvent F) → Store F
  append_events s [] = s
  append_events s (event ∷ events) = append_events (append false s event).0 events
