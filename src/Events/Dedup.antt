-- ===== src/Events/Dedup.antt =====
-- internal/events/dedup.go: events that repeat within a cooldown are suppressed.
pub mod Thinning
use mathlib.Core.Option
use telemetry_one_backend.Base.{
  String, Bool, true, false, ◌&&◌, Option, none, some, List, [], ◌∷◌, ◌++◌, if◌then◌else◌, ◌==◌,
  string_eq, ℤ, pos, ltb_ℤ, leb_ℤ, sub64,
}
use telemetry_one_backend.Base.Dict.{Dict, lookup, insert}
use telemetry_one_backend.Base.Text.{◌&◌, decimal, join}
use telemetry_one_backend.Base.Text.Trim.{trim_space}
use telemetry_one_backend.Events.Event.{EngineerEvent, CatalogRef, TimeRange}

abbrev pub default_event_cooldown_window_ms : ℤ
default_event_cooldown_window_ms = pos 30000

-- `catalogRefID`
unfoldable pub catalog_ref_id : Option CatalogRef → String
catalog_ref_id none = "<none>"
catalog_ref_id (some r) = elim r.id [
  | none ↦ "<none>"
  | some id ↦ let trimmed = trim_space id in if trimmed == "" then "<none>" else trimmed
]

unfoldable pub time_range_part : Option TimeRange → List String
time_range_part none = []
time_range_part (some r) =
    ("time_range:" & decimal r.start_unix_ms & "-" & decimal r.end_unix_ms) ∷ []

-- `normalizeDedupOptions` of the one option.
unfoldable pub normalize_cooldown : ℤ → ℤ
normalize_cooldown c = if leb_ℤ c (pos 0) then default_event_cooldown_window_ms else c

module _ {F : Type 0} where
  unfoldable pub dedup_key : EngineerEvent F → String
  unfolding catalog_ref_id time_range_part
  dedup_key e = join "|" (
      (trim_space e.session_id
        ∷ e.event_type
        ∷ ("lap:" & decimal e.lap_number)
        ∷ ("track:" & catalog_ref_id e.track)
        ∷ ("layout:" & catalog_ref_id e.layout)
        ∷ ("corner:" & catalog_ref_id e.corner)
        ∷ ("source_kind:" & e.source.kind)
        ∷ ("rule_id:" & e.source.rule_id)
        ∷ ("rule_version:" & e.source.rule_version)
        ∷ [])
      ++ time_range_part e.time_range)

pub record DedupDecision (F : Type 0) : Type 0 where
  pub event : EngineerEvent F
  pub key : String
  pub decision : String
  pub reason : String
  pub previous_event_id : String
  pub previous_timestamp_unix_ms : ℤ

pub record EventDeduplicator (F : Type 0) : Type 0 where
  pub cooldown_window_ms : ℤ
  pub seen : Dict String (EngineerEvent F)

-- What `Filter` returns, and the deduplicator it leaves.
pub record Filtered (F : Type 0) : Type 0 where
  pub deduplicator : EventDeduplicator F
  pub accepted : List (EngineerEvent F)
  pub decisions : List (DedupDecision F)

unfoldable pub new_event_deduplicator : {F : Type 0} → ℤ → EventDeduplicator F
new_event_deduplicator cooldown = record {
  cooldown_window_ms = normalize_cooldown cooldown;
  seen = [];
}

-- The decision and the reason for an event `delta` after the one before it.
unfoldable pub verdict : ℤ → ℤ → String × String
verdict cooldown delta =
    if leb_ℤ (pos 0) delta && ltb_ℤ delta cooldown
    then ("suppressed", "duplicate_inside_cooldown")
    else if ltb_ℤ delta (pos 0) && ltb_ℤ (sub64 (pos 0) delta) cooldown
    then ("suppressed", "out_of_order_inside_cooldown")
    else ("accepted", "cooldown_expired")

module _ {F : Type 0} where
  abbrev is_fresh : Dict String (EngineerEvent F) → Bool
  is_fresh [] = true
  is_fresh (entry ∷ seen) = false

  unfoldable pub decide : EventDeduplicator F → EngineerEvent F → DedupDecision F
  decide d event =
      let key = dedup_key event in
      elim (lookup key d.seen) [
        | some previous ↦
            let v =
              verdict d.cooldown_window_ms
                (sub64 event.timestamp_unix_ms previous.timestamp_unix_ms) in
            record {
              event = event;
              key = key;
              decision = v.0;
              reason = v.1;
              previous_event_id = previous.event_id;
              previous_timestamp_unix_ms = previous.timestamp_unix_ms;
            }
        | none ↦ record {
          event = event;
          key = key;
          decision = "accepted";
          reason = if is_fresh d.seen then "first_seen" else "different_context";
          previous_event_id = "";
          previous_timestamp_unix_ms = pos 0;
        }
      ]

  abbrev pub mark_seen : EventDeduplicator F → EngineerEvent F → EventDeduplicator F
  mark_seen d event = record d { seen = insert (dedup_key event) event d.seen }

  -- The loop of `Filter`.
  unfoldable pub filter_loop : EventDeduplicator F → List (EngineerEvent F) → Filtered F
  filter_loop d [] = record { deduplicator = d; accepted = []; decisions = [] }
  filter_loop d (event ∷ events) =
      let decision = decide d event in
      let suppressed = decision.decision == "suppressed" in
      let rest = filter_loop (if suppressed then d else mark_seen d event) events in
      if suppressed
      then record rest { decisions = decision ∷ rest.decisions }
      else record rest { accepted = event ∷ rest.accepted; decisions = decision ∷ rest.decisions }

  unfoldable pub filter : EventDeduplicator F → List (EngineerEvent F) → Filtered F
  filter d events =
      filter_loop (record d { cooldown_window_ms = normalize_cooldown d.cooldown_window_ms }) events
