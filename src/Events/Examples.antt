-- ===== src/Events/Examples.antt =====
-- The theorems on events at concrete events, in thousandths.
mod Generate
use telemetry_one_backend.Base.{
  map, ◌++◌, nat_eq, false, All, ℕ, String, length, wrap64, ◌-ℤ◌, ◌*ℤ◌, ◌≤◌, ◌≡◌, refl, ◌↔◌, none,
  some, List, [], ◌∷◌, arith, pos, take_last,
}
use mathlib.Core.Option
use telemetry_one_backend.Base.Float.{Milli, milli_float}
use telemetry_one_backend.Base.Text.{decimal, join}
use telemetry_one_backend.Base.Text.Trim.{trim_space}
use telemetry_one_backend.Base.Result.{first_error}
use telemetry_one_backend.Events.Event.{
  EngineerEvent, validate_event, event_checks, validate_ref, is_bad_ref, validate_metrics,
  validate_metric, metric_checks, validate_source, source_checks, is_bad_range, finite,
  supported_type, supported_severity, raw_telemetry_metric, one_of,
}
use telemetry_one_backend.Events.Event.Contract.{IsEvent, validate_event_iff}
use telemetry_one_backend.Events.Dedup.{
  new_event_deduplicator, normalize_cooldown, filter, dedup_key, catalog_ref_id,
}
use telemetry_one_backend.Events.Dedup.Thinning.{of_key, thin, filter_lem}
use telemetry_one_backend.Telemetry.Frame.{Frame}
use telemetry_one_backend.Telemetry.Examples.{frame, fast}
use telemetry_one_backend.Events.Producer.{
  next_streak, off_track_streaks, append_off_track_tail, prefix_before, up_to_before,
  off_track_suffix, default_frame_event_options,
}
use telemetry_one_backend.Events.Producer.LastStreak.{IsLastStreak}
use telemetry_one_backend.Events.Producer.OffTrack.{
  last_of, summarize, off_track_runs, off_track_streaks-eq-runs, append_off_track_tail-first_batch,
}
use telemetry_one_backend.Events.Regression.{lap_time_regression_events}
use telemetry_one_backend.Events.Regression.Once.{OneEach, Reported, lap_time_regression_events_lem}
use telemetry_one_backend.Events.Store.{new_store, append_events}
use telemetry_one_backend.Events.Store.History.{valid_events, append_events_lem}

abbrev event_at : String → ℕ → EngineerEvent Milli
event_at id time = record {
  event_id = id;
  session_id = "s1";
  version = "telemetry-one.engineer-event.v1";
  event_type = "late_braking";
  severity = "low";
  confidence = some (pos 800);
  timestamp_unix_ms = pos time;
  time_range = none;
  lap_number = pos 3;
  track = some (record { id = some "t1"; name = none; display_strategy = "id_only" });
  layout = none;
  corner = none;
  metrics =
      record {
        name = "brakeDelta";
        value = some (pos 12000);
        unit = "m";
        status = "available";
        reason = "";
        role = "delta";
      }
      ∷ [];
  source = record { kind = "deterministic_rule"; rule_id = "r1"; rule_version = "v1" };
}

abbrev events : List (EngineerEvent Milli)
events =
    event_at "a" 1000
    ∷ event_at "b" 20000
    ∷ record (event_at "" 40000) { lap_number = pos 4 }
    ∷ event_at "c" 31000
    ∷ []

validate_event_example : (validate_event (event_at "a" 1000) ≡ none) ↔ IsEvent (event_at "a" 1000)
validate_event_example = validate_event_iff (event_at "a" 1000)

validate_event_run : validate_event (event_at "a" 1000) ≡ none
unfolding validate_event first_error event_checks validate_ref is_bad_ref validate_metrics
    validate_metric metric_checks validate_source source_checks is_bad_range finite supported_type
    supported_severity raw_telemetry_metric one_of Option.or_else
validate_event_run = refl

filter_example :
    of_key (dedup_key (event_at "a" 1000)) (filter (new_event_deduplicator (pos 0)) events).accepted
    ≡ thin (normalize_cooldown (pos 0)) none (of_key (dedup_key (event_at "a" 1000)) events)
filter_example = filter_lem (pos 0) events (dedup_key (event_at "a" 1000)) (
  (omega arith, (omega arith, omega arith)),
  (
    (omega arith, (omega arith, omega arith)),
    ((omega arith, (omega arith, omega arith)), ((omega arith, (omega arith, omega arith)), tt)),
  ),
)

key_run :
    dedup_key (event_at "a" 1000)
    ≡ "s1|late_braking|lap:3|track:t1|layout:<none>|corner:<none>|source_kind:deterministic_rule|rule_id:r1|rule_version:v1"
unfolding dedup_key join trim_space catalog_ref_id decimal
key_run = refl

append_events_example :
    (append_events (new_store (pos 2) (pos 0)) events).events
    ≡ take_last
        (new_store {F = Milli} (pos 2) (pos 0)).limit
        (filter (new_event_deduplicator (pos 0)) (valid_events events)).accepted
append_events_example = append_events_lem (pos 2) (pos 0) events

abbrev off_track : ℕ → Frame Milli
off_track time = record (frame time 1 fast) { is_on_track = false }

abbrev drive : List (Frame Milli)
drive = off_track 100 ∷ off_track 200 ∷ frame 300 1 fast ∷ off_track 900 ∷ []

off_track_streaks_example : off_track_streaks none drive ≡ map summarize (off_track_runs drive)
off_track_streaks_example = off_track_streaks-eq-runs drive

off_track_streaks_run :
    off_track_streaks none drive
    ≡ record { start = off_track 100; end = off_track 200; count = 2 }
      ∷ record { start = off_track 900; end = off_track 900; count = 1 }
      ∷ []
unfolding off_track_streaks next_streak
off_track_streaks_run = refl

abbrev earlier_frames : List (Frame Milli)
earlier_frames = frame 100 1 fast ∷ off_track 200 ∷ off_track 300 ∷ []

append_off_track_tail-first_batch_example :
    (streak : List (Frame Milli)) × IsLastStreak (off_track 400 ∷ off_track 500 ∷ []) streak
    × (append_off_track_tail
          (off_track 400 ∷ off_track 500 ∷ [])
          (off_track 400 ∷ off_track 500 ∷ [])
        ≡ streak ++ off_track 400 ∷ off_track 500 ∷ [])
unfolding last_of
append_off_track_tail-first_batch_example =
    append_off_track_tail-first_batch (off_track 400) (off_track 500 ∷ []) (off_track 400)
      (off_track 500 ∷ []) (omega arith, (omega arith, tt)) refl

first_batch_run :
    off_track_streaks none (
      append_off_track_tail
        (off_track 400 ∷ off_track 500 ∷ [])
        (off_track 400 ∷ off_track 500 ∷ []))
    ≡ record { start = off_track 400; end = off_track 500; count = 4 } ∷ []
unfolding off_track_streaks next_streak append_off_track_tail prefix_before up_to_before
    off_track_suffix
first_batch_run = refl

abbrev slow_lap : Frame Milli
slow_lap = record (frame 95000 2 fast) {
  last_lap_ms = some (pos 94000);
  best_lap_ms = some (pos 90000);
}

lap_time_regression_events_example :
    let events =
      lap_time_regression_events "s1" (slow_lap ∷ slow_lap ∷ []) default_frame_event_options in
    OneEach events
    × All (Reported "s1" default_frame_event_options (slow_lap ∷ slow_lap ∷ [])) events
lap_time_regression_events_example =
    lap_time_regression_events_lem "s1" default_frame_event_options (slow_lap ∷ slow_lap ∷ [])
