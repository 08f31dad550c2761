-- ===== src/Events/FrameEvents/Generated.antt =====
-- What the calls that generate events from frames give.
use telemetry_one_backend.Base.{
  String, int_eq, ◌≡◌, refl, Bool, false, Option, none, some, List, [], ◌∷◌, if◌then◌else◌, ◌==◌,
  string_eq, ℤ, All, All-append, inl, inr, ◌⊎◌, Bool-cases, ltb_ℤ, sub64, pos, not, ◌&&◌, ◌||◌,
  leb_ℤ,
}
use telemetry_one_backend.Base.Float.{Float64}
use telemetry_one_backend.Base.Dict.{Dict, lookup}
use telemetry_one_backend.Base.Result.{ok, or_error-eq-ok}
use telemetry_one_backend.Telemetry.Frame.{Frame}
use telemetry_one_backend.Laps.Lap.{CompletedLap, contains}
use telemetry_one_backend.Events.Event.{EngineerEvent, CatalogRef, validate_event}
use telemetry_one_backend.Events.Producer.{
  FrameEventOptions, Streak, base_frame_event, streak_duration, streak_event, emit_all,
  off_track_streaks, off_track_stint_events, append_off_track_tail, default_frame_event_options,
}
use telemetry_one_backend.Events.Regression.{
  regresses, regression_event, regression_loop, lap_time_regression_events, drops_from,
  pace_drop_event, pace_drop_step, pace_drop_loop, previous_lap_regression_events,
  generate_frame_events_for_append,
}
use telemetry_one_backend.Events.Rules.{replace_ms}
use telemetry_one_backend.Events.Rules.Generated.{first_fault-eq-none}
use telemetry_one_backend.Events.FrameEvents.{
  normalize_frame_event_options, generate_frame_events_with_options,
}

-- A value that fails a test is replaced at most once.
replaced_idem :
    {A : Type 0} (bad : A → Bool) (v d : A)
    → (let r = if bad v then d else v in if bad r then d else r) ≡ (if bad v then d else v)
replaced_idem bad v d = elim (Bool-cases (bad v)) [
  | inl replaced ↦ elim (Bool-cases (bad d)) [
    | inl still ↦ rw (replaced, still) refl
    | inr fine ↦ rw (replaced, fine) refl
  ]
  | inr kept ↦ rw (kept, kept) refl
]

module _ (F : Type 0) ⦃fl : Float64 F⦄ (session_id : String)
    (track layout : Option CatalogRef) where
  -- The event is on the session, the track and the layout, and of a kind that frames give.
  pub record IsFrom (e : EngineerEvent F) : Type 0 where
    pub session : e.session_id ≡ session_id
    pub track_ref : e.track ≡ track
    pub layout_ref : e.layout ≡ layout
    pub kind : (e.event_type ≡ "lap_time_regression") ⊎ (e.event_type ≡ "off_track_stint")

  pace_drop_step-IsFrom :
      (lap : CompletedLap) (before : Option CompletedLap) (rest : List (EngineerEvent F))
      → All IsFrom rest
      → All IsFrom (pace_drop_step session_id track layout lap before rest)
  unfolding pace_drop_step pace_drop_event base_frame_event
  pace_drop_step-IsFrom lap none rest all = all
  pace_drop_step-IsFrom lap (some previous) rest all =
      elim (Bool-cases (drops_from F previous lap)) [
        | inl slower ↦
            rw slower
              (record { session = refl; track_ref = refl; layout_ref = refl; kind = inl refl }, all)
        | inr kept ↦ rw kept all
      ]

  pace_drop-IsFrom :
      (known : Dict ℤ CompletedLap) (laps : List CompletedLap)
      → All IsFrom (pace_drop_loop session_id track layout known laps)
  unfolding pace_drop_loop
  pace_drop-IsFrom known [] = tt
  pace_drop-IsFrom known (lap ∷ laps) =
      pace_drop_step-IsFrom lap (lookup (sub64 lap.lap_number (pos 1)) known)
        (pace_drop_loop session_id track layout known laps) (pace_drop-IsFrom known laps)

  previous_lap-IsFrom :
      (accumulated appended : List (Frame F))
      → All IsFrom (previous_lap_regression_events session_id accumulated appended track layout)
  unfolding previous_lap_regression_events
  previous_lap-IsFrom accumulated appended = pace_drop-IsFrom _ _

  module _ (options : FrameEventOptions F) (tracks : options.track ≡ track)
      (layouts : options.layout ≡ layout) where
    regression-IsFrom :
        (seen : List ℤ) (fs : List (Frame F))
        → All IsFrom (regression_loop session_id options seen fs)
    unfolding regression_loop regression_event base_frame_event
    regression-IsFrom seen [] = tt
    regression-IsFrom seen (f ∷ fs) =
        let n = sub64 f.lap_number (pos 1) in
        elim (Bool-cases (regresses options f && not (contains n seen))) [
          | inl found ↦ rw found (
            record { session = refl; track_ref = tracks; layout_ref = layouts; kind = inl refl },
            regression-IsFrom (n ∷ seen) fs,
          )
          | inr kept ↦ rw kept (regression-IsFrom seen fs)
        ]

    stints-IsFrom : (ss : List (Streak F)) → All IsFrom (emit_all session_id options ss)
    unfolding emit_all streak_event base_frame_event
    stints-IsFrom [] = tt
    stints-IsFrom (s ∷ ss) =
        elim (Bool-cases (ltb_ℤ (streak_duration s) options.off_track_min_duration_ms)) [
          | inl short ↦ rw short (stints-IsFrom ss)
          | inr long ↦ rw long (
            record { session = refl; track_ref = tracks; layout_ref = layouts; kind = inr refl },
            stints-IsFrom ss,
          )
        ]

    lap_time-IsFrom :
        (fs : List (Frame F)) → All IsFrom (lap_time_regression_events session_id fs options)
    unfolding lap_time_regression_events
    lap_time-IsFrom fs = regression-IsFrom [] fs

    off_track-IsFrom :
        (fs : List (Frame F)) → All IsFrom (off_track_stint_events session_id fs options)
    unfolding off_track_stint_events
    off_track-IsFrom fs = stints-IsFrom (off_track_streaks none fs)

module _ {F : Type 0} ⦃fl : Float64 F⦄ where
  -- The events that the ingest of a batch generates without an error are all valid, on the session,
  -- and on the track and the layout given, and are slow laps or stints off the track; the session has
  -- an identifier.
  pub generate_frame_events_for_append_lem :
      (session_id : String) (accumulated appended : List (Frame F))
      (track layout : Option CatalogRef) (events : List (EngineerEvent F))
      → generate_frame_events_for_append session_id accumulated appended track layout ≡ ok events
      → ((session_id == "") ≡ false)
        × All (λ e. validate_event e ≡ none) events
        × All (IsFrom F session_id track layout) events
  unfolding generate_frame_events_for_append
  generate_frame_events_for_append_lem session_id accumulated appended track layout events h =
      elim (Bool-cases (session_id == "")) [
        | inl missing ↦ cc (rw missing at h)
        | inr there ↦
            let options : FrameEventOptions F =
              record (default_frame_event_options {F = F} ⦃fl = fl⦄) {
                track = track;
                layout = layout;
              } in
            let (valid, same) = or_error-eq-ok _ (rw there at h) in
            rw same (
              there,
              first_fault-eq-none _ valid,
              All-append (IsFrom F session_id track layout) _ _
                  (All-append (IsFrom F session_id track layout) _ _
                    (lap_time-IsFrom F session_id track layout options refl refl appended)
                    (previous_lap-IsFrom F session_id track layout accumulated appended))
                  (off_track-IsFrom F session_id track layout options refl refl
                    (append_off_track_tail accumulated appended)),
            )
      ]

  normalized-refs :
      (o : FrameEventOptions F)
      → ((normalize_frame_event_options o).track ≡ o.track)
        × ((normalize_frame_event_options o).layout ≡ o.layout)
  unfolding normalize_frame_event_options
  normalized-refs o = (refl, refl)

  -- The events that a run of frames gives without an error, with options that a caller sets, are all
  -- valid, on the session, and on the track and the layout of the options, and are slow laps or
  -- stints off the track; the session has an identifier.
  pub generate_frame_events_with_options_lem :
      (session_id : String) (frames : List (Frame F)) (o : FrameEventOptions F)
      (events : List (EngineerEvent F))
      → generate_frame_events_with_options session_id frames o ≡ ok events
      → ((session_id == "") ≡ false)
        × All (λ e. validate_event e ≡ none) events
        × All (IsFrom F session_id o.track o.layout) events
  unfolding generate_frame_events_with_options
  generate_frame_events_with_options_lem session_id frames o events h =
      elim (Bool-cases (session_id == "")) [
        | inl missing ↦ cc (rw missing at h)
        | inr there ↦
            let options = normalize_frame_event_options o in
            let (tracks, layouts) = normalized-refs o in
            let (valid, same) = or_error-eq-ok _ (rw there at h) in
            rw same (
              there,
              first_fault-eq-none _ valid,
              All-append (IsFrom F session_id o.track o.layout) _ _
                  (lap_time-IsFrom F session_id o.track o.layout options tracks layouts frames)
                  (off_track-IsFrom F session_id o.track o.layout options tracks layouts frames),
            )
      ]

  -- Options that `normalizeFrameEventOptions` gives are not changed by it again.
  pub normalize_frame_event_options_idem :
      (o : FrameEventOptions F)
      → normalize_frame_event_options (normalize_frame_event_options o)
        ≡ normalize_frame_event_options o
  unfolding normalize_frame_event_options
  normalize_frame_event_options_idem o =
      let d = default_frame_event_options {F = F} ⦃fl = fl⦄ in
      let low = replace_ms (pos 0) o.off_track_low_duration_ms d.off_track_low_duration_ms in
      let medium = replace_ms low o.off_track_medium_duration_ms d.off_track_medium_duration_ms in
      rw
        (
          replaced_idem (λ v. leb_ℤ v (pos 0)) o.lap_regression_min_delta_ms
              d.lap_regression_min_delta_ms,
          replaced_idem (λ v. fl.le v (fl.literal 0 0) || fl.is_nan v || fl.is_inf v)
              o.lap_regression_delta_pct d.lap_regression_delta_pct,
          replaced_idem (λ v. leb_ℤ v (pos 0)) o.off_track_min_duration_ms
              d.off_track_min_duration_ms,
          replaced_idem (λ v. leb_ℤ v (pos 0)) o.off_track_low_duration_ms
              d.off_track_low_duration_ms,
          replaced_idem (λ v. leb_ℤ v low) o.off_track_medium_duration_ms
              d.off_track_medium_duration_ms,
          replaced_idem (λ v. leb_ℤ v medium) o.off_track_high_duration_ms
              d.off_track_high_duration_ms,
        )
        refl
