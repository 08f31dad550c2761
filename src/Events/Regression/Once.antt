-- ===== src/Events/Regression/Once.antt =====
-- A lap has one event of regression at most.
use telemetry_one_backend.Base.{
  String, ◌≡◌, ◌≢◌, refl, true, false, ◌&&◌, not, List, [], ◌∷◌, arith, ◌==◌, int_eq, eqb_ℤ_iff, ℤ,
  pos, sub64, All, All-imp, or-eq-false, inl, inr, Bool-cases,
}
use telemetry_one_backend.Base.Float.{Float64}
use telemetry_one_backend.Telemetry.Frame.{Frame}
use telemetry_one_backend.Laps.Lap.{contains}
use telemetry_one_backend.Events.Event.{EngineerEvent}
use telemetry_one_backend.Events.Producer.{FrameEventOptions, base_frame_event}
use telemetry_one_backend.Events.Regression.{
  regresses, regression_event, regression_loop, lap_time_regression_events,
}

module _ {F : Type 0} where
  -- No two events of the list are on one lap.
  abbrev pub OneEach : List (EngineerEvent F) → Type 0
  OneEach [] = Unit
  OneEach (e ∷ es) = All (λ other. other.lap_number ≢ e.lap_number) es × OneEach es

module _ {F : Type 0} ⦃fl : Float64 F⦄ (session_id : String) (options : FrameEventOptions F) where
  -- The event is that of a frame of the list which regresses.
  pub data Reported : List (Frame F) → EngineerEvent F → Type 0 where
    here :
        {f : Frame F} {fs : List (Frame F)}
        → regresses options f ≡ true
        → Reported (f ∷ fs) (regression_event session_id options f)
    later :
        {f : Frame F} {fs : List (Frame F)} {e : EngineerEvent F}
        → Reported fs e
        → Reported (f ∷ fs) e

  lap-regression_event :
      (f : Frame F)
      → (regression_event session_id options f).lap_number ≡ sub64 f.lap_number (pos 1)
  unfolding regression_event base_frame_event
  lap-regression_event f = refl

  regression_loop-OneEach :
      (seen : List ℤ) (fs : List (Frame F))
      → let events = regression_loop session_id options seen fs in
        All (λ e. contains e.lap_number seen ≡ false) events
        × OneEach events
        × All (Reported fs) events
  unfolding regression_loop
  regression_loop-OneEach seen [] = (tt, tt, tt)
  regression_loop-OneEach seen (f ∷ fs) =
      let n = sub64 f.lap_number (pos 1) in
      elim (Bool-cases (regresses options f && not (contains n seen))) [
        | inl found ↦
            let rest = regression_loop session_id options (n ∷ seen) fs in
            let (unseen, distinct, reported) = regression_loop-OneEach (n ∷ seen) fs in
            let new : contains n seen ≡ false = ground arith in
            let does : regresses options f ≡ true = ground arith in
            let own = lap-regression_event f in
            rw found (
              (
                rw own new,
                All-imp _ _ rest
                    (λ e h. ((or-eq-false (n == e.lap_number) (contains e.lap_number seen)).0 h).1)
                    unseen,
              ),
              (
                All-imp _ _ rest (λ e h p. ground (arith, own, eqb_ℤ_iff n e.lap_number)) unseen,
                distinct,
              ),
              (here does, All-imp _ _ rest (λ e r. later r) reported),
            )
        | inr skipped ↦
            let rest = regression_loop session_id options seen fs in
            let (unseen, distinct, reported) = regression_loop-OneEach seen fs in
            rw skipped (unseen, distinct, All-imp _ _ rest (λ e r. later r) reported)
      ]

  -- Of the frames of a batch each event reports one that regresses, and no lap has two events.
  pub lap_time_regression_events_lem :
      (fs : List (Frame F))
      → let events = lap_time_regression_events session_id fs options in
        OneEach events × All (Reported fs) events
  unfolding lap_time_regression_events
  lap_time_regression_events_lem fs =
      let (_, distinct, reported) = regression_loop-OneEach [] fs in (distinct, reported)
