-- ===== src/Events/Rules/Generated.antt =====
-- What `Generate` gives for a corner.
use telemetry_one_backend.Base.{
  ◌≤◌, ◌≡◌, refl, Bool, true, false, ◌||◌, not, Option, none, some, List, [], ◌∷◌, ◌++◌, arith,
  if◌then◌else◌, ◌==◌, string_eq, ltb_ℤ, length, length-append, All, All-append, inl, inr, ◌⊎◌,
  or-eq-false, Bool-cases, Option-cases,
}
use telemetry_one_backend.Base.Float.{Float64}
use telemetry_one_backend.Base.Result.{ok, or_error-eq-ok}
use telemetry_one_backend.Events.Event.{EngineerEvent, validate_event, finite}
use telemetry_one_backend.Events.Regression.{first_fault}
use telemetry_one_backend.Events.Rules.{
  RuleInput, base_event, late_throttle_event, exit_speed_event, ReferenceMetrics, referenced_event,
  low_exit_speed_event, given_event, normalize_rule_options, generate,
}

not-eq-false : (b : Bool) → not b ≡ false → b ≡ true
not-eq-false b = ground arith

module _ {F : Type 0} ⦃fl : Float64 F⦄ where
  pub first_fault-eq-none :
      (es : List (EngineerEvent F)) → first_fault es ≡ none → All (λ e. validate_event e ≡ none) es
  unfolding first_fault
  first_fault-eq-none [] h = tt
  first_fault-eq-none (e ∷ es) h = elim (Option-cases (validate_event e)) [
    | inl good ↦ (good, first_fault-eq-none es (rw (good, first_fault) at h))
    | inr (fault, bad) ↦ cc (rw (bad, first_fault) at h)
  ]

  -- The throttle came back, and not before the low threshold.
  abbrev pub IsLate : RuleInput F → EngineerEvent F → Type 0
  IsLate input e =
      let m = input.corner_analysis.first_throttle_reapplication in
      (e.event_type ≡ "late_throttle")
      × ((m.status == "available") ≡ true)
      × (ltb_ℤ m.time_offset_ms (normalize_rule_options input.options).late_throttle_delay_low_ms
          ≡ false)

  -- The exit speed is not less than the low threshold below the reference.
  abbrev pub IsSlow : RuleInput F → EngineerEvent F → Type 0
  IsSlow input e =
      let actual = input.corner_analysis.exit_speed_kph in
      (e.event_type ≡ "low_exit_speed")
      × ((actual.status == "available") ≡ true)
      × ((r : ReferenceMetrics F) × (input.reference ≡ some r)
          × (fl.lt (fl.sub r.exit_speed_kph.value actual.value)
                (normalize_rule_options input.options).low_exit_speed_delta_low_kph
              ≡ false))

  -- The event is on the session, the lap, the time and the corner of the input, and for a reason.
  pub record IsAbout (input : RuleInput F) (e : EngineerEvent F) : Type 0 where
    pub session : e.session_id ≡ input.session_id
    pub lap : e.lap_number ≡ input.lap_number
    pub time : e.timestamp_unix_ms ≡ input.timestamp_unix_ms
    pub corner : e.corner ≡ input.corner
    pub reason : IsLate input e ⊎ IsSlow input e

  -- The list of an event that a guard may leave out.
  abbrev IsFew : RuleInput F → List (EngineerEvent F) → Type 0
  IsFew input es = All (IsAbout input) es × (length es ≤ 1)

  guarded-IsFew :
      (input : RuleInput F) (skipped : Bool) (e : EngineerEvent F)
      → (skipped ≡ false → IsAbout input e)
      → IsFew input (given_event (if skipped then none else some e))
  guarded-IsFew input true e about = (tt, omega arith)
  guarded-IsFew input false e about = ((about refl, tt), omega arith)

  late_throttle-IsFew :
      (input : RuleInput F)
      → IsFew input (given_event (late_throttle_event input (normalize_rule_options input.options)))
  unfolding late_throttle_event base_event
  late_throttle-IsFew input = guarded-IsFew input _ _ (λ kept.
      let (early, live) = (or-eq-false _ _).0 kept in
      let (there, after) = (or-eq-false _ _).0 early in
      record {
        session = refl;
        lap = refl;
        time = refl;
        corner = refl;
        reason = inl (refl, not-eq-false _ there, after);
      })

  exit_speed-IsFew :
      (input : RuleInput F) (r : ReferenceMetrics F)
      → input.reference ≡ some r
      → IsFew input (
          given_event
            (exit_speed_event input (normalize_rule_options input.options) r.exit_speed_kph.value))
  unfolding exit_speed_event base_event
  exit_speed-IsFew input r given = guarded-IsFew input _ _ (λ kept.
      let (early, below) = (or-eq-false _ _).0 kept in
      let (found, live) = (or-eq-false _ _).0 early in
      let (there, known) = (or-eq-false _ _).0 found in
      record {
        session = refl;
        lap = refl;
        time = refl;
        corner = refl;
        reason = inr (refl, not-eq-false _ there, (r, given, below));
      })

  referenced-IsFew :
      (input : RuleInput F) (reference : Option (ReferenceMetrics F))
      → input.reference ≡ reference
      → IsFew input
          (given_event (referenced_event input (normalize_rule_options input.options) reference))
  unfolding referenced_event
  referenced-IsFew input none given = (tt, omega arith)
  referenced-IsFew input (some r) given =
      let speed = r.exit_speed_kph in
      elim (Bool-cases (not speed.available || not (finite speed.value))) [
        | inl skipped ↦ rw (skipped, given_event) (tt, omega arith)
        | inr kept ↦ rw kept (exit_speed-IsFew input r given)
      ]

  low_exit_speed-IsFew :
      (input : RuleInput F)
      → IsFew input
          (given_event (low_exit_speed_event input (normalize_rule_options input.options)))
  unfolding low_exit_speed_event
  low_exit_speed-IsFew input = referenced-IsFew input input.reference refl

  -- The events that `Generate` returns are at most two, all valid, on the session, the lap, the time
  -- and the corner of the input; each is a late throttle whose delay is not below the low threshold,
  -- or an exit speed whose distance below the reference is not less than the low threshold, where the
  -- thresholds are the normalized ones.
  pub generate_lem :
      (input : RuleInput F) (events : List (EngineerEvent F))
      → generate input ≡ ok events
      → All (λ e. validate_event e ≡ none) events × All (IsAbout input) events × (length events ≤ 2)
  unfolding generate
  generate_lem input events h = elim (Bool-cases (input.corner_analysis.status == "unavailable")) [
    | inl missing ↦ let e : events ≡ [] = cc (rw missing at h) in rw e (tt, tt, omega arith)
    | inr known ↦
        let options = normalize_rule_options input.options in
        let (late, one) = late_throttle-IsFew input in
        let (slow, another) = low_exit_speed-IsFew input in
        let all =
          given_event (late_throttle_event input options)
          ++ given_event (low_exit_speed_event input options) in
        let (valid, same) = or_error-eq-ok (first_fault all) (rw known at h) in
        rw same (
          first_fault-eq-none all valid,
          All-append (IsAbout input) _ _ late slow,
          omega (
            arith,
            length-append (given_event (late_throttle_event input options))
                (given_event (low_exit_speed_event input options)),
          ),
        )
  ]
