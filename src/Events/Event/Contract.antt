-- ===== src/Events/Event/Contract.antt =====
-- What an engineer event must look like to pass `Validate`.
use telemetry_one_backend.Base.{
  ◌≤◌, String, ◌≡◌, ◌≢◌, refl, ◌↔◌, inl, inr, true, false, ◌||◌, not, Option, none, some, List, [],
  ◌∷◌, arith, if◌then◌else◌, ◌==◌, string_eq, nat_eq, pos, ◌≤ℤ◌, ◌<ℤ◌, length, All, or-eq-false,
  Bool-cases, leb-eq-false, ltb-eq-false,
}
use text.Mathlib.TextEquality.{eq_iff}
use telemetry_one_backend.Base.Float.{Float64}
use telemetry_one_backend.Base.Result.{
  or_else-eq-none, first_error, Passes-of_first_error, first_error_of_Passes,
}
use telemetry_one_backend.Telemetry.Ranges.{Optional, Finite, InUnit}
use telemetry_one_backend.Events.Event.{
  EventError, EngineerEvent, CatalogRef, MetricEvidence, EventSource, TimeRange,
  contract_version_v1, event_types, severities, one_of, supported_type, supported_severity,
  raw_telemetry_metric, is_bad_ref, is_blank, is_given, validate_ref, source_checks,
  validate_source, is_bad_range, finite, metric_checks, validate_metric, validate_metrics,
  event_checks, validate_event,
}

-- The word stands in the list.
abbrev pub OneOf : String → List String → Type 0
OneOf s ts = one_of s ts ≡ true

abbrev pub Named : Option String → Type 0
Named none = ⊥
Named (some s) = s ≢ ""

-- A reference gives a name with an identifier, an identifier alone, or nothing.
pub data IsRef (r : CatalogRef) : Type 0 where
  named : r.display_strategy ≡ "catalog_name" → Named r.id → Named r.name → IsRef r
  bare : r.display_strategy ≡ "id_only" → Named r.id → r.name ≡ none → IsRef r
  empty : r.display_strategy ≡ "none" → r.id ≡ none → r.name ≡ none → IsRef r

pub record IsRange (r : TimeRange) : Type 0 where
  pub start : pos 0 <ℤ r.start_unix_ms
  pub end : pos 0 <ℤ r.end_unix_ms
  pub ordered : r.start_unix_ms ≤ℤ r.end_unix_ms

pub record IsSource (s : EventSource) : Type 0 where
  pub kind : s.kind ≡ "deterministic_rule"
  pub version : s.rule_version ≢ ""

module _ {F : Type 0} ⦃fl : Float64 F⦄ where
  pub record IsMetric (m : MetricEvidence F) : Type 0 where
    pub named : m.name ≢ ""
    pub derived : raw_telemetry_metric m.name ≡ false
    pub value : Finite m.value
    pub status : OneOf m.status ("available" ∷ "unavailable" ∷ [])
    pub role : OneOf m.role ("" ∷ "actual" ∷ "reference" ∷ "delta" ∷ "threshold" ∷ [])

  pub record IsEvent (e : EngineerEvent F) : Type 0 where
    pub id : e.event_id ≢ ""
    pub session : e.session_id ≢ ""
    pub version : e.version ≡ contract_version_v1
    pub event_type : OneOf e.event_type event_types
    pub severity : OneOf e.severity severities
    pub confidence : InUnit e.confidence
    pub time : pos 0 <ℤ e.timestamp_unix_ms
    pub range : Optional IsRange e.time_range
    pub lap : pos 0 ≤ℤ e.lap_number
    pub track : Optional IsRef e.track
    pub layout : Optional IsRef e.layout
    pub corner : Optional IsRef e.corner
    pub evidence : 1 ≤ length e.metrics
    pub metrics : All IsMetric e.metrics
    pub source : IsSource e.source

  IsMetric-iff : (m : MetricEvidence F) → (validate_metric m ≡ none) ↔ IsMetric m
  unfolding validate_metric first_error metric_checks finite one_of
  IsMetric-iff m = (
    λ h. record {
      named = λ e. ground (arith, eq_iff m.name "");
      derived = ground arith;
      value = ground arith;
      status = ground arith;
      role = ground arith;
    },
    λ v. ground (arith, v.named, eq_iff m.name ""),
  )

present : (s : String) → ((s == "") ≡ false) ↔ (s ≢ "")
present s = (λ h e. ground (arith, eq_iff s ""), λ h. ground (arith, eq_iff s ""))

equal : (s t : String) → (not (s == t) ≡ false) ↔ (s ≡ t)
equal s t = (λ h. ground (arith, eq_iff s t), λ h. ground (arith, eq_iff s t))

present_of_type : (s : String) → OneOf s event_types → (s == "") ≡ false
unfolding one_of
present_of_type s h = elim (Bool-cases (s == "")) [
  | inl e ↦ let h' : OneOf "" event_types = rw ((eq_iff s "").0 e) at h in cc h'
  | inr e ↦ e
]

present_of_severity : (s : String) → OneOf s severities → (s == "") ≡ false
unfolding one_of
present_of_severity s h = elim (Bool-cases (s == "")) [
  | inl e ↦ let h' : OneOf "" severities = rw ((eq_iff s "").0 e) at h in cc h'
  | inr e ↦ e
]

supported_type_iff : (s : String) → (not (supported_type s) ≡ false) ↔ OneOf s event_types
unfolding supported_type
supported_type_iff s = ground arith

supported_severity_iff : (s : String) → (not (supported_severity s) ≡ false) ↔ OneOf s severities
unfolding supported_severity
supported_severity_iff s = ground arith

IsSource-iff : (s : EventSource) → (validate_source s ≡ none) ↔ IsSource s
unfolding validate_source first_error source_checks
IsSource-iff s = (
  λ h.
      let (given, (kind, _)) = Passes-of_first_error (source_checks s) h in
      let (_, version) = (or-eq-false _ _).0 given in
      record {
        kind = (equal s.kind "deterministic_rule").0 kind;
        version = (present s.rule_version).0 version;
      },
  λ v.
      let kind : (s.kind == "") ≡ false = rw v.kind refl in
      first_error_of_Passes (source_checks s) (
        (or-eq-false _ _).1 (kind, (present s.rule_version).1 v.version),
        ((equal s.kind "deterministic_rule").1 v.kind, tt),
      ),
)

IsRange-iff : (o : Option TimeRange) → (is_bad_range o ≡ false) ↔ Optional IsRange o
unfolding is_bad_range
IsRange-iff none = (λ h. tt, λ h. refl)
IsRange-iff (some r) = (
  λ h. record { start = ground arith; end = ground arith; ordered = ground arith },
  λ v. ground (arith, v.start, v.end, v.ordered),
)

blank_iff : (o : Option String) → (is_blank o ≡ false) ↔ Named o
blank_iff none = (λ h. cc, λ h. absurd h)
blank_iff (some s) = (λ h e. ground (arith, eq_iff s ""), λ h. ground (arith, eq_iff s ""))

given_iff : (o : Option String) → (is_given o ≡ false) ↔ (o ≡ none)
given_iff none = (λ h. refl, λ h. refl)
given_iff (some s) = (λ h. cc, λ h. cc)

IsRef-of_check : (r : CatalogRef) → is_bad_ref r ≡ false → IsRef r
unfolding is_bad_ref
IsRef-of_check r h = elim (Bool-cases (r.display_strategy == "catalog_name")) [
  | inl strategy ↦
      let (id, name) = (or-eq-false _ _).0 (rw strategy at h) in
      named ((eq_iff _ _).0 strategy) ((blank_iff r.id).0 id) ((blank_iff r.name).0 name)
  | inr not_named ↦ elim (Bool-cases (r.display_strategy == "id_only")) [
    | inl strategy ↦
        let (id, name) = (or-eq-false _ _).0 (rw (not_named, strategy) at h) in
        bare ((eq_iff _ _).0 strategy) ((blank_iff r.id).0 id) ((given_iff r.name).0 name)
    | inr not_bare ↦ elim (Bool-cases (r.display_strategy == "none")) [
      | inl strategy ↦
          let (id, name) = (or-eq-false _ _).0 (rw (not_named, not_bare, strategy) at h) in
          empty ((eq_iff _ _).0 strategy) ((given_iff r.id).0 id) ((given_iff r.name).0 name)
      | inr other ↦ cc (rw (not_named, not_bare, other) at h)
    ]
  ]
]

good_ref_of_IsRef : (r : CatalogRef) → IsRef r → is_bad_ref r ≡ false
unfolding is_bad_ref
good_ref_of_IsRef r (named strategy id name) =
    rw (strategy) ((or-eq-false _ _).1 ((blank_iff r.id).1 id, (blank_iff r.name).1 name))
good_ref_of_IsRef r (bare strategy id name) =
    rw (strategy) ((or-eq-false _ _).1 ((blank_iff r.id).1 id, (given_iff r.name).1 name))
good_ref_of_IsRef r (empty strategy id name) =
    rw (strategy) ((or-eq-false _ _).1 ((given_iff r.id).1 id, (given_iff r.name).1 name))

IsRef-iff : (o : Option CatalogRef) → (validate_ref o ≡ none) ↔ Optional IsRef o
unfolding validate_ref
IsRef-iff none = (λ h. tt, λ h. refl)
IsRef-iff (some r) =
    (λ h. IsRef-of_check r (ground arith), λ v. ground (arith, good_ref_of_IsRef r v))

module _ {F : Type 0} ⦃fl : Float64 F⦄ where
  metrics_iff : (ms : List (MetricEvidence F)) → (validate_metrics ms ≡ none) ↔ All IsMetric ms
  unfolding validate_metrics
  metrics_iff [] = (λ h. tt, λ h. refl)
  metrics_iff (m ∷ ms) =
      let both = or_else-eq-none (validate_metric m) (validate_metrics ms) in
      (
        λ h. ((IsMetric-iff m).0 (both.0 h).0, (metrics_iff ms).0 (both.0 h).1),
        λ v. both.1 ((IsMetric-iff m).1 v.0, (metrics_iff ms).1 v.1),
      )

  some_evidence :
      (ms : List (MetricEvidence F))
      → ((if length ms == 0 then some EventError.missing_metrics else none) ≡ none)
        ↔ (1 ≤ length ms)
  some_evidence ms = ground arith

  confidence_iff :
      (x : F)
      → ((not (finite x) || fl.lt x (fl.literal 0 0) || fl.lt (fl.literal 1 0) x) ≡ false)
        ↔ InUnit x
  unfolding finite
  confidence_iff x = ground arith

  -- The tests of the fields of the event itself.
  event_checks_iff :
      (e : EngineerEvent F)
      → (first_error (event_checks e) ≡ none) ↔ (
          (e.event_id ≢ "")
          × (e.session_id ≢ "")
          × (e.version ≡ contract_version_v1)
          × OneOf e.event_type event_types
          × OneOf e.severity severities
          × InUnit e.confidence
          × (pos 0 <ℤ e.timestamp_unix_ms)
          × Optional IsRange e.time_range
          × (pos 0 ≤ℤ e.lap_number))
  unfolding event_checks
  event_checks_iff e = (
    λ h.
        let (
          id,
          (
            session,
            (
              _,
              (
                version,
                (_, (type_ok, (_, (severity_ok, (confidence, (time, (range, (lap, _)))))))),
              ),
            ),
          ),
        ) =
          Passes-of_first_error (event_checks e) h in
        (
          (present e.event_id).0 id,
          (present e.session_id).0 session,
          (equal e.version contract_version_v1).0 version,
          (supported_type_iff e.event_type).0 type_ok,
          (supported_severity_iff e.severity).0 severity_ok,
          (confidence_iff e.confidence).0 confidence,
          (leb-eq-false e.timestamp_unix_ms (pos 0)).0 time,
          (IsRange-iff e.time_range).0 range,
          (ltb-eq-false e.lap_number (pos 0)).0 lap,
        ),
    λ (id, session, version, type_ok, severity_ok, confidence, time, range, lap).
        let version_given : (e.version == "") ≡ false = rw version refl in
        first_error_of_Passes (event_checks e) (
          (present e.event_id).1 id,
          (
            (present e.session_id).1 session,
            (
              version_given,
              (
                (equal e.version contract_version_v1).1 version,
                (
                  present_of_type e.event_type type_ok,
                  (
                    (supported_type_iff e.event_type).1 type_ok,
                    (
                      present_of_severity e.severity severity_ok,
                      (
                        (supported_severity_iff e.severity).1 severity_ok,
                        (
                          (confidence_iff e.confidence).1 confidence,
                          (
                            (leb-eq-false e.timestamp_unix_ms (pos 0)).1 time,
                            (
                              (IsRange-iff e.time_range).1 range,
                              ((ltb-eq-false e.lap_number (pos 0)).1 lap, tt),
                            ),
                          ),
                        ),
                      ),
                    ),
                  ),
                ),
              ),
            ),
          ),
        ),
  )

  -- `Validate` passes an event just if it keeps the contract.
  pub validate_event_iff : (e : EngineerEvent F) → (validate_event e ≡ none) ↔ IsEvent e
  unfolding validate_event
  validate_event_iff e = (
    λ h.
        let (own, h) = (or_else-eq-none _ _).0 h in
        let (track, h) = (or_else-eq-none _ _).0 h in
        let (layout, h) = (or_else-eq-none _ _).0 h in
        let (corner, h) = (or_else-eq-none _ _).0 h in
        let (some_metrics, h) = (or_else-eq-none _ _).0 h in
        let (metrics, source) = (or_else-eq-none _ _).0 h in
        let (id, session, version, type_ok, severity_ok, confidence, time, range, lap) =
          (event_checks_iff e).0 own in
        record {
          id = id;
          session = session;
          version = version;
          event_type = type_ok;
          severity = severity_ok;
          confidence = confidence;
          time = time;
          range = range;
          lap = lap;
          track = (IsRef-iff e.track).0 track;
          layout = (IsRef-iff e.layout).0 layout;
          corner = (IsRef-iff e.corner).0 corner;
          evidence = (some_evidence e.metrics).0 some_metrics;
          metrics = (metrics_iff e.metrics).0 metrics;
          source = (IsSource-iff e.source).0 source;
        },
    λ v.
        let own = (event_checks_iff e).1 (
          v.id, v.session, v.version, v.event_type, v.severity, v.confidence, v.time, v.range,
          v.lap,
        ) in
        (or_else-eq-none _ _).1 (
          own,
          (or_else-eq-none _ _).1 (
            (IsRef-iff e.track).1 v.track,
            (or_else-eq-none _ _).1 (
              (IsRef-iff e.layout).1 v.layout,
              (or_else-eq-none _ _).1 (
                (IsRef-iff e.corner).1 v.corner,
                (or_else-eq-none _ _).1 (
                  (some_evidence e.metrics).1 v.evidence,
                  (or_else-eq-none _ _).1
                      ((metrics_iff e.metrics).1 v.metrics, (IsSource-iff e.source).1 v.source),
                ),
              ),
            ),
          ),
        ),
  )
