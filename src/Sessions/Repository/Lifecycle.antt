-- ===== src/Sessions/Repository/Lifecycle.antt =====
-- The life cycle of a session under the calls that internal/api makes: `Create` of a session that is
-- not ended, `End`, `SetDetectedTrackLayout` and `SetTrackLayout`. Nothing calls `Update`.
use telemetry_one_backend.Base.{
  String, ◌≡◌, ◌≢◌, refl, ◌∙◌, subst, ◌⊎◌, inl, inr, ◌&&◌, Option, none, some, [], arith, ◌==◌,
  string_eq, ℤ, ltb_ℤ, ◌≤ℤ◌, ltb-eq-false, Bool-cases, Option-cases,
}
use text.Mathlib.TextEquality.{eq_iff}
use telemetry_one_backend.Base.Dict.{lookup, insert, lookup-insert}
use telemetry_one_backend.Telemetry.Ranges.{Optional}
use telemetry_one_backend.Sessions.Session.{Session}
use telemetry_one_backend.Sessions.Repository.{
  MemoryRepository, create, end_session, set_detected_track_layout, set_track_layout,
}

-- One call, whether it succeeds or not.
pub data Step (r : MemoryRepository) : MemoryRepository → Type 0 where
  created : (s : Session) → s.ended_at ≡ none → Step r (create r s).0
  ended : (id : String) (at : ℤ) → Step r (end_session r id at).0
  detected :
      (id track_id layout_id : String)
      → Step r (set_detected_track_layout r id track_id layout_id).0
  selected : (id track_id layout_id : String) → Step r (set_track_layout r id track_id layout_id).0

-- Any number of calls.
pub data Steps (r : MemoryRepository) : MemoryRepository → Type 0 where
  done : Steps r r
  next : {m n : MemoryRepository} → Steps r m → Step m n → Steps r n

-- A stored session has the identifier it is stored under, and has not ended before it started.
pub record IsSound (id : String) (s : Session) : Type 0 where
  pub own : s.id ≡ id
  pub named : id ≢ ""
  pub ordered : Optional (λ ended. s.started_at ≤ℤ ended) s.ended_at

abbrev pub IsConsistent : MemoryRepository → Type 0
IsConsistent r = (id : String) (s : Session) → lookup id r ≡ some s → IsSound id s

-- What a session can become: who drives what and when it started stay, an end once set stays, and
-- so does a detected layout.
pub record Evolves (s t : Session) : Type 0 where
  pub id : t.id ≡ s.id
  pub source : t.source ≡ s.source
  pub game : t.game ≡ s.game
  pub platform : t.platform ≡ s.platform
  pub driver : t.driver_alias ≡ s.driver_alias
  pub started : t.started_at ≡ s.started_at
  pub ended : (s.ended_at ≡ none) ⊎ (t.ended_at ≡ s.ended_at)
  pub detected :
      ((s.detected_track_id ≡ "") × (s.detected_layout_id ≡ ""))
      ⊎ ((t.detected_track_id ≡ s.detected_track_id)
          × (t.detected_layout_id ≡ s.detected_layout_id))

Evolves-refl : (s : Session) → Evolves s s
Evolves-refl s = record {
  id = refl;
  source = refl;
  game = refl;
  platform = refl;
  driver = refl;
  started = refl;
  ended = inr refl;
  detected = inr (refl, refl);
}

Evolves-trans : (s t u : Session) → Evolves s t → Evolves t u → Evolves s u
Evolves-trans s t u a b = record {
  id = b.id ∙ a.id;
  source = b.source ∙ a.source;
  game = b.game ∙ a.game;
  platform = b.platform ∙ a.platform;
  driver = b.driver ∙ a.driver;
  started = b.started ∙ a.started;
  ended = ground (arith, a.ended, b.ended);
  detected = ground (arith, a.detected, b.detected);
}

-- How a call changes the session under `id`: it stays absent, is created, or evolves.
data Change : Option Session → Option Session → String → Type 0 where
  absent : {id : String} → Change none none id
  fresh : {id : String} {s : Session} → IsSound id s → Change none (some s) id
  evolved :
      {id : String} {s t : Session}
      → Evolves s t
      → (IsSound id s → IsSound id t)
      → Change (some s) (some t) id

unchanged : (o : Option Session) (id : String) → Change o o id
unchanged none id = absent
unchanged (some s) id = evolved (Evolves-refl s) (λ v. v)

-- A call that writes a session under `k` changes no other.
Change-at :
    (r : MemoryRepository) (k id : String) (t : Session)
    → Change (lookup k r) (some t) k
    → Change (lookup id r) (lookup id (insert k t r)) id
Change-at r k id t c = elim (Bool-cases (k == id)) [
  | inl same ↦
      let e : k ≡ id = (eq_iff k id).0 same in
      let now : lookup id (insert k t r) ≡ some t = lookup-insert k id t r ∙ rw same refl in
      rw now (subst (λ j. Change (lookup j r) (some t) j) e c)
  | inr other ↦
      let now : lookup id (insert k t r) ≡ lookup id r = lookup-insert k id t r ∙ rw other refl in
      rw now (unchanged (lookup id r) id)
]

created-Change :
    (r : MemoryRepository) (s : Session) (id : String)
    → s.ended_at ≡ none
    → Change (lookup id r) (lookup id (create r s).0) id
unfolding create
created-Change r s id active = elim (Bool-cases (s.id == "")) [
  | inl blank ↦ rw (blank, create) (unchanged (lookup id r) id)
  | inr named ↦ elim (Option-cases (lookup s.id r)) [
    | inl new ↦
        rw (named, new, create)
          (Change-at r s.id id s (
            rw new (
              fresh (record {
                own = refl;
                named = λ e. ground (arith, eq_iff s.id "");
                ordered = rw active tt;
              }))))
    | inr (old, taken) ↦ rw (named, taken, create) (unchanged (lookup id r) id)
  ]
]

ended-Change :
    (r : MemoryRepository) (k : String) (at : ℤ) (id : String)
    → Change (lookup id r) (lookup id (end_session r k at).0) id
unfolding end_session
ended-Change r k at id = elim (Option-cases (lookup k r)) [
  | inl missing ↦ rw (missing, end_session) (unchanged (lookup id r) id)
  | inr (s, found) ↦ elim (Option-cases s.ended_at) [
    | inr (t, over) ↦ rw (found, over, end_session) (unchanged (lookup id r) id)
    | inl active ↦ elim (Bool-cases (ltb_ℤ at s.started_at)) [
      | inl early ↦ rw (found, active, early, end_session) (unchanged (lookup id r) id)
      | inr late ↦
          rw (found, active, late, end_session)
            (Change-at r k id (record s { ended_at = some at })
              (rw found (
                evolved
                  (record {
                    id = refl;
                    source = refl;
                    game = refl;
                    platform = refl;
                    driver = refl;
                    started = refl;
                    ended = inl active;
                    detected = inr (refl, refl);
                  })
                  (λ v. record {
                    own = v.own;
                    named = v.named;
                    ordered = (ltb-eq-false at s.started_at).0 late;
                  }))))
    ]
  ]
]

detected-Change :
    (r : MemoryRepository) (k track_id layout_id id : String)
    → Change (lookup id r) (lookup id (set_detected_track_layout r k track_id layout_id).0) id
unfolding set_detected_track_layout
detected-Change r k track_id layout_id id = elim (Option-cases (lookup k r)) [
  | inl missing ↦ rw (missing, set_detected_track_layout) (unchanged (lookup id r) id)
  | inr (s, found) ↦ elim (Bool-cases (s.detected_track_id == "" && s.detected_layout_id == "")) [
    | inr known ↦ rw (found, known, set_detected_track_layout) (unchanged (lookup id r) id)
    | inl unknown ↦
        rw (found, unknown, set_detected_track_layout)
          (Change-at r k id
            (record s { detected_track_id = track_id; detected_layout_id = layout_id })
            (rw found (
              evolved
                (record {
                  id = refl;
                  source = refl;
                  game = refl;
                  platform = refl;
                  driver = refl;
                  started = refl;
                  ended = inr refl;
                  detected = inl (
                    ground (arith, eq_iff s.detected_track_id ""),
                    ground (arith, eq_iff s.detected_layout_id ""),
                  );
                })
                (λ v. record { own = v.own; named = v.named; ordered = v.ordered }))))
  ]
]

selected-Change :
    (r : MemoryRepository) (k track_id layout_id id : String)
    → Change (lookup id r) (lookup id (set_track_layout r k track_id layout_id).0) id
unfolding set_track_layout
selected-Change r k track_id layout_id id = elim (Option-cases (lookup k r)) [
  | inl missing ↦ rw (missing, set_track_layout) (unchanged (lookup id r) id)
  | inr (s, found) ↦
      rw (found, set_track_layout)
        (Change-at r k id (record s { track_id = track_id; layout_id = layout_id })
          (rw found (
            evolved
              (record {
                id = refl;
                source = refl;
                game = refl;
                platform = refl;
                driver = refl;
                started = refl;
                ended = inr refl;
                detected = inr (refl, refl);
              })
              (λ v. record { own = v.own; named = v.named; ordered = v.ordered }))))
]

Step-Change :
    {r n : MemoryRepository} (id : String) → Step r n → Change (lookup id r) (lookup id n) id
Step-Change {r} id (created s active) = created-Change r s id active
Step-Change {r} id (ended k at) = ended-Change r k at id
Step-Change {r} id (detected k track_id layout_id) = detected-Change r k track_id layout_id id
Step-Change {r} id (selected k track_id layout_id) = selected-Change r k track_id layout_id id

IsSound-after :
    {o p : Option Session} {id : String}
    → Change o p id
    → ((s : Session) → o ≡ some s → IsSound id s)
    → (t : Session) → p ≡ some t
    → IsSound id t
IsSound-after absent before t h = cc h
IsSound-after (fresh {id = id} {s = s} v) before t h = subst (IsSound id) (cc h) v
IsSound-after (evolved {id = id} {s = s} {t = u} e keep) before t h =
    subst (IsSound id) (cc h) (keep (before s refl))

Evolves-after :
    {o p : Option Session} {id : String}
    → Change o p id
    → (s : Session) → o ≡ some s
    → (t : Session) × (p ≡ some t) × Evolves s t
Evolves-after absent s h = cc h
Evolves-after (fresh v) s h = cc h
Evolves-after (evolved {s = u} {t = t} e keep) s h = (t, refl, subst (λ x. Evolves x t) (cc h) e)

Steps-IsConsistent : {r n : MemoryRepository} → Steps r n → IsConsistent r → IsConsistent n
Steps-IsConsistent done sound = sound
Steps-IsConsistent (next steps step) sound =
    let before = Steps-IsConsistent steps sound in
    λ id. IsSound-after (Step-Change id step) (before id)

-- In every repository that calls of the API reach from the empty one, a session stands under its
-- own identifier, which is not empty, and has not ended before it started.
pub reachable-IsConsistent : (r : MemoryRepository) → Steps [] r → IsConsistent r
unfolding lookup
reachable-IsConsistent r steps = Steps-IsConsistent steps (λ id s h. cc h)

-- Whatever calls of the API come, a stored session stays stored; its identity and its start stay,
-- once it has ended its end stays, and once a layout is detected for it that layout stays.
pub Steps-Evolves :
    {r n : MemoryRepository} (id : String) (s : Session)
    → Steps r n
    → lookup id r ≡ some s
    → (t : Session) × (lookup id n ≡ some t) × Evolves s t
Steps-Evolves id s done h = (s, h, Evolves-refl s)
Steps-Evolves id s (next steps step) h =
    let (t, at, e) = Steps-Evolves id s steps h in
    let (u, now, e') = Evolves-after (Step-Change id step) t at in
    (u, now, Evolves-trans s t u e e')
