-- ===== src/Events/Dedup/Thinning.antt =====
-- `Filter` thins the events of each key on their own: it drops an event that lies nearer than the
-- cooldown to the last one kept.
use telemetry_one_backend.Base.{
  ℕ, ◌+◌, ◌-◌, String, ◌≡◌, refl, ap, subst, Bool, true, false, ◌&&◌, Option, none, some, List, [],
  ◌∷◌, ◌++◌, arith, if◌then◌else◌, ◌==◌, string_eq, ℤ, pos, pos_part, ltb, ltb_ℤ, leb_ℤ, ◌≤ℤ◌,
  sub64, ◌-ℤ◌, -ℤ_parts, IsInt64, sub64_of_nonneg, wrap64_of_IsInt64, parts_exclusive, All, inl,
  inr, Bool-cases, Option-cases,
}
use text.Mathlib.TextEquality.{eq_iff}
use telemetry_one_backend.Base.Dict.{lookup, lookup-insert}
use telemetry_one_backend.Events.Event.{EngineerEvent}
use telemetry_one_backend.Events.Dedup.{
  EventDeduplicator, dedup_key, new_event_deduplicator, normalize_cooldown, verdict, decide,
  mark_seen, filter_loop, filter,
}

-- How far apart two times are.
abbrev pub distance : ℤ → ℤ → ℕ
distance a b = (pos_part a - pos_part b) + (pos_part b - pos_part a)

-- A time in milliseconds that is not negative.
abbrev pub IsStamp : ℤ → Type 0
IsStamp t = (pos 0 ≤ℤ t) × IsInt64 t

module _ {F : Type 0} where
  abbrev pub IsTimed : EngineerEvent F → Type 0
  IsTimed e = IsStamp e.timestamp_unix_ms

  -- The event lies nearer than the cooldown to the last one kept.
  abbrev pub near : ℤ → Option (EngineerEvent F) → EngineerEvent F → Bool
  near cooldown none e = false
  near cooldown (some last) e =
      ltb (distance e.timestamp_unix_ms last.timestamp_unix_ms) (pos_part cooldown)

  -- The events kept of a row: each lies at least the cooldown from the one kept before it.
  pub thin : ℤ → Option (EngineerEvent F) → List (EngineerEvent F) → List (EngineerEvent F)
  thin cooldown last [] = []
  thin cooldown last (e ∷ es) =
      let close = near cooldown last e in
      let rest = thin cooldown (if close then last else some e) es in
      if close then rest else e ∷ rest

  pub of_key : String → List (EngineerEvent F) → List (EngineerEvent F)
  of_key k [] = []
  of_key k (e ∷ es) = if dedup_key e == k then e ∷ of_key k es else of_key k es

verdict-suppressed :
    (cooldown t u : ℤ)
    → IsStamp t
    → IsStamp u
    → ((verdict cooldown (sub64 t u)).0 == "suppressed") ≡ ltb (distance t u) (pos_part cooldown)
unfolding verdict
verdict-suppressed cooldown t u ht hu =
    let delta : sub64 t u ≡ t -ℤ u = sub64_of_nonneg t u ht.1 hu.1 ht.0 hu.0 in
    let exact = -ℤ_parts t u in
    let negated = -ℤ_parts (pos 0) (t -ℤ u) in
    let one_sided = parts_exclusive (t -ℤ u) in
    let other_side = parts_exclusive (pos 0 -ℤ (t -ℤ u)) in
    let small : IsInt64 (pos 0 -ℤ (t -ℤ u)) = ground arith in
    let back : sub64 (pos 0) (t -ℤ u) ≡ pos 0 -ℤ (t -ℤ u) = wrap64_of_IsInt64 _ small in
    rw (delta, back)
      (elim (Bool-cases (leb_ℤ (pos 0) (t -ℤ u) && ltb_ℤ (t -ℤ u) cooldown)) [
        | inl soon ↦ rw soon (ground arith)
        | inr not_soon ↦
            elim (Bool-cases (ltb_ℤ (t -ℤ u) (pos 0) && ltb_ℤ (pos 0 -ℤ (t -ℤ u)) cooldown)) [
              | inl just ↦ rw (not_soon, just) (ground arith)
              | inr long ↦ rw (not_soon, long) (ground arith)
            ]
      ])

pub normalize_cooldown_idem :
    (cooldown : ℤ) → normalize_cooldown (normalize_cooldown cooldown) ≡ normalize_cooldown cooldown
unfolding normalize_cooldown
normalize_cooldown_idem cooldown = ground arith

module _ {F : Type 0} where
  -- What the deduplicator has seen is timed.
  abbrev pub SeenTimed : EventDeduplicator F → Type 0
  SeenTimed d = (k : String) (e : EngineerEvent F) → lookup k d.seen ≡ some e → IsTimed e

  decide-suppressed :
      (d : EventDeduplicator F) (e : EngineerEvent F)
      → SeenTimed d
      → IsTimed e
      → ((decide d e).decision == "suppressed")
        ≡ near d.cooldown_window_ms (lookup (dedup_key e) d.seen) e
  unfolding decide
  decide-suppressed d e seen timed = elim (Option-cases (lookup (dedup_key e) d.seen)) [
    | inl new ↦ rw (new, decide)
    | inr (p, old) ↦
        rw (old, decide)
          (verdict-suppressed d.cooldown_window_ms e.timestamp_unix_ms p.timestamp_unix_ms timed
            (seen (dedup_key e) p old))
  ]

  SeenTimed-mark_seen :
      (d : EventDeduplicator F) (e : EngineerEvent F)
      → SeenTimed d
      → IsTimed e
      → SeenTimed (mark_seen d e)
  SeenTimed-mark_seen d e seen timed k f h =
      let h' = rw lookup-insert at h in
      elim (Bool-cases (dedup_key e == k)) [
        | inl own ↦ let same : e ≡ f = cc (rw own at h') in subst IsTimed same timed
        | inr other ↦ seen k f (rw other at h')
      ]

  filter_loop-thin :
      (d : EventDeduplicator F) (es : List (EngineerEvent F)) (k : String)
      → SeenTimed d
      → All IsTimed es
      → of_key k (filter_loop d es).accepted
        ≡ thin d.cooldown_window_ms (lookup k d.seen) (of_key k es)
  unfolding filter_loop of_key thin
  filter_loop-thin d [] k seen timed = refl
  filter_loop-thin d (e ∷ es) k seen timed =
      let key = dedup_key e in
      let decided = decide-suppressed d e seen timed.0 in
      elim (Bool-cases (near d.cooldown_window_ms (lookup key d.seen) e)) [
        | inl close ↦
            let rest = filter_loop-thin d es k seen timed.1 in
            elim (Bool-cases (key == k)) [
              | inl own ↦
                  let same : key ≡ k = (eq_iff key k).0 own in
                  let close' : near d.cooldown_window_ms (lookup k d.seen) e ≡ true =
                    rw same at close in
                  rw (decided, close, own, close', thin) rest
              | inr other ↦ rw (decided, close, other) rest
            ]
        | inr apart ↦
            let rest =
              filter_loop-thin (mark_seen d e) es k (SeenTimed-mark_seen d e seen timed.0)
                timed.1 in
            let known = lookup-insert key k e d.seen in
            elim (Bool-cases (key == k)) [
              | inl own ↦
                  let same : key ≡ k = (eq_iff key k).0 own in
                  let apart' : near d.cooldown_window_ms (lookup k d.seen) e ≡ false =
                    rw same at apart in
                  rw (decided, apart, own, apart', thin) (ap (◌∷◌ e) (rw (known, own) at rest))
              | inr other ↦ rw (decided, apart, other) (rw (known, other) at rest)
            ]
      ]

  -- Of events with times that are not negative, a new deduplicator accepts for each key just those
  -- that lie at least the cooldown from the last one it accepted of that key, whatever the events
  -- of the other keys are.
  pub filter_lem :
      (cooldown : ℤ) (es : List (EngineerEvent F)) (k : String)
      → All IsTimed es
      → of_key k (filter (new_event_deduplicator cooldown) es).accepted
        ≡ thin (normalize_cooldown cooldown) none (of_key k es)
  unfolding filter new_event_deduplicator lookup
  filter_lem cooldown es k timed =
      rw (normalize_cooldown_idem cooldown)
        (filter_loop-thin (new_event_deduplicator cooldown) es k (λ j e h. cc) timed)

  pub filter_loop-append :
      (d : EventDeduplicator F) (xs ys : List (EngineerEvent F))
      → (filter_loop d (xs ++ ys)).accepted
        ≡ (filter_loop d xs).accepted ++ (filter_loop (filter_loop d xs).deduplicator ys).accepted
  unfolding filter_loop
  filter_loop-append d [] ys = refl
  filter_loop-append d (x ∷ xs) ys = elim (Bool-cases ((decide d x).decision == "suppressed")) [
    | inl close ↦ rw close (filter_loop-append d xs ys)
    | inr apart ↦ rw apart (ap (◌∷◌ x) (filter_loop-append (mark_seen d x) xs ys))
  ]
