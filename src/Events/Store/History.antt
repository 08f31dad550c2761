-- ===== src/Events/Store/History.antt =====
-- What the store holds after a series of calls of `Append`.
use telemetry_one_backend.Base.{
  ℕ, ◌≡◌, refl, sym, ap, ◌∙◌, false, none, some, List, [], ◌∷◌, ◌++◌, arith, ◌==◌, string_eq,
  nat_eq, ℤ, take_last, inl, inr, Bool-cases, Option-cases,
}
use mathlib.Core.List.{append_assoc, append-nil}
use telemetry_one_backend.Base.Float.{Float64}
use telemetry_one_backend.Base.Window.{take_last_short, take_last-append_left}
use telemetry_one_backend.Events.Event.{EventError, EngineerEvent, validate_event}
use telemetry_one_backend.Events.Dedup.{
  EventDeduplicator, normalize_cooldown, new_event_deduplicator, decide, mark_seen, filter_loop,
  filter,
}
use telemetry_one_backend.Events.Dedup.Thinning.{filter_loop-append, normalize_cooldown_idem}
use telemetry_one_backend.Events.Store.{
  Store, new_store, keep_last, append_valid, append, append_events,
}

module _ {F : Type 0} where
  keep_last-eq-take_last : (n : ℕ) (es : List (EngineerEvent F)) → keep_last n es ≡ take_last n es
  unfolding keep_last
  keep_last-eq-take_last n es = ground (arith, take_last_short n es)

module _ {F : Type 0} ⦃fl : Float64 F⦄ where
  -- The events that pass `Validate`.
  pub valid_events : List (EngineerEvent F) → List (EngineerEvent F)
  valid_events [] = []
  valid_events (e ∷ es) = elim (validate_event e) [
    | none ↦ e ∷ valid_events es
    | some _ ↦ valid_events es
  ]

  filter_loop-cooldown :
      (d : EventDeduplicator F) (e : EngineerEvent F)
      → (filter_loop d (e ∷ [])).deduplicator.cooldown_window_ms ≡ d.cooldown_window_ms
  unfolding filter_loop
  filter_loop-cooldown d e = elim (Bool-cases ((decide d e).decision == "suppressed")) [
    | inl close ↦ rw close refl
    | inr apart ↦ rw apart refl
  ]

  -- The deduplicator's cooldown is normalized.
  abbrev IsNormal : Store F → Type 0
  IsNormal s =
      normalize_cooldown s.deduplicator.cooldown_window_ms ≡ s.deduplicator.cooldown_window_ms

  append_valid-step :
      (s : Store F) (past : List (EngineerEvent F)) (e : EngineerEvent F)
      → s.events ≡ take_last s.limit past
      → IsNormal s
      → let f = filter_loop s.deduplicator (e ∷ []) in
        (append_valid s e).0 ≡ record s {
          events = take_last s.limit (past ++ f.accepted);
          deduplicator = f.deduplicator;
        }
  unfolding append_valid filter filter_loop
  append_valid-step s past e held normal =
      elim (Bool-cases ((decide s.deduplicator e).decision == "suppressed")) [
        | inl close ↦
            let same : s.events ≡ take_last s.limit (past ++ []) =
              held ∙ ap (take_last s.limit) (sym (append-nil past)) in
            rw (normal, close) (ap (λ es. record s { events = es }) same)
        | inr apart ↦
            let window : keep_last s.limit (s.events ++ e ∷ [])
                ≡ take_last s.limit (past ++ e ∷ []) =
              keep_last-eq-take_last s.limit (s.events ++ e ∷ [])
              ∙ ap (λ es. take_last s.limit (es ++ e ∷ [])) held
              ∙ take_last-append_left s.limit past (e ∷ []) in
            rw (normal, apart)
              (ap (λ es. record s { events = es; deduplicator = mark_seen s.deduplicator e })
                window)
      ]

  append_of_valid :
      (s : Store F) (e : EngineerEvent F)
      → validate_event e ≡ none
      → (append false s e).0 ≡ (append_valid s e).0
  unfolding append
  append_of_valid s e v = rw (v, append)

  append_of_invalid :
      (s : Store F) (e : EngineerEvent F) {fault : EventError}
      → validate_event e ≡ some fault
      → (append false s e).0 ≡ s
  unfolding append
  append_of_invalid s e v = rw (v, append)

  append_events_from :
      (s : Store F) (past es : List (EngineerEvent F))
      → s.events ≡ take_last s.limit past
      → IsNormal s
      → (append_events s es).events
        ≡ take_last s.limit (past ++ (filter_loop s.deduplicator (valid_events es)).accepted)
  unfolding append_events append valid_events
  append_events_from s past [] held normal =
      held ∙ ap (take_last s.limit) (unfold filter_loop in sym (append-nil past))
  append_events_from s past (e ∷ es) held normal = elim (Option-cases (validate_event e)) [
    | inr (fault, v) ↦
        let dropped : valid_events (e ∷ es) ≡ valid_events es = rw (v, valid_events) in
        rw dropped (
          ap (λ t. (append_events t es).events) (append_of_invalid s e v)
          ∙ append_events_from s past es held normal)
    | inl v ↦
        let f = filter_loop s.deduplicator (e ∷ []) in
        let s' = record s {
          events = take_last s.limit (past ++ f.accepted);
          deduplicator = f.deduplicator;
        } in
        let normal' : IsNormal s' = rw (filter_loop-cooldown s.deduplicator e) normal in
        let next = append_events_from s' (past ++ f.accepted) es refl normal' in
        let kept : valid_events (e ∷ es) ≡ e ∷ valid_events es = rw (v, valid_events) in
        rw kept (
          ap (λ t. (append_events t es).events)
            (append_of_valid s e v ∙ append_valid-step s past e held normal)
          ∙ next
          ∙ ap (take_last s.limit) (
              append_assoc past f.accepted (filter_loop f.deduplicator (valid_events es)).accepted
              ∙ ap (λ t. past ++ t)
                  (sym (filter_loop-append s.deduplicator (e ∷ []) (valid_events es)))))
  ]

  -- After any series of appends to a new store, it holds the last events, up to its limit, that
  -- the deduplicator accepts of those that pass `Validate`, as if it had them all at once.
  pub append_events_lem :
      (limit cooldown : ℤ) (es : List (EngineerEvent F))
      → let s = new_store {F = F} limit cooldown in
        (append_events s es).events
        ≡ take_last s.limit (filter (new_event_deduplicator cooldown) (valid_events es)).accepted
  unfolding new_store new_event_deduplicator filter
  append_events_lem limit cooldown es =
      append_events_from (new_store limit cooldown) [] es (ground arith)
        (normalize_cooldown_idem cooldown)
      ∙ rw (normalize_cooldown_idem cooldown)
