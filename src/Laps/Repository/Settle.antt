-- ===== src/Laps/Repository/Settle.antt =====
-- What the repository holds of a lap after upserts.
use telemetry_one_backend.Base.{
  String, ◌≡◌, refl, sym, ap, ◌∙◌, ◌↔◌, Bool, true, false, ◌&&◌, Option, none, some, List, [], ◌∷◌,
  arith, if◌then◌else◌, ◌==◌, string_eq, int_eq, eqb_ℤ_iff, ℤ, inl, inr, Bool-cases, Option-cases,
  All,
}
use text.Mathlib.TextEquality.{eq_iff}
use telemetry_one_backend.Base.Dict.{insert, lookup-insert}
use telemetry_one_backend.Laps.Lap.{LapError, CompletedLap, validate_lap, lap_with_defaults}
use telemetry_one_backend.Laps.Repository.{
  MemoryRepository, inner, stored_lap, put_lap, merge_lap, upsert_lap, upsert_laps,
  upsert_completed,
}

-- What is known of the lap `n` of the session `t` after laps came for it: the first one stays, with
-- the gap count of the last one, and nothing counts from the first lap that is not valid.
pub settle : String → ℤ → Option CompletedLap → List CompletedLap → Option CompletedLap
settle t n o [] = o
settle t n o (lap ∷ laps) =
    let lap' = lap_with_defaults lap in
    let next =
      if lap'.session_id == t && lap'.lap_number == n then some (merge_lap lap' o) else o in
    elim (validate_lap lap') [ some e ↦ o | none ↦ settle t n next laps ]

-- The gap count after laps came for the lap `n` of the session `t`.
last_gap : String → ℤ → ℤ → List CompletedLap → ℤ
last_gap t n gap [] = gap
last_gap t n gap (lap ∷ laps) =
    let lap' = lap_with_defaults lap in
    let next =
      if lap'.session_id == t && lap'.lap_number == n then lap'.telemetry_gap_count else gap in
    elim (validate_lap lap') [ some e ↦ gap | none ↦ last_gap t n next laps ]

settle-some :
    (t : String) (n : ℤ) (x : CompletedLap) (laps : List CompletedLap)
    → settle t n (some x) laps
      ≡ some (record x { telemetry_gap_count = last_gap t n x.telemetry_gap_count laps })
unfolding settle last_gap
settle-some t n x [] = refl
settle-some t n x (lap ∷ laps) =
    let lap' = lap_with_defaults lap in
    elim (Option-cases (validate_lap lap')) [
      | inr (e, bad) ↦ rw (bad, settle, last_gap)
      | inl good ↦ elim (Bool-cases (lap'.session_id == t && lap'.lap_number == n)) [
        | inl own ↦
            rw (good, settle, last_gap, own)
              (settle-some t n (record x { telemetry_gap_count = lap'.telemetry_gap_count }) laps)
        | inr other ↦ rw (good, settle, last_gap, other) (settle-some t n x laps)
      ]
    ]

merge_again :
    (lap : CompletedLap) (o : Option CompletedLap) (gap : ℤ)
    → merge_lap lap (some (record (merge_lap lap o) { telemetry_gap_count = gap }))
      ≡ merge_lap lap o
merge_again lap none gap = refl
merge_again lap (some old) gap = refl

module _ (t : String) (n : ℤ) (lap : CompletedLap) (laps : List CompletedLap) where
  abbrev filled : CompletedLap
  filled = lap_with_defaults lap

  settle-own :
      (o : Option CompletedLap)
      → validate_lap filled ≡ none
      → (filled.session_id == t && filled.lap_number == n) ≡ true
      → settle t n o (lap ∷ laps) ≡ settle t n (some (merge_lap filled o)) laps
  unfolding settle
  settle-own o good own = rw (good, settle, own)

  settle-bad :
      (o : Option CompletedLap) {e : LapError}
      → validate_lap filled ≡ some e
      → settle t n o (lap ∷ laps) ≡ o
  unfolding settle
  settle-bad o bad = rw (bad, settle)

  settle-other :
      (o : Option CompletedLap)
      → validate_lap filled ≡ none
      → (filled.session_id == t && filled.lap_number == n) ≡ false
      → settle t n o (lap ∷ laps) ≡ settle t n o laps
  unfolding settle
  settle-other o good other = rw (good, settle, other)

  settle-own_again :
      (o : Option CompletedLap)
      → validate_lap filled ≡ none
      → (filled.session_id == t && filled.lap_number == n) ≡ true
      → settle t n (settle t n o (lap ∷ laps)) (lap ∷ laps) ≡ settle t n o (lap ∷ laps)
  settle-own_again o good own =
      let first = merge_lap filled o in
      let gap = last_gap t n first.telemetry_gap_count laps in
      let once = settle-own o good own in
      ap (λ p. settle t n p (lap ∷ laps)) (once ∙ settle-some t n first laps)
      ∙ settle-own (some (record first { telemetry_gap_count = gap })) good own
      ∙ ap (λ x. settle t n (some x) laps) (merge_again filled o gap)
      ∙ sym once

settle_idem :
    (t : String) (n : ℤ) (o : Option CompletedLap) (laps : List CompletedLap)
    → settle t n (settle t n o laps) laps ≡ settle t n o laps
unfolding settle
settle_idem t n o [] = refl
settle_idem t n o (lap ∷ laps) =
    let lap' = lap_with_defaults lap in
    elim (Option-cases (validate_lap lap')) [
      | inr (e, bad) ↦
          let stop = λ (p : Option CompletedLap). settle-bad t n lap laps p bad in
          ap (λ p. settle t n p (lap ∷ laps)) (stop o)
      | inl good ↦ elim (Bool-cases (lap'.session_id == t && lap'.lap_number == n)) [
        | inl own ↦ settle-own_again t n lap laps o good own
        | inr other ↦
            let skip = λ (p : Option CompletedLap). settle-other t n lap laps p good other in
            ap (λ p. settle t n p (lap ∷ laps)) (skip o)
            ∙ skip (settle t n o laps)
            ∙ settle_idem t n o laps
            ∙ sym (skip o)
      ]
    ]

module _ {F : Type 0} where
  stored_lap-put_lap :
      (r : MemoryRepository F) (s t : String) (n m : ℤ) (lap : CompletedLap)
      → stored_lap (put_lap r s n lap) t m
        ≡ (if s == t && n == m then some lap else stored_lap r t m)
  stored_lap-put_lap r s t n m lap = ground (
    arith,
    eq_iff s t,
    lookup-insert s t (insert n lap (inner s r.laps)) r.laps,
    lookup-insert n m lap (inner s r.laps),
  )

  stored_lap-upsert_lap :
      (r : MemoryRepository F) (lap : CompletedLap) (t : String) (n : ℤ)
      → stored_lap (upsert_lap r lap) t n ≡ (
          if lap.session_id == t && lap.lap_number == n
          then some (merge_lap lap (stored_lap r t n))
          else stored_lap r t n)
  unfolding upsert_lap
  stored_lap-upsert_lap r lap t n = ground (
    arith,
    eq_iff lap.session_id t,
    eqb_ℤ_iff lap.lap_number n,
    stored_lap-put_lap r lap.session_id t lap.lap_number n
        (merge_lap lap (stored_lap r lap.session_id lap.lap_number)),
  )

  -- After `UpsertCompleted` the repository holds of every lap what settles from the laps given.
  pub stored_lap-upsert_laps :
      (r : MemoryRepository F) (laps : List CompletedLap) (t : String) (n : ℤ)
      → stored_lap (upsert_laps r laps).0 t n ≡ settle t n (stored_lap r t n) laps
  unfolding upsert_laps settle
  stored_lap-upsert_laps r [] t n = refl
  stored_lap-upsert_laps r (lap ∷ laps) t n =
      let lap' = lap_with_defaults lap in
      elim (Option-cases (validate_lap lap')) [
        | inr (e, bad) ↦ rw (bad, upsert_laps, settle)
        | inl good ↦
            rw (good, upsert_laps, settle)
              (stored_lap-upsert_laps (upsert_lap r lap') laps t n
                ∙ ap (λ o. settle t n o laps) (stored_lap-upsert_lap r lap' t n))
      ]

  upsert_laps-eq-none :
      (r : MemoryRepository F) (laps : List CompletedLap)
      → ((upsert_laps r laps).1 ≡ none)
        ↔ All (λ lap. validate_lap (lap_with_defaults lap) ≡ none) laps
  unfolding upsert_laps
  upsert_laps-eq-none r [] = (λ h. tt, λ h. refl)
  upsert_laps-eq-none r (lap ∷ laps) =
      let lap' = lap_with_defaults lap in
      elim (Option-cases (validate_lap lap')) [
        | inr (e, bad) ↦ rw (bad, upsert_laps) (λ h. cc, λ h. cc h.0)
        | inl good ↦
            let rest = upsert_laps-eq-none (upsert_lap r lap') laps in
            rw (good, upsert_laps) (λ h. (refl, rest.0 h), λ h. rest.1 h.1)
      ]

  -- With a live context `UpsertCompleted` succeeds just if every lap, its identifier filled in,
  -- passes `Validate`.
  pub upsert_completed_iff :
      (r : MemoryRepository F) (laps : List CompletedLap)
      → ((upsert_completed false r laps).1 ≡ none)
        ↔ All (λ lap. validate_lap (lap_with_defaults lap) ≡ none) laps
  unfolding upsert_completed
  upsert_completed_iff r laps = upsert_laps-eq-none r laps

  -- A lap that is stored stays as it was first stored, but for its gap count, whatever laps come.
  pub upsert_completed-first_wins :
      (done : Bool) (r : MemoryRepository F) (laps : List CompletedLap) (t : String) (n : ℤ)
      (lap : CompletedLap)
      → stored_lap r t n ≡ some lap
      → (count : ℤ) × (stored_lap (upsert_completed done r laps).0 t n
          ≡ some (record lap { telemetry_gap_count = count }))
  unfolding upsert_completed
  upsert_completed-first_wins true r laps t n lap h = (lap.telemetry_gap_count, h)
  upsert_completed-first_wins false r laps t n lap h = (
    last_gap t n lap.telemetry_gap_count laps,
    stored_lap-upsert_laps r laps t n ∙ ap (λ o. settle t n o laps) h ∙ settle-some t n lap laps,
  )

  -- Sending the same laps once more, valid or not, changes nothing that is stored.
  pub upsert_completed_idem :
      (done : Bool) (r : MemoryRepository F) (laps : List CompletedLap) (t : String) (n : ℤ)
      → let once = (upsert_completed done r laps).0 in
        stored_lap (upsert_completed done once laps).0 t n ≡ stored_lap once t n
  unfolding upsert_completed
  upsert_completed_idem true r laps t n = refl
  upsert_completed_idem false r laps t n =
      stored_lap-upsert_laps (upsert_laps r laps).0 laps t n
      ∙ ap (λ o. settle t n o laps) (stored_lap-upsert_laps r laps t n)
      ∙ settle_idem t n (stored_lap r t n) laps
      ∙ sym (stored_lap-upsert_laps r laps t n)
