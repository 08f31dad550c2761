-- ===== src/Sessions/Repository/Finish.antt =====
-- What a finished session shows, and that a session is finished once.
use telemetry_one_backend.Base.{
  ℕ, ◌^◌, String, ◌≡◌, refl, sym, ap, ◌∙◌, ◌⊎◌, inl, inr, none, some, [], arith, string_eq,
  saturate, ◌-◌, ◌/◌, ℤ, pos, negsuc, ltb_ℤ, leb, ◌≤ℤ◌, ◌-ℤ◌, -ℤ_parts, Bool-cases, Option-cases,
}
use telemetry_one_backend.Base.Dict.{lookup, insert, lookup-insert_self}
use telemetry_one_backend.Base.Result.{ok, err}
use telemetry_one_backend.Sessions.Session.{
  Session, already_finished, active, finished, milliseconds, duration_ms, status, new_dto,
}
use telemetry_one_backend.Sessions.Repository.{MemoryRepository, end_session}
use telemetry_one_backend.Sessions.Repository.Lifecycle.{
  Steps, Steps-Evolves, reachable-IsConsistent,
}

end_session-finished :
    (r : MemoryRepository) (id : String) (later at : ℤ) (s : Session)
    → lookup id r ≡ some s
    → s.ended_at ≡ some at
    → end_session r id later ≡ (r, err already_finished)
unfolding end_session
end_session-finished r id later at s found over = rw (found, over, end_session)

end_session-stored :
    (r : MemoryRepository) (id : String) (at : ℤ) (s : Session)
    → (end_session r id at).1 ≡ ok s
    → (lookup id (end_session r id at).0 ≡ some s) × (s.ended_at ≡ some at)
unfolding end_session
end_session-stored r id at s h = elim (Option-cases (lookup id r)) [
  | inl missing ↦ cc (rw (missing, end_session) at h)
  | inr (old, found) ↦ elim (Option-cases old.ended_at) [
    | inr (t, over) ↦ cc (rw (found, over, end_session) at h)
    | inl running ↦ elim (Bool-cases (ltb_ℤ at old.started_at)) [
      | inl early ↦ cc (rw (found, running, early, end_session) at h)
      | inr late ↦
          let new = record old { ended_at = some at } in
          let same : s ≡ new = cc (rw (found, running, late, end_session) at h) in
          let now : lookup id (insert id new r) ≡ some new = lookup-insert_self id new r in
          let made : end_session r id at ≡ (insert id new r, ok new) =
            rw (found, running, late, end_session) in
          rw made (now ∙ ap some (sym same), ap (λ x. x.ended_at) same)
    ]
  ]
]

-- A call of `End` that succeeds ends a stored session at the time given. Whatever calls of the API
-- come after it, a call of `End` for the session is refused as finished and changes nothing.
pub end_session-once :
    (r n : MemoryRepository) (id : String) (at later : ℤ) (s : Session)
    → (end_session r id at).1 ≡ ok s
    → Steps (end_session r id at).0 n
    → (lookup id (end_session r id at).0 ≡ some s)
      × (s.ended_at ≡ some at)
      × (end_session n id later ≡ (n, err already_finished))
end_session-once r n id at later s h steps =
    let (stored, over) = end_session-stored r id at s h in
    let (t, found, e) = Steps-Evolves id s steps stored in
    let still : t.ended_at ≡ some at = elim e.ended [
      | inl running ↦ cc (over, running)
      | inr kept ↦ kept ∙ over
    ] in
    (stored, over, end_session-finished n id later at t found still)

non_negative_duration : (z : ℤ) → pos 0 ≤ℤ z → (ms : ℕ) × (milliseconds (saturate z) ≡ pos ms)
unfolding saturate
non_negative_duration (pos n) h = elim (Bool-cases (leb (2 ^ 63) n)) [
  | inl long ↦ ((2 ^ 63 - 1) / 1000000, rw long refl)
  | inr short ↦ (n / 1000000, rw short refl)
]
non_negative_duration (negsuc n) h = absurd (omega arith)

-- Whatever calls of the API came, a stored session is shown as active without a duration, or as
-- finished with a duration that is not negative.
pub new_dto_lem :
    (r : MemoryRepository) (id : String) (s : Session) (frames events : ℤ)
    → Steps [] r
    → lookup id r ≡ some s
    → let d = new_dto s frames events in
      ((d.state ≡ active) × (d.duration ≡ none))
      ⊎ ((d.state ≡ finished) × (ms : ℕ) × (d.duration ≡ some (pos ms)))
unfolding new_dto status duration_ms
new_dto_lem r id s frames events steps h =
    let sound = reachable-IsConsistent r steps id s h in
    elim (Option-cases s.ended_at) [
      | inl running ↦ inl (rw (running, status) refl, rw (running, duration_ms) refl)
      | inr (at, over) ↦
          let ordered : s.started_at ≤ℤ at = rw over at sound.ordered in
          let (ms, e) =
            non_negative_duration (at -ℤ s.started_at) (omega (arith, -ℤ_parts at s.started_at)) in
          inr (rw (over, status) refl, ms, rw (over, duration_ms) (ap some e))
    ]
