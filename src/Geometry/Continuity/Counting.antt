-- ===== src/Geometry/Continuity/Counting.antt =====
-- The laps that a tracker counts are the crossings of the line that its updates report.
use telemetry_one_backend.Base.{
  ℕ, ◌+◌, ◌<◌, ◌≤◌, ◌^◌, ◌≡◌, refl, Bool, true, false, ◌||◌, not, Option, none, some, List, [], ◌∷◌,
  arith, if◌then◌else◌, pos, add64, ◌⊎◌, inl, inr, Bool-cases, length, All, wrap64, ◌+ℤ◌,
}
use telemetry_one_backend.Base.Float.{Float64}
use telemetry_one_backend.Base.Result.{Result, ok, err}
use telemetry_one_backend.Geometry.Centerline.{
  GeometryError, invalid_track_length, invalid_projection_distance, zero_float, is_finite,
}
use telemetry_one_backend.Geometry.Continuity.{
  LapContinuityOptions, LapContinuityState, LapContinuityTracker, same_bool, moved_forward,
  moved_back, update_closed, update_open, first_state, no_state, cleared, next_state, update,
  new_lap_continuity_tracker,
}

abbrev pub still : Option Bool → Bool → Bool
still none closed = false
still (some last) closed = same_bool last closed

add64_one : (n : ℕ) → n + 1 < 2 ^ 63 → add64 (pos n) (pos 1) ≡ pos (n + 1)
unfolding wrap64 ◌+ℤ◌
add64_one n h = ground arith

-- A place on the track: its distance, the length of the track, and whether it is closed.
pub record Place (F : Type 0) : Type 0 where
  pub distance_meters : F
  pub total_meters : F
  pub closed : Bool

module _ {F : Type 0} ⦃fl : Float64 F⦄ where
  -- An update either takes the place or reports a jump, and the line is crossed only forward, on a
  -- course that is closed.
  pub record IsReport (s : LapContinuityState F) : Type 0 where
    pub decided : s.large_jump ≡ not s.accepted
    pub forward :
        s.wrapped_start_finish_line ≡ true
        → (s.closed ≡ true) × (s.reversed ≡ false) × (s.accepted ≡ true)

  -- What the update of a state keeps and counts.
  record IsNext (s r : LapContinuityState F) : Type 0 where
    live : r.initialized ≡ s.initialized
    course : r.closed ≡ s.closed
    count :
        r.lap_count
        ≡ (if r.wrapped_start_finish_line then add64 s.lap_count (pos 1) else s.lap_count)
    index :
        r.lap_index
        ≡ (if r.wrapped_start_finish_line then add64 s.lap_index (pos 1) else s.lap_index)
    report : IsReport r

  closed-IsNext :
      (o : LapContinuityOptions F) (s : LapContinuityState F) (distance progress total : F)
      → s.closed ≡ true
      → IsNext s (update_closed o (cleared s) distance progress total)
  unfolding update_closed cleared moved_forward moved_back
  closed-IsNext o s distance progress total h = ground arith

  open-IsNext :
      (o : LapContinuityOptions F) (s : LapContinuityState F) (distance progress : F)
      → s.closed ≡ false
      → IsNext s (update_open o (cleared s) distance progress)
  unfolding update_open cleared moved_forward moved_back
  open-IsNext o s distance progress h = ground arith

  abbrev kept :
      Result GeometryError (LapContinuityState F)
      → List (LapContinuityState F)
      → List (LapContinuityState F)
  kept (ok s) ss = s ∷ ss
  kept (err e) ss = ss

  -- A tracker after some updates, and the states that they returned.
  unfoldable pub updates :
      LapContinuityTracker F → List (Place F) → LapContinuityTracker F × List (LapContinuityState F)
  updates t [] = (t, [])
  updates t (p ∷ ps) =
      let (u, result) = update t p.distance_meters p.total_meters p.closed in
      let (v, rest) = updates u ps in (v, kept result rest)

  -- The crossings of the line that the states report since the course last changed.
  unfoldable pub crossings : Option Bool → ℕ → List (LapContinuityState F) → ℕ
  crossings last n [] = n
  crossings last n (s ∷ ss) =
      crossings (some s.closed)
        (if still last s.closed then (if s.wrapped_start_finish_line then n + 1 else n) else 0) ss

  -- The state has counted `n` crossings on the course `last`.
  record HasCounted (last : Option Bool) (n : ℕ) (s : LapContinuityState F) : Type 0 where
    course : last ≡ (if s.initialized then some s.closed else none)
    count : s.lap_count ≡ pos n
    index : s.lap_index ≡ pos n

  -- The count after one more state.
  abbrev pub counted : Option Bool → ℕ → LapContinuityState F → ℕ
  counted last n r =
      if still last r.closed then (if r.wrapped_start_finish_line then n + 1 else n) else 0

  IsNext-HasCounted :
      (last : Option Bool) (n : ℕ) (s r : LapContinuityState F)
      → n + 1 < 2 ^ 63
      → s.initialized ≡ true
      → HasCounted last n s
      → IsNext s r
      → IsReport r × HasCounted (some r.closed) (counted last n r) r
  IsNext-HasCounted last n s r small live h next = (next.report, ground (arith, add64_one n))

  first-HasCounted :
      (last : Option Bool) (n : ℕ) (closed : Bool) (distance progress : F)
      → still last closed ≡ false
      → let r = first_state closed distance progress in
        IsReport r × HasCounted (some r.closed) (counted last n r) r
  unfolding first_state no_state
  first-HasCounted last n closed distance progress h = (ground arith, ground arith)

  changed-eq :
      (last : Option Bool) (n : ℕ) (s : LapContinuityState F) (closed : Bool)
      → (not s.initialized || not (same_bool s.closed closed)) ≡ true
      → HasCounted last n s
      → still last closed ≡ false
  changed-eq last n s closed g h = ground arith

  along-IsNext :
      (o : LapContinuityOptions F) (s : LapContinuityState F) (distance progress total : F)
      (closed : Bool)
      → s.closed ≡ closed
      → IsNext s (
          if closed
          then update_closed o (cleared s) distance progress total
          else update_open o (cleared s) distance progress)
  along-IsNext o s distance progress total true h = closed-IsNext o s distance progress total h
  along-IsNext o s distance progress total false h = open-IsNext o s distance progress h

  unchanged-eq :
      (s : LapContinuityState F) (closed : Bool)
      → (not s.initialized || not (same_bool s.closed closed)) ≡ false
      → (s.initialized ≡ true) × (s.closed ≡ closed)
  unchanged-eq s closed h = ground arith

  next_state-HasCounted :
      (o : LapContinuityOptions F) (last : Option Bool) (n : ℕ) (s : LapContinuityState F)
      (distance total : F) (closed : Bool)
      → n + 1 < 2 ^ 63
      → HasCounted last n s
      → let r = next_state o s distance total closed in
        IsReport r × HasCounted (some r.closed) (counted last n r) r
  unfolding next_state
  next_state-HasCounted o last n s distance total closed small h =
      elim (Bool-cases (not s.initialized || not (same_bool s.closed closed))) [
        | inl changed ↦
            rw changed (first-HasCounted last n closed _ _ (changed-eq last n s closed changed h))
        | inr same ↦
            let (live, course) = unchanged-eq s closed same in
            rw same
              (IsNext-HasCounted last n s _ small live h (along-IsNext o s _ _ total closed course))
      ]

  update_cases :
      (t : LapContinuityTracker F) (distance total : F) (closed : Bool)
      → ((e : GeometryError) × (update t distance total closed ≡ (t, err e)))
        ⊎ (update t distance total closed ≡ (
          record t { state = next_state t.options t.state distance total closed },
          ok (next_state t.options t.state distance total closed),
        ))
  unfolding update
  update_cases t distance total closed = elim (Bool-cases (fl.le total zero_float)) [
    | inl empty ↦ inl (invalid_track_length, rw empty)
    | inr long ↦ elim (Bool-cases (not (is_finite distance))) [
      | inl wild ↦ inl (invalid_projection_distance, rw (long, wild))
      | inr tame ↦ inr (rw (long, tame))
    ]
  ]

  counted-le : (last : Option Bool) (n : ℕ) (r : LapContinuityState F) → counted last n r ≤ n + 1
  counted-le last n r = ground arith

  -- The count of a tracker whose state has counted `n`, after some updates.
  updates-HasCounted :
      (last : Option Bool) (n : ℕ) (t : LapContinuityTracker F) (ps : List (Place F))
      → n + length ps + 1 < 2 ^ 63
      → HasCounted last n t.state
      → All IsReport (updates t ps).1
        × ((updates t ps).0.state.lap_count ≡ pos (crossings last n (updates t ps).1))
        × ((updates t ps).0.state.lap_index ≡ pos (crossings last n (updates t ps).1))
  unfolding updates crossings
  updates-HasCounted last n t [] small h = (tt, h.count, h.index)
  updates-HasCounted last n t (p ∷ ps) small h =
      elim (update_cases t p.distance_meters p.total_meters p.closed) [
        | inl (e, failed) ↦ rw failed (updates-HasCounted last n t ps (omega arith) h)
        | inr done ↦
            let r = next_state t.options t.state p.distance_meters p.total_meters p.closed in
            let (report, counts) =
              next_state-HasCounted t.options last n t.state p.distance_meters p.total_meters
                p.closed (omega arith) h in
            let (reports, count, index) =
              updates-HasCounted (some r.closed) (counted last n r) (record t { state = r }) ps
                (omega (arith, counted-le last n r)) counts in
            rw done ((report, reports), count, index)
      ]

  new_tracker-HasCounted :
      (o : LapContinuityOptions F) → HasCounted none 0 (new_lap_continuity_tracker o).state
  unfolding new_lap_continuity_tracker no_state
  new_tracker-HasCounted o = record { course = refl; count = refl; index = refl }

  -- After fewer than 2 ^ 62 updates of a new tracker its laps, by count and by index, are the
  -- crossings of the line that the updates reported since the course last changed between open and
  -- closed; each update that succeeded took its place or reported a jump, not both, and crossed the
  -- line only forward, on a closed course.
  pub updates_lem :
      (o : LapContinuityOptions F) (ps : List (Place F))
      → length ps < 2 ^ 62
      → let (t, states) = updates (new_lap_continuity_tracker o) ps in
        All IsReport states
        × (t.state.lap_count ≡ pos (crossings none 0 states))
        × (t.state.lap_index ≡ pos (crossings none 0 states))
  updates_lem o ps small =
      updates-HasCounted none 0 (new_lap_continuity_tracker o) ps (omega arith)
        (new_tracker-HasCounted o)
