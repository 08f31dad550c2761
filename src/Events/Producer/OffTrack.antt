-- ===== src/Events/Producer/OffTrack.antt =====
-- The streaks off the track are the longest runs of frames off the track, and what is put before
-- appended frames so that a streak goes on.
use telemetry_one_backend.Base.{
  suc, ◌+◌, ◌≡◌, refl, sym, ap, ◌∙◌, true, false, none, some, List, [], ◌∷◌, ◌++◌, map, arith,
  if◌then◌else◌, Bool-cases, inl, inr, length, nat_eq, All, ℤ, ◌<ℤ◌, ◌≤ℤ◌, ltb_ℤ,
}
use telemetry_one_backend.Telemetry.Frame.{Frame}
use telemetry_one_backend.Events.Producer.LastStreak.{IsLastStreak, off_track_suffix-IsLastStreak}
use telemetry_one_backend.Events.Producer.{
  Streak, next_streak, off_track_streaks, ends_on_track, up_to_before, prefix_before,
  off_track_suffix, append_off_track_tail,
}

-- A run: its first frame, and the others.
abbrev pub Run : Type 0 → Type 0
Run F = Frame F × List (Frame F)

module _ {F : Type 0} where
  unfoldable pub last_of : Frame F → List (Frame F) → Frame F
  last_of f [] = f
  last_of f (g ∷ fs) = last_of g fs

  pub summarize : Run F → Streak F
  summarize (f, fs) = record { start = f; end = last_of f fs; count = suc (length fs) }

  abbrev with_lead : List (Frame F) → List (Run F) → List (Run F)
  with_lead [] later = later
  with_lead (f ∷ fs) later = (f, fs) ∷ later

  -- The frames off the track at the start, and the later runs.
  split_runs : List (Frame F) → List (Frame F) × List (Run F)
  split_runs [] = ([], [])
  split_runs (f ∷ fs) =
      let rest = split_runs fs in
      if f.is_on_track then ([], with_lead rest.0 rest.1) else (f ∷ rest.0, rest.1)

  -- The longest runs of frames off the track, in their order.
  pub off_track_runs : List (Frame F) → List (Run F)
  off_track_runs fs = let s = split_runs fs in with_lead s.0 s.1

  abbrev extended : Streak F → List (Frame F) → Streak F
  extended s fs = record { start = s.start; end = last_of s.end fs; count = s.count + length fs }

  GoesOn : List (Frame F) → Type 0
  GoesOn fs =
      (s : Streak F)
      → off_track_streaks (some s) fs
        ≡ extended s (split_runs fs).0 ∷ map summarize (split_runs fs).1

  streak-alone : (s : Streak F) → s ≡ extended s []
  unfolding last_of
  streak-alone s = let e : s.count + 0 ≡ s.count = omega arith in rw e refl

  streak-extended :
      (s : Streak F) (f : Frame F) (fs : List (Frame F))
      → extended (record s { end = f; count = s.count + 1 }) fs ≡ extended s (f ∷ fs)
  unfolding last_of
  streak-extended s f fs =
      let e : s.count + 1 + length fs ≡ s.count + length (f ∷ fs) = omega arith in rw e refl

  streak-fresh :
      (f : Frame F) (fs : List (Frame F))
      → extended (record { start = f; end = f; count = 1 }) fs ≡ summarize (f, fs)
  unfolding summarize
  streak-fresh f fs = let e : 1 + length fs ≡ suc (length fs) = omega arith in rw e refl

  next_streak-on : (f : Frame F) → f.is_on_track ≡ true → next_streak none f ≡ none
  unfolding next_streak
  next_streak-on f on = simp on

  off_track_runs-on :
      (f : Frame F) (fs : List (Frame F))
      → f.is_on_track ≡ true
      → off_track_runs (f ∷ fs) ≡ off_track_runs fs
  unfolding off_track_runs split_runs
  off_track_runs-on f fs on = simp on

  next_streak-off :
      (f : Frame F)
      → f.is_on_track ≡ false
      → next_streak none f ≡ some (record { start = f; end = f; count = 1 })
  unfolding next_streak
  next_streak-off f off = simp off

  off_track_runs-off :
      (f : Frame F) (fs : List (Frame F))
      → f.is_on_track ≡ false
      → off_track_runs (f ∷ fs) ≡ (f, (split_runs fs).0) ∷ (split_runs fs).1
  unfolding off_track_runs split_runs
  off_track_runs-off f fs off = simp off

  streaks-split :
      (fs : List (Frame F))
      → GoesOn fs × (off_track_streaks none fs ≡ map summarize (off_track_runs fs))
  unfolding GoesOn off_track_streaks next_streak split_runs off_track_runs
  streaks-split [] = (λ s. ap (λ x. x ∷ []) (streak-alone s), refl)
  streaks-split (f ∷ fs) =
      let (going, fresh) = streaks-split fs in
      let (lead, later) = split_runs fs in
      elim (Bool-cases f.is_on_track) [
        | inl on ↦ (
          λ s.
              simp on (
                ap (◌∷◌ s) fresh
                ∙ ap (λ x. x ∷ map summarize (off_track_runs fs)) (streak-alone s)),
          ap (λ o. off_track_streaks o fs) (next_streak-on f on)
              ∙ fresh
              ∙ ap (map summarize) (sym (off_track_runs-on f fs on)),
        )
        | inr off ↦ (
          λ s. simp off (
              going (record s { end = f; count = s.count + 1 })
              ∙ ap (λ x. x ∷ map summarize later) (streak-extended s f lead)),
          ap (λ o. off_track_streaks o fs) (next_streak-off f off)
              ∙ going (record { start = f; end = f; count = 1 })
              ∙ ap (λ x. x ∷ map summarize later) (streak-fresh f lead)
              ∙ ap (map summarize) (sym (off_track_runs-off f fs off)),
        )
      ]

  -- The streaks that the loop finds are the longest runs of frames off the track, in their order,
  -- each with its first frame, its last frame, and its number of frames.
  pub off_track_streaks-eq-runs :
      (fs : List (Frame F)) → off_track_streaks none fs ≡ map summarize (off_track_runs fs)
  off_track_streaks-eq-runs fs = (streaks-split fs).1

  -- A frame before the time, and one not before it.
  abbrev pub IsBefore : ℤ → Frame F → Type 0
  IsBefore time f = f.timestamp_unix_ms <ℤ time

  abbrev pub IsFrom : ℤ → Frame F → Type 0
  IsFrom time f = time ≤ℤ f.timestamp_unix_ms

  up_to_before-later :
      (time : ℤ) (fs : List (Frame F)) → All (IsFrom time) fs → up_to_before time fs ≡ []
  unfolding up_to_before
  up_to_before-later time [] a = refl
  up_to_before-later time (f ∷ fs) a =
      let late : ltb_ℤ f.timestamp_unix_ms time ≡ false = ground arith in
      rw (up_to_before-later time fs a.1, late) refl

  ends_on_track-last :
      (f : Frame F) (fs : List (Frame F)) → ends_on_track (f ∷ fs) ≡ (last_of f fs).is_on_track
  unfolding last_of
  ends_on_track-last f [] = refl
  ends_on_track-last f (g ∷ fs) = ends_on_track-last g fs

  -- Where no accumulated frame is before the first appended one, and the accumulated ones end off the
  -- track, the streak with which they end is put before the appended ones. The accumulated frames may
  -- be the appended ones, as with the first batch of a session: their last streak then comes twice.
  pub append_off_track_tail-first_batch :
      (o : Frame F) (os : List (Frame F)) (a : Frame F) (fs : List (Frame F))
      → All (IsFrom a.timestamp_unix_ms) (o ∷ os)
      → (last_of o os).is_on_track ≡ false
      → (streak : List (Frame F)) × IsLastStreak (o ∷ os) streak
        × (append_off_track_tail (o ∷ os) (a ∷ fs) ≡ streak ++ a ∷ fs)
  unfolding append_off_track_tail prefix_before
  append_off_track_tail-first_batch o os a fs from off =
      let ends = ends_on_track-last o os ∙ off in
      (
        off_track_suffix (o ∷ os),
        off_track_suffix-IsLastStreak (o ∷ os),
        rw (up_to_before-later a.timestamp_unix_ms (o ∷ os) from, ends) refl,
      )
