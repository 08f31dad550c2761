-- ===== src/Sessions/Summaries/Detail.antt =====
-- What the summary of a session says of its frames.
use telemetry_one_backend.Base.{
  ℕ, String, ◌≡◌, refl, sym, subst, ap, ◌∙◌, Bool, true, false, ◌||◌, Option, none, some, List, [],
  ◌∷◌, if◌then◌else◌, ◌==◌, int_eq, inl, inr, Bool-cases, arith, All, ℤ, ltb_ℤ, ◌≤ℤ◌, length,
}
use telemetry_one_backend.Base.Result.{ok, >>=-eq-ok}
use telemetry_one_backend.Telemetry.Frame.{Frame}
use telemetry_one_backend.Telemetry.Store.{frames_of}
use telemetry_one_backend.Sessions.Repository.{find_by_id}
use telemetry_one_backend.Sessions.Summaries.{
  MemorySummaryRepository, SessionDetailSummary, TimeRange, found, event_count_of, range_from,
  time_range, is_in, lap_set, detail, session_detail,
}

-- No lap stands twice in the list.
abbrev pub AllDifferent : List ℤ → Type 0
AllDifferent [] = Unit
AllDifferent (n ∷ ns) = (is_in n ns ≡ false) × AllDifferent ns

or_swap : (a b c : Bool) → ((a || b) || c) ≡ (b || (a || c))
or_swap a b c = ground arith

absorb : (a b c : Bool) → (a ≡ true → b ≡ true) → (b || c) ≡ (b || (a || c))
absorb true b c h = ap (λ x. x || c) (h refl) ∙ ap (λ x. x || true) (sym (h refl))
absorb false b c h = refl

known_lap : (n m : ℤ) (seen : List ℤ) → is_in m seen ≡ true → (m == n) ≡ true → is_in n seen ≡ true
known_lap n m seen known same =
    subst (λ k. is_in k seen ≡ true) ((int_eq.test_iff m n).0 same) known

module _ {F : Type 0} where
  abbrev pub time_of : Frame F → ℤ
  time_of f = f.timestamp_unix_ms

  -- Some frame has the time.
  abbrev pub has_time : ℤ → List (Frame F) → Bool
  has_time t [] = false
  has_time t (f ∷ fs) = time_of f == t || has_time t fs

  -- From the first to the last time, starting from two times that are in order.
  record Spans (from to : ℤ) (fs : List (Frame F)) (t : TimeRange) : Type 0 where
    first : t.from ≤ℤ from
    last : to ≤ℤ t.to
    all : All (λ f. (t.from ≤ℤ time_of f) × (time_of f ≤ℤ t.to)) fs
    from_there : (t.from == from || has_time t.from fs) ≡ true
    to_there : (t.to == to || has_time t.to fs) ≡ true

  range_from-Spans : (from to : ℤ) (fs : List (Frame F)) → Spans from to fs (range_from from to fs)
  unfolding range_from
  range_from-Spans from to [] = record {
    first = ground arith;
    last = ground arith;
    all = tt;
    from_there = ground arith;
    to_there = ground arith;
  }
  range_from-Spans from to (f ∷ fs) =
      let t = time_of f in
      let s =
        range_from-Spans (if ltb_ℤ t from then t else from) (if ltb_ℤ to t then t else to) fs in
      let low = s.first in
      let high = s.last in
      let there = s.from_there in
      let there' = s.to_there in
      record {
        first = ground (arith, low);
        last = ground (arith, high);
        all = ((ground (arith, low), ground (arith, high)), s.all);
        from_there = ground (arith, there);
        to_there = ground (arith, there');
      }

  -- The laps of the frames.
  abbrev pub has_lap : ℤ → List (Frame F) → Bool
  has_lap n [] = false
  has_lap n (f ∷ fs) = f.lap_number == n || has_lap n fs

  lap_set-AllDifferent :
      (seen : List ℤ) (fs : List (Frame F)) → AllDifferent seen → AllDifferent (lap_set seen fs)
  unfolding lap_set
  lap_set-AllDifferent seen [] h = h
  lap_set-AllDifferent seen (f ∷ fs) h = elim (Bool-cases (is_in f.lap_number seen)) [
    | inl known ↦ rw known (lap_set-AllDifferent seen fs h)
    | inr new ↦ rw new (lap_set-AllDifferent (f.lap_number ∷ seen) fs (new, h))
  ]

  is_in-lap_set :
      (n : ℤ) (seen : List ℤ) (fs : List (Frame F))
      → is_in n (lap_set seen fs) ≡ is_in n seen || has_lap n fs
  unfolding lap_set
  is_in-lap_set n seen [] = ground arith
  is_in-lap_set n seen (f ∷ fs) = elim (Bool-cases (is_in f.lap_number seen)) [
    | inl known ↦ rw known (
        is_in-lap_set n seen fs
        ∙ absorb (f.lap_number == n) _ _ (known_lap n f.lap_number seen known))
    | inr new ↦ rw new (is_in-lap_set n (f.lap_number ∷ seen) fs ∙ or_swap (f.lap_number == n) _ _)
  ]

  -- No range where there are no frames, and else the first and the last of their times.
  abbrev pub IsRange : List (Frame F) → Option TimeRange → Type 0
  IsRange [] o = o ≡ none
  IsRange (f ∷ fs) o =
      (t : TimeRange) × (o ≡ some t)
      × All (λ g. (t.from ≤ℤ time_of g) × (time_of g ≤ℤ t.to)) (f ∷ fs)
      × (has_time t.from (f ∷ fs) ≡ true)
      × (has_time t.to (f ∷ fs) ≡ true)

  time_range-IsRange : (fs : List (Frame F)) → IsRange fs (time_range fs)
  unfolding time_range
  time_range-IsRange [] = refl
  time_range-IsRange (f ∷ fs) =
      let s = range_from-Spans (time_of f) (time_of f) (f ∷ fs) in
      let there = s.from_there in
      let there' = s.to_there in
      (
        range_from (time_of f) (time_of f) (f ∷ fs),
        refl,
        s.all,
        ground (arith, there),
        ground (arith, there'),
      )

  -- The number of different laps of the frames.
  pub record IsLapCount (fs : List (Frame F)) (count : ℕ) : Type 0 where
    pub laps : List ℤ
    pub number : count ≡ length laps
    pub different : AllDifferent laps
    pub just : (n : ℤ) → is_in n laps ≡ has_lap n fs

  -- A summary that `Summary` gives counts the stored frames of the session and the different laps in
  -- them, and has the first and the last of their times, where there are any.
  pub session_detail_lem :
      (r : MemorySummaryRepository F) (session_id : String) (d : SessionDetailSummary)
      → session_detail r session_id ≡ ok d
      → let fs = frames_of r.frames session_id in
        (d.persisted_frames ≡ length fs)
        × IsRange fs d.time_range_ms
        × IsLapCount fs d.laps_detected
  unfolding session_detail detail
  session_detail_lem r session_id d h =
      let (session, there, h1) = >>=-eq-ok (found (find_by_id r.sessions session_id)) _ h in
      let (events, counted, h2) = >>=-eq-ok (event_count_of r.events session.id) _ h1 in
      let fs = frames_of r.frames session_id in
      let same : detail r session_id session events ≡ d = cc h2 in
      subst
        (λ e.
          (e.persisted_frames ≡ length fs)
          × IsRange fs e.time_range_ms
          × IsLapCount fs e.laps_detected)
        same
        (
          refl,
          time_range-IsRange fs,
          record {
            laps = lap_set [] fs;
            number = refl;
            different = lap_set-AllDifferent [] fs tt;
            just = λ n. is_in-lap_set n [] fs;
          },
        )
