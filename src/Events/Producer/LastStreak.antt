-- ===== src/Events/Producer/LastStreak.antt =====
-- The streak off the track with which frames end.
use telemetry_one_backend.Base.{
  suc, ◌≡◌, refl, sym, ap, subst, ◌∙◌, true, false, List, [], ◌∷◌, ◌++◌, arith, Bool-cases, inl,
  inr, length, length-append, ◌==◌, nat_eq, ◌⊎◌, All,
}
use telemetry_one_backend.Telemetry.Frame.{Frame}
use telemetry_one_backend.Events.Producer.{off_track_suffix}

module _ {F : Type 0} where
  -- The frames of the streak off the track with which the frames end: before it there is no frame, or
  -- one on the track.
  pub record IsLastStreak (fs streak : List (Frame F)) : Type 0 where
    pub before : List (Frame F)
    pub split : fs ≡ before ++ streak
    pub off : All (λ f. f.is_on_track ≡ false) streak
    pub longest :
        (before ≡ [])
        ⊎ ((first : List (Frame F)) × (f : Frame F) × (before ≡ first ++ f ∷ [])
            × (f.is_on_track ≡ true))

  IsLastStreak-whole :
      (fs streak : List (Frame F))
      → IsLastStreak fs streak
      → (length streak == length fs) ≡ true
      → fs ≡ streak
  IsLastStreak-whole fs streak h same = whole h.before h.split
    where
      whole : (before : List (Frame F)) → fs ≡ before ++ streak → fs ≡ streak
      whole [] e = e
      whole (b ∷ bs) e =
          let long : length fs ≡ suc (length (bs ++ streak)) = ap length e in
          absurd (ground (arith, same, long, length-append bs streak))

  IsLastStreak-further :
      (f : Frame F) (fs streak : List (Frame F))
      → IsLastStreak fs streak
      → (length streak == length fs) ≡ false
      → IsLastStreak (f ∷ fs) streak
  IsLastStreak-further f fs streak h shorter = record {
    before = f ∷ h.before;
    split = ap (λ l. f ∷ l) h.split;
    off = h.off;
    longest = elim h.longest [
      | inl nothing ↦
          let whole : fs ≡ streak = h.split ∙ ap (λ l. l ++ streak) nothing in
          let same : length fs ≡ length streak = ap length whole in
          absurd (ground (arith, shorter, same))
      | inr (first, g, e, on) ↦ inr (f ∷ first, g, ap (λ l. f ∷ l) e, on)
    ];
  }

  off_track_suffix-on :
      (f : Frame F) (fs : List (Frame F))
      → (length (off_track_suffix fs) == length fs) ≡ true
      → f.is_on_track ≡ true
      → off_track_suffix (f ∷ fs) ≡ off_track_suffix fs
  unfolding off_track_suffix
  off_track_suffix-on f fs same on = simp (same, on)

  off_track_suffix-off :
      (f : Frame F) (fs : List (Frame F))
      → (length (off_track_suffix fs) == length fs) ≡ true
      → f.is_on_track ≡ false
      → off_track_suffix (f ∷ fs) ≡ f ∷ off_track_suffix fs
  unfolding off_track_suffix
  off_track_suffix-off f fs same off = simp (same, off)

  pub off_track_suffix-IsLastStreak : (fs : List (Frame F)) → IsLastStreak fs (off_track_suffix fs)
  unfolding off_track_suffix
  off_track_suffix-IsLastStreak [] = record {
    before = [];
    split = refl;
    off = tt;
    longest = inl refl;
  }
  off_track_suffix-IsLastStreak (f ∷ fs) =
      let h = off_track_suffix-IsLastStreak fs in
      elim (Bool-cases (length (off_track_suffix fs) == length fs)) [
        | inr shorter ↦ rw shorter (IsLastStreak-further f fs (off_track_suffix fs) h shorter)
        | inl same ↦
            let whole = IsLastStreak-whole fs (off_track_suffix fs) h same in
            elim (Bool-cases f.is_on_track) [
              | inr off ↦
                  subst (IsLastStreak (f ∷ fs)) (sym (off_track_suffix-off f fs same off)) (record {
                    before = [];
                    split = ap (λ l. f ∷ l) whole;
                    off = (off, h.off);
                    longest = inl refl;
                  })
              | inl on ↦
                  subst (IsLastStreak (f ∷ fs)) (sym (off_track_suffix-on f fs same on)) (record {
                    before = f ∷ [];
                    split = ap (λ l. f ∷ l) whole;
                    off = h.off;
                    longest = inr ([], f, refl, on);
                  })
            ]
      ]
