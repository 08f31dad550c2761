-- ===== src/Telemetry/Store/Window.antt =====
-- A store keeps, for each session, the last frames that were appended to it, up to its capacity.
use telemetry_one_backend.Base.{
  ℕ, ◌≤◌, String, ◌≡◌, ◌≢◌, sym, ap, ◌∙◌, List, [], ◌∷◌, ◌++◌, arith, if◌then◌else◌, ◌==◌,
  string_eq, length, length-take_last_le, take_last, ℤ, inl, inr, Bool-cases,
}
use mathlib.Core.List.{append_assoc, append-nil}
use text.Mathlib.TextEquality.{eq_iff}
use telemetry_one_backend.Base.Window.{
  take_last_short, take_last-append_left, take_last-append_right,
}
use telemetry_one_backend.Base.Dict.{lookup, insert, lookup-insert}
use telemetry_one_backend.Telemetry.Store.{
  FrameStore, frames_of, incoming, retained, append, append_all, new_frame_store,
}

module _ {A : Type 0} where
  retained-eq-take_last : (n : ℕ) (xs : List A) → retained n xs ≡ take_last n xs
  unfolding retained
  retained-eq-take_last n xs = ground (arith, take_last_short n xs)

  incoming-eq-take_last : (n : ℕ) (xs : List A) → incoming n xs ≡ take_last n xs
  unfolding incoming
  incoming-eq-take_last n xs = ground (arith, take_last_short n xs)

  retained-incoming :
      (n : ℕ) (old fs : List A) → retained n (old ++ incoming n fs) ≡ take_last n (old ++ fs)
  retained-incoming n old fs =
      retained-eq-take_last n (old ++ incoming n fs)
      ∙ ap (λ t. take_last n (old ++ t)) (incoming-eq-take_last n fs)
      ∙ take_last-append_right n old fs

  frames_of-insert :
      (s : FrameStore A) (id j : String) (fs : List A)
      → frames_of (record s { frames = insert id fs s.frames }) j
        ≡ (if id == j then fs else frames_of s j)
  unfolding frames_of
  frames_of-insert s id j fs = ground (arith, lookup-insert id j fs s.frames)

  append-nothing : (s : FrameStore A) (id : String) → append s id [] ≡ s
  unfolding append
  append-nothing s id = ground arith

  append-some :
      (s : FrameStore A) (id : String) (f : A) (fs : List A)
      → id ≢ ""
      → append s id (f ∷ fs)
        ≡ record s { frames = insert id (take_last s.capacity (frames_of s id ++ f ∷ fs)) s.frames }
  unfolding append
  append-some s id f fs named =
      ground (arith, eq_iff id "", retained-incoming s.capacity (frames_of s id) (f ∷ fs))

  append-unnamed : (s : FrameStore A) (id : String) (fs : List A) → id ≡ "" → append s id fs ≡ s
  unfolding append
  append-unnamed s id fs h = ground (arith, eq_iff id "")

  held_all :
      (s : FrameStore A) (j : String)
      → length (frames_of s j) ≤ s.capacity
      → take_last s.capacity (frames_of s j ++ []) ≡ frames_of s j
  held_all s j small =
      ap (take_last s.capacity) (append-nil (frames_of s j))
      ∙ take_last_short s.capacity (frames_of s j) small

  frames_of-append_named :
      (s : FrameStore A) (id j : String) (fs : List A)
      → id ≢ ""
      → length (frames_of s j) ≤ s.capacity
      → frames_of (append s id fs) j
        ≡ (if id == j then take_last s.capacity (frames_of s j ++ fs) else frames_of s j)
  frames_of-append_named s id j [] named small =
      rw (append-nothing, held_all s j small) (ground arith)
  frames_of-append_named s id j (f ∷ fs) named small = rw (append-some s id f fs named) (
      ground (
        arith,
        eq_iff id j,
        frames_of-insert s id j (take_last s.capacity (frames_of s id ++ f ∷ fs)),
      ))

  -- After an append a named session within the capacity holds the last frames, up to the capacity,
  -- of what it held and what came for it; an append to another session leaves it as it was.
  pub frames_of-append :
      (s : FrameStore A) (id j : String) (fs : List A)
      → j ≢ ""
      → length (frames_of s j) ≤ s.capacity
      → frames_of (append s id fs) j
        ≡ (if id == j then take_last s.capacity (frames_of s j ++ fs) else frames_of s j)
  frames_of-append s id j fs named small = elim (Bool-cases (id == "")) [
    | inl e ↦
        rw (append-unnamed s id fs ((eq_iff id "").0 e)) (ground (arith, eq_iff id "", eq_iff id j))
    | inr e ↦ frames_of-append_named s id j fs (λ p. ground (arith, eq_iff id "")) small
  ]

  -- What a series of appends sends to one session.
  abbrev pub sent : String → List (String × List A) → List A
  sent j [] = []
  sent j ((id, fs) ∷ calls) = if id == j then fs ++ sent j calls else sent j calls

  capacity-append :
      (s : FrameStore A) (id : String) (fs : List A) → (append s id fs).capacity ≡ s.capacity
  unfolding append
  capacity-append s id fs = ground arith

  window_step :
      (s : FrameStore A) (id j : String) (fs rest : List A)
      → j ≢ ""
      → length (frames_of s j) ≤ s.capacity
      → take_last s.capacity (frames_of (append s id fs) j ++ rest)
        ≡ take_last s.capacity (frames_of s j ++ (if id == j then fs ++ rest else rest))
  window_step s id j fs rest named small = elim (Bool-cases (id == j)) [
    | inl e ↦
        rw (frames_of-append s id j fs named small, e)
          (take_last-append_left s.capacity (frames_of s j ++ fs) rest
            ∙ ap (take_last s.capacity) (append_assoc (frames_of s j) fs rest))
    | inr e ↦ rw (frames_of-append s id j fs named small, e)
  ]

  length-append_le :
      (s : FrameStore A) (id j : String) (fs : List A)
      → j ≢ ""
      → length (frames_of s j) ≤ s.capacity
      → length (frames_of (append s id fs) j) ≤ s.capacity
  length-append_le s id j fs named small =
      rw (frames_of-append s id j fs named small)
        (ground (arith, length-take_last_le s.capacity (frames_of s j ++ fs)))

  append_all_from :
      (s : FrameStore A) (calls : List (String × List A)) (j : String)
      → j ≢ ""
      → length (frames_of s j) ≤ s.capacity
      → frames_of (append_all s calls) j ≡ take_last s.capacity (frames_of s j ++ sent j calls)
  unfolding append_all
  append_all_from s [] j named small = sym (held_all s j small)
  append_all_from s ((id, fs) ∷ calls) j named small =
      let s' = append s id fs in
      let same : s'.capacity ≡ s.capacity = capacity-append s id fs in
      let fits : length (frames_of s' j) ≤ s'.capacity =
        omega (arith, same, length-append_le s id j fs named small) in
      append_all_from s' calls j named fits
      ∙ ap (λ c. take_last c (frames_of s' j ++ sent j calls)) same
      ∙ window_step s id j fs (sent j calls) named small

  -- After any series of appends to a new store, a named session holds the last frames, up to the
  -- capacity, of all that was sent to it, in the order in which it was sent.
  pub append_all_lem :
      (capacity : ℤ) (calls : List (String × List A)) (j : String)
      → j ≢ ""
      → let s = new_frame_store {A = A} capacity in
        frames_of (append_all s calls) j ≡ take_last s.capacity (sent j calls)
  unfolding new_frame_store frames_of lookup
  append_all_lem capacity calls j named =
      append_all_from (new_frame_store capacity) calls j named (omega arith)
