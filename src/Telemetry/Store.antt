-- ===== src/Telemetry/Store.antt =====
-- internal/telemetry/store.go: the frames that are retained for each session. A copy of a frame is
-- equal to it, and the contexts are live.
pub mod Window
use telemetry_one_backend.Base.{
  ℕ, String, Bool, Option, none, some, List, [], ◌∷◌, ◌++◌, if◌then◌else◌, ◌==◌, string_eq, nat_eq,
  ltb, leb, length, take_last, ◌||◌, ℤ, pos, pos_part, leb_ℤ,
}
use telemetry_one_backend.Base.Dict.{Dict, lookup, insert}

pub record FrameStore (A : Type 0) : Type 0 where
  pub capacity : ℕ
  pub frames : Dict String (List A)

module _ {A : Type 0} where
  -- `s.frames[sessionID]`: `nil` where nothing is stored.
  unfoldable pub frames_of : FrameStore A → String → List A
  frames_of s id = elim (lookup id s.frames) [ none ↦ [] | some fs ↦ fs ]

  unfoldable pub incoming : ℕ → List A → List A
  incoming capacity fs = if leb capacity (length fs) then take_last capacity fs else fs

  unfoldable pub retained : ℕ → List A → List A
  retained capacity fs = if ltb capacity (length fs) then take_last capacity fs else fs

  unfoldable pub append : FrameStore A → String → List A → FrameStore A
  append s id fs = if id == "" || length fs == 0 then s else record s {
    frames = insert id (retained s.capacity (frames_of s id ++ incoming s.capacity fs)) s.frames;
  }

  -- A series of `Append` calls, first call first.
  unfoldable pub append_all : FrameStore A → List (String × List A) → FrameStore A
  append_all s [] = s
  append_all s ((id, fs) ∷ calls) = append_all (append s id fs) calls

unfoldable pub new_frame_store : {A : Type 0} → ℤ → FrameStore A
new_frame_store capacity = record {
  capacity = if leb_ℤ capacity (pos 0) then 1 else pos_part capacity;
  frames = [];
}
