-- ===== src/Telemetry/Batch.antt =====
-- internal/telemetry/frame.go: `IngestBatchRequest.Normalize` and `Validate`.
use mathlib.Core.List.{head?}
use telemetry_one_backend.Base.{
  ℕ, ◌+◌, String, Bool, ◌&&◌, Option, none, some, List, [], ◌∷◌, ◌++◌, ◌==◌, string_eq, pos, int_eq,
  ltb_ℤ, leb_ℤ, ltb, length, get_last?,
}
use telemetry_one_backend.Base.Text.{decimal, ◌&◌}
use telemetry_one_backend.Base.Float.{Float64}
use telemetry_one_backend.Base.Result.{Result, ok, err, first_error, or_error}
use telemetry_one_backend.Telemetry.Rejection.{
  RejectionError, rejection_text, reject, max_batch_frames, missing_session_id, empty_frames,
  too_many_frames, non_monotonic_timestamp, lap_number_regressed, current_lap_time_regressed,
  code_too_many_frames,
}
use telemetry_one_backend.Telemetry.Frame.{Frame, normalize}

pub record NormalizeResult (F : Type 0) : Type 0 where
  pub frames : List (Frame F)
  pub rejections : List RejectionError

pub record IngestBatchRequest (F : Type 0) : Type 0 where
  pub session_id : String
  pub frames : List (Frame F)

-- The rejection of the frame at `index`.
unfoldable pub at_index : ℕ → RejectionError → RejectionError
unfolding rejection_text
at_index index e = record e {
  frame_index = some index;
  message = "frames[" & decimal (pos index) & "]: " & rejection_text e;
}

module _ {F : Type 0} ⦃fl : Float64 F⦄ where
  -- `validateBatchConsistency` against the last accepted frame.
  unfoldable pub consistency_checks : Frame F → Frame F → ℕ → List (Bool × RejectionError)
  consistency_checks last current index =
      (
        leb_ℤ current.timestamp_unix_ms last.timestamp_unix_ms,
        reject "non_monotonic_timestamp" "consistency" "timestampUnixMs" (some index)
            non_monotonic_timestamp,
      )
      ∷ (
        ltb_ℤ current.lap_number last.lap_number,
        reject "lap_number_regressed" "consistency" "lapNumber" (some index) lap_number_regressed,
      )
      ∷ (
        current.lap_number == last.lap_number && ltb_ℤ current.current_lap_ms last.current_lap_ms,
        reject "current_lap_time_regressed" "consistency" "currentLapMs" (some index)
            current_lap_time_regressed,
      )
      ∷ []

  unfoldable pub validate_batch_consistency : List (Frame F) → Frame F → ℕ → Option RejectionError
  validate_batch_consistency previous current index = elim (get_last? previous) [
    | none ↦ none
    | some last ↦ first_error (consistency_checks last current index)
  ]

  -- What the loop does with the frame at `index`.
  unfoldable pub normalize_frame : ℕ → Frame F → NormalizeResult F → NormalizeResult F
  normalize_frame index frame r = elim (normalize frame) [
    | err e ↦ record r { rejections = r.rejections ++ (at_index index e ∷ []) }
    | ok normalized ↦ elim (validate_batch_consistency r.frames normalized index) [
      | some e ↦ record r { rejections = r.rejections ++ (e ∷ []) }
      | none ↦ record r { frames = r.frames ++ (normalized ∷ []) }
    ]
  ]

  unfoldable pub normalize_frames : ℕ → List (Frame F) → NormalizeResult F → NormalizeResult F
  normalize_frames index [] r = r
  normalize_frames index (frame ∷ rest) r =
      normalize_frames (index + 1) rest (normalize_frame index frame r)

  unfoldable pub batch_checks : IngestBatchRequest F → List (Bool × RejectionError)
  batch_checks r =
      (r.session_id == "", reject "session_id_required" "batch" "sessionId" none missing_session_id)
      ∷ (ltb (length r.frames) 1, reject "frames_empty" "batch" "frames" none empty_frames)
      ∷ (
        ltb max_batch_frames (length r.frames),
        reject code_too_many_frames "batch" "frames" none too_many_frames,
      )
      ∷ []

  unfoldable pub normalize_batch : IngestBatchRequest F → Result RejectionError (NormalizeResult F)
  normalize_batch r =
      or_error (first_error (batch_checks r))
        (normalize_frames 0 r.frames (record { frames = []; rejections = [] }))

  -- `result.Rejections[0]`, if there is one.
  unfoldable pub first_rejection : Result RejectionError (NormalizeResult F) → Option RejectionError
  first_rejection (err e) = some e
  first_rejection (ok result) = head? result.rejections

  unfoldable pub validate_batch : IngestBatchRequest F → Option RejectionError
  unfolding first_rejection
  validate_batch r = first_rejection (normalize_batch r)
