-- ===== src/Telemetry/Intake.antt =====
-- What `IngestBatchRequest.Normalize` accepts and refuses, and when `Validate` is content.
use telemetry_one_backend.Base.{
  ℕ, ◌+◌, ◌≤◌, ◌≡◌, ◌≢◌, refl, ap, sym, ◌∙◌, ◌↔◌, Bool, true, false, Option, none, some, List, [],
  ◌∷◌, ◌++◌, arith, ◌==◌, nat_eq, string_eq, length, head?-eq-none, get_last?, last_from-append,
  inl, inr, if◌then◌else◌,
}
use mathlib.Core.List.{append_assoc, append-nil}
use text.Mathlib.TextEquality.{eq_iff}
use telemetry_one_backend.Base.Float.{Float64}
use telemetry_one_backend.Base.Result.{Result, ok, err, first_error, or_error, or_error-eq-ok}
use telemetry_one_backend.Telemetry.Rejection.{RejectionError, max_batch_frames}
use telemetry_one_backend.Telemetry.Frame.{Frame}
use telemetry_one_backend.Telemetry.Batch.{
  NormalizeResult, IngestBatchRequest, normalize_frames, batch_checks, normalize_batch,
  first_rejection, validate_batch,
}
use telemetry_one_backend.Telemetry.WellFormed.{
  IsWellFormed, normalize_frame-cases, normalize_frame_of_good,
}

-- The rejections carry rising frame indices from `lo` up to below `hi`.
abbrev pub Indexed : ℕ → ℕ → List RejectionError → Type 0
Indexed lo hi [] = lo ≤ hi
Indexed lo hi (e ∷ es) = (k : ℕ) × (e.frame_index ≡ some k) × (lo ≤ k) × Indexed (k + 1) hi es

Indexed-weaken :
    (lo lo' hi : ℕ) (es : List RejectionError) → lo ≤ lo' → Indexed lo' hi es → Indexed lo hi es
Indexed-weaken lo lo' hi [] h v = omega arith
Indexed-weaken lo lo' hi (e ∷ es) h (k, at, low, rest) = (k, at, omega arith, rest)

abbrev index_is : Option ℕ → ℕ → Bool
index_is none i = false
index_is (some k) i = k == i

-- The frames, numbered from `i`, that no rejection of the list names.
pub survivors {ℓ} : {A : Type ℓ} → ℕ → List A → List RejectionError → List A
survivors i [] es = []
survivors i (f ∷ fs) [] = f ∷ fs
survivors i (f ∷ fs) (e ∷ es) =
    if index_is e.frame_index i then survivors (i + 1) fs es else f ∷ survivors (i + 1) fs (e ∷ es)

survivors-nil {ℓ} : {A : Type ℓ} (i : ℕ) (fs : List A) → survivors i fs [] ≡ fs
unfolding survivors
survivors-nil i [] = refl
survivors-nil i (f ∷ fs) = refl

survivors-kept {ℓ} :
    {A : Type ℓ} (i hi : ℕ) (f : A) (fs : List A) (es : List RejectionError)
    → Indexed (i + 1) hi es
    → survivors i (f ∷ fs) es ≡ f ∷ survivors (i + 1) fs es
unfolding survivors
survivors-kept i hi f [] [] v = refl
survivors-kept i hi f (g ∷ fs) [] v = refl
survivors-kept i hi f fs (e ∷ es) (k, at, low, rest) =
    let other : (k == i) ≡ false = ground arith in rw (at, other) refl

survivors-refused {ℓ} :
    {A : Type ℓ} (i : ℕ) (f : A) (fs : List A) (e : RejectionError) (es : List RejectionError)
    → e.frame_index ≡ some i
    → survivors i (f ∷ fs) (e ∷ es) ≡ survivors (i + 1) fs es
unfolding survivors
survivors-refused i f fs e es at = let this : (i == i) ≡ true = ground arith in rw (at, this) refl

module _ {F : Type 0} ⦃fl : Float64 F⦄ where
  Indexed-shift :
      (i : ℕ) (f : Frame F) (fs : List (Frame F)) (es : List RejectionError)
      → Indexed (i + 1) (i + 1 + length fs) es
      → Indexed (i + 1) (i + length (f ∷ fs)) es
  Indexed-shift i f fs es v =
      let e : i + length (f ∷ fs) ≡ i + 1 + length fs = omega arith in rw e v

  -- What the loop adds to its result on the frames `fs`, numbered from `i`.
  record Added (i : ℕ) (fs : List (Frame F)) (r : NormalizeResult F) : Type 0 where
    accepted : List (Frame F)
    refused : List RejectionError
    result :
        normalize_frames i fs r
        ≡ record { frames = r.frames ++ accepted; rejections = r.rejections ++ refused }
    indexed : Indexed i (i + length fs) refused
    selected : accepted ≡ survivors i fs refused
    formed : IsWellFormed (get_last? r.frames) accepted

  normalize_frames-Added : (i : ℕ) (fs : List (Frame F)) (r : NormalizeResult F) → Added i fs r
  unfolding normalize_frames survivors
  normalize_frames-Added i [] r = record {
    accepted = [];
    refused = [];
    result = simp append-nil;
    indexed = omega arith;
    selected = refl;
    formed = tt;
  }
  normalize_frames-Added i (f ∷ fs) r = elim (normalize_frame-cases i f r) [
    | inl (range, follows, kept) ↦
        let a = normalize_frames-Added (i + 1) fs (record r { frames = r.frames ++ f ∷ [] }) in
        record {
          accepted = f ∷ a.accepted;
          refused = a.refused;
          result = rw kept (a.result ∙ simp append_assoc);
          indexed =
              Indexed-weaken i (i + 1) (i + length (f ∷ fs)) a.refused (omega arith)
                (Indexed-shift i f fs a.refused a.indexed);
          selected =
              ap (◌∷◌ f) a.selected
              ∙ sym (survivors-kept i (i + 1 + length fs) f fs a.refused a.indexed);
          formed = (range, follows, rw last_from-append at a.formed);
        }
    | inr (e, at, refused) ↦
        let a =
          normalize_frames-Added (i + 1) fs (record r { rejections = r.rejections ++ e ∷ [] }) in
        record {
          accepted = a.accepted;
          refused = e ∷ a.refused;
          result = rw refused (a.result ∙ simp append_assoc);
          indexed = (i, at, omega arith, Indexed-shift i f fs a.refused a.indexed);
          selected = a.selected ∙ sym (survivors-refused i f fs e a.refused at);
          formed = a.formed;
        }
  ]

  normalize_frames_of_IsWellFormed :
      (i : ℕ) (fs : List (Frame F)) (r : NormalizeResult F)
      → IsWellFormed (get_last? r.frames) fs
      → normalize_frames i fs r ≡ record r { frames = r.frames ++ fs }
  unfolding normalize_frames
  normalize_frames_of_IsWellFormed i [] r w = simp append-nil
  normalize_frames_of_IsWellFormed i (f ∷ fs) r (range, follows, w) =
      rw (normalize_frame_of_good i f r range follows) (
        normalize_frames_of_IsWellFormed (i + 1) fs (record r { frames = r.frames ++ f ∷ [] })
          (rw last_from-append w)
        ∙ simp append_assoc)

  -- The limits on a batch as a whole.
  pub record IsAdmissible (r : IngestBatchRequest F) : Type 0 where
    pub named : r.session_id ≢ ""
    pub some_frames : 1 ≤ length r.frames
    pub not_too_many : length r.frames ≤ max_batch_frames

  batch_checks_iff :
      (r : IngestBatchRequest F) → (first_error (batch_checks r) ≡ none) ↔ IsAdmissible r
  unfolding first_error batch_checks
  batch_checks_iff r = (
    λ h. record {
      named = λ e. ground (arith, eq_iff r.session_id "");
      some_frames = ground arith;
      not_too_many = ground arith;
    },
    λ a. ground (arith, a.named, eq_iff r.session_id ""),
  )

  abbrev empty_result : NormalizeResult F
  empty_result = record { frames = []; rejections = [] }

  -- A batch that `Normalize` processes is within the limits on a batch. The frames that it returns
  -- are in range and each follows the one before; the rejections carry rising indices of frames of
  -- the batch; and the frames returned are, in order, just those that no rejection names.
  pub normalize_batch_lem :
      (r : IngestBatchRequest F) (result : NormalizeResult F)
      → normalize_batch r ≡ ok result
      → IsAdmissible r
        × IsWellFormed none result.frames
        × Indexed 0 (length r.frames) result.rejections
        × (result.frames ≡ survivors 0 r.frames result.rejections)
  unfolding normalize_batch
  normalize_batch_lem r result h =
      let (admitted, same) = or_error-eq-ok (first_error (batch_checks r)) h in
      let a = normalize_frames-Added 0 r.frames empty_result in
      let e : result ≡ record { frames = a.accepted; rejections = a.refused } = same ∙ a.result in
      let n : 0 + length r.frames ≡ length r.frames = omega arith in
      rw e ((batch_checks_iff r).0 admitted, a.formed, rw n at a.indexed, a.selected)

  first_rejection-eq-none :
      (o : Result RejectionError (NormalizeResult F))
      → first_rejection o ≡ none
      → (result : NormalizeResult F) × (o ≡ ok result) × (result.rejections ≡ [])
  unfolding first_rejection
  first_rejection-eq-none (err e) h = cc
  first_rejection-eq-none (ok result) h = (result, refl, head?-eq-none result.rejections h)

  validate_batch_of_IsWellFormed :
      (r : IngestBatchRequest F)
      → IsAdmissible r
      → IsWellFormed none r.frames
      → validate_batch r ≡ none
  unfolding validate_batch normalize_batch or_error
  validate_batch_of_IsWellFormed r a w =
      rw ((batch_checks_iff r).1 a, normalize_frames_of_IsWellFormed 0 r.frames empty_result w)

  -- `Validate` finds no fault just if the batch is within the limits and well formed as it stands.
  pub validate_batch_iff :
      (r : IngestBatchRequest F)
      → (validate_batch r ≡ none) ↔ (IsAdmissible r × IsWellFormed none r.frames)
  unfolding validate_batch
  validate_batch_iff r = (
    λ h.
        let (result, done, clean) = first_rejection-eq-none (normalize_batch r) h in
        let (a, w, _, selected) = normalize_batch_lem r result done in
        let whole : result.frames ≡ r.frames =
          selected ∙ ap (survivors 0 r.frames) clean ∙ survivors-nil 0 r.frames in
        (a, rw whole at w),
    λ (a, w). validate_batch_of_IsWellFormed r a w,
  )
