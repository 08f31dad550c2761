-- ===== src/Telemetry/Summary/Laws.antt =====
-- A rejection summary counts every rejection once, is sorted, and does not depend on the order in
-- which Go iterates over the map of counts.
use telemetry_one_backend.Base.{
  ℕ, ◌+◌, String, ◌≡◌, refl, sym, ◌∙◌, List, [], ◌∷◌, map, arith, if◌then◌else◌, All, Bool-cases,
  inl, inr, ◌≢◌, ◌==◌, string_eq, nat_eq,
}
use mathlib.Core.List.{Perm, Permᴰ}
use mathlib.Core.Logic.{∥∥₁_elim}
use mathlib.Core.HLevel.{hedberg}
use native.Mathlib.Nat.{ℕ_set}
use native.Mathlib.Decide.{ℕ_discrete}
use text.Mathlib.TextEquality.{eq_iff}
use telemetry_one_backend.Base.Dict.{lookup, insert}
use telemetry_one_backend.Base.Sort.{sort_by, insert_by}
use telemetry_one_backend.Base.Sort.Laws.{
  IsOrder, IsTotal, IsSorted, All-insert_by, All-sort_by, sort_by-perm, sort_by-IsSorted,
  sort_by-eq_of_perm,
}
use telemetry_one_backend.Base.Text.Order.{string_lt-IsOrder, string_lt-IsTotal}
use telemetry_one_backend.Telemetry.Rejection.{RejectionError}
use telemetry_one_backend.Telemetry.Summary.{
  RejectionReasonCount, RejectionSummary, Counts, count_of, add_count, reason_less, reason,
  sorted_reasons, count_codes, build_rejection_summary, RejectionSummaryRecord, add_reasons,
  aggregate_counts, aggregate_rejection_summaries,
}

reason_less-IsOrder : IsOrder reason_less
unfolding reason_less
reason_less-IsOrder = record {
  asymm = λ a b h. ground (arith, string_lt-IsOrder.asymm a.code b.code);
  trans = λ a b c h k. ground (arith, string_lt-IsOrder.trans a.code b.code c.code);
}

reason_less-IsTotal : IsTotal reason_less
unfolding reason_less
reason_less-IsTotal a b h k = ground (arith, string_lt-IsTotal a.code b.code)

-- How often a summary counts `code`.
pub tally : String → RejectionSummary → ℕ
tally code [] = 0
tally code (r ∷ rs) = (if r.code == code then r.count else 0) + tally code rs

tally_perm : (code : String) {l m : RejectionSummary} → Permᴰ l m → tally code l ≡ tally code m
unfolding tally
tally_perm code Permᴰ.nil = refl
tally_perm code (Permᴰ.cons e p) = cc (tally_perm code p)
tally_perm code (Permᴰ.swap e f) = rw (e, f) (omega arith)
tally_perm code (Permᴰ.trans p q) = tally_perm code p ∙ tally_perm code q

tally-sorted_reasons :
    (code : String) (counts : Counts)
    → tally code (sorted_reasons counts) ≡ tally code (map reason counts)
unfolding sorted_reasons
tally-sorted_reasons code counts =
    ∥∥₁_elim (sort_by-perm reason_less (map reason counts)) (ℕ_set _ _) (tally_perm code)

tally-add_count :
    (code k : String) (n : ℕ) (counts : Counts)
    → tally code (map reason (add_count counts k n))
      ≡ tally code (map reason counts) + (if k == code then n else 0)
unfolding tally add_count count_of lookup insert
tally-add_count code k n [] = ground (arith, eq_iff k code)
tally-add_count code k n ((j, m) ∷ counts) =
    ground (arith, eq_iff j k, eq_iff j code, eq_iff k code, tally-add_count code k n counts)

-- How often `code` is the code of a rejection.
pub occurrences : String → List RejectionError → ℕ
occurrences code [] = 0
occurrences code (r ∷ rs) = (if r.code == code then 1 else 0) + occurrences code rs

tally-count_codes :
    (code : String) (rs : List RejectionError) (counts : Counts)
    → tally code (map reason (count_codes rs counts))
      ≡ tally code (map reason counts) + occurrences code rs
unfolding count_codes occurrences
tally-count_codes code [] counts = omega arith
tally-count_codes code (r ∷ rs) counts = omega (
  arith,
  tally-count_codes code rs (add_count counts r.code 1),
  tally-add_count code r.code 1 counts,
)

-- No code stands twice in a summary.
abbrev pub DistinctCodes : RejectionSummary → Type 0
DistinctCodes [] = Unit
DistinctCodes (r ∷ rs) = All (λ other. other.code ≢ r.code) rs × DistinctCodes rs

All-insert {ℓ} :
    (P : RejectionReasonCount → Type ℓ) (k : String) (n : ℕ) (counts : Counts)
    → ((m : ℕ) → P (reason (k, m)))
    → All P (map reason counts)
    → All P (map reason (insert k n counts))
unfolding insert
All-insert P k n [] h a = (h n, tt)
All-insert P k n ((j, m) ∷ counts) h a = elim (Bool-cases (j == k)) [
  | inl e ↦ rw e (let same : j ≡ k = (eq_iff j k).0 e in (rw same (h n), a.1))
  | inr e ↦ rw e (a.0, All-insert P k n counts h a.1)
]

DistinctCodes-insert :
    (k : String) (n : ℕ) (counts : Counts)
    → DistinctCodes (map reason counts)
    → DistinctCodes (map reason (insert k n counts))
unfolding insert
DistinctCodes-insert k n [] d = (tt, tt)
DistinctCodes-insert k n ((j, m) ∷ counts) d = elim (Bool-cases (j == k)) [
  | inl e ↦ rw e d
  | inr e ↦ rw e (
    All-insert (λ other. other.code ≢ j) k n counts (λ _ p. ground (arith, eq_iff j k)) d.0,
    DistinctCodes-insert k n counts d.1,
  )
]

DistinctCodes-insert_by :
    (r : RejectionReasonCount) (rs : RejectionSummary)
    → All (λ other. other.code ≢ r.code) rs
    → DistinctCodes rs
    → DistinctCodes (insert_by reason_less r rs)
unfolding insert_by
DistinctCodes-insert_by r [] a d = (tt, tt)
DistinctCodes-insert_by r (s ∷ rs) a d = elim (Bool-cases (reason_less s r)) [
  | inl e ↦ rw e (
    All-insert_by reason_less (λ other. other.code ≢ s.code) r rs (λ p. a.0 (sym p)) d.0,
    DistinctCodes-insert_by r rs a.1 d.1,
  )
  | inr e ↦ rw e (a, d)
]

DistinctCodes-sort_by :
    (rs : RejectionSummary) → DistinctCodes rs → DistinctCodes (sort_by reason_less rs)
unfolding sort_by
DistinctCodes-sort_by [] d = tt
DistinctCodes-sort_by (r ∷ rs) d =
    DistinctCodes-insert_by r (sort_by reason_less rs) (All-sort_by reason_less _ rs d.0)
      (DistinctCodes-sort_by rs d.1)

DistinctCodes-count_codes :
    (rs : List RejectionError) (counts : Counts)
    → DistinctCodes (map reason counts)
    → DistinctCodes (map reason (count_codes rs counts))
unfolding count_codes add_count
DistinctCodes-count_codes [] counts d = d
DistinctCodes-count_codes (r ∷ rs) counts d =
    DistinctCodes-count_codes rs (add_count counts r.code 1)
      (DistinctCodes-insert r.code (count_of r.code counts + 1) counts d)

-- The summary of a batch counts, for every code, the rejections with that code; it names no code
-- twice, and stands in its order: more first, and equal counts by the code.
pub build_rejection_summary_lem :
    (rs : List RejectionError)
    → ((code : String) → tally code (build_rejection_summary rs) ≡ occurrences code rs)
      × DistinctCodes (build_rejection_summary rs)
      × IsSorted reason_less (build_rejection_summary rs)
unfolding build_rejection_summary
build_rejection_summary_lem rs = (
  λ code.
      tally-sorted_reasons code (count_codes rs [])
      ∙ (unfold tally in omega (arith, tally-count_codes code rs [])),
  unfold sorted_reasons in
      DistinctCodes-sort_by (map reason (count_codes rs [])) (DistinctCodes-count_codes rs [] tt),
  unfold sorted_reasons in
      sort_by-IsSorted reason_less reason_less-IsOrder (map reason (count_codes rs [])),
)

String-discrete : Discrete String
String-discrete s t = elim (Bool-cases (s == t)) [
  | inl e ↦ yes ((eq_iff s t).0 e)
  | inr e ↦ no (λ p. ground (arith, eq_iff s t))
]

RejectionReasonCount-discrete : Discrete RejectionReasonCount
RejectionReasonCount-discrete = hlevel (ℕ_discrete, String-discrete)

RejectionSummary-set : IsSet RejectionSummary
RejectionSummary-set =
    let reasons : IsSet RejectionReasonCount = hedberg RejectionReasonCount-discrete in
    hlevel reasons

-- Go iterates over a map in no fixed order. Whatever order it takes, the sorted reasons are the same.
pub sorted_reasons-eq_of_perm :
    (counts counts' : Counts)
    → Perm (map reason counts) (map reason counts')
    → sorted_reasons counts ≡ sorted_reasons counts'
unfolding sorted_reasons
sorted_reasons-eq_of_perm counts counts' p =
    sort_by-eq_of_perm reason_less reason_less-IsOrder reason_less-IsTotal RejectionSummary-set p

-- What the stored summaries of a session count of a code.
pub tally_all : String → List RejectionSummaryRecord → ℕ
tally_all code [] = 0
tally_all code (r ∷ rs) = tally code r.summary + tally_all code rs

tally-add_reasons :
    (code : String) (rs : RejectionSummary) (counts : Counts)
    → tally code (map reason (add_reasons rs counts))
      ≡ tally code (map reason counts) + tally code rs
unfolding add_reasons tally
tally-add_reasons code [] counts = omega arith
tally-add_reasons code (r ∷ rs) counts = omega (
  arith,
  tally-add_reasons code rs (add_count counts r.code r.count),
  tally-add_count code r.code r.count counts,
)

tally-aggregate_counts :
    (code : String) (rs : List RejectionSummaryRecord) (counts : Counts)
    → tally code (map reason (aggregate_counts rs counts))
      ≡ tally code (map reason counts) + tally_all code rs
unfolding aggregate_counts tally_all
tally-aggregate_counts code [] counts = omega arith
tally-aggregate_counts code (r ∷ rs) counts = omega (
  arith,
  tally-aggregate_counts code rs (add_reasons r.summary counts),
  tally-add_reasons code r.summary counts,
)

-- The aggregate of a session counts of every code what its stored summaries count of it together,
-- and is sorted.
pub aggregate_rejection_summaries_lem :
    (rs : List RejectionSummaryRecord)
    → ((code : String) → tally code (aggregate_rejection_summaries rs).summary ≡ tally_all code rs)
      × IsSorted reason_less (aggregate_rejection_summaries rs).summary
unfolding aggregate_rejection_summaries
aggregate_rejection_summaries_lem rs = (
  λ code.
      tally-sorted_reasons code (aggregate_counts rs [])
      ∙ (unfold tally in omega (arith, tally-aggregate_counts code rs [])),
  unfold sorted_reasons in
      sort_by-IsSorted reason_less reason_less-IsOrder (map reason (aggregate_counts rs [])),
)
