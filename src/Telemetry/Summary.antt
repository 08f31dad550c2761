-- ===== src/Telemetry/Summary.antt =====
-- internal/telemetry/frame.go `BuildRejectionSummary`, and internal/telemetry/rejection_summary_store.go.
pub mod Laws
pub mod Batch
use telemetry_one_backend.Base.{
  ℕ, ◌+◌, String, ◌≡◌, refl, Bool, Option, none, some, List, [], ◌∷◌, ◌++◌, map, arith,
  if◌then◌else◌, ◌==◌, string_eq, nat_eq, ltb, ◌||◌, false,
}
use telemetry_one_backend.Base.Dict.{Dict, lookup, insert}
use telemetry_one_backend.Base.Sort.{sort_by}
use telemetry_one_backend.Base.Text.Order.{string_lt}
use telemetry_one_backend.Telemetry.Rejection.{RejectionError}

pub record RejectionReasonCount : Type 0 where
  pub code : String
  pub count : ℕ

abbrev pub RejectionSummary : Type 0
RejectionSummary = List RejectionReasonCount

abbrev pub Counts : Type 0
Counts = Dict String ℕ

-- The zero value of a missing key.
unfoldable pub count_of : String → Counts → ℕ
count_of code counts = elim (lookup code counts) [ none ↦ 0 | some n ↦ n ]

-- `counts[code] += n`
unfoldable pub add_count : Counts → String → ℕ → Counts
add_count counts code n = insert code (count_of code counts + n) counts

-- More first, and codes in their order.
unfoldable pub reason_less : RejectionReasonCount → RejectionReasonCount → Bool
reason_less a b = if a.count == b.count then string_lt a.code b.code else ltb b.count a.count

abbrev pub reason : String × ℕ → RejectionReasonCount
reason (code, count) = record { code = code; count = count }

unfoldable pub sorted_reasons : Counts → RejectionSummary
sorted_reasons counts = sort_by reason_less (map reason counts)

unfoldable pub count_codes : List RejectionError → Counts → Counts
count_codes [] counts = counts
count_codes (r ∷ rs) counts = count_codes rs (add_count counts r.code 1)

unfoldable pub build_rejection_summary : List RejectionError → RejectionSummary
build_rejection_summary rejections = sorted_reasons (count_codes rejections [])

-- The fields of a record that the store reads; `id` and `ingested_at` come from the clock and from
-- random bytes where they are missing.
pub record RejectionSummaryRecord : Type 0 where
  pub session_id : String
  pub rejected_frames : ℕ
  pub summary : RejectionSummary

pub record RejectedSummaryAggregate : Type 0 where
  pub rejected_frames : ℕ
  pub summary : RejectionSummary

abbrev pub SummaryStore : Type 0
SummaryStore = Dict String (List RejectionSummaryRecord)

unfoldable pub records_of : SummaryStore → String → List RejectionSummaryRecord
records_of s id = elim (lookup id s) [ none ↦ [] | some records ↦ records ]

-- `Append` with a live context.
unfoldable pub append_record : SummaryStore → RejectionSummaryRecord → SummaryStore
append_record s r =
    if r.session_id == "" || r.rejected_frames == 0
    then s
    else insert r.session_id (records_of s r.session_id ++ r ∷ []) s

unfoldable pub add_reasons : RejectionSummary → Counts → Counts
add_reasons [] counts = counts
add_reasons (r ∷ rs) counts = add_reasons rs (add_count counts r.code r.count)

unfoldable pub aggregate_counts : List RejectionSummaryRecord → Counts → Counts
aggregate_counts [] counts = counts
aggregate_counts (r ∷ rs) counts = aggregate_counts rs (add_reasons r.summary counts)

unfoldable pub total_rejected : List RejectionSummaryRecord → ℕ
total_rejected [] = 0
total_rejected (r ∷ rs) = r.rejected_frames + total_rejected rs

unfoldable pub aggregate_rejection_summaries :
    List RejectionSummaryRecord → RejectedSummaryAggregate
aggregate_rejection_summaries records = record {
  rejected_frames = total_rejected records;
  summary = sorted_reasons (aggregate_counts records []);
}

-- `Summary` with a live context.
unfoldable pub summary : SummaryStore → String → RejectedSummaryAggregate
summary s id =
    if id == ""
    then record { rejected_frames = 0; summary = [] }
    else aggregate_rejection_summaries (records_of s id)

abbrev pub listed : String → List String → Bool
listed id [] = false
listed id (k ∷ ks) = k == id || listed id ks

-- The loop of `Summaries`; `seen` holds the identifiers that have their aggregate.
unfoldable pub summaries_loop :
    SummaryStore
    → List String
    → Dict String RejectedSummaryAggregate
    → List String
    → Dict String RejectedSummaryAggregate
summaries_loop s seen result [] = result
summaries_loop s seen result (id ∷ ids) =
    let skip = id == "" || listed id seen in
    summaries_loop s (if skip then seen else id ∷ seen)
      (if skip then result else insert id (aggregate_rejection_summaries (records_of s id)) result)
      ids

-- `Summaries` with a live context.
unfoldable pub summaries : SummaryStore → List String → Dict String RejectedSummaryAggregate
summaries s ids = summaries_loop s [] [] ids
