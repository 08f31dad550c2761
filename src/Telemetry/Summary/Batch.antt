-- ===== src/Telemetry/Summary/Batch.antt =====
-- The batch read of the rejection summaries agrees with the single one.
use telemetry_one_backend.Base.{
  String, ◌≡◌, ◌≢◌, refl, sym, Bool, true, false, ◌||◌, Option, none, some, List, [], ◌∷◌, arith,
  if◌then◌else◌, ◌==◌, string_eq, inl, inr, Bool-cases,
}
use text.Mathlib.TextEquality.{eq_iff}
use telemetry_one_backend.Base.Dict.{Dict, lookup, insert, lookup-insert}
use telemetry_one_backend.Telemetry.Summary.{
  RejectedSummaryAggregate, SummaryStore, records_of, aggregate_rejection_summaries, summary,
  listed, summaries_loop, summaries,
}

-- What is read of `id` where the identifiers in `seen` and then those of `ids` are read.
abbrev expected : SummaryStore → String → Bool → Option RejectedSummaryAggregate
expected s id asked = if asked then some (aggregate_rejection_summaries (records_of s id)) else none

or_swap : (a b c : Bool) → (a || b || c) ≡ (b || (a || c))
or_swap a b c = ground arith

-- An identifier that is passed over adds nothing to what is asked for.
skip_absorbs :
    (seen : List String) (k id : String) (later : Bool)
    → id ≢ ""
    → (k == "" || listed k seen) ≡ true
    → (listed id seen || (k == id || later)) ≡ (listed id seen || later)
skip_absorbs seen k id later named skip = elim (Bool-cases (k == id)) [
  | inl same ↦
      let e : k ≡ id = (eq_iff k id).0 same in
      let skip' : (id == "" || listed id seen) ≡ true = rw e at skip in ground (arith, eq_iff id "")
  | inr other ↦ rw other refl
]

-- A first aggregate of a session is stored under its identifier.
lookup-stored :
    (s : SummaryStore) (seen : List String) (result : Dict String RejectedSummaryAggregate)
    (k id : String)
    → lookup id result ≡ expected s id (listed id seen)
    → lookup id (insert k (aggregate_rejection_summaries (records_of s k)) result)
      ≡ expected s id (listed id (k ∷ seen))
lookup-stored s seen result k id h = rw lookup-insert (elim (Bool-cases (k == id)) [
  | inl same ↦ let e : k ≡ id = (eq_iff k id).0 same in rw (same, e) refl
  | inr other ↦ rw other h
])

lookup-summaries_loop :
    (s : SummaryStore) (seen ids : List String) (result : Dict String RejectedSummaryAggregate)
    (id : String)
    → id ≢ ""
    → lookup id result ≡ expected s id (listed id seen)
    → lookup id (summaries_loop s seen result ids) ≡ expected s id (listed id seen || listed id ids)
unfolding summaries_loop
lookup-summaries_loop s seen [] result id named h =
    let e : (listed id seen || false) ≡ listed id seen = ground arith in rw e h
lookup-summaries_loop s seen (k ∷ ids) result id named h =
    elim (Bool-cases (k == "" || listed k seen)) [
      | inl skip ↦
          rw (skip, skip_absorbs seen k id (listed id ids) named skip)
            (lookup-summaries_loop s seen ids result id named h)
      | inr new ↦
          rw (new, sym (or_swap (k == id) (listed id seen) (listed id ids)))
            (lookup-summaries_loop s (k ∷ seen) ids
              (insert k (aggregate_rejection_summaries (records_of s k)) result) id named
              (lookup-stored s seen result k id h))
    ]

-- `Summaries` holds for a session that is named and asked for just what `Summary` returns for it, and
-- nothing for a session that is not asked for.
pub summaries_lem :
    (s : SummaryStore) (ids : List String) (id : String)
    → id ≢ ""
    → lookup id (summaries s ids) ≡ (if listed id ids then some (summary s id) else none)
unfolding summaries summary
summaries_lem s ids id named =
    let no_name : (id == "") ≡ false = ground (arith, eq_iff id "") in
    rw no_name (lookup-summaries_loop s [] ids [] id named (unfold lookup in refl))
