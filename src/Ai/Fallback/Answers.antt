-- ===== src/Ai/Fallback/Answers.antt =====
-- A valid request is always answered, and the gravest events are shown.
use mathlib.Core.List.{Perm}
use text.Mathlib.TextEquality.{eq_iff}
use telemetry_one_backend.Base.{
  ℕ, zero, suc, ◌+◌, ◌≤◌, String, ◌≡◌, ◌≢◌, refl, sym, subst, ap, ◌∙◌, Bool, true, false, ◌&&◌, not,
  Option, none, List, [], ◌∷◌, ◌++◌, ◌==◌, string_eq, ◌⊎◌, inl, inr, Bool-cases, arith, All,
  All-after, All-imp, ltb, ◌≤ℤ◌, ℤ, pos, length, take, drop, take-append-drop,
}
use telemetry_one_backend.Base.Float.{Float64}
use telemetry_one_backend.Base.Result.{Result, ok, err}
use telemetry_one_backend.Base.Sort.{sort_by}
use telemetry_one_backend.Base.Sort.Laws.{IsOrder, IsSorted, sort_by-perm, sort_by-IsSorted}
use telemetry_one_backend.Ai.Error.{AiError, ProviderResponse, leaf, invalid_provider_response}
use telemetry_one_backend.Ai.Input.{
  InputError, GatewayRequest, EventEnvelope, is_empty, validate_gateway_request,
}
use telemetry_one_backend.Ai.Context.{EventSummary}
use telemetry_one_backend.Ai.Controller.{Controller, State, UsageAccount, execute}
use telemetry_one_backend.Ai.Controller.Charges.{charged, execute_lem}
use telemetry_one_backend.Ai.Fallback.{
  GatewayResponse, extract_event_ids, severity_to_weight, is_graver, sort_by_severity_desc,
  displayed, status_from_error, build_fallback_response, answer, analyze_checked, fallback_analyze,
}
use telemetry_one_backend.Ai.Service.{response_of, responded, analyze_if, analyze_valid, analyze}

-- No element of the later part of a sorted list is less than one of the earlier part.
IsSorted-append {ℓ} :
    {A : Type ℓ} (less : A → A → Bool) (xs ys : List A)
    → IsSorted less (xs ++ ys)
    → All (λ x. All (λ y. less y x ≡ false) ys) xs
IsSorted-append less [] ys h = tt
IsSorted-append less (x ∷ xs) ys h =
    (All-after (λ y. less y x ≡ false) xs ys h.0, IsSorted-append less xs ys h.1)

same_text : (a b : String) → (a == b) ≡ true → a ≡ b
same_text a b h = (eq_iff a b).0 h

-- An event of the severity `shown` may be shown where one of the severity `hidden` is left out: high
-- comes before medium, medium before low, and low before any other.
pub data IsBefore (shown hidden : String) : Type 0 where
  high : shown ≡ "high" → IsBefore shown hidden
  medium : shown ≡ "medium" → hidden ≢ "high" → IsBefore shown hidden
  low : shown ≡ "low" → hidden ≢ "high" → hidden ≢ "medium" → IsBefore shown hidden
  other : hidden ≢ "high" → hidden ≢ "medium" → hidden ≢ "low" → IsBefore shown hidden

weight-IsBefore :
    (shown hidden : String)
    → ltb (severity_to_weight shown) (severity_to_weight hidden) ≡ false
    → IsBefore shown hidden
unfolding severity_to_weight
weight-IsBefore shown hidden h = elim (Bool-cases (shown == "high")) [
  | inl e ↦ high (same_text shown "high" e)
  | inr e ↦ elim (Bool-cases (shown == "medium")) [
    | inl e' ↦
        let is : shown ≡ "medium" = same_text shown "medium" e' in
        medium is (λ k. cc (rw (is, k) at h))
    | inr e' ↦ elim (Bool-cases (shown == "low")) [
      | inl e'' ↦
          let is : shown ≡ "low" = same_text shown "low" e'' in
          low is (λ k. cc (rw (is, k) at h)) (λ k. cc (rw (is, k) at h))
      | inr e'' ↦
          other (λ k. cc (rw (e, e', e'', k) at h)) (λ k. cc (rw (e, e', e'', k) at h))
            (λ k. cc (rw (e, e', e'', k) at h))
    ]
  ]
]

-- A list is cut short only where elements are left out.
take_fills {ℓ} :
    {A : Type ℓ} (n : ℕ) (xs : List A)
    → (length (take n xs) ≤ n) × ((length (take n xs) ≡ n) ⊎ (drop n xs ≡ []))
take_fills zero xs = (omega arith, inl refl)
take_fills (suc n) [] = (omega arith, inr refl)
take_fills (suc n) (x ∷ xs) =
    let (few, full_or_whole) = take_fills n xs in
    elim full_or_whole [
      | inl full ↦ (omega arith, inl (omega arith))
      | inr whole ↦ (omega arith, inr whole)
    ]

never_both : (b : Bool) → (not b && b) ≡ false
never_both b = ground arith

module _ {F : Type 0} where
  is_graver-IsOrder : IsOrder (is_graver {F = F})
  is_graver-IsOrder = record { asymm = λ a b h. ground arith; trans = λ a b c h k. ground arith }

  -- The events that the fallback shows, with those that it leaves out, are all events. It shows at
  -- most three, and fewer only where it leaves out none. Of an event that is shown and one that is
  -- left out, the shown one is high, or medium and the other is not high, or low and the other is
  -- neither, or the other has none of the three severities.
  pub displayed_lem :
      (events : List (EventSummary F))
      → (hidden : List (EventSummary F)) × Perm (displayed events ++ hidden) events
        × (length (displayed events) ≤ 3)
        × ((length (displayed events) ≡ 3) ⊎ (hidden ≡ []))
        × All (λ shown. All (λ e. IsBefore shown.severity e.severity) hidden) (displayed events)
  unfolding displayed sort_by_severity_desc
  displayed_lem events =
      let sorted = sort_by is_graver events in
      let whole = take-append-drop 3 sorted in
      let (few, full) = take_fills 3 sorted in
      let apart = IsSorted-append is_graver (take 3 sorted) (drop 3 sorted) (
        subst (IsSorted is_graver) (sym whole)
          (sort_by-IsSorted is_graver is_graver-IsOrder events)) in
      (
        drop 3 sorted,
        subst (λ l. Perm l events) (sym whole) (sort_by-perm is_graver events),
        few,
        full,
        All-imp _ _ (take 3 sorted)
            (λ shown. All-imp _ _ (drop 3 sorted) (λ e. weight-IsBefore shown.severity e.severity))
            apart,
      )

  same_emptiness : (es : List (EventEnvelope F)) → is_empty (extract_event_ids es) ≡ is_empty es
  unfolding extract_event_ids
  same_emptiness [] = refl
  same_emptiness (e ∷ es) = refl

module _ {F : Type 0} ⦃fl : Float64 F⦄ (two_decimals : F → String)
    (text_of : AiError → String) where
  -- The answer to what the provider has answered: its content, or the fallback where it has none.
  abbrev pub IsGiven : GatewayRequest F → ProviderResponse → GatewayResponse F → Type 0
  IsGiven r p response =
      (((p.content == "") ≡ false) × (response ≡ record (response_of r p) { status = "success" }))
      ⊎ (((p.content == "") ≡ true)
          × (response
              ≡ build_fallback_response two_decimals text_of r (leaf invalid_provider_response)
                  "invalid_response"))

  answer-IsGiven :
      (r : GatewayRequest F) (p : ProviderResponse)
      → IsGiven r p (answer two_decimals text_of r (ok (response_of r p)))
  unfolding answer response_of
  answer-IsGiven r p = elim (Bool-cases (p.content == "")) [
    | inl empty ↦ inr (empty, rw empty refl)
    | inr full ↦
        inl (
          full,
          rw (full, same_emptiness r.input.events, never_both (is_empty r.input.events)) refl,
        )
  ]

  module _ {W : Type 0} (c : Controller F W) (prompt_chars : GatewayRequest F → ℤ) (now : ℤ)
      (r : GatewayRequest F) (s : State F W) where
    abbrev pub item_count : ℤ
    item_count = pos (length r.input.events + length r.input.signals)

    -- The account and the response after a request.
    abbrev pub IsAnswered : Option (UsageAccount F) → GatewayResponse F → Type 0
    IsAnswered account response =
        ((p : ProviderResponse) × (prompt_chars r ≤ℤ c.budget.max_prompt_chars)
          × (item_count ≤ℤ c.budget.max_events_per_request)
          × (account ≡ charged c r.input.session.session_id now (prompt_chars r) item_count s p)
          × IsGiven r p response)
        ⊎ ((e : AiError) × (account ≡ s.account)
            × (response ≡ build_fallback_response two_decimals text_of r e (status_from_error e)))

    finished-IsAnswered :
        (x : State F W × Result AiError ProviderResponse)
        → ((p : ProviderResponse)
            → x.1 ≡ ok p
            → (prompt_chars r ≤ℤ c.budget.max_prompt_chars)
              × (item_count ≤ℤ c.budget.max_events_per_request)
              × (x.0.account
                  ≡ charged c r.input.session.session_id now (prompt_chars r) item_count s p))
        → ((e : AiError) → x.1 ≡ err e → x.0.account ≡ s.account)
        → IsAnswered (responded r x).0.account (answer two_decimals text_of r (responded r x).1)
    unfolding answer
    finished-IsAnswered (s', ok p) h k =
        let (fits, few, account) = h p refl in inl (p, fits, few, account, answer-IsGiven r p)
    finished-IsAnswered (s', err e) h k = inr (e, k e refl, refl)

    abbrev executed : State F W × Result AiError ProviderResponse
    executed = execute c r.input.session.session_id now (prompt_chars r) item_count s

    fallback_analyze-eq :
        validate_gateway_request r ≡ none
        → fallback_analyze two_decimals text_of (analyze c prompt_chars now) r s
          ≡ ((responded r executed).0, ok (answer two_decimals text_of r (responded r executed).1))
    unfolding fallback_analyze analyze analyze_valid
    fallback_analyze-eq valid =
        ap (λ o. analyze_checked two_decimals text_of (analyze c prompt_chars now) r o s) valid
        ∙ ap
            (λ (y : State F W × Result AiError (GatewayResponse F)).
              (y.0, ok (answer two_decimals text_of r y.1)))
            (ap (λ o. analyze_if c prompt_chars now r o s) valid)

    -- A valid request is always answered. Either the provider has answered within the budget, which is
    -- charged once, and the response is its content, or the fallback where that is empty; or nothing is
    -- charged, and the response is the fallback with the status of the error.
    pub fallback_analyze_lem :
        validate_gateway_request r ≡ none
        → let end = fallback_analyze two_decimals text_of (analyze c prompt_chars now) r s in
          (response : GatewayResponse F) × (end.1 ≡ ok response) × IsAnswered end.0.account response
    fallback_analyze_lem valid =
        let laws = execute_lem c r.input.session.session_id now (prompt_chars r) item_count s in
        subst
          (λ (end : State F W × Result InputError (GatewayResponse F)).
            (response : GatewayResponse F) × (end.1 ≡ ok response)
            × IsAnswered end.0.account response)
          (sym (fallback_analyze-eq valid))
          (
            answer two_decimals text_of r (responded r executed).1,
            refl,
            finished-IsAnswered executed laws.0 laws.1,
          )
