-- ===== src/Ai/Controller/Charges.antt =====
-- What a request is charged.
use mathlib.Core.Option
use telemetry_one_backend.Base.{
  String, ◌≡◌, refl, inl, inr, Option, none, arith, string_eq, ℤ, ltb_ℤ, ◌≤ℤ◌, Bool-cases,
  Option-cases,
}
use telemetry_one_backend.Base.Float.{Float64}
use telemetry_one_backend.Base.Result.{ok, err}
use telemetry_one_backend.Ai.Error.{AiError, ProviderResponse}
use telemetry_one_backend.Ai.Budget.{check_prompt_chars, check_events, allow}
use telemetry_one_backend.Ai.Retry.{execute_with_retries}
use telemetry_one_backend.Ai.Retry.Attempts.{Answer-cases}
use telemetry_one_backend.Ai.Controller.{
  Controller, State, UsageAccount, record_usage, estimate_cost, check_rate, pre_check,
  record_result, execute,
}

module _ {F : Type 0} ⦃fl : Float64 F⦄ {W : Type 0} (c : Controller F W) (session_id : String)
    (now chars count : ℤ) (s : State F W) where
  account-check_rate : (check_rate c session_id now s).0.account ≡ s.account
  unfolding check_rate
  account-check_rate = elim (Option-cases s.rate_limiter) [
    | inl free ↦ rw (free, check_rate) refl
    | inr (rl, limited) ↦ elim (Bool-cases (allow rl session_id now).1) [
      | inl allowed ↦ rw (limited, allowed, check_rate) refl
      | inr stopped ↦ rw (limited, stopped, check_rate) refl
    ]
  ]

  -- The checks leave the account as it is, and pass a request within the budget only.
  account-pre_check : (pre_check c session_id now chars count s).0.account ≡ s.account
  unfolding pre_check
  account-pre_check = elim (Option-cases (check_prompt_chars c.budget chars)) [
    | inr (e, long) ↦ rw (long, pre_check) refl
    | inl fits ↦ elim (Option-cases (check_events c.budget count)) [
      | inr (e, many) ↦ rw (fits, many, pre_check) refl
      | inl few ↦ rw (fits, few, pre_check) account-check_rate
    ]
  ]

  pre_check-eq-none :
      (pre_check c session_id now chars count s).1 ≡ none
      → (chars ≤ℤ c.budget.max_prompt_chars) × (count ≤ℤ c.budget.max_events_per_request)
  unfolding pre_check check_prompt_chars check_events
  pre_check-eq-none h = elim (Bool-cases (ltb_ℤ c.budget.max_prompt_chars chars)) [
    | inl long ↦ cc (rw (long, pre_check) at h)
    | inr fits ↦ elim (Bool-cases (ltb_ℤ c.budget.max_events_per_request count)) [
      | inl many ↦ cc (rw (fits, many, pre_check) at h)
      | inr few ↦ (ground arith, ground arith)
    ]
  ]

  -- What is charged for a response.
  abbrev pub charged : ProviderResponse → Option (UsageAccount F)
  charged response =
      let prompt = response.usage.prompt_tokens in
      let completion = response.usage.completion_tokens in
      Option.map
        (λ a.
          record_usage a session_id prompt completion
            (estimate_cost c.cost_estimator prompt completion))
        s.account

  -- A request that `Execute` answers is within the budget, and the account is charged once, with the
  -- tokens of the response, however many attempts it took; a request that fails is not charged.
  pub execute_lem :
      let end = execute c session_id now chars count s in
      ((response : ProviderResponse)
        → end.1 ≡ ok response
        → (chars ≤ℤ c.budget.max_prompt_chars)
          × (count ≤ℤ c.budget.max_events_per_request)
          × (end.0.account ≡ charged response))
      × ((e : AiError) → end.1 ≡ err e → end.0.account ≡ s.account)
  unfolding execute record_result
  execute_lem =
      let checked = pre_check c session_id now chars count s in
      let kept = account-pre_check in
      elim (Option-cases checked.1) [
        | inr (e, stopped) ↦ rw (stopped, execute) (λ response h. cc, λ e' h. kept)
        | inl passed ↦
            let (fits, few) = pre_check-eq-none passed in
            elim (Answer-cases (execute_with_retries c.outside c.retry checked.0.world).1) [
              | inl (response, good) ↦
                  rw (passed, good, execute, record_result)
                    (
                      λ r h. let same : r ≡ response = cc h in rw (same, kept) (fits, few, refl),
                      λ e h. cc,
                    )
              | inr (e, bad) ↦
                  rw (passed, bad, execute, record_result) (λ response h. cc, λ e' h. kept)
            ]
      ]
