-- ===== src/Ai/Retry/Attempts.antt =====
-- Which calls `ExecuteWithRetries` makes, and what it returns for them.
use telemetry_one_backend.Base.{
  ℕ, zero, suc, ◌+◌, ◌≤◌, ◌<◌, ◌≡◌, refl, ap, ◌∙◌, ◌⊎◌, inl, inr, true, false, Option, none, some,
  List, [], ◌∷◌, arith, pos, leb_ℤ, length, All, Bool-cases, Option-cases,
}
use telemetry_one_backend.Base.Result.{Result, ok, err}
use telemetry_one_backend.Ai.Error.{AiError, ProviderResponse}
use telemetry_one_backend.Ai.Retry.{
  RetryPolicy, World, is_retryable, retry_delay, sleep_before_retry, before_attempt, note_retry,
  exhausted, retry_loop, attempt_limit, execute_with_retries,
}

abbrev pub Answer : Type 0
Answer = Result AiError ProviderResponse

-- The same world with a log of the answers of its calls, the last one first.
abbrev pub logged : {W : Type 0} → World W → World (W × List Answer)
logged o = record {
  call = λ s. let answer = o.call s.0 in ((answer.0, answer.1 ∷ s.1), answer.1);
  context_error = λ s. o.context_error s.0;
  sleep = λ delay s. let slept = o.sleep delay s.0 in ((slept.0, s.1), slept.1);
  retry_hook = λ n e s. (o.retry_hook n e s.0, s.1);
}

abbrev pub IsRetried : Answer → Type 0
IsRetried (ok response) = ⊥
IsRetried (err e) = is_retryable e ≡ true

-- What is returned when the log is `last ∷ earlier`, of at most `limit` answers.
pub data Outcome (limit : ℕ) (earlier : List Answer) : Answer → Answer → Type 0 where
  answered : (response : ProviderResponse) → Outcome limit earlier (ok response) (ok response)
  refused : (e : AiError) → is_retryable e ≡ false → Outcome limit earlier (err e) (err e)
  gave_up :
      (e : AiError)
      → is_retryable e ≡ true
      → suc (length earlier) ≡ limit
      → Outcome limit earlier (err e) (err (exhausted (some e)))
  interrupted :
      (e stop : AiError)
      → is_retryable e ≡ true
      → suc (length earlier) < limit
      → Outcome limit earlier (err e) (err stop)

pub record Attempts (limit : ℕ) (log : List Answer) (result : Answer) : Type 0 where
  pub last : Answer
  pub earlier : List Answer
  pub calls : log ≡ last ∷ earlier
  pub bounded : suc (length earlier) ≤ limit
  pub retried : All IsRetried earlier
  pub outcome : Outcome limit earlier last result

-- The answers so far and the last error.
data Prior : List Answer → Option AiError → Type 0 where
  first : Prior [] none
  again :
      {e : AiError} {earlier : List Answer}
      → is_retryable e ≡ true
      → All IsRetried earlier
      → Prior (err e ∷ earlier) (some e)

Prior-IsRetried : {log : List Answer} {last : Option AiError} → Prior log last → All IsRetried log
Prior-IsRetried first = tt
Prior-IsRetried (again r rest) = (r, rest)

pub Answer-cases :
    (a : Answer)
    → ((response : ProviderResponse) × (a ≡ ok response)) ⊎ ((e : AiError) × (a ≡ err e))
Answer-cases (ok response) = inl (response, refl)
Answer-cases (err e) = inr (e, refl)

-- No attempt is left.
Prior-exhausted :
    {log : List Answer} {last : Option AiError} (limit : ℕ)
    → Prior log last
    → limit ≡ length log
    → 1 ≤ limit
    → Attempts limit log (err (exhausted last))
Prior-exhausted limit first count some_call = absurd (omega arith)
Prior-exhausted limit (again {e = e} {earlier = earlier} r rest) count some_call = record {
  last = err e;
  earlier = earlier;
  calls = refl;
  bounded = omega arith;
  retried = rest;
  outcome = gave_up e r (omega arith);
}

-- The context stops the wait before the attempt number `n`.
Prior-interrupted :
    {log : List Answer} {last : Option AiError} (n left : ℕ) (stop : AiError)
    → Prior log last
    → n ≡ length log
    → 1 ≤ n
    → Attempts (n + suc left) log (err stop)
Prior-interrupted n left stop first count some_call = absurd (omega arith)
Prior-interrupted n left stop (again {e = e} {earlier = earlier} r rest) count some_call = record {
  last = err e;
  earlier = earlier;
  calls = refl;
  bounded = omega arith;
  retried = rest;
  outcome = interrupted e stop r (omega arith);
}

module _ {W : Type 0} (o : World W) (p : RetryPolicy) where
  -- Getting ready for an attempt makes no call, and neither does the hook.
  log-before_attempt :
      (n : ℕ) (last : Option AiError) (s : W × List Answer)
      → (before_attempt (logged o) p n last s).0.1 ≡ s.1
  unfolding before_attempt sleep_before_retry
  log-before_attempt zero last s = refl
  log-before_attempt (suc n) last s = elim (Option-cases (o.context_error s.0)) [
    | inr (e, stopped) ↦ rw (stopped, before_attempt) refl
    | inl live ↦ elim (Bool-cases (leb_ℤ (retry_delay p (suc n) last) (pos 0))) [
      | inl none_needed ↦ rw (live, none_needed, before_attempt, sleep_before_retry) refl
      | inr wait ↦ rw (live, wait, before_attempt, sleep_before_retry) refl
    ]
  ]

  log-note_retry :
      (n : ℕ) (e : AiError) (s : W × List Answer) → (note_retry (logged o) p n e s).1 ≡ s.1
  unfolding note_retry
  log-note_retry zero e s = refl
  log-note_retry (suc n) e s = refl

  later_attempt :
      (n : ℕ) (last : Option AiError) (s : W × List Answer) {stop : AiError}
      → (before_attempt (logged o) p n last s).1 ≡ some stop
      → 1 ≤ n
  unfolding before_attempt
  later_attempt zero last s h = cc h
  later_attempt (suc n) last s h = omega arith

  retry_loop-Attempts :
      (left n : ℕ) (last : Option AiError) (s : W × List Answer) (log : List Answer)
      → s.1 ≡ log
      → Prior log last
      → n ≡ length log
      → 1 ≤ n + left
      → let end = retry_loop (logged o) p left n last s in Attempts (n + left) end.0.1 end.1
  unfolding retry_loop
  retry_loop-Attempts zero n last s log same prior count some_call =
      rw same (Prior-exhausted (n + 0) prior (omega arith) some_call)
  retry_loop-Attempts (suc left) n last s log same prior count some_call =
      let ready = before_attempt (logged o) p n last s in
      let quiet : ready.0.1 ≡ log = log-before_attempt n last s ∙ same in
      elim (Option-cases ready.1) [
        | inr (stop, halted) ↦
            rw (halted, retry_loop, quiet)
              (Prior-interrupted n left stop prior count (later_attempt n last s halted))
        | inl live ↦
            let answer = o.call ready.0.0 in
            elim (Answer-cases answer.1) [
              | inl (response, good) ↦
                  rw (live, good, retry_loop, quiet)
                    (record {
                      last = ok response;
                      earlier = log;
                      calls = ap (λ a. a ∷ log) good;
                      bounded = omega arith;
                      retried = Prior-IsRetried prior;
                      outcome = answered response;
                    })
              | inr (e, bad) ↦
                  let after : W × List Answer = (answer.0, answer.1 ∷ ready.0.1) in
                  let noted = note_retry (logged o) p n e after in
                  let written : noted.1 ≡ err e ∷ log =
                    log-note_retry n e after
                    ∙ ap (λ a. a ∷ ready.0.1) bad
                    ∙ ap (◌∷◌ (err e)) quiet in
                  elim (Bool-cases (is_retryable e)) [
                    | inr final ↦
                        rw (live, bad, final, retry_loop)
                          (record {
                            last = err e;
                            earlier = log;
                            calls = written;
                            bounded = omega arith;
                            retried = Prior-IsRetried prior;
                            outcome = refused e final;
                          })
                    | inl retry ↦
                        let rest =
                          retry_loop-Attempts left (n + 1) (some e) noted (err e ∷ log) written
                            (again retry (Prior-IsRetried prior)) (omega arith) (omega arith) in
                        let more : n + suc left ≡ n + 1 + left = omega arith in
                        rw (live, bad, retry, retry_loop, more) rest
                  ]
            ]
      ]

  -- Whatever the world answers, `ExecuteWithRetries` makes at least one call and at most as many as
  -- the policy allows; all but the last fail with an error that may be retried. It returns the last
  -- answer where that is a response or an error not to be retried, `ErrRetryExhausted` where the
  -- attempts are used up, and else an error that stops the wait.
  pub execute_with_retries-Attempts :
      (w : W)
      → let end = execute_with_retries (logged o) p (w, []) in
        Attempts (attempt_limit p) end.0.1 end.1
  unfolding execute_with_retries attempt_limit
  execute_with_retries-Attempts w =
      let limit : 0 + attempt_limit p ≡ attempt_limit p = omega arith in
      rw limit at
        (retry_loop-Attempts (attempt_limit p) 0 none (w, []) [] refl first refl (ground arith))
