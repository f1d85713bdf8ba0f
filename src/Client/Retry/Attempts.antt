-- ===== src/Client/Retry/Attempts.antt =====
-- What a run of `request_with_retry` calls, returns and waits.
use haiai.Prelude.{
  ℕ, zero, suc, ◌+◌, ◌-◌, ◌≤◌, ◌<◌, ◌≡◌, refl, sym, ap, ◌∙◌, inl, inr, true, List, [], ◌∷◌, arith,
  leb, Bool-cases,
}
use native.Mathlib.Decide.{ℕ_discrete}
use haiai.Error.{Result, ok, err, Result-cases}
use haiai.Client.Retry.{
  Run, returned, is_retryable, attempts, after_response, request_with_retry, backoff_millis,
  client_max_retries,
}

-- The delays before the attempts numbered from `i`, `n` of them.
abbrev pub backoffs : ℕ → ℕ → List ℕ
backoffs i zero = []
backoffs i (suc n) = backoff_millis i ∷ backoffs (i + 1) n

module _ {ℓ} {R : Type ℓ} (status : R → ℕ) (make_request : ℕ → Result R) where
  -- The outcome of a call after which the loop goes on.
  abbrev pub WantsRetry : Result R → Type 0
  WantsRetry (ok response) = is_retryable (status response) ≡ true
  WantsRetry (err e) = ⊥

  -- What is promised of a run from attempt `first` on, with at most `last` calls in all.
  pub record IsRun (first last : ℕ) (run : Run R) : Type ℓ where
    pub result_is : run.ending ≡ returned (make_request (run.calls - 1))
    pub calls_low : first + 1 ≤ run.calls
    pub calls_high : run.calls ≤ last
    pub retried : (i : ℕ) → first ≤ i → i + 1 < run.calls → WantsRetry (make_request i)
    pub final : (WantsRetry (make_request (run.calls - 1)) → run.calls ≡ last)
    pub waited : run.delays ≡ backoffs first (run.calls - 1 - first)

  stops :
      (attempt last : ℕ) (result : Result R) (run : Run R)
      → attempt + 1 ≤ last
      → result ≡ make_request attempt
      → run.ending ≡ returned result
      → run.calls ≡ attempt + 1
      → run.delays ≡ []
      → (WantsRetry result → attempt + 1 ≡ last)
      → IsRun attempt last run
  stops attempt last result run room same ended called slept last_one =
      let back : run.calls - 1 ≡ attempt = omega (arith, called) in
      let none_waited : run.calls - 1 - attempt ≡ 0 = omega (arith, called) in
      record {
        result_is = ended ∙ ap returned same ∙ rw back;
        calls_low = omega (arith, called);
        calls_high = omega (arith, called);
        retried = λ i low high. absurd (omega (arith, called, low, high));
        final = λ h. called ∙ last_one (rw (back, ← same) at h);
        waited = rw none_waited slept;
      }

  goes_on :
      (attempt last : ℕ) (rest : Run R)
      → WantsRetry (make_request attempt)
      → IsRun (attempt + 1) last rest
      → IsRun attempt last (record rest { delays = backoff_millis attempt ∷ rest.delays })
  goes_on attempt last rest wants later = record {
    result_is = later.result_is;
    calls_low = omega (arith, later.calls_low);
    calls_high = later.calls_high;
    retried = λ i low high. elim (ℕ_discrete attempt i) [
      | yes here ↦ rw (← here) wants
      | no away ↦ later.retried i (omega (arith, away, low)) high
    ];
    final = later.final;
    waited =
        let e : rest.calls - 1 - attempt ≡ suc (rest.calls - 1 - (attempt + 1)) =
          omega (arith, later.calls_low) in
        rw (e, later.waited);
  }

  attempts-IsRun :
      (last left attempt : ℕ)
      → 0 < left
      → attempt + left ≡ last
      → IsRun attempt last (attempts status make_request last left attempt)
  unfolding attempts after_response
  attempts-IsRun last zero attempt some_left e = elim some_left [ ]
  attempts-IsRun last (suc left) attempt some_left e = elim (Result-cases (make_request attempt)) [
    | inr (fault, h) ↦
        rw (h, attempts)
          (stops attempt last (err fault) _ (omega (arith, e)) (sym h) refl refl refl
            (λ x. absurd x))
    | inl (response, h) ↦ elim (Bool-cases (is_retryable (status response))) [
      | inl yes_retry ↦ elim (Bool-cases (leb last (attempt + 1))) [
        | inl at_end ↦
            rw (h, attempts)
              (rw (yes_retry, at_end)
                (stops attempt last (ok response) _ (omega (arith, e)) (sym h) refl refl refl
                  (λ x. ground (arith, at_end, e))))
        | inr more ↦
            let rest =
              attempts-IsRun last left (attempt + 1) (ground (arith, more, e)) (omega (arith, e)) in
            rw (h, attempts) (rw (yes_retry, more) (goes_on attempt last _ (rw h yes_retry) rest))
      ]
      | inr no_retry ↦
          rw (h, attempts)
            (rw no_retry (
              stops attempt last (ok response) _ (omega (arith, e)) (sym h) refl refl refl
                (λ x. cc (x, no_retry))))
    ]
  ]

  -- A client that was built with any retry count makes at least one call and never more than its
  -- count, retries exactly the calls answered with a retryable status, returns the outcome of the
  -- last call it made, which is final or the last one allowed, and never reaches `unreachable!`.
  -- Between calls it waits the backoffs of the calls before, in order.
  pub request_with_retry-IsRun :
      (n : ℕ)
      → IsRun 0
          (client_max_retries n)
          (request_with_retry status make_request (client_max_retries n))
  unfolding request_with_retry
  request_with_retry-IsRun n =
      attempts-IsRun (client_max_retries n) (client_max_retries n) 0 (omega arith) (omega arith)
