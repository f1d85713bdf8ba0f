-- ===== src/Client/Retry.antt =====
-- `request_with_retry` of rust/haiai/src/client.rs. The closure that sends a request is a function
-- from the number of the call to its outcome, and a run lists the delays slept in milliseconds.
pub mod Attempts
use haiai.Prelude.{
  ℕ, zero, suc, ◌+◌, ◌*◌, ◌%◌, ◌^◌, max, Bool, true, false, List, [], ◌∷◌, leb, ◌==◌, not, any,
  if◌then◌else◌,
}
use haiai.Error.{Result, ok, err}

abbrev pub retryable_status_codes : List ℕ
retryable_status_codes = 429 ∷ 500 ∷ 502 ∷ 503 ∷ 504 ∷ []

abbrev pub default_max_retries : ℕ
default_max_retries = 3

-- `options.max_retries.max(1)` of `HaiClient::new`
abbrev pub client_max_retries : ℕ → ℕ
client_max_retries n = max n 1

-- `100 * (1u64 << shift)` as an optimised build computes it: the shift is taken modulo 64, and the
-- product modulo 2^64.
unfoldable pub backoff_millis : ℕ → ℕ
backoff_millis shift = 100 * 2 ^ (shift % 64) % 2 ^ 64

-- How a call of the retry loop ends: it returns, or it reaches the `unreachable!`.
pub data Ending {ℓ} (R : Type ℓ) : Type ℓ where
  returned : Result R → Ending R
  panicked : Ending R

pub record Run {ℓ} (R : Type ℓ) : Type ℓ where
  pub ending : Ending R
  pub calls : ℕ
  pub delays : List ℕ

abbrev pub is_retryable : ℕ → Bool
is_retryable status = any (λ code. code == status) retryable_status_codes

module _ {ℓ} {R : Type ℓ} (status : R → ℕ) (make_request : ℕ → Result R) (max_retries : ℕ) where
  abbrev stop : ℕ → Result R → Run R
  stop attempt result = record { ending = returned result; calls = attempt + 1; delays = [] }

  -- The response of one attempt, and the rest of the loop.
  after_response : ℕ → R → Run R → Run R
  after_response attempt response rest =
      if not (is_retryable (status response))
      then stop attempt (ok response)
      else if leb max_retries (attempt + 1)
      then stop attempt (ok response)
      else record rest { delays = backoff_millis attempt ∷ rest.delays }

  -- `for attempt in 0..self.max_retries`, with the number of rounds that are left
  attempts : ℕ → ℕ → Run R
  attempts zero attempt = record { ending = panicked; calls = attempt; delays = [] }
  attempts (suc left) attempt =
      let rest = attempts left (attempt + 1) in
      elim (make_request attempt) [
        | ok response ↦ after_response attempt response rest
        | err e ↦ stop attempt (err e)
      ]

  unfoldable pub request_with_retry : Run R
  unfolding attempts after_response
  request_with_retry = attempts max_retries 0
