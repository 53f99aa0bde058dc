-- ===== src/Retry.antt =====
-- src/server/docs-publish/retry.ts: `withRetry` with its options, errors and delays. The operation is
-- a parameter, a function of the number of earlier attempts, and `sleeper` notes what it waits for.
pub mod Bounded
mod Tests
use nexus_seventeen.Prelude.{
  ℕ, zero, suc, ◌+◌, ◌-◌, Bool, true, false, not, ◌&&◌, ◌||◌, List, [], ◌∷◌, ◌++◌, Option, none,
  some, length, take, drop, any, nat_eq, leb, if◌then◌else◌, Result, ok, err,
}

-- The errors that `retryable` tells apart.
pub data OperationError : Type 0 where
  type_error abort_error other_error : OperationError
  outline_http_error : ℕ → OperationError

pub record RetryOptions : Type 0 where
  pub attempts : ℕ
  pub delays : List ℕ

pub data RetryError : Type 0 where
  options_invalid attempts_exhausted : RetryError
  operation_failed : OperationError → RetryError

abbrev pub outline_retry_options : RetryOptions
outline_retry_options = record { attempts = 3; delays = 1000 ∷ 8000 ∷ [] }

abbrev pub max_safe_integer : ℕ
max_safe_integer = 9007199254740991

-- `checkedOptions`, true when it throws; without attempts the first test holds already.
unfoldable pub are_invalid : RetryOptions → Bool
unfolding any
are_invalid options =
    not (leb options.attempts max_safe_integer)
    || nat_eq options.attempts 0
    || not (nat_eq (length options.delays) (options.attempts - 1))
    || any (λ delay. not (leb delay max_safe_integer)) options.delays

unfoldable pub is_retryable : OperationError → Bool
is_retryable type_error = true
is_retryable abort_error = true
is_retryable (outline_http_error status) = nat_eq status 429 || leb 500 status && leb status 599
is_retryable other_error = false

-- What a run returns, how often it called the operation, and what it slept.
pub record Run (T : Type 0) : Type 0 where
  pub result : Result RetryError T
  pub calls : ℕ
  pub slept : List ℕ

-- `attempt === options.attempts - 1`, by the number of attempts after this one.
abbrev pub is_last : ℕ → Bool
is_last zero = true
is_last (suc left) = false

module _ {T : Type 0} (operation : ℕ → Result OperationError T) (options : RetryOptions) where
  abbrev pub once : Result RetryError T → Run T
  once result = record { result = result; calls = 1; slept = [] }

  -- `delays[attempt]`, which valid options have for every attempt but the last.
  abbrev pub after_failure : ℕ → Run T → Run T
  after_failure attempt run = record {
    result = run.result;
    calls = run.calls + 1;
    slept = take 1 (drop attempt options.delays) ++ run.slept;
  }

  -- The loop from `attempt` on, with the number of attempts that are left.
  unfoldable pub retry_from : ℕ → ℕ → Run T
  unfolding is_retryable
  retry_from zero attempt = record { result = err attempts_exhausted; calls = 0; slept = [] }
  retry_from (suc left) attempt =
      let rest = retry_from left (suc attempt) in
      elim (operation attempt) [
        | ok value ↦ once (ok value)
        | err error ↦
            if not (is_retryable error) || is_last left
            then once (err (operation_failed error))
            else after_failure attempt rest
      ]

  -- `withRetry`
  unfoldable pub with_retry : Run T
  unfolding retry_from are_invalid
  with_retry =
      if are_invalid options
      then record { result = err options_invalid; calls = 0; slept = [] }
      else retry_from options.attempts 0
