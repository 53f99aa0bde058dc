-- ===== src/Retry/Tests.antt =====
-- A concrete run of `withRetry` of src/server/docs-publish/retry.ts: two failures, then a value.
use nexus_seventeen.Prelude.{ℕ, zero, suc, ◌≡◌, refl, false, [], ◌∷◌, any, Result, ok, err}
use nexus_seventeen.Retry.{
  OperationError, type_error, outline_http_error, outline_retry_options, are_invalid, with_retry,
}
use nexus_seventeen.Retry.Bounded.{IsRun, with_retry-IsRun}

abbrev operation : ℕ → Result OperationError ℕ
operation zero = err type_error
operation (suc zero) = err (outline_http_error 503)
operation (suc (suc n)) = ok 42

options_valid : are_invalid outline_retry_options ≡ false
unfolding are_invalid any
options_valid = refl

third_succeeds :
    with_retry operation outline_retry_options
    ≡ record { result = ok 42; calls = 3; slept = 1000 ∷ 8000 ∷ [] }
unfolding with_retry
third_succeeds = refl

with_retry-IsRun_example :
    IsRun operation outline_retry_options 0 3 (with_retry operation outline_retry_options)
with_retry-IsRun_example = with_retry-IsRun operation outline_retry_options options_valid
