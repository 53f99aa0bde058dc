-- ===== src/Retry/Bounded.antt =====
-- How often `withRetry` calls its operation, what it waits for, and what it returns.
use nexus_seventeen.Prelude.{
  ℕ, zero, suc, ◌+◌, ◌-◌, ◌≤◌, ◌<◌, ◌≡◌, ◌⊎◌, refl, sym, subst, ◌∙◌, inl, inr, true, false, List,
  [], ◌∷◌, ◌++◌, arith, take, drop, nat_eq, nat_eq_iff, Result, ok, err, ap, ok-injective,
  err_is_not_ok, Result-cases, Bool-cases,
}
use nexus_seventeen.Retry.{
  OperationError, RetryOptions, operation_failed, Run, once, after_failure, retry_from,
  is_retryable, are_invalid, with_retry,
}

module _ {T : Type 0} (operation : ℕ → Result OperationError T) (options : RetryOptions) where
  -- A run that started at an attempt with so many left: it calls the operation at least once and not
  -- more often than that, every call but the last failed with a retryable error, the last one decides
  -- the result, and before each further call the run slept for the next delay.
  pub record IsRun (attempt left : ℕ) (run : Run T) : Type 0 where
    pub some_call : 0 < run.calls
    pub bounded : run.calls ≤ left
    pub slept_in_order :
        (n : ℕ) → run.calls ≡ suc n → run.slept ≡ take n (drop attempt options.delays)
    pub failed_before :
        (n : ℕ)
        → attempt ≤ n
        → n + 1 < attempt + run.calls
        → (e : OperationError) × (operation n ≡ err e) × (is_retryable e ≡ true)
    pub value_returned :
        (n : ℕ) (v : T) → n + 1 ≡ attempt + run.calls → operation n ≡ ok v → run.result ≡ ok v
    pub error_thrown :
        (n : ℕ) (e : OperationError)
        → n + 1 ≡ attempt + run.calls
        → operation n ≡ err e
        → (run.result ≡ err (operation_failed e)) × ((is_retryable e ≡ false) ⊎ (run.calls ≡ left))

take-drop :
    {A : Type 0} (m n : ℕ) (xs : List A)
    → take 1 (drop m xs) ++ take n (drop (suc m) xs) ≡ take (suc n) (drop m xs)
take-drop zero zero [] = refl
take-drop zero (suc n) [] = refl
take-drop zero n (x ∷ xs) = refl
take-drop (suc m) zero [] = refl
take-drop (suc m) (suc n) [] = refl
take-drop (suc m) n (x ∷ xs) = take-drop m n xs

module _ {T : Type 0} (operation : ℕ → Result OperationError T) (options : RetryOptions) where
  at_first : (attempt n : ℕ) → n + 1 ≡ attempt + 1 → n ≡ attempt
  at_first attempt n e = omega arith

  once_value :
      (attempt left : ℕ) (value : T)
      → operation attempt ≡ ok value
      → IsRun operation options attempt (suc left) (once operation options (ok value))
  once_value attempt left value told = record {
    some_call = omega arith;
    bounded = omega arith;
    slept_in_order = λ n e. let none_left : n ≡ 0 = omega arith in rw none_left refl;
    failed_before = λ n low high. ground (arith, low, high);
    value_returned = λ n v e h.
        let here : operation attempt ≡ ok v =
          subst (λ k. operation k ≡ ok v) (at_first attempt n e) h in
        let same : value ≡ v = ok-injective (sym told ∙ here) in ap ok same;
    error_thrown = λ n d e h.
        let here : operation attempt ≡ err d =
          subst (λ k. operation k ≡ err d) (at_first attempt n e) h in
        err_is_not_ok (sym here ∙ told);
  }

  once_error :
      (attempt left : ℕ) (error : OperationError)
      → operation attempt ≡ err error
      → ((is_retryable error ≡ false) ⊎ (1 ≡ suc left))
      → IsRun operation options attempt
          (suc left)
          (once operation options (err (operation_failed error)))
  once_error attempt left error told last = record {
    some_call = omega arith;
    bounded = omega arith;
    slept_in_order = λ n e. let none_left : n ≡ 0 = omega arith in rw none_left refl;
    failed_before = λ n low high. ground (arith, low, high);
    value_returned = λ n v e h.
        let here : operation attempt ≡ ok v =
          subst (λ k. operation k ≡ ok v) (at_first attempt n e) h in
        err_is_not_ok (sym told ∙ here);
    error_thrown = λ n d e h.
        let here : operation attempt ≡ err d =
          subst (λ k. operation k ≡ err d) (at_first attempt n e) h in
        let both : ◌≡◌ {A = Result OperationError T} (err error) (err d) = sym told ∙ here in
        let same : error ≡ d = cc in
        (
          ap (λ x. err (operation_failed x)) same,
          subst (λ x. (is_retryable x ≡ false) ⊎ (1 ≡ suc left)) same last,
        );
  }

  later_left : (m left : ℕ) {A : Type 0} → A ⊎ (m ≡ left) → A ⊎ (m + 1 ≡ suc left)
  later_left m left (inl a) = inl a
  later_left m left (inr e) = inr (omega arith)

  slept_again :
      (attempt left : ℕ) (rest : Run T) (n : ℕ)
      → IsRun operation options (suc attempt) left rest
      → rest.calls + 1 ≡ suc n
      → take 1 (drop attempt options.delays) ++ rest.slept ≡ take n (drop attempt options.delays)
  slept_again attempt left rest zero run e = let c = run.some_call in ground (arith, c)
  slept_again attempt left rest (suc n) run e =
      ap (λ ds. take 1 (drop attempt options.delays) ++ ds) (run.slept_in_order n (omega arith))
      ∙ take-drop attempt n options.delays

  again :
      (attempt left : ℕ) (error : OperationError) (rest : Run T)
      → operation attempt ≡ err error
      → is_retryable error ≡ true
      → IsRun operation options (suc attempt) left rest
      → IsRun operation options attempt (suc left) (after_failure operation options attempt rest)
  again attempt left error rest told retry run = record {
    some_call = omega arith;
    bounded = let b = run.bounded in omega (arith, b);
    slept_in_order = λ n e. slept_again attempt left rest n run e;
    failed_before = λ n low high. elim (Bool-cases (nat_eq n attempt)) [
      | inl e ↦ (
        error,
        subst (λ k. operation k ≡ err error) (sym ((nat_eq_iff n attempt).0 e)) told,
        retry,
      )
      | inr e ↦
          run.failed_before n (ground (arith, low, nat_eq_iff n attempt)) (omega (arith, high))
    ];
    value_returned = λ n v e h. run.value_returned n v (omega arith) h;
    error_thrown = λ n d e h.
        let (r, w) = run.error_thrown n d (omega arith) h in (r, later_left rest.calls left w);
  }

  retry_from-IsRun :
      (left attempt : ℕ)
      → IsRun operation options attempt (suc left) (retry_from operation options (suc left) attempt)
  unfolding retry_from
  retry_from-IsRun zero attempt = elim (Result-cases (operation attempt)) [
    | inl (value, told) ↦ rw (retry_from, told) (once_value attempt zero value told)
    | inr (error, told) ↦ elim (Bool-cases (is_retryable error)) [
      | inr never ↦ rw (retry_from, told, never) (once_error attempt zero error told (inl never))
      | inl retry ↦ rw (retry_from, told, retry) (once_error attempt zero error told (inr refl))
    ]
  ]
  retry_from-IsRun (suc left) attempt = elim (Result-cases (operation attempt)) [
    | inl (value, told) ↦ rw (retry_from, told) (once_value attempt (suc left) value told)
    | inr (error, told) ↦ elim (Bool-cases (is_retryable error)) [
      | inr never ↦
          rw (retry_from, told, never) (once_error attempt (suc left) error told (inl never))
      | inl retry ↦
          rw (retry_from, told, retry)
            (again attempt (suc left) error (retry_from operation options (suc left) (suc attempt))
              told retry (retry_from-IsRun left (suc attempt)))
    ]
  ]

  attempts-suc : are_invalid options ≡ false → (n : ℕ) × (options.attempts ≡ suc n)
  unfolding are_invalid
  attempts-suc valid = (options.attempts - 1, ground (arith, valid))

  -- With valid options the operation is called at least once and at most as often as the options
  -- say; every call but the last failed with a retryable error, the value or the error of the last
  -- call is what `withRetry` returns or throws, and it slept for the options' delays in their order.
  pub with_retry-IsRun :
      are_invalid options ≡ false
      → IsRun operation options 0 options.attempts (with_retry operation options)
  unfolding with_retry
  with_retry-IsRun valid =
      let (n, e) = attempts-suc valid in
      rw (with_retry, valid)
        (subst (λ k. IsRun operation options 0 k (retry_from operation options k 0)) (sym e)
          (retry_from-IsRun n 0))
