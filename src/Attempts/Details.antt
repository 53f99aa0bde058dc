-- ===== src/Attempts/Details.antt =====
-- src/server/task-board/collaborators/verify-attempts.ts: the count of failed starts in the detail that is stored, which
-- is scrubbed and cut.
use nexus_seventeen.Prelude.{
  ℕ, zero, suc, ◌+◌, ◌*◌, ◌/◌, ◌%◌, ◌<◌, ◌≤◌, ◌≡◌, refl, ap, ◌∙◌, true, [], ◌∷◌, ◌++◌, some, Text,
  lit, all, ltb, length, length-append, arith, Bool-cases, inl, inr,
}
use nexus_seventeen.Redact.Kept.{Keeps, is_visible, redact_for_persistence-Keeps}
use nexus_seventeen.Attempts.Failures.{
  decimal_within, decimal, failures_head, failures_marker, start_failure_count, max_safe_integer,
  decimal_within-small, decimal_within-large, start_failure_count-failures_marker,
}
use nexus_seventeen.Attempts.Writes.{SettleInTransaction, start_detail}

-- No credential pattern matches in the marker, or across its end: what is behind it may change.
abbrev pub KeepsMarker : (Text → Text) → ℕ → Type 0
KeepsMarker redact n =
    (text : Text) → Keeps (failures_marker n) (redact (failures_marker n ++ text))

all-append :
    (xs ys : Text)
    → all is_visible xs ≡ true
    → all is_visible ys ≡ true
    → all is_visible (xs ++ ys) ≡ true
unfolding all
all-append [] ys h k = k
all-append (x ∷ xs) ys h k = ground (arith, h, all-append xs ys, k)

digit-visible : (d : ℕ) → d < 10 → all is_visible ((b'0' + d) ∷ []) ≡ true
unfolding all
digit-visible d h = ground (arith, h)

decimal_within-visible : (fuel n : ℕ) → n < fuel → all is_visible (decimal_within fuel n) ≡ true
decimal_within-visible zero n h = elim h [ ]
decimal_within-visible (suc fuel) n h = elim (Bool-cases (ltb n 10)) [
  | inl t ↦
      let small : n < 10 = ground (arith, t) in
      rw (decimal_within-small fuel n small) (digit-visible n small)
  | inr f ↦
      let large : 10 ≤ n = ground (arith, f) in
      rw (decimal_within-large fuel n large) (
        all-append (decimal_within fuel (n / 10)) ((b'0' + n % 10) ∷ [])
          (decimal_within-visible fuel (n / 10) (omega (arith, large, h)))
          (digit-visible (n % 10) (omega arith)))
]

abbrev power : ℕ → ℕ
power zero = 1
power (suc k) = 10 * power k

decimal_within-length :
    (k fuel n : ℕ) → n < fuel → n < power k → length (decimal_within fuel n) ≤ suc k
decimal_within-length k zero n h below = elim h [ ]
decimal_within-length zero (suc fuel) n h below =
    rw (decimal_within-small fuel n (omega (arith, below))) (omega arith)
decimal_within-length (suc k) (suc fuel) n h below = elim (Bool-cases (ltb n 10)) [
  | inl t ↦ rw (decimal_within-small fuel n (ground (arith, t))) (omega arith)
  | inr f ↦
      let large : 10 ≤ n = ground (arith, f) in
      let shorter =
        decimal_within-length k fuel (n / 10) (omega (arith, large, h)) (omega (arith, below)) in
      rw (decimal_within-large fuel n large) (
        omega (arith, shorter, length-append (decimal_within fuel (n / 10)) ((b'0' + n % 10) ∷ [])))
]

failures_marker-visible : (n : ℕ) → all is_visible (failures_marker n) ≡ true
unfolding failures_marker decimal all lit
failures_marker-visible n =
    all-append failures_head (decimal n ++ b']' ∷ []) refl
      (all-append (decimal n) (b']' ∷ []) (decimal_within-visible (suc n) n (omega arith)) refl)

length-failures_marker : (n : ℕ) → n ≤ max_safe_integer → length (failures_marker n) + 25 ≤ 4000
unfolding failures_marker decimal lit
length-failures_marker n h =
    let digits : length (decimal_within (suc n) n) ≤ 17 =
      decimal_within-length 16 (suc n) n (omega arith) (omega (arith, h)) in
    omega (
      arith,
      digits,
      length-append failures_head (decimal n ++ b']' ∷ []),
      length-append (decimal n) (b']' ∷ []),
    )

-- The number of failed starts is read back from the detail that a failed start stores, whatever the error says,
-- for counts that a number holds exactly, where the credential patterns leave the marker at the start of a text
-- alone.
pub start_failure_count-start_detail :
    (redact : Text → Text) (settle : SettleInTransaction) (n : ℕ) (error : Text)
    → n ≤ max_safe_integer
    → KeepsMarker redact n
    → start_failure_count (some (start_detail redact settle n error)) ≡ n
start_failure_count-start_detail redact settle n error h keeps =
    let (rest, e) =
      redact_for_persistence-Keeps redact (failures_marker n) (32 ∷ error) 4000
        (length-failures_marker n h) (failures_marker-visible n) keeps in
    ap (λ t. start_failure_count (some t)) e ∙ start_failure_count-failures_marker n rest h
