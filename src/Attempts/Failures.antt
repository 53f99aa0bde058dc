-- ===== src/Attempts/Failures.antt =====
-- src/server/task-board/collaborators/verify-attempts.ts: the count of failed starts that the detail of an
-- attempt carries.
use nexus_seventeen.Prelude.{
  ℕ, zero, suc, ◌+◌, ◌-◌, ◌*◌, ◌/◌, ◌%◌, ◌<◌, ◌≤◌, ◌≡◌, refl, ap, ◌∙◌, Bool, true, false, ◌&&◌, [],
  ◌∷◌, ◌++◌, Option, none, some, Text, lit, leb, ltb, nat_eq, starts_with, drop, length,
  if◌then◌else◌, arith, Bool-cases, inl, inr, subst, sym,
}

-- A number in a template literal.
unfoldable pub decimal_within : ℕ → ℕ → Text
decimal_within zero n = []
decimal_within (suc fuel) n =
    let rest = decimal_within fuel (n / 10) in
    if ltb n 10 then (b'0' + n) ∷ [] else rest ++ (b'0' + n % 10) ∷ []

unfoldable pub decimal : ℕ → Text
unfolding decimal_within
decimal n = decimal_within (suc n) n

abbrev pub failures_head : Text
unfolding lit
failures_head = lit "[machine-verify-start-failures:"

unfoldable pub failures_marker : ℕ → Text
failures_marker n = failures_head ++ decimal n ++ b']' ∷ []

abbrev is_digit : ℕ → Bool
is_digit c = leb b'0' c && leb c b'9'

-- The digits at the start of a text as a number, and the text behind them.
unfoldable pub number_of : ℕ → Text → ℕ × Text
number_of n [] = (n, [])
number_of n (c ∷ text) =
    let rest = number_of (n * 10 + (c - b'0')) text in if is_digit c then rest else (n, c ∷ text)

abbrev pub starts_number : Text → Bool
starts_number [] = false
starts_number (c ∷ text) = is_digit c

abbrev pub closes : Text → Bool
closes [] = false
closes (c ∷ text) = nat_eq c b']'

abbrev pub closed_number : Bool → ℕ × Text → Option ℕ
closed_number starts (n, rest) = if starts && closes rest then some n else none

-- `START_FAILURE_MARKER` at the start of a text.
unfoldable pub failures_at : Text → Option ℕ
unfolding starts_with number_of lit
failures_at text =
    if starts_with text failures_head
    then closed_number (starts_number (drop (length failures_head) text))
        (number_of 0 (drop (length failures_head) text))
    else none

-- The first place where it stands.
unfoldable pub find_failures : Text → Option ℕ
unfolding failures_at
find_failures [] = none
find_failures (c ∷ text) = elim (failures_at (c ∷ text)) [
  | some n ↦ some n
  | none ↦ find_failures text
]

abbrev pub max_safe_integer : ℕ
max_safe_integer = 9007199254740991

abbrev pub safe_count : Option ℕ → ℕ
safe_count none = 0
safe_count (some n) = if leb n max_safe_integer then n else 0

-- `startFailureCount`
unfoldable pub start_failure_count : Option Text → ℕ
unfolding find_failures
start_failure_count none = 0
start_failure_count (some detail) = safe_count (find_failures detail)

number_of-digit :
    (n d : ℕ) (text : Text) → d < 10 → number_of n ((b'0' + d) ∷ text) ≡ number_of (n * 10 + d) text
unfolding number_of
number_of-digit n d text h =
    let is : is_digit (b'0' + d) ≡ true = ground arith in
    let value : n * 10 + (b'0' + d - b'0') ≡ n * 10 + d = omega arith in rw (is, value)

append_assoc : (xs ys zs : Text) → (xs ++ ys) ++ zs ≡ xs ++ (ys ++ zs)
append_assoc [] ys zs = refl
append_assoc (x ∷ xs) ys zs = rw (append_assoc xs ys zs)

pub decimal_within-small : (fuel n : ℕ) → n < 10 → decimal_within (suc fuel) n ≡ (b'0' + n) ∷ []
unfolding decimal_within
decimal_within-small fuel n h = ground arith

pub decimal_within-large :
    (fuel n : ℕ)
    → 10 ≤ n
    → decimal_within (suc fuel) n ≡ decimal_within fuel (n / 10) ++ (b'0' + n % 10) ∷ []
unfolding decimal_within
decimal_within-large fuel n h = ground arith

number_of-decimal_within :
    (fuel n : ℕ) (text : Text)
    → n < fuel
    → number_of 0 (decimal_within fuel n ++ text) ≡ number_of n text
number_of-decimal_within zero n text h = elim h [ ]
number_of-decimal_within (suc fuel) n text h = elim (Bool-cases (ltb n 10)) [
  | inl t ↦
      let small : n < 10 = ground (arith, t) in
      let value : 0 * 10 + n ≡ n = omega arith in
      rw (decimal_within-small fuel n small)
        (number_of-digit 0 n text small ∙ ap (λ k. number_of k text) value)
  | inr f ↦
      let large : 10 ≤ n = ground (arith, f) in
      let digit : n % 10 < 10 = omega arith in
      let value : n / 10 * 10 + n % 10 ≡ n = omega arith in
      let less : n / 10 < fuel = omega arith in
      rw (decimal_within-large fuel n large) (
        rw (append_assoc (decimal_within fuel (n / 10)) ((b'0' + n % 10) ∷ []) text) (
          number_of-decimal_within fuel (n / 10) ((b'0' + n % 10) ∷ text) less
          ∙ number_of-digit (n / 10) (n % 10) text digit
          ∙ ap (λ k. number_of k text) value))
]

starts_number-append : (xs ys : Text) → starts_number xs ≡ true → starts_number (xs ++ ys) ≡ true
starts_number-append [] ys h = cc
starts_number-append (x ∷ xs) ys h = h

starts_number-decimal_within :
    (fuel n : ℕ) → n < fuel → starts_number (decimal_within fuel n) ≡ true
starts_number-decimal_within zero n h = elim h [ ]
starts_number-decimal_within (suc fuel) n h = elim (Bool-cases (ltb n 10)) [
  | inl t ↦ rw (decimal_within-small fuel n (ground (arith, t))) (ground (arith, t))
  | inr f ↦ rw (decimal_within-large fuel n (ground (arith, f))) (
      starts_number-append (decimal_within fuel (n / 10)) _
        (starts_number-decimal_within fuel (n / 10) (ground (arith, f))))
]

number_of-decimal :
    (n : ℕ) (rest : Text) → number_of 0 (decimal n ++ b']' ∷ rest) ≡ (n, b']' ∷ rest)
unfolding decimal
number_of-decimal n rest =
    let stop : number_of n (b']' ∷ rest) ≡ (n, b']' ∷ rest) = unfold number_of in refl in
    number_of-decimal_within (suc n) n (b']' ∷ rest) (omega arith) ∙ stop

starts_number-decimal : (n : ℕ) (rest : Text) → starts_number (decimal n ++ rest) ≡ true
unfolding decimal
starts_number-decimal n rest =
    starts_number-append (decimal_within (suc n) n) rest
      (starts_number-decimal_within (suc n) n (omega arith))

failures_at-decimal :
    (n : ℕ) (rest : Text) → failures_at (failures_head ++ (decimal n ++ b']' ∷ rest)) ≡ some n
unfolding failures_at lit
failures_at-decimal n rest =
    rw (starts_number-decimal n (b']' ∷ rest), number_of-decimal n rest) refl

find_failures-some : (text : Text) {n : ℕ} → failures_at text ≡ some n → find_failures text ≡ some n
unfolding find_failures failures_at lit
find_failures-some [] h = cc
find_failures-some (c ∷ text) h = rw (find_failures, h) refl

-- The count in the detail of a failed start is read back from it, whatever the error says.
pub start_failure_count-failures_marker :
    (n : ℕ) (error : Text)
    → n ≤ max_safe_integer
    → start_failure_count (some (failures_marker n ++ error)) ≡ n
unfolding start_failure_count failures_marker
start_failure_count-failures_marker n error h =
    let text : failures_marker n ++ error ≡ failures_head ++ (decimal n ++ b']' ∷ error) =
      append_assoc failures_head (decimal n ++ b']' ∷ []) error
      ∙ ap (λ t. failures_head ++ t) (append_assoc (decimal n) (b']' ∷ []) error) in
    let found : find_failures (failures_marker n ++ error) ≡ some n =
      subst (λ t. find_failures t ≡ some n) (sym text)
        (find_failures-some (failures_head ++ (decimal n ++ b']' ∷ error))
          (failures_at-decimal n error)) in
    let safe : leb n max_safe_integer ≡ true = ground (arith, h) in
    ap safe_count found ∙ rw safe refl
