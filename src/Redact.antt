-- ===== src/Redact.antt =====
-- src/server/shared/redact.ts: the scrub before durable storage. The credential patterns are
-- regular expressions run by the engine, a parameter here; stripping control characters and
-- truncating without cutting a redaction marker are the program's own code.
pub mod Kept
mod Tests
use nexus_seventeen.Prelude.{
  ℕ, zero, suc, ◌+◌, ◌-◌, ◌≤◌, ◌≡◌, refl, Bool, not, ◌||◌, List, [], ◌∷◌, ◌++◌, Option, none, some,
  arith, Text, lit, starts_with, leb, ltb, nat_eq, keep, find, if◌then◌else◌, length, take, drop,
  length-append, length-take-le, trim, is_nil, ◌&&◌, true, false, length-trim-le, Bool-cases, inl,
  inr,
}

abbrev redaction_marker_prefix : Text
unfolding lit
redaction_marker_prefix = lit "[redacted:"

redaction_markers : List Text
redaction_markers =
    lit "[redacted:token]"
    ∷ lit "[redacted:bearer]"
    ∷ lit "[redacted:pem]"
    ∷ lit "[redacted:url-credential]"
    ∷ []

-- `value.lastIndexOf(needle, from)`, `none` for -1.
last_index_of : Text → Text → ℕ → Option ℕ
last_index_of needle value zero = if starts_with value needle then some 0 else none
last_index_of needle value (suc from) =
    let below = last_index_of needle value from in
    if starts_with (drop (suc from) value) needle then some (suc from) else below

-- `REDACTION_MARKER_PATTERN.exec(value)?.[0]`: the marker that the text begins with.
marker_at_start : Text → Option Text
marker_at_start value = find (λ marker. starts_with value marker) redaction_markers

-- The last branches, where a marker crosses the limit.
cut_before_marker : Text → ℕ → ℕ → Text → Text
cut_before_marker value limit marker_start marker =
    if leb (marker_start + length marker) limit
    then take limit value
    else if ltb limit (length marker)
    then take marker_start value
    else take (limit - length marker) value ++ marker

cut_marker : Text → ℕ → ℕ → Option Text → Text
cut_marker value limit marker_start none = take limit value
cut_marker value limit marker_start (some marker) =
    cut_before_marker value limit marker_start marker

cut_found : Text → ℕ → Option ℕ → Text
unfolding marker_at_start cut_marker
cut_found value limit none = take limit value
cut_found value limit (some marker_start) =
    cut_marker value limit marker_start (marker_at_start (drop marker_start value))

unfoldable pub truncate_preserving_redaction_markers : Text → ℕ → Text
unfolding last_index_of cut_found cut_before_marker redaction_markers lit starts_with find
truncate_preserving_redaction_markers value limit =
    if nat_eq limit 0
    then []
    else if leb (length value) limit
    then value
    else cut_found value limit (last_index_of redaction_marker_prefix value (limit - 1))

-- `CONTROL_CHARACTER_PATTERN`
is_control : ℕ → Bool
is_control c = leb c 0x1f || nat_eq c 0x7f

abbrev pub max_safe_error_detail_characters : ℕ
max_safe_error_detail_characters = 2000

-- The `unknown` that `safeErrorDetail` is given.
pub data Thrown : Type 0 where
  error_of : Text → Thrown
  text_of : Text → Thrown
  other : Thrown

abbrev pub source_of : Thrown → Text → Text
source_of (error_of message) fallback = message
source_of (text_of text) fallback = text
source_of other fallback = fallback

module _ (redact_recognized_credentials : Text → Text) where
  abbrev pub redact : (ℕ → Bool) → Text → Option ℕ → Text
  unfolding keep
  redact is_removed value max_length =
      let redacted = redact_recognized_credentials (keep (λ c. not (is_removed c)) value) in
      elim max_length [
        | none ↦ redacted
        | some limit ↦ truncate_preserving_redaction_markers redacted limit
      ]

  unfoldable pub redact_for_persistence : Text → Option ℕ → Text
  unfolding is_control keep
  redact_for_persistence value max_length = redact is_control value max_length

  unfoldable pub redact_multiline_for_persistence : Text → Option ℕ → Text
  unfolding is_control keep
  redact_multiline_for_persistence value max_length =
      redact (λ c. is_control c && not (nat_eq c 10)) value max_length

  unfoldable pub safe_error_detail : Thrown → Text → Text
  unfolding redact_for_persistence trim is_nil
  safe_error_detail error fallback =
      let redacted = trim (
        redact_for_persistence (source_of error fallback)
          (some max_safe_error_detail_characters)) in
      if is_nil redacted
      then trim (redact_for_persistence fallback (some max_safe_error_detail_characters))
      else redacted

last_index_of-le :
    (needle value : Text) (from : ℕ) {i : ℕ} → last_index_of needle value from ≡ some i → i ≤ from
unfolding last_index_of
last_index_of-le needle value zero h = ground arith
last_index_of-le needle value (suc from) {i} h =
    ground (arith, last_index_of-le needle value from {i = i})

cut_before_marker-le :
    (value : Text) (limit start : ℕ) (marker : Text)
    → start ≤ limit
    → length (cut_before_marker value limit start marker) ≤ limit
unfolding cut_before_marker
cut_before_marker-le value limit start marker h = ground (
  arith,
  length-take-le limit value,
  length-take-le start value,
  length-append (take (limit - length marker) value) marker,
  length-take-le (limit - length marker) value,
)

cut_marker-le :
    (value : Text) (limit start : ℕ) (marker : Option Text)
    → start ≤ limit
    → length (cut_marker value limit start marker) ≤ limit
unfolding cut_marker
cut_marker-le value limit start none h = length-take-le limit value
cut_marker-le value limit start (some marker) h = cut_before_marker-le value limit start marker h

cut_found-le :
    (value : Text) (limit : ℕ) (found : Option ℕ)
    → ((i : ℕ) → found ≡ some i → i ≤ limit - 1)
    → length (cut_found value limit found) ≤ limit
unfolding cut_found
cut_found-le value limit none h = length-take-le limit value
cut_found-le value limit (some start) h =
    cut_marker-le value limit start _ (omega (arith, h start refl))

-- The truncation never exceeds the limit, also where it moves a whole marker to the end.
pub length-truncate_preserving_redaction_markers :
    (value : Text) (limit : ℕ) → length (truncate_preserving_redaction_markers value limit) ≤ limit
unfolding truncate_preserving_redaction_markers
length-truncate_preserving_redaction_markers value limit = ground (
  arith,
  cut_found-le value limit (last_index_of redaction_marker_prefix value (limit - 1))
      (λ i e. last_index_of-le redaction_marker_prefix value (limit - 1) {i = i} e),
)

-- A scrub with a limit keeps the limit, whatever the credential patterns do.
pub length-redact_for_persistence :
    (redact : Text → Text) (value : Text) (limit : ℕ)
    → length (redact_for_persistence redact value (some limit)) ≤ limit
unfolding redact_for_persistence
length-redact_for_persistence redact value limit =
    length-truncate_preserving_redaction_markers _ limit

-- The detail of an error has at most 2000 code units, whatever was thrown and whatever the credential
-- patterns do.
pub length-safe_error_detail :
    (redact_recognized_credentials : Text → Text) (error : Thrown) (fallback : Text)
    → length (safe_error_detail redact_recognized_credentials error fallback)
      ≤ max_safe_error_detail_characters
unfolding safe_error_detail
length-safe_error_detail redact_recognized_credentials error fallback =
    let of_source =
      length-redact_for_persistence redact_recognized_credentials (source_of error fallback) 2000 in
    let of_fallback = length-redact_for_persistence redact_recognized_credentials fallback 2000 in
    let trimmed = length-trim-le (
      redact_for_persistence redact_recognized_credentials (source_of error fallback)
        (some 2000)) in
    let trimmed_fallback =
      length-trim-le (redact_for_persistence redact_recognized_credentials fallback (some 2000)) in
    ground arith
