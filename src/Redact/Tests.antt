-- ===== src/Redact/Tests.antt =====
-- Concrete calls of the scrub of src/server/shared/redact.ts, where no credential is recognized.
use nexus_seventeen.Prelude.{◌≤◌, ◌≡◌, refl, [], ◌∷◌, none, Text, lit, length}
use nexus_seventeen.Redact.{
  safe_error_detail, redact_for_persistence, redact_multiline_for_persistence,
  max_safe_error_detail_characters, error_of, text_of, other, length-safe_error_detail,
  truncate_preserving_redaction_markers,
}

abbrev unchanged : Text → Text
unchanged t = t

line_break_goes : redact_for_persistence unchanged (b'a' ∷ 10 ∷ b'b' ∷ []) none ≡ b'a' ∷ b'b' ∷ []
unfolding redact_for_persistence
line_break_goes = refl

line_break_stays :
    redact_multiline_for_persistence unchanged (b'a' ∷ 10 ∷ 9 ∷ b'b' ∷ []) none
    ≡ b'a' ∷ 10 ∷ b'b' ∷ []
unfolding redact_multiline_for_persistence
line_break_stays = refl

blank_falls_back : safe_error_detail unchanged (text_of (32 ∷ [])) (b'f' ∷ []) ≡ b'f' ∷ []
unfolding safe_error_detail truncate_preserving_redaction_markers
blank_falls_back = refl

message_is_kept :
    safe_error_detail unchanged (error_of (32 ∷ b'm' ∷ 10 ∷ [])) (b'f' ∷ []) ≡ b'm' ∷ []
unfolding safe_error_detail truncate_preserving_redaction_markers
message_is_kept = refl

length-safe_error_detail_example :
    length (safe_error_detail unchanged other (lit "Task worker failed"))
    ≤ max_safe_error_detail_characters
length-safe_error_detail_example =
    length-safe_error_detail unchanged other (lit "Task worker failed")
