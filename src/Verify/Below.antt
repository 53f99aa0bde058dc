-- ===== src/Verify/Below.antt =====
-- src/server/agents/verify/mapping.ts: what a glob `<prefix>/**` matches.
use nexus_seventeen.Prelude.{
  ℕ, ◌≡◌, refl, sym, ap, ◌∙◌, Bool, true, false, not, ◌&&◌, ◌||◌, List, [], ◌∷◌, ◌++◌, map, Text,
  lit, all, is_nil, starts_with, nat_eq, drop, length, has_no, split_on, before, ◌==◌, eq_text,
  text_eq, arith, Bool-cases, inl, inr,
}
use nexus_seventeen.Verify.Globs.{
  dirs_below, literal, between, behind_slash, in_name, after_below, pieces_from, glob_to_reg_exp,
  test, matches, is_star, is_slash,
}

abbrev rest_parts : List Text → List Text
rest_parts [] = []
rest_parts (part ∷ parts) = parts

abbrev pub all_named : List Text → Bool
all_named parts = all (λ part. not (is_nil part)) parts

-- Nothing, or a slash and names that slashes part.
abbrev pub is_below : Text → Bool
is_below [] = true
is_below (c ∷ text) = is_slash c && all_named (split_on b'/' text)

or_false : (b : Bool) → (b || false) ≡ b
or_false true = refl
or_false false = refl

all_named-before :
    (c : ℕ) (parts : List Text) → all_named (before c parts) ≡ all_named (rest_parts parts)
unfolding all is_nil
all_named-before c [] = refl
all_named-before c (part ∷ parts) = refl

rest_parts-before : (c : ℕ) (parts : List Text) → rest_parts parts ≡ rest_parts (before c parts)
rest_parts-before c [] = refl
rest_parts-before c (part ∷ parts) = refl

after_below-parts :
    (text : Text)
    → (after_below is_nil behind_slash text ≡ all_named (split_on b'/' text))
      × (after_below is_nil in_name text ≡ all_named (rest_parts (split_on b'/' text)))
unfolding after_below split_on all is_nil
after_below-parts [] = (refl, refl)
after_below-parts (c ∷ text) =
    let (behind, inside) = after_below-parts text in
    elim (Bool-cases (is_slash c)) [
      | inl t ↦ rw (t, behind) (refl, or_false (all_named (split_on b'/' text)))
      | inr f ↦
          rw (f, inside)
            (
              sym (all_named-before c (split_on b'/' text)),
              ap all_named (rest_parts-before c (split_on b'/' text)),
            )
    ]

test-is_below : (text : Text) → after_below is_nil between text ≡ is_below text
unfolding after_below is_nil all split_on
test-is_below [] = refl
test-is_below (c ∷ text) = rw (after_below-parts text).0 refl

test-prefix :
    (prefix text : Text)
    → test (map literal prefix ++ dirs_below ∷ []) text
      ≡ (starts_with text prefix && is_below (drop (length prefix) text))
unfolding test starts_with is_nil
test-prefix [] text = test-is_below text
test-prefix (c ∷ prefix) [] = refl
test-prefix (c ∷ prefix) (d ∷ text) =
    rw (test-prefix prefix text)
      (elim (Bool-cases (nat_eq d c)) [ inl t ↦ rw t refl | inr f ↦ rw f refl ])

not_two_stars :
    (prefix : Text) → has_no b'*' prefix ≡ true → (prefix ++ lit "/**" == lit "**") ≡ false
unfolding all lit text_eq
not_two_stars [] h = refl
not_two_stars (c ∷ prefix) h = ground (arith, h)

pieces_from-prefix :
    (prefix : Text)
    → has_no b'*' prefix ≡ true
    → pieces_from 0 (prefix ++ lit "/**") ≡ map literal prefix ++ dirs_below ∷ []
unfolding pieces_from all lit text_eq starts_with
pieces_from-prefix [] h = refl
pieces_from-prefix (c ∷ prefix) h =
    let rest = pieces_from-prefix prefix (ground (arith, h)) in
    let no_star : is_star c ≡ false = ground (arith, h) in
    let no_end = not_two_stars prefix (ground (arith, h)) in
    rw (no_star, no_end, rest)
      (elim (Bool-cases (is_slash c)) [ inl t ↦ rw t refl | inr f ↦ rw f refl ])

-- Where a prefix has no star, the glob of the prefix with `/**` behind it matches exactly the prefix itself
-- and the paths that continue it by a slash and names, none of them empty, that slashes part.
pub matches-is_below :
    (prefix file : Text)
    → has_no b'*' prefix ≡ true
    → matches (prefix ++ lit "/**") file
      ≡ (starts_with file prefix && is_below (drop (length prefix) file))
unfolding matches glob_to_reg_exp
matches-is_below prefix file h =
    ap (λ pieces. test pieces file) (pieces_from-prefix prefix h) ∙ test-prefix prefix file
