-- ===== src/Verify/Globs.antt =====
-- src/server/agents/verify/mapping.ts: `globToRegExp`, whose expression is a list of the pieces that the
-- source appends, and the test of a path against it.
use nexus_seventeen.Prelude.{
  ℕ, zero, suc, Bool, true, false, not, ◌&&◌, ◌||◌, List, [], ◌∷◌, Text, lit, is_nil, starts_with,
  nat_eq, if◌then◌else◌, ◌==◌, eq_text, text_eq,
}

pub data Piece : Type 0 where
  -- `(?:/[^/]+)*`
  dirs_below : Piece
  -- `(?:[^/]+/)*`
  dirs_above : Piece
  -- `.*`
  any_text : Piece
  -- `[^/]*`
  any_name : Piece
  -- A character, escaped where it is special.
  literal : ℕ → Piece

abbrev pub is_star : ℕ → Bool
is_star c = nat_eq c b'*'

abbrev pub is_slash : ℕ → Bool
is_slash c = nat_eq c b'/'

-- The pieces for the rest of a glob, whose first `skip` characters belong to the piece before.
unfoldable pub pieces_from : ℕ → Text → List Piece
unfolding starts_with lit text_eq
pieces_from skip [] = []
pieces_from (suc skip) (c ∷ glob) = pieces_from skip glob
pieces_from zero (c ∷ glob) =
    let next = pieces_from 0 glob in
    let after_one = pieces_from 1 glob in
    let after_two = pieces_from 2 glob in
    if is_slash c && glob == lit "**"
    then dirs_below ∷ after_two
    else if is_star c && starts_with glob (lit "*/")
    then dirs_above ∷ after_two
    else if is_star c && starts_with glob (lit "*")
    then any_text ∷ after_one
    else if is_star c
    then any_name ∷ next
    else literal c ∷ next

-- `globToRegExp`
unfoldable pub glob_to_reg_exp : Text → List Piece
unfolding pieces_from
glob_to_reg_exp glob = pieces_from 0 glob

-- `.` stands for no line terminator.
abbrev is_line_terminator : ℕ → Bool
is_line_terminator c = nat_eq c 10 || nat_eq c 13 || nat_eq c 0x2028 || nat_eq c 0x2029

-- The repetitions, where `k` tests what follows.
module _ (k : Text → Bool) where
  unfoldable pub after_text : Text → Bool
  after_text [] = k []
  after_text (c ∷ text) = k (c ∷ text) || not (is_line_terminator c) && after_text text

  unfoldable pub after_name : Text → Bool
  after_name [] = k []
  after_name (c ∷ text) = k (c ∷ text) || not (is_slash c) && after_name text

  -- Whether a name has begun.
  unfoldable pub after_dirs : Bool → Text → Bool
  after_dirs false [] = k []
  after_dirs false (c ∷ text) = k (c ∷ text) || not (is_slash c) && after_dirs true text
  after_dirs true [] = false
  after_dirs true (c ∷ text) = if is_slash c then after_dirs false text else after_dirs true text

  pub data Place : Type 0 where
    between behind_slash in_name : Place

  unfoldable pub after_below : Place → Text → Bool
  after_below between [] = k []
  after_below between (c ∷ text) = k (c ∷ text) || is_slash c && after_below behind_slash text
  after_below behind_slash [] = false
  after_below behind_slash (c ∷ text) = not (is_slash c) && after_below in_name text
  after_below in_name [] = k []
  after_below in_name (c ∷ text) =
      k (c ∷ text)
      || is_slash c && after_below behind_slash text
      || not (is_slash c) && after_below in_name text

abbrev after_literal : ℕ → (Text → Bool) → Text → Bool
after_literal c k [] = false
after_literal c k (d ∷ text) = nat_eq d c && k text

-- `matcher.test(text)`, from the start of the text to its end.
unfoldable pub test : List Piece → Text → Bool
unfolding is_nil after_text after_name after_dirs after_below
test [] text = is_nil text
test (literal c ∷ pieces) text = after_literal c (test pieces) text
test (any_name ∷ pieces) text = after_name (test pieces) text
test (any_text ∷ pieces) text = after_text (test pieces) text
test (dirs_above ∷ pieces) text = after_dirs (test pieces) false text
test (dirs_below ∷ pieces) text = after_below (test pieces) between text

unfoldable pub matches : Text → Text → Bool
unfolding glob_to_reg_exp test
matches glob file = test (glob_to_reg_exp glob) file
