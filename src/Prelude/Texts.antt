-- ===== src/Prelude/Texts.antt =====
-- Texts as the source sees them: sequences of UTF-16 code units, so that `length`, `slice` and
-- `startsWith` are list operations. A literal of the Basic Multilingual Plane is written by `lit`.
use Prim.Native.Nat.{ℕ, ◌≤◌}
use Prim.Native.Char.{code}
use Prim.Native.String.{String}
use mathlib.Core.Path.{◌≡◌, refl}
use mathlib.Core.Logic.{◌↔◌, inl, inr}
use mathlib.Core.Bool.{Bool, true, false, not, ◌&&◌, ◌||◌}
use mathlib.Core.List.{List, [], ◌∷◌, ◌++◌}
use native.Mathlib.Omega.{arith}
use nexus_seventeen.Prelude.Lists.{is_nil, length, all}
use nexus_seventeen.Prelude.Tests.{leb, if◌then◌else◌, nat_eq, nat_eq_iff, Eq, Bool-cases}

abbrev pub Text : Type 0
Text = List ℕ

unfoldable pub lit : String → Text
lit String.[] = []
lit (String.◌∷◌ c s) = code c ∷ lit s

unfoldable pub text_eq : Text → Text → Bool
text_eq [] [] = true
text_eq [] (b ∷ bs) = false
text_eq (a ∷ as') [] = false
text_eq (a ∷ as') (b ∷ bs) = nat_eq a b && text_eq as' bs

pub text_eq_iff : (a b : Text) → (text_eq a b ≡ true) ↔ (a ≡ b)
unfolding text_eq
text_eq_iff [] [] = ((λ h. refl), (λ h. refl))
text_eq_iff [] (b ∷ bs) = ground arith
text_eq_iff (a ∷ as') [] = ground arith
text_eq_iff (a ∷ as') (b ∷ bs) = ground (arith, nat_eq_iff a b, text_eq_iff as' bs)

instance abbrev pub eq_text : Eq Text
eq_text = record { is_same = text_eq; same_iff = text_eq_iff }

-- `s.startsWith(prefix)`
unfoldable pub starts_with : Text → Text → Bool
starts_with s [] = true
starts_with [] (c ∷ prefix) = false
starts_with (d ∷ s) (c ∷ prefix) = nat_eq d c && starts_with s prefix

pub starts_with-split :
    (s prefix : Text) → (starts_with s prefix ≡ true) → (rest : Text) × (s ≡ prefix ++ rest)
unfolding starts_with
starts_with-split s [] h = (s, refl)
starts_with-split [] (c ∷ prefix) h = cc
starts_with-split (d ∷ s) (c ∷ prefix) h =
    let (rest, e) = starts_with-split s prefix (ground arith) in
    (rest, ground (arith, nat_eq_iff d c))

pub starts_with-append : (prefix rest : Text) → starts_with (prefix ++ rest) prefix ≡ true
unfolding starts_with
starts_with-append [] rest = refl
starts_with-append (c ∷ prefix) rest =
    ground (arith, nat_eq_iff c c, starts_with-append prefix rest)

-- The code units that `trim` removes.
abbrev is_white_space : ℕ → Bool
is_white_space c =
    leb 9 c && leb c 13
    || nat_eq c 32
    || nat_eq c 0xa0
    || nat_eq c 0x1680
    || leb 0x2000 c && leb c 0x200a
    || nat_eq c 0x2028
    || nat_eq c 0x2029
    || nat_eq c 0x202f
    || nat_eq c 0x205f
    || nat_eq c 0x3000
    || nat_eq c 0xfeff

unfoldable pub trim_start : Text → Text
trim_start [] = []
trim_start (c ∷ cs) = if is_white_space c then trim_start cs else c ∷ cs

unfoldable pub trim_end : Text → Text
unfolding is_nil
trim_end [] = []
trim_end (c ∷ cs) =
    let rest = trim_end cs in if is_nil rest && is_white_space c then [] else c ∷ rest

unfoldable pub trim : Text → Text
unfolding trim_start trim_end
trim text = trim_end (trim_start text)

length-trim_start-le : (t : Text) → length (trim_start t) ≤ length t
unfolding trim_start
length-trim_start-le [] = omega arith
length-trim_start-le (c ∷ cs) = let ih = length-trim_start-le cs in ground arith

length-trim_end-le : (t : Text) → length (trim_end t) ≤ length t
unfolding trim_end is_nil
length-trim_end-le [] = omega arith
length-trim_end-le (c ∷ cs) = let ih = length-trim_end-le cs in ground arith

pub length-trim-le : (t : Text) → length (trim t) ≤ length t
unfolding trim
length-trim-le t = omega (arith, length-trim_end-le (trim_start t), length-trim_start-le t)

abbrev pub before : ℕ → List Text → List Text
before c [] = (c ∷ []) ∷ []
before c (part ∷ parts) = (c ∷ part) ∷ parts

-- `text.split(c)`, which has one part more than the text has units `c`.
unfoldable pub split_on : ℕ → Text → List Text
split_on c [] = [] ∷ []
split_on c (d ∷ text) =
    let parts = split_on c text in if nat_eq d c then [] ∷ parts else before d parts

abbrev pub has_no : ℕ → Text → Bool
has_no c text = all (λ d. not (nat_eq d c)) text

pub split_on-append :
    (c : ℕ) (part rest : Text)
    → has_no c part ≡ true
    → split_on c (part ++ c ∷ rest) ≡ part ∷ split_on c rest
unfolding split_on all
split_on-append c [] rest h = ground (arith, nat_eq_iff c c)
split_on-append c (d ∷ part) rest h =
    let ih = split_on-append c part rest (ground (arith, h)) in
    elim (Bool-cases (nat_eq d c)) [ inl t ↦ ground (arith, t, h) | inr f ↦ rw (ih, f) refl ]
