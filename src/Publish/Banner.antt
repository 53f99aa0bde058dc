-- ===== src/Publish/Banner.antt =====
-- src/server/docs-publish/publish.ts, banner.ts: the blob that a mirrored document names can be read back.
use nexus_seventeen.Prelude.{
  ℕ, zero, suc, ◌≤◌, ◌≡◌, refl, Bool, true, false, List, [], ◌∷◌, ◌++◌, none, some, ◌∙◌, Text, lit,
  all, length, take, drop, has_no, starts_with, arith,
}
use nexus_seventeen.Merge.{is_git_object_id}
use nexus_seventeen.Publish.Sources.{DocSource}
use nexus_seventeen.Publish.Repo.{
  blob_mark, edit_note, with_source_banner, is_hex, prefix_of, blob_at, find_blob,
  source_blob_prefix,
}

take-append : {A : Type 0} (xs ys : List A) → take (length xs) (xs ++ ys) ≡ xs
take-append [] ys = refl
take-append (x ∷ xs) ys = rw (take-append xs ys)

drop-append : {A : Type 0} (xs ys : List A) → drop (length xs) (xs ++ ys) ≡ ys
drop-append [] ys = refl
drop-append (x ∷ xs) ys = drop-append xs ys

length-take : {A : Type 0} (n : ℕ) (xs : List A) → n ≤ length xs → length (take n xs) ≡ n
length-take zero xs h = refl
length-take (suc n) [] h = absurd (omega arith)
length-take (suc n) (x ∷ xs) h = omega (arith, length-take n xs)

all-take : (p : ℕ → Bool) (n : ℕ) (xs : Text) → all p xs ≡ true → all p (take n xs) ≡ true
unfolding all
all-take p zero xs h = refl
all-take p (suc n) [] h = refl
all-take p (suc n) (x ∷ xs) h = ground (arith, h, all-take p n xs)

prefix_of-append :
    (prefix rest : Text)
    → length prefix ≡ 12
    → all is_hex prefix ≡ true
    → prefix_of (prefix ++ b'.' ∷ rest) ≡ some prefix
unfolding all
prefix_of-append prefix rest n h =
    let t : take 12 (prefix ++ b'.' ∷ rest) ≡ prefix =
      rw (← n) (take-append prefix (b'.' ∷ rest)) in
    let d : drop 12 (prefix ++ b'.' ∷ rest) ≡ b'.' ∷ rest =
      rw (← n) (drop-append prefix (b'.' ∷ rest)) in
    ground (arith, t, d, h, n)

-- No match starts inside a text without `@`.
blob_at-none :
    (c : ℕ) (p rest : Text)
    → has_no b'@' (c ∷ p) ≡ true
    → starts_with (c ∷ (p ++ (blob_mark ++ rest))) blob_mark ≡ false
unfolding starts_with all lit
blob_at-none c [] rest h = ground arith
blob_at-none c (d ∷ p) rest h = ground (arith, h)

blob_at-append :
    (prefix rest : Text)
    → length prefix ≡ 12
    → all is_hex prefix ≡ true
    → blob_at (blob_mark ++ (prefix ++ b'.' ∷ rest)) ≡ some prefix
unfolding blob_at starts_with all lit
blob_at-append prefix rest n h = prefix_of-append prefix rest n h

find_blob-some : (t : Text) {x : Text} → blob_at t ≡ some x → find_blob t ≡ some x
unfolding find_blob blob_at starts_with lit
find_blob-some [] h = cc
find_blob-some (c ∷ t) h = rw (find_blob, h) refl

find_blob-skips :
    (c : ℕ) (t : Text) → starts_with (c ∷ t) blob_mark ≡ false → find_blob (c ∷ t) ≡ find_blob t
unfolding find_blob
find_blob-skips c t h =
    let at_none : blob_at (c ∷ t) ≡ none = unfold blob_at in rw h refl in
    rw (find_blob, at_none) refl

find_blob-append :
    (p prefix rest : Text)
    → has_no b'@' p ≡ true
    → length prefix ≡ 12
    → all is_hex prefix ≡ true
    → find_blob (p ++ (blob_mark ++ (prefix ++ b'.' ∷ rest))) ≡ some prefix
unfolding all
find_blob-append [] prefix rest h n x = find_blob-some _ (blob_at-append prefix rest n x)
find_blob-append (c ∷ p) prefix rest h n x =
    find_blob-skips c _ (blob_at-none c p (prefix ++ b'.' ∷ rest) h)
    ∙ find_blob-append p prefix rest (ground (arith, h)) n x

abbrev pub has_plain_place : Text → DocSource → Bool
unfolding all
has_plain_place repo_name source = has_no b'@' (repo_name ++ b'/' ∷ source.path ++ b'`' ∷ [])

-- Reading the banner of a mirrored document gives back the first twelve digits of its source's blob,
-- where the blob is an object id and neither the repository's name nor the path holds an `@`.
pub source_blob_prefix-with_source_banner :
    (source : DocSource) (repo_name : Text)
    → is_git_object_id source.blob_sha ≡ true
    → has_plain_place repo_name source ≡ true
    → source_blob_prefix (with_source_banner source repo_name) ≡ some (take 12 source.blob_sha)
unfolding source_blob_prefix with_source_banner is_git_object_id lit
source_blob_prefix-with_source_banner source repo_name sha plain =
    let digits : all is_hex source.blob_sha ≡ true = ground (arith, sha) in
    let long : 12 ≤ length source.blob_sha = ground (arith, sha) in
    find_blob-append (repo_name ++ b'/' ∷ source.path ++ b'`' ∷ []) (take 12 source.blob_sha)
      (drop 1 (edit_note ++ source.markdown)) plain (length-take 12 source.blob_sha long)
      (all-take is_hex 12 source.blob_sha digits)
