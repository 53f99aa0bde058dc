-- ===== src/Prelude/Lists.antt =====
-- Lists measured by native numbers, and the tests on them that the source writes as array methods.
use Prim.Native.Nat.{ℕ, zero, suc, ◌+◌, ◌≤◌, ◌<◌}
use mathlib.Core.Path.{◌≡◌, refl, sym}
use mathlib.Core.Logic.{inl, inr}
use mathlib.Core.Bool.{Bool, true, false, not, ◌&&◌, ◌||◌}
use mathlib.Core.Option.{Option, none, some}
use mathlib.Core.List.{List, [], ◌∷◌, ◌++◌, Memᴰ}
use native.Mathlib.Omega.{arith}
use nexus_seventeen.Prelude.Tests.{if◌then◌else◌, Eq, Bool-cases}

module _ {ℓ} {A : Type ℓ} where
  abbrev pub length : List A → ℕ
  length [] = 0
  length (x ∷ xs) = suc (length xs)

  abbrev pub take : ℕ → List A → List A
  take zero xs = []
  take (suc n) [] = []
  take (suc n) (x ∷ xs) = x ∷ take n xs

  abbrev pub drop : ℕ → List A → List A
  drop zero xs = xs
  drop (suc n) [] = []
  drop (suc n) (x ∷ xs) = drop n xs

  -- What holds of every entry, by recursion.
  abbrev pub All {κ} : (A → Type κ) → List A → Type κ
  All P [] = Unit
  All P (x ∷ xs) = P x × All P xs

  pub length-append : (xs ys : List A) → length (xs ++ ys) ≡ length xs + length ys
  length-append [] ys = omega arith
  length-append (x ∷ xs) ys = omega (arith, length-append xs ys)

  pub length-take-le : (n : ℕ) (xs : List A) → length (take n xs) ≤ n
  length-take-le zero xs = omega arith
  length-take-le (suc n) [] = omega arith
  length-take-le (suc n) (x ∷ xs) = omega (arith, length-take-le n xs)

  -- `xs.length === 0`
  unfoldable pub is_nil : List A → Bool
  is_nil [] = true
  is_nil (x ∷ xs) = false

  -- `xs.some(p)`
  unfoldable pub any : (A → Bool) → List A → Bool
  any p [] = false
  any p (x ∷ xs) = p x || any p xs

  -- `xs.every(p)`
  unfoldable pub all : (A → Bool) → List A → Bool
  all p [] = true
  all p (x ∷ xs) = p x && all p xs

  -- `xs.filter(p)`
  unfoldable pub keep : (A → Bool) → List A → List A
  keep p [] = []
  keep p (x ∷ xs) = let rest = keep p xs in if p x then x ∷ rest else rest

  -- How many rows a `WHERE` clause selects.
  unfoldable pub tally : (A → Bool) → List A → ℕ
  tally p [] = 0
  tally p (x ∷ xs) = let rest = tally p xs in if p x then suc rest else rest

  -- `UPDATE … SET f WHERE p`, on every row.
  unfoldable pub update_where : (A → Bool) → (A → A) → List A → List A
  update_where p f [] = []
  update_where p f (x ∷ xs) = (if p x then f x else x) ∷ update_where p f xs

  -- `xs.find(p)`
  unfoldable pub find : (A → Bool) → List A → Option A
  find p [] = none
  find p (x ∷ xs) = if p x then some x else find p xs

  pub All-mem {κ} : (P : A → Type κ) (xs : List A) {x : A} → All P xs → Memᴰ x xs → P x
  All-mem P [] h m = elim m [ ]
  All-mem P (y ∷ ys) h (Memᴰ.head e) = rw e h.0
  All-mem P (y ∷ ys) h (Memᴰ.tail m) = All-mem P ys h.1 m

  pub All-of_mem {κ} : (P : A → Type κ) (xs : List A) → ((x : A) → Memᴰ x xs → P x) → All P xs
  All-of_mem P [] h = tt
  All-of_mem P (x ∷ xs) h = (h x (Memᴰ.head refl), All-of_mem P xs (λ y m. h y (Memᴰ.tail m)))

  pub any-of_false : (p : A → Bool) (xs : List A) → any p xs ≡ false → All (λ x. p x ≡ false) xs
  unfolding any
  any-of_false p [] h = tt
  any-of_false p (x ∷ xs) h = (ground arith, any-of_false p xs (ground arith))

  pub any-of_true :
      (p : A → Bool) (xs : List A) → any p xs ≡ true → (x : A) × Memᴰ x xs × (p x ≡ true)
  unfolding any
  any-of_true p [] h = cc
  any-of_true p (x ∷ xs) h = elim (Bool-cases (p x)) [
    | inl e ↦ (x, Memᴰ.head refl, e)
    | inr e ↦ let (y, m, f) = any-of_true p xs (ground arith) in (y, Memᴰ.tail m, f)
  ]

  pub any-mem : (p : A → Bool) (xs : List A) {x : A} → Memᴰ x xs → p x ≡ true → any p xs ≡ true
  unfolding any
  any-mem p [] m h = elim m [ ]
  any-mem p (y ∷ ys) (Memᴰ.head e) h = rw (← e, h)
  any-mem p (y ∷ ys) (Memᴰ.tail m) h = ground (arith, any-mem p ys m h)

  mem_of_either :
      (p : A → Bool) {x y : A} {xs ys : List A}
      → (Memᴰ x xs → Memᴰ x ys × (p x ≡ true))
      → p y ≡ true
      → Memᴰ x (y ∷ xs)
      → Memᴰ x (y ∷ ys) × (p x ≡ true)
  mem_of_either p step e (Memᴰ.head q) = (Memᴰ.head q, rw q e)
  mem_of_either p step e (Memᴰ.tail q) = let (l, f) = step q in (Memᴰ.tail l, f)

  pub mem-keep :
      (p : A → Bool) (xs : List A) {x : A} → Memᴰ x (keep p xs) → Memᴰ x xs × (p x ≡ true)
  unfolding keep
  mem-keep p [] m = elim m [ ]
  mem-keep p (y ∷ ys) m = elim (Bool-cases (p y)) [
    | inl e ↦ mem_of_either p (λ q. mem-keep p ys q) e (rw e at m)
    | inr e ↦ let (l, f) = mem-keep p ys (rw e at m) in (Memᴰ.tail l, f)
  ]

  pub keep-mem : (p : A → Bool) (xs : List A) {x : A} → Memᴰ x xs → p x ≡ true → Memᴰ x (keep p xs)
  unfolding keep
  keep-mem p [] m h = elim m [ ]
  keep-mem p (y ∷ ys) {x} (Memᴰ.head q) h = rw (← q, h) (Memᴰ.head refl)
  keep-mem p (y ∷ ys) (Memᴰ.tail m) h = elim (Bool-cases (p y)) [
    | inl e ↦ rw e (Memᴰ.tail (keep-mem p ys m h))
    | inr e ↦ rw e (keep-mem p ys m h)
  ]

module _ {ℓ} {A : Type ℓ} ⦃e : Eq A⦄ where
  -- `xs.includes(a)`, also `new Set(xs).has(a)`
  unfoldable pub contains : A → List A → Bool
  contains a [] = false
  contains a (x ∷ xs) = e.is_same x a || contains a xs

  -- `new Set(xs).size === xs.length`
  unfoldable pub duplicate_free : List A → Bool
  unfolding contains
  duplicate_free [] = true
  duplicate_free (x ∷ xs) = not (contains x xs) && duplicate_free xs

  pub contains-mem : (a : A) (xs : List A) → contains a xs ≡ true → Memᴰ a xs
  unfolding contains
  contains-mem a [] h = cc
  contains-mem a (x ∷ xs) h = elim (Bool-cases (e.is_same x a)) [
    | inl q ↦ Memᴰ.head (sym ((e.same_iff x a).0 q))
    | inr q ↦ Memᴰ.tail (contains-mem a xs (ground arith))
  ]

  pub mem-contains : (a : A) (xs : List A) → Memᴰ a xs → contains a xs ≡ true
  unfolding contains
  mem-contains a [] m = elim m [ ]
  mem-contains a (x ∷ xs) (Memᴰ.head q) = ground (arith, e.same_iff x a)
  mem-contains a (x ∷ xs) (Memᴰ.tail m) = ground (arith, mem-contains a xs m)

module _ {ℓ} {A : Type ℓ} where
  pub find-mem :
      (p : A → Bool) (xs : List A) {x : A} → find p xs ≡ some x → Memᴰ x xs × (p x ≡ true)
  unfolding find
  find-mem p [] h = cc
  find-mem p (y ∷ ys) {x} h = elim (Bool-cases (p y)) [
    | inl e ↦ let first : y ≡ x = ground (arith, e) in (Memᴰ.head (sym first), rw (← first, e))
    | inr e ↦ let (m, f) = find-mem p ys (ground (arith, e)) in (Memᴰ.tail m, f)
  ]

  pub mem-find :
      (p : A → Bool) (xs : List A) {x : A} → Memᴰ x xs → p x ≡ true → (y : A) × (find p xs ≡ some y)
  unfolding find
  mem-find p [] m h = elim m [ ]
  mem-find p (z ∷ zs) (Memᴰ.head e) h = (z, rw (← e, h))
  mem-find p (z ∷ zs) (Memᴰ.tail m) h = elim (Bool-cases (p z)) [
    | inl e ↦ (z, rw e)
    | inr e ↦ let (y, f) = mem-find p zs m h in (y, rw (e, f))
  ]

  pub tally-le-length : (p : A → Bool) (xs : List A) → tally p xs ≤ length xs
  unfolding tally
  tally-le-length p [] = omega arith
  tally-le-length p (x ∷ xs) = ground (arith, tally-le-length p xs)

  pub tally-le :
      (p q : A → Bool) (xs : List A) → ((x : A) → q x ≡ true → p x ≡ true) → tally q xs ≤ tally p xs
  unfolding tally
  tally-le p q [] only = omega arith
  tally-le p q (x ∷ xs) only = ground (arith, only x, tally-le p q xs only)

  -- A stricter test that drops one more entry counts fewer.
  pub tally-lt :
      (p q : A → Bool) (xs : List A) {x : A}
      → ((y : A) → q y ≡ true → p y ≡ true)
      → Memᴰ x xs
      → p x ≡ true
      → q x ≡ false
      → tally q xs < tally p xs
  unfolding tally
  tally-lt p q [] only m h out = elim m [ ]
  tally-lt p q (y ∷ ys) only (Memᴰ.head e) h out =
      rw (← e, h, out) (ground (arith, tally-le p q ys only))
  tally-lt p q (y ∷ ys) only (Memᴰ.tail m) h out =
      ground (arith, only y, tally-lt p q ys only m h out)
