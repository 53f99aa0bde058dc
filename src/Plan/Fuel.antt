-- ===== src/Plan/Fuel.antt =====
-- The search's bound: a nested visit has one more declared key on the stack, so one more visit than
-- there are children is never asked for.
use nexus_seventeen.Prelude.{
  ℕ, zero, suc, ◌<◌, ◌≡◌, ◌≢◌, refl, sym, subst, inl, inr, true, false, not, List, [], ◌∷◌, arith,
  Text, text_eq_iff, contains, contains-mem, mem-contains, find, find-mem, length, tally, tally-lt,
  tally-le-length, All, All-of_mem, ok, err, >>=-avoids, throw_if-eq-ok, >>=-eq-ok, ◌==◌, eq_text,
  Bool-cases, Option-cases,
}
use mathlib.Core.List.{Memᴰ}
use nexus_seventeen.Plan.{
  DeclaredChild, visit_out_of_fuel, check_known, check_dependencies, dependencies, dependencies_of,
  keys, Search, visit, visit_each, visit_roots, check_acyclic, nothing_visited,
}
use nexus_seventeen.Plan.Steps.{visit_each-avoids, visit-visiting, enter}

-- Every declared dependency is the key of a child.
abbrev pub DependenciesKnown : List DeclaredChild → Type 0
DependenciesKnown children =
    (child : DeclaredChild)
    → Memᴰ child children
    → All (λ key. contains key (keys children) ≡ true) (dependencies child)

pub check_known-All :
    (known : List Text) (key : Text) (listed : List Text)
    → check_known known key listed ≡ ok tt
    → All (λ d. contains d known ≡ true) listed
unfolding check_known
check_known-All known key [] h = tt
check_known-All known key (d ∷ rest) h =
    let (a, e, h') = >>=-eq-ok _ _ h in
    let f : not (contains d known) ≡ false = throw_if-eq-ok _ _ e in
    (ground arith, check_known-All known key rest h')

pub check_dependencies-All :
    (known : List Text) (children : List DeclaredChild)
    → check_dependencies known children ≡ ok tt
    → (child : DeclaredChild) → Memᴰ child children
    → All (λ d. contains d known ≡ true) (dependencies child)
unfolding check_dependencies
check_dependencies-All known [] h child m = elim m [ ]
check_dependencies-All known (c ∷ rest) h child (Memᴰ.head q) =
    let (a, e, h') = >>=-eq-ok (check_known known c.key (dependencies c)) _ h in
    rw q (check_known-All known c.key (dependencies c) e)
check_dependencies-All known (c ∷ rest) h child (Memᴰ.tail m) =
    let (a, e, h') = >>=-eq-ok (check_known known c.key (dependencies c)) _ h in
    check_dependencies-All known rest h' child m

pub dependencies_of-All :
    (children : List DeclaredChild) (P : Text → Type 0)
    → ((child : DeclaredChild) → Memᴰ child children → All P (dependencies child))
    → (key : Text) → All P (dependencies_of children key)
unfolding dependencies_of
dependencies_of-All children P h key =
    elim (Option-cases (find (λ child. child.key == key) children)) [
      | inl e ↦ rw (e, dependencies_of) tt
      | inr (child, e) ↦ rw (e, dependencies_of) (h child (find-mem _ children e).0)
    ]

abbrev unvisited : List DeclaredChild → List Text → ℕ
unvisited children visiting = tally (λ child. not (contains child.key visiting)) children

keys-mem :
    (children : List DeclaredChild) (key : Text)
    → Memᴰ key (keys children)
    → (c : DeclaredChild) × Memᴰ c children × (c.key ≡ key)
keys-mem [] key m = elim m [ ]
keys-mem (c ∷ rest) key (Memᴰ.head q) = (c, Memᴰ.head refl, sym q)
keys-mem (c ∷ rest) key (Memᴰ.tail m) = let (d, n, e) = keys-mem rest key m in (d, Memᴰ.tail n, e)

enter-unvisited :
    (children : List DeclaredChild) (key : Text) (visiting : List Text)
    → contains key (keys children) ≡ true
    → contains key visiting ≡ false
    → unvisited children (key ∷ visiting) < unvisited children visiting
unfolding contains
enter-unvisited children key visiting known free =
    let (c, m, e) = keys-mem children key (contains-mem key (keys children) known) in
    tally-lt (λ child. not (contains child.key visiting))
      (λ child. not (contains child.key (key ∷ visiting))) children (λ y h. ground arith) m
      (rw (e, free) refl) (rw (e, (text_eq_iff key key).1 refl) refl)

pub visit-in_fuel :
    (fuel : ℕ) (children : List DeclaredChild)
    → DependenciesKnown children
    → (key : Text) (s : Search) → contains key (keys children) ≡ true
    → unvisited children s.visiting < fuel
    → visit fuel children key s ≢ err visit_out_of_fuel
unfolding visit
visit-in_fuel zero children known key s k small = λ h. omega arith
visit-in_fuel (suc fuel) children known key s k small =
    elim (Bool-cases (contains key s.visiting)) [
      | inl e ↦ rw (visit, e) (λ h. cc)
      | inr e ↦ elim (Bool-cases (contains key s.visited)) [
        | inl e' ↦ rw (visit, e, e') (λ h. cc)
        | inr e' ↦
            rw (visit, e, e')
              (>>=-avoids
                (visit_each (visit fuel children) (dependencies_of children key) (enter key s)) _
                (visit_each-avoids (visit fuel children) (λ t. unvisited children t.visiting < fuel)
                  (λ d. contains d (keys children) ≡ true) visit_out_of_fuel
                  (λ d t. visit-in_fuel fuel children known d t)
                  (λ d t t' told.
                    subst (λ v. unvisited children v < fuel)
                      (sym (visit-visiting fuel children d t t' told)))
                  (dependencies_of children key) (enter key s)
                  (dependencies_of-All children _ known key)
                  (omega (arith, enter-unvisited children key s.visiting k e)))
                (λ a told h. cc))
      ]
    ]

-- Where every dependency is known, the search for a cycle never meets its bound.
pub check_acyclic-in_fuel :
    (children : List DeclaredChild)
    → DependenciesKnown children
    → check_acyclic children ≢ err visit_out_of_fuel
unfolding check_acyclic visit_roots
check_acyclic-in_fuel children known =
    >>=-avoids (visit_roots (suc (length children)) children (keys children) nothing_visited) _
      (visit_each-avoids (visit (suc (length children)) children)
        (λ t. unvisited children t.visiting < suc (length children))
        (λ d. contains d (keys children) ≡ true) visit_out_of_fuel
        (λ d t. visit-in_fuel (suc (length children)) children known d t)
        (λ d t t' told.
          subst (λ v. unvisited children v < suc (length children))
            (sym (visit-visiting (suc (length children)) children d t t' told)))
        (keys children) nothing_visited
        (All-of_mem _ (keys children) (λ key m. mem-contains key (keys children) m))
        (omega (arith, tally-le-length (λ child. not (contains child.key [])) children)))
      (λ a told h. cc)
