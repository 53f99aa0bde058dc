-- ===== src/Plan/Acyclic.antt =====
-- What the search accepts has no cycle: the finished keys stand in an order where every key's
-- dependencies were finished before it, and the position in that order ranks the keys.
use nexus_seventeen.Prelude.{
  ℕ, zero, suc, ◌<◌, ◌≤◌, ◌≡◌, ◌↔◌, refl, sym, subst, inl, inr, true, false, List, [], ◌∷◌, arith,
  Text, text_eq_iff, contains, contains-mem, length, All, All-mem, All-of_mem, find, if◌then◌else◌,
  Result, ok, >>=-eq-ok, ok-injective, err_is_not_ok, ◌==◌, eq_text, Bool-cases,
}
use nexus_seventeen.Plan.{
  DeclaredChild, PlanError, dependencies_of, keys, Search, visit, visit_each, leave, visit_roots,
  check_acyclic, nothing_visited,
}
use nexus_seventeen.Plan.Fuel.{DependenciesKnown}
use nexus_seventeen.Plan.Ranked.{IsRanking, check_acyclic-accepts}
use nexus_seventeen.Plan.Steps.{visit-eq-ok, enter}

-- The latest key first: each key's dependencies are among the keys finished before it.
abbrev pub Ordered : List DeclaredChild → List Text → Type 0
Ordered children [] = Unit
Ordered children (key ∷ ks) =
    All (λ d. contains d ks ≡ true) (dependencies_of children key) × Ordered children ks

abbrev Within : List Text → List Text → Type 0
Within ks ls = (key : Text) → contains key ks ≡ true → contains key ls ≡ true

-- What a successful visit adds: order stays, and no finished key is lost.
abbrev pub Advances : List DeclaredChild → Search → Search → Type 0
Advances children s t =
    (Ordered children s.visited → Ordered children t.visited) × Within s.visited t.visited

Advances-trans :
    (children : List DeclaredChild) (a b c : Search)
    → Advances children a b
    → Advances children b c
    → Advances children a c
Advances-trans children a b c (o, w) (o', w') = ((λ h. o' (o h)), λ key h. w' key (w key h))

module _ (children : List DeclaredChild) where
  -- After the loop every dependency of the list is finished.
  pub visit_each-finishes :
      (step : Text → Search → Result PlanError Search)
      → ((key : Text) (s s' : Search)
          → step key s ≡ ok s'
          → Advances children s s' × (contains key s'.visited ≡ true))
      → (roots : List Text) (s s' : Search) → visit_each step roots s ≡ ok s'
      → Advances children s s' × All (λ d. contains d s'.visited ≡ true) roots
  unfolding visit_each
  visit_each-finishes step one [] s s' h =
      (subst (Advances children s) (ok-injective h) ((λ o. o), λ key m. m), tt)
  visit_each-finishes step one (key ∷ rest) s s' h =
      let (a, e, h') = >>=-eq-ok (step key s) (visit_each step rest) h in
      let (first, done) = one key s a e in
      let (then_, others) = visit_each-finishes step one rest a s' h' in
      (Advances-trans children s a s' first then_, (then_.1 key done, others))

  visit-Advances :
      (fuel : ℕ) (key : Text) (s s' : Search)
      → visit fuel children key s ≡ ok s'
      → Advances children s s' × (contains key s'.visited ≡ true)
  unfolding visit leave contains
  visit-Advances zero key s s' h = err_is_not_ok h
  visit-Advances (suc fuel) key s s' h =
      let (e, ways) = visit-eq-ok fuel children key s s' h in
      elim ways [
        | inl (e', q) ↦
            subst (λ t. Advances children s t × (contains key t.visited ≡ true)) q
              (((λ o. o), λ k m. m), e')
        | inr (a, told, q) ↦
            let ((o, w), done) =
              visit_each-finishes (visit fuel children) (visit-Advances fuel)
                (dependencies_of children key) (enter key s) a told in
            subst (λ t. Advances children s t × (contains key t.visited ≡ true)) q
              (
                ((λ h. (done, o h)), λ k m. ground (arith, w k m)),
                ground (arith, text_eq_iff key key),
              )
      ]

  pub check_acyclic-Ordered :
      check_acyclic children ≡ ok tt
      → (order : List Text) × Ordered children order
        × All (λ key. contains key order ≡ true) (keys children)
  unfolding check_acyclic visit_roots
  check_acyclic-Ordered h =
      let (s, told, h') =
        >>=-eq-ok (visit_roots (suc (length children)) children (keys children) nothing_visited) _
          h in
      let ((o, w), done) =
        visit_each-finishes (visit (suc (length children)) children)
          (visit-Advances (suc (length children))) (keys children) nothing_visited s told in
      (s.visited, o tt, done)

-- The place of a key in the order, counted from its first end.
abbrev pub place : List Text → Text → ℕ
place [] key = 0
place (k ∷ ks) key =
    let rest = place ks key in
    if contains key ks then rest else (if k == key then suc (length ks) else 0)

place-le : (ks : List Text) (key : Text) → place ks key ≤ length ks
place-le [] key = omega arith
place-le (k ∷ ks) key = ground (arith, place-le ks key)

older_is_less :
    (k : Text) (ks : List Text) (key d : Text)
    → contains key ks ≡ true
    → contains d ks ≡ true
    → place ks d < place ks key
    → place (k ∷ ks) d < place (k ∷ ks) key
older_is_less k ks key d e f less = ground (arith, e, f, less)

here_is_more :
    (k : Text) (ks : List Text) (d : Text)
    → contains k ks ≡ false
    → contains d ks ≡ true
    → place (k ∷ ks) d < place (k ∷ ks) k
here_is_more k ks d e f = ground (arith, e, f, place-le ks d, text_eq_iff k k)

pub place-descends :
    (children : List DeclaredChild) (order : List Text)
    → Ordered children order
    → (key : Text) → contains key order ≡ true
    → All
        (λ d. (contains d order ≡ true) × (place order d < place order key))
        (dependencies_of children key)
unfolding contains
place-descends children [] o key h = cc
place-descends children (k ∷ ks) o key h = elim (Bool-cases (contains key ks)) [
  | inl e ↦ All-of_mem _ (dependencies_of children key) (λ d m.
      let (f, less) =
        All-mem _ (dependencies_of children key) (place-descends children ks o.1 key e) m in
      (ground arith, older_is_less k ks key d e f less))
  | inr e ↦
      let same : k ≡ key = (text_eq_iff k key).0 (ground arith) in
      subst
        (λ t.
          All (λ d. (contains d (k ∷ ks) ≡ true) × (place (k ∷ ks) d < place (k ∷ ks) t))
            (dependencies_of children t))
        same
        (All-of_mem _ (dependencies_of children k) (λ d m.
          let f : contains d ks ≡ true = All-mem _ (dependencies_of children k) o.0 m in
          (ground arith, here_is_more k ks d (subst (λ t. contains t ks ≡ false) (sym same) e) f)))
]

unlisted-dependencies_of :
    (children : List DeclaredChild) (key : Text)
    → contains key (keys children) ≡ false
    → dependencies_of children key ≡ []
unfolding dependencies_of contains find
unlisted-dependencies_of [] key h = refl
unlisted-dependencies_of (c ∷ rest) key h =
    let differs : (c.key == key) ≡ false = ground arith in
    rw (dependencies_of, differs) (unlisted-dependencies_of rest key (ground arith))

-- A declaration that the search accepts has a ranking: nothing depends on itself, however long
-- the chain.
pub check_acyclic-IsRanking :
    (children : List DeclaredChild)
    → check_acyclic children ≡ ok tt
    → (rank : (Text → ℕ)) × IsRanking children rank
check_acyclic-IsRanking children h =
    let (order, o, done) = check_acyclic-Ordered children h in
    (
      place order,
      λ key. elim (Bool-cases (contains key (keys children))) [
        | inl e ↦ All-of_mem _ (dependencies_of children key) (λ d m.
            (All-mem _ (dependencies_of children key)
              (place-descends children order o key
                (All-mem _ (keys children) done (contains-mem key (keys children) e)))
              m).1)
        | inr e ↦ rw (unlisted-dependencies_of children key e) tt
      ],
    )

-- The search accepts exactly the declarations that have a ranking.
pub check_acyclic_iff :
    (children : List DeclaredChild)
    → DependenciesKnown children
    → (check_acyclic children ≡ ok tt) ↔ ((rank : (Text → ℕ)) × IsRanking children rank)
check_acyclic_iff children known = (
  check_acyclic-IsRanking children,
  λ ranked. check_acyclic-accepts children ranked.0 known ranked.1,
)
