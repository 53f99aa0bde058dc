-- ===== src/Plan/Steps.antt =====
-- The search's steps: what every successful visit relates, and the errors that no visit throws.
use nexus_seventeen.Prelude.{
  ℕ, zero, suc, ◌≡◌, ◌≢◌, ◌⊎◌, refl, sym, ◌∙◌, ap, subst, inl, inr, true, false, not, List, [], ◌∷◌,
  arith, Text, text_eq_iff, contains, keep, All, Result, ok, err, >>=-eq-ok, >>=-avoids,
  ok-injective, err_is_not_ok, ◌==◌, eq_text, Bool-cases,
}
use nexus_seventeen.Plan.{
  DeclaredChild, PlanError, dependencies_of, Search, visit, visit_each, leave,
}

module _ (step : Text → Search → Result PlanError Search) where
  pub visit_each-relates :
      (R : Search → Search → Type 0)
      → ((s : Search) → R s s)
      → ((a b c : Search) → R a b → R b c → R a c)
      → ((key : Text) (s s' : Search) → step key s ≡ ok s' → R s s')
      → (roots : List Text) (s s' : Search) → visit_each step roots s ≡ ok s'
      → R s s'
  unfolding visit_each
  visit_each-relates R same then_ one [] s s' h = subst (R s) (ok-injective h) (same s)
  visit_each-relates R same then_ one (key ∷ rest) s s' h =
      let (a, e, h') = >>=-eq-ok (step key s) _ h in
      then_ s a s' (one key s a e) (visit_each-relates R same then_ one rest a s' h')

  pub visit_each-avoids :
      (Holds : Search → Type 0) (Root : Text → Type 0) (e : PlanError)
      → ((key : Text) (s : Search) → Root key → Holds s → step key s ≢ err e)
      → ((key : Text) (s s' : Search) → step key s ≡ ok s' → Holds s → Holds s')
      → (roots : List Text) (s : Search) → All Root roots
      → Holds s
      → visit_each step roots s ≢ err e
  unfolding visit_each
  visit_each-avoids Holds Root e never keeps [] s k j = λ h. cc
  visit_each-avoids Holds Root e never keeps (key ∷ rest) s k j =
      >>=-avoids (step key s) (visit_each step rest) (never key s k.0 j)
        (λ a told. visit_each-avoids Holds Root e never keeps rest a k.1 (keeps key s a told j))

keep-absent :
    (key : Text) (ks : List Text) → contains key ks ≡ false → keep (λ k. not (k == key)) ks ≡ ks
unfolding keep contains
keep-absent key [] h = refl
keep-absent key (k ∷ ks) h =
    let differs : (k == key) ≡ false = ground arith in
    rw differs (ap (λ xs. k ∷ xs) (keep-absent key ks (ground arith)))

pub leave-visiting :
    (key : Text) (ks : List Text) (s : Search)
    → contains key ks ≡ false
    → s.visiting ≡ key ∷ ks
    → (leave key s).visiting ≡ ks
unfolding leave keep
leave-visiting key ks s h e = rw (e, (text_eq_iff key key).1 refl) (keep-absent key ks h)

abbrev pub enter : Text → Search → Search
enter key s = record s { visiting = key ∷ s.visiting }

-- The two ways in which a visit returns: the key was done, or its dependencies are visited first.
pub visit-eq-ok :
    (fuel : ℕ) (children : List DeclaredChild) (key : Text) (s s' : Search)
    → visit (suc fuel) children key s ≡ ok s'
    → (contains key s.visiting ≡ false)
      × ((contains key s.visited ≡ true) × (s ≡ s')
          ⊎ ((a : Search) × (visit_each
                  (visit fuel children)
                  (dependencies_of children key)
                  (enter key s)
                ≡ ok a)
              × (leave key a ≡ s')))
unfolding visit
visit-eq-ok fuel children key s s' h = elim (Bool-cases (contains key s.visiting)) [
  | inl e ↦ err_is_not_ok (rw (visit, e) at h)
  | inr e ↦ elim (Bool-cases (contains key s.visited)) [
    | inl e' ↦ (e, inl (e', ok-injective (rw (visit, e, e') at h)))
    | inr e' ↦
        let (a, told, h') =
          >>=-eq-ok (visit_each (visit fuel children) (dependencies_of children key) (enter key s))
            _ (rw (visit, e, e') at h) in
        (e, inr (a, told, ok-injective h'))
  ]
]

-- A visit that returns has taken itself off the stack.
pub visit-visiting :
    (fuel : ℕ) (children : List DeclaredChild) (key : Text) (s s' : Search)
    → visit fuel children key s ≡ ok s'
    → s'.visiting ≡ s.visiting
unfolding visit
visit-visiting zero children key s s' h = err_is_not_ok h
visit-visiting (suc fuel) children key s s' h =
    let (e, ways) = visit-eq-ok fuel children key s s' h in
    elim ways [
      | inl (e', q) ↦ ap (λ x. x.visiting) (sym q)
      | inr (a, told, q) ↦
          let kept : a.visiting ≡ key ∷ s.visiting =
            visit_each-relates (visit fuel children) (λ x y. y.visiting ≡ x.visiting) (λ x. refl)
              (λ x y z p q. q ∙ p) (visit-visiting fuel children) (dependencies_of children key)
              (enter key s) a told in
          subst (λ x. x.visiting ≡ s.visiting) q (leave-visiting key s.visiting a e kept)
    ]
