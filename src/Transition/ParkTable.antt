-- ===== src/Transition/ParkTable.antt =====
-- The table of park records: which record is open for a work item, and what resolving one changes.
use nexus_seventeen.Prelude.{
  ℕ, ◌+◌, ◌<◌, ◌≤◌, ◌≡◌, ◌≢◌, refl, sym, ◌∙◌, subst, ◌⊎◌, inl, inr, Bool, true, false, not, ◌&&◌,
  List, [], ◌∷◌, ◌++◌, Option, none, some, arith, Text, text_eq_iff, tally, update_where, All,
  All-mem, if◌then◌else◌, ◌==◌, eq_text, Bool-cases, beq_refl,
}
use mathlib.Core.List.{Memᴰ}
use nexus_seventeen.Contract.{eq_state}
use nexus_seventeen.Board.{ParkRecord}
use nexus_seventeen.Transition.Requests.{is_some}
use nexus_seventeen.Transition.Writes.{later, latest_open}

-- An open record of a work item.
abbrev pub open_for : Text → ParkRecord → Bool
open_for id p = p.work_item_id == id && not (is_some p.resolved_at)

abbrev pub opens : Text → List ParkRecord → ℕ
opens id ps = tally (open_for id) ps

-- The primary key of `park_records`.
abbrev pub Distinct : List ParkRecord → Type 0
Distinct [] = Unit
Distinct (p ∷ ps) = All (λ q. (q.park_record_id == p.park_record_id) ≡ false) ps × Distinct ps

pub tally-append :
    (p : ParkRecord → Bool) (xs : List ParkRecord) (x : ParkRecord)
    → tally p (xs ++ x ∷ []) ≡ tally p xs + (if p x then 1 else 0)
unfolding tally
tally-append p [] x = ground arith
tally-append p (y ∷ xs) x = ground (arith, tally-append p xs x)

later-cases :
    (best : Option ParkRecord) (p : ParkRecord) → (later best p ≡ some p) ⊎ (later best p ≡ best)
unfolding later
later-cases none p = inl refl
later-cases (some best) p = ground arith

-- Either the best so far, or an open record further on.
abbrev pub Chosen : Text → Option ParkRecord → List ParkRecord → ParkRecord → Type 0
Chosen id best ps q = (best ≡ some q) ⊎ (Memᴰ q ps × (open_for id q ≡ true))

Chosen-tail :
    (id : Text) (best : Option ParkRecord) (p : ParkRecord) (ps : List ParkRecord) (q : ParkRecord)
    → Chosen id best ps q
    → Chosen id best (p ∷ ps) q
Chosen-tail id best p ps q (inl e) = inl e
Chosen-tail id best p ps q (inr (m, o)) = inr (Memᴰ.tail m, o)

Chosen-later :
    (id : Text) (best : Option ParkRecord) (p : ParkRecord) (ps : List ParkRecord) (q : ParkRecord)
    → open_for id p ≡ true
    → Chosen id (later best p) ps q
    → Chosen id best (p ∷ ps) q
Chosen-later id best p ps q o (inr (m, o')) = inr (Memᴰ.tail m, o')
Chosen-later id best p ps q o (inl e) = elim (later-cases best p) [
  | inl new ↦
      let given : some p ≡ some q = sym new ∙ e in
      let same : p ≡ q = cc in inr (Memᴰ.head (sym same), rw same at o)
  | inr old ↦ inl (sym old ∙ e)
]

pub latest_open-Chosen :
    (id : Text) (best : Option ParkRecord) (ps : List ParkRecord) {q : ParkRecord}
    → latest_open id best ps ≡ some q
    → Chosen id best ps q
unfolding latest_open
latest_open-Chosen id best [] h = inl h
latest_open-Chosen id best (p ∷ ps) {q} h = elim (Bool-cases (open_for id p)) [
  | inl o ↦ Chosen-later id best p ps q o (latest_open-Chosen id (later best p) ps (rw o at h))
  | inr c ↦ Chosen-tail id best p ps q (latest_open-Chosen id best ps (rw c at h))
]

later-ne-none : (best : Option ParkRecord) (p : ParkRecord) → later best p ≢ none
unfolding later
later-ne-none none p = ground arith
later-ne-none (some best) p = ground arith

pub latest_open-none :
    (id : Text) (best : Option ParkRecord) (ps : List ParkRecord)
    → latest_open id best ps ≡ none
    → (best ≡ none) × (opens id ps ≡ 0)
unfolding latest_open tally
latest_open-none id best [] h = (h, refl)
latest_open-none id best (p ∷ ps) h = elim (Bool-cases (open_for id p)) [
  | inl o ↦ absurd (later-ne-none best p (latest_open-none id (later best p) ps (rw o at h)).0)
  | inr c ↦ rw c (latest_open-none id best ps (rw c at h))
]

-- Resolving one record of a table with distinct keys.
module _ (f : ParkRecord → ParkRecord)
    (closes : (p : ParkRecord) → is_some (f p).resolved_at ≡ true) (q : ParkRecord) where
  abbrev pub keyed : ParkRecord → Bool
  keyed p = p.park_record_id == q.park_record_id

  resolve_others :
      (ps : List ParkRecord)
      → All (λ p. (p.park_record_id == q.park_record_id) ≡ false) ps
      → update_where keyed f ps ≡ ps
  unfolding update_where
  resolve_others [] h = refl
  resolve_others (p ∷ ps) h = rw (h.0, resolve_others ps h.1)

  resolve-opens_head :
      (id other : Text) (ps : List ParkRecord)
      → Distinct (q ∷ ps)
      → open_for id q ≡ true
      → opens other (update_where keyed f (q ∷ ps)) + (if id == other then 1 else 0)
        ≡ opens other (q ∷ ps)
  unfolding update_where tally
  resolve-opens_head id other ps d o =
      rw (beq_refl q.park_record_id, resolve_others ps d.0, closes q)
        (ground (
          arith,
          text_eq_iff q.work_item_id id,
          text_eq_iff (f q).work_item_id other,
          text_eq_iff q.work_item_id other,
          text_eq_iff id other,
        ))

  pub resolve-opens :
      (id other : Text) (ps : List ParkRecord)
      → Memᴰ q ps
      → Distinct ps
      → open_for id q ≡ true
      → opens other (update_where keyed f ps) + (if id == other then 1 else 0) ≡ opens other ps
  unfolding update_where tally
  resolve-opens id other [] m d o = elim m [ ]
  resolve-opens id other (p ∷ ps) (Memᴰ.head e) d o =
      subst
        (λ r.
          opens other (update_where keyed f (r ∷ ps)) + (if id == other then 1 else 0)
          ≡ opens other (r ∷ ps))
        e (resolve-opens_head id other ps (subst (λ r. Distinct (r ∷ ps)) (sym e) d) o)
  resolve-opens id other (p ∷ ps) (Memᴰ.tail m) d o =
      let differs : (q.park_record_id == p.park_record_id) ≡ false =
        All-mem (λ r. (r.park_record_id == p.park_record_id) ≡ false) ps d.0 m in
      let passed : keyed p ≡ false = ground (
        arith,
        differs,
        text_eq_iff q.park_record_id p.park_record_id,
        text_eq_iff p.park_record_id q.park_record_id,
      ) in
      rw passed (ground (arith, resolve-opens id other ps m d.1 o))

  module _ (keeps : (p : ParkRecord) → (f p).park_record_id ≡ p.park_record_id) where
    resolve-All :
        (key : Text) (ps : List ParkRecord)
        → All (λ r. (r.park_record_id == key) ≡ false) ps
        → All (λ r. (r.park_record_id == key) ≡ false) (update_where keyed f ps)
    unfolding update_where
    resolve-All key [] h = tt
    resolve-All key (p ∷ ps) h = elim (Bool-cases (keyed p)) [
      | inl hit ↦ rw hit (rw (keeps p) h.0, resolve-All key ps h.1)
      | inr miss ↦ rw miss (h.0, resolve-All key ps h.1)
    ]

    pub resolve-Distinct : (ps : List ParkRecord) → Distinct ps → Distinct (update_where keyed f ps)
    unfolding update_where
    resolve-Distinct [] d = tt
    resolve-Distinct (p ∷ ps) d = elim (Bool-cases (keyed p)) [
      | inl hit ↦ rw (hit, keeps p) (resolve-All p.park_record_id ps d.0, resolve-Distinct ps d.1)
      | inr miss ↦ rw miss (resolve-All p.park_record_id ps d.0, resolve-Distinct ps d.1)
    ]

-- Where the identifiers come from: `randomUUID` was drawn for each, at a time of its own.
module _ (random_uuid : ℕ → Text) where
  abbrev pub Drawn : ℕ → List ParkRecord → Type 0
  Drawn n [] = Unit
  Drawn n (p ∷ ps) = ((k : ℕ) × (k < n) × (p.park_record_id ≡ random_uuid k)) × Drawn n ps

  pub Drawn-mono : (m n : ℕ) (ps : List ParkRecord) → m ≤ n → Drawn m ps → Drawn n ps
  Drawn-mono m n [] h d = tt
  Drawn-mono m n (p ∷ ps) h ((k, lt, e), d) = ((k, omega arith, e), Drawn-mono m n ps h d)

  pub Drawn-resolve :
      (f : ParkRecord → ParkRecord) (q : ParkRecord) (n : ℕ) (ps : List ParkRecord)
      → ((p : ParkRecord) → (f p).park_record_id ≡ p.park_record_id)
      → Drawn n ps
      → Drawn n (update_where (λ p. p.park_record_id == q.park_record_id) f ps)
  unfolding update_where
  Drawn-resolve f q n [] keeps d = tt
  Drawn-resolve f q n (p ∷ ps) keeps ((k, lt, e), d) =
      let rest = Drawn-resolve f q n ps keeps d in
      elim (Bool-cases (p.park_record_id == q.park_record_id)) [
        | inl hit ↦ rw hit ((k, lt, keeps p ∙ e), rest)
        | inr miss ↦ rw miss ((k, lt, e), rest)
      ]

  pub Drawn-append :
      (n : ℕ) (ps : List ParkRecord) (p : ParkRecord)
      → Drawn n ps
      → p.park_record_id ≡ random_uuid n
      → Drawn (n + 1) (ps ++ p ∷ [])
  Drawn-append n [] p d e = ((n, omega arith, e), tt)
  Drawn-append n (r ∷ ps) p ((k, lt, e'), d) e = ((k, omega arith, e'), Drawn-append n ps p d e)

  module _ (no_collision : (m n : ℕ) → random_uuid m ≡ random_uuid n → m ≡ n) where
    fresh_key :
        (n : ℕ) (r p : ParkRecord) (k : ℕ)
        → k < n
        → r.park_record_id ≡ random_uuid k
        → p.park_record_id ≡ random_uuid n
        → (p.park_record_id == r.park_record_id) ≡ false
    fresh_key n r p k lt e e' = elim (Bool-cases (p.park_record_id == r.park_record_id)) [
      | inl same ↦
          let clash : random_uuid n ≡ random_uuid k =
            sym e' ∙ (text_eq_iff p.park_record_id r.park_record_id).0 same ∙ e in
          absurd (omega (arith, no_collision n k clash))
      | inr differs ↦ differs
    ]

    fresh-All :
        (r : ParkRecord) (ps : List ParkRecord) (p : ParkRecord)
        → All (λ q. (q.park_record_id == r.park_record_id) ≡ false) ps
        → (p.park_record_id == r.park_record_id) ≡ false
        → All (λ q. (q.park_record_id == r.park_record_id) ≡ false) (ps ++ p ∷ [])
    fresh-All r [] p h e = (e, tt)
    fresh-All r (q ∷ ps) p h e = (h.0, fresh-All r ps p h.1 e)

    -- A record under a fresh identifier keeps the keys distinct.
    pub Distinct-append :
        (n : ℕ) (ps : List ParkRecord) (p : ParkRecord)
        → Drawn n ps
        → Distinct ps
        → p.park_record_id ≡ random_uuid n
        → Distinct (ps ++ p ∷ [])
    Distinct-append n [] p d h e = (tt, tt)
    Distinct-append n (r ∷ ps) p ((k, lt, e'), d) h e =
        (fresh-All r ps p h.0 (fresh_key n r p k lt e' e), Distinct-append n ps p d h.1 e)
