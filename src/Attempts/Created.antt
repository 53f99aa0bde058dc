-- ===== src/Attempts/Created.antt =====
-- src/server/task-board/collaborators/verify-attempts.ts: the creation of an attempt appends a starting row.
use nexus_seventeen.Prelude.{
  ◌≡◌, ◌⊎◌, inl, inr, refl, sym, ap, ◌∙◌, subst, false, ◌&&◌, Bool-cases, [], ◌∷◌, ◌++◌, Option,
  none, some, Text, text_eq_iff, tally, if◌then◌else◌, Result, ok, ok-injective, nat_eq, ◌==◌,
  eq_text, arith, err_is_not_ok,
}
use nexus_seventeen.Contract.{WorkItemStage, eq_stage}
use nexus_seventeen.Attempts.Rows.{
  starting, VerifyAttempt, WorkNode, PlanRow, VerifiedItem, VerifyDb, node_of, plan_of, item_of,
  is_activatable,
}
use nexus_seventeen.Attempts.Writes.{
  StartingResult, VerifyError, create_starting_attempt, insert_attempt, new_attempt, for_node,
  for_plan, for_item, for_branch, activates,
}
use nexus_seventeen.Attempts.Steps.{IsFresh}
use nexus_seventeen.Attempts.Settled.{
  is_settled, IsSettledOnce, settlements_of, expected, tally-none, tally-append, differs,
  append-mem,
}

abbrev pub SettledOnce : VerifyDb → Type 0
SettledOnce db = IsSettledOnce db.verify_attempts db.settlements

-- A row with a fresh identifier.
append-IsSettledOnce :
    (db : VerifyDb) (n : VerifyAttempt)
    → is_settled n.state ≡ false
    → IsFresh n.verify_attempt_id db
    → SettledOnce db
    → IsSettledOnce (db.verify_attempts ++ n ∷ []) db.settlements
append-IsSettledOnce db n unsettled fresh h = record {
  single = λ id.
      let counts = tally-append (λ a. a.verify_attempt_id == id) db.verify_attempts n in
      elim (Bool-cases (n.verify_attempt_id == id)) [
        | inl t ↦
            let same = (text_eq_iff n.verify_attempt_id id).0 t in
            let unused =
              tally-none (λ a. a.verify_attempt_id == id) db.verify_attempts
                (λ a m. differs a.verify_attempt_id id (λ e. fresh.unused a m (e ∙ sym same))) in
            ground (arith, counts, unused, t)
        | inr f ↦ ground (arith, counts, h.single id, f)
      ];
  keyed = λ a b ma mb same. elim (append-mem db.verify_attempts n ma) [
    | inl ka ↦ elim (append-mem db.verify_attempts n mb) [
      | inl kb ↦ h.keyed a b ka kb same
      | inr eb ↦
          absurd (fresh.unused a ka (same ∙ ap (λ (v : VerifyAttempt). v.verify_attempt_id) eb))
    ]
    | inr ea ↦ elim (append-mem db.verify_attempts n mb) [
      | inl kb ↦
          absurd (fresh.unused b kb (sym same ∙ ap (λ (v : VerifyAttempt). v.verify_attempt_id) ea))
      | inr eb ↦ ea ∙ sym eb
    ]
  ];
  counted = λ a m. elim (append-mem db.verify_attempts n m) [
    | inl k ↦ h.counted a k
    | inr e ↦
        subst (λ v. settlements_of v.verify_attempt_id db.settlements ≡ expected v) (sym e)
          (tally-none _ db.settlements
              (λ z m. differs z.verify_attempt_id n.verify_attempt_id (fresh.unsettled z m))
            ∙ ap (λ b. if b then 1 else 0) (sym unsettled))
  ];
}

-- A creation leaves the rows alone or appends a starting one.
abbrev pub Creates : VerifyDb → VerifyDb → Text → Type 0
Creates db db' id =
    (db'.settlements ≡ db.settlements)
    × ((db'.verify_attempts ≡ db.verify_attempts)
        ⊎ ((n : VerifyAttempt) × (n.verify_attempt_id ≡ id)
            × (n.state ≡ starting)
            × (db'.verify_attempts ≡ db.verify_attempts ++ n ∷ [])))

left_alone :
    (db db' : VerifyDb) (id : Text) {r r' : StartingResult}
    → ◌≡◌ {A = Result VerifyError (VerifyDb × StartingResult)} (ok (db, r)) (ok (db', r'))
    → Creates db db' id
left_alone db db' id h =
    let same : db ≡ db' = ap (λ (x : VerifyDb × StartingResult). x.0) (ok-injective h) in
    (
      ap (λ (d : VerifyDb). d.settlements) (sym same),
      inl (ap (λ (d : VerifyDb). d.verify_attempts) (sym same)),
    )

insert_attempt-Creates :
    (db db' : VerifyDb) (id node_id : Text) (stage : WorkItemStage) (now : Text)
    (r : StartingResult)
    → insert_attempt db id node_id stage now ≡ ok (db', r)
    → Creates db db' id
insert_attempt-Creates db db' id node_id stage now r h =
    elim (Bool-cases (nat_eq (tally (activates node_id stage) db.work_nodes) 1)) [
      | inl t ↦
          let made : db' ≡ _ =
            sym (ap (λ (x : VerifyDb × StartingResult). x.0) (ok-injective (rw t at h))) in
          (
            ap (λ (d : VerifyDb). d.settlements) made,
            inr (
              new_attempt db id node_id stage now,
              refl,
              refl,
              ap (λ (d : VerifyDb). d.verify_attempts) made,
            ),
          )
      | inr f ↦ err_is_not_ok (rw f at h)
    ]

for_branch-Creates :
    (db db' : VerifyDb) (id node_id : Text) (stage : WorkItemStage) (now : Text)
    (branch : Option Text) (r : StartingResult)
    → for_branch db id node_id stage now branch ≡ ok (db', r)
    → Creates db db' id
for_branch-Creates db db' id node_id stage now none r h = left_alone db db' id h
for_branch-Creates db db' id node_id stage now (some branch) r h =
    insert_attempt-Creates db db' id node_id stage now r h

for_item-Creates :
    (db db' : VerifyDb) (id : Text) (node : WorkNode) (stage : WorkItemStage) (now : Text)
    (item : Option VerifiedItem) (r : StartingResult)
    → for_item db id node stage now item ≡ ok (db', r)
    → Creates db db' id
for_item-Creates db db' id node stage now none r h = left_alone db db' id h
for_item-Creates db db' id node stage now (some item) r h =
    elim (Bool-cases (node.current_stage == stage && is_activatable node.state)) [
      | inl t ↦
          for_branch-Creates db db' id node.node_id stage now item.pipeline_branch r (rw t at h)
      | inr f ↦ left_alone db db' id (rw f at h)
    ]

for_plan-Creates :
    (db db' : VerifyDb) (id : Text) (node : WorkNode) (stage : WorkItemStage) (now : Text)
    (plan : Option PlanRow) (r : StartingResult)
    → for_plan db id node stage now plan ≡ ok (db', r)
    → Creates db db' id
for_plan-Creates db db' id node stage now none r h = left_alone db db' id h
for_plan-Creates db db' id node stage now (some plan) r h =
    for_item-Creates db db' id node stage now (item_of db plan.work_item_id) r h

pub for_node-Creates :
    (db db' : VerifyDb) (id : Text) (node : Option WorkNode) (stage : WorkItemStage) (now : Text)
    (r : StartingResult)
    → for_node db id node stage now ≡ ok (db', r)
    → Creates db db' id
for_node-Creates db db' id none stage now r h = left_alone db db' id h
for_node-Creates db db' id (some node) stage now r h =
    for_plan-Creates db db' id node stage now (plan_of db node.plan_revision_id) r h

pub create-SettledOnce :
    (db db' : VerifyDb) (node_id : Text) (stage : WorkItemStage) (id now : Text)
    (r : StartingResult)
    → IsFresh id db
    → create_starting_attempt db node_id stage id now ≡ ok (db', r)
    → SettledOnce db
    → SettledOnce db'
unfolding create_starting_attempt
create-SettledOnce db db' node_id stage id now r fresh h once =
    let (settlements, rows) = for_node-Creates db db' id (node_of db node_id) stage now r h in
    elim rows [
      | inl same ↦
          subst (λ rs. IsSettledOnce rs db'.settlements) (sym same)
            (subst (λ ss. IsSettledOnce db.verify_attempts ss) (sym settlements) once)
      | inr (n, named, starts, appended) ↦
          let unsettled : is_settled n.state ≡ false = ap is_settled starts in
          let new =
            append-IsSettledOnce db n unsettled (subst (λ i. IsFresh i db) (sym named) fresh)
              once in
          subst (λ rs. IsSettledOnce rs db'.settlements) (sym appended)
            (subst (λ ss. IsSettledOnce (db.verify_attempts ++ n ∷ []) ss) (sym settlements) new)
    ]
