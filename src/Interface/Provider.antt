-- ===== src/Interface/Provider.antt =====
-- What is known of a published interface that a Migrate child is ready to work against.
use nexus_seventeen.Prelude.{
  ◌≡◌, ◌⊎◌, refl, sym, ap, subst, inl, inr, true, ◌&&◌, List, [], ◌∷◌, ◌++◌, Option, none, some,
  arith, Text, text_eq_iff, any, keep, mem-keep, Result, ok, err, ◌==◌, eq_text, Bool-cases,
}
use mathlib.Core.List.{Memᴰ}
use nexus_seventeen.Contract.{merged, eq_state, state_eq_iff}
use nexus_seventeen.Readiness.{Dependency, is_earlier}
use nexus_seventeen.Interface.{
  PlacedItem, Database, merge_sha_of, work_item_repository_path, work_item_repository_name,
  is_expand, is_provider, is_migrate_owner, providers, first_of, first_provider,
  MigrateInterfaceProvider, provider_at, merged_provider, migrate_interface_provider,
  PublishedInterfaceReadResult, present, blocked_markdown, blocked_by, CrossRepoContext,
  MigrateInterfaceReadiness, ready, blocked, published_interface_path, PublishedInterfaceReader,
  readiness_of, readiness_at, migrate_interface_readiness,
}

-- A merged Expand child that the work item depends on, with the commit of its latest merge and the
-- text that the reader found there.
pub record IsProvided (read : PublishedInterfaceReader) (db : Database) (work_item_id : Text)
    (context : CrossRepoContext) : Type 0 where
  pub provider : PlacedItem
  pub listed : Memᴰ provider db.work_items
  pub dependency : Dependency
  pub declared : Memᴰ dependency db.work_item_dependencies
  pub dependent : dependency.work_item_id ≡ work_item_id
  pub named : provider.item.work_item_id ≡ dependency.depends_on_work_item_id
  pub expands : is_expand provider.item.phase ≡ true
  pub done : provider.item.state ≡ merged
  pub merged_at : merge_sha_of db provider ≡ some context.sha
  pub found :
      read (work_item_repository_path db provider) context.sha published_interface_path
      ≡ ok (present context.markdown)

mem-append : {A : Type 0} (xs ys : List A) {x : A} → Memᴰ x (xs ++ ys) → Memᴰ x xs ⊎ Memᴰ x ys
mem-append [] ys m = inr m
mem-append (z ∷ xs) ys (Memᴰ.head e) = inl (Memᴰ.head e)
mem-append (z ∷ xs) ys (Memᴰ.tail m) = elim (mem-append xs ys m) [
  | inl l ↦ inl (Memᴰ.tail l)
  | inr r ↦ inr r
]

first_of-cases :
    (best : Option PlacedItem) (w x : PlacedItem)
    → first_of best w ≡ some x
    → (x ≡ w) ⊎ (best ≡ some x)
first_of-cases none w x h = let same : w ≡ x = cc in inl (sym same)
first_of-cases (some b) w x h = elim (Bool-cases (is_earlier b.item w.item)) [
  | inl e ↦ inr (rw e at h)
  | inr e ↦ let told : some w ≡ some x = rw e at h in let same : w ≡ x = cc in inl (sym same)
]

first_provider-mem :
    (ws : List PlacedItem) {x : PlacedItem} → first_provider ws ≡ some x → Memᴰ x ws
unfolding first_provider
first_provider-mem [] h = cc
first_provider-mem (w ∷ ws) {x} h = elim (first_of-cases (first_provider ws) w x h) [
  | inl e ↦ Memᴰ.head e
  | inr e ↦ Memᴰ.tail (first_provider-mem ws e)
]

-- The rows of the join.
providers-mem :
    (db : Database) (work_item_id : Text) (deps : List Dependency) {w : PlacedItem}
    → Memᴰ w (providers db work_item_id deps)
    → (d : Dependency) × Memᴰ d deps
      × (d.work_item_id ≡ work_item_id)
      × Memᴰ w db.work_items
      × (is_provider d w ≡ true)
unfolding providers
providers-mem db work_item_id [] m = elim m [ ]
providers-mem db work_item_id (d ∷ rest) m =
    elim (Bool-cases
      (d.work_item_id == work_item_id && any (is_migrate_owner work_item_id) db.work_items)) [
        | inl e ↦
            elim (mem-append (keep (is_provider d) db.work_items) (providers db work_item_id rest)
              (rw (providers, e) at m)) [
                | inl l ↦
                    let (n, p) = mem-keep (is_provider d) db.work_items l in
                    (
                      d,
                      Memᴰ.head refl,
                      (text_eq_iff d.work_item_id work_item_id).0 (ground (arith, e)),
                      n,
                      p,
                    )
                | inr r ↦
                    let (c, l, q, n, p) = providers-mem db work_item_id rest r in
                    (c, Memᴰ.tail l, q, n, p)
              ]
        | inr e ↦
            let (c, l, q, n, p) = providers-mem db work_item_id rest (rw (providers, e) at m) in
            (c, Memᴰ.tail l, q, n, p)
      ]

readiness_of-ready :
    (provider : MigrateInterfaceProvider) (answer : Result (Unit {0}) PublishedInterfaceReadResult)
    (context : CrossRepoContext)
    → readiness_of provider answer ≡ ready context
    → (answer ≡ ok (present context.markdown)) × (provider.sha ≡ context.sha)
unfolding readiness_of
readiness_of-ready provider (err thrown) context h = cc
readiness_of-ready provider (ok (blocked_by reason)) context h = cc
readiness_of-ready provider (ok (blocked_markdown detail)) context h = cc
readiness_of-ready provider (ok (present markdown)) context h =
    let text_of : MigrateInterfaceReadiness → Text =
      λ r. elim r [ ready c ↦ c.markdown | blocked reason sha summary ↦ markdown ] in
    let sha_in : MigrateInterfaceReadiness → Text =
      λ r. elim r [ ready c ↦ c.sha | blocked reason sha summary ↦ provider.sha ] in
    (ap (λ t. ok (present t)) (ap text_of h), ap sha_in h)

module _ (read : PublishedInterfaceReader) (db : Database) (work_item_id : Text)
    (context : CrossRepoContext) where
  from_provider :
      (w : PlacedItem) (sha : Option Text)
      → merge_sha_of db w ≡ sha
      → readiness_at read (provider_at db w sha) ≡ some (ready context)
      → (merge_sha_of db w ≡ some context.sha)
        × (read (work_item_repository_path db w) context.sha published_interface_path
            ≡ ok (present context.markdown))
  unfolding readiness_at
  from_provider w none e h = cc
  from_provider w (some sha) e h =
      let provider : MigrateInterfaceProvider = record {
        work_item_id = w.item.work_item_id;
        project_id = w.resolved_project_id;
        repo_name = work_item_repository_name db w;
        repo_path = work_item_repository_path db w;
        sha = sha;
      } in
      let told : readiness_of provider
            (read (work_item_repository_path db w) sha published_interface_path)
          ≡ ready context =
        cc in
      let (found, same) =
        readiness_of-ready provider
          (read (work_item_repository_path db w) sha published_interface_path) context told in
      (
        subst (λ k. merge_sha_of db w ≡ some k) same e,
        subst
            (λ k.
              read (work_item_repository_path db w) k published_interface_path
              ≡ ok (present context.markdown))
            same found,
      )

  from_merged :
      (first : Option PlacedItem)
      → first_provider (providers db work_item_id db.work_item_dependencies) ≡ first
      → readiness_at read (merged_provider db first) ≡ some (ready context)
      → IsProvided read db work_item_id context
  unfolding merged_provider readiness_at
  from_merged none e h = cc
  from_merged (some w) e h = elim (Bool-cases (w.item.state == merged)) [
    | inr f ↦
        let given : ◌≡◌ {A = Option MigrateInterfaceReadiness} none (some (ready context)) =
          rw (merged_provider, f) at h in
        cc
    | inl t ↦
        let (sha, found) =
          from_provider w (merge_sha_of db w) refl (rw (merged_provider, t) at h) in
        let (d, l, q, n, p) =
          providers-mem db work_item_id db.work_item_dependencies
            (first_provider-mem (providers db work_item_id db.work_item_dependencies) e) in
        record {
          provider = w;
          listed = n;
          dependency = d;
          declared = l;
          dependent = q;
          named = (text_eq_iff w.item.work_item_id d.depends_on_work_item_id).0 (ground (arith, p));
          expands = ground (arith, p);
          done = (state_eq_iff w.item.state merged).0 t;
          merged_at = sha;
          found = found;
        }
  ]

  -- A Migrate child is ready to work against an interface only if it depends on an Expand child that
  -- is merged, at the commit of that child's latest approved merge, and with the text that the reader
  -- found there.
  pub migrate_interface_readiness-IsProvided :
      migrate_interface_readiness read db work_item_id ≡ some (ready context)
      → IsProvided read db work_item_id context
  unfolding migrate_interface_readiness migrate_interface_provider
  migrate_interface_readiness-IsProvided h =
      from_merged (first_provider (providers db work_item_id db.work_item_dependencies)) refl h
