-- ===== src/Meta/Tree/Persist.antt =====
-- persistObjectMetas keeps the tree, whichever of its statements fails.
use addp.Common.{
  ℕ, String, false, ◌&&◌, Option, none, some, List, [], ◌∷◌, ◌++◌, Result, ok, err, ◌≡◌, refl, sym,
  ap, ◌∙◌, arith, ==_iff, inl, inr, Bool-cases,
}
use mathlib.Core.Path.{subst}
use Prim.Native.String.{◌++◌ as append}
use addp.Common.Outcome.{Result-cases, Exec-cases}
use addp.Db.{DbError, not_found, failed}
use addp.Text.{is_empty, split}
use addp.Text.Inside.{is_empty-append}
use addp.Text.Decimal
use addp.Text.Decimal.{show}
use addp.Meta.Objects.{ObjectMetadata, is_bucket, is_object_type}
use addp.Meta.Models.{JsonMap, MetaResource, MetaNode, MetaItem}
use addp.Meta.Store.{Forest, IsForest}
use addp.Meta.Nodes.{compose_node_path, compose_node_full_name, upsert_node}
use addp.Meta.Nodes.Items.{is_item, write_item, new_item, ItemColumns, upsert_item}
use addp.Meta.Nodes.Upsert.{upsert_node-IsAsked}
use addp.Meta.Persist.{
  Work, dir_attributes, is_last, ensure_node_aggregate, sanitize_object_path, persist_dirs,
  persist_path, persist_item, persist_meta, persist_metas, persist_object_metas, object_name,
  object_columns,
}
use addp.Meta.Tree.{IsTree, IsKnown, IsStable-refl, IsStable-trans, stable-IsKnown}
use addp.Meta.Tree.Upsert.{IsKnownParent, Grows, upsert_node-Grows}

module _ {T : Type 0} (db : Forest T) where
  Grows-refl : (s : T) → IsTree db s → Grows db s s
  Grows-refl s tree = (tree, IsStable-refl db s)

  pub Grows-trans : (s t u : T) → Grows db s t → (IsTree db t → Grows db t u) → Grows db s u
  Grows-trans s t u (tree, stable) next =
      let (tree', stable') = next tree in (tree', IsStable-trans db s t u stable stable')

  -- a statement that leaves every node
  pub same_nodes-Grows :
      (s t : T) → ((j : ℕ) → db.node t j ≡ db.node s j) → IsTree db s → Grows db s t
  same_nodes-Grows s t same tree = (
    record {
      root = λ j n there top. tree.root j n (sym (same j) ∙ there) top;
      child = λ j k n p there under above.
          tree.child j k n p (sym (same j) ∙ there) under (sym (same k) ∙ above);
    },
    record { kept = λ j n there full. (n, same j ∙ there, refl, refl, refl) },
  )

  compose_full :
      (id : ℕ) (parent : Option MetaNode) (s : T)
      → IsKnownParent db parent s
      → is_empty (compose_node_path id parent) ≡ false
  unfolding compose_node_path
  compose_full id none s known = Decimal.show_full id
  compose_full id (some q) s known =
      let full = known.full in
      let longer : is_empty (append q.path (append "/" (show id))) ≡ false =
        is_empty-append q.path (append "/" (show id)) ∙ ground (arith, full) in
      ground (arith, longer)

  module _ (laws : IsForest db) where
    -- the node that upsertNode returns is known
    pub upsert_node-IsKnown :
        (res : MetaResource) (parent : Option MetaNode) (node_type name full_name : String)
        (attrs : Option JsonMap)
        → (s t : T) (n : MetaNode) → IsKnownParent db parent s
        → upsert_node db res parent node_type name full_name attrs s ≡ (ok n, t)
        → IsKnown db n t
    upsert_node-IsKnown res parent node_type name full_name attrs s t n known h =
        let (written, placed, new) =
          upsert_node-IsAsked db laws res parent node_type name full_name attrs s t n h in
        record {
          full = ap is_empty placed.path ∙ compose_full n.id parent s known;
          stored =
              (n, ground (arith, written.nodes n.id, (==_iff n.id n.id).1 refl), refl, refl, refl);
        }

    upsert_item-Grows :
        (res : MetaResource) (node : MetaNode) (item_type name : String) (c : ItemColumns)
        → (s t : T) (r : Result DbError MetaItem) → IsTree db s
        → upsert_item db res node item_type name c s ≡ (r, t)
        → Grows db s t
    unfolding upsert_item
    upsert_item-Grows res node item_type name c s t r tree h =
        elim (Result-cases (db.first_item s (is_item res node item_type name))) [
          | inl (failed e, bad) ↦
              let it : s ≡ t = ground arith in subst (Grows db s) it (Grows-refl s tree)
          | inl (not_found, absent) ↦
              elim (Result-cases (db.create_item s (new_item res node item_type name c))) [
                | inl (e, bad) ↦
                    let it : s ≡ t = ground arith in subst (Grows db s) it (Grows-refl s tree)
                | inr ((x, u), made) ↦
                    let it : u ≡ t = ground arith in
                    subst (Grows db s) it (
                      same_nodes-Grows s u
                        (laws.create_item_nodes s (new_item res node item_type name c) x u made)
                        tree)
              ]
          | inr (x, found) ↦ elim (Result-cases (db.update_item s x.id (write_item c))) [
            | inl (e, bad) ↦
                let it : s ≡ t = ground arith in subst (Grows db s) it (Grows-refl s tree)
            | inr (u, done) ↦
                let it : u ≡ t = ground arith in
                subst (Grows db s) it
                  (same_nodes-Grows s u (laws.update_item_nodes s x.id (write_item c) u done) tree)
          ]
        ]

    persist_dirs-Grows :
        (res : MetaResource) (meta : ObjectMetadata) (parent : MetaNode) (chain : List MetaNode)
        (before segments : List String)
        → (w w' : Work T) (r : Result DbError (MetaNode × List MetaNode)) → IsTree db w.forest
        → IsKnown db parent w.forest
        → persist_dirs db res meta parent chain before segments w ≡ (r, w')
        → Grows db w.forest w'.forest
    unfolding persist_dirs
    persist_dirs-Grows res meta parent chain before [] w w' r tree known h =
        let it : w ≡ w' = ground arith in
        subst (λ v. Grows db w.forest v.forest) it (Grows-refl w.forest tree)
    persist_dirs-Grows res meta parent chain before (segment ∷ segments) w w' r tree known h =
        let attrs = some (dir_attributes meta (before ++ segment ∷ [])) in
        let full = compose_node_full_name segment (some parent) "/" in
        elim (Bool-cases (is_object_type meta.node_type && is_last segments)) [
          | inl name ↦
              let it : w ≡ w' = ground arith in
              subst (λ v. Grows db w.forest v.forest) it (Grows-refl w.forest tree)
          | inr dir ↦
              elim (Exec-cases
                (upsert_node db res (some parent) "prefix" segment full attrs w.forest)) [
                  | inl (e, t, bad) ↦
                      let it : t ≡ w'.forest = ground arith in
                      subst (Grows db w.forest) it (
                        upsert_node-Grows db laws res (some parent) "prefix" segment full attrs
                          w.forest t (err e) tree known bad)
                  | inr (child, t, made) ↦
                      let next : Work T = record {
                        forest = t;
                        stats = ensure_node_aggregate child w.stats;
                      } in
                      let rest : persist_dirs db res meta child (chain ++ child ∷ [])
                            (before ++ segment ∷ []) segments next
                          ≡ (r, w') =
                        ground arith in
                      Grows-trans w.forest t w'.forest
                        (upsert_node-Grows db laws res (some parent) "prefix" segment full attrs
                          w.forest t (ok child) tree known made)
                        (λ tree_t.
                          persist_dirs-Grows res meta child (chain ++ child ∷ [])
                            (before ++ segment ∷ []) segments next w' r tree_t
                            (upsert_node-IsKnown res (some parent) "prefix" segment full attrs
                              w.forest t child known made)
                            rest)
                ]
        ]

    persist_path-Grows :
        (res : MetaResource) (bucket_node : MetaNode) (meta : ObjectMetadata)
        → (w w' : Work T) (r : Result DbError (MetaNode × List MetaNode)) → IsTree db w.forest
        → IsKnown db bucket_node w.forest
        → persist_path db res bucket_node meta w ≡ (r, w')
        → Grows db w.forest w'.forest
    unfolding persist_path
    persist_path-Grows res bucket_node meta w w' r tree known h =
        elim (Bool-cases (is_empty (sanitize_object_path meta.relative_path))) [
          | inl bare ↦
              let it : w.forest ≡ w'.forest = ground arith in
              subst (Grows db w.forest) it (Grows-refl w.forest tree)
          | inr named ↦
              persist_dirs-Grows res meta bucket_node (bucket_node ∷ []) []
                (split (sanitize_object_path meta.relative_path)) w w' r tree known (ground arith)
        ]

    persist_item-Grows :
        (res : MetaResource) (meta : ObjectMetadata) (found : MetaNode × List MetaNode)
        → (w w' : Work T) (r : Result DbError Unit) → IsTree db w.forest
        → persist_item db res meta found w ≡ (r, w')
        → Grows db w.forest w'.forest
    unfolding persist_item
    persist_item-Grows res meta (parent, chain) w w' r tree h =
        elim (Exec-cases (
          upsert_item db res parent "object" (object_name meta) (object_columns meta parent)
            w.forest)) [
              | inl (e, t, bad) ↦
                  let it : t ≡ w'.forest = ground arith in
                  subst (Grows db w.forest) it (
                    upsert_item-Grows res parent "object" (object_name meta)
                      (object_columns meta parent) w.forest t (err e) tree bad)
              | inr (x, t, done) ↦
                  let it : t ≡ w'.forest = ground arith in
                  subst (Grows db w.forest) it (
                    upsert_item-Grows res parent "object" (object_name meta)
                      (object_columns meta parent) w.forest t (ok x) tree done)
            ]

    persist_meta-Grows :
        (res : MetaResource) (bucket_node : MetaNode) (meta : ObjectMetadata)
        → (w w' : Work T) (r : Result DbError ℕ) → IsTree db w.forest
        → IsKnown db bucket_node w.forest
        → persist_meta db res bucket_node meta w ≡ (r, w')
        → Grows db w.forest w'.forest
    unfolding persist_meta
    persist_meta-Grows res bucket_node meta w w' r tree known h =
        elim (Bool-cases (is_bucket meta.node_type)) [
          | inl bucket ↦
              let it : w.forest ≡ w'.forest = ground arith in
              subst (Grows db w.forest) it (Grows-refl w.forest tree)
          | inr other ↦ elim (Exec-cases (persist_path db res bucket_node meta w)) [
            | inl (e, v, bad) ↦
                let it : v ≡ w' = ground arith in
                subst (λ u. Grows db w.forest u.forest) it
                  (persist_path-Grows res bucket_node meta w v (err e) tree known bad)
            | inr (found, v, made) ↦
                let first =
                  persist_path-Grows res bucket_node meta w v (ok found) tree known made in
                elim (Bool-cases (is_object_type meta.node_type)) [
                  | inr dir ↦
                      let it : v ≡ w' = ground arith in
                      subst (λ u. Grows db w.forest u.forest) it first
                  | inl object ↦ elim (Exec-cases (persist_item db res meta found v)) [
                    | inl (e, u, bad) ↦
                        let it : u ≡ w' = ground arith in
                        subst (λ x. Grows db w.forest x.forest) it
                          (Grows-trans w.forest v.forest u.forest first
                            (λ tree_v. persist_item-Grows res meta found v u (err e) tree_v bad))
                    | inr (x, u, done) ↦
                        let it : u ≡ w' = ground arith in
                        subst (λ y. Grows db w.forest y.forest) it
                          (Grows-trans w.forest v.forest u.forest first
                            (λ tree_v. persist_item-Grows res meta found v u (ok x) tree_v done))
                  ]
                ]
          ]
        ]

    persist_metas-Grows :
        (res : MetaResource) (bucket_node : MetaNode) (metas : List ObjectMetadata)
        → (w w' : Work T) (r : Result DbError ℕ) → IsTree db w.forest
        → IsKnown db bucket_node w.forest
        → persist_metas db res bucket_node metas w ≡ (r, w')
        → Grows db w.forest w'.forest
    unfolding persist_metas
    persist_metas-Grows res bucket_node [] w w' r tree known h =
        let it : w ≡ w' = ground arith in
        subst (λ u. Grows db w.forest u.forest) it (Grows-refl w.forest tree)
    persist_metas-Grows res bucket_node (meta ∷ metas) w w' r tree known h =
        elim (Exec-cases (persist_meta db res bucket_node meta w)) [
          | inl (e, v, bad) ↦
              let it : v ≡ w' = ground arith in
              subst (λ u. Grows db w.forest u.forest) it
                (persist_meta-Grows res bucket_node meta w v (err e) tree known bad)
          | inr (n, v, done) ↦
              let (tree_v, stable) =
                persist_meta-Grows res bucket_node meta w v (ok n) tree known done in
              let known_v = stable-IsKnown db bucket_node w.forest v.forest stable known in
              elim (Exec-cases (persist_metas db res bucket_node metas v)) [
                | inl (e, u, bad) ↦
                    let it : u ≡ w' = ground arith in
                    subst (λ x. Grows db w.forest x.forest) it
                      (Grows-trans w.forest v.forest u.forest (tree_v, stable)
                        (λ _.
                          persist_metas-Grows res bucket_node metas v u (err e) tree_v known_v bad))
                | inr (m, u, done') ↦
                    let it : u ≡ w' = ground arith in
                    subst (λ x. Grows db w.forest x.forest) it
                      (Grows-trans w.forest v.forest u.forest (tree_v, stable)
                        (λ _.
                          persist_metas-Grows res bucket_node metas v u (ok m) tree_v known_v
                            done'))
              ]
        ]

    -- persistObjectMetas keeps the tree and the places of the nodes, whatever fails.
    pub persist_object_metas-Grows :
        (res : MetaResource) (bucket_node : MetaNode) (metas : List ObjectMetadata)
        → (w w' : Work T) (r : Result DbError ℕ) → IsTree db w.forest
        → IsKnown db bucket_node w.forest
        → persist_object_metas db res bucket_node metas w ≡ (r, w')
        → Grows db w.forest w'.forest
    unfolding persist_object_metas
    persist_object_metas-Grows res bucket_node metas w w' r tree known h =
        elim (Exec-cases (persist_metas db res bucket_node metas w)) [
          | inl (e, v, bad) ↦
              let it : v.forest ≡ w'.forest = ground arith in
              subst (Grows db w.forest) it
                (persist_metas-Grows res bucket_node metas w v (err e) tree known bad)
          | inr (n, v, done) ↦
              let it : v.forest ≡ w'.forest = ground arith in
              subst (Grows db w.forest) it
                (persist_metas-Grows res bucket_node metas w v (ok n) tree known done)
        ]
