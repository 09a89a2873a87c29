-- ===== src/Meta/Tree/Upsert.antt =====
-- upsertNode keeps the tree, whichever of its statements fails.
use addp.Common.{
  ℕ, suc, String, true, false, Option, none, some, Result, ok, err, ◌≡◌, refl, sym, ap, ◌∙◌, arith,
  ==_iff, eq_iff, inl, inr, Bool-cases, Option-cases,
}
use mathlib.Core.Path.{subst}
use Prim.Native.String.{◌++◌}
use addp.Common.Outcome.{Result-cases, Exec-cases}
use addp.Db.{DbError, not_found, failed}
use addp.Text.{is_empty}
use addp.Text.Decimal.{show}
use addp.Meta.Models.{JsonMap, MetaResource, MetaNode}
use addp.Meta.Store.{Forest, IsForest}
use addp.Meta.Nodes.{
  compose_node_path, node_depth, node_id, same_parent, is_node, new_node, full_name_of, place_node,
  is_stale, refresh, update_node, create_node, insert_node, refresh_node, upsert_node,
}
use addp.Meta.Tree.{
  FitsParent, IsTree, IsStable, IsKnown, IsStable-refl, IsStable-trans, stable-IsKnown,
}
use addp.Meta.Tree.Writes.{
  IsMove, IsNew, update-IsStable, update-IsTree, create-IsStable, create-IsTree,
}

module _ {T : Type 0} (db : Forest T) where
  -- the parent in memory, if there is one, is known
  abbrev pub IsKnownParent : Option MetaNode → T → Type 0
  IsKnownParent none s = Unit
  IsKnownParent (some p) s = IsKnown db p s

  abbrev pub Grows : T → T → Type 0
  Grows s t = IsTree db t × IsStable db s t

  stable-IsKnownParent :
      (parent : Option MetaNode) (s t : T)
      → IsStable db s t
      → IsKnownParent parent s
      → IsKnownParent parent t
  stable-IsKnownParent none s t stable known = tt
  stable-IsKnownParent (some p) s t stable known = stable-IsKnown db p s t stable known

  -- a node in its place below a known parent
  fits_root :
      (x : MetaNode) (parent : Option MetaNode) (s : T)
      → x.depth ≡ node_depth parent
      → x.path ≡ compose_node_path x.id parent
      → x.parent_node_id ≡ node_id parent
      → x.parent_node_id ≡ none
      → FitsParent x none
  unfolding compose_node_path
  fits_root x none s depth path under top = (depth, ground (arith, eq_iff x.path (show x.id)))
  fits_root x (some q) s depth path under top = absurd (ground arith)

  fits_child :
      (x : MetaNode) (parent : Option MetaNode) (s : T)
      → IsKnownParent parent s
      → x.depth ≡ node_depth parent
      → x.path ≡ compose_node_path x.id parent
      → x.parent_node_id ≡ node_id parent
      → (k : ℕ) (p : MetaNode) → x.parent_node_id ≡ some k
      → db.node s k ≡ some p
      → FitsParent x (some p)
  unfolding compose_node_path
  fits_child x none s known depth path under k p above held = absurd (ground arith)
  fits_child x (some q) s known depth path under k p above held =
      let (m, stored, same_path, same_depth, same_parent) = known.stored in
      let is_m : p ≡ m = ground arith in
      let p_path : p.path ≡ q.path = ap (λ n. n.path) is_m ∙ same_path in
      let p_depth : p.depth ≡ q.depth = ap (λ n. n.depth) is_m ∙ same_depth in
      let full = known.full in
      let whole : x.path ≡ q.path ++ ("/" ++ show x.id) = ground arith in
      let placed : x.path ≡ p.path ++ ("/" ++ show x.id) =
        whole ∙ ap (λ t. t ++ ("/" ++ show x.id)) (sym p_path) in
      (
        ap is_empty p_path ∙ full,
        depth ∙ ap suc (sym p_depth),
        ground (arith, eq_iff x.path (p.path ++ ("/" ++ show x.id))),
      )

  -- a stored node has the depth, and the path if it has any, that its known parent gives it
  stored_place :
      (n : MetaNode) (parent : Option MetaNode) (s : T)
      → IsTree db s
      → IsKnownParent parent s
      → db.node s n.id ≡ some n
      → n.parent_node_id ≡ node_id parent
      → (n.depth ≡ node_depth parent)
        × (is_empty n.path ≡ false → n.path ≡ compose_node_path n.id parent)
  unfolding compose_node_path
  stored_place n none s tree known there under =
      let (depth, path) = tree.root n.id n there under in
      (depth, λ full. ground (arith, eq_iff n.path (show n.id)))
  stored_place n (some q) s tree known there under =
      let (m, stored, same_path, same_depth, same_parent) = known.stored in
      let (full_m, depth, path) = tree.child n.id q.id n m there under stored in
      let full = known.full in
      let moved : m.path ++ ("/" ++ show n.id) ≡ q.path ++ ("/" ++ show n.id) =
        ap (λ t. t ++ ("/" ++ show n.id)) same_path in
      (
        depth ∙ ap suc same_depth,
        λ here. ground (arith, eq_iff n.path (m.path ++ ("/" ++ show n.id))),
      )

  -- whatever is_node says of a node's parent
  pub is_node-parent :
      (res : MetaResource) (parent : Option MetaNode) (node_type name : String) (n : MetaNode)
      → is_node res parent node_type name n ≡ true
      → n.parent_node_id ≡ node_id parent
  unfolding is_node
  is_node-parent res none node_type name n h = elim (Option-cases n.parent_node_id) [
    | inl top ↦ top
    | inr (k, under) ↦ absurd (ground arith)
  ]
  is_node-parent res (some p) node_type name n h = elim (Option-cases n.parent_node_id) [
    | inl top ↦ absurd (ground arith)
    | inr (k, under) ↦ ground (arith, ==_iff k p.id)
  ]

  module _ (laws : IsForest db) where
    pub step_update :
        (n : MetaNode) (f : MetaNode → MetaNode) (s t : T) (r : Result DbError Unit)
        → IsTree db s
        → db.node s n.id ≡ some n
        → IsMove db laws f n s
        → update_node db n.id f s ≡ (r, t)
        → Grows s t
    unfolding update_node
    step_update n f s t r tree there move h = elim (Result-cases (db.update_node s n.id f)) [
      | inl (e, bad) ↦
          let it : s ≡ t = ground arith in subst (Grows s) it (tree, IsStable-refl db s)
      | inr (u, done) ↦
          let it : u ≡ t = ground arith in
          subst (Grows s) it (
            update-IsTree db laws n.id f n s u tree there move done,
            update-IsStable db laws n.id f n s u there move done,
          )
    ]

    unplaced-IsNew :
        (n : MetaNode) (parent : Option MetaNode) (s : T)
        → IsKnownParent parent s
        → n.path ≡ ""
        → n.depth ≡ node_depth parent
        → n.parent_node_id ≡ node_id parent
        → IsNew db laws n s
    unplaced-IsNew n none s known bare depth under = (
      bare,
      λ top. depth,
      λ k p above held. absurd (ground arith),
      λ k above. absurd (ground arith),
    )
    unplaced-IsNew n (some q) s known bare depth under =
        let (m, stored, same_path, same_depth, same_parent) = known.stored in
        let full = known.full in
        (
          bare,
          λ top. absurd (ground arith),
          λ k p above held.
              let is_m : p ≡ m = ground arith in
              (
                ap (λ x. is_empty x.path) is_m ∙ ap is_empty same_path ∙ full,
                depth ∙ ap suc (sym same_depth ∙ ap (λ x. x.depth) (sym is_m)),
              ),
          λ k above. (m, ground arith),
        )

    place_node-IsMove :
        (m : MetaNode) (parent : Option MetaNode) (s : T)
        → IsKnownParent parent s
        → m.path ≡ ""
        → m.depth ≡ node_depth parent
        → m.parent_node_id ≡ node_id parent
        → IsMove db laws (place_node m.id parent) m s
    unfolding place_node
    place_node-IsMove m parent s known bare depth under = record {
      same_id = λ x. refl;
      same_parent = λ x. refl;
      same_path = λ full. absurd (ground (arith, ap is_empty bare));
      same_depth = λ full. refl;
      as_root = fits_root (place_node m.id parent m) parent s depth refl under;
      as_child = fits_child (place_node m.id parent m) parent s known depth refl under;
    }

    refresh-IsMove :
        (n : MetaNode) (parent : Option MetaNode) (full : String) (attrs : Option JsonMap) (s : T)
        → IsTree db s
        → IsKnownParent parent s
        → db.node s n.id ≡ some n
        → n.parent_node_id ≡ node_id parent
        → IsMove db laws (refresh n parent full attrs) n s
    unfolding refresh
    refresh-IsMove n parent full attrs s tree known there under =
        let (depth, path) = stored_place n parent s tree known there under in
        let new_depth : (refresh n parent full attrs n).depth ≡ node_depth parent =
          ground (arith, ==_iff n.depth (node_depth parent)) in
        let new_path : (refresh n parent full attrs n).path ≡ compose_node_path n.id parent =
          ground (arith, eq_iff n.path (compose_node_path n.id parent)) in
        record {
          same_id = λ x. refl;
          same_parent = λ x. refl;
          same_path = λ here. new_path ∙ sym (path here);
          same_depth = λ here. new_depth ∙ sym depth;
          as_root = fits_root (refresh n parent full attrs n) parent s new_depth new_path under;
          as_child =
              fits_child (refresh n parent full attrs n) parent s known new_depth new_path under;
        }

    insert_node-Grows :
        (res : MetaResource) (parent : Option MetaNode) (node_type name full_name : String)
        (attrs : Option JsonMap)
        → (s t : T) (r : Result DbError MetaNode) → IsTree db s
        → IsKnownParent parent s
        → insert_node db res parent node_type name full_name attrs s ≡ (r, t)
        → Grows s t
    unfolding insert_node create_node
    insert_node-Grows res parent node_type name full_name attrs s t r tree known h =
        let raw = new_node res parent node_type name full_name attrs in
        elim (Result-cases (db.create_node s raw)) [
          | inl (e, bad) ↦
              let it : s ≡ t = ground arith in subst (Grows s) it (tree, IsStable-refl db s)
          | inr ((m, u), made) ↦
              let (positive, shape, fresh) = laws.create_node_row s raw m u made in
              let bare : m.path ≡ "" = ap (λ x. x.path) shape ∙ (unfold new_node in refl) in
              let depth : m.depth ≡ node_depth parent =
                ap (λ x. x.depth) shape ∙ (unfold new_node in refl) in
              let under : m.parent_node_id ≡ node_id parent =
                ap (λ x. x.parent_node_id) shape ∙ (unfold new_node in refl) in
              let tree_u =
                create-IsTree db laws raw m s u tree
                  (unplaced-IsNew m parent s known bare depth under) made in
              let stable_u = create-IsStable db laws raw m s u made in
              let there : db.node u m.id ≡ some m =
                ground
                  (arith, laws.create_node_at s raw m u made m.id, (==_iff m.id m.id).1 refl) in
              let known_u = stable-IsKnownParent parent s u stable_u known in
              elim (Exec-cases (update_node db m.id (place_node m.id parent) u)) [
                | inl (e, v, failed_update) ↦
                    let it : v ≡ t = ground arith in
                    let (tree_v, stable_v) =
                      step_update m (place_node m.id parent) u v (err e) tree_u there
                        (place_node-IsMove m parent u known_u bare depth under) failed_update in
                    subst (Grows s) it (tree_v, IsStable-trans db s u v stable_u stable_v)
                | inr (x, v, done) ↦
                    let it : v ≡ t = ground arith in
                    let (tree_v, stable_v) =
                      step_update m (place_node m.id parent) u v (ok x) tree_u there
                        (place_node-IsMove m parent u known_u bare depth under) done in
                    subst (Grows s) it (tree_v, IsStable-trans db s u v stable_u stable_v)
              ]
        ]

    refresh_node-Grows :
        (node : MetaNode) (parent : Option MetaNode) (full : String) (attrs : Option JsonMap)
        → (s t : T) (r : Result DbError MetaNode) → IsTree db s
        → IsKnownParent parent s
        → db.node s node.id ≡ some node
        → node.parent_node_id ≡ node_id parent
        → refresh_node db node parent full attrs s ≡ (r, t)
        → Grows s t
    unfolding refresh_node
    refresh_node-Grows node parent full attrs s t r tree known there under h =
        let move = refresh-IsMove node parent full attrs s tree known there under in
        elim (Bool-cases (is_stale node parent full attrs)) [
          | inr fresh ↦
              let it : s ≡ t = ground arith in subst (Grows s) it (tree, IsStable-refl db s)
          | inl stale ↦
              elim (Exec-cases (update_node db node.id (refresh node parent full attrs) s)) [
                | inl (e, v, failed_update) ↦
                    let it : v ≡ t = ground arith in
                    subst (Grows s) it (
                      step_update node (refresh node parent full attrs) s v (err e) tree there move
                        failed_update)
                | inr (x, v, done) ↦
                    let it : v ≡ t = ground arith in
                    subst (Grows s) it (
                      step_update node (refresh node parent full attrs) s v (ok x) tree there move
                        done)
              ]
        ]

    -- upsertNode keeps the tree and every node's place, below a known parent or at the root.
    pub upsert_node-Grows :
        (res : MetaResource) (parent : Option MetaNode) (node_type name full_name : String)
        (attrs : Option JsonMap)
        → (s t : T) (r : Result DbError MetaNode) → IsTree db s
        → IsKnownParent parent s
        → upsert_node db res parent node_type name full_name attrs s ≡ (r, t)
        → Grows s t
    unfolding upsert_node
    upsert_node-Grows res parent node_type name full_name attrs s t r tree known h =
        elim (Result-cases (db.first_node s (is_node res parent node_type name))) [
          | inl (not_found, absent) ↦
              insert_node-Grows res parent node_type name full_name attrs s t r tree known
                (ground arith)
          | inl (failed e, bad) ↦
              let it : s ≡ t = ground arith in subst (Grows s) it (tree, IsStable-refl db s)
          | inr (node, found) ↦
              let (there, it) =
                laws.first_node_ok s (is_node res parent node_type name) node found in
              refresh_node-Grows node parent (full_name_of full_name name parent) attrs s t r tree
                known there (is_node-parent res parent node_type name node it) (ground arith)
        ]
