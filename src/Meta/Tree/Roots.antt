-- ===== src/Meta/Tree/Roots.antt =====
-- The statements of scanObjectStoragePaths on the nodes of its buckets.
use addp.Common.{
  ℕ, String, false, not, ◌&&◌, Option, none, Result, ok, ◌≡◌, refl, ap, ◌∙◌, arith, ◌==◌, ==_iff,
  inl, inr, Bool-cases, Option-cases,
}
use mathlib.Core.Path.{subst}
use addp.Common.Outcome.{Result-cases}
use addp.Db.{DbError}
use addp.Text.{is_empty}
use addp.Text.Decimal.{show, lies_in-show}
use addp.Text.Inside.{lies_in}
use addp.Meta.Models.{JsonMap, MetaResource, MetaNode}
use addp.Meta.Store.{Forest, IsForest}
use addp.Meta.Nodes.{
  compose_node_path, upsert_node, update_node, hard_delete_items_by_node,
  hard_delete_descendant_nodes,
}
use addp.Meta.Nodes.Upsert.{upsert_node-IsAsked}
use Prim.Native.String
use addp.Meta.Tree
use addp.Meta.Tree.{FitsParent, IsTree, IsStable, IsKnown, stable-IsKnown}
use addp.Meta.Tree.Writes.{IsMove, delete-IsTree}
use addp.Meta.Tree.Upsert.{Grows, step_update, is_node-parent}
use addp.Meta.Tree.Persist.{same_nodes-Grows, upsert_node-IsKnown}

module _ {T : Type 0} (db : Forest T) where
  -- the node of a bucket
  pub record IsKnownRoot (b : MetaNode) (s : T) : Type 0 where
    pub known : IsKnown db b s
    pub top : b.parent_node_id ≡ none
    pub named : b.path ≡ show b.id

  -- a tree again, in which the nodes of the buckets are where they were
  abbrev pub Holds : T → T → Type 0
  Holds s t = IsTree db t × ((b : MetaNode) → IsKnownRoot b s → IsKnownRoot b t)

  pub Grows-Holds : (s t : T) → Grows db s t → Holds s t
  Grows-Holds s t (tree, stable) = (
    tree,
    λ b root. record {
      known = stable-IsKnown db b s t stable root.known;
      top = root.top;
      named = root.named;
    },
  )

  module _ (laws : IsForest db) where
    absent-Grows :
        (id : ℕ) (f : MetaNode → MetaNode) (s t : T) (r : Result DbError Unit)
        → ((m : MetaNode) → (f m).id ≡ m.id)
        → ((m : MetaNode) → (f m).parent_node_id ≡ m.parent_node_id)
        → IsTree db s
        → db.node s id ≡ none
        → update_node db id f s ≡ (r, t)
        → Grows db s t
    unfolding update_node
    absent-Grows id f s t r same_id under tree absent h =
        elim (Result-cases (db.update_node s id f)) [
          | inl (e, bad) ↦
              let it : s ≡ t = ground arith in
              subst (Grows db s) it (same_nodes-Grows db s s (λ j. refl) tree)
          | inr (u, done) ↦
              let it : u ≡ t = ground arith in
              subst (Grows db s) it (
                same_nodes-Grows db s u
                  (λ j.
                    ground (
                      arith,
                      laws.update_node_at s id f u same_id under done j,
                      absent,
                      ==_iff id j,
                    ))
                  tree)
        ]

    -- columns that place no node
    pub status-Holds :
        (id : ℕ) (f : MetaNode → MetaNode) (s t : T) (r : Result DbError Unit)
        → ((m : MetaNode) → (f m).id ≡ m.id)
        → ((m : MetaNode) → (f m).parent_node_id ≡ m.parent_node_id)
        → ((m : MetaNode) → (f m).path ≡ m.path)
        → ((m : MetaNode) → (f m).depth ≡ m.depth)
        → IsTree db s
        → update_node db id f s ≡ (r, t)
        → Holds s t
    status-Holds id f s t r same_id under path depth tree h = elim (Option-cases (db.node s id)) [
      | inr (n, there) ↦
          let key = laws.node_key s id n there in
          let move : IsMove db laws f n s = record {
            same_id = same_id;
            same_parent = under;
            same_path = λ full. path n;
            same_depth = λ full. depth n;
            as_root = λ top.
                let (d, p) = tree.root id n there top in
                (
                  depth n ∙ d,
                  ap (λ x. Tree.is_path x (show (f n).id)) (path n)
                      ∙ ap (λ x. Tree.is_path n.path (show x)) (same_id n)
                      ∙ p,
                );
            as_child = λ k q above held.
                let (full, d, p) = tree.child id k n q there above held in
                (
                  full,
                  depth n ∙ d,
                  ap (λ x. Tree.is_path x (String.◌++◌ q.path (String.◌++◌ "/" (show (f n).id))))
                        (path n)
                      ∙ ap
                          (λ x. Tree.is_path n.path (String.◌++◌ q.path (String.◌++◌ "/" (show x))))
                          (same_id n)
                      ∙ p,
                );
          } in
          Grows-Holds s t (
            step_update db laws n f s t r tree (ap (db.node s) key ∙ there) move
              (ap (λ i. update_node db i f s) key ∙ h))
      | inl absent ↦ Grows-Holds s t (absent-Grows id f s t r same_id under tree absent h)
    ]

    IsKnownRoot-kept :
        (node b : MetaNode) (s t : T)
        → IsKnownRoot node s
        → db.delete_nodes s (λ n. lies_in node.path n.path && not (n.id == node.id)) ≡ ok t
        → IsKnownRoot b s
        → IsKnownRoot b t
    IsKnownRoot-kept node b s t at done root =
        let (m, there, path, depth, parent) = root.known.stored in
        let outside : lies_in node.path m.path ≡ false =
          ap (lies_in node.path) (path ∙ root.named) ∙ lies_in-show node.path b.id in
        let kept : db.node t b.id ≡ db.node s b.id =
          laws.delete_nodes_kept s (λ n. lies_in node.path n.path && not (n.id == node.id)) t
            (λ j. j == b.id) done (λ j n here held. ground (arith, there, outside, ==_iff j b.id))
            (λ j k n here held above.
              absurd (ground (arith, there, parent, root.top, ==_iff j b.id)))
            b.id ((==_iff b.id b.id).1 refl) in
        record {
          known = record {
            full = root.known.full;
            stored = (m, kept ∙ there, path, depth, parent);
          };
          top = root.top;
          named = root.named;
        }

    pub descendants-Holds :
        (node : MetaNode) (s t : T) (r : Result DbError Unit)
        → IsTree db s
        → IsKnownRoot node s
        → hard_delete_descendant_nodes db node s ≡ (r, t)
        → Holds s t
    unfolding hard_delete_descendant_nodes
    descendants-Holds node s t r tree at h = elim (Bool-cases (is_empty node.path)) [
      | inl bare ↦ let it : s ≡ t = ground arith in subst (Holds s) it (tree, λ b root. root)
      | inr full ↦
          elim (Result-cases
            (db.delete_nodes s (λ n. lies_in node.path n.path && not (n.id == node.id)))) [
              | inl (e, bad) ↦
                  let it : s ≡ t = ground arith in subst (Holds s) it (tree, λ b root. root)
              | inr (u, done) ↦
                  let it : u ≡ t = ground arith in
                  subst (Holds s) it (
                    delete-IsTree db laws (λ n. lies_in node.path n.path && not (n.id == node.id)) s
                        u tree done,
                    λ b. IsKnownRoot-kept node b s u at done,
                  )
            ]
    ]

    pub items-Holds :
        (id : ℕ) (s t : T) (r : Result DbError Unit)
        → IsTree db s
        → hard_delete_items_by_node db id s ≡ (r, t)
        → Holds s t
    unfolding hard_delete_items_by_node
    items-Holds id s t r tree h = elim (Result-cases (db.delete_items s (λ x. x.node_id == id))) [
      | inl (e, bad) ↦ let it : s ≡ t = ground arith in subst (Holds s) it (tree, λ b root. root)
      | inr (u, done) ↦
          let it : u ≡ t = ground arith in
          subst (Holds s) it (
            Grows-Holds s u (
              same_nodes-Grows db s u (laws.delete_items_nodes s (λ x. x.node_id == id) u done)
                tree))
    ]

    -- a bucket's node that upsertNode returned
    pub upsert_root :
        (res : MetaResource) (b : String) (attrs : Option JsonMap) (s t : T) (n : MetaNode)
        → upsert_node db res none "bucket" b b attrs s ≡ (ok n, t)
        → IsKnownRoot n t
    upsert_root res b attrs s t n h =
        let (written, placed, new) =
          upsert_node-IsAsked db laws res none "bucket" b b attrs s t n h in
        record {
          known = upsert_node-IsKnown db laws res none "bucket" b b attrs s t n tt h;
          top = is_node-parent db res none "bucket" b n placed.is_it;
          named = placed.path ∙ (unfold compose_node_path in refl);
        }
