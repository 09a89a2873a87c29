-- ===== src/Meta/Tree/Writes.antt =====
-- Single writes keep the tree.
use addp.Common.{
  ℕ, suc, String, Bool, true, false, none, some, ok, ◌≡◌, refl, sym, ap, ◌∙◌, arith, ◌==◌, ==_iff,
  inl, inr, Bool-cases,
}
use mathlib.Core.Path.{subst}
use Prim.Native.String
use addp.Text.Decimal
use addp.Text.{is_empty}
use addp.Meta.Models.{MetaNode}
use addp.Meta.Store.{Forest, IsForest}
use addp.Meta.Tree.{is_path, FitsParent, IsTree, IsStable}

module _ {T : Type 0} (db : Forest T) (laws : IsForest db) where
  -- one row changed: it keeps its key and its parent, it keeps its place if it has a path, and it
  -- fits the stored parent
  pub record IsMove (f : MetaNode → MetaNode) (n : MetaNode) (s : T) : Type 0 where
    pub same_id : (m : MetaNode) → (f m).id ≡ m.id
    pub same_parent : (m : MetaNode) → (f m).parent_node_id ≡ m.parent_node_id
    pub same_path : is_empty n.path ≡ false → (f n).path ≡ n.path
    pub same_depth : is_empty n.path ≡ false → (f n).depth ≡ n.depth
    pub as_root : n.parent_node_id ≡ none → FitsParent (f n) none
    pub as_child :
        (k : ℕ) (p : MetaNode)
        → n.parent_node_id ≡ some k
        → db.node s k ≡ some p
        → FitsParent (f n) (some p)

  pub update-IsStable :
      (i : ℕ) (f : MetaNode → MetaNode) (n : MetaNode) (s t : T)
      → db.node s i ≡ some n
      → IsMove f n s
      → db.update_node s i f ≡ ok t
      → IsStable db s t
  update-IsStable i f n s t there move done = record {
    kept = λ j m at full. elim (Bool-cases (i == j)) [
      | inr other ↦ (
        m,
        ground (arith, laws.update_node_at s i f t move.same_id move.same_parent done j),
        refl,
        refl,
        refl,
      )
      | inl here ↦
          let same : m ≡ n = ground (arith, ==_iff i j) in
          (
            f n,
            ground (arith, laws.update_node_at s i f t move.same_id move.same_parent done j),
            move.same_path (ap (λ x. is_empty x.path) (sym same) ∙ full)
                ∙ ap (λ x. x.path) (sym same),
            move.same_depth (ap (λ x. is_empty x.path) (sym same) ∙ full)
                ∙ ap (λ x. x.depth) (sym same),
            move.same_parent n ∙ ap (λ x. x.parent_node_id) (sym same),
          )
    ];
  }

  moved-FitsParent :
      (f : MetaNode → MetaNode) (n x : MetaNode) (s : T)
      → IsMove f n s
      → FitsParent x (some n)
      → FitsParent x (some (f n))
  moved-FitsParent f n x s move (full, depth, path) =
      let same_path = move.same_path full in
      let same_depth = move.same_depth full in
      (
        ap is_empty same_path ∙ full,
        depth ∙ ap suc (sym same_depth),
        ap (λ p. is_path x.path (String.◌++◌ p (String.◌++◌ "/" (Decimal.show x.id)))) same_path
            ∙ path,
      )

  pub update-IsTree :
      (i : ℕ) (f : MetaNode → MetaNode) (n : MetaNode) (s t : T)
      → IsTree db s
      → db.node s i ≡ some n
      → IsMove f n s
      → db.update_node s i f ≡ ok t
      → IsTree db t
  update-IsTree i f n s t tree there move done =
      let at = laws.update_node_at s i f t move.same_id move.same_parent done in
      record {
        root = λ j m stored top. elim (Bool-cases (i == j)) [
          | inr other ↦ tree.root j m (ground (arith, at j)) top
          | inl here ↦
              let same : f n ≡ m = ground (arith, at j, ==_iff i j) in
              subst (λ x. FitsParent x none) same
                (move.as_root (sym (move.same_parent n) ∙ ap (λ x. x.parent_node_id) same ∙ top))
        ];
        child = λ j k m p stored under above.
            let lower : (q : MetaNode) → db.node s k ≡ some q → FitsParent m (some q) = λ q held.
              elim (Bool-cases (i == j)) [
                | inr other ↦ tree.child j k m q (ground (arith, at j)) under held
                | inl here ↦
                    let same : f n ≡ m = ground (arith, at j, ==_iff i j) in
                    subst (λ x. FitsParent x (some q)) same
                      (move.as_child k q
                        (sym (move.same_parent n) ∙ ap (λ x. x.parent_node_id) same ∙ under) held)
              ] in
            elim (Bool-cases (i == k)) [
              | inr other ↦ lower p (ground (arith, at k))
              | inl here ↦
                  let same : f n ≡ p = ground (arith, at k, ==_iff i k) in
                  subst (λ x. FitsParent m (some x)) same
                    (moved-FitsParent f n m s move (lower n (ground (arith, ==_iff i k))))
            ];
      }

  -- a new node without a path below a known parent, or at the root
  abbrev pub IsNew : MetaNode → T → Type 0
  IsNew n s =
      (n.path ≡ "")
      × (n.parent_node_id ≡ none → n.depth ≡ 1)
      × ((k : ℕ) (p : MetaNode)
          → n.parent_node_id ≡ some k
          → db.node s k ≡ some p
          → (is_empty p.path ≡ false) × (n.depth ≡ suc p.depth))
      × ((k : ℕ) → n.parent_node_id ≡ some k → (p : MetaNode) × (db.node s k ≡ some p))

  pub create-IsStable :
      (n n' : MetaNode) (s t : T) → db.create_node s n ≡ ok (n', t) → IsStable db s t
  create-IsStable n n' s t made =
      let (positive, shape, fresh) = laws.create_node_row s n n' t made in
      record {
        kept = λ j m there full. (
          m,
          ground (arith, laws.create_node_at s n n' t made j, fresh, there, ==_iff n'.id j),
          refl,
          refl,
          refl,
        );
      }

  pub create-IsTree :
      (n n' : MetaNode) (s t : T)
      → IsTree db s
      → IsNew n' s
      → db.create_node s n ≡ ok (n', t)
      → IsTree db t
  create-IsTree n n' s t tree (bare, as_root, as_child, held) made =
      let (positive, shape, fresh) = laws.create_node_row s n n' t made in
      let at = laws.create_node_at s n n' t made in
      let blank : (e : String) → is_path n'.path e ≡ true = λ e. ap (λ p. is_path p e) bare in
      record {
        root = λ j m stored top. elim (Bool-cases (n'.id == j)) [
          | inr other ↦ tree.root j m (ground (arith, at j)) top
          | inl here ↦
              let same : n' ≡ m = ground (arith, at j) in
              subst (λ x. FitsParent x none) same
                (as_root (ap (λ x. x.parent_node_id) same ∙ top), blank (Decimal.show n'.id))
        ];
        child = λ j k m p stored under above. elim (Bool-cases (n'.id == j)) [
          | inl here ↦
              let same : n' ≡ m = ground (arith, at j) in
              let under' : n'.parent_node_id ≡ some k = ap (λ x. x.parent_node_id) same ∙ under in
              let (q, old) = held k under' in
              let is_q : p ≡ q = ground (arith, at k, fresh, old, above, ==_iff n'.id k) in
              let (full, depth) = as_child k q under' old in
              subst (λ x. FitsParent x (some p)) same
                (
                  ap (λ x. is_empty x.path) is_q ∙ full,
                  depth ∙ ap (λ x. suc x.depth) (sym is_q),
                  blank (String.◌++◌ p.path (String.◌++◌ "/" (Decimal.show n'.id))),
                )
          | inr other ↦
              let (q, old) = laws.node_parent s j k m (ground (arith, at j)) under in
              tree.child j k m p (ground (arith, at j)) under
                (ground (arith, at k, fresh, old, above, ==_iff n'.id k))
        ];
      }

  pub delete-IsTree :
      (p : MetaNode → Bool) (s t : T) → IsTree db s → db.delete_nodes s p ≡ ok t → IsTree db t
  delete-IsTree p s t tree done = record {
    root = λ j m stored top. tree.root j m (laws.delete_nodes_left s p t done j m stored).0 top;
    child = λ j k m q stored under above.
        tree.child j k m q (laws.delete_nodes_left s p t done j m stored).0 under
          (laws.delete_nodes_left s p t done k q above).0;
  }
