-- ===== src/Meta/Tree.antt =====
-- The tree that the nodes of a resource make: depths and paths follow the parents.
pub mod Writes
pub mod Upsert
pub mod Persist
pub mod Roots
pub mod Scan
use addp.Common.{
  ℕ, suc, String, Bool, true, false, ◌||◌, Option, none, some, ◌≡◌, refl, sym, ap, ◌∙◌, arith, ◌==◌,
  ==_iff, str_eq, eq_iff, if◌then◌else◌, inl, inr, Bool-cases, Option-cases,
}
use Prim.Native.String
use Prim.Native.String.{◌++◌}
use addp.Text.{is_empty}
use addp.Text.Decimal.{show}
use addp.Meta.Models.{MetaNode}
use addp.Meta.Store.{Forest}
use addp.Meta.Nodes.{compose_node_path}

-- the path that a node should have, or none yet: it is written after the node is made
abbrev pub is_path : String → String → Bool
is_path path expected = is_empty path || str_eq path expected

-- a node below its parent, if it has one
abbrev pub FitsParent : MetaNode → Option MetaNode → Type 0
FitsParent n none = (n.depth ≡ 1) × (is_path n.path (show n.id) ≡ true)
FitsParent n (some p) =
    (is_empty p.path ≡ false)
    × (n.depth ≡ suc p.depth)
    × (is_path n.path (p.path ++ ("/" ++ show n.id)) ≡ true)

module _ {T : Type 0} (db : Forest T) where
  -- Every root has depth 1 and its key as its path; every other node is one deeper than its
  -- parent, its path is the parent's with its own key behind it, and the parent has a path.
  pub record IsTree (s : T) : Type 0 where
    pub root :
        (j : ℕ) (n : MetaNode) → db.node s j ≡ some n → n.parent_node_id ≡ none → FitsParent n none
    pub child :
        (j k : ℕ) (n p : MetaNode)
        → db.node s j ≡ some n
        → n.parent_node_id ≡ some k
        → db.node s k ≡ some p
        → FitsParent n (some p)

  -- nodes that have a path are left in their place
  pub record IsStable (s t : T) : Type 0 where
    pub kept :
        (j : ℕ) (n : MetaNode)
        → db.node s j ≡ some n
        → is_empty n.path ≡ false
        → (m : MetaNode) × (db.node t j ≡ some m)
          × (m.path ≡ n.path)
          × (m.depth ≡ n.depth)
          × (m.parent_node_id ≡ n.parent_node_id)

  -- a node in memory, whose row has a path and the same place
  pub record IsKnown (n : MetaNode) (s : T) : Type 0 where
    pub full : is_empty n.path ≡ false
    pub stored :
        (m : MetaNode) × (db.node s n.id ≡ some m)
        × (m.path ≡ n.path)
        × (m.depth ≡ n.depth)
        × (m.parent_node_id ≡ n.parent_node_id)

  pub IsStable-refl : (s : T) → IsStable s s
  IsStable-refl s = record { kept = λ j n there full. (n, there, refl, refl, refl) }

  pub IsStable-trans : (s t u : T) → IsStable s t → IsStable t u → IsStable s u
  IsStable-trans s t u first second = record {
    kept = λ j n there full.
        let (m, there', path, depth, parent) = first.kept j n there full in
        let (k, there'', path', depth', parent') =
          second.kept j m there' (ap is_empty path ∙ full) in
        (k, there'', path' ∙ path, depth' ∙ depth, parent' ∙ parent);
  }

  pub stable-IsKnown : (n : MetaNode) (s t : T) → IsStable s t → IsKnown n s → IsKnown n t
  stable-IsKnown n s t stable known =
      let (m, there, path, depth, parent) = known.stored in
      let (k, there', path', depth', parent') =
        stable.kept n.id m there (ap is_empty path ∙ known.full) in
      record {
        full = known.full;
        stored = (k, there', path' ∙ path, depth' ∙ depth, parent' ∙ parent);
      }
