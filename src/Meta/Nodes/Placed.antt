-- ===== src/Meta/Nodes/Placed.antt =====
-- What upsertNode leaves behind, column by column.
use addp.Common.{
  ℕ, suc, String, true, Option, none, some, ok, ◌≡◌, refl, ap, ◌∙◌, arith, ==_iff, eq_iff,
  if◌then◌else◌,
}
use Prim.Native.String.{◌++◌}
use addp.Text.{is_empty}
use addp.Text.Decimal.{show}
use addp.Meta.Models.{JsonMap, MetaResource, MetaNode}
use addp.Meta.Store.{Forest, IsForest}
use addp.Meta.Nodes.{
  compose_node_path, compose_node_full_name, node_depth, node_id, same_parent, is_node,
  full_name_of, upsert_node,
}
use addp.Meta.Nodes.Upsert.{IsWritten, upsert_node-IsAsked}

-- the key of a parent, if there is one
abbrev pub key_of : Option MetaNode → Option ℕ
key_of none = none
key_of (some parent) = some parent.id

-- the node of a name and a type below a parent, in a tenant's resource
pub record IsNamed (res : MetaResource) (parent : Option MetaNode) (node_type name : String)
    (n : MetaNode) : Type 0 where
  pub resource : n.res_id ≡ res.id
  pub tenant : n.tenant_id ≡ res.tenant_id
  pub kind : n.node_type ≡ node_type
  pub named : n.name ≡ name
  pub below : n.parent_node_id ≡ key_of parent

-- roots have depth 1, and other nodes are one deeper than their parent
abbrev pub depth_below : Option MetaNode → ℕ
depth_below none = 1
depth_below (some parent) = suc parent.depth

-- the keys on the way down from the root, with slashes between them; a parent without a path
-- counts as a root
abbrev pub path_below : ℕ → Option MetaNode → String
path_below id none = show id
path_below id (some parent) =
    (if is_empty parent.path then show parent.id else parent.path) ++ ("/" ++ show id)

-- the name behind the parent's full name and a dot, if it has one
abbrev pub dotted : String → Option MetaNode → String
dotted name none = name
dotted name (some parent) =
    if is_empty parent.full_name then name else parent.full_name ++ ("." ++ name)

pub record IsPlaced (parent : Option MetaNode) (name full_name : String) (n : MetaNode)
    : Type 0 where
  pub depth : n.depth ≡ depth_below parent
  pub path : n.path ≡ path_below n.id parent
  pub full : n.full_name ≡ (if is_empty full_name then dotted name parent else full_name)

same_parent_true :
    (parent : Option MetaNode) (o : Option ℕ)
    → same_parent (node_id parent) o ≡ true
    → o ≡ key_of parent
same_parent_true none none h = refl
same_parent_true none (some j) h = cc
same_parent_true (some p) none h = cc
same_parent_true (some p) (some j) h = ground (arith, ==_iff j p.id)

same_parent_key : (parent : Option MetaNode) → same_parent (node_id parent) (key_of parent) ≡ true
same_parent_key none = refl
same_parent_key (some p) = (==_iff p.id p.id).1 refl

node_depth_lem : (parent : Option MetaNode) → node_depth parent ≡ depth_below parent
node_depth_lem none = refl
node_depth_lem (some p) = refl

compose_node_path_lem :
    (id : ℕ) (parent : Option MetaNode) → compose_node_path id parent ≡ path_below id parent
unfolding compose_node_path
compose_node_path_lem id none = refl
compose_node_path_lem id (some p) = ground arith

full_name_lem :
    (full_name name : String) (parent : Option MetaNode)
    → full_name_of full_name name parent
      ≡ (if is_empty full_name then dotted name parent else full_name)
unfolding full_name_of compose_node_full_name
full_name_lem full_name name none = refl
full_name_lem full_name name (some p) = ground arith

module _ (res : MetaResource) (parent : Option MetaNode) (node_type name : String) where
  pub is_node-IsNamed :
      (n : MetaNode)
      → is_node res parent node_type name n ≡ true
      → IsNamed res parent node_type name n
  unfolding is_node
  is_node-IsNamed n h = record {
    resource = ground (arith, ==_iff n.res_id res.id);
    tenant = ground (arith, ==_iff n.tenant_id res.tenant_id);
    kind = ground (arith, eq_iff n.node_type node_type);
    named = ground (arith, eq_iff n.name name);
    below = same_parent_true parent n.parent_node_id (ground arith);
  }

  IsNamed-is_node :
      (n : MetaNode)
      → IsNamed res parent node_type name n
      → is_node res parent node_type name n ≡ true
  unfolding is_node
  IsNamed-is_node n h =
      let under : same_parent (node_id parent) n.parent_node_id ≡ true =
        ap (same_parent (node_id parent)) h.below ∙ same_parent_key parent in
      ground (
        arith,
        h.resource,
        h.tenant,
        h.kind,
        h.named,
        ==_iff n.res_id res.id,
        ==_iff n.tenant_id res.tenant_id,
        eq_iff n.node_type node_type,
        eq_iff n.name name,
        under,
      )

module _ {T : Type 0} (db : Forest T) (laws : IsForest db) where
  -- If upsertNode returns a node, that node is stored and no other row is changed; it has the
  -- resource's key and tenant, the type, the name and the parent's key that were asked for; its
  -- depth and path follow from the parent's, and its full name is the one that was given or else
  -- its name behind the parent's full name, if the parent has one; and if its key was free before,
  -- no stored node had that resource, tenant, type, name and parent. The database meets its laws
  -- `IsForest`.
  pub upsert_node-IsPlaced :
      (res : MetaResource) (parent : Option MetaNode) (node_type name full_name : String)
      (attrs : Option JsonMap)
      → (s s' : T) (n : MetaNode)
      → upsert_node db res parent node_type name full_name attrs s ≡ (ok n, s')
      → IsWritten db n s s'
        × IsNamed res parent node_type name n
        × IsPlaced parent name full_name n
        × (db.node s n.id ≡ none
            → (i : ℕ) (m : MetaNode) → db.node s i ≡ some m
            → ¬ IsNamed res parent node_type name m)
  upsert_node-IsPlaced res parent node_type name full_name attrs s s' n h =
      let (written, asked, fresh) =
        upsert_node-IsAsked db laws res parent node_type name full_name attrs s s' n h in
      (
        written,
        is_node-IsNamed res parent node_type name n asked.is_it,
        record {
          depth = asked.depth ∙ node_depth_lem parent;
          path = asked.path ∙ compose_node_path_lem n.id parent;
          full = asked.full ∙ full_name_lem full_name name parent;
        },
        λ free i m there same. absurd (
            ground (arith, fresh free i m there, IsNamed-is_node res parent node_type name m same)),
      )
