-- ===== src/Meta/Nodes.antt =====
-- The nodes and items that a scan writes: the first half of
-- meta/backend/internal/service/scan_service_new.go.
pub mod Upsert
pub mod Placed
pub mod Items
use addp.Common.{
  ℕ, suc, String, Bool, true, false, not, ◌&&◌, ◌||◌, Option, none, some, List, [], ◌∷◌, Result, ok,
  err, Exec, ◌==◌, str_eq, if◌then◌else◌,
}
use mathlib.Core.Option
use Prim.Native.String
use Prim.Native.String.{◌++◌}
use addp.Common.Int.{ℤ, pos}
use addp.Common.Outcome.{pure, raise, lift, ◌>>=◌, ◌>>◌}
use addp.Db.{DbError, not_found, failed}
use addp.Text.{is_empty}
use addp.Text.Decimal.{show}
use addp.Text.Inside.{lies_in}
use addp.Meta.Models.{
  JsonMap, ScanStatus, unscanned, scanning, scanned, MetaResource, MetaNode, MetaItem,
}
use addp.Meta.Store.{Forest}

unfoldable pub compose_node_path : ℕ → Option MetaNode → String
unfolding show
compose_node_path id none = show id
compose_node_path id (some parent) =
    if is_empty parent.path
    then show parent.id ++ ("/" ++ show id)
    else parent.path ++ ("/" ++ show id)

-- an empty separator stands for a dot
unfoldable pub compose_node_full_name : String → Option MetaNode → String → String
compose_node_full_name name none separator = name
compose_node_full_name name (some parent) separator =
    if is_empty parent.full_name
    then name
    else parent.full_name ++ ((if is_empty separator then "." else separator) ++ name)

-- the depth below a parent
abbrev pub node_depth : Option MetaNode → ℕ
node_depth none = 1
node_depth (some parent) = suc parent.depth

abbrev pub node_id : Option MetaNode → Option ℕ
node_id none = none
node_id (some n) = some n.id

-- parent_node_id IS NULL, or parent_node_id = ?
abbrev pub same_parent : Option ℕ → Option ℕ → Bool
same_parent none none = true
same_parent none (some j) = false
same_parent (some i) none = false
same_parent (some i) (some j) = j == i

-- the row that upsertNode looks for
unfoldable pub is_node : MetaResource → Option MetaNode → String → String → MetaNode → Bool
is_node res parent node_type name n =
    n.res_id == res.id
    && n.tenant_id == res.tenant_id
    && str_eq n.node_type node_type
    && str_eq n.name name
    && same_parent (node_id parent) n.parent_node_id

abbrev pub or_empty : Option JsonMap → JsonMap
or_empty none = []
or_empty (some attrs) = attrs

unfoldable pub new_node :
    MetaResource → Option MetaNode → String → String → String → Option JsonMap → MetaNode
new_node res parent node_type name full_name attrs = record {
  id = 0;
  tenant_id = res.tenant_id;
  res_id = res.id;
  parent_node_id = node_id parent;
  node_type = node_type;
  name = name;
  depth = node_depth parent;
  path = "";
  full_name = full_name;
  status = "active";
  scan_status = unscanned;
  last_scan_at = none;
  auto_scan_enabled = false;
  auto_scan_cron = "";
  next_scan_at = none;
  item_count = pos 0;
  total_size_bytes = pos 0;
  error_message = "";
  attributes = or_empty attrs;
}

-- the full name that is given, or else the composed one
unfoldable pub full_name_of : String → String → Option MetaNode → String
unfolding compose_node_full_name
full_name_of full_name name parent =
    if is_empty full_name then compose_node_full_name name parent "." else full_name

-- the columns that a new node gets once it has a key
unfoldable pub place_node : ℕ → Option MetaNode → MetaNode → MetaNode
unfolding compose_node_path full_name_of
place_node id parent n = record n {
  path = compose_node_path id parent;
  full_name = full_name_of n.full_name n.name parent;
}

-- attributes that are given and not empty replace the old ones
abbrev pub new_attributes : Option JsonMap → JsonMap → JsonMap
new_attributes none old = old
new_attributes (some []) old = old
new_attributes (some (a ∷ attrs)) old = a ∷ attrs

abbrev pub has_attributes : Option JsonMap → Bool
has_attributes none = false
has_attributes (some []) = false
has_attributes (some (a ∷ attrs)) = true

-- whether upsertNode has columns to write to the node that it found
unfoldable pub is_stale : MetaNode → Option MetaNode → String → Option JsonMap → Bool
unfolding compose_node_path
is_stale node parent full_name attrs =
    not (node.depth == node_depth parent)
    || not (str_eq node.path (compose_node_path node.id parent))
    || not (str_eq node.full_name full_name)
    || has_attributes attrs

-- those columns; one that does not change is not written
unfoldable pub refresh : MetaNode → Option MetaNode → String → Option JsonMap → MetaNode → MetaNode
unfolding compose_node_path
refresh node parent full_name attrs n =
    let path = compose_node_path node.id parent in
    record n {
      depth = if node.depth == node_depth parent then n.depth else node_depth parent;
      path = if str_eq node.path path then n.path else path;
      full_name = if str_eq node.full_name full_name then n.full_name else full_name;
      attributes = new_attributes attrs n.attributes;
    }

module _ {T : Type 0} (db : Forest T) where
  unfoldable pub update_node : ℕ → (MetaNode → MetaNode) → Exec T DbError Unit
  update_node id f s = elim (db.update_node s id f) [ ok s' ↦ (ok tt, s') | err e ↦ (err e, s) ]

  unfoldable pub create_node : MetaNode → Exec T DbError MetaNode
  create_node n s = elim (db.create_node s n) [ ok r ↦ (ok r.0, r.1) | err e ↦ (err e, s) ]

  -- upsertNode where there is no node yet
  unfoldable pub insert_node :
      MetaResource
      → Option MetaNode
      → String
      → String
      → String
      → Option JsonMap
      → Exec T DbError MetaNode
  unfolding new_node create_node update_node place_node
  insert_node res parent node_type name full_name attrs = do
    node ← create_node (new_node res parent node_type name full_name attrs)
    update_node node.id (place_node node.id parent)
    pure (place_node node.id parent node)

  -- upsertNode where there is one
  unfoldable pub refresh_node :
      MetaNode → Option MetaNode → String → Option JsonMap → Exec T DbError MetaNode
  unfolding is_stale refresh update_node
  refresh_node node parent full_name attrs s = elim (is_stale node parent full_name attrs) [
    | false ↦ (ok node, s)
    | true ↦
        (update_node node.id (refresh node parent full_name attrs) >>= λ _.
        pure (refresh node parent full_name attrs node))
          s
  ]

  unfoldable pub upsert_node :
      MetaResource
      → Option MetaNode
      → String
      → String
      → String
      → Option JsonMap
      → Exec T DbError MetaNode
  unfolding is_node insert_node refresh_node full_name_of
  upsert_node res parent node_type name full_name attrs s =
      elim (db.first_node s (is_node res parent node_type name)) [
        | ok node ↦ refresh_node node parent (full_name_of full_name name parent) attrs s
        | err not_found ↦ insert_node res parent node_type name full_name attrs s
        | err (failed e) ↦ (err (failed e), s)
      ]

  -- `now` is the time of the statement
  unfoldable pub reset_node_state : ℕ → MetaNode → ScanStatus → Exec T DbError Unit
  unfolding update_node
  reset_node_state now node status = update_node node.id (λ n. record n {
    scan_status = status;
    error_message = "";
    last_scan_at = elim status [ scanning ↦ some now | _ ↦ n.last_scan_at ];
  })

  unfoldable pub finalize_node_state :
      ℕ → MetaNode → ScanStatus → ℤ → ℤ → String → Exec T DbError Unit
  unfolding update_node
  finalize_node_state now node status item_count total_size err_msg = update_node node.id (λ n.
      record n {
        scan_status = status;
        item_count = item_count;
        total_size_bytes = total_size;
        error_message = err_msg;
        last_scan_at = elim status [ scanned ↦ some now | _ ↦ n.last_scan_at ];
      })

  unfoldable pub hard_delete_items_by_node : ℕ → Exec T DbError Unit
  hard_delete_items_by_node id s = elim (db.delete_items s (λ x. x.node_id == id)) [
    | ok s' ↦ (ok tt, s')
    | err e ↦ (err e, s)
  ]

  -- path LIKE 'p/%', where p has digits and slashes only
  unfoldable pub hard_delete_descendant_nodes : MetaNode → Exec T DbError Unit
  unfolding lies_in
  hard_delete_descendant_nodes node s =
      if is_empty node.path
      then (ok tt, s)
      else elim (db.delete_nodes s (λ n. lies_in node.path n.path && not (n.id == node.id))) [
        | ok s' ↦ (ok tt, s')
        | err e ↦ (err e, s)
      ]
