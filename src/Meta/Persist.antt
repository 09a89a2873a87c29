-- ===== src/Meta/Persist.antt =====
-- What a scan of an object storage writes: the second half of
-- meta/backend/internal/service/scan_service_new.go.
use addp.Common.{
  ℕ, ◌+◌, String, Bool, true, false, ◌&&◌, Option, none, some, List, [], ◌∷◌, ◌++◌, ok, Exec, ◌==◌,
  if◌then◌else◌,
}
use Prim.Native.String.{◌++◌ as append}
use addp.Common.Int.{ℤ, pos, add_64}
use addp.Common.Outcome.{pure, ◌>>=◌, ◌>>◌}
use addp.Db.{DbError}
use addp.Text.{is_empty, is_slash, trim_space, trim_slashes, trim_right, split, join}
use addp.Text.Decimal.{show_int}
use addp.Meta.Objects.{ObjectMetadata, is_bucket, is_object_type}
use addp.Meta.Models.{text, number, time, scalar, JsonMap, MetaResource, MetaNode}
use addp.Meta.Store.{Forest}
use addp.Meta.Nodes.{compose_node_full_name, upsert_node}
use addp.Meta.Nodes.Items.{ItemColumns, upsert_item}

-- nodeAggregate; the map from a node's key to its aggregate is the list of the aggregates
pub record Aggregate : Type 0 where
  pub node : MetaNode
  pub item_count : ℤ
  pub total_size : ℤ

abbrev pub Stats : Type 0
Stats = List Aggregate

unfoldable pub find_aggregate : ℕ → Stats → Option Aggregate
find_aggregate id [] = none
find_aggregate id (a ∷ stats) =
    let rest = find_aggregate id stats in if a.node.id == id then some a else rest

abbrev pub new_aggregate : MetaNode → Aggregate
new_aggregate node = record { node = node; item_count = pos 0; total_size = pos 0 }

unfoldable pub ensure_node_aggregate : MetaNode → Stats → Stats
unfolding find_aggregate
ensure_node_aggregate node stats = elim (find_aggregate node.id stats) [
  | some a ↦ stats
  | none ↦ stats ++ new_aggregate node ∷ []
]

abbrev pub add_item : ℤ → Aggregate → Aggregate
add_item size a = record a {
  item_count = add_64 a.item_count (pos 1);
  total_size = add_64 a.total_size size;
}

unfoldable pub change_aggregate : ℕ → ℤ → Stats → Stats
change_aggregate id size [] = []
change_aggregate id size (a ∷ stats) =
    let rest = change_aggregate id size stats in
    if a.node.id == id then add_item size a ∷ stats else a ∷ rest

-- the loop over an object's chain of parents
unfoldable pub charge_chain : ℤ → List MetaNode → Stats → Stats
unfolding ensure_node_aggregate change_aggregate
charge_chain size [] stats = stats
charge_chain size (node ∷ chain) stats =
    charge_chain size chain (change_aggregate node.id size (ensure_node_aggregate node stats))

unfoldable pub sanitize_object_path : String → String
unfolding trim_space trim_slashes
sanitize_object_path path = trim_slashes (trim_space path)

abbrev pub is_last : List String → Bool
is_last [] = true
is_last (s ∷ ss) = false

abbrev last_part : List String → String
last_part [] = ""
last_part (p ∷ []) = p
last_part (p ∷ q ∷ ps) = last_part (q ∷ ps)

-- path.Base
unfoldable pub base : String → String
unfolding trim_right split
base s =
    if is_empty s
    then "."
    else if is_empty (trim_right is_slash s)
    then "/"
    else last_part (split (trim_right is_slash s))

unfoldable pub object_name : ObjectMetadata → String
unfolding base trim_slashes sanitize_object_path show_int
object_name meta =
    let name = base (trim_slashes meta.path) in
    let named =
      trim_slashes (if is_empty name then sanitize_object_path meta.relative_path else name) in
    if is_empty named then append "object_" (show_int meta.size_bytes) else named

abbrev pub dir_attributes : ObjectMetadata → List String → JsonMap
dir_attributes meta segments =
    ("bucket", scalar (text meta.bucket_name)) ∷ ("path", scalar (text (join segments))) ∷ []

abbrev last_modified_attribute : Option ℕ → JsonMap
last_modified_attribute none = []
last_modified_attribute (some t) = ("last_modified_at", scalar (time t)) ∷ []

unfoldable pub object_attributes : ObjectMetadata → JsonMap
unfolding sanitize_object_path
object_attributes meta =
    ("bucket", scalar (text meta.bucket_name))
    ∷ ("path", scalar (text meta.path))
    ∷ ("relative_path", scalar (text (sanitize_object_path meta.relative_path)))
    ∷ ("file_type", scalar (text meta.file_type))
    ∷ ("object_count", scalar (number meta.object_count))
    ∷ last_modified_attribute meta.last_modified

-- the columns of an object's item below a node
unfoldable pub object_columns : ObjectMetadata → MetaNode → ItemColumns
unfolding object_attributes compose_node_full_name object_name
object_columns meta parent = record {
  full_name = compose_node_full_name (object_name meta) (some parent) "/";
  attributes = object_attributes meta;
  row_count = none;
  size_bytes = some meta.size_bytes;
  object_size_bytes = some meta.size_bytes;
  last_modified_at = meta.last_modified;
  meta_schema_version = 1;
}

-- the database, and the aggregates of the running scan
pub record Work (T : Type 0) : Type 0 where
  pub forest : T
  pub stats : Stats

module _ {T : Type 0} (db : Forest T) where
  -- a statement on the database alone
  abbrev pub on_forest : {A : Type 0} → Exec T DbError A → Exec (Work T) DbError A
  on_forest m w = let (r, s) = m w.forest in (r, record w { forest = s })

  abbrev pub aggregate : MetaNode → Exec (Work T) DbError Unit
  aggregate node w = (ok tt, record w { stats = ensure_node_aggregate node w.stats })

  -- the nodes of a path below a parent: the innermost one, and the chain of parents. An object's
  -- last segment is its own name.
  unfoldable pub persist_dirs :
      MetaResource
      → ObjectMetadata
      → MetaNode
      → List MetaNode
      → List String
      → List String
      → Exec (Work T) DbError (MetaNode × List MetaNode)
  unfolding upsert_node ensure_node_aggregate compose_node_full_name join
  persist_dirs res meta parent chain before [] = pure (parent, chain)
  persist_dirs res meta parent chain before (segment ∷ segments) =
      if is_object_type meta.node_type && is_last segments then pure (parent, chain) else do
        child ← on_forest (
            upsert_node db res (some parent) "prefix" segment
              (compose_node_full_name segment (some parent) "/")
              (some (dir_attributes meta (before ++ segment ∷ []))))
        aggregate child
        persist_dirs res meta child (chain ++ child ∷ []) (before ++ segment ∷ []) segments

  -- `trimmed == ""` adds the bucket's aggregate, and otherwise its directories are made
  unfoldable pub persist_path :
      MetaResource → MetaNode → ObjectMetadata → Exec (Work T) DbError (MetaNode × List MetaNode)
  unfolding persist_dirs ensure_node_aggregate sanitize_object_path split
  persist_path res bucket_node meta =
      if is_empty (sanitize_object_path meta.relative_path)
      then (do aggregate bucket_node; pure (bucket_node, bucket_node ∷ []))
      else persist_dirs res meta bucket_node (bucket_node ∷ []) []
          (split (sanitize_object_path meta.relative_path))

  -- an object's item, and its size in every node of its chain
  unfoldable pub persist_item :
      MetaResource → ObjectMetadata → MetaNode × List MetaNode → Exec (Work T) DbError Unit
  unfolding upsert_item object_columns object_name charge_chain
  persist_item res meta (parent, chain) = do
    _ ←
        on_forest
          (upsert_item db res parent "object" (object_name meta) (object_columns meta parent))
    λ w. (ok tt, record w { stats = charge_chain meta.size_bytes chain w.stats })

  -- one round of persistObjectMetas: the number of objects that it wrote
  unfoldable pub persist_meta : MetaResource → MetaNode → ObjectMetadata → Exec (Work T) DbError ℕ
  unfolding persist_path persist_item ensure_node_aggregate
  persist_meta res bucket_node meta =
      if is_bucket meta.node_type
      then (do aggregate bucket_node; pure 0)
      else if is_object_type meta.node_type
      then (do found ← persist_path res bucket_node meta; persist_item res meta found; pure 1)
      else (do _ ← persist_path res bucket_node meta; pure 0)

  unfoldable pub persist_metas :
      MetaResource → MetaNode → List ObjectMetadata → Exec (Work T) DbError ℕ
  unfolding persist_meta
  persist_metas res bucket_node [] = pure 0
  persist_metas res bucket_node (meta ∷ metas) = do
    n ← persist_meta res bucket_node meta
    m ← persist_metas res bucket_node metas
    pure (n + m)

  unfoldable pub persist_object_metas :
      MetaResource → MetaNode → List ObjectMetadata → Exec (Work T) DbError ℕ
  unfolding persist_metas ensure_node_aggregate
  persist_object_metas res bucket_node metas = do
    objects ← persist_metas res bucket_node metas
    aggregate bucket_node
    pure objects
