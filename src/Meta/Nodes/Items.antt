-- ===== src/Meta/Nodes/Items.antt =====
-- upsertItem of meta/backend/internal/service/scan_service_new.go.
use addp.Common.{ℕ, String, Bool, ◌&&◌, Option, ok, err, Exec, ◌==◌, str_eq}
use addp.Common.Int.{ℤ}
use addp.Db.{DbError, not_found, failed}
use addp.Meta.Models.{JsonMap, MetaResource, MetaNode, MetaItem}
use addp.Meta.Store.{Forest}

-- the row that upsertItem looks for
unfoldable pub is_item : MetaResource → MetaNode → String → String → MetaItem → Bool
is_item res node item_type name x =
    x.tenant_id == res.tenant_id
    && x.res_id == res.id
    && x.node_id == node.id
    && str_eq x.item_type item_type
    && str_eq x.name name

-- the columns of an item that a scan writes
pub record ItemColumns : Type 0 where
  pub full_name : String
  pub attributes : JsonMap
  pub row_count : Option ℤ
  pub size_bytes : Option ℤ
  pub object_size_bytes : Option ℤ
  pub last_modified_at : Option ℕ
  pub meta_schema_version : ℕ

unfoldable pub write_item : ItemColumns → MetaItem → MetaItem
write_item c x = record x {
  full_name = c.full_name;
  attributes = c.attributes;
  row_count = c.row_count;
  size_bytes = c.size_bytes;
  object_size_bytes = c.object_size_bytes;
  last_modified_at = c.last_modified_at;
  meta_schema_version = c.meta_schema_version;
}

unfoldable pub new_item : MetaResource → MetaNode → String → String → ItemColumns → MetaItem
new_item res node item_type name c = record {
  id = 0;
  tenant_id = res.tenant_id;
  res_id = res.id;
  node_id = node.id;
  item_type = item_type;
  name = name;
  full_name = c.full_name;
  status = "active";
  meta_schema_version = c.meta_schema_version;
  row_count = c.row_count;
  size_bytes = c.size_bytes;
  object_size_bytes = c.object_size_bytes;
  last_modified_at = c.last_modified_at;
  attributes = c.attributes;
}

unfoldable pub upsert_item :
    {T : Type 0}
    → Forest T
    → MetaResource
    → MetaNode
    → String
    → String
    → ItemColumns
    → Exec T DbError MetaItem
unfolding is_item write_item new_item
upsert_item db res node item_type name c s =
    elim (db.first_item s (is_item res node item_type name)) [
      | err not_found ↦ elim (db.create_item s (new_item res node item_type name c)) [
        | ok r ↦ (ok r.0, r.1)
        | err e ↦ (err e, s)
      ]
      | err (failed e) ↦ (err (failed e), s)
      | ok item ↦ elim (db.update_item s item.id (write_item c)) [
        | ok s' ↦ (ok (write_item c item), s')
        | err e ↦ (err e, s)
      ]
    ]
