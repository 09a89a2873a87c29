-- ===== src/Meta/SchemaScan/Scanned.antt =====
-- What a scan of a schema leaves in the row of the schema's node.
use addp.Common.{ℕ, String, true, none, some, List, ok, ◌≡◌, ◌≢◌, length}
use addp.Common.Int.{pos}
use addp.Meta.Models.{scanned, MetaResource, MetaNode, MetaItem}
use addp.Meta.Store.{Forest, IsForest}
use addp.Meta.Nodes.{is_node}
use addp.Meta.Nodes.Placed.{IsNamed}
use addp.Meta.SchemaScan.{TableInfo, FieldInfo, Scanner, Counts, scan_tables}
use addp.Meta.SchemaScan.Tables.{Written, fields_in, sizes_in}

-- A schema that was scanned: its node, and the tables that were written below it.
pub record IsScanned {T : Type 0} (db : Forest T) (res : MetaResource) (scanner : Scanner)
    (schema : String) (counts : Counts) (t : T) : Type 0 where
  pub row : MetaNode
  pub at : db.node t row.id ≡ some row
  pub named : IsNamed res none "schema" schema row
  pub status : row.scan_status ≡ scanned
  pub error : row.error_message ≡ ""
  pub item_count : row.item_count ≡ pos counts.tables
  pub size : row.total_size_bytes ≡ counts.total_size
  -- the tables that the scanner lists, and those of them that were written
  pub tables : List TableInfo
  pub listed : scanner.scan_tables schema ≡ ok tables
  pub written : List (TableInfo × List FieldInfo)
  -- from a state without items of the node to one whose items are the final ones
  pub before : T
  pub after : T
  pub cleared : (j : ℕ) (x : MetaItem) → db.item before j ≡ some x → x.node_id ≢ row.id
  pub steps : Written db res scanner schema row.id tables before written after
  pub items : (j : ℕ) → db.item t j ≡ db.item after j
  pub counted : counts ≡ record {
    tables = length written;
    columns = fields_in written;
    total_size = sizes_in (pos 0) written;
  }

module _ {T : Type 0} (db : Forest T) (laws : IsForest db) where
  -- the nodes of two states are the same
  abbrev SameNodes : T → T → Type 0
  SameNodes s t = (j : ℕ) → db.node t j ≡ db.node s j

  module _ (now : ℕ) (res : MetaResource) (scanner : Scanner) (schema : String) where
    -- the row of the schema's node
    abbrev IsStored : MetaNode → T → Type 0
    IsStored node s =
        (m : MetaNode) × (db.node s node.id ≡ some m) × (is_node res none "schema" schema m ≡ true)

    -- the tables of a node, as they were written from a state to another
    abbrev HasTables : ℕ → Counts → List TableInfo → T → T → Type 0
    HasTables node counts tables v w =
        (written : List (TableInfo × List FieldInfo)) × ((j : ℕ) (x : MetaItem)
          → db.item v j ≡ some x
          → x.node_id ≢ node)
        × Written db res scanner schema node tables v written w
        × (counts ≡ record {
          tables = length written;
          columns = fields_in written;
          total_size = sizes_in (pos 0) written;
        })
