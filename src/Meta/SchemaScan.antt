-- ===== src/Meta/SchemaScan.antt =====
-- scanDatabaseSchema and the loops over schemas of
-- meta/backend/internal/service/scan_service_new.go. The scanner of a database is an interface.
pub mod Tables
pub mod Scanned
use addp.Common.{
  ℕ, suc, ◌+◌, String, Bool, ◌&&◌, none, some, List, [], ◌∷◌, map, length, Result, ok, err, Exec,
  ◌==◌, str_eq,
}
use addp.Common.Int.{ℤ, pos, add_64}
use addp.Common.Outcome.{pure, ◌>>=◌, ◌>>◌}
use addp.Common.Dict.{Dict}
use addp.Db.{DbError, not_found, failed}
use addp.Meta.Models.{
  Scalar, text, number, flag, scalar, fields, unscanned, scanning, scanned, MetaResource, MetaNode,
}
use addp.Meta.Store.{Forest}
use addp.Meta.Nodes.{
  compose_node_full_name, upsert_node, reset_node_state, finalize_node_state,
  hard_delete_items_by_node,
}
use addp.Meta.Nodes.Items.{ItemColumns, upsert_item}

pub record TableInfo : Type 0 where
  pub name : String
  pub table_type : String
  pub comment : String
  pub row_count : ℤ
  pub size_bytes : ℤ

pub record FieldInfo : Type 0 where
  pub name : String
  pub ordinal_position : ℤ
  pub data_type : String
  pub column_type : String
  pub is_nullable : Bool
  pub default_value : String
  pub comment : String
  pub is_primary_key : Bool
  pub is_unique_key : Bool
  pub character_set : String
  pub collation : String
  pub numeric_precision : ℤ
  pub numeric_scale : ℤ

-- Scanner; an error is its message
pub record Scanner : Type 0 where
  pub list_schemas : Result String (List String)
  pub scan_tables : String → Result String (List TableInfo)
  pub scan_fields : String → String → Result String (List FieldInfo)

pub data SchemaFailure : Type 0 where
  database : DbError → SchemaFailure
  scan_failed : String → SchemaFailure

unfoldable pub field_attributes : FieldInfo → Dict Scalar
field_attributes field =
    ("name", text field.name)
    ∷ ("ordinal_position", number field.ordinal_position)
    ∷ ("data_type", text field.data_type)
    ∷ ("column_type", text field.column_type)
    ∷ ("is_nullable", flag field.is_nullable)
    ∷ ("default_value", text field.default_value)
    ∷ ("comment", text field.comment)
    ∷ ("is_primary_key", flag field.is_primary_key)
    ∷ ("is_unique_key", flag field.is_unique_key)
    ∷ ("character_set", text field.character_set)
    ∷ ("collation", text field.collation)
    ∷ ("numeric_precision", number field.numeric_precision)
    ∷ ("numeric_scale", number field.numeric_scale)
    ∷ []

-- buildFieldAttributes
unfoldable pub build_field_attributes : List FieldInfo → List (Dict Scalar)
unfolding field_attributes
build_field_attributes columns = map field_attributes columns

-- the columns of a table's item below the node of its schema
unfoldable pub table_columns : String → MetaNode → TableInfo → List FieldInfo → ItemColumns
unfolding compose_node_full_name build_field_attributes
table_columns schema node table columns = record {
  full_name = compose_node_full_name table.name (some node) ".";
  attributes =
      ("schema", scalar (text schema))
      ∷ ("table_type", scalar (text table.table_type))
      ∷ ("table_comment", scalar (text table.comment))
      ∷ ("fields", fields (build_field_attributes columns))
      ∷ [];
  row_count = some table.row_count;
  size_bytes = some table.size_bytes;
  object_size_bytes = none;
  last_modified_at = none;
  meta_schema_version = 1;
}

-- the counters of scanDatabaseSchema
pub record Counts : Type 0 where
  pub tables : ℕ
  pub columns : ℕ
  pub total_size : ℤ

-- the totals over schemas
pub record Totals : Type 0 where
  pub schemas : ℕ
  pub tables : ℕ
  pub columns : ℕ

abbrev pub no_totals : Totals
no_totals = record { schemas = 0; tables = 0; columns = 0 }

abbrev pub add_counts : Result SchemaFailure Counts → Totals → Totals
add_counts (err e) totals = totals
add_counts (ok counts) totals = record {
  schemas = suc totals.schemas;
  tables = totals.tables + counts.tables;
  columns = totals.columns + counts.columns;
}

-- the row of a root that scanResource looks for
unfoldable pub is_root_named : MetaResource → String → String → MetaNode → Bool
is_root_named res node_type name n =
    n.tenant_id == res.tenant_id
    && n.res_id == res.id
    && str_eq n.node_type node_type
    && str_eq n.name name

module _ {T : Type 0} (db : Forest T) (now : ℕ) (res : MetaResource) (scanner : Scanner) where
  abbrev on_database : {A : Type 0} → Exec T DbError A → Exec T SchemaFailure A
  on_database m s = let (a, t) = m s in (elim a [ ok x ↦ ok x | err e ↦ err (database e) ], t)

  -- one table: what cannot be read or written is logged and left out
  unfoldable pub scan_table : String → MetaNode → TableInfo → T × Counts → T × Counts
  unfolding upsert_item table_columns
  scan_table schema node table (s, counts) = elim (scanner.scan_fields schema table.name) [
    | err e ↦ (s, counts)
    | ok columns ↦
        let (written, t) =
          upsert_item db res node "table" table.name (table_columns schema node table columns) s in
        elim written [
          | err e ↦ (t, counts)
          | ok item ↦ (
            t,
            record {
              tables = suc counts.tables;
              columns = counts.columns + length columns;
              total_size = add_64 counts.total_size table.size_bytes;
            },
          )
        ]
  ]

  unfoldable pub scan_tables : String → MetaNode → List TableInfo → T × Counts → T × Counts
  unfolding scan_table
  scan_tables schema node [] found = found
  scan_tables schema node (table ∷ tables) found =
      scan_tables schema node tables (scan_table schema node table found)

  -- what follows the reading of the tables
  unfoldable pub write_tables : String → MetaNode → List TableInfo → Exec T SchemaFailure Counts
  unfolding scan_tables finalize_node_state
  write_tables schema node tables s =
      let (t, counts) =
        scan_tables schema node tables
          (s, record { tables = 0; columns = 0; total_size = pos 0 }) in
      (on_database
            (finalize_node_state db now node scanned (pos counts.tables) counts.total_size "")
          >>= λ _. pure counts)
        t

  -- a failed reading is recorded in the node, if it can be, and returned
  unfoldable pub fail_schema : MetaNode → String → Exec T SchemaFailure Counts
  unfolding finalize_node_state
  fail_schema node e s =
      (err (scan_failed e), (finalize_node_state db now node unscanned (pos 0) (pos 0) e s).1)

  unfoldable pub scan_database_schema : String → Exec T SchemaFailure Counts
  unfolding upsert_node reset_node_state hard_delete_items_by_node fail_schema write_tables
  scan_database_schema schema = do
    node ← on_database (upsert_node db res none "schema" schema "" none)
    on_database (reset_node_state db now node scanning)
    on_database (hard_delete_items_by_node db node.id)
    λ s. elim (scanner.scan_tables schema) [
      | err e ↦ fail_schema node e s
      | ok tables ↦ write_tables schema node tables s
    ]

  -- the loop of scanResourceSchemas: a schema that fails is logged and left out
  unfoldable pub scan_schemas : List String → T × Totals → T × Totals
  unfolding scan_database_schema
  scan_schemas [] found = found
  scan_schemas (schema ∷ schemas) (s, totals) =
      let (r, t) = scan_database_schema schema s in scan_schemas schemas (t, add_counts r totals)

  -- the loop of scanResource: only schemas without a node are scanned
  unfoldable pub scan_new_schemas : List String → T × Totals → T × Totals
  unfolding scan_database_schema is_root_named
  scan_new_schemas [] found = found
  scan_new_schemas (schema ∷ schemas) (s, totals) =
      elim (db.first_node s (is_root_named res "schema" schema)) [
        | err not_found ↦
            let (r, t) = scan_database_schema schema s in
            scan_new_schemas schemas (t, add_counts r totals)
        | err (failed e) ↦ scan_new_schemas schemas (s, totals)
        | ok node ↦ scan_new_schemas schemas (s, totals)
      ]
