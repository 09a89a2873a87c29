-- ===== src/Meta/SchemaScan/Tables.antt =====
-- The tables that scanDatabaseSchema writes, and those that it leaves out.
use addp.Common.{
  ℕ, suc, ◌+◌, String, Bool, true, some, List, [], ◌∷◌, length, ok, err, ◌≡◌, refl, sym, ap, arith,
  ◌==◌, ==_iff, eq_iff, if◌then◌else◌, inl, inr,
}
use mathlib.Core.Path.{subst}
use addp.Common.Int.{ℤ, add_64}
use addp.Common.Outcome.{Result-cases, Exec-cases}
use addp.Db.{DbError, not_found, failed}
use addp.Meta.Models.{MetaResource, MetaNode, MetaItem}
use addp.Meta.Store.{Forest, IsForest}
use addp.Meta.Nodes.Items.{is_item, new_item, write_item, ItemColumns, upsert_item}
use addp.Meta.SchemaScan.{
  TableInfo, FieldInfo, Scanner, Counts, table_columns, scan_table, scan_tables,
}

-- a statement on the items that the database refuses in a state
pub data Refuses {T : Type 0} (db : Forest T) (s : T) : Type 0 where
  unread : (p : MetaItem → Bool) (e : ℕ) → db.first_item s p ≡ err (failed e) → Refuses db s
  uncreated : (x : MetaItem) (e : DbError) → db.create_item s x ≡ err e → Refuses db s
  unwritten :
      (i : ℕ) (f : MetaItem → MetaItem) (e : DbError) → db.update_item s i f ≡ err e → Refuses db s

-- one item written in a resource's node, and nothing else: the row of a table, with its numbers
pub record IsTable {T : Type 0} (db : Forest T) (res : MetaResource) (node : ℕ) (table : TableInfo)
    (s t : T) : Type 0 where
  pub row : MetaItem
  pub tenant : row.tenant_id ≡ res.tenant_id
  pub resource : row.res_id ≡ res.id
  pub below : row.node_id ≡ node
  pub kind : row.item_type ≡ "table"
  pub named : row.name ≡ table.name
  pub rows : row.row_count ≡ some table.row_count
  pub bytes : row.size_bytes ≡ some table.size_bytes
  pub items : (j : ℕ) → db.item t j ≡ (if row.id == j then some row else db.item s j)
  pub nodes : (j : ℕ) → db.node t j ≡ db.node s j

-- The tables of a schema in their order: each is written with the fields that were read, unless
-- its fields cannot be read or the database refuses a statement. The list holds those written.
pub data Written {T : Type 0} (db : Forest T) (res : MetaResource) (scanner : Scanner)
    (schema : String) (node : ℕ)
    : List TableInfo → T → List (TableInfo × List FieldInfo) → T → Type 0 where
  none_left : {s : T} → Written db res scanner schema node [] s [] s
  unreadable :
      {table : TableInfo} {tables : List TableInfo} {s t : T}
      {written : List (TableInfo × List FieldInfo)}
      → (e : String) → scanner.scan_fields schema table.name ≡ err e
      → Written db res scanner schema node tables s written t
      → Written db res scanner schema node (table ∷ tables) s written t
  refused :
      {table : TableInfo} {tables : List TableInfo} {s t : T}
      {written : List (TableInfo × List FieldInfo)}
      → Refuses db s
      → Written db res scanner schema node tables s written t
      → Written db res scanner schema node (table ∷ tables) s written t
  stored :
      {table : TableInfo} {tables : List TableInfo} {s u t : T}
      {written : List (TableInfo × List FieldInfo)}
      → (fields : List FieldInfo) → scanner.scan_fields schema table.name ≡ ok fields
      → IsTable db res node table s u
      → Written db res scanner schema node tables u written t
      → Written db res scanner schema node (table ∷ tables) s ((table, fields) ∷ written) t

-- the fields of the written tables, and their sizes, summed up as an int64 is
abbrev pub fields_in : List (TableInfo × List FieldInfo) → ℕ
fields_in [] = 0
fields_in ((table, fields) ∷ written) = length fields + fields_in written

abbrev pub sizes_in : ℤ → List (TableInfo × List FieldInfo) → ℤ
sizes_in n [] = n
sizes_in n ((table, fields) ∷ written) = sizes_in (add_64 n table.size_bytes) written

module _ {T : Type 0} (db : Forest T) (laws : IsForest db) (res : MetaResource) (scanner : Scanner)
    (schema : String) (node : MetaNode) where
  refused_lem :
      (table : TableInfo) (c : ItemColumns) (s t : T) (e : DbError)
      → upsert_item db res node "table" table.name c s ≡ (err e, t)
      → (s ≡ t) × Refuses db s
  unfolding upsert_item
  refused_lem table c s t e h =
      elim (Result-cases (db.first_item s (is_item res node "table" table.name))) [
        | inl (failed n, bad) ↦ (ground arith, unread (is_item res node "table" table.name) n bad)
        | inl (not_found, absent) ↦
            elim (Result-cases (db.create_item s (new_item res node "table" table.name c))) [
              | inl (f, bad) ↦
                  (ground arith, uncreated (new_item res node "table" table.name c) f bad)
              | inr (made, good) ↦ absurd (ground arith)
            ]
        | inr (x, found) ↦ elim (Result-cases (db.update_item s x.id (write_item c))) [
          | inl (f, bad) ↦ (ground arith, unwritten x.id (write_item c) f bad)
          | inr (u, good) ↦ absurd (ground arith)
        ]
      ]

  created-IsTable :
      (table : TableInfo) (fields : List FieldInfo) (s t : T) (x : MetaItem)
      → db.create_item s
          (new_item res node "table" table.name (table_columns schema node table fields))
        ≡ ok (x, t)
      → IsTable db res node.id table s t
  unfolding new_item table_columns
  created-IsTable table fields s t x made =
      let raw = new_item res node "table" table.name (table_columns schema node table fields) in
      let (positive, shape, fresh) = laws.create_item_row s raw x t made in
      record {
        row = x;
        tenant = ap (λ y. y.tenant_id) shape;
        resource = ap (λ y. y.res_id) shape;
        below = ap (λ y. y.node_id) shape;
        kind = ap (λ y. y.item_type) shape;
        named = ap (λ y. y.name) shape;
        rows = ap (λ y. y.row_count) shape;
        bytes = ap (λ y. y.size_bytes) shape;
        items = laws.create_item_at s raw x t made;
        nodes = laws.create_item_nodes s raw x t made;
      }

  updated-IsTable :
      (table : TableInfo) (fields : List FieldInfo) (s t : T) (x : MetaItem)
      → db.item s x.id ≡ some x
      → is_item res node "table" table.name x ≡ true
      → db.update_item s x.id (write_item (table_columns schema node table fields)) ≡ ok t
      → IsTable db res node.id table s t
  unfolding write_item table_columns is_item
  updated-IsTable table fields s t x there it done =
      let f = write_item (table_columns schema node table fields) in
      record {
        row = f x;
        tenant = ground (arith, ==_iff x.tenant_id res.tenant_id);
        resource = ground (arith, ==_iff x.res_id res.id);
        below = ground (arith, ==_iff x.node_id node.id);
        kind = ground (arith, eq_iff x.item_type "table");
        named = ground (arith, eq_iff x.name table.name);
        rows = refl;
        bytes = refl;
        items = λ j.
            ground (arith, laws.update_item_at s x.id f t (λ y. refl) done j, there, ==_iff x.id j);
        nodes = laws.update_item_nodes s x.id f t done;
      }

  stored-IsTable :
      (table : TableInfo) (fields : List FieldInfo) (s t : T) (y : MetaItem)
      → upsert_item db res node "table" table.name (table_columns schema node table fields) s
        ≡ (ok y, t)
      → IsTable db res node.id table s t
  unfolding upsert_item
  stored-IsTable table fields s t y h =
      let c = table_columns schema node table fields in
      elim (Result-cases (db.first_item s (is_item res node "table" table.name))) [
        | inl (failed n, bad) ↦ absurd (ground arith)
        | inl (not_found, absent) ↦
            elim (Result-cases (db.create_item s (new_item res node "table" table.name c))) [
              | inl (f, bad) ↦ absurd (ground arith)
              | inr ((x, u), made) ↦
                  let left : u ≡ t = ground arith in
                  subst (IsTable db res node.id table s) left
                    (created-IsTable table fields s u x made)
            ]
        | inr (x, found) ↦
            let (there, it) = laws.first_item_ok s (is_item res node "table" table.name) x found in
            elim (Result-cases (db.update_item s x.id (write_item c))) [
              | inl (f, bad) ↦ absurd (ground arith)
              | inr (u, done) ↦
                  let left : u ≡ t = ground arith in
                  subst (IsTable db res node.id table s) left
                    (updated-IsTable table fields s u x there it done)
            ]
      ]

  -- what the loop over the tables leaves in the database and in its counters
  abbrev pub Summed : List TableInfo → T → Counts → T × Counts → Type 0
  Summed tables s counts (t, counts') =
      (written : List (TableInfo × List FieldInfo)) × Written db res scanner schema node.id tables s
        written t
      × (counts'.tables ≡ counts.tables + length written)
      × (counts'.columns ≡ counts.columns + fields_in written)
      × (counts'.total_size ≡ sizes_in counts.total_size written)

  abbrev counted : TableInfo → List FieldInfo → Counts → Counts
  counted table fields counts = record {
    tables = suc counts.tables;
    columns = counts.columns + length fields;
    total_size = add_64 counts.total_size table.size_bytes;
  }

  module _ (now : ℕ) where
    unread_table :
        (table : TableInfo) (s : T) (counts : Counts) (e : String)
        → scanner.scan_fields schema table.name ≡ err e
        → scan_table db now res scanner schema node table (s, counts) ≡ (s, counts)
    unfolding scan_table
    unread_table table s counts e bad = ground arith

    refused_table :
        (table : TableInfo) (s u : T) (counts : Counts) (fields : List FieldInfo) (e : DbError)
        → scanner.scan_fields schema table.name ≡ ok fields
        → upsert_item db res node "table" table.name (table_columns schema node table fields) s
          ≡ (err e, u)
        → s ≡ u
        → scan_table db now res scanner schema node table (s, counts) ≡ (s, counts)
    unfolding scan_table
    refused_table table s u counts fields e read bad same = ground arith

    stored_table :
        (table : TableInfo) (s u : T) (counts : Counts) (fields : List FieldInfo) (x : MetaItem)
        → scanner.scan_fields schema table.name ≡ ok fields
        → upsert_item db res node "table" table.name (table_columns schema node table fields) s
          ≡ (ok x, u)
        → scan_table db now res scanner schema node table (s, counts)
          ≡ (u, counted table fields counts)
    unfolding scan_table
    stored_table table s u counts fields x read done = ground arith

    pub scan_tables_lem :
        (tables : List TableInfo) (s : T) (counts : Counts)
        → Summed tables s counts (scan_tables db now res scanner schema node tables (s, counts))
    unfolding scan_tables
    scan_tables_lem [] s counts = ([], none_left, omega arith, omega arith, refl)
    scan_tables_lem (table ∷ tables) s counts =
        let goal : T × Counts → Type 0 = λ f.
          Summed (table ∷ tables) s counts (scan_tables db now res scanner schema node tables f) in
        elim (Result-cases (scanner.scan_fields schema table.name)) [
          | inl (e, bad) ↦
              let (written, steps, many, columns, size) = scan_tables_lem tables s counts in
              subst goal (sym (unread_table table s counts e bad))
                (written, unreadable e bad steps, many, columns, size)
          | inr (fields, read) ↦
              let c = table_columns schema node table fields in
              elim (Exec-cases (upsert_item db res node "table" table.name c s)) [
                | inl (e, u, bad) ↦
                    let (same, refusal) = refused_lem table c s u e bad in
                    let (written, steps, many, columns, size) = scan_tables_lem tables s counts in
                    subst goal (sym (refused_table table s u counts fields e read bad same))
                      (written, refused refusal steps, many, columns, size)
                | inr (x, u, done) ↦
                    let (written, steps, many, columns, size) =
                      scan_tables_lem tables u (counted table fields counts) in
                    subst goal (sym (stored_table table s u counts fields x read done)) (
                      (table, fields) ∷ written,
                      stored fields read (stored-IsTable table fields s u x done) steps,
                      ground (arith, many),
                      ground (arith, columns),
                      size,
                    )
              ]
        ]
