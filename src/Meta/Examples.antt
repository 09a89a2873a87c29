-- ===== src/Meta/Examples.antt =====
-- Runs of the meta service at concrete inputs: a small bucket, a database in memory, and what the
-- theorems say of them.
use addp.Common.{
  ℕ, ◌≤◌, String, true, false, Option, none, some, List, [], ◌∷◌, Result, ok, err, ◌≡◌, refl,
  str_eq, if◌then◌else◌, arith,
}
use addp.Common.Int.{ℤ, pos}
use addp.Common.Dict.{lookup}
use addp.Db.{DbError}
use addp.Text.{trim_slashes, trim_space, split, ends_in_slash}
use addp.Text.Inside.{lies_in}
use addp.Text.Parts.{before_slashes}
use addp.Meta.Objects.{ObjectMetadata, is_reserved_segment, has_reserved, contains_reserved}
use addp.Meta.Models.{Resource, unscanned, MetaResource, MetaNode}
use addp.Meta.Store.Model.{Trees, empty_trees, tree_memory, empty_trees-none}
use addp.Meta.Store.Model.Laws.{tree_memory-IsForest}
use addp.Meta.Nodes.{upsert_node}
use addp.Meta.Nodes.Upsert.{IsWritten}
use addp.Meta.Nodes.Placed.{IsNamed, IsPlaced, upsert_node-IsPlaced}
use addp.Meta.S3Scanner
use addp.Meta.S3Scanner.{
  Entry, Client, Scan, empty_scan, is_skipped, relative_key, scan_object, scan_entries,
}
use addp.Meta.S3Scanner.Aggregates.{IsPlain}
use addp.Meta.S3Scanner.Report.{
  HasPlainDirs, size_after, count_after, objects_of, dir_after_all, scan_entries-report,
}
use addp.Meta.S3Scanner.Buckets.{panicked, scan_path}
use addp.Meta.ObjectScan.{start, scan_object_storage_paths, s3_object_scanner}
use addp.Meta.SchemaScan.{TableInfo, Scanner, Counts, scan_database_schema}
use addp.Meta.Tree.{IsTree}
use addp.Meta.Tree.Scan.{scan_object_storage_paths-IsTree}
use addp.Meta.ResourceService.{
  ResourceWithStats, get_resources_with_stats, get_resources_with_stats-IsBounded,
}

abbrev entry : String → ℕ → Entry
entry key size = record { failed = false; key = key; size = pos size; last_modified = 5 }

-- two objects, one of them in a directory, and a reserved one
abbrev listing : List Entry
listing = entry "docs/a.txt" 3 ∷ entry ".minio.sys/x" 9 ∷ entry "top.txt" 4 ∷ []

abbrev client : Client
client = record {
  list_buckets = some ("lake" ∷ []);
  list_objects = λ b p. listing;
  stat_object = λ b p. none;
  to_lower = λ s. s;
  ext = λ s. "";
}

abbrev lake : MetaResource
lake = record {
  id = 4;
  tenant_id = 2;
  resource_id = 9;
  resource_type = "minio";
  name = "lake";
  engine = "minio";
  config = [];
  status = "active";
  source = "system";
}

empty_trees-IsTree : IsTree tree_memory empty_trees
empty_trees-IsTree = record {
  root = λ j n there top. absurd (ground (arith, empty_trees-none j));
  child = λ j k n p there under above. absurd (ground (arith, empty_trees-none j));
}

scan_object_storage_paths-IsTree_example :
    IsTree tree_memory
      (scan_object_storage_paths tree_memory 7 lake
        (s3_object_scanner client ("lake" ∷ []))
        ("lake" ∷ [])
        (start empty_trees)).1.work.forest
scan_object_storage_paths-IsTree_example =
    scan_object_storage_paths-IsTree tree_memory tree_memory-IsForest 7 lake
      (s3_object_scanner client ("lake" ∷ [])) ("lake" ∷ []) empty_trees empty_trees-IsTree

abbrev lake_node : MetaNode
lake_node = record {
  id = 1;
  tenant_id = 2;
  res_id = 4;
  parent_node_id = none;
  node_type = "bucket";
  name = "lake";
  depth = 1;
  path = "1";
  full_name = "lake";
  status = "active";
  scan_status = unscanned;
  last_scan_at = none;
  auto_scan_enabled = false;
  auto_scan_cron = "";
  next_scan_at = none;
  item_count = pos 0;
  total_size_bytes = pos 0;
  error_message = "";
  attributes = [];
}

abbrev with_lake : Trees
unfolding upsert_node tree_memory
with_lake = (upsert_node tree_memory lake none "bucket" "lake" "lake" none empty_trees).1

lake_made :
    upsert_node tree_memory lake none "bucket" "lake" "lake" none empty_trees
    ≡ (ok lake_node, with_lake)
unfolding upsert_node tree_memory
lake_made = refl

-- a directory below it, whose full name is composed
abbrev docs_node : MetaNode
docs_node = record lake_node {
  id = 2;
  parent_node_id = some 1;
  node_type = "prefix";
  name = "docs";
  depth = 2;
  path = "1/2";
  full_name = "lake.docs";
}

abbrev with_docs : Trees
unfolding upsert_node tree_memory
with_docs = (upsert_node tree_memory lake (some lake_node) "prefix" "docs" "" none with_lake).1

docs_made :
    upsert_node tree_memory lake (some lake_node) "prefix" "docs" "" none with_lake
    ≡ (ok docs_node, with_docs)
unfolding upsert_node tree_memory
docs_made = refl

upsert_node-IsPlaced_example :
    IsWritten tree_memory docs_node with_lake with_docs
    × IsNamed lake (some lake_node) "prefix" "docs" docs_node
    × IsPlaced (some lake_node) "docs" "" docs_node
    × (tree_memory.node with_lake 2 ≡ none
        → (i : ℕ) (m : MetaNode) → tree_memory.node with_lake i ≡ some m
        → ¬ IsNamed lake (some lake_node) "prefix" "docs" m)
upsert_node-IsPlaced_example =
    upsert_node-IsPlaced tree_memory tree_memory-IsForest lake (some lake_node) "prefix" "docs" ""
      none with_lake with_docs docs_node docs_made

-- the items of a path
abbrev docs : List ObjectMetadata
unfolding scan_path contains_reserved split scan_object
docs = elim ((scan_path client "lake/docs" ("lake" ∷ [])).0) [ ok metas ↦ metas | err e ↦ [] ]

docs-IsPlain : IsPlain "docs"
unfolding trim_slashes has_reserved contains_reserved split is_reserved_segment trim_space
docs-IsPlain = record { full = refl; trimmed = refl; unreserved = refl }

in_docs : HasPlainDirs "" (entry "docs/a.txt" 3)
unfolding relative_key before_slashes ends_in_slash
in_docs = (λ kept slash. absurd (ground arith), λ kept name. (docs-IsPlain, tt))

reserved : HasPlainDirs "" (entry ".minio.sys/x" 9)
unfolding is_skipped has_reserved contains_reserved split is_reserved_segment trim_space
    trim_slashes relative_key
reserved = (λ kept slash. absurd (ground arith), λ kept name. absurd (ground arith))

at_top : HasPlainDirs "" (entry "top.txt" 4)
unfolding relative_key before_slashes ends_in_slash
at_top = (λ kept slash. absurd (ground arith), λ kept name. tt)

scan_entries-report_example :
    (t' : Scan) × (scan_entries client "lake" "" listing empty_scan ≡ some t')
    × (t'.total_size ≡ size_after "" listing (pos 0))
    × (t'.total_count ≡ count_after "" listing (pos 0))
    × (t'.objects ≡ objects_of client "lake" "" listing)
    × ((d : String) → lookup d t'.dirs ≡ dir_after_all "lake" "" d listing (lookup d []))
scan_entries-report_example =
    scan_entries-report client "lake" "" listing empty_scan (in_docs, (reserved, (at_top, tt)))

-- the description counts what one expects
docs_size :
    dir_after_all "lake" "" "docs" listing none
    ≡ some (S3Scanner.add_object (pos 3) (S3Scanner.new_dir "lake" "docs"))
unfolding dir_after_all is_skipped has_reserved contains_reserved split is_reserved_segment
    trim_space trim_slashes relative_key lies_in ends_in_slash
docs_size = refl

-- An inner part of a key that is empty makes the scan panic.
abbrev broken : Client
broken = record client { list_objects = λ b p. entry "a//b" 1 ∷ [] }

broken_panics : (scan_path broken "lake" ("lake" ∷ [])).0 ≡ err panicked
unfolding scan_path contains_reserved split scan_object is_reserved_segment trim_space
broken_panics = refl

no_times : Trees → ℕ → List ℕ → Result DbError (ℕ → Option ℕ)
no_times s tenant ids = ok (λ i. none)

abbrev lake_resource : Resource
lake_resource = record {
  id = 9;
  tenant_id = 2;
  name = "lake";
  resource_type = "minio";
  connection_info = [];
  description = "";
  is_active = true;
  created_by = none;
}

abbrev lake_row : ResourceWithStats
lake_row = record {
  resource_id = 9;
  resource_name = "lake";
  resource_type = "minio";
  total_schemas = 1;
  scanned_schemas = 0;
  unscanned_schemas = pos 1;
  last_scan_at = none;
}

lake_counted :
    get_resources_with_stats tree_memory no_times
      (ok (lake_resource ∷ []))
      (ok (lake ∷ []))
      2
      with_lake
    ≡ ok (lake_row ∷ [])
unfolding get_resources_with_stats no_times tree_memory upsert_node
lake_counted = refl

get_resources_with_stats-IsBounded_example : ((0 ≤ 1) × (◌≡◌ {A = ℤ} (pos 1) (pos 1))) × Unit {0}
get_resources_with_stats-IsBounded_example =
    get_resources_with_stats-IsBounded tree_memory no_times tree_memory-IsForest
      (ok (lake_resource ∷ [])) (ok (lake ∷ [])) 2 with_lake (lake_row ∷ []) lake_counted

abbrev orders : TableInfo
orders = record {
  name = "orders";
  table_type = "table";
  comment = "";
  row_count = pos 8;
  size_bytes = pos 64;
}

-- a database with one schema of two tables, one of which cannot be read
abbrev sales : Scanner
sales = record {
  list_schemas = ok ("sales" ∷ []);
  scan_tables = λ schema. ok (orders ∷ record orders { name = "broken" } ∷ []);
  scan_fields = λ schema table. if str_eq table "orders" then ok [] else err "denied";
}

abbrev sales_counts : Counts
sales_counts = record { tables = 1; columns = 0; total_size = pos 64 }

abbrev with_sales : Trees
unfolding scan_database_schema tree_memory
with_sales = (scan_database_schema tree_memory 7 lake sales "sales" empty_trees).1
