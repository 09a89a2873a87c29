-- ===== src/Meta/S3Scanner.antt =====
-- meta/backend/internal/scanner/s3_scanner.go. The MinIO client is a parameter, and so are
-- strings.ToLower and filepath.Ext. A Go map is an association list, visited as it stands.
pub mod Aggregates
pub mod Report
pub mod Buckets
use addp.Common.{
  ℕ, String, Bool, true, false, not, ◌&&◌, ◌||◌, Option, none, some, List, [], ◌∷◌, ◌++◌, map,
  Result, ok, err, str_eq, is_some, if◌then◌else◌,
}
use Prim.Native.Nat.{Ordering}
use Prim.Native.String
use Prim.Native.String.{◌++◌ as append}
use addp.Common.Int.{ℤ, pos, add_64}
use addp.Common.Dict.{Dict, lookup, insert}
use addp.Text.{
  is_empty, trim_prefix, trim_last_slash, ends_in_slash, trim_slashes, trim_space, trim_blanks,
  split, join, cut_slash,
}
use addp.Text.Parts.{inits}
use addp.Meta.Objects.{
  NodeType, bucket, prefix, object, ObjectMetadata, ObjectNode, is_reserved_segment,
  is_reserved_bucket_name, contains_reserved, has_reserved,
}

-- one element of ListObjects
pub record Entry : Type 0 where
  pub failed : Bool
  pub key : String
  pub size : ℤ
  pub last_modified : ℕ

pub record Client : Type 0 where
  pub list_buckets : Option (List String)
  pub list_objects : String → String → List Entry
  -- the size and the time of an object that is there
  pub stat_object : String → String → Option (ℤ × ℕ)
  pub to_lower : String → String
  pub ext : String → String

-- clean prefixes end in a slash, if they are not empty
unfoldable pub with_slash : String → String
unfolding ends_in_slash
with_slash p = if is_empty p || ends_in_slash p then p else append p "/"

-- the path of a key below the prefix that was listed
unfoldable pub relative_key : String → String → String
unfolding trim_prefix
relative_key clean key = trim_prefix "/" (trim_prefix clean key)

-- ensureDirAggEntry
abbrev pub new_dir : String → String → ObjectMetadata
new_dir b d = record {
  bucket_name = b;
  path = "";
  relative_path = d;
  node_type = prefix;
  file_type = "";
  size_bytes = pos 0;
  object_count = pos 0;
  last_modified = none;
}

unfoldable pub ensure_dir : String → String → Dict ObjectMetadata → Dict ObjectMetadata
unfolding has_reserved trim_slashes
ensure_dir b dir aggs =
    let d = trim_slashes dir in
    if is_empty d then aggs else elim (lookup d aggs) [
      | some m ↦ aggs
      | none ↦ if has_reserved d then aggs else insert d (new_dir b d) aggs
    ]

abbrev pub add_object : ℤ → ObjectMetadata → ObjectMetadata
add_object size m = record m {
  size_bytes = add_64 m.size_bytes size;
  object_count = add_64 m.object_count (pos 1);
}

-- one directory of an object; `none` is the panic of a nil entry
unfoldable pub charge_dir : String → ℤ → String → Dict ObjectMetadata → Option (Dict ObjectMetadata)
unfolding ensure_dir lookup insert
charge_dir b size dir aggs = elim (lookup dir (ensure_dir b dir aggs)) [
  | none ↦ none
  | some m ↦ some (insert dir (add_object size m) (ensure_dir b dir aggs))
]

-- all directories of an object, the outermost first
unfoldable pub charge_dirs :
    String → ℤ → List String → Dict ObjectMetadata → Option (Dict ObjectMetadata)
unfolding charge_dir
charge_dirs b size [] aggs = some aggs
charge_dirs b size (d ∷ ds) aggs = elim (charge_dir b size d aggs) [
  | none ↦ none
  | some aggs' ↦ charge_dirs b size ds aggs'
]

-- the variables of scanBucket's loop
pub record Scan : Type 0 where
  pub total_size : ℤ
  pub total_count : ℤ
  pub objects : List ObjectMetadata
  pub dirs : Dict ObjectMetadata

abbrev pub empty_scan : Scan
empty_scan = record { total_size = pos 0; total_count = pos 0; objects = []; dirs = [] }

-- an element that the loop passes over
unfoldable pub is_skipped : String → Entry → Bool
unfolding relative_key has_reserved
is_skipped clean e =
    e.failed || is_empty (relative_key clean e.key) || has_reserved (relative_key clean e.key)

module _ (client : Client) where
  abbrev pub file_type : String → String
  file_type name = trim_prefix "." (client.to_lower (client.ext name))

  abbrev pub object_meta : String → String → Entry → ObjectMetadata
  object_meta b relative e = record {
    bucket_name = b;
    path = append b (append "/" e.key);
    relative_path = relative;
    node_type = object;
    file_type = file_type relative;
    size_bytes = e.size;
    object_count = pos 1;
    last_modified = some e.last_modified;
  }

  abbrev pub with_object : String → String → Entry → Scan → Dict ObjectMetadata → Scan
  with_object b relative e t dirs = record {
    total_size = add_64 t.total_size e.size;
    total_count = add_64 t.total_count (pos 1);
    objects = t.objects ++ object_meta b relative e ∷ [];
    dirs = dirs;
  }

  -- an object: the totals, its own row, and its directories
  unfoldable pub scan_object : String → String → Entry → Scan → Option Scan
  unfolding charge_dirs inits split join
  scan_object b relative e t =
      elim (charge_dirs b e.size (map join (inits (split relative))) t.dirs) [
        | none ↦ none
        | some dirs ↦ some (with_object b relative e t dirs)
      ]

  -- one round of the loop
  unfoldable pub scan_entry : String → String → Entry → Scan → Option Scan
  unfolding is_skipped ensure_dir ends_in_slash trim_last_slash
  scan_entry b clean e t =
      if is_skipped clean e
      then some t
      else if ends_in_slash e.key
      then some
          (record t { dirs = ensure_dir b (trim_last_slash (relative_key clean e.key)) t.dirs })
      else scan_object b (relative_key clean e.key) e t

  unfoldable pub scan_entries : String → String → List Entry → Scan → Option Scan
  unfolding scan_entry
  scan_entries b clean [] t = some t
  scan_entries b clean (e ∷ es) t = elim (scan_entry b clean e t) [
    | none ↦ none
    | some t' ↦ scan_entries b clean es t'
  ]
