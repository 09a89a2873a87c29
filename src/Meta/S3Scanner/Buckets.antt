-- ===== src/Meta/S3Scanner/Buckets.antt =====
-- The scanner's methods (meta/backend/internal/scanner/s3_scanner.go). The state is the set of
-- allowed buckets, in the order of their discovery.
pub mod Owned
pub mod Reported
use addp.Common.{
  ℕ, String, Bool, true, false, not, ◌&&◌, ◌||◌, Option, none, some, List, [], ◌∷◌, ◌++◌, map,
  Result, ok, err, Exec, str_eq, is_some, ltb, length, if◌then◌else◌,
}
use Prim.Native.String
use Prim.Native.String.{◌++◌ as append}
use addp.Common.Int.{ℤ, pos}
use addp.Common.Outcome.{pure, raise, lift, ◌>>=◌, ◌>>◌}
use addp.Common.Dict.{Dict, lookup, insert}
use addp.Text.{
  is_empty, trim_prefix, trim_last_slash, ends_in_slash, trim_space, trim_blanks, split, cut_slash,
}
use addp.Text.Sort.{sort_by}
use addp.Meta.Objects.{
  NodeType, bucket, prefix, object, ObjectMetadata, ObjectNode, is_reserved_bucket_name,
  contains_reserved, has_reserved, filter_reserved_nodes, filter_reserved_metadata,
}
use addp.Meta.S3Scanner.{
  Entry, Client, Scan, empty_scan, with_slash, relative_key, scan_entries, file_type,
}

pub data ScanError : Type 0 where
  not_allowed : String → ScanError
  panicked : ScanError

unfoldable pub contains_name : String → List String → Bool
contains_name b [] = false
contains_name b (a ∷ names) = str_eq a b || contains_name b names

unfoldable pub add_name : String → List String → List String
unfolding contains_name
add_name b names = if contains_name b names then names else names ++ b ∷ []

-- the buckets of a configuration or of a listing that are not reserved
unfoldable pub add_names : List String → List String → List String
unfolding add_name is_reserved_bucket_name
add_names [] names = names
add_names (b ∷ bs) names =
    add_names bs (if is_reserved_bucket_name b then names else add_name b names)

-- the part of NewS3Scanner that fills the set
unfoldable pub configured : List String → String → List String
unfolding add_names trim_space
configured buckets single = add_names (map trim_space buckets ++ trim_space single ∷ []) []

unfoldable pub split_path : List String → String → Result ScanError (String × String)
unfolding trim_blanks trim_prefix trim_last_slash cut_slash contains_name
split_path allowed path =
    let cut = cut_slash (trim_last_slash (trim_prefix "/" (trim_blanks path))) in
    if contains_name cut.0 allowed
    then ok (cut.0, elim cut.1 [ none ↦ "" | some rest ↦ rest ])
    else err (not_allowed cut.0)

unfoldable pub join_path : String → String → String → String
unfolding trim_prefix trim_last_slash
join_path b p name =
    let inner = trim_last_slash (trim_prefix "/" p) in
    if is_empty inner
    then append b (append "/" name)
    else append b (append "/" (append inner (append "/" name)))

-- bucketMeta of scanBucket
unfoldable pub bucket_meta : String → String → String → Scan → ObjectMetadata
unfolding trim_last_slash
bucket_meta b p clean t = record {
  bucket_name = b;
  path = if is_empty p || is_empty clean then b else append b (append "/" (trim_last_slash clean));
  relative_path = trim_last_slash clean;
  node_type = if is_empty p then bucket else prefix;
  file_type = "";
  size_bytes = t.total_size;
  object_count = t.total_count;
  last_modified = none;
}

unfoldable pub dir_meta : String → String → ObjectMetadata → ObjectMetadata
unfolding trim_last_slash
dir_meta b clean dir =
    let base = trim_last_slash clean in
    record dir {
      path =
          if is_empty base
          then append b (append "/" dir.relative_path)
          else append b (append "/" (append base (append "/" dir.relative_path)));
    }

-- what follows the loop of scanBucket
unfoldable pub results : String → String → String → Scan → List ObjectMetadata
unfolding bucket_meta dir_meta filter_reserved_metadata sort_by
results b p clean t =
    filter_reserved_metadata (bucket_meta b p clean t ∷ map (λ (d, m). dir_meta b clean m) t.dirs)
    ++ sort_by (λ m. m.relative_path) t.objects

-- a method's reading of its path, once the buckets are known
unfoldable pub at_path :
    {A : Type 0}
    → (List String → Result ScanError A)
    → (String → String → Result ScanError A)
    → String
    → List String
    → Result ScanError A
unfolding split_path
at_path root below path allowed =
    if is_empty path
    then root allowed
    else elim (split_path allowed path) [ err e ↦ err e | ok cut ↦ below cut.0 cut.1 ]

module _ (client : Client) where
  unfoldable pub scan_bucket : String → String → Result ScanError (List ObjectMetadata)
  unfolding with_slash trim_prefix scan_entries results
  scan_bucket b p =
      let clean = with_slash (trim_prefix "/" p) in
      elim (scan_entries client b clean (client.list_objects b clean) empty_scan) [
        | none ↦ err panicked
        | some t ↦ ok (results b p clean t)
      ]

  unfoldable pub scan_buckets : List String → Result ScanError (List ObjectMetadata)
  unfolding scan_bucket
  scan_buckets [] = ok []
  scan_buckets (b ∷ bs) = elim (scan_bucket b "") [
    | err e ↦ err e
    | ok metas ↦ elim (scan_buckets bs) [ err e ↦ err e | ok rest ↦ ok (metas ++ rest) ]
  ]

  unfoldable pub ensure_buckets : List String → List String
  unfolding add_names
  ensure_buckets (b ∷ names) = b ∷ names
  ensure_buckets [] = elim client.list_buckets [ none ↦ [] | some bs ↦ add_names bs [] ]

  unfoldable pub ensured : Exec (List String) ScanError (List String)
  unfolding ensure_buckets
  ensured allowed = (ok (ensure_buckets allowed), ensure_buckets allowed)

  unfoldable pub allowed_buckets : Exec (List String) ScanError (List String)
  unfolding ensured sort_by
  allowed_buckets = do allowed ← ensured; pure (sort_by (λ b. b) allowed)

  -- ListSchemas: the buckets again, as the names of schemas
  unfoldable pub list_schemas : Exec (List String) ScanError (List String)
  unfolding ensured sort_by
  list_schemas = do allowed ← ensured; pure (sort_by (λ b. b) allowed)

  unfoldable pub object_item : String → ℤ × ℕ → String → ObjectMetadata
  object_item b stat p = record {
    bucket_name = b;
    path = append b (append "/" p);
    relative_path = p;
    node_type = object;
    file_type = file_type client p;
    size_bytes = stat.0;
    object_count = pos 1;
    last_modified = some stat.1;
  }

  -- the rest of ScanPath, for a path with a bucket
  unfoldable pub scan_below : String → String → Result ScanError (List ObjectMetadata)
  unfolding has_reserved scan_bucket object_item trim_prefix
  scan_below b p =
      if has_reserved p
      then ok []
      else if is_empty p
      then scan_bucket b ""
      else elim (client.stat_object b (trim_prefix "/" p)) [
        | some stat ↦ ok (object_item b stat (trim_prefix "/" p) ∷ [])
        | none ↦ scan_bucket b (trim_prefix "/" p)
      ]

  unfoldable pub scan_path : String → Exec (List String) ScanError (List ObjectMetadata)
  unfolding ensured scan_buckets scan_below at_path trim_space
  scan_path path = do
    allowed ← ensured
    lift (at_path scan_buckets scan_below (trim_space path) allowed)

  -- parts[0]
  abbrev first_part : List String → String
  first_part [] = ""
  first_part (part ∷ parts) = part

  -- the variables of ListNodes' loop
  abbrev Found : Type 0
  Found = Dict ObjectNode × List ObjectNode

  dir_node : String → String → ObjectNode
  dir_node name path = record {
    name = name;
    path = path;
    node_type = prefix;
    size_bytes = pos 0;
    file_type = "";
    object_count = pos 0;
    last_modified = none;
  }

  object_node : String → String → Entry → ObjectNode
  object_node name path e = record {
    name = name;
    path = path;
    node_type = object;
    size_bytes = e.size;
    file_type = file_type client name;
    object_count = pos 0;
    last_modified = some e.last_modified;
  }

  bucket_node : String → ObjectNode
  bucket_node b = record {
    name = b;
    path = b;
    node_type = bucket;
    size_bytes = pos 0;
    file_type = "";
    object_count = pos 0;
    last_modified = none;
  }

  list_entry : String → String → Entry → Found → Found
  unfolding relative_key contains_reserved split join_path ends_in_slash dir_node object_node lookup
      insert
  list_entry b clean e (dirs, objects) =
      let relative = relative_key clean e.key in
      let parts = split relative in
      let name = first_part parts in
      let path = join_path b clean name in
      if e.failed || is_empty relative || contains_reserved parts
      then (dirs, objects)
      else if ltb 1 (length parts) || ends_in_slash e.key
      then (
        if is_some (lookup name dirs) then dirs else insert name (dir_node name path) dirs,
        objects,
      )
      else (dirs, objects ++ object_node name path e ∷ [])

  list_entries : String → String → List Entry → Found → Found
  unfolding list_entry
  list_entries b clean [] found = found
  list_entries b clean (e ∷ es) found = list_entries b clean es (list_entry b clean e found)

  list_below : String → String → Result ScanError (List ObjectNode)
  unfolding with_slash list_entries filter_reserved_nodes sort_by
  list_below b p =
      let clean = with_slash p in
      let (dirs, objects) = list_entries b clean (client.list_objects b clean) ([], []) in
      ok (sort_by (λ n. n.name) (filter_reserved_nodes (map (λ (d, n). n) dirs ++ objects)))

  unfoldable pub list_nodes : String → Exec (List String) ScanError (List ObjectNode)
  unfolding ensured list_below at_path bucket_node sort_by trim_space
  list_nodes path = do
    allowed ← ensured
    lift (
        at_path (λ bs. ok (sort_by (λ n. n.name) (map bucket_node bs))) list_below (trim_space path)
          allowed)
