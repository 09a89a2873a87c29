-- ===== src/Meta/ObjectScan.antt =====
-- scanObjectStoragePaths and prepareObjectPaths of
-- meta/backend/internal/service/scan_service_new.go. The scanner is an interface, which the S3
-- scanner implements.
use addp.Common.{
  ℕ, suc, ◌+◌, String, true, false, none, some, List, [], ◌∷◌, Result, ok, err, Exec, is_some,
  if◌then◌else◌,
}
use addp.Common.Int.{pos}
use addp.Common.Outcome.{pure, raise, gets, ◌>>=◌, ◌>>◌}
use addp.Common.Dict.{Dict, lookup, insert}
use addp.Db.{DbError}
use addp.Text.{is_empty}
use addp.Text.Sort.{sort_by}
use addp.Meta.Objects.{ObjectMetadata}
use addp.Meta.Models.{text, scalar, scanning, scanned, MetaResource, MetaNode}
use addp.Meta.Store.{Forest}
use addp.Meta.Nodes.{
  upsert_node, reset_node_state, finalize_node_state, hard_delete_items_by_node,
  hard_delete_descendant_nodes,
}
use addp.Meta.S3Scanner.{Client}
use addp.Meta.S3Scanner.Buckets.{
  ScanError, not_allowed, panicked, contains_name, add_name, allowed_buckets, scan_path,
}
use addp.Meta.Persist.{Stats, find_aggregate, Work, persist_object_metas, sanitize_object_path}

-- ObjectStorageScanner
pub record ObjectScanner : Type 0 where
  pub scan : String → Result ScanError (List ObjectMetadata)
  pub buckets : List String

-- the S3 scanner, once its buckets are known: the client's answers do not change during a scan
unfoldable pub s3_object_scanner : Client → List String → ObjectScanner
unfolding scan_path allowed_buckets
s3_object_scanner client allowed = record {
  scan = λ path. (scan_path client path allowed).0;
  buckets = elim ((allowed_buckets client allowed).0) [ ok bs ↦ bs | err e ↦ [] ];
}

-- the paths that are left of a list once they are cleaned, each once
unfoldable pub clean_paths : List String → List String → List String
unfolding sanitize_object_path add_name
clean_paths [] set = set
clean_paths (p ∷ ps) set =
    clean_paths ps
      (if is_empty (sanitize_object_path p) then set else add_name (sanitize_object_path p) set)

-- the first of two lists that is not empty
abbrev or_else : List String → List String → List String
or_else [] other = other
or_else (p ∷ ps) other = p ∷ ps

unfoldable pub prepare_object_paths : List String → List String → ObjectScanner → List String
unfolding clean_paths sort_by
prepare_object_paths paths fallback scanner =
    sort_by (λ p. p)
      (or_else (clean_paths paths [])
        (or_else (clean_paths fallback []) (clean_paths scanner.buckets [])))

-- The errors of a scan; `panic` is the scanner's.
pub data ScanFailure : Type 0 where
  database : DbError → ScanFailure
  panic : ScanFailure

-- the database and the variables of scanObjectStoragePaths
pub record Run (T : Type 0) : Type 0 where
  pub work : Work T
  pub bucket_nodes : Dict MetaNode
  pub processed : List String
  pub total_buckets : ℕ
  pub total_objects : ℕ

abbrev pub start : {T : Type 0} → T → Run T
start s = record {
  work = record { forest = s; stats = [] };
  bucket_nodes = [];
  processed = [];
  total_buckets = 0;
  total_objects = 0;
}

-- a statement on the database alone
abbrev pub statement : {T A : Type 0} → Exec T DbError A → Exec (Run T) ScanFailure A
statement m r =
    let (a, s) = m r.work.forest in
    (
      elim a [ ok x ↦ ok x | err e ↦ err (database e) ],
      record r { work = record r.work { forest = s } },
    )

module _ {T : Type 0} (db : Forest T) (now : ℕ) (res : MetaResource) where
  -- the node of a bucket, made or read at its first path
  unfoldable pub bucket_node : String → Exec (Run T) ScanFailure MetaNode
  unfolding lookup insert upsert_node
  bucket_node b r = elim (lookup b r.bucket_nodes) [
    | some node ↦ (ok node, r)
    | none ↦
        (statement (upsert_node db res none "bucket" b b (some (("bucket", scalar (text b)) ∷ [])))
            >>= λ node r'. (ok node, record r' { bucket_nodes = insert b node r'.bucket_nodes }))
          r
  ]

  -- what is removed of a bucket before its first path is written
  unfoldable pub clear_bucket : String → MetaNode → Exec (Run T) ScanFailure Unit
  unfolding contains_name reset_node_state hard_delete_descendant_nodes hard_delete_items_by_node
  clear_bucket b node r = elim (contains_name b r.processed) [
    | true ↦ (ok tt, r)
    | false ↦
        (statement (reset_node_state db now node scanning) >>= λ _.
        statement (hard_delete_descendant_nodes db node) >>= λ _.
        statement (hard_delete_items_by_node db node.id) >>= λ _ r'.
        (ok tt, record r' { processed = b ∷ r'.processed; total_buckets = suc r'.total_buckets }))
          r
  ]

  -- persistObjectMetas, whose error is logged
  unfoldable pub write_metas : MetaNode → List ObjectMetadata → Exec (Run T) ScanFailure Unit
  unfolding persist_object_metas
  write_metas node metas r =
      let (a, w) = persist_object_metas db res node metas r.work in
      elim a [
        | ok n ↦ (ok tt, record r { work = w; total_objects = r.total_objects + n })
        | err e ↦ (ok tt, record r { work = w })
      ]

  -- what the scanner reports for one path
  unfoldable pub scan_metas : List ObjectMetadata → Exec (Run T) ScanFailure Unit
  unfolding bucket_node clear_bucket write_metas
  scan_metas [] = pure tt
  scan_metas (meta ∷ metas) = if is_empty meta.bucket_name then pure tt else (do
    node ← bucket_node meta.bucket_name
    clear_bucket meta.bucket_name node
    write_metas node (meta ∷ metas))

  unfoldable pub scan_paths : ObjectScanner → List String → Exec (Run T) ScanFailure Unit
  unfolding scan_metas
  scan_paths scanner [] = pure tt
  scan_paths scanner (path ∷ paths) = elim (scanner.scan path) [
    | err panicked ↦ raise panic
    | err (not_allowed b) ↦ scan_paths scanner paths
    | ok metas ↦ scan_metas metas >>= λ _. scan_paths scanner paths
  ]

  unfoldable pub finalize_stats : Stats → Exec (Run T) ScanFailure Unit
  unfolding finalize_node_state
  finalize_stats [] = pure tt
  finalize_stats (a ∷ stats) = do
    statement (finalize_node_state db now a.node scanned a.item_count a.total_size "")
    finalize_stats stats

  -- the buckets that have no aggregate
  unfoldable pub finalize_buckets : Dict MetaNode → Exec (Run T) ScanFailure Unit
  unfolding finalize_node_state find_aggregate
  finalize_buckets [] r = (ok tt, r)
  finalize_buckets ((b, node) ∷ nodes) r = elim (is_some (find_aggregate node.id r.work.stats)) [
    | true ↦ finalize_buckets nodes r
    | false ↦
        (statement (finalize_node_state db now node scanned (pos 0) (pos 0) "") >>= λ _.
        finalize_buckets nodes)
          r
  ]

  -- the whole method; the totals are read from the state
  unfoldable pub scan_object_storage_paths :
      ObjectScanner → List String → Exec (Run T) ScanFailure Unit
  unfolding scan_paths finalize_stats finalize_buckets
  scan_object_storage_paths scanner paths = do
    scan_paths scanner paths
    stats ← gets (λ r. r.work.stats)
    finalize_stats stats
    nodes ← gets (λ r. r.bucket_nodes)
    finalize_buckets nodes
