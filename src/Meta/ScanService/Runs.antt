-- ===== src/Meta/ScanService/Runs.antt =====
-- The scans of one resource and of all, with their logs
-- (meta/backend/internal/service/scan_service_new.go).
use addp.Common.{
  ℕ, ◌+◌, String, Bool, Option, none, some, List, [], ◌∷◌, Result, ok, err, Exec, if◌then◌else◌,
}
use addp.Common.Outcome.{pure, raise, lift, ◌>>=◌}
use addp.System.Models.{ConnectionInfo}
use addp.Meta.Models.{Resource, MetaResource, ScanLog, running, success, failure}
use addp.Meta.Connection.{Outside, is_object_storage_type, build_connection_string}
use addp.Meta.ObjectScan.{prepare_object_paths}
use addp.Meta.SchemaScan.{Scanner, Totals, no_totals, scan_schemas, scan_new_schemas}
use addp.Meta.ScanService.{
  AnyScanner, tables, objects, ServiceError, database, no_connection, no_scanner, no_schemas,
  not_object_storage, panic, MetaStore, MetaDatabase, is_nil, object_scan, scan_new_buckets,
  ensure_meta_resource,
}

module _ {R T L : Type 0} (db : MetaDatabase R T L)
    (same_config : ConnectionInfo → ConnectionInfo → Bool) (out : Outside) (now : ℕ)
    (open_scanner : String → String → Option AnyScanner) (message : ServiceError → String) where
  -- BuildConnectionString and NewScanner
  unfoldable pub connect : Resource → Result ServiceError AnyScanner
  unfolding build_connection_string
  connect r = elim (build_connection_string out r) [
    | err e ↦ err no_connection
    | ok connection ↦ elim (open_scanner r.resource_type connection) [
      | none ↦ err no_scanner
      | some scanner ↦ ok scanner
    ]
  ]

  abbrev schemas_of : AnyScanner → Scanner
  schemas_of (tables scanner) = scanner
  schemas_of (objects scanner os) = scanner

  unfoldable pub new_schemas : MetaResource → Scanner → Exec (MetaStore R T L) ServiceError Totals
  unfolding scan_new_schemas
  new_schemas m scanner s = elim scanner.list_schemas [
    | err e ↦ (err no_schemas, s)
    | ok names ↦
        let (t, totals) = scan_new_schemas db.forest now m scanner names (s.forest, no_totals) in
        (ok totals, record s { forest = t })
  ]

  -- the objects of an object storage, and the schemas of everything else
  unfoldable pub scan_with :
      Resource → MetaResource → AnyScanner → Exec (MetaStore R T L) ServiceError Totals
  unfolding new_schemas scan_new_buckets is_object_storage_type
  scan_with r m (tables scanner) = new_schemas m scanner
  scan_with r m (objects scanner os) =
      if is_object_storage_type out (out.to_lower r.resource_type)
      then scan_new_buckets db same_config out now m os os.buckets no_totals
      else new_schemas m scanner

  -- scanResource: what has not been scanned yet
  unfoldable pub scan_resource : Resource → ℕ → Exec (MetaStore R T L) ServiceError Totals
  unfolding ensure_meta_resource connect scan_with
  scan_resource r tenant_id = do
    m ← ensure_meta_resource db same_config out now r tenant_id
    scanner ← lift (connect r)
    scan_with r m scanner

  -- the schemas that are asked for, or all
  abbrev chosen_schemas : List String → Scanner → Result ServiceError (List String)
  chosen_schemas (name ∷ names) scanner = ok (name ∷ names)
  chosen_schemas [] scanner = elim scanner.list_schemas [
    | ok names ↦ ok names
    | err e ↦ err no_schemas
  ]

  unfoldable pub scan_chosen :
      MetaResource → Scanner → List String → Exec (MetaStore R T L) ServiceError Totals
  unfolding scan_schemas
  scan_chosen m scanner names s =
      let (t, totals) = scan_schemas db.forest now m scanner names (s.forest, no_totals) in
      (ok totals, record s { forest = t })

  unfoldable pub scan_resource_schemas :
      Resource → ℕ → List String → Exec (MetaStore R T L) ServiceError Totals
  unfolding ensure_meta_resource connect scan_chosen
  scan_resource_schemas r tenant_id names = do
    m ← ensure_meta_resource db same_config out now r tenant_id
    scanner ← lift (connect r)
    chosen ← lift (chosen_schemas names (schemas_of scanner))
    scan_chosen m (schemas_of scanner) chosen

  unfoldable pub scan_objects :
      MetaResource
      → AnyScanner
      → List String
      → List String
      → Exec (MetaStore R T L) ServiceError Totals
  unfolding prepare_object_paths object_scan
  scan_objects m (tables scanner) paths fallback = raise not_object_storage
  scan_objects m (objects scanner os) paths fallback =
      if is_nil (prepare_object_paths paths fallback os)
      then pure no_totals
      else object_scan db same_config out now m os (prepare_object_paths paths fallback os)

  unfoldable pub scan_object_storage_resource :
      Resource → ℕ → List String → List String → Exec (MetaStore R T L) ServiceError Totals
  unfolding ensure_meta_resource connect scan_objects
  scan_object_storage_resource r tenant_id paths fallback = do
    m ← ensure_meta_resource db same_config out now r tenant_id
    scanner ← lift (connect r)
    scan_objects m scanner paths fallback

  abbrev new_log : ℕ → ℕ → String → ScanLog
  new_log resource_id tenant_id scan_type = record {
    id = 0;
    resource_id = resource_id;
    tenant_id = tenant_id;
    scan_type = scan_type;
    scan_depth = "deep";
    status = running;
    error_message = "";
    schemas_scanned = 0;
    tables_scanned = 0;
    fields_scanned = 0;
  }

  unfoldable pub create_log : ScanLog → Exec (MetaStore R T L) ServiceError ScanLog
  create_log log s = elim (db.logs.create s.logs log) [
    | err e ↦ (err (database e), s)
    | ok made ↦ (ok made.0, record s { logs = made.1 })
  ]

  -- s.db.Save(scanLog), whose error is dropped
  unfoldable pub save_log : ScanLog → MetaStore R T L → MetaStore R T L
  save_log log s = elim (db.logs.save s.logs log) [ err e ↦ s | ok ls ↦ record s { logs = ls } ]

  abbrev pub done_log : Totals → ScanLog → ScanLog
  done_log totals log = record log {
    status = success;
    schemas_scanned = totals.schemas;
    tables_scanned = totals.tables;
    fields_scanned = totals.columns;
  }

  abbrev pub failed_log : ServiceError → ScanLog → ScanLog
  failed_log e log = record log { status = failure; error_message = message e }

  -- a run's result, written to its log; a panic leaves the log as it is
  unfoldable pub close_log :
      ScanLog
      → Result ServiceError Totals × MetaStore R T L
      → Result ServiceError Totals × MetaStore R T L
  unfolding save_log
  close_log log (ok totals, s) = (ok totals, save_log (done_log totals log) s)
  close_log log (err panic, s) = (err panic, s)
  close_log log (err e, s) = (err e, save_log (failed_log e log) s)

  -- ScanResource, once the system service has sent the resource
  unfoldable pub scan_fetched :
      Resource → ℕ → List String → List String → Exec (MetaStore R T L) ServiceError Totals
  unfolding scan_object_storage_resource scan_resource_schemas is_object_storage_type
  scan_fetched r tenant_id schema_names object_paths =
      if is_object_storage_type out (out.to_lower r.resource_type)
      then scan_object_storage_resource r tenant_id object_paths schema_names
      else scan_resource_schemas r tenant_id schema_names

  unfoldable pub run_scan :
      Resource → ℕ → ℕ → List String → List String → Exec (MetaStore R T L) ServiceError Totals
  unfolding create_log scan_fetched close_log
  run_scan r resource_id tenant_id schema_names object_paths = do
    log ← create_log (new_log resource_id tenant_id "manual")
    λ s. close_log log (scan_fetched r tenant_id schema_names object_paths s)

  -- the loop of AutoScanUnscanned: a resource that fails is logged and left out
  unfoldable pub scan_all : List Resource → ℕ → Totals → Exec (MetaStore R T L) ServiceError Totals
  unfolding scan_resource
  scan_all [] tenant_id totals s = (ok totals, s)
  scan_all (r ∷ rs) tenant_id totals s =
      let (x, t) = scan_resource r tenant_id s in
      elim x [
        | ok more ↦
            scan_all rs tenant_id
              (record {
                schemas = totals.schemas + more.schemas;
                tables = totals.tables + more.tables;
                columns = totals.columns + more.columns;
              })
              t
        | err panic ↦ (err panic, t)
        | err other ↦ scan_all rs tenant_id totals t
      ]

  -- AutoScanUnscanned; `fetched` is what GetResourcesByTenant returned
  unfoldable pub auto_scan_unscanned :
      Result ServiceError (List Resource) → ℕ → Exec (MetaStore R T L) ServiceError Totals
  unfolding create_log scan_all close_log
  auto_scan_unscanned fetched tenant_id = do
    log ← create_log (new_log 0 tenant_id "auto")
    λ s.
        close_log log
          (elim fetched [ err e ↦ (err e, s) | ok rs ↦ scan_all rs tenant_id no_totals s ])
