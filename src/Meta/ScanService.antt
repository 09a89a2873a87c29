-- ===== src/Meta/ScanService.antt =====
-- The entry points of meta/backend/internal/service/scan_service_new.go: ensureMetaResourceRecord,
-- the scans of one resource and of all, and their logs. Times are left out of the logs, and so is
-- the list of schemas that a log names.
pub mod Runs
use addp.Common.{
  ℕ, ◌+◌, String, Bool, true, false, not, ◌&&◌, ◌||◌, Option, none, some, List, [], ◌∷◌, Result, ok,
  err, Exec, ◌==◌, str_eq, if◌then◌else◌,
}
use addp.Common.Outcome.{pure, raise, lift, ◌>>=◌}
use addp.Db.{DbError, not_found, failed, Table}
use addp.System.Models.{ConnectionInfo}
use addp.Meta.Models.{Resource, MetaResource, ScanLog, running, success, failure}
use addp.Meta.Store.{Forest}
use addp.Meta.Connection.{
  Outside, is_object_storage_type, sanitize_connection_info, build_connection_string,
}
use addp.Meta.ObjectScan
use addp.Meta.ObjectScan.{
  ObjectScanner, Run, start, prepare_object_paths, scan_object_storage_paths,
}
use addp.Meta.SchemaScan.{Scanner, Totals, no_totals, scan_schemas, scan_new_schemas, is_root_named}

-- NewScanner's result: every scanner lists schemas, and that of an object storage lists objects
pub data AnyScanner : Type 0 where
  tables : Scanner → AnyScanner
  objects : Scanner → ObjectScanner → AnyScanner

pub data ServiceError : Type 0 where
  database : DbError → ServiceError
  no_connection no_scanner no_schemas not_object_storage : ServiceError
  scan_failed panic : ServiceError

-- the resources, the nodes and items, and the logs
pub record MetaStore (R T L : Type 0) : Type 0 where
  pub resources : R
  pub forest : T
  pub logs : L

pub record MetaDatabase (R T L : Type 0) : Type 0 where
  pub resources : Table R MetaResource
  pub forest : Forest T
  pub logs : Table L ScanLog

abbrev pub is_nil : {A : Type 0} → List A → Bool
is_nil [] = true
is_nil (a ∷ l) = false

unfoldable pub new_meta_resource : Outside → Resource → ℕ → MetaResource
unfolding sanitize_connection_info
new_meta_resource out r tenant_id = record {
  id = 0;
  tenant_id = tenant_id;
  resource_id = r.id;
  resource_type = r.resource_type;
  name = r.name;
  engine = out.to_lower r.resource_type;
  config = sanitize_connection_info out r.connection_info;
  status = "active";
  source = "system";
}

-- an empty config is not written over an old one
unfoldable pub has_new_config :
    (ConnectionInfo → ConnectionInfo → Bool) → Outside → Resource → MetaResource → Bool
unfolding sanitize_connection_info
has_new_config same_config out r m =
    not (is_nil (sanitize_connection_info out r.connection_info))
    && not (same_config m.config (sanitize_connection_info out r.connection_info))

-- whether a resource's record differs from what the system service says of it
unfoldable pub is_outdated :
    (ConnectionInfo → ConnectionInfo → Bool) → Outside → Resource → MetaResource → Bool
unfolding has_new_config
is_outdated same_config out r m =
    not (str_eq m.name r.name)
    || not (str_eq m.resource_type r.resource_type)
    || not (str_eq m.engine (out.to_lower r.resource_type))
    || has_new_config same_config out r m

-- the columns that are brought up to date, after a look at the row `m`
unfoldable pub follow_resource :
    (ConnectionInfo → ConnectionInfo → Bool)
    → Outside
    → Resource
    → MetaResource
    → MetaResource
    → MetaResource
unfolding has_new_config sanitize_connection_info
follow_resource same_config out r m row = record row {
  name = if str_eq m.name r.name then row.name else r.name;
  resource_type =
      if str_eq m.resource_type r.resource_type then row.resource_type else r.resource_type;
  engine =
      if str_eq m.engine (out.to_lower r.resource_type)
      then row.engine
      else out.to_lower r.resource_type;
  config =
      if has_new_config same_config out r m
      then sanitize_connection_info out r.connection_info
      else row.config;
}

module _ {R T L : Type 0} (db : MetaDatabase R T L)
    (same_config : ConnectionInfo → ConnectionInfo → Bool) (out : Outside) (now : ℕ) where
  -- the record of a resource that is there, brought up to date
  unfoldable pub refresh_meta_resource :
      Resource → MetaResource → Exec (MetaStore R T L) ServiceError MetaResource
  unfolding is_outdated follow_resource
  refresh_meta_resource r m s = elim (is_outdated same_config out r m) [
    | false ↦ (ok m, s)
    | true ↦ elim (db.resources.update s.resources m.id (follow_resource same_config out r m)) [
      | err e ↦ (err (database e), s)
      | ok rs ↦ (ok (follow_resource same_config out r m m), record s { resources = rs })
    ]
  ]

  unfoldable pub ensure_meta_resource :
      Resource → ℕ → Exec (MetaStore R T L) ServiceError MetaResource
  unfolding new_meta_resource refresh_meta_resource
  ensure_meta_resource r tenant_id s =
      elim (db.resources.first_where s.resources
        (λ m. m.tenant_id == tenant_id && m.resource_id == r.id)) [
          | err (failed e) ↦ (err (database (failed e)), s)
          | err not_found ↦
              elim (db.resources.create s.resources (new_meta_resource out r tenant_id)) [
                | err e ↦ (err (database e), s)
                | ok made ↦ (ok made.0, record s { resources = made.1 })
              ]
          | ok m ↦ refresh_meta_resource r m s
        ]

  -- an object scan in the service's state; a panic ends the request
  unfoldable pub object_scan :
      MetaResource → ObjectScanner → List String → Exec (MetaStore R T L) ServiceError Totals
  unfolding scan_object_storage_paths
  object_scan m scanner paths s =
      let (r, run) = scan_object_storage_paths db.forest now m scanner paths (start s.forest) in
      let s' = record s { forest = run.work.forest } in
      elim r [
        | ok x ↦ (
          ok (record { schemas = run.total_buckets; tables = run.total_objects; columns = 0 }),
          s',
        )
        | err ObjectScan.panic ↦ (err panic, s')
        | err (ObjectScan.database e) ↦ (err (database e), s')
      ]

  -- the buckets that have no node yet; a failed scan is logged, a panic is not caught
  unfoldable pub scan_new_buckets :
      MetaResource
      → ObjectScanner
      → List String
      → Totals
      → Exec (MetaStore R T L) ServiceError Totals
  unfolding object_scan is_root_named
  scan_new_buckets m scanner [] totals s = (ok totals, s)
  scan_new_buckets m scanner (b ∷ bs) totals s =
      elim (db.forest.first_node s.forest (is_root_named m "bucket" b)) [
        | ok node ↦ scan_new_buckets m scanner bs totals s
        | err (failed e) ↦ scan_new_buckets m scanner bs totals s
        | err not_found ↦
            let (r, t) = object_scan m scanner (b ∷ []) s in
            elim r [
              | ok more ↦
                  scan_new_buckets m scanner bs
                    (record {
                      schemas = totals.schemas + more.schemas;
                      tables = totals.tables + more.tables;
                      columns = 0;
                    })
                    t
              | err panic ↦ (err panic, t)
              | err other ↦ scan_new_buckets m scanner bs totals t
            ]
      ]
