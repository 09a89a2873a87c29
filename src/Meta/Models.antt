-- ===== src/Meta/Models.antt =====
-- The rows of the meta service's tables (meta/backend/internal/models), without the times that
-- GORM keeps itself. Nothing deletes rows softly, so there is no `deleted_at`.
use addp.Common.{ℕ, String, Bool, Option, List}
use addp.Common.Int.{ℤ}
use addp.Common.Dict.{Dict}
use addp.System.Models.{ConnectionInfo}

-- Resource of common/models/resource.go
pub record Resource : Type 0 where
  pub id : ℕ
  pub tenant_id : ℕ
  pub name : String
  pub resource_type : String
  pub connection_info : ConnectionInfo
  pub description : String
  pub is_active : Bool
  pub created_by : Option ℕ

-- the values of the attributes that the scans write
pub data Scalar : Type 0 where
  text : String → Scalar
  number : ℤ → Scalar
  flag : Bool → Scalar
  time : ℕ → Scalar

pub data Attribute : Type 0 where
  scalar : Scalar → Attribute
  fields : List (Dict Scalar) → Attribute

abbrev pub JsonMap : Type 0
JsonMap = Dict Attribute

-- 未扫描, 扫描中 and 已扫描
pub data ScanStatus : Type 0 where
  unscanned scanning scanned : ScanStatus

pub record MetaResource : Type 0 where
  pub id : ℕ
  pub tenant_id : ℕ
  pub resource_id : ℕ
  pub resource_type : String
  pub name : String
  pub engine : String
  pub config : ConnectionInfo
  pub status : String
  pub source : String

pub record MetaNode : Type 0 where
  pub id : ℕ
  pub tenant_id : ℕ
  pub res_id : ℕ
  pub parent_node_id : Option ℕ
  pub node_type : String
  pub name : String
  pub depth : ℕ
  pub path : String
  pub full_name : String
  pub status : String
  pub scan_status : ScanStatus
  pub last_scan_at : Option ℕ
  pub auto_scan_enabled : Bool
  pub auto_scan_cron : String
  pub next_scan_at : Option ℕ
  pub item_count : ℤ
  pub total_size_bytes : ℤ
  pub error_message : String
  pub attributes : JsonMap

pub record MetaItem : Type 0 where
  pub id : ℕ
  pub tenant_id : ℕ
  pub res_id : ℕ
  pub node_id : ℕ
  pub item_type : String
  pub name : String
  pub full_name : String
  pub status : String
  pub meta_schema_version : ℕ
  pub row_count : Option ℤ
  pub size_bytes : Option ℤ
  pub object_size_bytes : Option ℤ
  pub last_modified_at : Option ℕ
  pub attributes : JsonMap

-- "running", "success" and "failed"
pub data LogStatus : Type 0 where
  running success failure : LogStatus

pub record ScanLog : Type 0 where
  pub id : ℕ
  pub resource_id : ℕ
  pub tenant_id : ℕ
  pub scan_type : String
  pub scan_depth : String
  pub status : LogStatus
  pub error_message : String
  pub schemas_scanned : ℕ
  pub tables_scanned : ℕ
  pub fields_scanned : ℕ
