-- ===== src/System/Models.antt =====
-- system/backend/internal/models: the rows of the four tables and the bodies of the requests.
-- `created_at` and `updated_at` are GORM's own and no operation reads them, so rows are without.
use addp.Common.{ℕ, String, Bool, false, true, Option, List, ◌==◌, str_eq, ◌||◌}
use addp.Common.Int.{ℤ}

-- `UserType` is a string in Go: the three constants, the empty string, or any other text.
pub data UserType : Type 0 where
  super_admin tenant_admin user empty : UserType
  other : String → UserType

abbrev pub is_super_admin : UserType → Bool
is_super_admin super_admin = true
is_super_admin _ = false

abbrev pub is_tenant_admin : UserType → Bool
is_tenant_admin tenant_admin = true
is_tenant_admin _ = false

abbrev pub is_user : UserType → Bool
is_user user = true
is_user _ = false

abbrev pub is_empty : UserType → Bool
is_empty empty = true
is_empty _ = false

pub record User : Type 0 where
  pub id : ℕ
  pub username : String
  pub email : String
  pub password_hash : String
  pub full_name : String
  pub is_active : Bool
  pub user_type : UserType
  pub tenant_id : Option ℕ
  pub is_superuser : Bool

pub record UserCreateRequest : Type 0 where
  pub username : String
  pub email : String
  pub password : String
  pub full_name : String
  pub user_type : UserType

pub record UserUpdateRequest : Type 0 where
  pub email : Option String
  pub full_name : Option String
  pub password : Option String
  pub is_active : Option Bool
  pub user_type : Option UserType

pub record Tenant : Type 0 where
  pub id : ℕ
  pub name : String
  pub description : String
  pub is_active : Bool

pub record TenantCreateRequest : Type 0 where
  pub name : String
  pub description : String
  pub admin_username : String
  pub admin_password : String
  pub admin_email : String
  pub admin_full_name : String

pub record TenantUpdateRequest : Type 0 where
  pub name : Option String
  pub description : Option String
  pub is_active : Option Bool

-- An `interface{}` that came from JSON. Lists and objects are only copied; the only number that
-- is read is a port, so numbers are integers.
pub data Value : Type 0 where
  null : Value
  str : String → Value
  bool : Bool → Value
  number : ℤ → Value
  nested : ℕ → Value

-- `map[string]interface{}`; a nil map is the empty one.
abbrev pub ConnectionInfo : Type 0
ConnectionInfo = List (String × Value)

pub record Resource : Type 0 where
  pub id : ℕ
  pub name : String
  pub resource_type : String
  pub connection_info : ConnectionInfo
  pub description : String
  pub created_by : Option ℕ
  pub tenant_id : Option ℕ
  pub is_active : Bool

pub record ResourceCreateRequest : Type 0 where
  pub name : String
  pub resource_type : String
  pub connection_info : ConnectionInfo
  pub description : String

pub record ResourceUpdateRequest : Type 0 where
  pub name : Option String
  pub connection_info : Option ConnectionInfo
  pub description : Option String
  pub is_active : Option Bool

pub record AuditLog : Type 0 where
  pub id : ℕ
  pub user_id : Option ℕ
  pub username : String
  pub tenant_id : Option ℕ
  pub action : String
  pub resource_type : String
  pub resource_id : String
  pub details : String
  pub ip_address : String

-- The unique columns: `uniqueIndex` on a user's name and email, and on a tenant's name.
abbrev pub user_clashes : User → User → Bool
user_clashes u v = str_eq u.username v.username || str_eq u.email v.email

abbrev pub tenant_clashes : Tenant → Tenant → Bool
tenant_clashes a b = str_eq a.name b.name

abbrev pub no_clash : {R : Type 0} → R → R → Bool
no_clash a b = false

abbrev pub user_with_id : ℕ → User → User
user_with_id i u = record u { id = i }

abbrev pub tenant_with_id : ℕ → Tenant → Tenant
tenant_with_id i t = record t { id = i }

abbrev pub resource_with_id : ℕ → Resource → Resource
resource_with_id i r = record r { id = i }

abbrev pub log_with_id : ℕ → AuditLog → AuditLog
log_with_id i l = record l { id = i }

-- *a == *b where neither is nil; a nil on either side is not equal.
abbrev pub same_tenant : Option ℕ → Option ℕ → Bool
same_tenant (Option.some a) (Option.some b) = a == b
same_tenant _ _ = false
