-- ===== src/Meta/Connection.antt =====
-- BuildConnectionString (common/models/resource.go), the choice of a scanner
-- (meta/backend/internal/scanner/factory.go), and the kinds of resources that the scans tell apart.
use addp.Common.{
  String, Bool, false, not, ◌&&◌, ◌||◌, Option, none, some, List, [], ◌∷◌, Result, ok, err, str_eq,
  if◌then◌else◌,
}
use Prim.Native.String.{◌++◌}
use addp.Common.Dict.{lookup, insert}
use addp.System.Models.{Value, str, number, ConnectionInfo}
use addp.Text.{is_empty}
use addp.Text.Decimal.{show_int}
use addp.Text.Contains.{contains}
use addp.Meta.Models.{Resource}

pub data ConnectionError : Type 0 where
  missing_fields marshal_failed : ConnectionError
  unsupported : String → ConnectionError

abbrev pub one_of : String → List String → Bool
one_of s [] = false
one_of s (t ∷ ts) = str_eq s t || one_of s ts

-- What is outside: the environment, the printing of values, and JSON.
pub record Outside : Type 0 where
  pub localhost_alias : String
  pub to_lower : String → String
  -- fmt.Sprintf("%v", v)
  pub show_value : Value → String
  pub marshal : ConnectionInfo → Option String

module _ (out : Outside) where
  unfoldable pub get_string : ConnectionInfo → String → String
  unfolding lookup show_int
  get_string info key = elim (lookup key info) [
    | none ↦ ""
    | some (str s) ↦ s
    | some (number n) ↦ show_int n
    | some other ↦ out.show_value other
  ]

  unfoldable pub normalize_host : String → String
  normalize_host host =
      if (str_eq host "localhost" || str_eq host "127.0.0.1") && not (is_empty out.localhost_alias)
      then out.localhost_alias
      else host

  -- the user, under either of its names
  unfoldable pub user_of : ConnectionInfo → String
  unfolding get_string
  user_of info =
      if is_empty (get_string info "username")
      then get_string info "user"
      else get_string info "username"

  unfoldable pub lacks_fields : ConnectionInfo → Bool
  unfolding get_string normalize_host user_of
  lacks_fields info =
      is_empty (normalize_host (get_string info "host"))
      || is_empty (get_string info "port")
      || is_empty (user_of info)
      || is_empty (get_string info "password")

  unfoldable pub postgresql_string : ConnectionInfo → String
  unfolding get_string normalize_host user_of
  postgresql_string info =
      "host="
      ++ (normalize_host (get_string info "host")
          ++ (" port="
              ++ (get_string info "port"
                  ++ (" user="
                      ++ (user_of info
                          ++ (" password="
                              ++ (get_string info "password"
                                  ++ (" dbname="
                                      ++ (get_string info "database" ++ " sslmode=disable")))))))))

  unfoldable pub mysql_string : ConnectionInfo → String
  unfolding get_string normalize_host user_of
  mysql_string info =
      user_of info
      ++ (":"
          ++ (get_string info "password"
              ++ ("@tcp("
                  ++ (normalize_host (get_string info "host")
                      ++ (":"
                          ++ (get_string info "port"
                              ++ (")/" ++ (get_string info "database" ++ "?parseTime=true"))))))))

  unfoldable pub build_connection_string : Resource → Result ConnectionError String
  unfolding lacks_fields postgresql_string mysql_string
  build_connection_string r =
      if one_of r.resource_type ("postgresql" ∷ "PostgreSQL" ∷ [])
      then (if lacks_fields r.connection_info
          then err missing_fields
          else ok (postgresql_string r.connection_info))
      else if one_of r.resource_type ("mysql" ∷ "MySQL" ∷ [])
      then (if lacks_fields r.connection_info
          then err missing_fields
          else ok (mysql_string r.connection_info))
      else if one_of r.resource_type (
          "s3" ∷ "S3" ∷ "minio" ∷ "Minio" ∷ "oss" ∷ "OSS" ∷ "object_storage" ∷ "object-storage"
          ∷ [])
      then elim (out.marshal r.connection_info) [ none ↦ err marshal_failed | some s ↦ ok s ]
      else err (unsupported r.resource_type)

  unfoldable pub is_object_storage_type : String → Bool
  is_object_storage_type resource_type =
      one_of (out.to_lower resource_type)
        ("s3" ∷ "minio" ∷ "oss" ∷ "object_storage" ∷ "object-storage" ∷ [])

  unfoldable pub is_sensitive_key : String → Bool
  unfolding contains
  is_sensitive_key key =
      contains "password" (out.to_lower key)
      || contains "secret" (out.to_lower key)
      || contains "token" (out.to_lower key)
      || contains "key" (out.to_lower key)

  unfoldable pub sanitize_connection_info : ConnectionInfo → ConnectionInfo
  unfolding is_sensitive_key insert
  sanitize_connection_info [] = []
  sanitize_connection_info ((key, v) ∷ info) =
      let rest = sanitize_connection_info info in
      if is_sensitive_key key then rest else insert key v rest

  -- the scanner that NewScanner makes for a type
  unfoldable pub new_scanner :
      {S : Type 0} → (postgres mysql s3 : String → Option S) → String → String → Option S
  new_scanner postgres mysql s3 db_type connection =
      if one_of (out.to_lower db_type) ("postgresql" ∷ "postgres" ∷ [])
      then postgres connection
      else if str_eq (out.to_lower db_type) "mysql"
      then mysql connection
      else if one_of (out.to_lower db_type)
          ("s3" ∷ "minio" ∷ "oss" ∷ "object_storage" ∷ "object-storage" ∷ [])
      then s3 connection
      else none
