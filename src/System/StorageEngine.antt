-- ===== src/System/StorageEngine.antt =====
-- TestConnection of system/backend/internal/service/storage_engine_service.go. The PostgreSQL and
-- MinIO clients are a parameter.
pub mod Buckets
use addp.Common.{
  ℕ, String, Bool, true, false, not, ◌||◌, ◌&&◌, Option, none, some, List, [], ◌∷◌, Result, ok, err,
  str_eq, if◌then◌else◌, ◌==◌,
}
use addp.Common.Int.{ℤ, pos, negsuc}
use addp.Common.Dict.{lookup}
use addp.System.Models.{Value, str, bool, number, ConnectionInfo, Resource}

-- what the DSN is made of
pub record Target : Type 0 where
  pub host : String
  pub port : ℤ
  pub user : String
  pub password : String
  pub database : String
  pub sslmode : String

pub record Credentials : Type 0 where
  pub endpoint : String
  pub access_key : String
  pub secret_key : String
  pub use_ssl : Bool

pub data TestError : Type 0 where
  unsupported_type missing_fields : TestError
  open_failed ping_failed version_failed : TestError
  client_failed list_failed bucket_not_found : TestError

pub record Clients : Type 0 where
  -- os.Getenv("RESOURCE_LOCALHOST_ALIAS")
  pub localhost_alias : String
  -- strconv.Atoi
  pub atoi : String → Option ℤ
  -- sql.Open, PingContext and the query of the version
  pub opens : Target → Bool
  pub pings : Target → Bool
  pub answers : Target → Bool
  -- minio.New and ListBuckets
  pub accepts : Credentials → Bool
  pub buckets : Credentials → Option (List String)

-- v, _ := connInfo[key].(string)
abbrev pub text_at : String → ConnectionInfo → String
text_at k info = elim (lookup k info) [ some (str s) ↦ s | _ ↦ "" ]

-- useSSL
abbrev pub flag_at : String → ConnectionInfo → Bool
flag_at k info = elim (lookup k info) [ some (bool b) ↦ b | _ ↦ false ]

abbrev pub or_zero : Option ℤ → ℤ
or_zero none = pos 0
or_zero (some n) = n

abbrev pub is_zero : ℤ → Bool
is_zero (pos n) = n == 0
is_zero (negsuc n) = false

unfoldable pub normalize_host : String → String → String
normalize_host alias host =
    if str_eq host "localhost" || str_eq host "127.0.0.1"
    then (if not (str_eq alias "") then alias else "127.0.0.1")
    else host

-- the loop over the buckets
unfoldable pub has_bucket : String → List String → Bool
has_bucket name [] = false
has_bucket name (b ∷ bs) = let rest = has_bucket name bs in if str_eq b name then true else rest

module _ (clients : Clients) where
  unfoldable pub port_of : Option Value → ℤ
  port_of (some (number n)) = n
  port_of (some (str s)) = or_zero (clients.atoi s)
  port_of _ = pos 0

  -- the parameters of the connection, with the defaults of the port and of sslmode
  unfoldable pub target : ConnectionInfo → Target
  unfolding normalize_host port_of
  target info = record {
    host = normalize_host clients.localhost_alias (text_at "host" info);
    port =
        if is_zero (port_of (lookup "port" info)) then pos 5432 else port_of (lookup "port" info);
    user = text_at "user" info;
    password = text_at "password" info;
    database = text_at "database" info;
    sslmode = if str_eq (text_at "sslmode" info) "" then "disable" else text_at "sslmode" info;
  }

  unfoldable pub test_postgresql : ConnectionInfo → Result TestError Unit
  test_postgresql info =
      let t = target info in
      if str_eq t.host "" || str_eq t.user "" || str_eq t.database ""
      then err missing_fields
      else if not (clients.opens t)
      then err open_failed
      else if not (clients.pings t)
      then err ping_failed
      else if not (clients.answers t)
      then err version_failed
      else ok tt

  abbrev pub credentials : ConnectionInfo → Credentials
  credentials info = record {
    endpoint = text_at "endpoint" info;
    access_key = text_at "access_key" info;
    secret_key = text_at "secret_key" info;
    use_ssl = flag_at "use_ssl" info;
  }

  -- the check of the bucket, where one is named
  unfoldable pub check_bucket : String → List String → Result TestError Unit
  unfolding has_bucket
  check_bucket bucket names =
      if not (str_eq bucket "") && not (has_bucket bucket names)
      then err bucket_not_found
      else ok tt

  unfoldable pub test_minio : ConnectionInfo → Result TestError Unit
  unfolding check_bucket
  test_minio info =
      let c = credentials info in
      if str_eq c.endpoint "" || str_eq c.access_key "" || str_eq c.secret_key ""
      then err missing_fields
      else if not (clients.accepts c)
      then err client_failed
      else elim (clients.buckets c) [
        | none ↦ err list_failed
        | some names ↦ check_bucket (text_at "bucket" info) names
      ]

  unfoldable pub test_connection : Resource → Result TestError Unit
  test_connection r =
      if str_eq r.resource_type "postgresql"
      then test_postgresql r.connection_info
      else if str_eq r.resource_type "minio" || str_eq r.resource_type "s3"
      then test_minio r.connection_info
      else err unsupported_type
