-- ===== src/System/Logs.antt =====
-- system/backend/internal/service/log_service.go and middleware/logger.go
pub mod Visible
use addp.Common.{
  ℕ, String, Option, none, some, List, [], Result, ok, err, Bool, true, false, str_eq,
  if◌then◌else◌,
}
use Prim.Native.String.{◌++◌}
use addp.Common.Int.{ℤ}
use addp.Common.Outcome.{pure, lift, gets, or_fail, ◌>>=◌}
use addp.Db.{DbError}
use addp.System.Models.{is_super_admin, User, AuditLog}
use addp.System.Store.{Error, current_user_missing, database, Store, Database, Service, require}
use addp.System.UserRepository
use addp.System.LogRepository
use addp.System.Users.{page_offset}

-- What the logger reads of a request: the context's `user_id` and `username` stand there once the
-- authentication has set them.
pub record Logged : Type 0 where
  pub method : String
  pub path : String
  pub client_ip : String
  pub user_id : Option ℕ
  pub username : Option String

abbrev pub or_empty : Option String → String
or_empty none = ""
or_empty (some s) = s

-- the tenant of a user that could be read
abbrev pub tenant_of : Result DbError User → Option ℕ
tenant_of (ok u) = u.tenant_id
tenant_of (err e) = none

module _ {U T R L : Type 0} (db : Database U T R L) where
  unfoldable pub create : AuditLog → Service U T R L Unit
  unfolding LogRepository.create
  create l = LogRepository.create db l

  -- the rows that List reads, for the user who asks
  unfoldable pub logs_for : User → ℤ → ℤ → Option ℕ → Service U T R L (List AuditLog)
  unfolding LogRepository.list LogRepository.list_by_tenant
  logs_for current offset page_size user_id =
      if is_super_admin current.user_type
      then (do
        found ← gets (LogRepository.list db offset page_size user_id)
        lift (or_fail found database))
      else elim current.tenant_id [
        | none ↦ pure []
        | some t ↦ do
          found ← gets (LogRepository.list_by_tenant db t offset page_size user_id)
          lift (or_fail found database)
      ]

  unfoldable pub list : ℤ → ℤ → Option ℕ → ℕ → Service U T R L (List AuditLog)
  unfolding UserRepository.get_by_id logs_for
  list page page_size user_id current_user_id = do
    asking ← gets (UserRepository.get_by_id db current_user_id)
    current ← require asking current_user_missing
    logs_for current (page_offset page page_size) page_size user_id

  unfoldable pub get_by_id : ℕ → Service U T R L AuditLog
  unfolding LogRepository.get_by_id
  get_by_id id = do found ← gets (LogRepository.get_by_id db id); lift (or_fail found database)

  -- the entry that the logger writes, with the tenant as the database has it after the request
  unfoldable pub log_entry : Logged → Store U T R L → AuditLog
  unfolding UserRepository.get_by_id
  log_entry c s = record {
    id = 0;
    user_id = c.user_id;
    username = elim c.user_id [ none ↦ "" | some _ ↦ or_empty c.username ];
    tenant_id = elim c.user_id [
      | none ↦ none
      | some uid ↦ tenant_of (UserRepository.get_by_id db uid s)
    ];
    action = c.method ++ " " ++ c.path;
    resource_type = "";
    resource_id = "";
    details = "";
    ip_address = c.client_ip;
  }

  -- LoggerMiddleware after c.Next(): all but GET requests are logged, and a failure is ignored
  unfoldable pub log_request : Logged → Store U T R L → Store U T R L
  unfolding create log_entry
  log_request c s = if str_eq c.method "GET" then s else (create (log_entry c s) s).1
