-- ===== src/System/LogRepository.antt =====
-- system/backend/internal/repository/log_repository.go
use addp.Common.{ℕ, Bool, true, ◌&&◌, Option, none, some, List, Result, ok, err}
use addp.Common.Int.{ℤ}
use addp.Db.{DbError}
use addp.System.Models.{AuditLog}
use addp.System.Store.{database, Store, Database, Service}
use addp.System.UserRepository.{in_tenant}

-- the clause that is added only for a given user
abbrev pub of_user : Option ℕ → AuditLog → Bool
of_user none l = true
of_user (some u) l = in_tenant u l.user_id

module _ {U T R L : Type 0} (db : Database U T R L) where
  unfoldable pub create : AuditLog → Service U T R L Unit
  create l s = elim (db.logs.create s.logs l) [
    | ok (l', ls) ↦ (ok tt, record s { logs = ls })
    | err e ↦ (err (database e), s)
  ]

  unfoldable pub list : ℤ → ℤ → Option ℕ → Store U T R L → Result DbError (List AuditLog)
  list offset limit user_id s = db.logs.find s.logs (of_user user_id) offset limit

  unfoldable pub list_by_tenant :
      ℕ → ℤ → ℤ → Option ℕ → Store U T R L → Result DbError (List AuditLog)
  list_by_tenant tenant offset limit user_id s =
      db.logs.find s.logs (λ l. in_tenant tenant l.tenant_id && of_user user_id l) offset limit

  unfoldable pub get_by_id : ℕ → Store U T R L → Result DbError AuditLog
  get_by_id id s = db.logs.first s.logs id
