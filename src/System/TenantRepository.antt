-- ===== src/System/TenantRepository.antt =====
-- system/backend/internal/repository/tenant_repository.go, and the statements that
-- tenant_service.go issues on `tx`.
use addp.Common.{ℕ, String, List, Result, ok, err, true, str_eq}
use addp.Common.Int.{ℤ}
use addp.Db.{DbError}
use addp.System.Models.{Tenant}
use addp.System.Store.{database, Store, Database, Service}
use addp.System.UserRepository.{in_tenant}

module _ {U T R L : Type 0} (db : Database U T R L) where
  unfoldable pub get_by_id : ℕ → Store U T R L → Result DbError Tenant
  get_by_id id s = db.tenants.first s.tenants id

  unfoldable pub get_by_name : String → Store U T R L → Result DbError Tenant
  get_by_name name s = db.tenants.first_where s.tenants (λ t. str_eq t.name name)

  -- Order("created_at DESC"): the order is the database's
  unfoldable pub list : ℤ → ℤ → Store U T R L → Result DbError (List Tenant)
  list offset limit s = db.tenants.find s.tenants (λ _. true) offset limit

  -- Create, and tx.Create(tenant)
  unfoldable pub create : Tenant → Service U T R L Tenant
  create t s = elim (db.tenants.create s.tenants t) [
    | ok (t', ts) ↦ (ok t', record s { tenants = ts })
    | err e ↦ (err (database e), s)
  ]

  unfoldable pub update : Tenant → Service U T R L Unit
  update t s = elim (db.tenants.save s.tenants t) [
    | ok ts ↦ (ok tt, record s { tenants = ts })
    | err e ↦ (err (database e), s)
  ]

  -- Delete, and tx.Delete(&models.Tenant{}, id)
  unfoldable pub delete : ℕ → Service U T R L Unit
  delete id s = elim (db.tenants.delete s.tenants id) [
    | ok ts ↦ (ok tt, record s { tenants = ts })
    | err e ↦ (err (database e), s)
  ]

  -- tx.Where("tenant_id = ?", id).Delete(&models.User{})
  unfoldable pub delete_members : ℕ → Service U T R L Unit
  delete_members id s = elim (db.users.delete_where s.users (λ u. in_tenant id u.tenant_id)) [
    | ok us ↦ (ok tt, record s { users = us })
    | err e ↦ (err (database e), s)
  ]
