-- ===== src/System/ResourceRepository.antt =====
-- system/backend/internal/repository/resource_repository.go
use addp.Common.{ℕ, String, Bool, true, ◌&&◌, List, Result, ok, err, str_eq, if◌then◌else◌}
use addp.Common.Int.{ℤ}
use addp.Db.{DbError}
use addp.System.Models.{Resource}
use addp.System.Store.{database, Store, Database, Service}
use addp.System.UserRepository.{in_tenant}

-- the clause that is added only for a non-empty type
abbrev pub of_type : String → Resource → Bool
of_type wanted r = if str_eq wanted "" then true else str_eq r.resource_type wanted

module _ {U T R L : Type 0} (db : Database U T R L) where
  unfoldable pub get_by_id : ℕ → Store U T R L → Result DbError Resource
  get_by_id id s = db.resources.first s.resources id

  unfoldable pub list : ℤ → ℤ → String → Store U T R L → Result DbError (List Resource)
  list offset limit resource_type s =
      db.resources.find s.resources (of_type resource_type) offset limit

  unfoldable pub list_by_tenant :
      ℕ → ℤ → ℤ → String → Store U T R L → Result DbError (List Resource)
  list_by_tenant tenant offset limit resource_type s =
      db.resources.find s.resources (λ r. in_tenant tenant r.tenant_id && of_type resource_type r)
        offset limit

  unfoldable pub create : Resource → Service U T R L Resource
  create r s = elim (db.resources.create s.resources r) [
    | ok (r', rs) ↦ (ok r', record s { resources = rs })
    | err e ↦ (err (database e), s)
  ]

  unfoldable pub update : Resource → Service U T R L Unit
  update r s = elim (db.resources.save s.resources r) [
    | ok rs ↦ (ok tt, record s { resources = rs })
    | err e ↦ (err (database e), s)
  ]

  unfoldable pub delete : ℕ → Service U T R L Unit
  delete id s = elim (db.resources.delete s.resources id) [
    | ok rs ↦ (ok tt, record s { resources = rs })
    | err e ↦ (err (database e), s)
  ]
