-- ===== src/System/UserRepository.antt =====
-- system/backend/internal/repository/user_repository.go
pub mod Laws
use addp.Common.{
  ℕ, String, Option, none, some, ◌==◌, List, Result, ok, err, Bool, true, false, str_eq,
}
use addp.Common.Int.{ℤ}
use addp.Db.{DbError}
use addp.System.Models.{User}
use addp.System.Store.{Error, database, Store, Database, Service}

-- tenant_id = ?, which holds of no NULL
abbrev pub in_tenant : ℕ → Option ℕ → Bool
in_tenant t none = false
in_tenant t (some i) = i == t

module _ {U T R L : Type 0} (db : Database U T R L) where
  unfoldable pub get_by_id : ℕ → Store U T R L → Result DbError User
  get_by_id id s = db.users.first s.users id

  unfoldable pub get_by_username : String → Store U T R L → Result DbError User
  get_by_username username s = db.users.first_where s.users (λ u. str_eq u.username username)

  unfoldable pub list : ℤ → ℤ → Store U T R L → Result DbError (List User)
  list offset limit s = db.users.find s.users (λ _. true) offset limit

  unfoldable pub list_by_tenant : ℕ → ℤ → ℤ → Store U T R L → Result DbError (List User)
  list_by_tenant tenant offset limit s =
      db.users.find s.users (λ u. in_tenant tenant u.tenant_id) offset limit

  unfoldable pub create : User → Service U T R L User
  create u s = elim (db.users.create s.users u) [
    | ok (u', us) ↦ (ok u', record s { users = us })
    | err e ↦ (err (database e), s)
  ]

  unfoldable pub update : User → Service U T R L Unit
  update u s = elim (db.users.save s.users u) [
    | ok us ↦ (ok tt, record s { users = us })
    | err e ↦ (err (database e), s)
  ]

  unfoldable pub delete : ℕ → Service U T R L Unit
  delete id s = elim (db.users.delete s.users id) [
    | ok us ↦ (ok tt, record s { users = us })
    | err e ↦ (err (database e), s)
  ]
