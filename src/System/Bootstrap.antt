-- ===== src/System/Bootstrap.antt =====
-- InitSuperAdmin of system/backend/internal/repository/database.go, which every start runs.
pub mod Root
use addp.Common.{ℕ, String, true, Option, none, some, Result, ok, err, ◌==◌, str_eq, if◌then◌else◌}
use addp.Common.Outcome.{pure, lift, gets, ◌>>=◌, ◌>>◌}
use addp.Db.{DbError, not_found, failed}
use addp.System.Models.{super_admin, is_super_admin, User}
use addp.System.Store.{Error, database, Store, Database, Service, Bcrypt}
use addp.System.UserRepository
use addp.System.Users.{hash_password}

abbrev pub superadmin_user : String → User
superadmin_user hash = record {
  id = 0;
  username = "SuperAdmin";
  email = "superadmin@addp.com";
  password_hash = hash;
  full_name = "系统超级管理员";
  is_active = true;
  user_type = super_admin;
  tenant_id = none;
  is_superuser = true;
}

abbrev pub promoted : User → User
promoted u = record u { user_type = super_admin; is_superuser = true; tenant_id = none }

module _ {U T R L : Type 0} (db : Database U T R L) (bcrypt : Bcrypt) where
  -- the branches on what `First` returned
  unfoldable pub init_from : Result DbError User → ℕ → Service U T R L Unit
  unfolding hash_password UserRepository.create UserRepository.update
  init_from (err not_found) salt = do
    hash ← lift (hash_password bcrypt salt "20251001#SuperAdmin")
    _ ← UserRepository.create db (superadmin_user hash)
    pure tt
  init_from (err (failed n)) salt = lift (err (database (failed n)))
  init_from (ok u) salt =
      if is_super_admin u.user_type then pure tt else UserRepository.update db (promoted u)

  unfoldable pub init_super_admin : ℕ → Service U T R L Unit
  unfolding init_from UserRepository.get_by_username
  init_super_admin salt = do
    found ← gets (UserRepository.get_by_username db "SuperAdmin")
    init_from found salt
