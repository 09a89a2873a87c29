-- ===== src/System/Tenants.antt =====
-- system/backend/internal/service/tenant_service.go
pub mod Atomic
pub mod Inversion
pub mod Refines
use addp.Common.{
  ℕ, String, true, false, not, ◌&&◌, Option, none, some, List, Result, ok, err, ◌==◌, if◌then◌else◌,
  or_old,
}
use addp.Common.Int.{ℤ}
use addp.Common.Outcome.{pure, lift, gets, or_fail, ◌>>=◌, ◌>>◌}
use addp.Db.{DbError}
use addp.System.Models.{
  tenant_admin, is_super_admin, User, Tenant, TenantCreateRequest, TenantUpdateRequest,
}
use addp.System.Store.{
  Error, current_user_missing, only_superadmin, tenant_name_taken, admin_username_taken,
  tenant_missing, database, Database, Service, Bcrypt, require, refuse_found,
}
use addp.System.UserRepository
use addp.System.TenantRepository
use addp.System.Users.{hash_password, page_offset}

-- the tenant and its administrator; the database assigns the keys
abbrev pub new_tenant : TenantCreateRequest → Tenant
new_tenant req = record { id = 0; name = req.name; description = req.description; is_active = true }

abbrev pub new_admin : TenantCreateRequest → ℕ → String → User
new_admin req tenant hash = record {
  id = 0;
  username = req.admin_username;
  email = req.admin_email;
  password_hash = hash;
  full_name = req.admin_full_name;
  is_active = true;
  user_type = tenant_admin;
  tenant_id = some tenant;
  is_superuser = false;
}

-- `err == nil && existingTenant.ID != id`
abbrev pub taken_by_other : Result DbError Tenant → ℕ → Result Error Unit
taken_by_other (ok t) id = if not (t.id == id) then err tenant_name_taken else ok tt
taken_by_other (err e) id = ok tt

abbrev pub updated_tenant : TenantUpdateRequest → Tenant → Tenant
updated_tenant req t = record t {
  name = or_old req.name t.name;
  description = or_old req.description t.description;
  is_active = or_old req.is_active t.is_active;
}

module _ {U T R L : Type 0} (db : Database U T R L) (bcrypt : Bcrypt) where
  -- the check that every method begins with
  unfoldable pub ensure_superadmin : ℕ → Service U T R L Unit
  unfolding UserRepository.get_by_id
  ensure_superadmin current_user_id = do
    asking ← gets (UserRepository.get_by_id db current_user_id)
    current ← require asking current_user_missing
    lift (if is_super_admin current.user_type then ok tt else err only_superadmin)

  -- the closure that Create hands to Transaction
  unfoldable pub create_body : TenantCreateRequest → ℕ → Service U T R L Tenant
  unfolding TenantRepository.create hash_password UserRepository.create
  create_body req salt = do
    tenant ← TenantRepository.create db (new_tenant req)
    password_hash ← lift (hash_password bcrypt salt req.admin_password)
    _ ← UserRepository.create db (new_admin req tenant.id password_hash)
    pure tenant

  unfoldable pub create : TenantCreateRequest → ℕ → ℕ → Service U T R L Tenant
  unfolding ensure_superadmin TenantRepository.get_by_name UserRepository.get_by_username
  create req current_user_id salt = do
    ensure_superadmin current_user_id
    existing ← gets (TenantRepository.get_by_name db req.name)
    refuse_found existing tenant_name_taken
    admin ← gets (UserRepository.get_by_username db req.admin_username)
    refuse_found admin admin_username_taken
    db.transaction Tenant (create_body req salt)

  unfoldable pub get_by_id : ℕ → ℕ → Service U T R L Tenant
  unfolding ensure_superadmin TenantRepository.get_by_id
  get_by_id id current_user_id = do
    ensure_superadmin current_user_id
    found ← gets (TenantRepository.get_by_id db id)
    lift (or_fail found database)

  unfoldable pub list : ℤ → ℤ → ℕ → Service U T R L (List Tenant)
  unfolding ensure_superadmin TenantRepository.list
  list page page_size current_user_id = do
    ensure_superadmin current_user_id
    found ← gets (TenantRepository.list db (page_offset page page_size) page_size)
    lift (or_fail found database)

  -- the check of a new name in Update, which is made only if one is given
  unfoldable pub check_name : Option String → ℕ → Service U T R L Unit
  unfolding TenantRepository.get_by_name
  check_name none id = pure tt
  check_name (some name) id = do
    existing ← gets (TenantRepository.get_by_name db name)
    lift (taken_by_other existing id)

  unfoldable pub update : ℕ → TenantUpdateRequest → ℕ → Service U T R L Tenant
  unfolding ensure_superadmin check_name TenantRepository.get_by_id TenantRepository.update
  update id req current_user_id = do
    ensure_superadmin current_user_id
    found ← gets (TenantRepository.get_by_id db id)
    tenant ← require found tenant_missing
    check_name req.name id
    TenantRepository.update db (updated_tenant req tenant)
    pure (updated_tenant req tenant)

  -- the closure that Delete hands to Transaction
  unfoldable pub delete_body : ℕ → Service U T R L Unit
  unfolding TenantRepository.delete_members TenantRepository.delete
  delete_body id = do TenantRepository.delete_members db id; TenantRepository.delete db id

  unfoldable pub delete : ℕ → ℕ → Service U T R L Unit
  unfolding ensure_superadmin TenantRepository.get_by_id
  delete id current_user_id = do
    ensure_superadmin current_user_id
    found ← gets (TenantRepository.get_by_id db id)
    _ ← require found tenant_missing
    db.transaction Unit (delete_body id)
