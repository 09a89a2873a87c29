-- ===== src/System/Access.antt =====
-- The abstract access control of the System service: what a request may do to users, tenants,
-- resources and the audit log for its caller, whatever request it was.
pub mod Invariant
pub mod Root
pub mod Isolation
use addp.Common.{ℕ, String, Bool, true, false, Option, none, some, ◌≡◌, ◌≢◌, ◌⊎◌}
use addp.Db.{Table, drop_if}
use addp.Db.Effects.{IsInserted, IsSaved, IsDeleted}
use addp.System.Models.{
  super_admin, tenant_admin, user, empty, User, Tenant, Resource, AuditLog, same_tenant,
}
use addp.System.Store.{Store, Database}
use addp.System.UserRepository.{in_tenant}

module _ {U T R L : Type 0} (db : Database U T R L) where
  abbrev pub user_at : Store U T R L → ℕ → Option User
  user_at s i = db.users.at s.users i

  abbrev pub tenant_at : Store U T R L → ℕ → Option Tenant
  tenant_at s i = db.tenants.at s.tenants i

  -- The caller `who` is stored, as `actor`.
  abbrev pub Acts : Store U T R L → ℕ → User → Type 0
  Acts s who actor = user_at s who ≡ some actor

  -- A new account is a plain user: one of no tenant that registers itself, without a caller, or
  -- one of the tenant of the administrator who made it.
  pub data MayAdd (who : ℕ) (s : Store U T R L) (u : User) : Type 0 where
    self_registered :
        who ≡ 0 → u.user_type ≡ user → u.is_superuser ≡ false → u.tenant_id ≡ none → MayAdd who s u
    by_admin :
        (admin : User)
        → Acts s who admin
        → admin.user_type ≡ tenant_admin
        → u.user_type ≡ user
        → u.is_superuser ≡ false
        → u.tenant_id ≡ admin.tenant_id
        → MayAdd who s u

  -- What an update may make of a stored user.
  pub record MayEdit (who : ℕ) (s : Store U T R L) (actor old u : User) : Type 0 where
    pub acts : Acts s who actor
    pub kept_username : u.username ≡ old.username
    pub kept_tenant : u.tenant_id ≡ old.tenant_id
    pub type_change :
        ((u.user_type ≡ old.user_type) × (u.is_superuser ≡ old.is_superuser))
        ⊎ ((actor.user_type ≡ tenant_admin)
            × (same_tenant old.tenant_id actor.tenant_id ≡ true)
            × ((u.user_type ≡ user) ⊎ (u.user_type ≡ empty))
            × (u.is_superuser ≡ false))
    pub entitled :
        (actor.user_type ≡ super_admin)
        ⊎ ((actor.user_type ≡ tenant_admin) × (same_tenant old.tenant_id actor.tenant_id ≡ true))
        ⊎ (who ≡ old.id)
    -- An administrator of a tenant is edited by a super administrator or by himself only.
    pub peers : (actor.user_type ≢ tenant_admin) ⊎ (old.user_type ≢ tenant_admin) ⊎ (who ≡ old.id)
    pub activation :
        (u.is_active ≡ old.is_active)
        ⊎ (actor.user_type ≡ super_admin)
        ⊎ (actor.user_type ≡ tenant_admin)

  -- Who may delete whom.
  pub record MayRemove (who : ℕ) (s : Store U T R L) (actor old : User) : Type 0 where
    pub acts : Acts s who actor
    pub not_superadmin : old.username ≢ "SuperAdmin"
    pub entitled :
        (actor.user_type ≡ super_admin)
        ⊎ ((actor.user_type ≡ tenant_admin)
            × (same_tenant old.tenant_id actor.tenant_id ≡ true)
            × (old.user_type ≢ tenant_admin))

  -- what a request of the caller `who` may do
  pub data Step (who : ℕ) (s s' : Store U T R L) : Type 0 where
    idle : s'.users ≡ s.users → s'.tenants ≡ s.tenants → Step who s s'
    add_user :
        (u : User)
        → IsInserted db.users (λ v. v.id) s.users u s'.users
        → MayAdd who s u
        → s'.tenants ≡ s.tenants
        → Step who s s'
    edit_user :
        (actor old u : User)
        → IsSaved db.users (λ v. v.id) s.users old u s'.users
        → MayEdit who s actor old u
        → s'.tenants ≡ s.tenants
        → Step who s s'
    remove_user :
        (actor old : User)
        → IsDeleted db.users (λ v. v.id) s.users old s'.users
        → MayRemove who s actor old
        → s'.tenants ≡ s.tenants
        → Step who s s'
    add_tenant :
        (actor : User) (t : Tenant) (admin : User)
        → Acts s who actor
        → actor.user_type ≡ super_admin
        → IsInserted db.tenants (λ x. x.id) s.tenants t s'.tenants
        → IsInserted db.users (λ v. v.id) s.users admin s'.users
        → admin.user_type ≡ tenant_admin
        → admin.tenant_id ≡ some t.id
        → admin.is_superuser ≡ false
        → Step who s s'
    edit_tenant :
        (actor : User) (old t : Tenant)
        → Acts s who actor
        → actor.user_type ≡ super_admin
        → IsSaved db.tenants (λ x. x.id) s.tenants old t s'.tenants
        → s'.users ≡ s.users
        → Step who s s'
    remove_tenant :
        (actor : User) (old : Tenant)
        → Acts s who actor
        → actor.user_type ≡ super_admin
        → IsDeleted db.tenants (λ x. x.id) s.tenants old s'.tenants
        → ((j : ℕ) → user_at s' j ≡ drop_if (λ u. in_tenant old.id u.tenant_id) (user_at s j))
        → Step who s s'

  -- Who manages a resource: a super administrator, and an administrator of its tenant.
  abbrev pub Manages : User → Resource → Type 0
  Manages actor r =
      (actor.user_type ≡ super_admin)
      ⊎ ((actor.user_type ≡ tenant_admin) × (same_tenant actor.tenant_id r.tenant_id ≡ true))

  -- What a request of the caller `who` may do to the row of resources under a key.
  pub data ResourceStep (who : ℕ) (s s' : Store U T R L) (j : ℕ) : Type 0 where
    kept : db.resources.at s'.resources j ≡ db.resources.at s.resources j → ResourceStep who s s' j
    made :
        (actor : User) (r : Resource)
        → Acts s who actor
        → (actor.user_type ≡ super_admin) ⊎ (actor.user_type ≡ tenant_admin)
        → db.resources.at s.resources j ≡ none
        → db.resources.at s'.resources j ≡ some r
        → r.tenant_id ≡ actor.tenant_id
        → r.created_by ≡ some who
        → ResourceStep who s s' j
    changed :
        (actor : User) (old r : Resource)
        → Acts s who actor
        → Manages actor old
        → db.resources.at s.resources j ≡ some old
        → db.resources.at s'.resources j ≡ some r
        → r.tenant_id ≡ old.tenant_id
        → r.created_by ≡ old.created_by
        → r.resource_type ≡ old.resource_type
        → ResourceStep who s s' j
    removed :
        (actor : User) (old : Resource)
        → Acts s who actor
        → Manages actor old
        → db.resources.at s.resources j ≡ some old
        → db.resources.at s'.resources j ≡ none
        → ResourceStep who s s' j

  -- What a request of the caller `who` may do at all; the audit log only grows.
  pub record IsAllowed (who : ℕ) (s s' : Store U T R L) : Type 0 where
    pub accounts : Step who s s'
    pub resources : (j : ℕ) → ResourceStep who s s' j
    pub logs : (j : ℕ) (l : AuditLog) → db.logs.at s.logs j ≡ some l → db.logs.at s'.logs j ≡ some l

  -- any number of steps
  pub data Steps (s : Store U T R L) : Store U T R L → Type 0 where
    here : Steps s s
    next : {t u : Store U T R L} → (who : ℕ) → Steps s t → Step who t u → Steps s u
