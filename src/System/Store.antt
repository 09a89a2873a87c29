-- ===== src/System/Store.antt =====
-- What the System service runs on: its four tables, GORM's transactions, and bcrypt. The
-- implementation is not part of this repository, so each is a parameter with its documented laws.
use addp.Common.{ℕ, String, Bool, true, Option, none, some, Result, ok, err, Exec, ◌≡◌}
use addp.Common.Outcome.{lift, or_fail}
use addp.Cipher.{CipherError}
use addp.Db.{Table, IsTable, DbError}
use addp.System.Models.{
  User, Tenant, Resource, AuditLog, user_clashes, tenant_clashes, no_clash, user_with_id,
  tenant_with_id, resource_with_id, log_with_id,
}

-- The errors of the service layer, one for each message; `panic` is a nil dereference.
pub data Error : Type 0 where
  username_taken creator_missing superadmin_cannot_create only_plain_users no_create_permission :
      Error
  current_user_missing no_view_permission other_tenant_update other_tenant_admin only_self : Error
  no_state_permission user_missing superadmin_undeletable other_tenant_delete : Error
  tenant_admin_undeletable no_delete_permission bad_credentials user_disabled : Error
  only_superadmin tenant_name_taken admin_username_taken tenant_missing : Error
  resource_not_found resource_forbidden no_tenant : Error
  cipher : CipherError → Error
  hash_failed panic : Error
  database : DbError → Error

-- The state of the database: users, tenants, resources and audit logs.
pub record Store (U T R L : Type 0) : Type 0 where
  pub users : U
  pub tenants : T
  pub resources : R
  pub logs : L

pub record Database (U T R L : Type 0) : Type 1 where
  pub users : Table U User
  pub tenants : Table T Tenant
  pub resources : Table R Resource
  pub logs : Table L AuditLog
  -- db.Transaction(func(tx) error { … }), with the value that the closure leaves behind
  pub transaction : (A : Type 0) → Exec (Store U T R L) Error A → Exec (Store U T R L) Error A

pub record IsDatabase {U T R L : Type 0} (db : Database U T R L) : Type 1 where
  pub users : IsTable db.users (λ u. u.id) user_with_id user_clashes
  pub tenants : IsTable db.tenants (λ t. t.id) tenant_with_id tenant_clashes
  pub resources : IsTable db.resources (λ r. r.id) resource_with_id no_clash
  pub logs : IsTable db.logs (λ l. l.id) log_with_id no_clash
  -- an error from the closure is returned
  pub transaction_err :
      (A : Type 0) (body : Exec (Store U T R L) Error A) (s s' : Store U T R L) (e : Error)
      → body s ≡ (err e, s')
      → db.transaction A body s ≡ (err e, s)
  -- a transaction that returns no error has committed what its closure did
  pub transaction_ok :
      (A : Type 0) (body : Exec (Store U T R L) Error A) (s s' : Store U T R L) (a : A)
      → db.transaction A body s ≡ (ok a, s')
      → body s ≡ (ok a, s')
  -- one that returns an error is rolled back
  pub rollback :
      (A : Type 0) (body : Exec (Store U T R L) Error A) (s s' : Store U T R L) (e : Error)
      → db.transaction A body s ≡ (err e, s')
      → s' ≡ s

-- bcrypt: GenerateFromPassword draws a salt, and CompareHashAndPassword tests a password.
pub record Bcrypt : Type 0 where
  pub generate : ℕ → String → Result (Unit {0}) String
  pub compare : String → String → Bool

pub record IsBcrypt (b : Bcrypt) : Type 0 where
  pub compare-generate :
      (salt : ℕ) (password hash : String)
      → b.generate salt password ≡ ok hash
      → b.compare hash password ≡ true

-- What a Go method of the services computes.
abbrev pub Service : Type 0 → Type 0 → Type 0 → Type 0 → Type 0 → Type 0
Service U T R L A = Exec (Store U T R L) Error A

-- `if err != nil { return nil, e }`, the reader's error replaced
abbrev pub require : {S A : Type 0} → Result DbError A → Error → Exec S Error A
require r e = lift (or_fail r (λ _. e))

-- `if err == nil { return nil, e }`
abbrev pub refuse_found : {S A : Type 0} → Result DbError A → Error → Exec S Error (Unit {0})
refuse_found (ok a) e s = (err e, s)
refuse_found (err d) e s = (ok tt, s)

-- *p, which panics at nil
abbrev pub deref : {S A : Type 0} → Option A → Exec S Error A
deref none s = (err panic, s)
deref (some a) s = (ok a, s)
