-- ===== src/System/Tenants/Atomic.antt =====
-- The methods of tenant_service.go where they return an error, inside the transaction or not.
use addp.Common.{ℕ, err, ◌≡◌, arith, inl, inr}
use addp.Common.Outcome.{Exec-cases}
use addp.System.Models.{Tenant, TenantCreateRequest, TenantUpdateRequest}
use addp.System.Store.{Error, Store, Database, IsDatabase, Bcrypt}
use addp.System.Tenants.{create, create_body, update, delete, delete_body}

module _ {U T R L : Type 0} (db : Database U T R L) (bcrypt : Bcrypt) (laws : IsDatabase db)
    (s s' : Store U T R L) (e : Error) where
  pub create_err :
      (req : TenantCreateRequest) (current_id salt : ℕ)
      → create db bcrypt req current_id salt s ≡ (err e, s')
      → s' ≡ s
  unfolding create
  create_err req current_id salt h =
      elim (Exec-cases (db.transaction Tenant (create_body db bcrypt req salt) s)) [
        | inl (d, t, failed) ↦
            ground (arith, laws.rollback Tenant (create_body db bcrypt req salt) s t d failed)
        | inr (a, t, done) ↦ ground arith
      ]

  pub update_err :
      (id : ℕ) (req : TenantUpdateRequest) (current_id : ℕ)
      → update db bcrypt id req current_id s ≡ (err e, s')
      → s' ≡ s
  unfolding update
  update_err id req current_id h = ground arith

  pub delete_err : (id current_id : ℕ) → delete db bcrypt id current_id s ≡ (err e, s') → s' ≡ s
  unfolding delete
  delete_err id current_id h =
      elim (Exec-cases (db.transaction Unit (delete_body db bcrypt id) s)) [
        | inl (d, t, failed) ↦
            ground (arith, laws.rollback Unit (delete_body db bcrypt id) s t d failed)
        | inr (a, t, done) ↦ ground arith
      ]
