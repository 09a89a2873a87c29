-- ===== src/System/Tenants/Refines.antt =====
-- The writing methods of tenant_service.go as steps of the access control.
use addp.Common.{ℕ, ok, ◌≡◌, ap, arith, inl, inr}
use addp.Common.Outcome.{Exec-cases}
use addp.System.Models.{User, TenantCreateRequest, TenantUpdateRequest}
use addp.System.Store.{Store, Database, IsDatabase, Bcrypt}
use addp.System.Tenants.{create, update, delete}
use addp.System.Tenants.Atomic.{create_err, update_err, delete_err}
use addp.System.Tenants.Inversion.{create_tenant_inv, update_inv, delete_tenant_inv}
use addp.System.Users.Refines.{Step-refl}
use addp.System.Access.{Acts, Step, add_tenant, edit_tenant, remove_tenant}

module _ {U T R L : Type 0} (db : Database U T R L) (bcrypt : Bcrypt) (laws : IsDatabase db)
    (s : Store U T R L) where
  stored : (i : ℕ) (u : User) → db.users.first s.users i ≡ ok u → Acts db s i u
  stored i u found = laws.users.first_ok s.users i u found

  pub create-Step :
      (req : TenantCreateRequest) (current_id salt : ℕ)
      → Step db current_id s (create db bcrypt req current_id salt s).1
  create-Step req current_id salt = elim (Exec-cases (create db bcrypt req current_id salt s)) [
    | inl (e, t, failed) ↦
        rw failed (Step-refl db bcrypt (create_err db bcrypt laws s t e req current_id salt failed))
    | inr (t, s', done) ↦
        let ((actor, found, kind), made) =
          create_tenant_inv db bcrypt laws s s' req current_id salt t done in
        rw done (
          add_tenant actor t made.admin (stored current_id actor found) kind made.tenant_in
            made.admin_in (ground (arith, made.admin_row)) (ground (arith, made.admin_row))
            (ground (arith, made.admin_row)))
  ]

  pub update-Step :
      (id : ℕ) (req : TenantUpdateRequest) (current_id : ℕ)
      → Step db current_id s (update db bcrypt id req current_id s).1
  update-Step id req current_id = elim (Exec-cases (update db bcrypt id req current_id s)) [
    | inl (e, t, failed) ↦
        rw failed (Step-refl db bcrypt (update_err db bcrypt laws s t e id req current_id failed))
    | inr (t, s', done) ↦
        let ((actor, found, kind), (old, row, saved), rest) =
          update_inv db bcrypt laws s s' id req current_id t done in
        rw done (
          edit_tenant actor old t (stored current_id actor found) kind saved
            (ap (λ (x : Store U T R L). x.users) rest))
  ]

  pub delete-Step : (id current_id : ℕ) → Step db current_id s (delete db bcrypt id current_id s).1
  delete-Step id current_id = elim (Exec-cases (delete db bcrypt id current_id s)) [
    | inl (e, t, failed) ↦
        rw failed (Step-refl db bcrypt (delete_err db bcrypt laws s t e id current_id failed))
    | inr (_, s', done) ↦
        let ((actor, found, kind), (old, own, gone)) =
          delete_tenant_inv db bcrypt laws s s' id current_id done in
        rw done (
          remove_tenant actor old (stored current_id actor found) kind gone.tenant_out
            gone.members_out)
  ]
