-- ===== src/System/Users/Refines.antt =====
-- The writing methods of user_service.go as steps of the access control.
use addp.Common.{ℕ, true, some, ok, ◌≡◌, ◌≢◌, ◌⊎◌, refl, ap, ◌∙◌, arith, inl, inr, ==_iff}
use addp.Common.Outcome.{Exec-cases}
use addp.System.Models.{
  super_admin, tenant_admin, User, UserCreateRequest, UserUpdateRequest, same_tenant,
}
use addp.System.Store.{Store, Database, IsDatabase, Bcrypt}
use addp.System.UserRepository.Laws
use addp.System.Users.{
  create, register, update, delete, new_user, registered_user, validate_update_permission,
  validate_delete_permission,
}
use addp.System.Users.Atomic.{create_err, register_err, update_err, delete_err}
use addp.System.Users.Inversion.{create_inv, register_inv, update_inv, delete_inv}
use addp.System.Access.{
  Acts, self_registered, by_admin, Step, idle, add_user, edit_user, remove_user,
}

-- The three ways to pass validateUpdatePermission, and the two to pass the checks of Delete.
pub update_entitled :
    (current target : User) (req : UserUpdateRequest)
    → validate_update_permission current target req ≡ ok tt
    → (current.user_type ≡ super_admin)
      ⊎ ((current.user_type ≡ tenant_admin)
          × (same_tenant target.tenant_id current.tenant_id ≡ true))
      ⊎ (current.id ≡ target.id)
unfolding validate_update_permission
update_entitled current target req h = ground arith

-- An administrator of a tenant passes only for members of the tenant.
update_in_tenant :
    (current target : User) (req : UserUpdateRequest)
    → validate_update_permission current target req ≡ ok tt
    → current.user_type ≡ tenant_admin
    → same_tenant target.tenant_id current.tenant_id ≡ true
unfolding validate_update_permission
update_in_tenant current target req h k = ground arith

update_peers :
    (current target : User) (req : UserUpdateRequest)
    → validate_update_permission current target req ≡ ok tt
    → (current.user_type ≢ tenant_admin)
      ⊎ (target.user_type ≢ tenant_admin)
      ⊎ (current.id ≡ target.id)
unfolding validate_update_permission
update_peers current target req h = ground (arith, ==_iff target.id current.id)

pub delete_entitled :
    (current target : User)
    → validate_delete_permission current target ≡ ok tt
    → (current.user_type ≡ super_admin)
      ⊎ ((current.user_type ≡ tenant_admin)
          × (same_tenant target.tenant_id current.tenant_id ≡ true)
          × (target.user_type ≢ tenant_admin))
unfolding validate_delete_permission
delete_entitled current target h = ground arith

module _ {U T R L : Type 0} (db : Database U T R L) (bcrypt : Bcrypt) where
  pub Step-refl : {who : ℕ} {s s' : Store U T R L} → s' ≡ s → Step db who s s'
  Step-refl same =
      idle (ap (λ (x : Store U T R L). x.users) same) (ap (λ (x : Store U T R L). x.tenants) same)

module _ {U T R L : Type 0} (db : Database U T R L) (bcrypt : Bcrypt) (laws : IsDatabase db)
    (s : Store U T R L) where
  stored : (i : ℕ) (u : User) → db.users.first s.users i ≡ ok u → Acts db s i u
  stored i u found = laws.users.first_ok s.users i u found

  under_own_key :
      (i : ℕ) (u : User) → db.users.first s.users i ≡ ok u → db.users.at s.users u.id ≡ some u
  under_own_key i u found =
      let here = laws.users.first_ok s.users i u found in
      ap (db.users.at s.users) (laws.users.at_key s.users i u here) ∙ here

  pub create-Step :
      (req : UserCreateRequest) (creator_id salt : ℕ)
      → Step db creator_id s (create db bcrypt req creator_id salt s).1
  create-Step req creator_id salt = elim (Exec-cases (create db bcrypt req creator_id salt s)) [
    | inl (e, t, failed) ↦
        rw failed (Step-refl db bcrypt (create_err db bcrypt s t e req creator_id salt failed))
    | inr (u, t, done) ↦
        let (creator, hash, found, kind, plain, _, made) =
          create_inv db bcrypt s t req creator_id salt u done in
        let (inserted, row, rest) =
          Laws.create_inv db laws (new_user req creator hash) u s t made in
        rw done (
          add_user u inserted
            (by_admin creator (stored creator_id creator found) kind (ground arith) (ground arith)
              (ground arith))
            (ap (λ (x : Store U T R L). x.tenants) rest))
  ]

  pub register-Step :
      (req : UserCreateRequest) (salt : ℕ) → Step db 0 s (register db bcrypt req salt s).1
  register-Step req salt = elim (Exec-cases (register db bcrypt req salt s)) [
    | inl (e, t, failed) ↦
        rw failed (Step-refl db bcrypt (register_err db bcrypt s t e req salt failed))
    | inr (u, t, done) ↦
        let (hash, _, made) = register_inv db bcrypt s t req salt u done in
        let (inserted, row, rest) = Laws.create_inv db laws (registered_user req hash) u s t made in
        rw done (
          add_user u inserted (self_registered refl (ground arith) (ground arith) (ground arith))
            (ap (λ (x : Store U T R L). x.tenants) rest))
  ]

  pub update-Step :
      (id : ℕ) (req : UserUpdateRequest) (current_id salt : ℕ)
      → Step db current_id s (update db bcrypt id req current_id salt s).1
  update-Step id req current_id salt =
      elim (Exec-cases (update db bcrypt id req current_id salt s)) [
        | inl (e, t, failed) ↦
            rw failed
              (Step-refl db bcrypt (update_err db bcrypt s t e id req current_id salt failed))
        | inr (u, t, done) ↦
            let (old, current, found, asking, permitted, kept, kind, saved) =
              update_inv db bcrypt s t id req current_id salt u done in
            let (row, rest) =
              Laws.update_inv db laws old u s t kept.0 (under_own_key id old found) saved in
            let entitled = update_entitled current old req permitted in
            rw done (
              edit_user current old u row
                (record {
                  acts = stored current_id current asking;
                  kept_username = kept.1;
                  kept_tenant = kept.2;
                  type_change =
                      ground (arith, kind, entitled, update_in_tenant current old req permitted);
                  entitled = ground (
                    arith,
                    entitled,
                    laws.users.at_key s.users current_id current
                        (laws.users.first_ok s.users current_id current asking),
                  );
                  peers = ground (
                    arith,
                    update_peers current old req permitted,
                    laws.users.at_key s.users current_id current
                        (laws.users.first_ok s.users current_id current asking),
                  );
                  activation = kept.3;
                })
                (ap (λ (x : Store U T R L). x.tenants) rest))
      ]

  pub delete-Step : (id current_id : ℕ) → Step db current_id s (delete db bcrypt id current_id s).1
  delete-Step id current_id = elim (Exec-cases (delete db bcrypt id current_id s)) [
    | inl (e, t, failed) ↦
        rw failed (Step-refl db bcrypt (delete_err db bcrypt s t e id current_id failed))
    | inr (_, t, done) ↦
        let (old, current, found, asking, name, permitted, gone) =
          delete_inv db bcrypt s t id current_id done in
        let own = laws.users.at_key s.users id old (laws.users.first_ok s.users id old found) in
        let (row, rest) =
          Laws.delete_inv db laws old s t (under_own_key id old found) (rw own gone) in
        rw done (
          remove_user current old row
            (record {
              acts = stored current_id current asking;
              not_superadmin = name;
              entitled = delete_entitled current old permitted;
            })
            (ap (λ (x : Store U T R L). x.tenants) rest))
  ]
