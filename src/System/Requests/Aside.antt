-- ===== src/System/Requests/Aside.antt =====
-- The methods that leave the resources and the audit log alone.
use addp.Common.{ℕ, ◌≡◌, ap, arith, inl, inr}
use addp.Common.Outcome.{Exec-cases}
use addp.System.Models.{
  UserCreateRequest, UserUpdateRequest, TenantCreateRequest, TenantUpdateRequest,
}
use addp.System.Store.{Store, Database, IsDatabase, Bcrypt}
use addp.System.UserRepository
use addp.System.Users
use addp.System.Tenants
use addp.System.Tenants.Atomic as TenantAtomic
use addp.System.Tenants.Inversion.{create_tenant_inv, update_inv, delete_tenant_inv}

pub record IsAside {U T R L : Type 0} (s s' : Store U T R L) : Type 0 where
  pub resources : s'.resources ≡ s.resources
  pub logs : s'.logs ≡ s.logs

same-IsAside : {U T R L : Type 0} (s s' : Store U T R L) → s' ≡ s → IsAside s s'
same-IsAside {U} {T} {R} {L} s s' same = record {
  resources = ap (λ (x : Store U T R L). x.resources) same;
  logs = ap (λ (x : Store U T R L). x.logs) same;
}

module _ {U T R L : Type 0} (db : Database U T R L) (bcrypt : Bcrypt) (s : Store U T R L) where
  pub register-IsAside :
      (req : UserCreateRequest) (salt : ℕ) → IsAside s (Users.register db bcrypt req salt s).1
  unfolding Users.register UserRepository.create
  register-IsAside req salt = record { resources = ground arith; logs = ground arith }

  pub create_user-IsAside :
      (req : UserCreateRequest) (actor salt : ℕ)
      → IsAside s (Users.create db bcrypt req actor salt s).1
  unfolding Users.create UserRepository.create
  create_user-IsAside req actor salt = record { resources = ground arith; logs = ground arith }

  pub update_user-IsAside :
      (id : ℕ) (req : UserUpdateRequest) (actor salt : ℕ)
      → IsAside s (Users.update db bcrypt id req actor salt s).1
  unfolding Users.update UserRepository.update
  update_user-IsAside id req actor salt = record { resources = ground arith; logs = ground arith }

  pub delete_user-IsAside : (id actor : ℕ) → IsAside s (Users.delete db bcrypt id actor s).1
  unfolding Users.delete UserRepository.delete
  delete_user-IsAside id actor = record { resources = ground arith; logs = ground arith }

  module _ (laws : IsDatabase db) where
    pub create_tenant-IsAside :
        (req : TenantCreateRequest) (actor salt : ℕ)
        → IsAside s (Tenants.create db bcrypt req actor salt s).1
    create_tenant-IsAside req actor salt =
        elim (Exec-cases (Tenants.create db bcrypt req actor salt s)) [
          | inl (e, t, bad) ↦
              rw bad
                (same-IsAside s t (TenantAtomic.create_err db bcrypt laws s t e req actor salt bad))
          | inr (x, t, good) ↦
              let (root, made) = create_tenant_inv db bcrypt laws s t req actor salt x good in
              rw good record { resources = made.resources; logs = made.logs }
        ]

    pub update_tenant-IsAside :
        (id : ℕ) (req : TenantUpdateRequest) (actor : ℕ)
        → IsAside s (Tenants.update db bcrypt id req actor s).1
    update_tenant-IsAside id req actor =
        elim (Exec-cases (Tenants.update db bcrypt id req actor s)) [
          | inl (e, t, bad) ↦
              rw bad
                (same-IsAside s t (TenantAtomic.update_err db bcrypt laws s t e id req actor bad))
          | inr (x, t, good) ↦
              let (root, saved, frame) = update_inv db bcrypt laws s t id req actor x good in
              rw good record {
                resources = ap (λ (y : Store U T R L). y.resources) frame;
                logs = ap (λ (y : Store U T R L). y.logs) frame;
              }
        ]

    pub delete_tenant-IsAside : (id actor : ℕ) → IsAside s (Tenants.delete db bcrypt id actor s).1
    delete_tenant-IsAside id actor = elim (Exec-cases (Tenants.delete db bcrypt id actor s)) [
      | inl (e, t, bad) ↦
          rw bad (same-IsAside s t (TenantAtomic.delete_err db bcrypt laws s t e id actor bad))
      | inr (x, t, good) ↦
          let (root, (old, own, gone)) = delete_tenant_inv db bcrypt laws s t id actor good in
          rw good record { resources = gone.resources; logs = gone.logs }
    ]
