-- ===== src/System/Users/Inversion.antt =====
-- The steps of a method of user_service.go that returns a user.
use addp.Common.{ℕ, String, false, ok, ◌≡◌, ◌≢◌, ◌⊎◌, arith, inl, inr, eq_iff}
use addp.Common.Outcome.{Result-cases}
use addp.System.Models.{
  super_admin, tenant_admin, user, empty, User, UserCreateRequest, UserUpdateRequest,
}
use addp.System.Store.{Store, Database, Bcrypt}
use addp.System.UserRepository
use addp.System.Users.{
  create, register, update, delete, new_user, registered_user, edited, or_default, new_hash,
  set_state, validate_update_permission, validate_delete_permission,
}

module _ {U T R L : Type 0} (db : Database U T R L) (bcrypt : Bcrypt) (s s' : Store U T R L) where
  pub create_inv :
      (req : UserCreateRequest) (creator_id salt : ℕ) (u : User)
      → create db bcrypt req creator_id salt s ≡ (ok u, s')
      → (creator : User) × (hash : String) × (db.users.first s.users creator_id ≡ ok creator)
        × (creator.user_type ≡ tenant_admin)
        × (or_default req.user_type ≡ user)
        × (bcrypt.generate salt req.password ≡ ok hash)
        × (UserRepository.create db (new_user req creator hash) s ≡ (ok u, s'))
  unfolding create
  create_inv req creator_id salt u h = elim (Result-cases (db.users.first s.users creator_id)) [
    | inl (e, bad) ↦ absurd (ground arith)
    | inr (creator, found) ↦ elim (Result-cases (bcrypt.generate salt req.password)) [
      | inl (e, bad) ↦ absurd (ground arith)
      | inr (hash, hashed) ↦
          (creator, hash, found, ground arith, ground arith, hashed, ground arith)
    ]
  ]

  pub register_inv :
      (req : UserCreateRequest) (salt : ℕ) (u : User)
      → register db bcrypt req salt s ≡ (ok u, s')
      → (hash : String) × (bcrypt.generate salt req.password ≡ ok hash)
        × (UserRepository.create db (registered_user req hash) s ≡ (ok u, s'))
  unfolding register
  register_inv req salt u h = elim (Result-cases (bcrypt.generate salt req.password)) [
    | inl (e, bad) ↦ absurd (ground arith)
    | inr (hash, hashed) ↦ (hash, hashed, ground arith)
  ]

  -- what the administrators' part of an update may change
  set_state_inv :
      (current u u' : User) (req : UserUpdateRequest)
      → set_state db bcrypt current req u ≡ ok u'
      → ((u'.id ≡ u.id)
          × (u'.username ≡ u.username)
          × (u'.tenant_id ≡ u.tenant_id)
          × ((u'.is_active ≡ u.is_active)
              ⊎ (current.user_type ≡ super_admin)
              ⊎ (current.user_type ≡ tenant_admin)))
        × (((u'.user_type ≡ u.user_type) × (u'.is_superuser ≡ u.is_superuser))
            ⊎ ((current.user_type ≡ tenant_admin)
                × ((u'.user_type ≡ user) ⊎ (u'.user_type ≡ empty))
                × (u'.is_superuser ≡ false)))
  unfolding set_state
  set_state_inv current u u' req h = ground arith

  pub update_inv :
      (id : ℕ) (req : UserUpdateRequest) (current_id salt : ℕ) (u : User)
      → update db bcrypt id req current_id salt s ≡ (ok u, s')
      → (old current : User) × (db.users.first s.users id ≡ ok old)
        × (db.users.first s.users current_id ≡ ok current)
        × (validate_update_permission current old req ≡ ok tt)
        × ((u.id ≡ old.id)
            × (u.username ≡ old.username)
            × (u.tenant_id ≡ old.tenant_id)
            × ((u.is_active ≡ old.is_active)
                ⊎ (current.user_type ≡ super_admin)
                ⊎ (current.user_type ≡ tenant_admin)))
        × (((u.user_type ≡ old.user_type) × (u.is_superuser ≡ old.is_superuser))
            ⊎ ((current.user_type ≡ tenant_admin)
                × ((u.user_type ≡ user) ⊎ (u.user_type ≡ empty))
                × (u.is_superuser ≡ false)))
        × (UserRepository.update db u s ≡ (ok tt, s'))
  unfolding update
  update_inv id req current_id salt u h = elim (Result-cases (db.users.first s.users id)) [
    | inl (e, bad) ↦ absurd (ground arith)
    | inr (old, found) ↦ elim (Result-cases (db.users.first s.users current_id)) [
      | inl (e, bad) ↦ absurd (ground arith)
      | inr (current, asking) ↦
          elim (Result-cases (new_hash db bcrypt salt req.password old.password_hash)) [
            | inl (e, bad) ↦ absurd (ground arith)
            | inr (hash, hashed) ↦
                let base = edited old req hash in
                let permitted : validate_update_permission current old req ≡ ok tt = ground arith in
                let stated : set_state db bcrypt current req base ≡ ok u = ground arith in
                (
                  old,
                  current,
                  found,
                  asking,
                  permitted,
                  (set_state_inv current base u req stated).0,
                  (set_state_inv current base u req stated).1,
                  ground arith,
                )
          ]
    ]
  ]

  pub delete_inv :
      (id current_id : ℕ)
      → delete db bcrypt id current_id s ≡ (ok tt, s')
      → (old current : User) × (db.users.first s.users id ≡ ok old)
        × (db.users.first s.users current_id ≡ ok current)
        × (old.username ≢ "SuperAdmin")
        × (validate_delete_permission current old ≡ ok tt)
        × (UserRepository.delete db id s ≡ (ok tt, s'))
  unfolding delete
  delete_inv id current_id h = elim (Result-cases (db.users.first s.users id)) [
    | inl (e, bad) ↦ absurd (ground arith)
    | inr (old, found) ↦ elim (Result-cases (db.users.first s.users current_id)) [
      | inl (e, bad) ↦ absurd (ground arith)
      | inr (current, asking) ↦ (
        old,
        current,
        found,
        asking,
        ground (arith, eq_iff old.username "SuperAdmin"),
        ground arith,
        ground arith,
      )
    ]
  ]
