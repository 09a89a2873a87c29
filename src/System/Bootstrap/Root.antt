-- ===== src/System/Bootstrap/Root.antt =====
-- The account SuperAdmin after InitSuperAdmin (system/backend/internal/repository/database.go).
use addp.Common.{ℕ, some, ok, err, ◌≡◌, ==_iff, str_eq, eq_iff, arith, inl, inr, refl, Bool-cases}
use addp.Common.Outcome.{Result-cases}
use addp.Db.{not_found, failed}
use addp.System.Models.{is_super_admin, User}
use addp.System.Store.{Store, Database, IsDatabase, Bcrypt}
use addp.System.UserRepository
use addp.System.Users.{hash_password}
use addp.System.Access.{user_at}
use addp.System.Access.Invariant.{IsConsistent}
use addp.System.Access.Root.{HasRoot}
use addp.System.Bootstrap.{superadmin_user, promoted, init_from, init_super_admin}

module _ {U T R L : Type 0} (db : Database U T R L) (bcrypt : Bcrypt) (laws : IsDatabase db) where
  created_root :
      (salt : ℕ) (s s' : Store U T R L)
      → init_from db bcrypt (err not_found) salt s ≡ (ok tt, s')
      → (i : ℕ) × HasRoot db i s'
  unfolding init_from UserRepository.create
  created_root salt s s' h = elim (Result-cases (hash_password bcrypt salt "20251001#SuperAdmin")) [
    | inl (e, bad) ↦ absurd (ground arith)
    | inr (hash, good) ↦ elim (Result-cases (db.users.create s.users (superadmin_user hash))) [
      | inl (e, bad) ↦ absurd (ground arith)
      | inr ((u, us), made) ↦
          let (pos, row, fresh) = laws.users.create_row s.users (superadmin_user hash) u us made in
          (
            u.id,
            record {
              row = u;
              stored = ground (
                arith,
                laws.users.create_at s.users (superadmin_user hash) u us made u.id,
                ==_iff u.id u.id,
              );
              name = ground arith;
              kind = ground arith;
              no_tenant = ground arith;
            },
          )
    ]
  ]

  found_root :
      (salt : ℕ) (u : User) (s s' : Store U T R L)
      → IsConsistent db s
      → user_at db s u.id ≡ some u
      → u.username ≡ "SuperAdmin"
      → init_from db bcrypt (ok u) salt s ≡ (ok tt, s')
      → (i : ℕ) × HasRoot db i s'
  unfolding init_from UserRepository.update
  found_root salt u s s' sound there named h = elim (Bool-cases (is_super_admin u.user_type)) [
    | inl is ↦ (
      u.id,
      record {
        row = u;
        stored = ground arith;
        name = named;
        kind = ground arith;
        no_tenant = (sound.at_id u.id u there).root_has_none (ground arith);
      },
    )
    | inr other ↦ elim (Result-cases (db.users.save s.users (promoted u))) [
      | inl (e, bad) ↦ absurd (ground arith)
      | inr (us, saved) ↦ (
        u.id,
        record {
          row = promoted u;
          stored = ground (
            arith,
            laws.users.save_at s.users (promoted u) u us there saved u.id,
            ==_iff u.id u.id,
          );
          name = named;
          kind = refl;
          no_tenant = refl;
        },
      )
    ]
  ]

  -- When InitSuperAdmin returns no error on a consistent database, the database then holds a user
  -- named SuperAdmin who is a super administrator of no tenant: created, promoted, or as it was.
  -- The database meets its laws `IsDatabase`.
  pub init_super_admin-HasRoot :
      (salt : ℕ) (s s' : Store U T R L)
      → IsConsistent db s
      → init_super_admin db bcrypt salt s ≡ (ok tt, s')
      → (i : ℕ) × HasRoot db i s'
  unfolding init_super_admin UserRepository.get_by_username
  init_super_admin-HasRoot salt s s' sound h =
      elim (Result-cases (db.users.first_where s.users (λ u. str_eq u.username "SuperAdmin"))) [
        | inl (not_found, none_there) ↦ created_root salt s s' (ground arith)
        | inl (failed n, broken) ↦ absurd (ground arith)
        | inr (u, found) ↦
            let (there, named) =
              laws.users.first_where_ok s.users (λ u. str_eq u.username "SuperAdmin") u found in
            found_root salt u s s' sound there
              (ground (arith, named, eq_iff u.username "SuperAdmin")) (ground arith)
      ]
