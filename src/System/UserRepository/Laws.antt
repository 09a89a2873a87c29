-- ===== src/System/UserRepository/Laws.antt =====
-- What the statements on the table of users have done when they succeed.
use addp.Common.{some, ok, ◌≡◌, arith, inl, inr}
use addp.Common.Outcome.{Result-cases}
use addp.Db.Effects.{
  IsInserted, IsSaved, IsDeleted, create-IsInserted, save-IsSaved, delete-IsDeleted,
}
use addp.System.Models.{User, user_with_id}
use addp.System.Store.{Store, Database, IsDatabase}
use addp.System.UserRepository.{create, update, delete}

module _ {U T R L : Type 0} (db : Database U T R L) (laws : IsDatabase db) where
  pub create_inv :
      (u u' : User) (s s' : Store U T R L)
      → create db u s ≡ (ok u', s')
      → IsInserted db.users (λ v. v.id) s.users u' s'.users
        × (u' ≡ user_with_id u'.id u)
        × (s' ≡ record s { users = s'.users })
  unfolding create
  create_inv u u' s s' h = elim (Result-cases (db.users.create s.users u)) [
    | inl (e, bad) ↦ absurd (ground arith)
    | inr ((row, us), made) ↦
        let same : row ≡ u' = ground arith in
        let end : us ≡ s'.users = ground arith in
        let made' : db.users.create s.users u ≡ ok (u', s'.users) = rw (← same, ← end) made in
        (
          create-IsInserted db.users (λ v. v.id) laws.users s.users u u' s'.users made',
          (laws.users.create_row s.users u u' s'.users made').1,
          ground arith,
        )
  ]

  pub update_inv :
      (old u : User) (s s' : Store U T R L)
      → u.id ≡ old.id
      → db.users.at s.users old.id ≡ some old
      → update db u s ≡ (ok tt, s')
      → IsSaved db.users (λ v. v.id) s.users old u s'.users × (s' ≡ record s { users = s'.users })
  unfolding update
  update_inv old u s s' same was h = elim (Result-cases (db.users.save s.users u)) [
    | inl (e, bad) ↦ absurd (ground arith)
    | inr (us, saved) ↦ (
      save-IsSaved db.users (λ v. v.id) laws.users s.users old u s'.users same was (ground arith),
      ground arith,
    )
  ]

  pub delete_inv :
      (old : User) (s s' : Store U T R L)
      → db.users.at s.users old.id ≡ some old
      → delete db old.id s ≡ (ok tt, s')
      → IsDeleted db.users (λ v. v.id) s.users old s'.users × (s' ≡ record s { users = s'.users })
  unfolding delete
  delete_inv old s s' was h = elim (Result-cases (db.users.delete s.users old.id)) [
    | inl (e, bad) ↦ absurd (ground arith)
    | inr (us, gone) ↦ (
      delete-IsDeleted db.users (λ v. v.id) laws.users s.users old s'.users was (ground arith),
      ground arith,
    )
  ]
