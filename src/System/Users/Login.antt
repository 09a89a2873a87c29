-- ===== src/System/Users/Login.antt =====
-- Registration and authentication.
use addp.Common.{ℕ, String, true, ok, ◌≡◌, ◌↔◌, ==_iff, str_eq, eq_iff, arith, inl, inr, ap, ◌∙◌}
use addp.Common.Outcome.{Result-cases}
use addp.System.Models.{User, UserCreateRequest}
use addp.System.Store.{Store, Database, IsDatabase, Bcrypt, IsBcrypt}
use addp.System.UserRepository
use addp.System.UserRepository.Laws
use addp.System.Users.{register, registered_user, authenticate}
use addp.System.Users.Inversion.{register_inv}

module _ {U T R L : Type 0} (db : Database U T R L) (bcrypt : Bcrypt) where
  -- Authenticate returns a user exactly when the database finds that user under the name, the
  -- password fits the stored hash, and the user is active.
  pub authenticate_iff :
      (username password : String) (u : User) (s : Store U T R L)
      → (authenticate db bcrypt username password s ≡ (ok u, s)) ↔ (
          (UserRepository.get_by_username db username s ≡ ok u)
          × (bcrypt.compare u.password_hash password ≡ true)
          × (u.is_active ≡ true))
  unfolding authenticate
  authenticate_iff username password u s =
      (λ h. (ground arith, ground arith, ground arith), λ h. ground arith)

  -- after an insertion, whoever is found under the new user's name is the new user
  found_is_new :
      (laws : IsDatabase db) (row u v : User) (s s' : Store U T R L)
      → UserRepository.create db row s ≡ (ok u, s')
      → row.username ≡ u.username
      → UserRepository.get_by_username db row.username s' ≡ ok v
      → v ≡ u
  unfolding UserRepository.create UserRepository.get_by_username
  found_is_new laws row u v s s' made name found =
      elim (Result-cases (db.users.create s.users row)) [
        | inl (e, bad) ↦ ground arith
        | inr ((u', us), done) ↦
            let (there, named) =
              laws.users.first_where_ok s'.users (λ x. str_eq x.username row.username) v found in
            ground (
              arith,
              there,
              named,
              laws.users.create_at s.users row u' us done v.id,
              laws.users.create_unique s.users row u' us done v.id v,
              eq_iff v.username row.username,
              eq_iff u'.username v.username,
              ==_iff u'.id v.id,
            )
      ]

  -- A user who has registered can log in with the name and password of the registration, as
  -- soon as the database finds a user under the name: it is that very user, since names are unique.
  -- The database and bcrypt meet their laws.
  pub authenticate-register :
      (laws : IsDatabase db) (hashing : IsBcrypt bcrypt) (req : UserCreateRequest) (salt : ℕ)
      (u v : User) (s s' : Store U T R L)
      → register db bcrypt req salt s ≡ (ok u, s')
      → UserRepository.get_by_username db req.username s' ≡ ok v
      → (v ≡ u) × (authenticate db bcrypt req.username req.password s' ≡ (ok u, s'))
  authenticate-register laws hashing req salt u v s s' done found =
      let (hash, hashed, made) = register_inv db bcrypt s s' req salt u done in
      let (inserted, row, rest) = Laws.create_inv db laws (registered_user req hash) u s s' made in
      let same = found_is_new laws (registered_user req hash) u v s s' made (ground arith) found in
      (
        same,
        (authenticate_iff req.username req.password u s').1 (
          found ∙ ap ok same,
          ground (arith, hashing.compare-generate salt req.password hash hashed),
          ground arith,
        ),
      )
