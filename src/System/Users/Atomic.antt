-- ===== src/System/Users/Atomic.antt =====
-- The methods of user_service.go where they return an error, and those that only read.
use addp.Common.{ℕ, String, Result, err, ◌≡◌, arith}
use addp.System.Models.{User, UserCreateRequest, UserUpdateRequest}
use addp.System.Store.{Error, Store, Database, Bcrypt}
use addp.System.UserRepository
use addp.System.Users.{create, get_by_id, update, delete, register, authenticate}

module _ {U T R L : Type 0} (db : Database U T R L) (bcrypt : Bcrypt) (s s' : Store U T R L) where
  module _ (e : Error) where
    pub create_err :
        (req : UserCreateRequest) (creator_id salt : ℕ)
        → create db bcrypt req creator_id salt s ≡ (err e, s')
        → s' ≡ s
    unfolding create
    create_err req creator_id salt h = ground arith

    pub register_err :
        (req : UserCreateRequest) (salt : ℕ) → register db bcrypt req salt s ≡ (err e, s') → s' ≡ s
    unfolding register
    register_err req salt h = ground arith

    pub update_err :
        (id : ℕ) (req : UserUpdateRequest) (current salt : ℕ)
        → update db bcrypt id req current salt s ≡ (err e, s')
        → s' ≡ s
    unfolding update UserRepository.update
    update_err id req current salt h = ground arith

    pub delete_err : (id current : ℕ) → delete db bcrypt id current s ≡ (err e, s') → s' ≡ s
    unfolding delete UserRepository.delete
    delete_err id current h = ground arith

  module _ (r : Result Error User) where
    pub get_by_id_read : (id current : ℕ) → get_by_id db bcrypt id current s ≡ (r, s') → s' ≡ s
    unfolding get_by_id
    get_by_id_read id current h = ground arith

    pub authenticate_read :
        (username password : String) → authenticate db bcrypt username password s ≡ (r, s') → s' ≡ s
    unfolding authenticate
    authenticate_read username password h = ground arith
