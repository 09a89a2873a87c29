-- ===== src/System/Users.antt =====
-- system/backend/internal/service/user_service.go, and pkg/utils/password.go.
pub mod Atomic
pub mod Inversion
pub mod Refines
pub mod Visible
pub mod Login
use addp.Common.{
  ℕ, String, Bool, true, false, not, ◌&&◌, ◌||◌, Option, none, some, List, [], ◌∷◌, Result, ok, err,
  ◌==◌, str_eq, if◌then◌else◌, or_old, is_some,
}
use addp.Common.Int.{ℤ, pos, ◌-ℤ◌, ◌*ℤ◌, wrap_64}
use addp.Common.Outcome.{pure, lift, gets, or_fail, ◌>>=◌, ◌>>◌}
use addp.Db.{not_found, failed}
use addp.System.Models.{
  UserType, user, is_super_admin, is_tenant_admin, is_user, is_empty, User, UserCreateRequest,
  UserUpdateRequest, same_tenant,
}
use addp.System.Store.{
  Error, username_taken, creator_missing, superadmin_cannot_create, only_plain_users,
  no_create_permission, current_user_missing, no_view_permission, other_tenant_update,
  other_tenant_admin, only_self, no_state_permission, user_missing, superadmin_undeletable,
  other_tenant_delete, tenant_admin_undeletable, no_delete_permission, bad_credentials,
  user_disabled, hash_failed, database, Database, Service, Bcrypt, require, refuse_found, deref,
}
use addp.System.UserRepository

-- utils.HashPassword and utils.CheckPassword; the salt is the randomness that bcrypt draws
unfoldable pub hash_password : Bcrypt → ℕ → String → Result Error String
hash_password b salt password = or_fail (b.generate salt password) (λ _. hash_failed)

unfoldable pub check_password : Bcrypt → String → String → Bool
check_password b password hash = b.compare hash password

-- offset := (page - 1) * pageSize
unfoldable pub page_offset : ℤ → ℤ → ℤ
page_offset page page_size = wrap_64 ((page -ℤ pos 1) *ℤ page_size)

unfoldable pub validate_create_permission : User → UserType → Result Error Unit
validate_create_permission creator target =
    if is_super_admin creator.user_type
    then err superadmin_cannot_create
    else if is_tenant_admin creator.user_type
    then (if not (is_user target) && not (is_empty target) then err only_plain_users else ok tt)
    else err no_create_permission

unfoldable pub validate_update_permission : User → User → UserUpdateRequest → Result Error Unit
validate_update_permission current target req =
    if is_super_admin current.user_type
    then ok tt
    else if is_tenant_admin current.user_type
    then (if not (same_tenant target.tenant_id current.tenant_id)
        then err other_tenant_update
        else if is_tenant_admin target.user_type && not (target.id == current.id)
        then err other_tenant_admin
        else ok tt)
    else if not (current.id == target.id)
    then err only_self
    else if is_some req.is_active || is_some req.user_type
    then err no_state_permission
    else ok tt

-- GetByID's three cases, for the user that was read and the one who asks
unfoldable pub visible_user : User → User → ℕ → Result Error User
visible_user current u current_id =
    if is_super_admin current.user_type
    then ok u
    else if is_tenant_admin current.user_type
    then (if not (same_tenant u.tenant_id current.tenant_id) then err no_view_permission else ok u)
    else if not (u.id == current_id)
    then err no_view_permission
    else ok u

-- Delete's permission, after the target and the current user were read
unfoldable pub validate_delete_permission : User → User → Result Error Unit
validate_delete_permission current target =
    if is_super_admin current.user_type
    then ok tt
    else if is_tenant_admin current.user_type
    then (if not (same_tenant target.tenant_id current.tenant_id)
        then err other_tenant_delete
        else if is_tenant_admin target.user_type
        then err tenant_admin_undeletable
        else ok tt)
    else err no_delete_permission

-- the type of a new user: `user` where the request names none
abbrev pub or_default : UserType → UserType
or_default target = if is_empty target then user else target

-- the rows that Create and Register insert; the database assigns the key
abbrev pub new_user : UserCreateRequest → User → String → User
new_user req creator hash = record {
  id = 0;
  username = req.username;
  email = req.email;
  password_hash = hash;
  full_name = req.full_name;
  is_active = true;
  user_type = or_default req.user_type;
  tenant_id = creator.tenant_id;
  is_superuser = is_super_admin (or_default req.user_type);
}

abbrev pub registered_user : UserCreateRequest → String → User
registered_user req hash = record {
  id = 0;
  username = req.username;
  email = req.email;
  password_hash = hash;
  full_name = req.full_name;
  is_active = true;
  user_type = user;
  tenant_id = none;
  is_superuser = false;
}

-- the fields that every permitted update sets
abbrev pub edited : User → UserUpdateRequest → String → User
edited u req hash = record u {
  email = or_old req.email u.email;
  full_name = or_old req.full_name u.full_name;
  password_hash = hash;
}

module _ {U T R L : Type 0} (db : Database U T R L) (bcrypt : Bcrypt) where
  unfoldable pub create : UserCreateRequest → ℕ → ℕ → Service U T R L User
  unfolding validate_create_permission hash_password UserRepository.get_by_id
      UserRepository.get_by_username UserRepository.create
  create req creator_id salt = do
    existing ← gets (UserRepository.get_by_username db req.username)
    refuse_found existing username_taken
    found ← gets (UserRepository.get_by_id db creator_id)
    creator ← require found creator_missing
    lift (validate_create_permission creator req.user_type)
    password_hash ← lift (hash_password bcrypt salt req.password)
    UserRepository.create db (new_user req creator password_hash)

  unfoldable pub get_by_id : ℕ → ℕ → Service U T R L User
  unfolding visible_user UserRepository.get_by_id
  get_by_id id current_user_id = do
    found ← gets (UserRepository.get_by_id db id)
    u ← lift (or_fail found database)
    asking ← gets (UserRepository.get_by_id db current_user_id)
    current ← require asking current_user_missing
    lift (visible_user current u current_user_id)

  unfoldable pub list_for : User → ℤ → ℤ → Service U T R L (List User)
  list_for current offset page_size =
      if is_super_admin current.user_type
      then pure []
      else if is_tenant_admin current.user_type
      then (do
        tenant ← deref current.tenant_id
        found ← gets (UserRepository.list_by_tenant db tenant offset page_size)
        lift (or_fail found database))
      else pure (current ∷ [])

  unfoldable pub list : ℤ → ℤ → ℕ → Service U T R L (List User)
  unfolding list_for UserRepository.get_by_id UserRepository.list_by_tenant
  list page page_size current_user_id = do
    asking ← gets (UserRepository.get_by_id db current_user_id)
    current ← require asking current_user_missing
    list_for current (page_offset page page_size) page_size

  -- the password of an update: hashed where one is given
  unfoldable pub new_hash : ℕ → Option String → String → Result Error String
  new_hash salt none old = ok old
  new_hash salt (some password) old = hash_password bcrypt salt password

  -- the fields that only administrators may set
  unfoldable pub set_type : User → Option UserType → User → Result Error User
  set_type current none u = ok u
  set_type current (some t) u = elim (validate_create_permission current t) [
    | ok _ ↦ ok (record u { user_type = t; is_superuser = is_super_admin t })
    | err e ↦ err e
  ]

  unfoldable pub set_state : User → UserUpdateRequest → User → Result Error User
  unfolding set_type validate_create_permission
  set_state current req u =
      if is_super_admin current.user_type || is_tenant_admin current.user_type
      then set_type current req.user_type
          (record u { is_active = or_old req.is_active u.is_active })
      else ok u

  unfoldable pub update : ℕ → UserUpdateRequest → ℕ → ℕ → Service U T R L User
  unfolding UserRepository.get_by_id
  update id req current_user_id salt = do
    found ← gets (UserRepository.get_by_id db id)
    u ← lift (or_fail found database)
    asking ← gets (UserRepository.get_by_id db current_user_id)
    current ← require asking current_user_missing
    lift (validate_update_permission current u req)
    hash ← lift (new_hash salt req.password u.password_hash)
    u' ← lift (set_state current req (edited u req hash))
    UserRepository.update db u'
    pure u'

  unfoldable pub delete : ℕ → ℕ → Service U T R L Unit
  unfolding UserRepository.get_by_id
  delete id current_user_id = do
    found ← gets (UserRepository.get_by_id db id)
    target ← require found user_missing
    lift (if str_eq target.username "SuperAdmin" then err superadmin_undeletable else ok tt)
    asking ← gets (UserRepository.get_by_id db current_user_id)
    current ← require asking current_user_missing
    lift (validate_delete_permission current target)
    UserRepository.delete db id

  unfoldable pub register : UserCreateRequest → ℕ → Service U T R L User
  unfolding hash_password UserRepository.get_by_username UserRepository.create
  register req salt = do
    existing ← gets (UserRepository.get_by_username db req.username)
    refuse_found existing username_taken
    password_hash ← lift (hash_password bcrypt salt req.password)
    UserRepository.create db (registered_user req password_hash)

  unfoldable pub authenticate : String → String → Service U T R L User
  unfolding check_password UserRepository.get_by_username
  authenticate username password = do
    found ← gets (UserRepository.get_by_username db username)
    u ← lift (or_fail found (elim [ not_found ↦ bad_credentials | failed n ↦ database (failed n) ]))
    lift (if check_password bcrypt password u.password_hash then ok tt else err bad_credentials)
    lift (if u.is_active then ok tt else err user_disabled)
    pure u
