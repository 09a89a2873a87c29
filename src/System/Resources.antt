-- ===== src/System/Resources.antt =====
-- system/backend/internal/service/resource_service.go
pub mod Frame
pub mod Secrets
pub mod Views
pub mod Access
pub mod Isolation
pub mod Changes
use addp.Common.{
  ℕ, String, Bool, true, false, not, ◌&&◌, ◌||◌, Option, none, some, List, [], ◌∷◌, map, ◌+◌,
  Result, ok, err, ltb, ◌==◌, str_eq, if◌then◌else◌, or_old,
}
use addp.Common.Int.{ℤ, pos}
use addp.Common.Dict.{lookup, insert, map_entries}
use addp.Common.Outcome.{pure, lift, gets, or_fail, ◌>>=◌, ◌>>◌}
use addp.Cipher.{Crypto, encrypt, decrypt}
use addp.Db.{DbError, not_found, failed}
use addp.System.Models.{
  UserType, is_super_admin, is_tenant_admin, User, Value, null, str, ConnectionInfo, Resource,
  ResourceCreateRequest, ResourceUpdateRequest, same_tenant,
}
use addp.System.Store.{
  Error, current_user_missing, user_missing, resource_not_found, resource_forbidden, no_tenant,
  cipher, database, Database, Service, require,
}
use addp.System.UserRepository
use addp.System.ResourceRepository
use addp.System.Users.{page_offset}

abbrev pub sensitive_fields : List String
sensitive_fields = "password" ∷ "access_key" ∷ "secret_key" ∷ "token" ∷ "api_key" ∷ []

unfoldable pub is_sensitive_field : String → Bool
is_sensitive_field field =
    str_eq field "password"
    || str_eq field "access_key"
    || str_eq field "secret_key"
    || str_eq field "token"
    || str_eq field "api_key"

-- the text of a field, if the map has one there that is not empty
abbrev pub text_of : Option Value → Option String
text_of (some (str s)) = if str_eq s "" then none else some s
text_of _ = none

-- for k, v := range connInfo { out[k] = v }
unfoldable pub copy : ConnectionInfo → ConnectionInfo
unfolding map_entries
copy = map_entries (λ k v. v)

unfoldable pub mask_value : String → Value → Value
unfolding is_sensitive_field
mask_value k null = null
mask_value k v = if is_sensitive_field k then str "******" else v

unfoldable pub mask_sensitive_fields : ConnectionInfo → ConnectionInfo
unfolding map_entries mask_value
mask_sensitive_fields = map_entries mask_value

unfoldable pub sanitize_resource : Resource → Resource
unfolding mask_sensitive_fields
sanitize_resource r = record r { connection_info = mask_sensitive_fields r.connection_info }

module _ {Byte : Type 0} (crypto : Crypto Byte) (key : List Byte) where
  -- the loop over the sensitive fields: each encryption makes a draw of its own
  unfoldable pub encrypt_fields :
      ConnectionInfo → ℕ → List String → ConnectionInfo → Result Error ConnectionInfo
  unfolding encrypt lookup insert
  encrypt_fields info draw [] acc = ok acc
  encrypt_fields info draw (f ∷ fs) acc = elim (text_of (lookup f info)) [
    | none ↦ encrypt_fields info (draw + 1) fs acc
    | some s ↦ elim (encrypt crypto draw s key) [
      | ok c ↦ encrypt_fields info (draw + 1) fs (insert f (str c) acc)
      | err e ↦ err (cipher e)
    ]
  ]

  unfoldable pub encrypt_sensitive_fields : ConnectionInfo → ℕ → Result Error ConnectionInfo
  unfolding encrypt_fields copy
  encrypt_sensitive_fields info draw = encrypt_fields info draw sensitive_fields (copy info)

  -- what does not decrypt is taken for old data and kept
  abbrev decrypted_or_kept : String → String
  decrypted_or_kept s = elim (decrypt crypto s key) [ ok p ↦ p | err e ↦ s ]

  unfoldable pub decrypt_fields : ConnectionInfo → List String → ConnectionInfo → ConnectionInfo
  unfolding decrypt lookup insert
  decrypt_fields info [] acc = acc
  decrypt_fields info (f ∷ fs) acc = elim (text_of (lookup f info)) [
    | none ↦ decrypt_fields info fs acc
    | some s ↦ decrypt_fields info fs (insert f (str (decrypted_or_kept s)) acc)
  ]

  -- the error result of the Go function is always nil
  unfoldable pub decrypt_sensitive_fields : ConnectionInfo → ConnectionInfo
  unfolding decrypt_fields copy
  decrypt_sensitive_fields info = decrypt_fields info sensitive_fields (copy info)

  unfoldable pub decrypt_resource : Resource → Resource
  unfolding decrypt_sensitive_fields
  decrypt_resource r = record r { connection_info = decrypt_sensitive_fields r.connection_info }

unfoldable pub authorize_resource_access : Resource → User → Result Error Unit
authorize_resource_access r u =
    if is_super_admin u.user_type
    then ok tt
    else if same_tenant u.tenant_id r.tenant_id
    then ok tt
    else err resource_forbidden

unfoldable pub ensure_resource_management_permission : User → Result Error Unit
ensure_resource_management_permission u =
    if is_super_admin u.user_type || is_tenant_admin u.user_type
    then ok tt
    else err resource_forbidden

-- errors.Is(err, gorm.ErrRecordNotFound)
abbrev pub or_not_found : DbError → Error
or_not_found not_found = resource_not_found
or_not_found (failed n) = database (failed n)

-- the row that Update saves, with the connection info that it may have encrypted
abbrev pub updated_resource : ResourceUpdateRequest → Resource → ConnectionInfo → Resource
updated_resource req r info = record r {
  name = or_old req.name r.name;
  connection_info = info;
  description = or_old req.description r.description;
  is_active = or_old req.is_active r.is_active;
}

-- the row that Create inserts; the database assigns the key
abbrev pub new_resource : ResourceCreateRequest → User → ℕ → ConnectionInfo → Resource
new_resource req u created_by info = record {
  id = 0;
  name = req.name;
  resource_type = req.resource_type;
  connection_info = info;
  description = req.description;
  created_by = some created_by;
  tenant_id = u.tenant_id;
  is_active = true;
}

module _ {U T R L : Type 0} (db : Database U T R L) {Byte : Type 0} (crypto : Crypto Byte)
    (key : List Byte) where
  unfoldable pub get_current_user : ℕ → Service U T R L User
  unfolding UserRepository.get_by_id
  get_current_user id = do
    found ← gets (UserRepository.get_by_id db id)
    require found current_user_missing

  -- the reads and checks that GetByID, Update, Delete and GetForConnection begin with
  unfoldable pub load : ℕ → ℕ → Service U T R L (User × Resource)
  unfolding get_current_user ResourceRepository.get_by_id
  load id current_user_id = do
    current ← get_current_user current_user_id
    found ← gets (ResourceRepository.get_by_id db id)
    r ← lift (or_fail found or_not_found)
    lift (authorize_resource_access r current)
    pure (current, r)

  unfoldable pub create : ResourceCreateRequest → ℕ → ℕ → Service U T R L Resource
  unfolding UserRepository.get_by_id
  create req created_by draw = do
    found ← gets (UserRepository.get_by_id db created_by)
    u ← require found user_missing
    lift (ensure_resource_management_permission u)
    info ← lift (encrypt_sensitive_fields crypto key req.connection_info draw)
    r ← ResourceRepository.create db (new_resource req u created_by info)
    pure (sanitize_resource r)

  unfoldable pub get_by_id : ℕ → ℕ → Service U T R L Resource
  get_by_id id current_user_id = do
    (current, r) ← load id current_user_id
    pure (sanitize_resource r)

  -- the rows that List reads, for the user who asks
  unfoldable pub rows_for : User → ℤ → ℤ → String → Service U T R L (List Resource)
  unfolding ResourceRepository.list ResourceRepository.list_by_tenant
  rows_for current offset page_size resource_type =
      if is_super_admin current.user_type
      then (do
        found ← gets (ResourceRepository.list db offset page_size resource_type)
        lift (or_fail found database))
      else elim current.tenant_id [
        | none ↦ lift (err no_tenant)
        | some t ↦ do
          found ← gets (ResourceRepository.list_by_tenant db t offset page_size resource_type)
          lift (or_fail found database)
      ]

  unfoldable pub list : ℤ → ℤ → String → ℕ → Service U T R L (List Resource)
  unfolding get_current_user
  list page page_size resource_type current_user_id = do
    current ← get_current_user current_user_id
    rows ← rows_for current (page_offset page page_size) page_size resource_type
    pure (map sanitize_resource rows)

  -- the connection info of an update: encrypted where one is given
  unfoldable pub new_info : Option ConnectionInfo → ℕ → ConnectionInfo → Result Error ConnectionInfo
  new_info none draw old = ok old
  new_info (some info) draw old = encrypt_sensitive_fields crypto key info draw

  unfoldable pub update : ℕ → ResourceUpdateRequest → ℕ → ℕ → Service U T R L Resource
  update id req current_user_id draw = do
    (current, r) ← load id current_user_id
    lift (ensure_resource_management_permission current)
    info ← lift (new_info req.connection_info draw r.connection_info)
    ResourceRepository.update db (updated_resource req r info)
    pure (sanitize_resource (updated_resource req r info))

  unfoldable pub delete : ℕ → ℕ → Service U T R L Unit
  delete id current_user_id = do
    (current, r) ← load id current_user_id
    lift (ensure_resource_management_permission current)
    ResourceRepository.delete db id

  -- tenant 0 stands for every tenant
  unfoldable pub list_internal : String → ℕ → Service U T R L (List Resource)
  unfolding ResourceRepository.list ResourceRepository.list_by_tenant
  list_internal resource_type tenant_id = do
    found ← gets (
        if ltb 0 tenant_id
        then ResourceRepository.list_by_tenant db tenant_id (pos 0) (pos 9999) resource_type
        else ResourceRepository.list db (pos 0) (pos 9999) resource_type)
    rows ← lift (or_fail found database)
    pure (map (decrypt_resource crypto key) rows)

  unfoldable pub get_by_id_internal : ℕ → Service U T R L Resource
  unfolding ResourceRepository.get_by_id
  get_by_id_internal id = do
    found ← gets (ResourceRepository.get_by_id db id)
    r ← lift (or_fail found or_not_found)
    pure (decrypt_resource crypto key r)

  unfoldable pub get_for_connection : ℕ → ℕ → Service U T R L Resource
  get_for_connection id current_user_id = do
    (current, r) ← load id current_user_id
    lift (ensure_resource_management_permission current)
    pure (decrypt_resource crypto key r)
