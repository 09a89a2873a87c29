-- ===== src/System/Resources/Access.antt =====
-- Which resources a user reaches, and what of them is shown.
use addp.Common.{
  ℕ, String, Bool, true, none, some, List, [], ◌∷◌, map, ok, err, ◌≡◌, ◌≢◌, if◌then◌else◌, ◌||◌,
  ◌&&◌, arith, inl, inr, All, All-imp, Bool-cases, Option-cases, ap, sym, ◌∙◌,
}
use mathlib.Core.Path.{subst}
use addp.Common.Int.{ℤ}
use addp.Common.Dict.{lookup}
use addp.Common.Outcome.{Result-cases, Exec-cases}
use addp.Cipher.{Crypto, IsCrypto}
use addp.System.Models.{
  is_super_admin, is_tenant_admin, User, Resource, ResourceCreateRequest, same_tenant,
  resource_with_id, tenant_admin, ConnectionInfo,
}
use addp.System.Store.{resource_forbidden, Store, Database, IsDatabase}
use addp.System.UserRepository.{in_tenant}
use addp.System.Users.{page_offset}
use addp.System.ResourceRepository
use addp.System.ResourceRepository.{of_type}
use addp.System.Resources.{
  create, get_by_id, get_for_connection, list, rows_for, load, authorize_resource_access,
  ensure_resource_management_permission, sanitize_resource, decrypt_resource, new_resource,
  encrypt_sensitive_fields, decrypt_sensitive_fields,
}
use addp.System.Resources.Secrets.{decrypt-encrypt_fields}
use addp.System.Resources.Views.{
  IsMasked, sanitize_resource-IsMasked, IsOpened, decrypt_resource-IsOpened,
}

-- Who may reach a resource, and who may manage it.
abbrev pub may_reach : User → Resource → Bool
may_reach me r = is_super_admin me.user_type || same_tenant me.tenant_id r.tenant_id

abbrev pub may_manage : User → Resource → Bool
may_manage me r = may_reach me r && (is_super_admin me.user_type || is_tenant_admin me.user_type)

module _ {U T R L : Type 0} (db : Database U T R L) {Byte : Type 0} (crypto : Crypto Byte)
    (key : List Byte) where
  module _ (s : Store U T R L) (id who : ℕ) (me : User) (r : Resource)
      (asking : db.users.first s.users who ≡ ok me)
      (found : db.resources.first s.resources id ≡ ok r) where
    -- For a resource and a caller that the database finds, GetByID returns the resource with six
    -- stars for each value other than null under the names password, access_key, secret_key, token
    -- and api_key, and all else as it is stored, if the caller is a super administrator or of the
    -- resource's tenant, and otherwise refuses; the database stays as it was.
    pub get_resource_lem :
        (shown : Resource) × IsMasked r shown
        × (get_by_id db crypto key id who s
            ≡ ((if may_reach me r then ok shown else err resource_forbidden), s))
    unfolding get_by_id load authorize_resource_access
    get_resource_lem = (sanitize_resource r, sanitize_resource-IsMasked r, ground arith)

    get_for_connection_run : get_for_connection db crypto key id who s ≡ (
      (if may_manage me r then ok (decrypt_resource crypto key r) else err resource_forbidden),
      s,
    )
    unfolding get_for_connection load authorize_resource_access
        ensure_resource_management_permission
    get_for_connection_run = ground arith

    -- For a resource and a caller that the database finds, GetForConnection returns the resource
    -- with the decrypted text in place of each text under the names password, access_key,
    -- secret_key, token and api_key that is not empty and decrypts, and all else as it is stored,
    -- if the caller is a super administrator, or a tenant administrator of the resource's tenant,
    -- and otherwise refuses; the database stays as it was.
    pub get_for_connection_lem :
        (got : Resource) × IsOpened crypto key r got
        × (get_for_connection db crypto key id who s
            ≡ ((if may_manage me r then ok got else err resource_forbidden), s))
    get_for_connection_lem = (
      decrypt_resource crypto key r,
      decrypt_resource-IsOpened crypto key r,
      get_for_connection_run,
    )

  -- a row that stands behind a listed resource
  pub record IsShown (s : Store U T R L) (me : User) (shown : Resource) : Type 0 where
    pub row : Resource
    pub stored : db.resources.at s.resources row.id ≡ some row
    pub masked : IsMasked row shown
    pub reachable : may_reach me row ≡ true

  module _ (s : Store U T R L) (me : User) where
    -- the rows that List reads are those that the caller may reach
    rows_for_sound :
        (laws : IsDatabase db) (o l : ℤ) (kind : String) (rows : List Resource) (s' : Store U T R L)
        → rows_for db crypto key me o l kind s ≡ (ok rows, s')
        → All (λ r. (db.resources.at s.resources r.id ≡ some r) × (may_reach me r ≡ true)) rows
          × (s' ≡ s)
    unfolding rows_for
    rows_for_sound laws o l kind rows s' h = elim (Bool-cases (is_super_admin me.user_type)) [
      | inl root ↦ (
        All-imp _ (λ r. (db.resources.at s.resources r.id ≡ some r) × (may_reach me r ≡ true))
            (λ r p. (p.0, ground arith)) rows
            (laws.resources.find_ok s.resources (of_type kind) o l rows (ground arith)),
        ground arith,
      )
      | inr other ↦ elim (Option-cases me.tenant_id) [
        | inl no_tenant ↦ absurd (ground arith)
        | inr (t, mine) ↦ (
          All-imp
              (λ r.
                (db.resources.at s.resources r.id ≡ some r)
                × ((in_tenant t r.tenant_id && of_type kind r) ≡ true))
              (λ r. (db.resources.at s.resources r.id ≡ some r) × (may_reach me r ≡ true))
              (λ r p. (p.0, ground (arith, p.1))) rows
              (laws.resources.find_ok s.resources (λ r. in_tenant t r.tenant_id && of_type kind r) o
                l rows (ground arith)),
          ground arith,
        )
      ]
    ]

    IsShown-rows :
        (rows : List Resource)
        → All (λ r. (db.resources.at s.resources r.id ≡ some r) × (may_reach me r ≡ true)) rows
        → All (IsShown s me) (map sanitize_resource rows)
    IsShown-rows [] h = tt
    IsShown-rows (r ∷ rows) ((stored, reach), h) = (
      record { row = r; stored = stored; masked = sanitize_resource-IsMasked r; reachable = reach },
      IsShown-rows rows h,
    )

    -- A list that ResourceService.List returns holds copies of stored resources that the caller
    -- may reach and no others, each with six stars for each value other than null under the names
    -- password, access_key, secret_key, token and api_key, and all else as it is stored; the
    -- database stays as it was. The database meets its laws `IsDatabase`.
    pub list_resources_sound :
        (laws : IsDatabase db) (page size : ℤ) (kind : String) (who : ℕ) (shown : List Resource)
        (s' : Store U T R L)
        → db.users.first s.users who ≡ ok me
        → list db crypto key page size kind who s ≡ (ok shown, s')
        → All (IsShown s me) shown × (s' ≡ s)
    unfolding list
    list_resources_sound laws page size kind who shown s' asking h =
        elim (Exec-cases (rows_for db crypto key me (page_offset page size) size kind s)) [
          | inl (e, t, bad) ↦ absurd (ground arith)
          | inr (rows, t, read) ↦
              let (sound, same) =
                rows_for_sound laws (page_offset page size) size kind rows t read in
              let these : shown ≡ map sanitize_resource rows = ground arith in
              (subst (All (IsShown s me)) (sym these) (IsShown-rows rows sound), ground arith)
        ]

  -- the steps of a successful Create
  pub create_inv :
      (laws : IsDatabase db) (req : ResourceCreateRequest) (who draw : ℕ) (me : User)
      (shown : Resource) (s s' : Store U T R L)
      → create db crypto key req who draw s ≡ (ok shown, s')
      → db.users.first s.users who ≡ ok me
      → (out : ConnectionInfo) × (row : Resource) × (encrypt_sensitive_fields crypto key
            req.connection_info draw
          ≡ ok out)
        × (row ≡ resource_with_id row.id (new_resource req me who out))
        × (db.resources.at s'.resources row.id ≡ some row)
        × (shown ≡ sanitize_resource row)
        × ((is_super_admin me.user_type || is_tenant_admin me.user_type) ≡ true)
  unfolding create ensure_resource_management_permission ResourceRepository.create
  create_inv laws req who draw me shown s s' h asking =
      elim (Result-cases (encrypt_sensitive_fields crypto key req.connection_info draw)) [
        | inl (e, bad) ↦ absurd (ground arith)
        | inr (out, hidden) ↦
            elim (Result-cases (db.resources.create s.resources (new_resource req me who out))) [
              | inl (e, bad) ↦ absurd (ground arith)
              | inr ((row, rs), made) ↦ (
                out,
                row,
                hidden,
                (laws.resources.create_row s.resources (new_resource req me who out) row rs made).1,
                ground (
                  arith,
                  laws.resources.create_at s.resources (new_resource req me who out) row rs made
                      row.id,
                ),
                ground arith,
                ground arith,
              )
            ]
      ]

  -- A connection whose resource was created is tested with the very values of the request: after
  -- Create, GetForConnection by the creator returns the new resource with the request's
  -- connection info, as soon as the database finds both rows.
  -- The database and the cipher meet their laws.
  pub get_for_connection-create :
      (laws : IsDatabase db) (cipher : IsCrypto crypto) (req : ResourceCreateRequest) (who draw : ℕ)
      (me : User) (shown row : Resource) (s s' : Store U T R L)
      → create db crypto key req who draw s ≡ (ok shown, s')
      → db.users.first s.users who ≡ ok me
      → db.users.first s'.users who ≡ ok me
      → (me.user_type ≡ tenant_admin → me.tenant_id ≢ none)
      → db.resources.first s'.resources shown.id ≡ ok row
      → (got : Resource) × (get_for_connection db crypto key shown.id who s' ≡ (ok got, s'))
        × ((k : String) → lookup k got.connection_info ≡ lookup k req.connection_info)
        × (got.tenant_id ≡ me.tenant_id)
  unfolding sanitize_resource decrypt_resource
  get_for_connection-create laws cipher req who draw me shown row s s' done asking asking' sound
        found =
      let (out, new, hidden, built, there, masked, manages) =
        create_inv laws req who draw me shown s s' done asking in
      let own : shown.id ≡ new.id = ap (λ (r : Resource). r.id) masked in
      let at : db.resources.at s'.resources new.id ≡ some row =
        ap (db.resources.at s'.resources) (sym own)
        ∙ laws.resources.first_ok s'.resources shown.id row found in
      let same : row ≡ new = ground (arith, at, there) in
      (
        decrypt_resource crypto key row,
        get_for_connection_run s' shown.id who me row asking' found ∙ ground arith,
        λ k.
            ap
              (λ (r : Resource). lookup k (decrypt_sensitive_fields crypto key (r.connection_info)))
              same
            ∙ ap
                (λ (r : Resource). lookup k (decrypt_sensitive_fields crypto key r.connection_info))
                built
            ∙ decrypt-encrypt_fields crypto key cipher req.connection_info out draw hidden k,
        ap (λ (r : Resource). r.tenant_id) (same ∙ built),
      )
