-- ===== src/System/Tenants/Inversion.antt =====
-- The steps of a method of tenant_service.go that succeeds.
use addp.Common.{ℕ, String, ap, ◌∙◌, ◌≡◌, some, ok, arith, inl, inr, true, false}
use addp.Common.Outcome.{Result-cases}
use addp.Db.{drop_if}
use addp.Db.Effects.{
  IsInserted, IsSaved, IsDeleted, create-IsInserted, save-IsSaved, delete-IsDeleted,
}
use addp.System.Models.{
  super_admin, tenant_admin, User, Tenant, TenantCreateRequest, TenantUpdateRequest,
}
use addp.System.Store.{Store, Database, IsDatabase, Bcrypt}
use addp.System.UserRepository.{in_tenant}
use addp.System.Tenants.{
  create, create_body, update, delete, delete_body, new_tenant, new_admin, updated_tenant,
}

module _ {U T R L : Type 0} (db : Database U T R L) (bcrypt : Bcrypt) (laws : IsDatabase db)
    (s s' : Store U T R L) where
  -- Every method has read a super administrator first.
  abbrev pub Superadmin : ℕ → Type 0
  Superadmin id =
      (actor : User) × (db.users.first s.users id ≡ ok actor) × (actor.user_type ≡ super_admin)

  -- the rows that the closure of Create inserts
  pub record Created (req : TenantCreateRequest) (t : Tenant) : Type 0 where
    pub admin : User
    pub hash : String
    pub tenant_in : IsInserted db.tenants (λ x. x.id) s.tenants t s'.tenants
    pub hashed : (salt : ℕ) × (bcrypt.generate salt req.admin_password ≡ ok hash)
    pub admin_in : IsInserted db.users (λ v. v.id) s.users admin s'.users
    pub tenant_row :
        t ≡ record { id = t.id; name = req.name; description = req.description; is_active = true }
    pub admin_row : admin ≡ record {
      id = admin.id;
      username = req.admin_username;
      email = req.admin_email;
      password_hash = hash;
      full_name = req.admin_full_name;
      is_active = true;
      user_type = tenant_admin;
      tenant_id = some t.id;
      is_superuser = false;
    }
    pub resources : s'.resources ≡ s.resources
    pub logs : s'.logs ≡ s.logs

  create_body_inv :
      (req : TenantCreateRequest) (salt : ℕ) (t : Tenant)
      → create_body db bcrypt req salt s ≡ (ok t, s')
      → Created req t
  unfolding create_body
  create_body_inv req salt t h =
      elim (Result-cases (db.tenants.create s.tenants (new_tenant req))) [
        | inl (e, bad) ↦ absurd (ground arith)
        | inr ((row, ts), made) ↦ elim (Result-cases (bcrypt.generate salt req.admin_password)) [
          | inl (e, bad) ↦ absurd (ground arith)
          | inr (hash, hashed) ↦
              elim (Result-cases (db.users.create s.users (new_admin req row.id hash))) [
                | inl (e, bad) ↦ absurd (ground arith)
                | inr ((admin, us), made') ↦
                    let same : row ≡ t = ground arith in
                    let tenants : ts ≡ s'.tenants = ground arith in
                    let users : us ≡ s'.users = ground arith in
                    record {
                      admin = admin;
                      hash = hash;
                      hashed = (salt, hashed);
                      tenant_in =
                          create-IsInserted db.tenants (λ x. x.id) laws.tenants s.tenants
                            (new_tenant req) t s'.tenants (ground arith);
                      admin_in =
                          create-IsInserted db.users (λ v. v.id) laws.users s.users
                            (new_admin req row.id hash) admin s'.users (ground arith);
                      tenant_row =
                          (laws.tenants.create_row s.tenants (new_tenant req) t s'.tenants
                            (ground arith)).1;
                      admin_row = ground (
                        arith,
                        laws.users.create_row s.users (new_admin req row.id hash) admin us made',
                      );
                      resources = ground arith;
                      logs = ground arith;
                    }
              ]
        ]
      ]

  -- A Create of a tenant that returns no error was asked for by a super administrator and has
  -- inserted exactly two rows, under fresh keys: an active tenant with the request's name and
  -- description, and an active user of that tenant, a tenant administrator whose is_superuser flag
  -- is off, with the request's user name, e-mail and full name and a hash of its password;
  -- resources and logs are as they were. The database meets its laws `IsDatabase`.
  pub create_tenant_inv :
      (req : TenantCreateRequest) (current_id salt : ℕ) (t : Tenant)
      → create db bcrypt req current_id salt s ≡ (ok t, s')
      → Superadmin current_id × Created req t
  unfolding create
  create_tenant_inv req current_id salt t h =
      elim (Result-cases (db.users.first s.users current_id)) [
        | inl (e, bad) ↦ absurd (ground arith)
        | inr (actor, found) ↦ (
          (actor, found, ground arith),
          create_body_inv req salt t
              (laws.transaction_ok Tenant (create_body db bcrypt req salt) s s' t (ground arith)),
        )
      ]

  pub update_inv :
      (id : ℕ) (req : TenantUpdateRequest) (current_id : ℕ) (t : Tenant)
      → update db bcrypt id req current_id s ≡ (ok t, s')
      → Superadmin current_id
        × ((old : Tenant) × (t ≡ updated_tenant req old)
            × IsSaved db.tenants (λ x. x.id) s.tenants old t s'.tenants)
        × (s' ≡ record s { tenants = s'.tenants })
  unfolding update
  update_inv id req current_id t h = elim (Result-cases (db.users.first s.users current_id)) [
    | inl (e, bad) ↦ absurd (ground arith)
    | inr (actor, found) ↦ elim (Result-cases (db.tenants.first s.tenants id)) [
      | inl (e, bad) ↦ absurd (ground arith)
      | inr (old, there) ↦
          let at = laws.tenants.first_ok s.tenants id old there in
          let own = laws.tenants.at_key s.tenants id old at in
          (
            (actor, found, ground arith),
            (
              old,
              ground arith,
              save-IsSaved db.tenants (λ x. x.id) laws.tenants s.tenants old t s'.tenants
                  (ground arith) (ap (db.tenants.at s.tenants) own ∙ at) (ground arith),
            ),
            ground arith,
          )
    ]
  ]

  -- the rows that the closure of Delete removes
  pub record Removed (old : Tenant) : Type 0 where
    pub tenant_out : IsDeleted db.tenants (λ x. x.id) s.tenants old s'.tenants
    pub members_out :
        (j : ℕ)
        → db.users.at s'.users j
          ≡ drop_if (λ u. in_tenant old.id u.tenant_id) (db.users.at s.users j)
    pub resources : s'.resources ≡ s.resources
    pub logs : s'.logs ≡ s.logs

  delete_body_inv :
      (old : Tenant)
      → db.tenants.at s.tenants old.id ≡ some old
      → delete_body db bcrypt old.id s ≡ (ok tt, s')
      → Removed old
  unfolding delete_body
  delete_body_inv old was h =
      elim (Result-cases (db.users.delete_where s.users (λ u. in_tenant old.id u.tenant_id))) [
        | inl (e, bad) ↦ absurd (ground arith)
        | inr (us, gone) ↦ elim (Result-cases (db.tenants.delete s.tenants old.id)) [
          | inl (e, bad) ↦ absurd (ground arith)
          | inr (ts, out) ↦
              let users : us ≡ s'.users = ground arith in
              record {
                tenant_out =
                    delete-IsDeleted db.tenants (λ x. x.id) laws.tenants s.tenants old s'.tenants
                      was (ground arith);
                members_out =
                    laws.users.delete_where_at s.users (λ u. in_tenant old.id u.tenant_id) s'.users
                      (rw (← users) gone);
                resources = ground arith;
                logs = ground arith;
              }
        ]
      ]

  -- A Delete of a tenant that returns no error was asked for by a super administrator, and has
  -- removed the row of that tenant and all of its users; every other user and tenant, and the
  -- resources and logs, are as they were.
  -- The database meets its laws `IsDatabase`.
  pub delete_tenant_inv :
      (id current_id : ℕ)
      → delete db bcrypt id current_id s ≡ (ok tt, s')
      → Superadmin current_id × ((old : Tenant) × (old.id ≡ id) × Removed old)
  unfolding delete
  delete_tenant_inv id current_id h = elim (Result-cases (db.users.first s.users current_id)) [
    | inl (e, bad) ↦ absurd (ground arith)
    | inr (actor, found) ↦ elim (Result-cases (db.tenants.first s.tenants id)) [
      | inl (e, bad) ↦ absurd (ground arith)
      | inr (old, there) ↦
          let at = laws.tenants.first_ok s.tenants id old there in
          let own = laws.tenants.at_key s.tenants id old at in
          let closed : db.transaction Unit (delete_body db bcrypt id) s ≡ (ok tt, s') =
            ground arith in
          let done = laws.transaction_ok Unit (delete_body db bcrypt id) s s' tt closed in
          (
            (actor, found, ground arith),
            (
              old,
              own,
              delete_body_inv old (ap (db.tenants.at s.tenants) own ∙ at)
                  (ap (λ k. delete_body db bcrypt k s) own ∙ done),
            ),
          )
    ]
  ]
