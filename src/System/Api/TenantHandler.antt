-- ===== src/System/Api/TenantHandler.antt =====
-- system/backend/internal/api/tenant_handler.go. A body is `none` where ShouldBindJSON fails.
use addp.Common.{ℕ, Option, none, some, List}
use addp.System.Models.{Tenant, TenantCreateRequest, TenantUpdateRequest}
use addp.System.Store.{Store, Database, Bcrypt}
use addp.System.Tenants
use addp.System.Api.{Strconv, Context, Answer, failure, default_query, get_uint, reply}

module _ {U T R L : Type 0} (db : Database U T R L) (bcrypt : Bcrypt) (conv : Strconv) where
  unfoldable pub create :
      Context → Option TenantCreateRequest → ℕ → Store U T R L → Answer Tenant × Store U T R L
  create c none salt s = (failure 400, s)
  create c (some req) salt s =
      reply 201 (λ e. 400) (Tenants.create db bcrypt req (get_uint c.user_id) salt s)

  unfoldable pub list : Context → Store U T R L → Answer (List Tenant) × Store U T R L
  list c s =
      reply 200 (λ e. 403)
        (Tenants.list db bcrypt (conv.atoi (default_query (c.query "page") "1"))
          (conv.atoi (default_query (c.query "page_size") "10")) (get_uint c.user_id) s)

  unfoldable pub get_by_id : Context → Store U T R L → Answer Tenant × Store U T R L
  get_by_id c s = elim (conv.parse_uint c.id) [
    | none ↦ (failure 400, s)
    | some id ↦ reply 200 (λ e. 403) (Tenants.get_by_id db bcrypt id (get_uint c.user_id) s)
  ]

  -- a body that binds, under an id that parses
  unfoldable pub update :
      Context → Option TenantUpdateRequest → Store U T R L → Answer Tenant × Store U T R L
  update c body s = elim (conv.parse_uint c.id) [
    | none ↦ (failure 400, s)
    | some id ↦ elim body [
      | none ↦ (failure 400, s)
      | some req ↦ reply 200 (λ e. 400) (Tenants.update db bcrypt id req (get_uint c.user_id) s)
    ]
  ]

  unfoldable pub delete : Context → Store U T R L → Answer Unit × Store U T R L
  delete c s = elim (conv.parse_uint c.id) [
    | none ↦ (failure 400, s)
    | some id ↦ reply 200 (λ e. 400) (Tenants.delete db bcrypt id (get_uint c.user_id) s)
  ]
