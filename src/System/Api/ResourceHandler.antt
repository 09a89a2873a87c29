-- ===== src/System/Api/ResourceHandler.antt =====
-- system/backend/internal/api/resource_handler.go. TestConnection of storage_engine_service.go
-- opens the connection, and is a parameter: whether it succeeds for a type and its parameters.
use addp.Common.{ℕ, String, Bool, Option, none, some, List, Result, ok, err, if◌then◌else◌, str_eq}
use addp.Cipher.{Crypto}
use addp.System.Models.{Resource, ResourceCreateRequest, ResourceUpdateRequest, ConnectionInfo}
use addp.System.Store.{Error, resource_not_found, resource_forbidden, Store, Database}
use addp.System.Resources
use addp.System.Api.{Strconv, Context, Answer, success, failure, default_query, get_uint, reply}

-- respondWithResourceError
unfoldable pub error_status : Error → ℕ
error_status resource_not_found = 404
error_status resource_forbidden = 403
error_status _ = 400

-- the tenant that the internal list is narrowed to, 0 for all of them
unfoldable pub asked_tenant : Strconv → String → ℕ
asked_tenant conv text = if str_eq text "" then 0 else get_uint (conv.parse_uint text)

module _ {U T R L : Type 0} (db : Database U T R L) {Byte : Type 0} (crypto : Crypto Byte)
    (key : List Byte) (conv : Strconv) where
  unfoldable pub create :
      Context → Option ResourceCreateRequest → ℕ → Store U T R L → Answer Resource × Store U T R L
  unfolding error_status
  create c none draw s = (failure 400, s)
  create c (some req) draw s =
      reply 201 error_status (Resources.create db crypto key req (get_uint c.user_id) draw s)

  unfoldable pub list : Context → Store U T R L → Answer (List Resource) × Store U T R L
  list c s = elim c.user_id [
    | none ↦ (failure 401, s)
    | some who ↦
        reply 200 (λ e. 500)
          (Resources.list db crypto key (conv.atoi (default_query (c.query "page") "1"))
            (conv.atoi (default_query (c.query "page_size") "10"))
            (default_query (c.query "resource_type") "") who s)
  ]

  -- the guards that four handlers share: the id must parse, and a user must be set
  unfoldable pub guarded :
      {A : Type 0}
      → Context
      → (ℕ → ℕ → Store U T R L → Answer A × Store U T R L)
      → Store U T R L
      → Answer A × Store U T R L
  guarded c go s = elim (conv.parse_uint c.id) [
    | none ↦ (failure 400, s)
    | some id ↦ elim c.user_id [ none ↦ (failure 401, s) | some who ↦ go id who s ]
  ]

  unfoldable pub get_by_id : Context → Store U T R L → Answer Resource × Store U T R L
  unfolding guarded error_status
  get_by_id c =
      guarded c (λ id who s. reply 200 error_status (Resources.get_by_id db crypto key id who s))

  -- the body is bound between the two guards
  unfoldable pub update :
      Context → Option ResourceUpdateRequest → ℕ → Store U T R L → Answer Resource × Store U T R L
  unfolding error_status
  update c body draw s = elim (conv.parse_uint c.id) [
    | none ↦ (failure 400, s)
    | some id ↦ elim body [
      | none ↦ (failure 400, s)
      | some req ↦ elim c.user_id [
        | none ↦ (failure 401, s)
        | some who ↦ reply 200 error_status (Resources.update db crypto key id req who draw s)
      ]
    ]
  ]

  unfoldable pub delete : Context → Store U T R L → Answer Unit × Store U T R L
  unfolding guarded error_status
  delete c =
      guarded c (λ id who s. reply 200 error_status (Resources.delete db crypto key id who s))

  -- the outcome of a connection test on what GetForConnection returned: 200 either way
  unfoldable pub tested :
      (String → ConnectionInfo → Bool)
      → Result Error Resource × Store U T R L
      → Answer Bool × Store U T R L
  unfolding error_status
  tested connects (ok r, s) = (success 200 (connects r.resource_type r.connection_info), s)
  tested connects (err e, s) = (failure (error_status e), s)

  unfoldable pub test_connection :
      (String → ConnectionInfo → Bool) → Context → Store U T R L → Answer Bool × Store U T R L
  unfolding guarded tested
  test_connection connects c =
      guarded c (λ id who s. tested connects (Resources.get_for_connection db crypto key id who s))

  unfoldable pub test_before_create :
      (String → ConnectionInfo → Bool) → Option ResourceCreateRequest → Answer Bool
  test_before_create connects none = failure 400
  test_before_create connects (some req) =
      success 200 (connects req.resource_type req.connection_info)

  unfoldable pub list_internal : Context → Store U T R L → Answer (List Resource) × Store U T R L
  unfolding asked_tenant
  list_internal c s =
      reply 200 (λ e. 500)
        (Resources.list_internal db crypto key (default_query (c.query "resource_type") "")
          (asked_tenant conv (default_query (c.query "tenant_id") "")) s)

  unfoldable pub get_by_id_internal : Context → Store U T R L → Answer Resource × Store U T R L
  get_by_id_internal c s = elim (conv.parse_uint c.id) [
    | none ↦ (failure 400, s)
    | some id ↦ reply 200 (λ e. 404) (Resources.get_by_id_internal db crypto key id s)
  ]
