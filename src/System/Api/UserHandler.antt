-- ===== src/System/Api/UserHandler.antt =====
-- system/backend/internal/api/user_handler.go. A body is `none` where ShouldBindJSON fails.
use addp.Common.{ℕ, Option, none, some, List}
use addp.System.Models.{User, UserCreateRequest, UserUpdateRequest}
use addp.System.Store.{Store, Database, Bcrypt}
use addp.System.Users
use addp.System.Api.{Strconv, Context, Answer, failure, default_query, get_uint, reply}

module _ {U T R L : Type 0} (db : Database U T R L) (bcrypt : Bcrypt) (conv : Strconv) where
  unfoldable pub create :
      Context → Option UserCreateRequest → ℕ → Store U T R L → Answer User × Store U T R L
  create c none salt s = (failure 400, s)
  create c (some req) salt s =
      reply 201 (λ e. 400) (Users.create db bcrypt req (get_uint c.user_id) salt s)

  unfoldable pub list : Context → Store U T R L → Answer (List User) × Store U T R L
  list c s =
      reply 200 (λ e. 500)
        (Users.list db bcrypt (conv.atoi (default_query (c.query "page") "1"))
          (conv.atoi (default_query (c.query "page_size") "10")) (get_uint c.user_id) s)

  unfoldable pub get_by_id : Context → Store U T R L → Answer User × Store U T R L
  get_by_id c s = elim (conv.parse_uint c.id) [
    | none ↦ (failure 400, s)
    | some id ↦ reply 200 (λ e. 403) (Users.get_by_id db bcrypt id (get_uint c.user_id) s)
  ]

  -- a body that binds, under an id that parses
  unfoldable pub update :
      Context → Option UserUpdateRequest → ℕ → Store U T R L → Answer User × Store U T R L
  update c body salt s = elim (conv.parse_uint c.id) [
    | none ↦ (failure 400, s)
    | some id ↦ elim body [
      | none ↦ (failure 400, s)
      | some req ↦ reply 200 (λ e. 400) (Users.update db bcrypt id req (get_uint c.user_id) salt s)
    ]
  ]

  unfoldable pub delete : Context → Store U T R L → Answer Unit × Store U T R L
  delete c s = elim (conv.parse_uint c.id) [
    | none ↦ (failure 400, s)
    | some id ↦ reply 200 (λ e. 400) (Users.delete db bcrypt id (get_uint c.user_id) s)
  ]

  unfoldable pub me : Context → Store U T R L → Answer User × Store U T R L
  me c s =
      reply 200 (λ e. 404) (Users.get_by_id db bcrypt (get_uint c.user_id) (get_uint c.user_id) s)
