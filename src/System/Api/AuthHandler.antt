-- ===== src/System/Api/AuthHandler.antt =====
-- system/backend/internal/api/auth_handler.go. A body is `none` where ShouldBindJSON fails.
use addp.Common.{ℕ, String, Option, none, some, not, if◌then◌else◌}
use addp.System.Models.{User, UserCreateRequest}
use addp.System.Store.{Store, Database, Bcrypt}
use addp.System.Users
use addp.System.Auth.{Jwt, Settings, LoginError, unauthorized, no_token_made, issue}
use addp.System.Api.{Answer, failure, reply}

-- the body of a login
pub record LoginRequest : Type 0 where
  pub username : String
  pub password : String

abbrev pub login_status : LoginError → ℕ
login_status (unauthorized e) = 401
login_status no_token_made = 500

module _ {U T R L : Type 0} (db : Database U T R L) (bcrypt : Bcrypt) (jwt : Jwt)
    (cfg : Settings) where
  -- the answer holds the token
  unfoldable pub login : Option LoginRequest → ℕ → Store U T R L → Answer String × Store U T R L
  unfolding issue
  login none now s = (failure 400, s)
  login (some req) now s =
      let (r, s') = Users.authenticate db bcrypt req.username req.password s in
      reply 200 login_status (issue db bcrypt jwt cfg now r, s')

  unfoldable pub register :
      Option UserCreateRequest → ℕ → Store U T R L → Answer User × Store U T R L
  register body salt s = if not cfg.allow_public_registration then (failure 403, s) else elim body [
    | none ↦ (failure 400, s)
    | some req ↦ reply 201 (λ e. 400) (Users.register db bcrypt req salt s)
  ]
