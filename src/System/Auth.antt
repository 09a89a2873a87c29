-- ===== src/System/Auth.antt =====
-- system/backend/internal/middleware/auth.go, pkg/utils/jwt.go, and the token of Login of
-- api/auth_handler.go. Signing and checking a token is the JWT library's part, a parameter.
pub mod Tokens
use addp.Common.{
  ℕ, ◌+◌, ◌*◌, ◌<◌, String, Bool, true, false, not, ◌||◌, Option, none, some, Result, ok, err, ◌≡◌,
  ◌==◌, str_eq, if◌then◌else◌,
}
use Prim.Native.Char.{code}
use Prim.Native.String
use addp.Common.Outcome.{pure, lift, gets, or_fail, ◌>>=◌, ◌>>◌}
use addp.System.Models.{User, UserCreateRequest}
use addp.System.Store.{Error, Store, Database, Service, Bcrypt}
use addp.System.Users.{authenticate, register}

-- Claims, with the times in seconds
pub record Claims : Type 0 where
  pub user_id : ℕ
  pub username : String
  pub expires_at : ℕ
  pub issued_at : ℕ

-- The JWT library: SignedString, and ParseWithClaims at a time of the clock, `none` for an error
-- or a token that is not valid.
pub record Jwt : Type 0 where
  pub sign : Claims → String → Option String
  pub parse : String → String → ℕ → Option Claims

pub record IsJwt (j : Jwt) : Type 0 where
  -- a signed token is accepted under its secret until it expires
  pub parse-sign :
      (c : Claims) (secret token : String) (now : ℕ)
      → j.sign c secret ≡ some token
      → now < c.expires_at
      → j.parse token secret now ≡ some c
  -- an accepted token has not expired
  pub unexpired :
      (c : Claims) (secret token : String) (now : ℕ)
      → j.parse token secret now ≡ some c
      → now < c.expires_at

-- utils.GenerateToken
unfoldable pub generate_token : Jwt → ℕ → String → String → ℕ → ℕ → Option String
generate_token jwt user_id username secret expire_minutes now =
    jwt.sign
      (record {
        user_id = user_id;
        username = username;
        expires_at = now + expire_minutes * 60;
        issued_at = now;
      })
      secret

-- utils.ParseToken
unfoldable pub parse_token : Jwt → String → String → ℕ → Option Claims
parse_token jwt token secret now = jwt.parse token secret now

-- strings.SplitN(s, " ", 2), `none` where there is one part only
unfoldable pub split_space : String → Option (String × String)
split_space String.[] = none
split_space (String.◌∷◌ c s) =
    let rest = split_space s in
    if code c == b' '
    then some (String.[], s)
    else elim rest [ none ↦ none | some (a, b) ↦ some (String.◌∷◌ c a, b) ]

-- the 401 answers of the two middlewares
pub data Denied : Type 0 where
  no_token bad_format bad_token : Denied
  key_not_configured bad_key : Denied

-- AuthMiddleware: the claims that it sets in the context, or the answer it aborts with
unfoldable pub authorize : Jwt → String → ℕ → String → Result Denied Claims
unfolding split_space parse_token
authorize jwt secret now header =
    if str_eq header "" then err no_token else elim (split_space header) [
      | none ↦ err bad_format
      | some (scheme, token) ↦
          if not (str_eq scheme "Bearer")
          then err bad_format
          else elim (parse_token jwt token secret now) [ none ↦ err bad_token | some c ↦ ok c ]
    ]

-- InternalAPIMiddleware
unfoldable pub authorize_internal : String → String → Result Denied Unit
authorize_internal expected_key api_key =
    if str_eq expected_key ""
    then err key_not_configured
    else if not (str_eq api_key expected_key)
    then err bad_key
    else ok tt

-- what Login answers with an error
pub data LoginError : Type 0 where
  unauthorized : Error → LoginError
  no_token_made : LoginError

-- the settings of the handlers
pub record Settings : Type 0 where
  pub jwt_secret : String
  pub token_expire_minutes : ℕ
  pub allow_public_registration : Bool

module _ {U T R L : Type 0} (db : Database U T R L) (bcrypt : Bcrypt) (jwt : Jwt)
    (cfg : Settings) where
  -- the token of a user who was authenticated
  unfoldable pub issue : ℕ → Result Error User → Result LoginError String
  unfolding generate_token
  issue now (err e) = err (unauthorized e)
  issue now (ok u) =
      elim (generate_token jwt u.id u.username cfg.jwt_secret cfg.token_expire_minutes now) [
        | none ↦ err no_token_made
        | some token ↦ ok token
      ]

  unfoldable pub login : ℕ → String → String → Store U T R L → Result LoginError String
  unfolding issue
  login now username password s = issue now (authenticate db bcrypt username password s).0
