-- ===== src/System/Api.antt =====
-- system/backend/internal/api: what the handlers read of a request and what they answer. Gin and
-- strconv are not part of the repository: what they give for a request is in `Context`.
pub mod AuthHandler
pub mod UserHandler
pub mod TenantHandler
pub mod ResourceHandler
pub mod LogHandler
pub mod Dispatch
use addp.Common.{ℕ, String, Option, none, some, Result, ok, err}
use addp.Common.Int.{ℤ}

-- strconv.ParseUint(s, 10, 32), `none` for an error, and the number that strconv.Atoi returns,
-- whose error the handlers ignore.
pub record Strconv : Type 0 where
  pub parse_uint : String → Option ℕ
  pub atoi : String → ℤ

-- c.Param("id"), c.Query, and the "user_id" that AuthMiddleware has set
pub record Context : Type 0 where
  pub id : String
  pub query : String → Option String
  pub user_id : Option ℕ

-- c.JSON: a status of a success with its body, or of an error
pub data Answer (A : Type 0) : Type 0 where
  success : ℕ → A → Answer A
  failure : ℕ → Answer A

-- c.DefaultQuery, and c.Query, where a missing key is the empty text
abbrev pub default_query : Option String → String → String
default_query none d = d
default_query (some s) d = s

-- c.GetUint("user_id")
abbrev pub get_uint : Option ℕ → ℕ
get_uint none = 0
get_uint (some n) = n

-- what a handler makes of its service's result: a status for a success, one for each error
abbrev pub answer : {E A : Type 0} → ℕ → (E → ℕ) → Result E A → Answer A
answer status status_of (ok a) = success status a
answer status status_of (err e) = failure (status_of e)

abbrev pub reply : {S E A : Type 0} → ℕ → (E → ℕ) → Result E A × S → Answer A × S
reply status status_of (r, s) = (answer status status_of r, s)
