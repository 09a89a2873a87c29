-- ===== src/System/Examples/Sessions.antt =====
-- The theorems on tokens, the audit log, the handlers and the start, at the sample rows.
use addp.Common.{
  ℕ, String, true, false, none, some, [], ◌∷◌, ok, All, ◌≡◌, ◌≢◌, ◌↔◌, refl, arith, str_eq, ◌==◌,
  ==_iff, ◌&&◌, if◌then◌else◌, eq_iff, ltb,
}
use Prim.Native.String.{◌++◌}
use addp.Common.Int.{pos, wrap_64, ◌*ℤ◌, ◌-ℤ◌}
use addp.Db.Model.{memory}
use addp.System.Models.{User, AuditLog}
use addp.System.Users
use addp.System.Users.{page_offset, authenticate}
use addp.System.Auth.{Claims, Jwt, IsJwt, authorize, authorize_internal, Settings, login}
use addp.System.Auth.Tokens.{bearer, authorize_iff, authorize-login, authorize_internal_iff}
use addp.System.Logs.{Logged, list, log_request}
use addp.System.Logs.Visible.{IsShown, list_logs_sound, log_request_lem}
use addp.System.Api.{Strconv, Context}
use addp.System.Api.UserHandler
use addp.System.Access.Root.{HasRoot}
use addp.System.Bootstrap.{init_super_admin}
use addp.System.Bootstrap.Root.{init_super_admin-HasRoot}
use addp.System.Samples.{ram, ram-IsDatabase, plain_bcrypt, State, sample, ann}
use addp.System.Examples.{sample-IsConsistent}

-- a library that signs one token only, for ann until the time 3600
abbrev ann_claims : Claims
ann_claims = record { user_id = 2; username = "ann"; expires_at = 3600; issued_at = 0 }

abbrev settings : Settings
settings = record { jwt_secret = "s"; token_expire_minutes = 60; allow_public_registration = false }

abbrev one_token : Jwt
one_token = record {
  sign = λ c secret.
      if c.user_id == 2 && str_eq c.username "ann" && c.expires_at == 3600 && c.issued_at == 0
      then some "t"
      else none;
  parse = λ token secret now. if ltb now 3600 && str_eq token "t" then some ann_claims else none;
}

only_ann :
    (c : Claims)
    → (c.user_id == 2 && str_eq c.username "ann" && c.expires_at == 3600 && c.issued_at == 0) ≡ true
    → ann_claims ≡ c
only_ann c h = ground (
  arith,
  ==_iff c.user_id 2,
  eq_iff c.username "ann",
  ==_iff c.expires_at 3600,
  ==_iff c.issued_at 0,
)

one_token-IsJwt : IsJwt one_token
one_token-IsJwt = record {
  parse-sign = λ c secret token now h soon.
      let same = only_ann c (ground arith) in ground (arith, same, eq_iff token "t");
  unexpired = λ c secret token now h. ground arith;
}

authorize_iff_example : (authorize one_token "s" 10 (bearer "t") ≡ ok ann_claims) ↔ (
    (token : String) × (bearer "t" ≡ bearer token)
    × (one_token.parse token "s" 10 ≡ some ann_claims))
authorize_iff_example = authorize_iff one_token "s" 10 (bearer "t") ann_claims

logged_in : login ram plain_bcrypt one_token settings 0 "ann" "secret1" sample ≡ ok "t"
unfolding login authenticate memory
logged_in = refl

authorize-login_example :
    (u : User) × (c : Claims) × ((authenticate ram plain_bcrypt "ann" "secret1" sample).0 ≡ ok u)
    × (authorize one_token "s" 10 (bearer "t") ≡ ok c)
    × (c.user_id ≡ u.id)
    × (c.username ≡ u.username)
authorize-login_example =
    authorize-login ram plain_bcrypt one_token settings one_token-IsJwt 0 10 "ann" "secret1" "t"
      sample logged_in (ground arith)

abbrev api_key : String
api_key = "k"

authorize_internal_iff_example :
    (authorize_internal api_key api_key ≡ ok tt) ↔ ((api_key ≢ "") × (api_key ≡ api_key))
authorize_internal_iff_example = authorize_internal_iff api_key api_key

abbrev change : Logged
change = record {
  method = "PUT";
  path = "/api/users/3";
  client_ip = "10.0.0.1";
  user_id = some 2;
  username = some "ann";
}

abbrev noted : State
noted = log_request ram change sample

abbrev entry : AuditLog
entry = record {
  id = 1;
  user_id = some 2;
  username = "ann";
  tenant_id = some 1;
  action = "PUT /api/users/3";
  resource_type = "";
  resource_id = "";
  details = "";
  ip_address = "10.0.0.1";
}

written : ram.logs.at noted.logs 1 ≡ some entry
unfolding log_request memory
written = refl

fresh : ram.logs.at sample.logs 1 ≢ some entry
unfolding memory
fresh = λ e. ground arith

log_request_lem_example :
    (change.method ≢ "GET")
    × (entry.user_id ≡ change.user_id)
    × (entry.action ≡ change.method ++ " " ++ change.path)
    × ((u : ℕ) (me : User)
        → change.user_id ≡ some u
        → ram.users.first sample.users u ≡ ok me
        → entry.tenant_id ≡ me.tenant_id)
log_request_lem_example = log_request_lem ram ram-IsDatabase change sample entry 1 written fresh

reader : ram.users.first noted.users 2 ≡ ok ann
unfolding log_request memory
reader = refl

entries : list ram (pos 1) (pos 10) none 2 noted ≡ (ok (entry ∷ []), noted)
unfolding list log_request memory page_offset wrap_64 ◌*ℤ◌ ◌-ℤ◌
entries = refl

list_logs_sound_example :
    All (IsShown ram ram-IsDatabase noted ann none) (entry ∷ []) × (noted ≡ noted)
list_logs_sound_example =
    list_logs_sound ram ram-IsDatabase noted noted ann (pos 1) (pos 10) none 2 (entry ∷ []) reader
      entries

-- strconv on the texts that the example reads
abbrev conv : Strconv
conv = record { parse_uint = λ s. if str_eq s "1" then some 1 else none; atoi = λ s. pos 1 }

abbrev context : Context
context = record { id = "1"; query = λ k. none; user_id = some 2 }

started : init_super_admin ram plain_bcrypt 5 sample ≡ (ok tt, sample)
unfolding init_super_admin memory
started = refl

init_super_admin-HasRoot_example : (i : ℕ) × HasRoot ram i sample
init_super_admin-HasRoot_example =
    init_super_admin-HasRoot ram plain_bcrypt ram-IsDatabase 5 sample sample sample-IsConsistent
      started
