-- ===== src/System/Auth/Tokens.antt =====
-- The two middlewares, and a login followed by a request.
use addp.Common.{
  ℕ, ◌+◌, ◌*◌, ◌<◌, String, Bool, true, false, some, ok, ◌≡◌, ◌≢◌, ◌↔◌, ◌==◌, ==_iff, str_eq,
  eq_iff, if◌then◌else◌, arith, inl, inr, refl, ap, sym, ◌∙◌, Option-cases, Bool-cases,
}
use addp.Common.Outcome.{Result-cases}
use text.Mathlib.TextEquality.{Char-path}
use Prim.Native.Char.{code}
use Prim.Native.String
use Prim.Native.String.append
use addp.System.Models.{User}
use addp.System.Store.{Store, Database, Bcrypt}
use addp.System.Users.{authenticate}
use addp.System.Auth.{
  Claims, Jwt, IsJwt, split_space, authorize, authorize_internal, parse_token, Settings, login,
  issue, generate_token,
}

has_space : String → Bool
has_space String.[] = false
has_space (String.◌∷◌ c s) = if code c == b' ' then true else has_space s

-- The header that carries a token.
abbrev pub bearer : String → String
bearer token = String.◌++◌ "Bearer" (String.◌∷◌ " " token)

split_space-cons :
    (a b : String)
    → has_space a ≡ false
    → split_space (String.◌++◌ a (String.◌∷◌ " " b)) ≡ some (a, b)
unfolding split_space has_space
split_space-cons String.[] b clean = rw (append.nil (String.◌∷◌ " " b)) refl
split_space-cons (String.◌∷◌ c a) b clean =
    rw (append.cons c a (String.◌∷◌ " " b))
      (let rest = split_space-cons a b in ground (arith, rest))

split_space_inv :
    (h a b : String) → split_space h ≡ some (a, b) → h ≡ String.◌++◌ a (String.◌∷◌ " " b)
unfolding split_space
split_space_inv String.[] a b e = absurd (ground arith)
split_space_inv (String.◌∷◌ c s) a b e = elim (Bool-cases (code c == b' ')) [
  | inl space ↦
      let is_space : c ≡ " " = Char-path c " " ((==_iff (code c) b' ').0 space) in
      let parts : (String.[] ≡ a) × (s ≡ b) = ground arith in
      rw (is_space, sym parts.0, sym parts.1) (sym (append.nil (String.◌∷◌ " " s)))
  | inr other ↦ elim (Option-cases (split_space s)) [
    | inl single ↦ absurd (ground arith)
    | inr (p, more) ↦
        let rest = split_space_inv s p.0 p.1 more in
        let parts : (String.◌∷◌ c p.0 ≡ a) × (p.1 ≡ b) = ground arith in
        rw (sym parts.0, sym parts.1, append.cons c p.0 (String.◌∷◌ " " p.1))
          (ap (String.◌∷◌ c) rest)
  ]
]

split_bearer : (token : String) → split_space (bearer token) ≡ some ("Bearer", token)
unfolding has_space
split_bearer token = split_space-cons "Bearer" token refl

starts : String → Bool
starts String.[] = false
starts (String.◌∷◌ c s) = true

bearer-ne-empty : (token : String) → str_eq (bearer token) "" ≡ false
unfolding starts
bearer-ne-empty token =
    let head : bearer token ≡ String.◌∷◌ "B" (String.◌++◌ "earer" (String.◌∷◌ " " token)) =
      append.cons "B" "earer" (String.◌∷◌ " " token) in
    elim (Bool-cases (str_eq (bearer token) "")) [
      | inl empty ↦
          let cleared : true ≡ false =
            sym (ap starts head) ∙ ap starts ((eq_iff (bearer token) "").0 empty) in
          absurd (ground arith)
      | inr is ↦ is
    ]

authorize-bearer :
    (jwt : Jwt) (secret token : String) (now : ℕ) (c : Claims)
    → jwt.parse token secret now ≡ some c
    → authorize jwt secret now (bearer token) ≡ ok c
unfolding authorize parse_token
authorize-bearer jwt secret token now c good =
    rw (bearer-ne-empty token, split_bearer token, good) refl

-- AuthMiddleware lets a request pass with the claims c exactly when its Authorization header is
-- "Bearer", a space and a token that the JWT library accepts as c at that time.
pub authorize_iff :
    (jwt : Jwt) (secret : String) (now : ℕ) (header : String) (c : Claims)
    → (authorize jwt secret now header ≡ ok c)
      ↔ ((token : String) × (header ≡ bearer token) × (jwt.parse token secret now ≡ some c))
unfolding authorize parse_token
authorize_iff jwt secret now header c = (
  λ h. elim (Option-cases (split_space header)) [
    | inl single ↦ absurd (ground arith)
    | inr (p, two) ↦
        let scheme : p.0 ≡ "Bearer" = ground (arith, eq_iff p.0 "Bearer") in
        (
          p.1,
          split_space_inv header p.0 p.1 two ∙ ap (λ x. String.◌++◌ x (String.◌∷◌ " " p.1)) scheme,
          elim (Option-cases (jwt.parse p.1 secret now)) [
            | inl bad ↦ absurd (ground arith)
            | inr (d, good) ↦ ground arith
          ],
        )
  ],
  λ (token, is, good). rw is (authorize-bearer jwt secret token now c good),
)

-- A request with a token that has expired is refused: whatever AuthMiddleware lets pass has an
-- expiry that lies ahead.
pub authorize-unexpired :
    (jwt : Jwt) (laws : IsJwt jwt) (secret : String) (now : ℕ) (header : String) (c : Claims)
    → authorize jwt secret now header ≡ ok c
    → now < c.expires_at
authorize-unexpired jwt laws secret now header c h =
    let (token, is, good) = (authorize_iff jwt secret now header c).0 h in
    laws.unexpired c secret token now good

-- InternalAPIMiddleware lets a request pass exactly when a key is configured and the header is
-- that key.
pub authorize_internal_iff :
    (expected_key api_key : String)
    → (authorize_internal expected_key api_key ≡ ok tt)
      ↔ ((expected_key ≢ "") × (api_key ≡ expected_key))
unfolding authorize_internal
authorize_internal_iff expected_key api_key = (
  λ h. (λ e. ground (arith, eq_iff expected_key ""), ground (arith, eq_iff api_key expected_key)),
  λ h. ground (arith, eq_iff expected_key "", eq_iff api_key expected_key),
)

module _ {U T R L : Type 0} (db : Database U T R L) (bcrypt : Bcrypt) (jwt : Jwt)
    (cfg : Settings) where
  -- The token of a login is accepted, until its expiry, as a token of the user who logged in: when
  -- Login answers with a token, the user was authenticated, and AuthMiddleware passes every later
  -- request with that token, before the configured minutes are over, with that user's id and name.
  -- The JWT library meets its laws `IsJwt`.
  pub authorize-login :
      (laws : IsJwt jwt) (now later : ℕ) (username password token : String) (s : Store U T R L)
      → login db bcrypt jwt cfg now username password s ≡ ok token
      → later < now + cfg.token_expire_minutes * 60
      → (u : User) × (c : Claims) × ((authenticate db bcrypt username password s).0 ≡ ok u)
        × (authorize jwt cfg.jwt_secret later (bearer token) ≡ ok c)
        × (c.user_id ≡ u.id)
        × (c.username ≡ u.username)
  unfolding login issue generate_token
  authorize-login laws now later username password token s h soon =
      elim (Result-cases (authenticate db bcrypt username password s).0) [
        | inl (e, bad) ↦ absurd (ground arith)
        | inr (u, good) ↦
            let c : Claims = record {
              user_id = u.id;
              username = u.username;
              expires_at = now + cfg.token_expire_minutes * 60;
              issued_at = now;
            } in
            elim (Option-cases (jwt.sign c cfg.jwt_secret)) [
              | inl bad ↦ absurd (ground arith)
              | inr (made, signed) ↦
                  let same : made ≡ token = ground arith in
                  (
                    u,
                    c,
                    good,
                    authorize-bearer jwt cfg.jwt_secret token later c
                        (laws.parse-sign c cfg.jwt_secret token later (signed ∙ ap some same) soon),
                    refl,
                    refl,
                  )
            ]
      ]
