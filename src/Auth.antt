-- ===== src/Auth.antt =====
-- Who may act for which tenant: internal/auth/bearer.go, token.go, middleware.go and auth.go, and
-- enforceTenantAccess of internal/api/handlers/authz.go. The library golang-jwt is a parameter:
-- `sign` for SignedString, `parse` for ParseWithClaims with the key function and `Valid`, and
-- `numeric_date` for NewNumericDate.
pub mod Access
pub mod Tokens
use pali.Common.{
  ℕ, ℤ, ◌+◌, ◌*◌, String, str_eq, Bool, true, false, not, ◌&&◌, ◌||◌, Option, none, some, Result,
  ok, err, ◌>>=◌, guard, invalid_input, unauthorized, tenant_mismatch, other_error, if◌then◌else◌,
  ◌==◌, positive_or,
}
use pali.Common.Text.{trim_space, is_empty, is_blank, strip_prefix}
use pali.Clock.{Time, hour}

-- TenantClaims
pub record Claims : Type 0 where
  pub tenant_id : String
  pub issuer : String
  pub issued_at : Time
  pub expires_at : Time

-- JWTAuthenticator
pub record Authenticator : Type 0 where
  pub secret : String
  pub issuer : String

-- NewJWTAuthenticator
unfoldable pub new_authenticator : String → String → Result Authenticator
new_authenticator secret issuer =
    guard (is_blank secret) other_error
      (ok (record { secret = secret; issuer = trim_space issuer }))

-- The checks of Authenticate on the claims of a token that the library accepts.
unfoldable pub tenant_of_claims : Authenticator → Claims → Result String
tenant_of_claims a c = guard (is_blank c.tenant_id) unauthorized (
    guard (not (is_empty a.issuer) && not (is_empty c.issuer) && not (str_eq c.issuer a.issuer))
      unauthorized (ok c.tenant_id))

-- Authenticate; every error of the library becomes `unauthorized`.
unfoldable pub authenticate :
    (String → String → Result Claims) → Authenticator → String → Result String
authenticate parse a token =
    guard (is_empty (trim_space token)) unauthorized (elim (parse a.secret (trim_space token)) [
      | ok c ↦ tenant_of_claims a c
      | err e ↦ err unauthorized
    ])

-- GenerateTenantToken
unfoldable pub generate_token :
    (String → Claims → Result String)
    → (Time → Time)
    → Time
    → String
    → String
    → String
    → ℤ
    → Result String
generate_token sign numeric_date now secret issuer tenant ttl =
    guard (is_empty (trim_space secret)) other_error (
      guard (is_empty (trim_space tenant)) other_error (
        sign (trim_space secret) (record {
          tenant_id = trim_space tenant;
          issuer = trim_space issuer;
          issued_at = numeric_date now;
          expires_at = numeric_date (now + positive_or ttl (24 * hour));
        })))

-- Middleware: what the context gets for an Authorization header, or the answer 401.
unfoldable pub middleware : (String → Result String) → String → Result String
middleware authenticate header = elim (strip_prefix "Bearer " header) [
  | none ↦ err unauthorized
  | some token ↦ elim (authenticate (trim_space token)) [
    | ok tenant ↦ ok tenant
    | err e ↦ err unauthorized
  ]
]

-- TenantIDFromGin
unfoldable pub tenant_from_gin : Option String → Option String
tenant_from_gin none = none
tenant_from_gin (some tenant) = if is_empty tenant then none else some tenant

-- enforceTenantAccess; `context` is what the middleware has set, `none` where authentication is off.
unfoldable pub enforce_tenant_access : Option String → String → Result {0} Unit
enforce_tenant_access context requested =
    guard (is_empty (trim_space requested)) invalid_input (elim (tenant_from_gin context) [
      | none ↦ ok tt
      | some tenant ↦ guard (not (str_eq tenant (trim_space requested))) tenant_mismatch (ok tt)
    ])
