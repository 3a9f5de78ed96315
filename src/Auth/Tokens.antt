-- ===== src/Auth/Tokens.antt =====
-- The tokens that the program makes are the ones that it accepts.
use pali.Common.{
  ℤ, ◌+◌, ◌*◌, ◌<◌, String, eq_refl, ◌≡◌, refl, Result, ok, ◌>>=◌, Bool-cases, inl, inr,
  positive_or,
}
use Prim.Native.String
use pali.Common.Text.{IsTidy, trim_space, is_empty, is_blank, strip_prefix-append}
use pali.Clock.{Time, hour}
use pali.Auth.{
  Claims, Authenticator, new_authenticator, tenant_of_claims, authenticate, generate_token,
  middleware,
}

-- The library: a token is accepted with the key that signed it until it expires, and gives its
-- claims back; it has no white space in it.
module _ (sign : String → Claims → Result String) (parse : Time → String → String → Result Claims)
    (numeric_date : Time → Time)
    (parse-sign : (key token : String) (c : Claims) (later : Time)
      → sign key c ≡ ok token
      → later < c.expires_at
      → parse later key token ≡ ok c)
    (sign-IsTidy : (key token : String) (c : Claims) → sign key c ≡ ok token → IsTidy token) where
  accepted_claims :
      (issuer tenant secret token : String) (c : Claims) (later : Time)
      → IsTidy tenant
      → c.tenant_id ≡ tenant
      → c.issuer ≡ trim_space issuer
      → IsTidy token
      → parse later secret token ≡ ok c
      → authenticate (parse later) (record { secret = secret; issuer = trim_space issuer }) token
        ≡ ok tenant
  unfolding authenticate tenant_of_claims is_blank
  accepted_claims issuer tenant secret token c later t e i k p =
      elim (Bool-cases (is_empty (trim_space issuer))) [
        | inl b ↦ simp (k.0, k.1, p, e, t.0, t.1, i, b)
        | inr b ↦ simp (k.0, k.1, p, e, t.0, t.1, i, b, eq_refl (trim_space issuer))
      ]

  passed :
      (a : Authenticator) (token tenant : String) (later : Time)
      → trim_space token ≡ token
      → authenticate (parse later) a token ≡ ok tenant
      → middleware (authenticate (parse later) a) (String.◌++◌ "Bearer " token) ≡ ok tenant
  unfolding middleware
  passed a token tenant later k e = rw (middleware, strip_prefix-append "Bearer " token, k, e) refl

  -- A token that GenerateTenantToken makes for a tenant passes the middleware of the same secret
  -- and issuer until it expires, and the context gets that tenant; the secret and the tenant have no
  -- white space around them and are not empty.
  pub generate_token-accepted :
      (now later : Time) (secret issuer tenant token : String) (ttl : ℤ)
      → IsTidy secret
      → IsTidy tenant
      → generate_token sign numeric_date now secret issuer tenant ttl ≡ ok token
      → later < numeric_date (now + positive_or ttl (24 * hour))
      → (new_authenticator secret issuer >>= λ a.
          middleware (authenticate (parse later) a) (String.◌++◌ "Bearer " token))
        ≡ ok tenant
  unfolding generate_token new_authenticator is_blank
  generate_token-accepted now later secret issuer tenant token ttl s t e l =
      let made = simp (s.0, s.1, t.0, t.1) at e in
      let tidy = sign-IsTidy secret token _ made in
      rw (s.0, s.1)
        (passed (record { secret = secret; issuer = trim_space issuer }) token tenant later tidy.0
          (accepted_claims issuer tenant secret token _ later t refl refl tidy
            (parse-sign secret token _ later made l)))
