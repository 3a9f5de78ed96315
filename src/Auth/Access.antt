-- ===== src/Auth/Access.antt =====
-- What enforceTenantAccess lets through.
use pali.Common.{
  String, str_eq, true, false, not, ◌≡◌, refl, ◌∙◌, none, some, Result, ok, err, IfOk, IfOk-guard,
  IfOk-bind, ◌>>=◌, if◌then◌else◌, unauthorized, invalid_input, tenant_mismatch, inl, inr,
  Bool-cases,
}
use Prim.Native.String
use text.Mathlib.TextLemmas.{nil-append, cons-append}
use pali.Common.Text.{IsTidy, trim_space, trim_left, is_space, is_empty, is_blank, strip_prefix}
use pali.Auth.{
  Claims, Authenticator, tenant_of_claims, authenticate, middleware, tenant_from_gin,
  enforce_tenant_access,
}

-- A request passes the middleware and the check only where its header has a token that the
-- authenticator accepts for a tenant, and the requested id, trimmed, is that tenant.
unfoldable pub admit : (String → Result String) → String → String → Result String
admit authenticate header requested = middleware authenticate header >>= λ tenant.
    enforce_tenant_access (some tenant) requested >>= λ u. ok tenant

filled_text : (s : String) → is_blank s ≡ false → is_empty s ≡ false
unfolding is_blank is_empty
filled_text String.[] h = h
filled_text (String.◌∷◌ c s) h = refl

abbrev pub Filled : String → Type 0
Filled tenant = is_empty tenant ≡ false

tenant_of_claims-Filled : (a : Authenticator) (c : Claims) → IfOk Filled (tenant_of_claims a c)
unfolding tenant_of_claims
tenant_of_claims-Filled a c = elim (Bool-cases (is_blank c.tenant_id)) [
  | inl e ↦ rw e tt
  | inr e ↦ rw e (IfOk-guard Filled _ unauthorized (ok c.tenant_id) (filled_text c.tenant_id e))
]

authenticate-Filled :
    (parse : String → String → Result Claims) (a : Authenticator) (token : String)
    → IfOk Filled (authenticate parse a token)
unfolding authenticate
authenticate-Filled parse a token =
    IfOk-guard Filled _ unauthorized _ (go (parse a.secret (trim_space token)))
  where
    go :
        (r : Result Claims)
        → IfOk Filled (elim r [ ok c ↦ tenant_of_claims a c | err e ↦ err unauthorized ])
    go (ok c) = tenant_of_claims-Filled a c
    go (err e) = tt

pub middleware-Filled :
    (parse : String → String → Result Claims) (a : Authenticator) (header : String)
    → IfOk Filled (middleware (authenticate parse a) header)
unfolding middleware
middleware-Filled parse a header =
    elim (strip_prefix "Bearer " header)
      as (λ o. IfOk Filled (elim o [
        | none ↦ err unauthorized
        | some token ↦ elim (authenticate parse a (trim_space token)) [
          | ok tenant ↦ ok tenant
          | err e ↦ err unauthorized
        ]
      ])) [
        | none ↦ tt
        | some token ↦
            go (authenticate parse a (trim_space token))
              (authenticate-Filled parse a (trim_space token))
      ]
  where
    go :
        (r : Result String)
        → IfOk Filled r
        → IfOk Filled (elim r [ ok t ↦ ok t | err e ↦ err unauthorized ])
    go (ok t) h = h
    go (err e) h = tt

pub enforce_tenant_access-own :
    (tenant requested : String)
    → Filled tenant
    → IfOk
        (λ u. str_eq tenant (trim_space requested) ≡ true)
        (enforce_tenant_access (some tenant) requested)
unfolding enforce_tenant_access tenant_from_gin
enforce_tenant_access-own tenant requested f =
    elim (Bool-cases (str_eq tenant (trim_space requested))) [
      | inl e ↦ simp f (
          IfOk-guard _ (is_empty (trim_space requested)) invalid_input _
            (IfOk-guard _ (not (str_eq tenant (trim_space requested))) tenant_mismatch (ok tt) e))
      | inr e ↦
          simp (f, e)
            (IfOk-guard _ (is_empty (trim_space requested)) invalid_input (err tenant_mismatch) tt)
    ]

-- Whatever the token library accepts, a request that passes the middleware and the check of its
-- tenant id asks for the tenant of its token: the id that it asks for, trimmed, is that tenant.
pub admit-own :
    (parse : String → String → Result Claims) (a : Authenticator) (header requested : String)
    → IfOk
        (λ tenant. str_eq tenant (trim_space requested) ≡ true)
        (admit (authenticate parse a) header requested)
unfolding admit
admit-own parse a header requested =
    IfOk-bind Filled _ (middleware (authenticate parse a) header) _
      (middleware-Filled parse a header)
      (λ tenant f.
        IfOk-bind _ _ (enforce_tenant_access (some tenant) requested) _
          (enforce_tenant_access-own tenant requested f) (λ u e. e))

trim_space-space : (s : String) → trim_space (String.◌++◌ " " s) ≡ trim_space s
unfolding trim_space trim_left is_space
trim_space-space s = rw (cons-append " " "" s, nil-append s) refl

-- The check does not see a space before the id that a request asks for. For ids without white space
-- around them: the token of a tenant is let through for that tenant's id with a space before it, and
-- refused as a mismatch for any other id with a space before it.
pub enforce_tenant_access-space :
    (tenant requested : String)
    → IsTidy tenant
    → IsTidy requested
    → enforce_tenant_access (some tenant) (String.◌++◌ " " requested)
      ≡ (if str_eq tenant requested then ok tt else err tenant_mismatch)
unfolding enforce_tenant_access tenant_from_gin
enforce_tenant_access-space tenant requested t r =
    let asked : trim_space (String.◌++◌ " " requested) ≡ requested =
      trim_space-space requested ∙ r.0 in
    elim (Bool-cases (str_eq tenant requested)) [
      | inl e ↦ simp (asked, r.1, t.1, e)
      | inr e ↦ simp (asked, r.1, t.1, e)
    ]
