-- ===== src/Tests/RequestRuns.antt =====
-- Tokens and requests at concrete inputs, with a token library that makes and accepts one token.
use pali.Common.{
  ℤ, ◌+◌, ◌<◌, ◌*◌, String, str_eq, eq_iff, Bool, true, ◌&&◌, ◌≡◌, refl, sym, subst, ap, inl, inr,
  Bool-cases, some, Result, ok, err, ◌>>=◌, IfOk, other_error, unauthorized, arith, if◌then◌else◌,
  ◌==◌, ltb,
}
use pali.Common.Text.{IsTidy, trim_space, is_empty, is_blank, strip_prefix}
use pali.Clock.{Time, hour}
use pali.Auth.{
  Claims, Authenticator, new_authenticator, authenticate, generate_token, middleware,
  tenant_of_claims, enforce_tenant_access,
}
use pali.Auth.Access.{admit, admit-own}
use pali.Auth.Tokens.{generate_token-accepted}
use pali.Memories.Isolation.{memories_of}
use pali.Api.{status_of, handle_delete}
use pali.Api.Isolation.{handle_delete-isolated}
use pali.Api.Spaced.{handle_delete-space}
use pali.Service.{delete_by_service}
use pali.Tests.QueueRuns.{noon}
use pali.Tests.MemoryRuns.{tables, text_of, failing_vectors}

abbrev claims_of_ben : Claims
claims_of_ben = record {
  tenant_id = "ben";
  issuer = "pali";
  issued_at = noon;
  expires_at = noon + 24 * hour;
}

abbrev is_of_ben : Claims → Bool
is_of_ben c =
    str_eq c.tenant_id "ben"
    && str_eq c.issuer "pali"
    && c.issued_at == noon
    && c.expires_at == noon + 24 * hour

abbrev one_sign : String → Claims → Result String
one_sign key c = if is_of_ben c && str_eq key "secret" then ok "b.e.n" else err other_error

abbrev one_parse : Time → String → String → Result Claims
one_parse later key token =
    if str_eq key "secret" && str_eq token "b.e.n" && ltb later (noon + 24 * hour)
    then ok claims_of_ben
    else err unauthorized

is_of_ben-claims :
    (tenant issuer : String) (issued expires : Time)
    → is_of_ben
        (record { tenant_id = tenant; issuer = issuer; issued_at = issued; expires_at = expires })
      ≡ true
    → record { tenant_id = tenant; issuer = issuer; issued_at = issued; expires_at = expires }
      ≡ claims_of_ben
is_of_ben-claims tenant issuer issued expires h =
    let t : tenant ≡ "ben" = ground (arith, eq_iff tenant "ben") in
    let i : issuer ≡ "pali" = ground (arith, eq_iff issuer "pali") in
    let a : issued ≡ noon = ground arith in
    let b : expires ≡ noon + 24 * hour = ground arith in rw (t, i, a, b) refl

one_sign_sound :
    (key token : String) (c : Claims)
    → one_sign key c ≡ ok token
    → (key ≡ "secret") × (token ≡ "b.e.n") × (c ≡ claims_of_ben)
one_sign_sound key token c e = elim (Bool-cases (is_of_ben c && str_eq key "secret")) [
  | inl h ↦ (
    ground (arith, eq_iff key "secret"),
    ok_inj (sym (rw h at e)),
    is_of_ben-claims c.tenant_id c.issuer c.issued_at c.expires_at (ground arith),
  )
  | inr h ↦ absurd (clash (rw h at e))
]
  where
    ok_inj : {s t : String} → ok s ≡ ok t → s ≡ t
    ok_inj p = cc

    clash : err other_error ≡ ok token → ⊥
    clash p = cc

parse-sign :
    (key token : String) (c : Claims) (later : Time)
    → one_sign key c ≡ ok token
    → later < c.expires_at
    → one_parse later key token ≡ ok c
parse-sign key token c later e l =
    let s = one_sign_sound key token c e in
    let soon : ltb later (noon + 24 * hour) ≡ true =
      lt_true (subst (λ d. later < d.expires_at) s.2 l) in
    rw (s.0, s.1, soon) (ap ok (sym s.2))
  where
    lt_true : later < noon + 24 * hour → ltb later (noon + 24 * hour) ≡ true
    lt_true h = ground arith

sign-IsTidy : (key token : String) (c : Claims) → one_sign key c ≡ ok token → IsTidy token
unfolding trim_space is_empty
sign-IsTidy key token c e = subst IsTidy (sym (one_sign_sound key token c e).1) (refl, refl)

generate_token-accepted_example :
    (new_authenticator "secret" " pali " >>= λ a.
    middleware (authenticate (one_parse (noon + hour)) a) "Bearer b.e.n")
    ≡ ok "ben"
unfolding generate_token trim_space is_empty
generate_token-accepted_example =
    generate_token-accepted one_sign one_parse (λ t. t) parse-sign sign-IsTidy noon (noon + hour)
      "secret" " pali " "ben" "b.e.n" (ℤ.pos 0) (refl, refl) (refl, refl) refl (omega arith)

abbrev checker : Authenticator
checker = record { secret = "secret"; issuer = "pali" }

admit-own_example :
    IfOk
      (λ tenant. str_eq tenant (trim_space " ben") ≡ true)
      (admit (authenticate (one_parse noon) checker) "Bearer b.e.n" " ben")
admit-own_example = admit-own (one_parse noon) checker "Bearer b.e.n" " ben"

-- The tenant of the token is let through for the id of another tenant, with a space before it.
spaced_example : enforce_tenant_access (some "ben") " ben" ≡ ok tt
unfolding enforce_tenant_access trim_space is_empty pali.Auth.tenant_from_gin
spaced_example = refl

handle_delete-isolated_example :
    memories_of "anna"
      (handle_delete text_of
        (some failing_vectors)
        (λ k i. "j1")
        (λ k. noon)
        (authenticate (one_parse noon) checker)
        "Bearer b.e.n"
        "ben"
        "b1"
        tables
        0).1
    ≡ memories_of "anna" tables
unfolding middleware authenticate tenant_of_claims strip_prefix trim_space is_empty is_blank
handle_delete-isolated_example =
    handle_delete-isolated text_of (some failing_vectors) (λ k i. "j1") (λ k. noon) (one_parse noon)
      checker "Bearer b.e.n" "ben" "b1" "anna" tables 0 refl

handle_delete-space_example :
    handle_delete text_of
      (some failing_vectors)
      (λ k i. "j1")
      (λ k. noon)
      (authenticate (one_parse noon) checker)
      "Bearer b.e.n"
      " ben"
      "b1"
      tables
      0
    ≡ (if str_eq "ben" "ben"
        then (let done =
              delete_by_service text_of
                (some failing_vectors)
                (λ k i. "j1")
                (λ k. noon)
                " ben"
                "b1"
                tables
                0 in
            (status_of done.0, done.1, done.2))
        else (403, tables, 0))
unfolding middleware authenticate tenant_of_claims strip_prefix trim_space is_empty is_blank
handle_delete-space_example =
    handle_delete-space text_of (some failing_vectors) (λ k i. "j1") (λ k. noon)
      (authenticate (one_parse noon) checker) "Bearer b.e.n" "ben" "ben" "b1" tables 0 refl
      (refl, refl) (refl, refl)
