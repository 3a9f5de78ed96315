-- ===== src/Api/Spaced.antt =====
-- What a DELETE does for a tenant id with a space before it.
use Prim.Native.String
use pali.Common.{
  ℕ, String, str_eq, ◌≡◌, refl, ap, ◌∙◌, Option, some, Result, ok, err, Error, inl, inr, Bool-cases,
  if◌then◌else◌,
}
use pali.Common.Text.{IsTidy}
use pali.Clock.{Time}
use pali.Auth.{middleware, enforce_tenant_access}
use pali.Auth.Access.{enforce_tenant_access-space}
use pali.Memories.{Db}
use pali.Service.{delete_by_service}
use pali.Api.{status_for_error, status_of, handle_delete}

-- For a request whose token is accepted for a tenant, and that asks for an id with a space before
-- it, where both ids have no other white space around them: if the id is the tenant's, the request
-- is let through and the service deletes for the other tenant whose id begins with the space;
-- otherwise the answer is 403 and nothing changes.
pub handle_delete-space {ℓ} :
    {V : Type ℓ} (error_text : Error → String)
    (vector : Option (String → String → V → Option Error × V)) (draw : ℕ → ℕ → String)
    (clock : ℕ → Time) (authenticate : String → Result String) (header tenant requested id : String)
    (db : Db) (v : V)
    → middleware authenticate header ≡ ok tenant
    → IsTidy tenant
    → IsTidy requested
    → handle_delete error_text vector draw clock authenticate header
        (String.◌++◌ " " requested)
        id
        db
        v
      ≡ (if str_eq tenant requested
          then (let done =
                delete_by_service error_text vector draw clock
                  (String.◌++◌ " " requested)
                  id
                  db
                  v in
              (status_of done.0, done.1, done.2))
          else (403, db, v))
unfolding handle_delete status_for_error
handle_delete-space {V} error_text vector draw clock authenticate header tenant requested id db v m
      t r =
    ap
      (λ x. elim x as (λ y. ℕ × Db × V) [
        | err e ↦ (401, db, v)
        | ok tenant' ↦ after (enforce_tenant_access (some tenant') spaced)
      ])
      m
    ∙ ap after (enforce_tenant_access-space tenant requested t r)
    ∙ elim (Bool-cases (str_eq tenant requested)) [ inl e ↦ rw e refl | inr e ↦ rw e refl ]
  where
    spaced : String
    spaced = String.◌++◌ " " requested

    after : Result {0} Unit → ℕ × Db × V
    after = λ x. elim x as (λ y. ℕ × Db × V) [
      | err e ↦ (status_for_error e, db, v)
      | ok u ↦
          let done = delete_by_service error_text vector draw clock spaced id db v in
          (status_of done.0, done.1, done.2)
    ]
