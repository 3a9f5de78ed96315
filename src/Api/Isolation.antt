-- ===== src/Api/Isolation.antt =====
-- A request deletes memories of the tenant of its token only.
use pali.Common.{
  ℕ, String, str_eq, eq_iff, Bool, true, false, ◌≡◌, refl, sym, subst, Option, some, Result, ok,
  err, IfOk, Error, inl, inr, Bool-cases,
}
use pali.Common.Text.{trim_space}
use pali.Clock.{Time}
use pali.Auth.{Claims, Authenticator, authenticate, middleware, enforce_tenant_access}
use pali.Auth.Access.{middleware-Filled, enforce_tenant_access-own, Filled}
use pali.Memories.{Db}
use pali.Memories.Isolation.{memories_of, Keeps}
use pali.Service.{delete_by_service}
use pali.Service.Isolation.{delete_by_service-Keeps}
use pali.Api.{status_for_error, status_of, handle_delete}

-- Ids whose trimmed texts differ, differ.
other_tenant :
    (t tenant requested : String)
    → str_eq tenant (trim_space requested) ≡ true
    → str_eq tenant (trim_space t) ≡ false
    → str_eq requested t ≡ false
other_tenant t tenant requested e d = elim (Bool-cases (str_eq requested t)) [
  | inl i ↦ absurd (
      clash e
        (subst (λ r. str_eq tenant (trim_space r) ≡ false) (sym ((eq_iff requested t).0 i)) d))
  | inr i ↦ i
]
  where
    clash : {b : Bool} → b ≡ true → b ≡ false → ⊥
    clash u w = cc

-- Whatever the token library accepts, and whatever memory a request names: a DELETE leaves the
-- memories of every tenant whose trimmed id is not the tenant of the request's token as they were, in
-- the same order. Where the header has no acceptable token, that is every tenant.
pub handle_delete-isolated {ℓ} :
    {V : Type ℓ} (error_text : Error → String)
    (vector : Option (String → String → V → Option Error × V)) (draw : ℕ → ℕ → String)
    (clock : ℕ → Time) (parse : String → String → Result Claims) (a : Authenticator)
    (header requested id t : String) (db : Db) (v : V)
    → IfOk
        (λ tenant. str_eq tenant (trim_space t) ≡ false)
        (middleware (authenticate parse a) header)
    → memories_of t
        (handle_delete error_text vector draw clock
          (authenticate parse a)
          header
          requested
          id
          db
          v).1
      ≡ memories_of t db
unfolding handle_delete
handle_delete-isolated {V} error_text vector draw clock parse a header requested id t db v d =
    go (middleware (authenticate parse a) header) (middleware-Filled parse a header) d
  where
    go2 :
        (tenant : String) (r : Result {0} Unit)
        → IfOk (λ u. str_eq tenant (trim_space requested) ≡ true) r
        → str_eq tenant (trim_space t) ≡ false
        → Keeps t db
            (elim r as (λ x. ℕ × Db × V) [
              | err e ↦ (status_for_error e, db, v)
              | ok u ↦
                  let done = delete_by_service error_text vector draw clock requested id db v in
                  (status_of done.0, done.1, done.2)
            ]).1
    go2 tenant (err e) h k = refl
    go2 tenant (ok u) h k =
        delete_by_service-Keeps error_text draw clock t vector requested id db v
          (other_tenant t tenant requested h k)

    go :
        (r : Result String)
        → IfOk Filled r
        → IfOk (λ tenant. str_eq tenant (trim_space t) ≡ false) r
        → Keeps t db
            (elim r as (λ x. ℕ × Db × V) [
              | err e ↦ (401, db, v)
              | ok tenant ↦ elim (enforce_tenant_access (some tenant) requested) [
                | err e ↦ (status_for_error e, db, v)
                | ok u ↦
                    let done = delete_by_service error_text vector draw clock requested id db v in
                    (status_of done.0, done.1, done.2)
              ]
            ]).1
    go (ok tenant) f k =
        go2 tenant (enforce_tenant_access (some tenant) requested)
          (enforce_tenant_access-own tenant requested f) k
    go (err e) f k = refl
