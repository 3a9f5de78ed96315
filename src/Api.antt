-- ===== src/Api.antt =====
-- The handler of DELETE /v1/memory/{id}, with the middleware before it: Delete of
-- internal/api/handlers/memory.go and statusForError of errors.go. The state is that of the service.
pub mod Isolation
pub mod Spaced
use pali.Common.{
  ℕ, String, Option, none, some, Result, ok, err, Error, invalid_input, not_found, unauthorized,
  tenant_mismatch, constraint_failed, other_error,
}
use pali.Clock.{Time}
use pali.Auth.{middleware, enforce_tenant_access}
use pali.Memories.{Db}
use pali.Service.{delete_by_service}

-- statusForError
unfoldable pub status_for_error : Error → ℕ
status_for_error invalid_input = 400
status_for_error not_found = 404
status_for_error tenant_mismatch = 403
status_for_error constraint_failed = 409
status_for_error unauthorized = 500
status_for_error other_error = 500

-- The status of an answer that is empty where there is no error.
unfoldable pub status_of : Option Error → ℕ
status_of none = 204
status_of (some e) = status_for_error e

-- Delete of the handler; `authenticate` is the authenticator's, where authentication is on.
unfoldable pub handle_delete {ℓ} :
    {V : Type ℓ}
    → (Error → String)
    → Option (String → String → V → Option Error × V)
    → (ℕ → ℕ → String)
    → (ℕ → Time)
    → (String → Result String)
    → String
    → String
    → String
    → Db
    → V
    → ℕ × Db × V
handle_delete error_text vector draw clock authenticate header requested id db v =
    elim (middleware authenticate header) [
      | err e ↦ (401, db, v)
      | ok tenant ↦ elim (enforce_tenant_access (some tenant) requested) [
        | err e ↦ (status_for_error e, db, v)
        | ok u ↦
            let done = delete_by_service error_text vector draw clock requested id db v in
            (status_of done.0, done.1, done.2)
      ]
    ]
