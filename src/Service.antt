-- ===== src/Service.antt =====
-- The memory service over its repository and its vector store: delete.go, get.go, isolation.go and
-- index_state.go of internal/core/memory. The vector store is a parameter: its state is `V`, `remove` is its
-- Delete, and `none` stands for a service without one. `error_text` is `err.Error()`. A text from
-- `newID` is `draw k i` in the `k`-th call of the repository, and its `time.Now()` is `clock k`.
pub mod Marks
pub mod Deletion
pub mod Isolation
use pali.Common.{
  ℕ, String, str_eq, Bool, true, false, not, ◌&&◌, ◌||◌, Option, none, some, List, [], ◌∷◌, Result,
  ok, err, ◌>>=◌, Error, guard, invalid_input, not_found, other_error, if◌then◌else◌,
}
use pali.Common.Sql.{exists}
use pali.Common.Text.{trim_space, is_blank}
use pali.Clock.{Time}
use pali.Domain.Memories.{
  Memory, IndexOperation, IndexState, upsert, delete, pending, failed, tombstoned,
}
use pali.IndexJobs.{mark_index_state}
use pali.Memories.{Db, tenant_is, delete_memory, get_by_ids}

-- Exists of the tenant repository, with ensureTenantExists
unfoldable pub ensure_tenant_exists : String → Db → Result {0} Unit
ensure_tenant_exists tenant db =
    guard (is_blank tenant) invalid_input
      (guard (not (exists (tenant_is tenant) db.tenants)) not_found (ok tt))

-- markIndexState: an error of the repository is only logged.
unfoldable pub mark_state :
    (ℕ → String) → Time → String → List String → IndexOperation → IndexState → String → Db → Db
mark_state draw now tenant ids op state last_error db =
    elim (mark_index_state draw tenant ids op state (trim_space last_error) now db.index_jobs) [
      | ok js ↦ record db { index_jobs = js }
      | err e ↦ db
    ]

-- The end of Delete for an error, or for success: the mark of the index, and the answer.
unfoldable pub finish_delete {ℓ} :
    {V : Type ℓ}
    → (Error → String)
    → (ℕ → String)
    → Time
    → String
    → String
    → Option Error
    → Db
    → V
    → Option Error × Db × V
finish_delete error_text draw now tenant id none db v =
    (none, mark_state draw now tenant (id ∷ []) delete tombstoned "" db, v)
finish_delete error_text draw now tenant id (some e) db v =
    (some e, mark_state draw now tenant (id ∷ []) delete failed (error_text e) db, v)

-- What Delete does after its first mark: the repository, then the vector store.
unfoldable pub remove_memory {ℓ} :
    {V : Type ℓ}
    → (Error → String)
    → (String → String → V → Option Error × V)
    → (ℕ → ℕ → String)
    → (ℕ → Time)
    → String
    → String
    → Db
    → V
    → Option Error × Db × V
remove_memory error_text remove draw clock tenant id db v =
    elim (delete_memory (draw 1 0) (clock 1) tenant id db) [
      | err e ↦ finish_delete error_text (draw 2) (clock 2) tenant id (some e) db v
      | ok db' ↦
          finish_delete error_text (draw 2) (clock 2) tenant id (remove tenant id v).0 db'
            (remove tenant id v).1
    ]

-- Delete of the service: the error, if there is one, and the state that it leaves.
unfoldable pub delete_by_service {ℓ} :
    {V : Type ℓ}
    → (Error → String)
    → Option (String → String → V → Option Error × V)
    → (ℕ → ℕ → String)
    → (ℕ → Time)
    → String
    → String
    → Db
    → V
    → Option Error × Db × V
delete_by_service error_text vector draw clock tenant id db v =
    if is_blank tenant || is_blank id
    then (some invalid_input, db, v)
    else elim (ensure_tenant_exists tenant db) [
      | err e ↦ (some e, db, v)
      | ok u ↦ elim vector [
        | none ↦ (some other_error, db, v)
        | some remove ↦
            remove_memory error_text remove draw clock tenant id
              (mark_state (draw 0) (clock 0) tenant (id ∷ []) delete pending "" db) v
      ]
    ]

-- Get
unfoldable pub get : String → String → Db → Result (Option Memory)
get tenant id db = guard (is_blank tenant || is_blank id) invalid_input (
    ensure_tenant_exists tenant db >>= λ u.
    get_by_ids tenant (id ∷ []) db >>= λ items. elim items [ [] ↦ ok none | m ∷ ms ↦ ok (some m) ])
