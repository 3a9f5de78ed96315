-- ===== src/IndexJobs.antt =====
-- The state of the index of each memory: the table memory_index_jobs, with MarkIndexState and
-- upsertMemoryIndexJobTx of internal/repository/sqlite/memory_jobs.go.
pub mod States
use pali.Common.{
  ℕ, suc, ◌+◌, String, str_eq, Bool, true, false, ◌&&◌, ◌||◌, List, [], ◌∷◌, ◌++◌, Result, ok, err,
  ◌>>=◌, guard, invalid_input, constraint_failed, if◌then◌else◌, ◌==◌,
}
use pali.Common.Sql.{update, count, exists}
use pali.Common.Text.{trim_space, is_blank}
use pali.Common.Unique.{unique_non_empty}
use pali.Clock.{Time}
use pali.Domain.Memories.{IndexOperation, IndexState, operation_text, state_text, IndexJob}

abbrev pub IndexJobs : Type 0
IndexJobs = List IndexJob

-- UNIQUE(tenant_id, memory_id, op)
unfoldable pub is_job_of : String → String → IndexOperation → IndexJob → Bool
is_job_of tenant memory op j =
    str_eq j.tenant_id tenant
    && str_eq j.memory_id memory
    && str_eq (operation_text j.op) (operation_text op)

unfoldable pub is_failed : IndexState → Bool
is_failed IndexState.failed = true
is_failed _ = false

-- SET of UpdateMemoryIndexJobStateSQL; a failure counts one more attempt.
unfoldable pub set_state : IndexState → String → Time → IndexJob → IndexJob
unfolding is_failed
set_state state last_error now j = record j {
  state = state;
  last_error = last_error;
  attempts = if is_failed state then j.attempts + 1 else j.attempts;
  updated_at = now;
}

-- upsertMemoryIndexJobTx with UpsertMemoryIndexJobSQL; `draw` is the new id.
unfoldable pub upsert_index_job :
    String
    → String
    → String
    → IndexOperation
    → IndexState
    → String
    → Time
    → IndexJobs
    → Result IndexJobs
upsert_index_job draw tenant memory op state last_error now js =
    if exists (is_job_of tenant memory op) js
    then ok (update (is_job_of tenant memory op) (set_state state (trim_space last_error) now) js)
    else if exists (λ j. str_eq j.id draw) js
    then err constraint_failed
    else ok (
        js
        ++ record {
          id = draw;
          tenant_id = tenant;
          memory_id = memory;
          op = op;
          state = state;
          last_error = trim_space last_error;
          attempts = if is_failed state then 1 else 0;
          created_at = now;
          updated_at = now;
        }
          ∷ [])

-- One round of the loop of MarkIndexState: an update, or an upsert where no row was affected.
unfoldable pub mark_one :
    String
    → String
    → String
    → IndexOperation
    → IndexState
    → String
    → Time
    → IndexJobs
    → Result IndexJobs
mark_one draw tenant memory op state last_error now js =
    if count (is_job_of tenant memory op) js == 0
    then upsert_index_job draw tenant memory op state last_error now js
    else ok (update (is_job_of tenant memory op) (set_state state last_error now) js)

unfoldable pub mark_each :
    (ℕ → String)
    → ℕ
    → String
    → List String
    → IndexOperation
    → IndexState
    → String
    → Time
    → IndexJobs
    → Result IndexJobs
mark_each draw i tenant [] op state last_error now js = ok js
mark_each draw i tenant (memory ∷ memories) op state last_error now js =
    mark_one (draw i) tenant memory op state last_error now js >>= λ ks.
    mark_each draw (suc i) tenant memories op state last_error now ks

-- MarkIndexState of the repository
unfoldable pub mark_index_state :
    (ℕ → String)
    → String
    → List String
    → IndexOperation
    → IndexState
    → String
    → Time
    → IndexJobs
    → Result IndexJobs
mark_index_state draw tenant memories op state last_error now js =
    guard (is_blank tenant || is_blank (operation_text op) || is_blank (state_text state))
      invalid_input
      (mark_each draw 0 tenant (unique_non_empty memories) op state (trim_space last_error) now js)
