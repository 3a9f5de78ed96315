-- ===== src/Queue.antt =====
-- The queue of postprocess jobs, internal/repository/sqlite/memory_jobs.go with its statements in
-- queries.go: the table memory_postprocess_jobs is the list of its rows. A failed transaction is
-- rolled back, so an error carries no table. `draw` stands for the texts of `newID`, and `clock` for
-- `time.Now()`.
pub mod Claim
pub mod Mark
pub mod Consistency
pub mod Requeue
pub mod History
use pali.Common.{
  ℕ, ℤ, zero, suc, ◌+◌, ◌*◌, String, str_eq, Bool, true, false, not, ◌&&◌, ◌||◌, Option, none, some,
  List, [], ◌∷◌, ◌++◌, map, Result, ok, err, ◌>>=◌, guard, invalid_input, not_found,
  constraint_failed, other_error, if◌then◌else◌, ltb, leb, ◌==◌, positive_or, take,
}
use pali.Common.Sql.{select, update, count, find, exists, order_by}
use pali.Common.Text.{trim_space, is_empty, is_blank}
use pali.Common.Unique.{unique_non_empty, unique_valid, index_of}
use pali.Clock.{Time, second, is_zero, stamp_leb}
use pali.Domain.Jobs.{
  JobType, parser_extract, vector_upsert, JobStatus, queued, running, succeeded, failed,
  dead_letter, other_status, type_text, status_text, PostprocessJob, JobEnqueue, ClaimOptions,
  JobFilter,
}

abbrev pub Jobs : Type 0
Jobs = List PostprocessJob

unfoldable pub is_job_type_supported : JobType → Bool
is_job_type_supported parser_extract = true
is_job_type_supported vector_upsert = true
is_job_type_supported _ = false

unfoldable pub is_status_supported : JobStatus → Bool
is_status_supported (other_status s) = false
is_status_supported _ = true

-- UNIQUE(tenant_id, memory_id, job_type)
unfoldable pub same_key : PostprocessJob → PostprocessJob → Bool
same_key a b =
    str_eq a.tenant_id b.tenant_id
    && str_eq a.memory_id b.memory_id
    && str_eq (type_text a.job_type) (type_text b.job_type)

unfoldable pub has_id : String → PostprocessJob → Bool
has_id id j = str_eq j.id id

-- DO UPDATE SET of UpsertMemoryPostprocessJobSQL; `n` is `excluded`.
unfoldable pub requeue : PostprocessJob → PostprocessJob → PostprocessJob
requeue n j = record j {
  ingest_id = n.ingest_id;
  status = queued;
  attempts = 0;
  max_attempts = n.max_attempts;
  available_at = n.available_at;
  lease_owner = "";
  leased_until = none;
  last_error = "";
  updated_at = n.updated_at;
}

-- UpsertMemoryPostprocessJobSQL: a row with the key of `n` is updated; else `n` is a new row, whose
-- primary key may not be taken.
unfoldable pub upsert_row : PostprocessJob → Jobs → Result Jobs
upsert_row n js =
    if exists (same_key n) js
    then ok (update (same_key n) (requeue n) js)
    else if exists (has_id n.id) js
    then err constraint_failed
    else ok (js ++ n ∷ [])

unfoldable pub non_blank_or : String → String → String
non_blank_or s d = if is_blank s then d else s

-- The row that an enqueued job is written as; `draw` has the ingest id and the job id.
unfoldable pub new_row : String × String → JobEnqueue → Time → PostprocessJob
new_row draw job now = record {
  id = draw.1;
  ingest_id = non_blank_or job.ingest_id draw.0;
  tenant_id = job.tenant_id;
  memory_id = job.memory_id;
  job_type = job.job_type;
  status = queued;
  attempts = 0;
  max_attempts = positive_or job.max_attempts 5;
  available_at = now;
  lease_owner = "";
  leased_until = none;
  last_error = "";
  created_at = now;
  updated_at = now;
}

unfoldable pub is_valid_enqueue : JobEnqueue → Bool
is_valid_enqueue job =
    not (is_blank job.tenant_id)
    && not (is_blank job.memory_id)
    && is_job_type_supported job.job_type

-- GetMemoryPostprocessJobIDSQL after the upsert
unfoldable pub resolved : PostprocessJob → Jobs → Result (String × Jobs)
resolved n js = elim (find (same_key n) js) [ none ↦ err other_error | some j ↦ ok (j.id, js) ]

-- upsertMemoryPostprocessJobTx
unfoldable pub upsert_job : String × String → JobEnqueue → Time → Jobs → Result (String × Jobs)
upsert_job draw job now js =
    guard (not (is_valid_enqueue job)) invalid_input
      (upsert_row (new_row draw job now) js >>= resolved (new_row draw job now))

-- `job` as the loop of EnqueuePostprocessJobs hands it on: its defaults are filled in.
unfoldable pub with_defaults : ℕ → String → JobEnqueue → JobEnqueue
with_defaults max ingest job = record job {
  max_attempts = ℤ.pos (positive_or job.max_attempts max);
  ingest_id = non_blank_or job.ingest_id ingest;
}

-- The loop of EnqueuePostprocessJobs, from the job numbered `i`.
unfoldable pub enqueue_from :
    (ℕ → String × String)
    → ℕ
    → Time
    → ℕ
    → List JobEnqueue
    → Jobs
    → Result (List PostprocessJob × Jobs)
enqueue_from draw max now i [] js = ok ([], js)
enqueue_from draw max now i (job ∷ jobs) js = guard (not (is_valid_enqueue job)) invalid_input (
    upsert_job (draw i) (with_defaults max (draw i).0 job) now js >>= λ written.
    enqueue_from draw max now (suc i) jobs written.1 >>= λ later. ok (
      record (new_row (draw i) (with_defaults max (draw i).0 job) now) { id = written.0 } ∷ later.0,
      later.1,
    ))

-- EnqueuePostprocessJobs
unfoldable pub enqueue :
    (ℕ → String × String) → Time → List JobEnqueue → ℤ → Jobs → Result (List PostprocessJob × Jobs)
enqueue draw clock jobs default_max js =
    enqueue_from draw (positive_or default_max 5) clock 0 jobs js
