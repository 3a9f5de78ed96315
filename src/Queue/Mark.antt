-- ===== src/Queue/Mark.antt =====
-- MarkPostprocessJobSucceeded, MarkPostprocessJobFailed, GetPostprocessJob and ListPostprocessJobs
-- of internal/repository/sqlite/memory_jobs.go.
pub mod Results
use pali.Common.{
  ℕ, ℤ, zero, suc, String, str_eq, Bool, true, false, not, ◌&&◌, ◌||◌, Option, none, some, List, [],
  ◌∷◌, Result, ok, err, guard, invalid_input, not_found, if◌then◌else◌, ltb, leb, ◌==◌, positive_or,
  take,
}
use pali.Common.Sql.{select, update, count, find, order_by}
use pali.Common.Text.{trim_space, is_empty}
use pali.Common.Unique.{has_text, unique_valid}
use pali.Clock.{Time, is_zero, stamp_leb}
use pali.Domain.Jobs.{
  JobType, JobStatus, succeeded, failed, dead_letter, type_text, status_text, PostprocessJob,
  JobFilter,
}
use pali.Queue.{Jobs, has_id, is_job_type_supported, is_status_supported}

-- MarkMemoryPostprocessJobSucceededSQL
unfoldable pub succeed : Time → PostprocessJob → PostprocessJob
succeed now j = record j {
  status = succeeded;
  lease_owner = "";
  leased_until = none;
  last_error = "";
  updated_at = now;
}

unfoldable pub time_or : Time → Time → Time
time_or t d = if is_zero t then d else t

-- An UPDATE by id, which is an error where it affects no row.
unfoldable pub update_by_id : String → (PostprocessJob → PostprocessJob) → Jobs → Result Jobs
update_by_id id f js =
    if count (has_id id) js == 0 then err not_found else ok (update (has_id id) f js)

-- MarkPostprocessJobSucceeded
unfoldable pub mark_succeeded : String → Time → Time → Jobs → Result Jobs
mark_succeeded id now clock js =
    guard (is_empty (trim_space id)) invalid_input
      (update_by_id (trim_space id) (succeed (time_or now clock)) js)

-- MarkMemoryPostprocessJobFailedSQL
unfoldable pub fail : JobStatus → ℕ → Time → String → Time → PostprocessJob → PostprocessJob
fail status attempts next last_error now j = record j {
  status = status;
  attempts = attempts;
  available_at = next;
  lease_owner = "";
  leased_until = none;
  last_error = last_error;
  updated_at = now;
}

-- status is `failed` or `dead_letter`
unfoldable pub is_failure : JobStatus → Bool
is_failure failed = true
is_failure dead_letter = true
is_failure _ = false

-- The update of MarkPostprocessJobFailed once its status is accepted; a negative `attempts` is not.
unfoldable pub fail_by_id : String → Time → Time → ℤ → JobStatus → String → Jobs → Result Jobs
fail_by_id id now next (ℤ.negsuc n) status last_error js = err invalid_input
fail_by_id id now next (ℤ.pos attempts) status last_error js =
    update_by_id id (fail status attempts (time_or next now) (trim_space last_error) now) js

-- MarkPostprocessJobFailed
unfoldable pub mark_failed :
    String → Time → Time → ℤ → JobStatus → String → Time → Jobs → Result Jobs
mark_failed id now next attempts status last_error clock js =
    guard (is_empty (trim_space id)) invalid_input (
      guard (not (is_failure status)) invalid_input
        (fail_by_id (trim_space id) (time_or now clock) next attempts status last_error js))

-- GetPostprocessJob: a job that is not there is `none`.
unfoldable pub get_job : String → Jobs → Result (Option PostprocessJob)
get_job id js =
    guard (is_empty (trim_space id)) invalid_input (ok (find (has_id (trim_space id)) js))

unfoldable pub status_in : List JobStatus → PostprocessJob → Bool
status_in [] j = false
status_in (s ∷ ss) j = str_eq (status_text j.status) (status_text s) || status_in ss j

unfoldable pub type_in : List JobType → PostprocessJob → Bool
type_in [] j = false
type_in (t ∷ ts) j = str_eq (type_text j.job_type) (type_text t) || type_in ts j

-- ORDER BY updated_at DESC
unfoldable pub newest_first : PostprocessJob → PostprocessJob → Bool
newest_first a b = stamp_leb b.updated_at a.updated_at

abbrev pub is_nil {ℓ} : {A : Type ℓ} → List A → Bool
is_nil [] = true
is_nil (x ∷ xs) = false

-- The limit: 50 unless it is positive, and at most 200.
unfoldable pub list_limit : ℤ → ℕ
list_limit limit = if ltb 200 (positive_or limit 50) then 200 else positive_or limit 50

-- The WHERE clause that ListPostprocessJobs builds: a condition on each part that is given.
unfoldable pub matches : JobFilter → PostprocessJob → Bool
matches f j =
    let tenant = trim_space f.tenant_id in
    let statuses = unique_valid status_text is_status_supported [] f.statuses in
    let types = unique_valid type_text is_job_type_supported [] f.types in
    (is_empty tenant || str_eq j.tenant_id tenant)
    && (is_nil statuses || status_in statuses j)
    && (is_nil types || type_in types j)

-- ListPostprocessJobs
unfoldable pub list_jobs : JobFilter → Jobs → List PostprocessJob
list_jobs f js = take (list_limit f.limit) (order_by newest_first (select (matches f) js))
