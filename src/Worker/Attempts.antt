-- ===== src/Worker/Attempts.antt =====
-- How often a failing job is attempted.
use pali.Common.{◌+◌, String, ◌≡◌, refl, some, List, [], ◌∷◌, arith, length, leb, if◌then◌else◌}
use pali.Clock.{Time}
use pali.Domain.Jobs.{failed, dead_letter, PostprocessJob}
use pali.Queue.Claim.{lease_to}
use pali.Queue.Mark.{fail}
use pali.Worker.{NormalOptions, attempt_limit, failure_status, settled_row}

-- A claim of a job and a failure of it: the lease, and the time and text of the error.
pub record Attempt : Type 0 where
  pub owner : String
  pub lease : Time
  pub claimed_at : Time
  pub failed_at : Time
  pub error : String

unfoldable pub attempt_row : NormalOptions → Attempt → PostprocessJob → PostprocessJob
unfolding lease_to settled_row fail
attempt_row opts a job =
    settled_row opts a.failed_at (some a.error) (lease_to a.owner a.lease a.claimed_at job)

unfoldable pub attempt_rows : NormalOptions → List Attempt → PostprocessJob → PostprocessJob
attempt_rows opts [] job = job
attempt_rows opts (a ∷ rest) job = attempt_rows opts rest (attempt_row opts a job)

attempt_row-attempts :
    (opts : NormalOptions) (a : Attempt) (job : PostprocessJob)
    → ((attempt_row opts a job).attempts ≡ job.attempts + 1)
      × (attempt_limit opts (attempt_row opts a job) ≡ attempt_limit opts job)
unfolding attempt_row attempt_limit
attempt_row-attempts opts a job = (refl, refl)

attempt_row-status :
    (opts : NormalOptions) (a : Attempt) (job : PostprocessJob)
    → (attempt_row opts a job).status
      ≡ (if leb (attempt_limit opts job) (job.attempts + 1) then dead_letter else failed)
unfolding attempt_row failure_status attempt_limit
attempt_row-status opts a job = refl

-- A job that fails at each attempt has its attempts counted, and is failed, so waits to be claimed
-- again, as long as they are fewer than its limit, and dead once they are as many. The limit is the
-- job's own, or the worker's where that is 0.
pub attempt_rows-status :
    (opts : NormalOptions) (a : Attempt) (rest : List Attempt) (job : PostprocessJob)
    → ((attempt_rows opts (a ∷ rest) job).attempts ≡ job.attempts + length (a ∷ rest))
      × ((attempt_rows opts (a ∷ rest) job).status ≡ (
          if leb (attempt_limit opts job) (job.attempts + length (a ∷ rest))
          then dead_letter
          else failed))
unfolding attempt_rows
attempt_rows-status opts a [] job =
    ground (arith, attempt_row-attempts opts a job, attempt_row-status opts a job)
attempt_rows-status opts a (b ∷ rest) job = ground (
  arith,
  attempt_row-attempts opts a job,
  attempt_rows-status opts b rest (attempt_row opts a job),
)
