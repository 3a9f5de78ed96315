-- ===== src/Tests/WorkerRuns.antt =====
-- The worker at concrete inputs.
use pali.Common.{ℤ, ◌+◌, ◌*◌, ◌≤◌, ◌<◌, true, ◌≡◌, refl, some, List, [], ◌∷◌, All, arith}
use pali.Common.Sql.{find}
use pali.Common.Text.{trim_space, is_empty}
use pali.Clock.{second}
use pali.Domain.Jobs.{PostprocessJob, dead_letter}
use pali.Queue.{Jobs, has_id}
use pali.Queue.Claim.{claim, claim_tx, claim_time, claim_lease}
use pali.Worker.{
  WorkerOptions, default_options, normalize_options, retry_delay, attempt_limit, settled_row,
  round_claim, worker_round,
}
use pali.Worker.Retry.{retry_delay-eq-min, normalize_options_bounds}
use pali.Worker.Attempts.{Attempt, attempt_rows, attempt_rows-status}
use pali.Worker.Round.{worker_round-settles}
use pali.Tests.QueueRuns.{noon, waiting_job, table, table-IsConsistent}

-- The fourth attempt's delay: half a second, doubled three times.
retry_delay-eq-min_example :
    retry_delay 4 (ℤ.pos 500_000_000) (ℤ.pos 60_000_000_000) ≡ ℤ.pos 4_000_000_000
retry_delay-eq-min_example =
    retry_delay-eq-min 3 500_000_000 60_000_000_000 (omega arith) (omega arith) (omega arith)

abbrev given : WorkerOptions
given = record {
  enabled = true;
  poll_interval = ℤ.pos 0;
  batch_size = ℤ.negsuc 4;
  worker_count = ℤ.pos 3;
  lease = ℤ.pos 0;
  max_attempts = ℤ.pos 0;
  retry_base = ℤ.pos 90_000_000_000;
  retry_max = ℤ.pos 0;
}

normalize_options_bounds_example :
    let n = normalize_options given in
    (0 < n.poll_interval)
    × (0 < n.batch_size)
    × (0 < n.worker_count)
    × (0 < n.lease)
    × (0 < n.max_attempts)
    × (0 < n.retry_base)
    × (n.retry_base ≤ n.retry_max)
normalize_options_bounds_example = normalize_options_bounds given

abbrev timeout : Attempt
timeout = record {
  owner = "w1";
  lease = noon + 30 * second;
  claimed_at = noon;
  failed_at = noon + second;
  error = "timeout";
}

-- Five failures of a job that allows five attempts.
attempt_rows-status_example :
    let job =
      attempt_rows default_options
        (timeout ∷ timeout ∷ timeout ∷ timeout ∷ timeout ∷ [])
        waiting_job in
    (job.attempts ≡ 5) × (job.status ≡ dead_letter)
unfolding attempt_limit
attempt_rows-status_example =
    attempt_rows-status default_options timeout (timeout ∷ timeout ∷ timeout ∷ timeout ∷ [])
      waiting_job

abbrev claimed_now : List PostprocessJob × Jobs
claimed_now = claim_tx "w1" (noon + 30 * second) noon 32 table

worker_round-settles_example :
    All
      (λ j.
        find
          (has_id j.id)
          (worker_round default_options "w1" noon (λ j. noon + second) (λ j. some "timeout") table)
        ≡ some (settled_row default_options (noon + second) (some "timeout") j))
      claimed_now.0
unfolding claim round_claim claim_time claim_lease trim_space is_empty
worker_round-settles_example =
    worker_round-settles default_options "w1" noon (λ j. noon + second) (λ j. some "timeout") table
      {r = claimed_now} table-IsConsistent refl
