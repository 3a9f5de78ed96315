-- ===== src/Worker.antt =====
-- The postprocess workers, internal/core/memory/postprocess_worker.go: their options, the delay
-- before a retry, and what a worker does with the outcome of a job. Durations are nanoseconds.
pub mod Retry
pub mod Attempts
pub mod Pass
pub mod Round
use pali.Common.{
  ℕ, ℤ, zero, suc, ◌+◌, ◌-◌, ◌*◌, ◌/◌, ◌%◌, ◌^◌, String, Bool, true, Option, none, some, List, [],
  ◌∷◌, Result, ok, err, if◌then◌else◌, ltb, leb, ◌==◌, positive_or, not, lt_int,
}
use pali.Common.Text.{trim_space}
use pali.Common.Words.{signed}
use pali.Clock.{Time}
use pali.Domain.Jobs.{JobStatus, failed, dead_letter, PostprocessJob, ClaimOptions}
use pali.Queue.{Jobs}
use pali.Queue.Claim.{claim}
use pali.Queue.Mark.{succeed, fail, time_or, mark_succeeded, mark_failed}
use pali.Queue.History.{table_of}

-- PostprocessWorkerOptions as it is given; a duration is an int64.
pub record WorkerOptions : Type 0 where
  pub enabled : Bool
  pub poll_interval : ℤ
  pub batch_size : ℤ
  pub worker_count : ℤ
  pub lease : ℤ
  pub max_attempts : ℤ
  pub retry_base : ℤ
  pub retry_max : ℤ

-- The same once it is normalized, when every number is positive.
pub record NormalOptions : Type 0 where
  pub enabled : Bool
  pub poll_interval : ℕ
  pub batch_size : ℕ
  pub worker_count : ℕ
  pub lease : ℕ
  pub max_attempts : ℕ
  pub retry_base : ℕ
  pub retry_max : ℕ

abbrev millisecond : ℕ
millisecond = 1_000_000

-- DefaultPostprocessWorkerOptions
abbrev pub default_options : NormalOptions
default_options = record {
  enabled = true;
  poll_interval = 250 * millisecond;
  batch_size = 32;
  worker_count = 2;
  lease = 30_000 * millisecond;
  max_attempts = 5;
  retry_base = 500 * millisecond;
  retry_max = 60_000 * millisecond;
}

-- normalizePostprocessWorkerOptions
unfoldable pub normalize_options : WorkerOptions → NormalOptions
normalize_options o =
    let base = positive_or o.retry_base default_options.retry_base in
    let max = positive_or o.retry_max default_options.retry_max in
    record {
      enabled = o.enabled;
      poll_interval = positive_or o.poll_interval default_options.poll_interval;
      batch_size = positive_or o.batch_size default_options.batch_size;
      worker_count = positive_or o.worker_count default_options.worker_count;
      lease = positive_or o.lease default_options.lease;
      max_attempts = positive_or o.max_attempts default_options.max_attempts;
      retry_base = if ltb max base then max else base;
      retry_max = max;
    }

-- `d * 2` on an int64, whose bits wrap, and `d / 2`, which rounds towards 0.
unfoldable pub twice : ℤ → ℤ
twice (ℤ.pos n) = signed ((n * 2) % 2 ^ 64)
twice (ℤ.negsuc n) = signed ((2 ^ 64 - ((n + 1) * 2) % 2 ^ 64) % 2 ^ 64)

unfoldable pub half : ℤ → ℤ
half (ℤ.pos n) = ℤ.pos (n / 2)
half (ℤ.negsuc zero) = ℤ.pos 0
half (ℤ.negsuc (suc n)) = ℤ.negsuc (n / 2)

-- The loop of retryDelay, by the rounds that are left.
unfoldable pub retry_loop : ℕ → ℤ → ℤ → ℤ
retry_loop zero delay max = if lt_int max delay then max else delay
retry_loop (suc rounds) delay max =
    let next = retry_loop rounds (twice delay) max in
    if not (lt_int delay max) then max else if lt_int (half max) delay then max else next

-- retryDelay
unfoldable pub retry_delay : ℕ → ℤ → ℤ → ℤ
retry_delay zero base max = base
retry_delay (suc rounds) base max =
    let delay = retry_loop rounds base max in if rounds == 0 then base else delay

-- Add of time.Time, down to the zero time, where the times of the model start.
unfoldable pub add_duration : Time → ℤ → Time
add_duration t (ℤ.pos d) = t + d
add_duration t (ℤ.negsuc d) = t - (d + 1)

-- `maxAttempts` of processPostprocessJob
unfoldable pub attempt_limit : NormalOptions → PostprocessJob → ℕ
attempt_limit opts job = if job.max_attempts == 0 then opts.max_attempts else job.max_attempts

unfoldable pub failure_status : NormalOptions → PostprocessJob → JobStatus
unfolding attempt_limit
failure_status opts job =
    if leb (attempt_limit opts job) (job.attempts + 1) then dead_letter else failed

-- `nextAvailable`
unfoldable pub next_available : NormalOptions → Time → PostprocessJob → Time
unfolding attempt_limit
next_available opts now job =
    if leb (attempt_limit opts job) (job.attempts + 1)
    then now
    else add_duration now
        (retry_delay (job.attempts + 1) (ℤ.pos opts.retry_base) (ℤ.pos opts.retry_max))

-- processPostprocessJob: `outcome` is the text of the error of executePostprocessJob, or `none`, and
-- `now` the time after it. An error of the mark is logged only.
unfoldable pub process_job : NormalOptions → Time → PostprocessJob → Option String → Jobs → Jobs
process_job opts now job none js = table_of js (λ ks. ks) (mark_succeeded job.id now now js)
process_job opts now job (some error) js =
    table_of js (λ ks. ks)
      (mark_failed job.id now (next_available opts now job) (ℤ.pos (job.attempts + 1))
        (failure_status opts job) (trim_space error) now js)

-- The row that a mark with this outcome makes of a job's row.
unfoldable pub settled_row : NormalOptions → Time → Option String → PostprocessJob → PostprocessJob
settled_row opts now none job = succeed (time_or now now) job
settled_row opts now (some error) job =
    fail (failure_status opts job) (job.attempts + 1)
      (time_or (next_available opts now job) (time_or now now)) (trim_space (trim_space error))
      (time_or now now) job

-- The loop over the claimed jobs in runPostprocessWorkerLoop, which a cancelled context ends early:
-- `jobs` are those before that.
unfoldable pub process_all :
    NormalOptions
    → (PostprocessJob → Time)
    → (PostprocessJob → Option String)
    → List PostprocessJob
    → Jobs
    → Jobs
process_all opts now outcome [] js = js
process_all opts now outcome (job ∷ jobs) js =
    process_all opts now outcome jobs (process_job opts (now job) job (outcome job) js)

-- The claim of a round.
unfoldable pub round_claim : NormalOptions → String → Time → ClaimOptions
round_claim opts owner clock = record {
  owner = owner;
  limit = ℤ.pos opts.batch_size;
  now = clock;
  lease_until = clock + opts.lease;
}

-- One round of runPostprocessWorkerLoop: an error of the claim, or no job, leaves the table.
unfoldable pub worker_round :
    NormalOptions
    → String
    → Time
    → (PostprocessJob → Time)
    → (PostprocessJob → Option String)
    → Jobs
    → Jobs
unfolding process_all
worker_round opts owner clock now outcome js =
    table_of js (λ (r : List PostprocessJob × Jobs). process_all opts now outcome r.0 r.1)
      (claim (round_claim opts owner clock) clock js)
