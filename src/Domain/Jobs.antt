-- ===== src/Domain/Jobs.antt =====
-- The postprocess jobs of internal/domain/repository.go. Go's enumerations are strings: a
-- constructor `other_…` holds any text that is not one of the named ones.
use pali.Common.{ℕ, ℤ, String, Option, List}
use pali.Clock.{Time}

pub data JobType : Type 0 where
  parser_extract vector_upsert : JobType
  other_type : String → JobType

pub data JobStatus : Type 0 where
  queued running succeeded failed dead_letter : JobStatus
  other_status : String → JobStatus

-- string(jobType)
unfoldable pub type_text : JobType → String
type_text parser_extract = "parser_extract"
type_text vector_upsert = "vector_upsert"
type_text (other_type s) = s

-- string(status)
unfoldable pub status_text : JobStatus → String
status_text queued = "queued"
status_text running = "running"
status_text succeeded = "succeeded"
status_text failed = "failed"
status_text dead_letter = "dead_letter"
status_text (other_status s) = s

-- MemoryPostprocessJob, and the row of memory_postprocess_jobs. `leased_until` is `none` where the
-- row has the empty text and the record the zero time.
pub record PostprocessJob : Type 0 where
  pub id : String
  pub ingest_id : String
  pub tenant_id : String
  pub memory_id : String
  pub job_type : JobType
  pub status : JobStatus
  pub attempts : ℕ
  pub max_attempts : ℕ
  pub available_at : Time
  pub lease_owner : String
  pub leased_until : Option Time
  pub last_error : String
  pub created_at : Time
  pub updated_at : Time

-- MemoryPostprocessJobEnqueue
pub record JobEnqueue : Type 0 where
  pub ingest_id : String
  pub tenant_id : String
  pub memory_id : String
  pub job_type : JobType
  pub max_attempts : ℤ

-- MemoryPostprocessClaimOptions
pub record ClaimOptions : Type 0 where
  pub owner : String
  pub limit : ℤ
  pub now : Time
  pub lease_until : Time

-- MemoryPostprocessJobFilter
pub record JobFilter : Type 0 where
  pub tenant_id : String
  pub statuses : List JobStatus
  pub types : List JobType
  pub limit : ℤ
