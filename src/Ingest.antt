-- ===== src/Ingest.antt =====
-- StoreBatchAsyncIngest of internal/repository/sqlite/memory_jobs.go: memories and the jobs that
-- postprocess them, written in one transaction. For the item numbered `i`, `draw i` has the id of the
-- memory and of its index job, and `draw_job i` those of the jobs for vectors and for parsing.
pub mod Consistency
use pali.Common.{
  ℕ, ℤ, suc, String, Bool, true, false, List, [], ◌∷◌, ◌++◌, Result, ok, err, ◌>>=◌, guard,
  invalid_input, if◌then◌else◌, positive_or,
}
use pali.Common.Unique.{has_text}
use pali.Clock.{Time}
use pali.Domain.Jobs.{JobType, parser_extract, vector_upsert, JobEnqueue}
use pali.Domain.Memories.{Memory}
use pali.Queue.{Jobs, upsert_job}
use pali.Memories.{Db, prepare_memory, insert_memory}

-- MemoryAsyncIngestItem
pub record IngestItem : Type 0 where
  pub memory : Memory
  pub queue_parser : Bool
  pub queue_vector : Bool

-- MemoryIngestReceipt
pub record IngestReceipt : Type 0 where
  pub ingest_id : String
  pub memory_ids : List String
  pub job_ids : List String
  pub accepted_at : Time

-- A job of the batch, where the item asks for it: the ids of the jobs written.
unfoldable pub queue_job :
    Bool → String → String → ℕ → Time → JobType → Memory → Jobs → Result (List String × Jobs)
queue_job false ingest draw max now type m js = ok ([], js)
queue_job true ingest draw max now type m js =
    upsert_job (ingest, draw)
      (record {
        ingest_id = ingest;
        tenant_id = m.tenant_id;
        memory_id = m.id;
        job_type = type;
        max_attempts = ℤ.pos max;
      })
      now js
    >>= λ written. ok (written.0 ∷ [], written.1)

-- The loop from the item numbered `i`: the ids of the memories and of the jobs, and the tables.
unfoldable pub ingest_from :
    (ℕ → String × String)
    → (ℕ → String × String)
    → String
    → ℕ
    → Time
    → ℕ
    → List IngestItem
    → Db
    → Jobs
    → Result (List String × List String × Db × Jobs)
ingest_from draw draw_job ingest max now i [] db js = ok ([], [], db, js)
ingest_from draw draw_job ingest max now i (item ∷ items) db js =
    prepare_memory (draw i).0 now item.memory >>= λ m. insert_memory (draw i).1 now m db >>= λ db'.
    queue_job item.queue_vector ingest (draw_job i).0 max now vector_upsert m js >>= λ v.
    queue_job item.queue_parser ingest (draw_job i).1 max now parser_extract m v.1 >>= λ p.
    ingest_from draw draw_job ingest max now (suc i) items db' p.1 >>= λ later.
    ok (m.id ∷ later.0, v.0 ++ p.0 ++ later.1, later.2, later.3)

-- The job ids that were not seen before, in their order.
unfoldable pub unseen : List String → List String → List String
unseen seen [] = []
unseen seen (id ∷ ids) =
    let again = unseen seen ids in
    let kept = id ∷ unseen (id ∷ seen) ids in if has_text id seen then again else kept

-- StoreBatchAsyncIngest; `ingest` is the drawn ingest id.
unfoldable pub ingest_batch :
    (ℕ → String × String)
    → (ℕ → String × String)
    → String
    → Time
    → List IngestItem
    → ℤ
    → Db
    → Jobs
    → Result (IngestReceipt × Db × Jobs)
ingest_batch draw draw_job ingest now [] max db js = err invalid_input
ingest_batch draw draw_job ingest now (item ∷ items) max db js =
    ingest_from draw draw_job ingest (positive_or max 5) now 0 (item ∷ items) db js >>= λ written.
    ok (
      record {
        ingest_id = ingest;
        memory_ids = written.0;
        job_ids = unseen [] written.1;
        accepted_at = now;
      },
      written.2,
      written.3,
    )
