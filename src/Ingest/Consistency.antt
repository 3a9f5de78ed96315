-- ===== src/Ingest/Consistency.antt =====
-- An ingest keeps what is true of the memories and of the queue.
use pali.Common.{
  ℕ, ℤ, suc, String, Bool, true, false, ◌≡◌, refl, ap, List, [], ◌∷◌, length, IfOk, IfOk-bind,
  IfOk-unit, positive_or,
}
use pali.Common.Text.{trim_space}
use pali.Clock.{Time}
use pali.Domain.Jobs.{JobType, parser_extract, vector_upsert}
use pali.Domain.Memories.{Memory}
use pali.Queue.{Jobs, upsert_job}
use pali.Queue.Consistency.{IsConsistent as QueueIsConsistent, upsert_job-IsConsistent}
use pali.Memories.{Db, prepare_memory, insert_memory}
use pali.Memories.Consistency.{IsConsistent, insert_memory-IsConsistent}
use pali.Ingest.{IngestItem, queue_job, ingest_from, ingest_batch}

queue_job-IsConsistent :
    (wanted : Bool) (ingest draw : String) (max : ℕ) (now : Time) (type : JobType) (m : Memory)
    (js : Jobs)
    → trim_space draw ≡ draw
    → QueueIsConsistent js
    → IfOk (λ r. QueueIsConsistent r.1) (queue_job wanted ingest draw max now type m js)
unfolding queue_job
queue_job-IsConsistent false ingest draw max now type m js t c = c
queue_job-IsConsistent true ingest draw max now type m js t c =
    IfOk-bind (λ r. QueueIsConsistent r.1) _ (upsert_job (ingest, draw) _ now js) _
      (upsert_job-IsConsistent (ingest, draw) _ now js t c) (λ written k. k)

-- What holds of the results of the loop for so many items.
abbrev Written : ℕ → List String × List String × Db × Jobs → Type 0
Written n r = (length r.0 ≡ n) × IsConsistent r.2 × QueueIsConsistent r.3

ingest_from-Written :
    (draw draw_job : ℕ → String × String) (ingest : String) (max : ℕ) (now : Time) (i : ℕ)
    (items : List IngestItem) (db : Db) (js : Jobs)
    → ((k : ℕ)
        → (trim_space (draw_job k).0 ≡ (draw_job k).0)
          × (trim_space (draw_job k).1 ≡ (draw_job k).1))
    → IsConsistent db
    → QueueIsConsistent js
    → IfOk (Written (length items)) (ingest_from draw draw_job ingest max now i items db js)
unfolding ingest_from
ingest_from-Written draw draw_job ingest max now i [] db js t c q = (refl, c, q)
ingest_from-Written draw draw_job ingest max now i (item ∷ items) db js t c q =
    IfOk-bind (λ m. Unit) _ (prepare_memory (draw i).0 now item.memory) _ (IfOk-unit _)
      (λ m u.
        IfOk-bind IsConsistent _ (insert_memory (draw i).1 now m db) _
          (insert_memory-IsConsistent (draw i).1 now m db c)
          (λ db' c'.
            IfOk-bind (λ r. QueueIsConsistent r.1) _
              (queue_job item.queue_vector ingest (draw_job i).0 max now vector_upsert m js) _
              (queue_job-IsConsistent item.queue_vector ingest _ max now vector_upsert m js (t i).0
                q)
              (λ v q'.
                IfOk-bind (λ r. QueueIsConsistent r.1) _
                  (queue_job item.queue_parser ingest (draw_job i).1 max now parser_extract m v.1) _
                  (queue_job-IsConsistent item.queue_parser ingest _ max now parser_extract m v.1
                    (t i).1 q')
                  (λ p q''.
                    IfOk-bind (Written (length items)) _
                      (ingest_from draw draw_job ingest max now (suc i) items db' p.1) _
                      (ingest_from-Written draw draw_job ingest max now (suc i) items db' p.1 t c'
                        q'')
                      (λ later w. (ap suc w.0, w.1, w.2))))))

-- An ingest that succeeds, over consistent tables and with drawn job ids that have no white space
-- around them: the receipt has as many memory ids as there are items, and the tables of memories and
-- the queue are consistent afterwards.
pub ingest_batch-IsConsistent :
    (draw draw_job : ℕ → String × String) (ingest : String) (now : Time) (items : List IngestItem)
    (max : ℤ) (db : Db) (js : Jobs)
    → ((k : ℕ)
        → (trim_space (draw_job k).0 ≡ (draw_job k).0)
          × (trim_space (draw_job k).1 ≡ (draw_job k).1))
    → IsConsistent db
    → QueueIsConsistent js
    → IfOk
        (λ r. (length r.0.memory_ids ≡ length items) × IsConsistent r.1 × QueueIsConsistent r.2)
        (ingest_batch draw draw_job ingest now items max db js)
unfolding ingest_batch
ingest_batch-IsConsistent draw draw_job ingest now [] max db js t c q = tt
ingest_batch-IsConsistent draw draw_job ingest now (item ∷ items) max db js t c q =
    IfOk-bind (Written (length (item ∷ items))) _
      (ingest_from draw draw_job ingest (positive_or max 5) now 0 (item ∷ items) db js) _
      (ingest_from-Written draw draw_job ingest (positive_or max 5) now 0 (item ∷ items) db js t c
        q)
      (λ written w. w)
