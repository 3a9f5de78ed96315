-- ===== src/Memories/Returned.antt =====
-- A deleted memory is gone.
use pali.Common.{
  ℕ, String, str_eq, false, not, ◌≡◌, refl, List, [], ◌∷◌, Result, ok, err, ◌>>=◌, Succeeds,
  not_found, inl, inr, Bool-cases, if◌then◌else◌, ◌==◌,
}
use pali.Common.Sql.{select, count, exists}
use pali.Common.Sql.Laws.{count-select-not, select-select}
use pali.Common.Text.{IsTidy}
use pali.Common.Unique.{unique_non_empty}
use pali.Clock.{Time}
use pali.Domain.Memories.{Memory, IndexOperation, delete, pending}
use pali.IndexJobs.{IndexJobs, is_job_of, upsert_index_job}
use pali.Memories.{Db, is_memory, is_fts_row, delete_memory}

pub unique_non_empty-tidy : (id : String) → IsTidy id → unique_non_empty (id ∷ []) ≡ id ∷ []
unfolding unique_non_empty
unique_non_empty-tidy id h = rw (h.0, h.1) refl

-- A new draw for an index job is accepted.
upsert_index_job-Succeeds :
    (draw tenant memory : String) (op : IndexOperation) (now : Time) (js : IndexJobs)
    → exists (λ j. str_eq j.id draw) js ≡ false
    → Succeeds (λ r. Unit) (upsert_index_job draw tenant memory op pending "" now js)
unfolding upsert_index_job
upsert_index_job-Succeeds draw tenant memory op now js h =
    elim (Bool-cases (exists (is_job_of tenant memory op) js)) [
      | inl e ↦ rw e tt
      | inr e ↦ rw (e, h) tt
    ]

-- The rows of a tenant and id, counted, and all other rows.
unfoldable pub around : String → String → Db → ℕ × List Memory
around tenant id db =
    (count (is_memory tenant id) db.memories, select (λ m. not (is_memory tenant id m)) db.memories)

-- Delete, with a new drawn id for the index job: NotFound where the tenant has no memory of that
-- id; otherwise no error, no row of that tenant and id is left, and all other rows stay.
pub delete_memory-gone :
    (draw : String) (now : Time) (tenant id : String) (db : Db)
    → exists (λ j. str_eq j.id draw) db.index_jobs ≡ false
    → (delete_memory draw now tenant id db >>= λ db'. ok (around tenant id db')) ≡ (
        if count (is_memory tenant id) db.memories == 0
        then err not_found
        else ok (0, (around tenant id db).1))
unfolding delete_memory around
delete_memory-gone draw now tenant id db fresh =
    go (upsert_index_job draw tenant id delete pending "" now db.index_jobs)
      (upsert_index_job-Succeeds draw tenant id delete now db.index_jobs fresh)
  where
    go :
        (r : Result IndexJobs)
        → Succeeds (λ js. Unit) r
        → (r
            >>= (λ js.
                if count (is_memory tenant id) db.memories == 0
                then err not_found
                else ok (record db {
                  memories = select (λ m. not (is_memory tenant id m)) db.memories;
                  fts = select (λ w. not (is_fts_row tenant id w)) db.fts;
                  index_jobs = js;
                }))
            >>= λ db'. ok (around tenant id db'))
          ≡ (if count (is_memory tenant id) db.memories == 0
              then err not_found
              else ok (0, (around tenant id db).1))
    go (ok js) h = elim (Bool-cases (count (is_memory tenant id) db.memories == 0)) [
      | inl e ↦ rw e refl
      | inr e ↦ rw e (
          rw
            (
              count-select-not (is_memory tenant id) db.memories,
              select-select (λ m. not (is_memory tenant id m)) (λ m. not (is_memory tenant id m))
                  db.memories (λ a k. k),
            )
            refl)
    ]
    go (err e) h = absurd h
