-- ===== src/Memories/Consistency.antt =====
-- What stays true of the tables of memories.
use pali.Common.{
  ℕ, suc, String, str_eq, true, false, not, ◌||◌, ◌≡◌, refl, sym, ap, ◌∙◌, List, [], ◌∷◌, ◌++◌, map,
  Result, ok, err, IfOk, IfOk-guard, IfOk-bind, IfOk-unit, invalid_input, constraint_failed, inl,
  inr, Bool-cases, All, All-append, AllPairs, ◌==◌,
}
use pali.Common.Sql.{
  select, count, exists, All-select, All-update, AllPairs-select, AllPairs-update, AllPairs-snoc,
  All-of_not-exists,
}
use pali.Common.Sql.Laws.{select-map, map-update, map-append}
use pali.Common.Text.{is_blank}
use pali.Common.Unique.{unique_non_empty}
use pali.Clock.{Time}
use pali.Domain.Memories.{Memory, upsert, delete, pending}
use pali.IndexJobs.{IndexJobs, upsert_index_job}
use pali.Memories.{
  FtsRow, Db, is_nan, id_is, is_memory, is_fts_row, tenant_is, prepared, prepare_memory, insert_row,
  insert_memory, store, store_from, store_batch, delete_memory, memory_in, touched, touch,
}
use pali.Memories.Isolation.{Operation, storing, deleting, touching, apply, apply_all}

-- Two rows have other ids.
abbrev IdsDiffer : Memory → Memory → Type 0
IdsDiffer a b = str_eq a.id b.id ≡ false

-- The row of the full-text table that goes with a memory.
unfoldable pub fts_row_of : Memory → FtsRow
fts_row_of m = record { tenant_id = m.tenant_id; memory_id = m.id }

-- Ids are not shared, each memory is of a tenant that exists, and the full-text table has
-- the row of each memory and no other.
pub record IsConsistent (db : Db) : Type 0 where
  pub apart : AllPairs IdsDiffer db.memories
  pub housed : All (λ m. exists (tenant_is m.tenant_id) db.tenants ≡ true) db.memories
  pub indexed_rows : db.fts ≡ map fts_row_of db.memories

insert_row-IsConsistent :
    (m : Memory) (db : Db) → IsConsistent db → IfOk IsConsistent (insert_row m db)
unfolding insert_row fts_row_of id_is
insert_row-IsConsistent m db c =
    IfOk-guard _ (is_nan m.importance) constraint_failed _
      (elim (Bool-cases (exists (id_is m.id) db.memories)) [
        | inl e ↦ rw e tt
        | inr e ↦ elim (Bool-cases (exists (tenant_is m.tenant_id) db.tenants)) [
          | inl i ↦
              rw (e, i)
                (record {
                  apart =
                      AllPairs-snoc IdsDiffer db.memories m c.apart
                        (All-of_not-exists (id_is m.id) db.memories e);
                  housed = All-append _ db.memories (m ∷ []) c.housed (i, tt);
                  indexed_rows =
                      ap (λ r. r ++ fts_row_of m ∷ []) c.indexed_rows
                      ∙ sym (map-append fts_row_of db.memories (m ∷ []));
                })
          | inr i ↦ rw (e, i) tt
        ]
      ])

with_index_jobs-IsConsistent :
    (db : Db) (js : IndexJobs) → IsConsistent db → IsConsistent (record db { index_jobs = js })
with_index_jobs-IsConsistent db js c = record {
  apart = c.apart;
  housed = c.housed;
  indexed_rows = c.indexed_rows;
}

pub insert_memory-IsConsistent :
    (draw : String) (now : Time) (m : Memory) (db : Db)
    → IsConsistent db
    → IfOk IsConsistent (insert_memory draw now m db)
unfolding insert_memory
insert_memory-IsConsistent draw now m db c =
    IfOk-bind IsConsistent _ (insert_row m db) _ (insert_row-IsConsistent m db c) (λ db' k.
      IfOk-bind (λ js. Unit) _
        (upsert_index_job draw m.tenant_id m.id upsert pending "" now db'.index_jobs) _
        (IfOk-unit _) (λ js u. with_index_jobs-IsConsistent db' js k))

store-IsConsistent :
    (draw : String × String) (now : Time) (m : Memory) (db : Db)
    → IsConsistent db
    → IfOk (λ r. IsConsistent r.1) (store draw now m db)
unfolding store prepare_memory
store-IsConsistent draw now m db c =
    elim (Bool-cases (is_blank m.tenant_id || is_blank m.content)) [
      | inl e ↦ rw e tt
      | inr e ↦ rw e (
          IfOk-bind IsConsistent (λ r. IsConsistent r.1)
            (insert_memory draw.1 now (prepared draw.0 now m) db) _
            (insert_memory-IsConsistent draw.1 now (prepared draw.0 now m) db c) (λ db' k. k))
    ]

store_from-IsConsistent :
    (draw : ℕ → String × String) (now : Time) (i : ℕ) (ms : List Memory) (db : Db)
    → IsConsistent db
    → IfOk (λ r. IsConsistent r.1) (store_from draw now i ms db)
unfolding store_from
store_from-IsConsistent draw now i [] db c = c
store_from-IsConsistent draw now i (m ∷ ms) db c =
    IfOk-bind (λ r. IsConsistent r.1) _ (store (draw i) now m db) _
      (store-IsConsistent (draw i) now m db c)
      (λ first k.
        IfOk-bind (λ r. IsConsistent r.1) _ (store_from draw now (suc i) ms first.1) _
          (store_from-IsConsistent draw now (suc i) ms first.1 k) (λ later l. l))

delete_memory-IsConsistent :
    (draw : String) (now : Time) (tenant id : String) (db : Db)
    → IsConsistent db
    → IfOk IsConsistent (delete_memory draw now tenant id db)
unfolding delete_memory is_memory is_fts_row fts_row_of
delete_memory-IsConsistent draw now tenant id db c =
    IfOk-bind (λ js. Unit) _ (upsert_index_job draw tenant id delete pending "" now db.index_jobs) _
      (IfOk-unit _)
      (λ js u. elim (Bool-cases (count (is_memory tenant id) db.memories == 0)) [
        | inl e ↦ rw e tt
        | inr e ↦ rw e (record {
          apart = AllPairs-select IdsDiffer _ db.memories c.apart;
          housed = All-select _ _ db.memories c.housed;
          indexed_rows =
              ap (select (λ r. not (is_fts_row tenant id r))) c.indexed_rows
              ∙ select-map fts_row_of (λ m. not (is_memory tenant id m))
                  (λ r. not (is_fts_row tenant id r)) db.memories (λ a. refl);
        })
      ])

touch-IsConsistent :
    (now : Time) (tenant : String) (ids : List String) (db : Db)
    → IsConsistent db
    → IfOk IsConsistent (touch now tenant ids db)
unfolding touch touched fts_row_of
touch-IsConsistent now tenant ids db c =
    IfOk-guard IsConsistent (is_blank tenant) invalid_input _ (record {
      apart =
          AllPairs-update IdsDiffer (memory_in tenant (unique_non_empty ids)) (touched now)
            db.memories (λ a b r. r) (λ a b r. r) c.apart;
      housed = All-update _ _ (touched now) db.memories (λ a e h. h) c.housed;
      indexed_rows =
          c.indexed_rows ∙ sym (map-update fts_row_of _ (touched now) db.memories (λ a. refl));
    })

settle :
    {A : Type 0} (db : Db) (f : A → Db) (r : Result A)
    → IsConsistent db
    → IfOk (λ a. IsConsistent (f a)) r
    → IsConsistent (elim r [ ok a ↦ f a | err e ↦ db ])
settle db f (ok a) c h = h
settle db f (err e) c h = c

apply-IsConsistent : (op : Operation) (db : Db) → IsConsistent db → IsConsistent (apply op db)
unfolding apply store_batch
apply-IsConsistent (storing draw now ms) db c =
    settle db (λ r. r.1) (store_from draw now 0 ms db) c
      (store_from-IsConsistent draw now 0 ms db c)
apply-IsConsistent (deleting draw now tenant id) db c =
    settle db (λ r. r) (delete_memory draw now tenant id db) c
      (delete_memory-IsConsistent draw now tenant id db c)
apply-IsConsistent (touching now tenant ids) db c =
    settle db (λ r. r) (touch now tenant ids db) c (touch-IsConsistent now tenant ids db c)

-- Every sequence of batches, deletions and touches, failing ones included, that starts from
-- consistent tables ends in tables where no two memories share an id, each memory is of a tenant that
-- exists, and the full-text table has the row of each memory and no other, in the same order.
pub apply_all-IsConsistent :
    (ops : List Operation) (db : Db) → IsConsistent db → IsConsistent (apply_all ops db)
unfolding apply_all
apply_all-IsConsistent [] db c = c
apply_all-IsConsistent (op ∷ ops) db c =
    apply_all-IsConsistent ops (apply op db) (apply-IsConsistent op db c)
