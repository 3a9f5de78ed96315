-- ===== src/Memories.antt =====
-- The memories in SQLite, internal/repository/sqlite/memory.go with its statements in queries.go.
-- A failed transaction is rolled back, so an error carries no state. `draw` stands for the texts of
-- `newID`, and `now` for `time.Now()`. The JSON columns are the values that they encode.
pub mod Consistency
pub mod Isolation
pub mod Returned
pub mod Asked
pub mod Search
use pali.Common.{
  ℕ, ℤ, zero, suc, ◌+◌, ◌%◌, ◌^◌, String, str_eq, Bool, true, false, not, ◌&&◌, ◌||◌, Option, none,
  some, List, [], ◌∷◌, ◌++◌, Result, ok, err, ◌>>=◌, guard, invalid_input, not_found,
  constraint_failed, if◌then◌else◌, ltb, leb, ◌==◌, positive_or, take, length,
}
use pali.Common.Sql.{select, update, count, find, exists, order_by}
use pali.Common.Text.{trim_space, is_empty, is_blank}
use pali.Common.Unique.{has_text, unique_non_empty, index_of}
use pali.Clock.{Time, is_zero, unix_epoch, stamp_leb}
use pali.Domain.Memories.{
  Float64, Tier, auto, tier_text, CreatedBy, by_auto, creator_text, Kind, raw_turn, observation,
  event, kind_text, Memory, Tenant, upsert, delete, pending,
}
use pali.IndexJobs.{IndexJobs, upsert_index_job}

-- The row of the full-text table; its text, which only SQLite's search reads, is left out.
pub record FtsRow : Type 0 where
  pub tenant_id : String
  pub memory_id : String

-- The tables that the operations on memories read and write.
pub record Db : Type 0 where
  pub tenants : List Tenant
  pub memories : List Memory
  pub fts : List FtsRow
  pub index_jobs : IndexJobs

unfoldable pub is_memory : String → String → Memory → Bool
is_memory tenant id m = str_eq m.tenant_id tenant && str_eq m.id id

unfoldable pub is_fts_row : String → String → FtsRow → Bool
is_fts_row tenant id r = str_eq r.tenant_id tenant && str_eq r.memory_id id

unfoldable pub tenant_is : String → Tenant → Bool
tenant_is id t = str_eq t.id id

unfoldable pub id_is : String → Memory → Bool
id_is id m = str_eq m.id id

-- The defaults of prepareMemoryForStore
unfoldable pub prepared_index : Memory → ℤ
prepared_index m = elim m.source_fact_index [
  | ℤ.pos n ↦ if n == 0 && is_blank m.canonical_key then ℤ.negsuc 0 else ℤ.pos n
  | ℤ.negsuc n ↦ ℤ.negsuc n
]

unfoldable pub non_negative : ℤ → ℤ
non_negative (ℤ.pos n) = ℤ.pos n
non_negative (ℤ.negsuc n) = ℤ.pos 0

unfoldable pub prepared : String → Time → Memory → Memory
prepared draw now m = record m {
  id = if is_empty m.id then draw else m.id;
  tier = if is_empty (tier_text m.tier) then auto else m.tier;
  created_by = if is_empty (creator_text m.created_by) then by_auto else m.created_by;
  kind = if is_empty (kind_text m.kind) then raw_turn else m.kind;
  source_fact_index = prepared_index m;
  created_at = if is_zero m.created_at then now else m.created_at;
  updated_at = now;
  last_accessed_at = if is_zero m.last_accessed_at then now else m.last_accessed_at;
  last_recalled_at = if is_zero m.last_recalled_at then unix_epoch else m.last_recalled_at;
  recall_count = non_negative m.recall_count;
}

-- prepareMemoryForStore
unfoldable pub prepare_memory : String → Time → Memory → Result Memory
prepare_memory draw now m =
    guard (is_blank m.tenant_id || is_blank m.content) invalid_input (ok (prepared draw now m))

-- The bits of a NaN, which SQLite stores as NULL; `importance` is NOT NULL.
unfoldable pub is_nan : Float64 → Bool
is_nan bits = ltb 0x7FF0000000000000 (bits % 2 ^ 63)

-- InsertMemorySQL: the primary key may not be taken, and the tenant has to be there.
unfoldable pub insert_row : Memory → Db → Result Db
insert_row m db = guard (is_nan m.importance) constraint_failed (
    if exists (id_is m.id) db.memories || not (exists (tenant_is m.tenant_id) db.tenants)
    then err constraint_failed
    else ok (record db {
      memories = db.memories ++ m ∷ [];
      fts = db.fts ++ record { tenant_id = m.tenant_id; memory_id = m.id } ∷ [];
    }))

-- insertMemoryTx; `draw` is the id of the index job.
unfoldable pub insert_memory : String → Time → Memory → Db → Result Db
insert_memory draw now m db = insert_row m db >>= λ db'.
    upsert_index_job draw m.tenant_id m.id upsert pending "" now db'.index_jobs >>= λ js.
    ok (record db' { index_jobs = js })

-- Store; `draw` has the id of the memory and that of its index job.
unfoldable pub store : String × String → Time → Memory → Db → Result (Memory × Db)
store draw now m db =
    prepare_memory draw.0 now m >>= λ m'. insert_memory draw.1 now m' db >>= λ db'. ok (m', db')

-- The loop of StoreBatch, from the memory numbered `i`.
unfoldable pub store_from :
    (ℕ → String × String) → Time → ℕ → List Memory → Db → Result (List Memory × Db)
store_from draw now i [] db = ok ([], db)
store_from draw now i (m ∷ ms) db = store (draw i) now m db >>= λ first.
    store_from draw now (suc i) ms first.1 >>= λ later. ok (first.0 ∷ later.0, later.1)

-- StoreBatch
unfoldable pub store_batch :
    (ℕ → String × String) → Time → List Memory → Db → Result (List Memory × Db)
store_batch draw now ms db = store_from draw now 0 ms db

-- Delete, with DeleteMemoryFTSSQL and DeleteMemorySQL.
unfoldable pub delete_memory : String → Time → String → String → Db → Result Db
delete_memory draw now tenant id db =
    upsert_index_job draw tenant id delete pending "" now db.index_jobs >>= λ js.
    if count (is_memory tenant id) db.memories == 0
    then err not_found
    else ok (record db {
      memories = select (λ m. not (is_memory tenant id m)) db.memories;
      fts = select (λ r. not (is_fts_row tenant id r)) db.fts;
      index_jobs = js;
    })

unfoldable pub memory_in : String → List String → Memory → Bool
memory_in tenant ids m = str_eq m.tenant_id tenant && has_text m.id ids

unfoldable pub memory_order : List String → Memory → Memory → Bool
memory_order ids a b = leb (index_of ids a.id) (index_of ids b.id)

-- GetByIDs
unfoldable pub get_by_ids : String → List String → Db → Result (List Memory)
get_by_ids tenant ids db = guard (is_blank tenant) invalid_input (
    ok (
      order_by (memory_order (unique_non_empty ids))
        (select (memory_in tenant (unique_non_empty ids)) db.memories)))

-- recall_count + 1
unfoldable pub incremented : ℤ → ℤ
incremented (ℤ.pos n) = ℤ.pos (n + 1)
incremented (ℤ.negsuc zero) = ℤ.pos 0
incremented (ℤ.negsuc (suc n)) = ℤ.negsuc n

unfoldable pub touched : Time → Memory → Memory
unfolding incremented
touched now m = record m {
  last_accessed_at = now;
  last_recalled_at = now;
  recall_count = incremented m.recall_count;
  updated_at = now;
}

-- Touch
unfoldable pub touch : Time → String → List String → Db → Result Db
touch now tenant ids db = guard (is_blank tenant) invalid_input (
    ok (record db {
      memories = update (memory_in tenant (unique_non_empty ids)) (touched now) db.memories;
    }))
