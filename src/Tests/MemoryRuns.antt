-- ===== src/Tests/MemoryRuns.antt =====
-- Memories, tenants and the service at concrete inputs.
use pali.Common.{
  length, ◌≤◌, ◌&&◌, str_eq, AllPairs, ℕ, zero, suc, ℤ, ◌+◌, String, true, ◌≡◌, refl, Option, some,
  List, [], ◌∷◌, ok, err, ◌>>=◌, Error, IfOk, Succeeds, not_found, if◌then◌else◌, ◌==◌,
}
use pali.Common.Sql.{count, exists}
use pali.Common.Text.{trim_space, is_empty, is_blank}
use pali.Common.Unique.{unique_non_empty, index_of}
use pali.Domain.Memories.{auto, by_user, raw_turn, Memory, Tenant}
use pali.Memories.{Db, FtsRow, get_by_ids, delete_memory, is_memory, id_is, tenant_is}
use pali.Memories.Isolation.{
  Operation, storing, deleting, touching, apply_all, memories_of, apply_all-isolated,
}
use pali.Memories.Asked.{is_asked, get_by_ids-exactly}
use pali.Memories.Consistency.{IsConsistent, fts_row_of, apply_all-IsConsistent}
use pali.Memories.Returned.{around, delete_memory-gone}
use pali.Service.{delete_by_service}
use pali.Service.Marks.{HasState, final_state}
use pali.Service.Deletion.{delete_by_service-HasState}
use pali.Storing.{no_metadata}
use pali.Queue.Consistency.{IsConsistent as QueueIsConsistent}
use pali.Ingest.{IngestItem, ingest_batch}
use pali.Ingest.Consistency.{ingest_batch-IsConsistent}
use pali.Tests.QueueRuns.{noon, table, table-IsConsistent}
use pali.Tenants.{list_with_stats, list_with_stats_each}
use pali.Tenants.Counts.{list_with_stats-each}

abbrev pub memory_called : String → String → Memory
memory_called tenant id = record {
  id = id;
  tenant_id = tenant;
  content = "likes tea";
  query_view_text = "";
  tier = auto;
  tags = [];
  source = "";
  created_by = by_user;
  kind = raw_turn;
  canonical_key = "";
  source_turn_hash = "";
  source_fact_index = ℤ.pos 0;
  extractor = "";
  extractor_version = "";
  importance = 0;
  recall_count = ℤ.pos 0;
  answer_metadata = no_metadata;
  created_at = 0;
  updated_at = 0;
  last_accessed_at = 0;
  last_recalled_at = 0;
}

abbrev pub tenant_called : String → Tenant
tenant_called id = record { id = id; name = id; created_at = noon }

abbrev row_called : String → String → FtsRow
row_called tenant id = record { tenant_id = tenant; memory_id = id }

abbrev pub tables : Db
tables = record {
  tenants = tenant_called "anna" ∷ tenant_called "ben" ∷ [];
  memories = memory_called "anna" "a1" ∷ memory_called "ben" "b1" ∷ memory_called "anna" "a2" ∷ [];
  fts = row_called "anna" "a1" ∷ row_called "ben" "b1" ∷ row_called "anna" "a2" ∷ [];
  index_jobs = [];
}

abbrev draws : ℕ → String × String
draws zero = ("m1", "j1")
draws (suc i) = ("m2", "j2")

-- Ben stores two memories, deletes one and touches another.
abbrev of_ben : List Operation
of_ben =
    storing draws noon (memory_called "ben" "" ∷ memory_called "ben" "" ∷ [])
    ∷ deleting "j3" noon "ben" "b1"
    ∷ touching noon "ben" ("m1" ∷ "a1" ∷ [])
    ∷ []

apply_all-isolated_example :
    memories_of "anna" (apply_all of_ben tables) ≡ memories_of "anna" tables
apply_all-isolated_example =
    apply_all-isolated "anna" of_ben tables ((refl, (refl, tt)), (refl, (refl, tt)))

pub tables-IsConsistent : IsConsistent tables
unfolding exists tenant_is fts_row_of
tables-IsConsistent = record {
  apart = ((refl, (refl, tt)), ((refl, tt), (tt, tt)));
  housed = (refl, (refl, (refl, tt)));
  indexed_rows = refl;
}

apply_all-IsConsistent_example : IsConsistent (apply_all of_ben tables)
apply_all-IsConsistent_example = apply_all-IsConsistent of_ben tables tables-IsConsistent

get_by_ids-exactly_example :
    Succeeds
      (λ ms.
        (count (id_is "a2") ms
          ≡ count
              (λ m.
                id_is "a2" m && (str_eq m.tenant_id "anna" && is_asked (" a2" ∷ "b1" ∷ []) m.id))
              tables.memories)
        × AllPairs
            (λ a b.
              index_of (unique_non_empty (" a2" ∷ "b1" ∷ [])) a.id
              ≤ index_of (unique_non_empty (" a2" ∷ "b1" ∷ [])) b.id)
            ms)
      (get_by_ids "anna" (" a2" ∷ "b1" ∷ []) tables)
unfolding is_blank
get_by_ids-exactly_example = get_by_ids-exactly (id_is "a2") "anna" (" a2" ∷ "b1" ∷ []) tables refl

delete_memory-gone_example :
    (delete_memory "j1" noon "ben" "b1" tables >>= λ db'. ok (around "ben" "b1" db')) ≡ (
      if count (is_memory "ben" "b1") tables.memories == 0
      then err not_found
      else ok (0, (around "ben" "b1" tables).1))
unfolding exists
delete_memory-gone_example = delete_memory-gone "j1" noon "ben" "b1" tables refl

-- A vector store that counts its deletions and always fails.
abbrev pub failing_vectors : String → String → ℕ → Option Error × ℕ
failing_vectors tenant id n = (some not_found, n + 1)

abbrev pub text_of : Error → String
text_of e = "failed"

delete_by_service-HasState_example :
    let done =
      delete_by_service text_of
        (some failing_vectors)
        (λ k i. "j1")
        (λ k. noon)
        "ben"
        "b1"
        tables
        0 in
    HasState "ben" "b1" (final_state done.0) done.1.index_jobs
unfolding is_blank trim_space is_empty exists tenant_is
delete_by_service-HasState_example =
    delete_by_service-HasState "ben" "b1" refl (refl, refl) text_of failing_vectors (λ k i. "j1")
      (λ k. noon) tables 0 refl refl

list_with_stats-each_example :
    list_with_stats_each (ℤ.pos 10) tables ≡ ok (list_with_stats (ℤ.pos 10) tables)
unfolding trim_space is_empty
list_with_stats-each_example =
    list_with_stats-each (ℤ.pos 10) tables ((refl, refl), ((refl, refl), tt))

abbrev job_draws : ℕ → String × String
job_draws i = ("ppj_8", "ppj_9")

job_draws-trimmed :
    (k : ℕ)
    → (trim_space (job_draws k).0 ≡ (job_draws k).0)
      × (trim_space (job_draws k).1 ≡ (job_draws k).1)
unfolding trim_space
job_draws-trimmed k = (refl, refl)

abbrev item : IngestItem
item = record { memory = memory_called "ben" ""; queue_parser = true; queue_vector = true }

ingest_batch-IsConsistent_example :
    IfOk
      (λ r. (length r.0.memory_ids ≡ 1) × IsConsistent r.1 × QueueIsConsistent r.2)
      (ingest_batch draws job_draws "ing_1" noon (item ∷ []) (ℤ.pos 5) tables table)
ingest_batch-IsConsistent_example =
    ingest_batch-IsConsistent draws job_draws "ing_1" noon (item ∷ []) (ℤ.pos 5) tables table
      job_draws-trimmed tables-IsConsistent table-IsConsistent
