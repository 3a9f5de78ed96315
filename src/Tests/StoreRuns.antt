-- ===== src/Tests/StoreRuns.antt =====
-- The storing and the search of the service at concrete inputs.
use pali.Common.{
  lt_int, none, ℕ, ℤ, zero, suc, ◌+◌, ◌≤◌, String, true, false, ◌≡◌, refl, List, [], ◌∷◌, map,
  length, Result, ok, IfOk, All, arith, ltb,
}
use pali.Common.Text.{trim_space}
use pali.Domain.Memories.{Kind, Memory, raw_turn, observation, auto, by_user}
use pali.Memories.{Db}
use pali.Memories.Consistency.{IsConsistent}
use pali.Queue.Consistency.{IsConsistent as QueueIsConsistent}
use pali.Storing.{StoreInput, PreparedInput, no_metadata}
use pali.Storing.Inputs.{IsPrepared, numbered}
use pali.Storing.Ingest.{memory_of, ingest_batch_async, ingest_batch_async-IsConsistent}
use pali.Storing.Batch.{store_inputs}
use pali.Storing.Places.{Matches}
use pali.Storing.Aligned.{Answers, store_inputs-Matches}
use pali.Domain.Memories.{IndexOperation, IndexState, IndexJob}
use pali.Common.{some, ◌==◌, other_error, if◌then◌else◌}
use pali.Storing.Models.{Embedding}
use pali.Common.Text.{is_blank}
use pali.Common.Sql.{exists}
use pali.Storing.Vectors.{VectorCalls, upserts_of, upsert_stored}
use pali.Storing.Indexed.{ids_of, HasOutcome, upsert_stored-HasOutcome}
use pali.Tests.MemoryRuns.{memory_called}
use pali.Storing.Plain.{Parts, store_plain, SaysTheSame, store_plain-Answers}
use pali.Search.{
  SearchTuning, NormalTuning, WindowQuery, search_tuning, normalize_tuning, candidate_window,
  max_window,
}
use pali.Search.Window.{window_of, candidate_window_bounds}
use pali.Search.Settings.{validate-search_tuning}
use pali.Config.Defaults.{defaults}
use pali.Config.Worker.{nat_of}
use pali.Tests.QueueRuns.{noon, table, table-IsConsistent}
use pali.Tests.MemoryRuns.{tables, tables-IsConsistent}
use pali.Tests.ServerRuns.{plain, defaults-accepted}

abbrev same : String → String
same s = s

abbrev said : Kind → String → StoreInput
said kind content = record {
  tenant_id = " ben ";
  content = content;
  tier = auto;
  kind = kind;
  tags = [];
  source = "chat";
  created_by = by_user;
  answer_metadata = no_metadata;
}

abbrev two_inputs : List StoreInput
two_inputs = said raw_turn "likes tea" ∷ said observation "drinks tea" ∷ []

abbrev new_ids : ℕ → String × String
new_ids zero = ("m8", "i8")
new_ids (suc i) = ("m9", "i9")

abbrev new_jobs : ℕ → String × String
new_jobs zero = ("v8", "p8")
new_jobs (suc i) = ("v9", "p9")

new_jobs-trimmed :
    (k : ℕ)
    → (trim_space (new_jobs k).0 ≡ (new_jobs k).0) × (trim_space (new_jobs k).1 ≡ (new_jobs k).1)
unfolding trim_space
new_jobs-trimmed zero = (refl, refl)
new_jobs-trimmed (suc k) = (refl, refl)

ingest_batch_async-IsConsistent_example :
    IfOk
      (λ r.
        All (IsPrepared tables) (numbered same 0 two_inputs)
        × (length r.0.memory_ids ≡ length two_inputs)
        × IsConsistent r.1
        × QueueIsConsistent r.2)
      (ingest_batch_async same
        (λ ps. "digest")
        true
        true
        new_ids
        new_jobs
        "in1"
        noon
        two_inputs
        (ℤ.pos 3)
        tables
        table)
ingest_batch_async-IsConsistent_example =
    ingest_batch_async-IsConsistent same (λ ps. "digest") true true new_ids new_jobs "in1" noon
      two_inputs (ℤ.pos 3) tables table new_jobs-trimmed tables-IsConsistent table-IsConsistent

-- A part that only makes the memories of its inputs.
abbrev make_all : List PreparedInput → Db → Result (List Memory) × Db
make_all items db = (ok (map memory_of items), db)

abbrev SameContent : PreparedInput → Memory → Type 0
SameContent p m = m.content ≡ p.input.content

make_all-Answers : Answers SameContent make_all
unfolding memory_of
make_all-Answers [] db = tt
make_all-Answers (p ∷ ps) db = (refl, make_all-Answers ps db)

-- The second input is stored first, since the parser takes the first one.
store_inputs-Matches_example :
    IfOk
      (Matches SameContent (numbered same 0 two_inputs))
      (store_inputs make_all make_all (λ db. db) same true true two_inputs tables).0
store_inputs-Matches_example =
    store_inputs-Matches SameContent make_all make_all (λ db. db) same true true two_inputs tables
      make_all-Answers make_all-Answers

-- A scorer and an embedder without batches, and a vector store that counts its calls.
abbrev simple_parts : Parts ℕ
simple_parts = record {
  digest = λ ps. "digest";
  less = ltb;
  scorer = record { batch_score = none; score = λ i c. ok i };
  embedder = record { batch_embed = none; embed = λ i c. ok (i ∷ []) };
  calls = record { upsert_batch = none; upsert_one = λ u v. (none, v + 1) };
  marks = record { draw = λ k i. "j7"; clock = λ k. noon; error_text = λ e. "" };
  draw = new_ids;
  now = noon;
  derive = λ m s. (none, s);
}

store_plain-Answers_example :
    IfOk
      (Matches SaysTheSame (numbered same 0 two_inputs))
      (store_plain simple_parts (numbered same 0 two_inputs) (tables, 0)).0
store_plain-Answers_example =
    store_plain-Answers simple_parts (numbered same 0 two_inputs) (tables, 0)

abbrev job_of : String → String → IndexJob
job_of id memory = record {
  id = id;
  tenant_id = "ben";
  memory_id = memory;
  op = IndexOperation.upsert;
  state = IndexState.pending;
  last_error = "";
  attempts = 0;
  created_at = noon;
  updated_at = noon;
}

abbrev with_jobs : Db
with_jobs = record tables { index_jobs = job_of "i1" "b1" ∷ job_of "i2" "b2" ∷ [] }

-- A vector store that takes one memory and then fails.
abbrev takes_one : VectorCalls ℕ
takes_one = record {
  upsert_batch = none;
  upsert_one = λ u v. if v == 0 then (none, 1) else (some other_error, v);
}

abbrev two_vectors : List Embedding
two_vectors = (1 ∷ []) ∷ (2 ∷ []) ∷ []

upsert_stored-HasOutcome_example :
    (ids_of (upserts_of (memory_called "ben" "b1" ∷ memory_called "ben" "b2" ∷ []) two_vectors)
      ≡ "b1" ∷ "b2" ∷ [])
    × HasOutcome none takes_one.upsert_one "ben"
        (upserts_of (memory_called "ben" "b1" ∷ memory_called "ben" "b2" ∷ []) two_vectors)
        0
        (upsert_stored simple_parts.marks takes_one
          (memory_called "ben" "b1" ∷ memory_called "ben" "b2" ∷ [])
          two_vectors
          with_jobs
          0)
unfolding is_blank pali.Common.Text.is_empty trim_space exists pali.IndexJobs.is_job_of
    pali.Domain.Memories.operation_text
upsert_stored-HasOutcome_example =
    upsert_stored-HasOutcome simple_parts.marks takes_one (memory_called "ben" "b1")
      (memory_called "ben" "b2" ∷ []) two_vectors with_jobs 0 refl refl
      ((((refl, refl), refl), (((refl, refl), refl), tt)), ((refl, tt), (tt, tt)))

abbrev filtered : WindowQuery
filtered = record { multi_hop = false; temporal = true; has_filters = true; confidence = 0 }

abbrev tuning : SearchTuning
tuning = search_tuning defaults.retrieval.search

candidate_window_bounds_example :
    (candidate_window ltb (ℤ.pos 7) filtered (normalize_tuning ltb tuning)
      ≡ ℤ.pos (window_of ltb 7 filtered (normalize_tuning ltb tuning)))
    × (lt_int
          (candidate_window ltb (ℤ.pos 7) filtered (normalize_tuning ltb tuning))
          (ℤ.pos (normalize_tuning ltb tuning).min)
        ≡ false)
    × (lt_int
          (ℤ.pos (max_window filtered (normalize_tuning ltb tuning)))
          (candidate_window ltb (ℤ.pos 7) filtered (normalize_tuning ltb tuning))
        ≡ false)
    × (lt_int
          (candidate_window ltb (ℤ.pos 0) filtered (normalize_tuning ltb tuning))
          (candidate_window ltb (ℤ.pos 7) filtered (normalize_tuning ltb tuning))
        ≡ false)
unfolding normalize_tuning search_tuning pali.Search.natural_or pali.Search.unit_or
candidate_window_bounds_example =
    candidate_window_bounds ltb (ℤ.pos 7) (ℤ.pos 0) filtered tuning (omega arith) (omega arith)
      (omega arith, omega arith, omega arith, omega arith, omega arith)

-- Seven results with filters and a time in the query: 50, and 40 and 30 more.
window_example : candidate_window ltb (ℤ.pos 7) filtered (normalize_tuning ltb tuning) ≡ ℤ.pos 120
unfolding candidate_window pali.Search.limited pali.Search.boosted pali.Search.plus_int
    pali.Common.Words.signed pali.Search.bits_of pali.Search.first_window pali.Search.times_int
    normalize_tuning search_tuning pali.Search.profile_boost pali.Search.natural_or
    pali.Search.filter_part pali.Search.weak_part pali.Search.unit_or max_window
window_example = refl

validate-search_tuning_example :
    normalize_tuning plain.less (search_tuning defaults.retrieval.search) ≡ record {
      query_expansion_enabled = defaults.retrieval.search.adaptive_query_expansion_enabled;
      max_extra_queries = nat_of defaults.retrieval.search.adaptive_query_max_extra_queries;
      weak_lexical_threshold = defaults.retrieval.search.adaptive_query_weak_lexical_threshold;
      plan_confidence_threshold =
          defaults.retrieval.search.adaptive_query_plan_confidence_threshold;
      multiplier = nat_of defaults.retrieval.search.candidate_window_multiplier;
      min = nat_of defaults.retrieval.search.candidate_window_min;
      max = nat_of defaults.retrieval.search.candidate_window_max;
      temporal_boost = nat_of defaults.retrieval.search.candidate_window_temporal_boost;
      multi_hop_boost = nat_of defaults.retrieval.search.candidate_window_multi_hop_boost;
      filter_boost = nat_of defaults.retrieval.search.candidate_window_filter_boost;
      rerank_base = nat_of defaults.retrieval.search.early_rerank_base_window;
      rerank_max = nat_of defaults.retrieval.search.early_rerank_max_window;
    }
validate-search_tuning_example = validate-search_tuning plain defaults defaults-accepted
