-- ===== src/Storing/Ingest.antt =====
-- IngestBatchAsync of internal/core/memory/ingest_async.go: the checks of the inputs, and the ingest of the
-- repository, with its jobs.
use pali.Common.{
  ℕ, ℤ, suc, String, Bool, true, ◌&&◌, ◌≡◌, refl, ap, ◌∙◌, List, [], ◌∷◌, map, length, Result, err,
  ◌>>=◌, IfOk, IfOk-bind, IfOk-mono, subst, invalid_input, All,
}
use pali.Common.Text.{trim_space}
use pali.Clock.{Time}
use pali.Domain.Memories.{Memory}
use pali.Queue.{Jobs}
use pali.Queue.Consistency.{IsConsistent as QueueIsConsistent}
use pali.Memories.{Db}
use pali.Memories.Consistency.{IsConsistent}
use pali.Ingest.{IngestItem, IngestReceipt, ingest_batch}
use pali.Ingest.Consistency.{ingest_batch-IsConsistent}
use pali.Storing.{StoreInput, PreparedInput, no_metadata, is_raw, with_identity}
use pali.Storing.Inputs.{prepare_inputs, numbered, IsPrepared, prepare_inputs-IsPrepared}

-- The memory of an input; the answer metadata is left out.
unfoldable pub memory_of : PreparedInput → Memory
memory_of p = record {
  id = "";
  tenant_id = p.input.tenant_id;
  content = p.input.content;
  query_view_text = "";
  tier = p.resolved_tier;
  tags = p.input.tags;
  source = p.input.source;
  created_by = p.input.created_by;
  kind = p.resolved_kind;
  canonical_key = "";
  source_turn_hash = "";
  source_fact_index = ℤ.pos 0;
  extractor = "";
  extractor_version = "";
  importance = 0;
  recall_count = ℤ.pos 0;
  answer_metadata = no_metadata;
  created_at = 0;
  updated_at = 0;
  last_accessed_at = 0;
  last_recalled_at = 0;
}

-- `parses` says whether the parser is enabled and there is one.
unfoldable pub item_of : (List String → String) → Bool → PreparedInput → IngestItem
item_of digest parses p = record {
  memory = with_identity digest (memory_of p);
  queue_parser = parses && is_raw p.resolved_kind;
  queue_vector = true;
}

-- IngestBatchAsync
unfoldable pub ingest_batch_async :
    (String → String)
    → (List String → String)
    → Bool
    → Bool
    → (ℕ → String × String)
    → (ℕ → String × String)
    → String
    → Time
    → List StoreInput
    → ℤ
    → Db
    → Jobs
    → Result (IngestReceipt × Db × Jobs)
ingest_batch_async lower digest ready parses draw draw_job ingest now [] max db js =
    err invalid_input
ingest_batch_async lower digest ready parses draw draw_job ingest now (in_ ∷ ins) max db js =
    prepare_inputs lower ready (in_ ∷ ins) db >>= λ ps.
    ingest_batch draw draw_job ingest now (map (item_of digest parses) ps) max db js

length-items :
    (lower : String → String) (digest : List String → String) (parses : Bool) (i : ℕ)
    (ins : List StoreInput)
    → length (map (item_of digest parses) (numbered lower i ins)) ≡ length ins
unfolding numbered
length-items lower digest parses i [] = refl
length-items lower digest parses i (in_ ∷ ins) =
    ap suc (length-items lower digest parses (suc i) ins)

-- When IngestBatchAsync succeeds, over consistent tables and with drawn job ids that have no white space around them: each
-- input has a tenant that exists and a content that is not blank, the receipt has a memory id for each input, and the
-- tables of memories and the queue are consistent afterwards.
pub ingest_batch_async-IsConsistent :
    (lower : String → String) (digest : List String → String) (ready parses : Bool)
    (draw draw_job : ℕ → String × String) (ingest : String) (now : Time) (ins : List StoreInput)
    (max : ℤ) (db : Db) (js : Jobs)
    → ((k : ℕ)
        → (trim_space (draw_job k).0 ≡ (draw_job k).0)
          × (trim_space (draw_job k).1 ≡ (draw_job k).1))
    → IsConsistent db
    → QueueIsConsistent js
    → IfOk
        (λ r.
          All (IsPrepared db) (numbered lower 0 ins)
          × (length r.0.memory_ids ≡ length ins)
          × IsConsistent r.1
          × QueueIsConsistent r.2)
        (ingest_batch_async lower digest ready parses draw draw_job ingest now ins max db js)
unfolding ingest_batch_async
ingest_batch_async-IsConsistent lower digest ready parses draw draw_job ingest now [] max db js t c
      q =
    tt
ingest_batch_async-IsConsistent lower digest ready parses draw draw_job ingest now (in_ ∷ ins) max
      db js t c q =
    IfOk-bind _ _ (prepare_inputs lower ready (in_ ∷ ins) db) _
      (prepare_inputs-IsPrepared lower ready (in_ ∷ ins) db)
      (λ ps h.
        IfOk-mono _ _
          (ingest_batch draw draw_job ingest now (map (item_of digest parses) ps) max db js)
          (ingest_batch-IsConsistent draw draw_job ingest now (map (item_of digest parses) ps) max
            db js t c q)
          (λ r k. (
            subst (All (IsPrepared db)) h.0 h.1,
            k.0
                ∙ ap (λ qs. length (map (item_of digest parses) qs)) h.0
                ∙ length-items lower digest parses 0 (in_ ∷ ins),
            k.1,
            k.2,
          )))
