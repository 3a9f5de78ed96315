-- ===== src/Storing/Batch.antt =====
-- StoreBatch of internal/core/memory/store.go: the inputs that the parser takes are stored by one function, the others by
-- another, and each result goes to the place of its input. What stores the two parts is a parameter, with
-- a state `S` of its own, whose tables `tables` gives.
use pali.Common.{ℤ, String, Bool, not, ◌&&◌, List, [], ◌∷◌, length, set, replicate, Result, ok, err}
use pali.Common.Sql.{select}
use pali.Domain.Memories.{Memory, Tier, CreatedBy, Kind}
use pali.Memories.{Db}
use pali.Storing.{StoreInput, PreparedInput, no_metadata, is_raw}
use pali.Storing.Inputs.{prepare_inputs}

-- The zero value of Memory.
abbrev pub zero_memory : Memory
zero_memory = record {
  id = "";
  tenant_id = "";
  content = "";
  query_view_text = "";
  tier = Tier.other_tier "";
  tags = [];
  source = "";
  created_by = CreatedBy.other_creator "";
  kind = Kind.other_kind "";
  canonical_key = "";
  source_turn_hash = "";
  source_fact_index = ℤ.pos 0;
  extractor = "";
  extractor_version = "";
  importance = 0;
  recall_count = ℤ.pos 0;
  answer_metadata = no_metadata;
  created_at = 0;
  updated_at = 0;
  last_accessed_at = 0;
  last_recalled_at = 0;
}

-- The parser takes raw turns, where it is enabled and there is one.
unfoldable pub is_parsed : Bool → PreparedInput → Bool
is_parsed parses p = parses && is_raw p.resolved_kind

-- `results[items[i].idx] = stored[i]`; there are as many items as stored memories.
unfoldable pub place : List PreparedInput → List Memory → List Memory → List Memory
place [] ms rs = rs
place (p ∷ ps) [] rs = rs
place (p ∷ ps) (m ∷ ms) rs = place ps ms (set rs p.idx m)

module _ {ℓ} {S : Type ℓ} where
  unfoldable pub placed :
      List PreparedInput → List Memory → Result (List Memory) × S → Result (List Memory) × S
  placed items rs (ok ms, s) = (ok (place items ms rs), s)
  placed items rs (err e, s) = (err e, s)

  -- One of the two parts: nothing is called where it has no items, or after an error.
  unfoldable pub run_part :
      (List PreparedInput → S → Result (List Memory) × S)
      → List PreparedInput
      → Result (List Memory) × S
      → Result (List Memory) × S
  run_part f items (err e, s) = (err e, s)
  run_part f [] (ok rs, s) = (ok rs, s)
  run_part f (p ∷ ps) (ok rs, s) = placed (p ∷ ps) rs (f (p ∷ ps) s)

  -- The part of the parser, and then the other one.
  unfoldable pub store_parts :
      (List PreparedInput → S → Result (List Memory) × S)
      → (List PreparedInput → S → Result (List Memory) × S)
      → Bool
      → Result (List PreparedInput)
      → S
      → Result (List Memory) × S
  store_parts parsed plain parses (err e) s = (err e, s)
  store_parts parsed plain parses (ok ps) s =
      run_part plain (select (λ p. not (is_parsed parses p)) ps)
        (run_part parsed (select (is_parsed parses) ps) (ok (replicate (length ps) zero_memory), s))

  -- StoreBatch
  unfoldable pub store_inputs :
      (List PreparedInput → S → Result (List Memory) × S)
      → (List PreparedInput → S → Result (List Memory) × S)
      → (S → Db)
      → (String → String)
      → Bool
      → Bool
      → List StoreInput
      → S
      → Result (List Memory) × S
  store_inputs parsed plain tables lower ready parses [] s = (ok [], s)
  store_inputs parsed plain tables lower ready parses (in_ ∷ ins) s =
      store_parts parsed plain parses (prepare_inputs lower ready (in_ ∷ ins) (tables s)) s
