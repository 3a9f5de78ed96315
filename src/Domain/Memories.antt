-- ===== src/Domain/Memories.antt =====
-- The memories and tenants of internal/domain/memory.go and tenant.go. Go's enumerations are
-- strings: a constructor `other_…` holds any text that is not one of the named ones. A float64 is
-- the number of its 64 bits: the repository only stores it.
use pali.Common.{ℕ, ℤ, String, List}
use pali.Clock.{Time}

-- MemoryTier
pub data Tier : Type 0 where
  working episodic semantic auto : Tier
  other_tier : String → Tier

-- MemoryCreatedBy
pub data CreatedBy : Type 0 where
  by_auto by_user by_system : CreatedBy
  other_creator : String → CreatedBy

-- MemoryKind
pub data Kind : Type 0 where
  raw_turn observation summary event : Kind
  other_kind : String → Kind

unfoldable pub tier_text : Tier → String
tier_text working = "working"
tier_text episodic = "episodic"
tier_text semantic = "semantic"
tier_text auto = "auto"
tier_text (other_tier s) = s

unfoldable pub creator_text : CreatedBy → String
creator_text by_auto = "auto"
creator_text by_user = "user"
creator_text by_system = "system"
creator_text (other_creator s) = s

unfoldable pub kind_text : Kind → String
kind_text raw_turn = "raw_turn"
kind_text observation = "observation"
kind_text summary = "summary"
kind_text event = "event"
kind_text (other_kind s) = s

-- MemoryAnswerMetadata
pub record AnswerMetadata : Type 0 where
  pub answer_kind : String
  pub source_sentence : String
  pub surface_span : String
  pub temporal_anchor : String
  pub relative_time_phrase : String
  pub resolved_time_start : String
  pub resolved_time_end : String
  pub time_granularity : String
  pub support_memory_ids : List String
  pub support_lines : List String

abbrev pub Float64 : Type 0
Float64 = ℕ

-- Memory, and the row of the table memories.
pub record Memory : Type 0 where
  pub id : String
  pub tenant_id : String
  pub content : String
  pub query_view_text : String
  pub tier : Tier
  pub tags : List String
  pub source : String
  pub created_by : CreatedBy
  pub kind : Kind
  pub canonical_key : String
  pub source_turn_hash : String
  pub source_fact_index : ℤ
  pub extractor : String
  pub extractor_version : String
  pub importance : Float64
  pub recall_count : ℤ
  pub answer_metadata : AnswerMetadata
  pub created_at : Time
  pub updated_at : Time
  pub last_accessed_at : Time
  pub last_recalled_at : Time

-- Tenant
pub record Tenant : Type 0 where
  pub id : String
  pub name : String
  pub created_at : Time

-- MemoryIndexOperation
pub data IndexOperation : Type 0 where
  upsert delete : IndexOperation
  other_operation : String → IndexOperation

-- MemoryIndexState
pub data IndexState : Type 0 where
  pending indexed failed tombstoned : IndexState
  other_state : String → IndexState

unfoldable pub operation_text : IndexOperation → String
operation_text upsert = "upsert"
operation_text delete = "delete"
operation_text (other_operation s) = s

unfoldable pub state_text : IndexState → String
state_text pending = "pending"
state_text indexed = "indexed"
state_text failed = "failed"
state_text tombstoned = "tombstoned"
state_text (other_state s) = s

-- The row of the table memory_index_jobs.
pub record IndexJob : Type 0 where
  pub id : String
  pub tenant_id : String
  pub memory_id : String
  pub op : IndexOperation
  pub state : IndexState
  pub last_error : String
  pub attempts : ℕ
  pub created_at : Time
  pub updated_at : Time
