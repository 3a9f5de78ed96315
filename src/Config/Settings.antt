-- ===== src/Config/Settings.antt =====
-- The settings of internal/config/config.go. An `int` is an
-- integer, and a float64 is the number of its bits.
use pali.Common.{ℤ, String, Bool}
use pali.Domain.Memories.{Float64}

-- ServerConfig
pub record ServerConfig : Type 0 where
  pub host : String
  pub port : ℤ

-- PostprocessConfig
pub record PostprocessConfig : Type 0 where
  pub enabled : Bool
  pub poll_interval_ms : ℤ
  pub batch_size : ℤ
  pub worker_count : ℤ
  pub lease_ms : ℤ
  pub max_attempts : ℤ
  pub retry_base_ms : ℤ
  pub retry_max_ms : ℤ

-- StructuredMemoryConfig
pub record StructuredMemoryConfig : Type 0 where
  pub enabled : Bool
  pub dual_write_observations : Bool
  pub dual_write_events : Bool
  pub max_observations : ℤ

-- ScoringWeightsConfig
pub record ScoringWeightsConfig : Type 0 where
  pub recency : Float64
  pub relevance : Float64
  pub importance : Float64

-- MatchScoringWeightsConfig
pub record MatchScoringWeightsConfig : Type 0 where
  pub recency : Float64
  pub relevance : Float64
  pub importance : Float64
  pub query_overlap : Float64
  pub routing : Float64

-- RetrievalScoringConfig
pub record RetrievalScoringConfig : Type 0 where
  pub algorithm : String
  pub wal : ScoringWeightsConfig
  pub match : MatchScoringWeightsConfig

-- RetrievalSearchConfig
pub record RetrievalSearchConfig : Type 0 where
  pub adaptive_query_expansion_enabled : Bool
  pub adaptive_query_max_extra_queries : ℤ
  pub adaptive_query_weak_lexical_threshold : Float64
  pub adaptive_query_plan_confidence_threshold : Float64
  pub candidate_window_multiplier : ℤ
  pub candidate_window_min : ℤ
  pub candidate_window_max : ℤ
  pub candidate_window_temporal_boost : ℤ
  pub candidate_window_multi_hop_boost : ℤ
  pub candidate_window_filter_boost : ℤ
  pub early_rerank_base_window : ℤ
  pub early_rerank_max_window : ℤ

-- RetrievalMultiHopConfig
pub record RetrievalMultiHopConfig : Type 0 where
  pub entity_fact_bridge_enabled : Bool
  pub llm_decomposition_enabled : Bool
  pub decomposition_provider : String
  pub openrouter_model : String
  pub ollama_base_url : String
  pub ollama_model : String
  pub ollama_timeout_ms : ℤ
  pub max_decomposition_queries : ℤ
  pub enable_pairwise_rerank : Bool
  pub token_expansion_fallback : Bool
  pub graph_path_enabled : Bool
  pub graph_max_hops : ℤ
  pub graph_seed_limit : ℤ
  pub graph_path_limit : ℤ
  pub graph_min_score : Float64
  pub graph_weight : Float64
  pub graph_temporal_validity : Bool
  pub graph_singleton_invalidation : Bool

-- RetrievalConfig
pub record RetrievalConfig : Type 0 where
  pub scoring : RetrievalScoringConfig
  pub search : RetrievalSearchConfig
  pub multi_hop : RetrievalMultiHopConfig
  pub answer_type_routing_enabled : Bool
  pub early_rank_rerank_enabled : Bool
  pub temporal_resolver_enabled : Bool
  pub open_domain_alternative_resolver_enabled : Bool

-- ParserConfig
pub record ParserConfig : Type 0 where
  pub enabled : Bool
  pub provider : String
  pub ollama_base_url : String
  pub ollama_model : String
  pub openrouter_model : String
  pub ollama_timeout_ms : ℤ
  pub store_raw_turn : Bool
  pub max_facts : ℤ
  pub dedupe_threshold : Float64
  pub update_threshold : Float64
  pub answer_span_retention_enabled : Bool

-- ProfileLayerConfig
pub record ProfileLayerConfig : Type 0 where
  pub support_links_enabled : Bool

-- Database
pub record Database : Type 0 where
  pub sqlite_dsn : String

-- QdrantConfig
pub record QdrantConfig : Type 0 where
  pub base_url : String
  pub api_key : String
  pub collection : String
  pub timeout_ms : ℤ

-- PGVectorConfig
pub record PgVectorConfig : Type 0 where
  pub dsn : String
  pub table : String
  pub auto_migrate : Bool
  pub max_open_conns : ℤ
  pub max_idle_conns : ℤ

-- Neo4jConfig
pub record Neo4jConfig : Type 0 where
  pub uri : String
  pub username : String
  pub password : String
  pub database : String
  pub timeout_ms : ℤ
  pub batch_size : ℤ

-- Embedding
pub record Embedding : Type 0 where
  pub provider : String
  pub fallback_provider : String
  pub model_path : String
  pub tokenizer_path : String
  pub ollama_base_url : String
  pub ollama_model : String
  pub ollama_timeout_seconds : ℤ

-- OpenRouterConfig
pub record OpenRouterConfig : Type 0 where
  pub base_url : String
  pub api_key : String
  pub embedding_model : String
  pub scoring_model : String
  pub timeout_ms : ℤ

-- OllamaConfig
pub record OllamaConfig : Type 0 where
  pub base_url : String
  pub model : String
  pub timeout_ms : ℤ

-- AuthConfig
pub record AuthConfig : Type 0 where
  pub enabled : Bool
  pub jwt_secret : String
  pub issuer : String

-- LoggingConfig
pub record LoggingConfig : Type 0 where
  pub dev_verbose : Bool
  pub progress : Bool

-- Config
pub record Config : Type 0 where
  pub server : ServerConfig
  pub vector_backend : String
  pub entity_fact_backend : String
  pub default_tenant_id : String
  pub importance_scorer : String
  pub postprocess : PostprocessConfig
  pub structured_memory : StructuredMemoryConfig
  pub retrieval : RetrievalConfig
  pub parser : ParserConfig
  pub profile_layer : ProfileLayerConfig
  pub database : Database
  pub qdrant : QdrantConfig
  pub pgvector : PgVectorConfig
  pub neo4j : Neo4jConfig
  pub embedding : Embedding
  pub openrouter : OpenRouterConfig
  pub ollama : OllamaConfig
  pub auth : AuthConfig
  pub logging : LoggingConfig
