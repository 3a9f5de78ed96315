-- ===== src/Config/Defaults.antt =====
-- Defaults of internal/config/defaults.go
use pali.Common.{ℤ, true, false}
use pali.Config.Settings.{Config}

-- Defaults
abbrev pub defaults : Config
defaults = record {
  server = record { host = "127.0.0.1"; port = ℤ.pos 8080 };
  vector_backend = "sqlite";
  entity_fact_backend = "sqlite";
  default_tenant_id = "";
  importance_scorer = "heuristic";
  postprocess = record {
    enabled = true;
    poll_interval_ms = ℤ.pos 250;
    batch_size = ℤ.pos 32;
    worker_count = ℤ.pos 2;
    lease_ms = ℤ.pos 30000;
    max_attempts = ℤ.pos 5;
    retry_base_ms = ℤ.pos 500;
    retry_max_ms = ℤ.pos 60000;
  };
  structured_memory = record {
    enabled = false;
    dual_write_observations = false;
    dual_write_events = false;
    max_observations = ℤ.pos 3;
  };
  retrieval = record {
    scoring = record {
      algorithm = "wal";
      wal = record {
        recency = 0x3FB999999999999A;
        relevance = 0x3FE999999999999A;
        importance = 0x3FB999999999999A;
      };
      match = record {
        recency = 0x3FA999999999999A;
        relevance = 0x3FE6666666666666;
        importance = 0x3FB999999999999A;
        query_overlap = 0x3FB999999999999A;
        routing = 0x3FA999999999999A;
      };
    };
    search = record {
      adaptive_query_expansion_enabled = false;
      adaptive_query_max_extra_queries = ℤ.pos 2;
      adaptive_query_weak_lexical_threshold = 0x3FE3D70A3D70A3D7;
      adaptive_query_plan_confidence_threshold = 0x0000000000000000;
      candidate_window_multiplier = ℤ.pos 5;
      candidate_window_min = ℤ.pos 50;
      candidate_window_max = ℤ.pos 200;
      candidate_window_temporal_boost = ℤ.pos 40;
      candidate_window_multi_hop_boost = ℤ.pos 80;
      candidate_window_filter_boost = ℤ.pos 30;
      early_rerank_base_window = ℤ.pos 25;
      early_rerank_max_window = ℤ.pos 25;
    };
    multi_hop = record {
      entity_fact_bridge_enabled = true;
      llm_decomposition_enabled = false;
      decomposition_provider = "openrouter";
      openrouter_model = "openai/gpt-oss-120b:nitro";
      ollama_base_url = "http://127.0.0.1:11434";
      ollama_model = "deepseek-r1:7b";
      ollama_timeout_ms = ℤ.pos 2000;
      max_decomposition_queries = ℤ.pos 3;
      enable_pairwise_rerank = true;
      token_expansion_fallback = true;
      graph_path_enabled = false;
      graph_max_hops = ℤ.pos 2;
      graph_seed_limit = ℤ.pos 12;
      graph_path_limit = ℤ.pos 128;
      graph_min_score = 0x3FBEB851EB851EB8;
      graph_weight = 0x3FD0000000000000;
      graph_temporal_validity = false;
      graph_singleton_invalidation = true;
    };
    answer_type_routing_enabled = true;
    early_rank_rerank_enabled = true;
    temporal_resolver_enabled = true;
    open_domain_alternative_resolver_enabled = false;
  };
  parser = record {
    enabled = false;
    provider = "heuristic";
    ollama_base_url = "http://127.0.0.1:11434";
    ollama_model = "deepseek-r1:7b";
    openrouter_model = "openai/gpt-oss-120b:nitro";
    ollama_timeout_ms = ℤ.pos 20000;
    store_raw_turn = true;
    max_facts = ℤ.pos 4;
    dedupe_threshold = 0x3FEC28F5C28F5C29;
    update_threshold = 0x3FEE147AE147AE14;
    answer_span_retention_enabled = false;
  };
  profile_layer = record { support_links_enabled = false };
  database = record { sqlite_dsn = "file:pali.db?cache=shared" };
  qdrant = record {
    base_url = "http://127.0.0.1:6333";
    api_key = "";
    collection = "pali_memories";
    timeout_ms = ℤ.pos 2000;
  };
  pgvector = record {
    dsn = "";
    table = "pali_memories";
    auto_migrate = true;
    max_open_conns = ℤ.pos 10;
    max_idle_conns = ℤ.pos 5;
  };
  neo4j = record {
    uri = "bolt://127.0.0.1:7687";
    username = "neo4j";
    password = "";
    database = "neo4j";
    timeout_ms = ℤ.pos 2000;
    batch_size = ℤ.pos 256;
  };
  embedding = record {
    provider = "lexical";
    fallback_provider = "lexical";
    model_path = "./models/all-MiniLM-L6-v2/model.onnx";
    tokenizer_path = "./models/all-MiniLM-L6-v2/tokenizer.json";
    ollama_base_url = "http://127.0.0.1:11434";
    ollama_model = "mxbai-embed-large";
    ollama_timeout_seconds = ℤ.pos 10;
  };
  openrouter = record {
    base_url = "https://openrouter.ai/api/v1";
    api_key = "";
    embedding_model = "openai/text-embedding-3-small:nitro";
    scoring_model = "openai/gpt-oss-120b:nitro";
    timeout_ms = ℤ.pos 10000;
  };
  ollama = record {
    base_url = "http://127.0.0.1:11434";
    model = "deepseek-r1:7b";
    timeout_ms = ℤ.pos 2000;
  };
  auth = record { enabled = false; jwt_secret = ""; issuer = "pali" };
  logging = record { dev_verbose = false; progress = true };
}
