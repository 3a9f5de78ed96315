-- ===== src/Config/Checks.antt =====
-- Validate of internal/config/validation.go: its checks in their order, in four groups.
use pali.Common.{
  ℤ, lt_int, String, str_eq, true, false, not, ◌&&◌, ◌||◌, Option, List, [], ◌∷◌, ◌++◌,
}
use pali.Common.Text.{is_empty, is_blank}
use pali.Config.Settings.{Config}
use pali.Config.{
  Library, Check, first_error, only, negative, positive, normalize_provider, normalize_or,
  normalize_decomposition, is_embedding_provider, is_text_provider, is_ranking_algorithm,
  is_decomposition_provider, outside_unit, weight_checks, match_weight_checks, openrouter_checks,
}

-- The server, the backends and the embeddings.
unfoldable pub backend_checks : Library → Config → List Check
backend_checks lib cfg =
    let provider = normalize_provider lib cfg.embedding.provider in
    let fallback = normalize_provider lib cfg.embedding.fallback_provider in
    (
      not (positive cfg.server.port) || lt_int (ℤ.pos 65535) cfg.server.port,
      "invalid server.port: %d",
    )
      ∷ (
        not (
            str_eq cfg.vector_backend "sqlite"
            || str_eq cfg.vector_backend "qdrant"
            || str_eq cfg.vector_backend "pgvector"),
        "invalid vector_backend: %q",
      )
      ∷ (
        not (str_eq cfg.entity_fact_backend "sqlite" || str_eq cfg.entity_fact_backend "neo4j"),
        "invalid entity_fact_backend: %q",
      )
      ∷ (not (is_embedding_provider provider), "invalid embedding.provider: %q")
      ∷ (
        not (is_empty fallback) && not (is_embedding_provider fallback),
        "invalid embedding.fallback_provider: %q",
      )
      ∷ only (str_eq provider "onnx") (
          (
            is_blank cfg.embedding.model_path,
            "embedding.model_path is required when embedding.provider=onnx",
          )
          ∷ (
            is_blank cfg.embedding.tokenizer_path,
            "embedding.tokenizer_path is required when embedding.provider=onnx",
          )
          ∷ [])
    ++ (only (str_eq provider "ollama") (
          (
            is_blank cfg.embedding.ollama_model,
            "embedding.ollama_model is required when embedding.provider=ollama",
          )
          ∷ (
            negative cfg.embedding.ollama_timeout_seconds,
            "embedding.ollama_timeout_seconds must be >= 0",
          )
          ∷ [])
        ++ only (str_eq provider "openrouter") (openrouter_checks lib cfg.openrouter true false))

-- The scorer of importance, the scoring and the search.
unfoldable pub search_checks : Library → Config → List Check
search_checks lib cfg =
    let scorer = normalize_or lib "heuristic" cfg.importance_scorer in
    let s = cfg.retrieval.search in
    (not (is_text_provider scorer), "invalid importance_scorer: %q")
      ∷ only (str_eq scorer "ollama") (
          (is_blank cfg.ollama.model, "ollama.model is required when importance_scorer=ollama")
          ∷ (negative cfg.ollama.timeout_ms, "ollama.timeout_ms must be >= 0")
          ∷ [])
    ++ (only (str_eq scorer "openrouter") (openrouter_checks lib cfg.openrouter false true)
        ++ ((
          not (is_ranking_algorithm (normalize_or lib "wal" cfg.retrieval.scoring.algorithm)),
          "invalid retrieval.scoring.algorithm: %q",
        )
              ∷ weight_checks lib cfg.retrieval.scoring.wal
            ++ (match_weight_checks lib cfg.retrieval.scoring.match
                ++ ((
                  not (positive s.adaptive_query_max_extra_queries),
                  "retrieval.search.adaptive_query_max_extra_queries must be > 0",
                )
                    ∷ (
                      outside_unit lib s.adaptive_query_weak_lexical_threshold,
                      "retrieval.search.adaptive_query_weak_lexical_threshold must be in [0,1]",
                    )
                    ∷ (
                      outside_unit lib s.adaptive_query_plan_confidence_threshold,
                      "retrieval.search.adaptive_query_plan_confidence_threshold must be in [0,1]",
                    )
                    ∷ (
                      not (positive s.candidate_window_multiplier),
                      "retrieval.search.candidate_window_multiplier must be > 0",
                    )
                    ∷ (
                      not (positive s.candidate_window_min),
                      "retrieval.search.candidate_window_min must be > 0",
                    )
                    ∷ (
                      not (positive s.candidate_window_max),
                      "retrieval.search.candidate_window_max must be > 0",
                    )
                    ∷ (
                      lt_int s.candidate_window_max s.candidate_window_min,
                      "retrieval.search.candidate_window_max must be >= retrieval.search.candidate_window_min",
                    )
                    ∷ (
                      negative s.candidate_window_temporal_boost,
                      "retrieval.search.candidate_window_temporal_boost must be >= 0",
                    )
                    ∷ (
                      negative s.candidate_window_multi_hop_boost,
                      "retrieval.search.candidate_window_multi_hop_boost must be >= 0",
                    )
                    ∷ (
                      negative s.candidate_window_filter_boost,
                      "retrieval.search.candidate_window_filter_boost must be >= 0",
                    )
                    ∷ (
                      not (positive s.early_rerank_base_window),
                      "retrieval.search.early_rerank_base_window must be > 0",
                    )
                    ∷ (
                      not (positive s.early_rerank_max_window),
                      "retrieval.search.early_rerank_max_window must be > 0",
                    )
                    ∷ (
                      lt_int s.early_rerank_max_window s.early_rerank_base_window,
                      "retrieval.search.early_rerank_max_window must be >= retrieval.search.early_rerank_base_window",
                    )
                    ∷ []))))

-- The decomposition of queries, and what the backends need.
unfoldable pub store_checks : Library → Config → List Check
store_checks lib cfg =
    let hop = cfg.retrieval.multi_hop in
    let provider = normalize_decomposition lib hop.decomposition_provider in
    (negative hop.ollama_timeout_ms, "retrieval.multi_hop.ollama_timeout_ms must be >= 0")
      ∷ (
        not (positive hop.max_decomposition_queries),
        "retrieval.multi_hop.max_decomposition_queries must be > 0",
      )
      ∷ (
        not (is_decomposition_provider provider),
        "invalid retrieval.multi_hop.decomposition_provider: %q",
      )
      ∷ only (hop.llm_decomposition_enabled && (is_empty provider || str_eq provider "openrouter"))
          (openrouter_checks lib cfg.openrouter false false
            ++ (
              is_blank hop.openrouter_model && is_blank cfg.openrouter.scoring_model,
              "retrieval.multi_hop.openrouter_model or openrouter.scoring_model is required when retrieval.multi_hop.llm_decomposition_enabled=true and decomposition_provider=openrouter",
            )
              ∷ [])
    ++ (only (hop.llm_decomposition_enabled && str_eq provider "ollama") (
          (
            is_blank hop.ollama_base_url,
            "retrieval.multi_hop.ollama_base_url is required when retrieval.multi_hop.llm_decomposition_enabled=true and decomposition_provider=ollama",
          )
          ∷ (
            not (lib.is_uri hop.ollama_base_url),
            "invalid retrieval.multi_hop.ollama_base_url: %w",
          )
          ∷ (
            is_blank hop.ollama_model,
            "retrieval.multi_hop.ollama_model is required when retrieval.multi_hop.llm_decomposition_enabled=true and decomposition_provider=ollama",
          )
          ∷ [])
        ++ ((
          hop.llm_decomposition_enabled && str_eq provider "none",
          "retrieval.multi_hop.decomposition_provider=none cannot be used when retrieval.multi_hop.llm_decomposition_enabled=true",
        )
              ∷ (
                str_eq cfg.vector_backend "sqlite" && is_blank cfg.database.sqlite_dsn,
                "database.sqlite_dsn is required when vector_backend=sqlite",
              )
              ∷ only (str_eq cfg.vector_backend "qdrant") (
                  (
                    is_blank cfg.qdrant.base_url,
                    "qdrant.base_url is required when vector_backend=qdrant",
                  )
                  ∷ (not (lib.is_uri cfg.qdrant.base_url), "invalid qdrant.base_url: %w")
                  ∷ (
                    is_blank cfg.qdrant.collection,
                    "qdrant.collection is required when vector_backend=qdrant",
                  )
                  ∷ (negative cfg.qdrant.timeout_ms, "qdrant.timeout_ms must be >= 0")
                  ∷ [])
            ++ (only (str_eq cfg.vector_backend "pgvector") (
                  (
                    is_blank cfg.pgvector.dsn,
                    "pgvector.dsn is required when vector_backend=pgvector",
                  )
                  ∷ (not (lib.is_uri cfg.pgvector.dsn), "invalid pgvector.dsn: %w")
                  ∷ (
                    is_blank cfg.pgvector.table,
                    "pgvector.table is required when vector_backend=pgvector",
                  )
                  ∷ (negative cfg.pgvector.max_open_conns, "pgvector.max_open_conns must be >= 0")
                  ∷ (negative cfg.pgvector.max_idle_conns, "pgvector.max_idle_conns must be >= 0")
                  ∷ [])
                ++ only (str_eq cfg.entity_fact_backend "neo4j") (
                    (is_blank cfg.neo4j.uri, "neo4j.uri is required when entity_fact_backend=neo4j")
                    ∷ (not (lib.is_uri cfg.neo4j.uri), "invalid neo4j.uri: %w")
                    ∷ (
                      is_blank cfg.neo4j.username,
                      "neo4j.username is required when entity_fact_backend=neo4j",
                    )
                    ∷ (
                      is_blank cfg.neo4j.password,
                      "neo4j.password is required when entity_fact_backend=neo4j (or set NEO4J_PASSWORD)",
                    )
                    ∷ (negative cfg.neo4j.timeout_ms, "neo4j.timeout_ms must be >= 0")
                    ∷ (not (positive cfg.neo4j.batch_size), "neo4j.batch_size must be > 0")
                    ∷ []))))

-- The graph, authentication, the postprocess workers, the structured memories and the parser.
unfoldable pub worker_checks : Library → Config → List Check
worker_checks lib cfg =
    let hop = cfg.retrieval.multi_hop in
    let work = cfg.postprocess in
    let provider = normalize_or lib "heuristic" cfg.parser.provider in
    (
      not (positive hop.graph_max_hops) || lt_int (ℤ.pos 4) hop.graph_max_hops,
      "retrieval.multi_hop.graph_max_hops must be in [1,4]",
    )
    ∷ (not (positive hop.graph_seed_limit), "retrieval.multi_hop.graph_seed_limit must be > 0")
    ∷ (not (positive hop.graph_path_limit), "retrieval.multi_hop.graph_path_limit must be > 0")
    ∷ (outside_unit lib hop.graph_min_score, "retrieval.multi_hop.graph_min_score must be in [0,1]")
    ∷ (outside_unit lib hop.graph_weight, "retrieval.multi_hop.graph_weight must be in [0,1]")
    ∷ (
      cfg.auth.enabled && is_blank cfg.auth.jwt_secret,
      "auth.jwt_secret is required when auth.enabled=true",
    )
    ∷ (not (positive work.poll_interval_ms), "postprocess.poll_interval_ms must be > 0")
    ∷ (not (positive work.batch_size), "postprocess.batch_size must be > 0")
    ∷ (not (positive work.worker_count), "postprocess.worker_count must be > 0")
    ∷ (not (positive work.lease_ms), "postprocess.lease_ms must be > 0")
    ∷ (not (positive work.max_attempts), "postprocess.max_attempts must be > 0")
    ∷ (not (positive work.retry_base_ms), "postprocess.retry_base_ms must be > 0")
    ∷ (not (positive work.retry_max_ms), "postprocess.retry_max_ms must be > 0")
    ∷ (
      lt_int work.retry_max_ms work.retry_base_ms,
      "postprocess.retry_base_ms must be <= postprocess.retry_max_ms",
    )
    ∷ (
      negative cfg.structured_memory.max_observations,
      "structured_memory.max_observations must be >= 0",
    )
    ∷ (
      (cfg.structured_memory.dual_write_observations || cfg.structured_memory.dual_write_events)
          && not (positive cfg.structured_memory.max_observations)
          && not (negative cfg.structured_memory.max_observations),
      "structured_memory.max_observations must be > 0 when dual_write_observations=true or dual_write_events=true",
    )
    ∷ (not (positive cfg.parser.max_facts), "parser.max_facts must be > 0")
    ∷ (negative cfg.parser.ollama_timeout_ms, "parser.ollama_timeout_ms must be >= 0")
    ∷ (outside_unit lib cfg.parser.dedupe_threshold, "parser.dedupe_threshold must be in [0,1]")
    ∷ (outside_unit lib cfg.parser.update_threshold, "parser.update_threshold must be in [0,1]")
    ∷ (
      lib.less cfg.parser.update_threshold cfg.parser.dedupe_threshold,
      "parser.dedupe_threshold must be <= parser.update_threshold",
    )
    ∷ only (cfg.parser.enabled) (
        (not (is_text_provider provider), "invalid parser.provider: %q")
          ∷ only (str_eq provider "ollama") (
              (
                is_blank cfg.parser.ollama_base_url,
                "parser.ollama_base_url is required when parser.provider=ollama",
              )
              ∷ (not (lib.is_uri cfg.parser.ollama_base_url), "invalid parser.ollama_base_url: %w")
              ∷ (
                is_blank cfg.parser.ollama_model,
                "parser.ollama_model is required when parser.provider=ollama",
              )
              ∷ [])
        ++ only (str_eq provider "openrouter") (
            openrouter_checks lib cfg.openrouter false false
            ++ (
              is_blank cfg.parser.openrouter_model && is_blank cfg.openrouter.scoring_model,
              "parser.openrouter_model or openrouter.scoring_model is required when parser.provider=openrouter",
            )
              ∷ []))

-- Validate
unfoldable pub validate : Library → Config → Option String
validate lib cfg = first_error (
    backend_checks lib cfg
    ++ (search_checks lib cfg ++ (store_checks lib cfg ++ worker_checks lib cfg)))
