-- ===== src/Config.antt =====
-- The check of the settings, Validate of internal/config/validation.go. An error is known by the format
-- of its text. What the check takes from Go's library is a parameter: ToLower, whether
-- ParseRequestURI accepts a text, and the comparisons and the sum of float64 numbers.
pub mod Settings
pub mod Defaults
pub mod Checks
pub mod Worker
use pali.Common.{
  ℕ, ℤ, zero, suc, String, str_eq, Bool, true, false, not, ◌&&◌, ◌||◌, Option, none, some, List, [],
  ◌∷◌, ◌++◌, if◌then◌else◌, leb, ltb, ◌==◌,
}
use pali.Common.Text.{trim_space, is_empty, is_blank}
use pali.Common.Unique.{has_text}
use pali.Domain.Memories.{Float64}
use pali.Config.Settings.{Config, ScoringWeightsConfig, MatchScoringWeightsConfig, OpenRouterConfig}

-- What the check takes from Go's library.
pub record Library : Type 0 where
  pub to_lower : String → String
  pub is_uri : String → Bool
  pub less : Float64 → Float64 → Bool
  pub equal : Float64 → Float64 → Bool
  pub plus : Float64 → Float64 → Float64

-- A failing test, and the format of its error.
abbrev pub Check : Type 0
Check = Bool × String

-- The first error of a list of checks, `none` if they all pass.
unfoldable pub first_error : List Check → Option String
first_error [] = none
first_error (c ∷ cs) = let rest = first_error cs in if c.0 then some c.1 else rest

-- Checks that are made under a condition.
unfoldable pub only : Bool → List Check → List Check
only true cs = cs
only false cs = []

abbrev pub negative : ℤ → Bool
negative (ℤ.pos n) = false
negative (ℤ.negsuc n) = true

abbrev pub positive : ℤ → Bool
positive (ℤ.pos zero) = false
positive (ℤ.pos (suc n)) = true
positive (ℤ.negsuc n) = false

-- The bits of 0 and of 1.
abbrev float_zero : Float64
float_zero = 0

abbrev float_one : Float64
float_one = 0x3FF0000000000000

unfoldable pub normalize_provider : Library → String → String
normalize_provider lib s = lib.to_lower (trim_space s)

-- normalizeImportanceScorer, normalizeRankingAlgorithm and normalizeParserProvider
unfoldable pub normalize_or : Library → String → String → String
normalize_or lib default s =
    if is_empty (lib.to_lower (trim_space s)) then default else lib.to_lower (trim_space s)

-- normalizeMultiHopDecompositionProvider
unfoldable pub normalize_decomposition : Library → String → String
normalize_decomposition lib s =
    if str_eq (lib.to_lower (trim_space s)) "disabled" then "none" else lib.to_lower (trim_space s)

-- isSupportedEmbeddingProvider
unfoldable pub is_embedding_provider : String → Bool
is_embedding_provider s = has_text s ("lexical" ∷ "mock" ∷ "onnx" ∷ "ollama" ∷ "openrouter" ∷ [])

-- isSupportedImportanceScorer and isSupportedParserProvider
unfoldable pub is_text_provider : String → Bool
is_text_provider s = has_text s ("heuristic" ∷ "ollama" ∷ "openrouter" ∷ [])

-- isSupportedRankingAlgorithm
unfoldable pub is_ranking_algorithm : String → Bool
is_ranking_algorithm s = has_text s ("wal" ∷ "match" ∷ [])

-- isSupportedMultiHopDecompositionProvider
unfoldable pub is_decomposition_provider : String → Bool
is_decomposition_provider s = has_text s ("" ∷ "openrouter" ∷ "ollama" ∷ "none" ∷ [])

-- `v < 0 || v > 1`
unfoldable pub outside_unit : Library → Float64 → Bool
outside_unit lib v = lib.less v float_zero || lib.less float_one v

-- `v == 0`
unfoldable pub is_float_zero : Library → Float64 → Bool
is_float_zero lib v = lib.equal v float_zero

-- validateScoringWeights
unfoldable pub weight_checks : Library → ScoringWeightsConfig → List Check
weight_checks lib w =
    (
      lib.less w.recency float_zero
          || lib.less w.relevance float_zero
          || lib.less w.importance float_zero,
      "%s weights must be >= 0",
    )
    ∷ (
      is_float_zero lib (lib.plus (lib.plus w.recency w.relevance) w.importance),
      "%s weights must not all be zero",
    )
    ∷ []

-- validateMatchScoringWeights
unfoldable pub match_weight_checks : Library → MatchScoringWeightsConfig → List Check
match_weight_checks lib w =
    (
      lib.less w.recency float_zero
          || lib.less w.relevance float_zero
          || lib.less w.importance float_zero
          || lib.less w.query_overlap float_zero
          || lib.less w.routing float_zero,
      "%s weights must be >= 0",
    )
    ∷ (
      is_float_zero lib (
          lib.plus
            (lib.plus (lib.plus (lib.plus (lib.plus float_zero w.recency) w.relevance) w.importance)
              w.query_overlap)
            w.routing),
      "%s weights must not all be zero",
    )
    ∷ []

-- validateOpenRouterConfig
unfoldable pub openrouter_checks : Library → OpenRouterConfig → Bool → Bool → List Check
openrouter_checks lib o embedding scoring =
    (
      is_blank o.api_key,
      "openrouter.api_key is required when using openrouter providers (or set OPENROUTER_API_KEY)",
    )
    ∷ (is_blank o.base_url, "openrouter.base_url is required when using openrouter providers")
    ∷ (not (lib.is_uri o.base_url), "invalid openrouter.base_url: %w")
    ∷ (negative o.timeout_ms, "openrouter.timeout_ms must be >= 0")
    ∷ (
      embedding && is_blank o.embedding_model,
      "openrouter.embedding_model is required when embedding.provider=openrouter",
    )
    ∷ (
      scoring && is_blank o.scoring_model,
      "openrouter.scoring_model is required when importance_scorer=openrouter",
    )
    ∷ []
