-- ===== src/Search.antt =====
-- How many candidates a search takes: the tuning of the search, normalizeRetrievalSearchTuningOptions of
-- internal/core/memory/service.go, as internal/wiring/components.go sets it, and candidateWindow of
-- search_ranking_utils.go. `less` compares two float64.
pub mod Window
pub mod Settings
use pali.Common.{
  ℕ, ℤ, zero, suc, ◌+◌, ◌-◌, ◌*◌, ◌%◌, ◌^◌, Bool, true, false, not, ◌&&◌, ◌||◌, if◌then◌else◌, ltb,
  positive_or,
}
use pali.Common.Words.{signed}
use pali.Domain.Memories.{Float64}
use pali.Config.Settings.{RetrievalSearchConfig}

-- RetrievalSearchTuningOptions
pub record SearchTuning : Type 0 where
  pub adaptive_query_expansion_enabled : Bool
  pub adaptive_query_max_extra_queries : ℤ
  pub adaptive_query_weak_lexical_threshold : Float64
  pub adaptive_query_plan_confidence_threshold : Float64
  pub candidate_window_multiplier : ℤ
  pub candidate_window_min : ℤ
  pub candidate_window_max : ℤ
  pub candidate_window_temporal_boost : ℤ
  pub candidate_window_multi_hop_boost : ℤ
  pub candidate_window_filter_boost : ℤ
  pub early_rerank_base_window : ℤ
  pub early_rerank_max_window : ℤ

-- The options once normalized: no number is negative.
pub record NormalTuning : Type 0 where
  pub query_expansion_enabled : Bool
  pub max_extra_queries : ℕ
  pub weak_lexical_threshold : Float64
  pub plan_confidence_threshold : Float64
  pub multiplier : ℕ
  pub min : ℕ
  pub max : ℕ
  pub temporal_boost : ℕ
  pub multi_hop_boost : ℕ
  pub filter_boost : ℕ
  pub rerank_base : ℕ
  pub rerank_max : ℕ

-- BuildMemoryServiceOptions: the tuning of the settings.
unfoldable pub search_tuning : RetrievalSearchConfig → SearchTuning
search_tuning c = record {
  adaptive_query_expansion_enabled = c.adaptive_query_expansion_enabled;
  adaptive_query_max_extra_queries = c.adaptive_query_max_extra_queries;
  adaptive_query_weak_lexical_threshold = c.adaptive_query_weak_lexical_threshold;
  adaptive_query_plan_confidence_threshold = c.adaptive_query_plan_confidence_threshold;
  candidate_window_multiplier = c.candidate_window_multiplier;
  candidate_window_min = c.candidate_window_min;
  candidate_window_max = c.candidate_window_max;
  candidate_window_temporal_boost = c.candidate_window_temporal_boost;
  candidate_window_multi_hop_boost = c.candidate_window_multi_hop_boost;
  candidate_window_filter_boost = c.candidate_window_filter_boost;
  early_rerank_base_window = c.early_rerank_base_window;
  early_rerank_max_window = c.early_rerank_max_window;
}

-- `if x < 0 { x = d }`
unfoldable pub natural_or : ℤ → ℕ → ℕ
natural_or (ℤ.pos n) d = n
natural_or (ℤ.negsuc n) d = d

-- The bits of 1.
abbrev one_bits : Float64
one_bits = 0x3FF0000000000000

-- `if x < 0 || x > 1 { x = d }`
unfoldable pub unit_or : (Float64 → Float64 → Bool) → Float64 → Float64 → Float64
unit_or less x d = if less x 0 || less one_bits x then d else x

-- `if x < y { x = y }`
abbrev pub at_least : ℕ → ℕ → ℕ
at_least y x = if ltb x y then y else x

-- normalizeRetrievalSearchTuningOptions with defaultRetrievalSearchTuningOptions; the bits are those of 0.62.
unfoldable pub normalize_tuning : (Float64 → Float64 → Bool) → SearchTuning → NormalTuning
normalize_tuning less t = record {
  query_expansion_enabled = t.adaptive_query_expansion_enabled;
  max_extra_queries = positive_or t.adaptive_query_max_extra_queries 2;
  weak_lexical_threshold = unit_or less t.adaptive_query_weak_lexical_threshold 0x3FE3D70A3D70A3D7;
  plan_confidence_threshold = unit_or less t.adaptive_query_plan_confidence_threshold 0;
  multiplier = positive_or t.candidate_window_multiplier 5;
  min = positive_or t.candidate_window_min 50;
  max = at_least (positive_or t.candidate_window_min 50) (positive_or t.candidate_window_max 200);
  temporal_boost = natural_or t.candidate_window_temporal_boost 40;
  multi_hop_boost = natural_or t.candidate_window_multi_hop_boost 80;
  filter_boost = natural_or t.candidate_window_filter_boost 30;
  rerank_base = positive_or t.early_rerank_base_window 25;
  rerank_max =
      at_least (positive_or t.early_rerank_base_window 25)
        (positive_or t.early_rerank_max_window 25);
}

-- The 64 bits of an int64, and the sum and the product, which wrap.
unfoldable pub bits_of : ℤ → ℕ
bits_of (ℤ.pos n) = n % 2 ^ 64
bits_of (ℤ.negsuc n) = (2 ^ 64 - ((n + 1) % 2 ^ 64)) % 2 ^ 64

unfoldable pub plus_int : ℤ → ℕ → ℤ
plus_int a n = signed ((bits_of a + n) % 2 ^ 64)

unfoldable pub times_int : ℕ → ℕ → ℤ
times_int a b = signed ((a * b) % 2 ^ 64)

-- `n < m` and `n > m` for a natural `m`.
abbrev pub is_below : ℤ → ℕ → Bool
is_below (ℤ.pos n) m = ltb n m
is_below (ℤ.negsuc n) m = true

abbrev pub is_above : ℤ → ℕ → Bool
is_above (ℤ.pos n) m = ltb m n
is_above (ℤ.negsuc n) m = false

-- What a search asks for: its queryProfile, whether there are filters, and the confidence of its plan.
pub record WindowQuery : Type 0 where
  pub multi_hop : Bool
  pub temporal : Bool
  pub has_filters : Bool
  pub confidence : Float64

unfoldable pub profile_boost : WindowQuery → NormalTuning → ℕ
profile_boost q t =
    if q.multi_hop then t.multi_hop_boost else if q.temporal then t.temporal_boost else 0

unfoldable pub max_window : WindowQuery → NormalTuning → ℕ
max_window q t = if q.multi_hop || q.has_filters then at_least 320 t.max else t.max

unfoldable pub filter_part : WindowQuery → NormalTuning → ℕ
filter_part q t = if q.has_filters then t.filter_boost else 0

unfoldable pub weak_part : (Float64 → Float64 → Bool) → ℕ → WindowQuery → NormalTuning → ℕ
weak_part less k q t = if less q.confidence t.plan_confidence_threshold then k * 2 else 0

-- The steps of candidateWindow: the multiple of `topK`, the boosts, and the limit.
unfoldable pub first_window : ℕ → NormalTuning → ℤ
first_window k t =
    if is_below (times_int k t.multiplier) t.min then ℤ.pos t.min else times_int k t.multiplier

unfoldable pub boosted : (Float64 → Float64 → Bool) → ℕ → WindowQuery → NormalTuning → ℤ → ℤ
boosted less k q t n =
    plus_int (plus_int (plus_int n (profile_boost q t)) (filter_part q t)) (weak_part less k q t)

unfoldable pub limited : WindowQuery → NormalTuning → ℤ → ℤ
limited q t n = if is_above n (max_window q t) then ℤ.pos (max_window q t) else n

-- candidateWindow
unfoldable pub candidate_window : (Float64 → Float64 → Bool) → ℤ → WindowQuery → NormalTuning → ℤ
candidate_window less top_k q t =
    limited q t (boosted less (positive_or top_k 10) q t (first_window (positive_or top_k 10) t))
