-- ===== src/Search/Settings.antt =====
-- What the check of the settings is worth to the search.
use pali.Common.{ℕ, ℤ, lt_int, true, false, ◌≡◌, refl, none, List, [], ◌∷◌, ◌++◌, All, arith}
use pali.Domain.Memories.{Float64}
use pali.Config.Settings.{Config, RetrievalSearchConfig}
use pali.Config.{
  Library, only, positive, negative, outside_unit, weight_checks, match_weight_checks,
}
use pali.Config.Checks.{backend_checks, search_checks, validate}
use pali.Config.Worker.{All-drop, first_error-All, negated, nat_of, positive_or-nat_of}
use pali.Search.{search_tuning, normalize_tuning, natural_or, unit_or, at_least}

All-front {ℓ κ} : {A : Type ℓ} (P : A → Type κ) (xs ys : List A) → All P (xs ++ ys) → All P xs
All-front P [] ys h = tt
All-front P (x ∷ xs) ys h = (h.0, All-front P xs ys h.1)

-- What the check says of the settings of the search.
record IsTuned (lib : Library) (s : RetrievalSearchConfig) : Type 0 where
  extra : positive s.adaptive_query_max_extra_queries ≡ true
  weak : outside_unit lib s.adaptive_query_weak_lexical_threshold ≡ false
  confidence : outside_unit lib s.adaptive_query_plan_confidence_threshold ≡ false
  multiplier : positive s.candidate_window_multiplier ≡ true
  min : positive s.candidate_window_min ≡ true
  max : positive s.candidate_window_max ≡ true
  window : lt_int s.candidate_window_max s.candidate_window_min ≡ false
  temporal : negative s.candidate_window_temporal_boost ≡ false
  multi_hop : negative s.candidate_window_multi_hop_boost ≡ false
  filter : negative s.candidate_window_filter_boost ≡ false
  base : positive s.early_rerank_base_window ≡ true
  rerank : positive s.early_rerank_max_window ≡ true
  windows : lt_int s.early_rerank_max_window s.early_rerank_base_window ≡ false

search_checks-pass :
    (lib : Library) (cfg : Config)
    → validate lib cfg ≡ none
    → All (λ c. c.0 ≡ false) (search_checks lib cfg)
unfolding validate
search_checks-pass lib cfg h =
    All-front _ (search_checks lib cfg) _
      (All-drop _ (backend_checks lib cfg) _ (first_error-All _ h))

validate-IsTuned :
    (lib : Library) (cfg : Config) → validate lib cfg ≡ none → IsTuned lib cfg.retrieval.search
unfolding search_checks
validate-IsTuned lib cfg h =
    let c = search_checks-pass lib cfg h in
    let r = All-drop _ (only _ _) _ (All-drop _ (only _ _) _ c.1) in
    let t = All-drop _ (match_weight_checks _ _) _ (All-drop _ (weight_checks _ _) _ r.1) in
    record {
      extra = negated _ t.0;
      weak = t.1.0;
      confidence = t.1.1.0;
      multiplier = negated _ t.1.1.1.0;
      min = negated _ t.1.1.1.1.0;
      max = negated _ t.1.1.1.1.1.0;
      window = t.1.1.1.1.1.1.0;
      temporal = t.1.1.1.1.1.1.1.0;
      multi_hop = t.1.1.1.1.1.1.1.1.0;
      filter = t.1.1.1.1.1.1.1.1.1.0;
      base = negated _ t.1.1.1.1.1.1.1.1.1.1.0;
      rerank = negated _ t.1.1.1.1.1.1.1.1.1.1.1.0;
      windows = t.1.1.1.1.1.1.1.1.1.1.1.1.0;
    }

natural_or-nat_of : (z : ℤ) (d : ℕ) → negative z ≡ false → natural_or z d ≡ nat_of z
unfolding natural_or
natural_or-nat_of (ℤ.pos n) d h = refl
natural_or-nat_of (ℤ.negsuc n) d h = cc

at_least-nat_of :
    (x y : ℤ)
    → positive x ≡ true
    → positive y ≡ true
    → lt_int x y ≡ false
    → at_least (nat_of y) (nat_of x) ≡ nat_of x
at_least-nat_of (ℤ.pos n) (ℤ.pos m) h k l = ground arith
at_least-nat_of (ℤ.pos n) (ℤ.negsuc m) h k l = cc
at_least-nat_of (ℤ.negsuc n) y h k l = cc

unit_or-same :
    (lib : Library) (x d : Float64) → outside_unit lib x ≡ false → unit_or lib.less x d ≡ x
unfolding unit_or outside_unit
unit_or-same lib x d h = rw h refl

-- Settings that pass the check are the tuning of the search as they stand: the normalization replaces nothing by
-- a default and raises no maximum.
pub validate-search_tuning :
    (lib : Library) (cfg : Config)
    → validate lib cfg ≡ none
    → normalize_tuning lib.less (search_tuning cfg.retrieval.search) ≡ record {
      query_expansion_enabled = cfg.retrieval.search.adaptive_query_expansion_enabled;
      max_extra_queries = nat_of cfg.retrieval.search.adaptive_query_max_extra_queries;
      weak_lexical_threshold = cfg.retrieval.search.adaptive_query_weak_lexical_threshold;
      plan_confidence_threshold = cfg.retrieval.search.adaptive_query_plan_confidence_threshold;
      multiplier = nat_of cfg.retrieval.search.candidate_window_multiplier;
      min = nat_of cfg.retrieval.search.candidate_window_min;
      max = nat_of cfg.retrieval.search.candidate_window_max;
      temporal_boost = nat_of cfg.retrieval.search.candidate_window_temporal_boost;
      multi_hop_boost = nat_of cfg.retrieval.search.candidate_window_multi_hop_boost;
      filter_boost = nat_of cfg.retrieval.search.candidate_window_filter_boost;
      rerank_base = nat_of cfg.retrieval.search.early_rerank_base_window;
      rerank_max = nat_of cfg.retrieval.search.early_rerank_max_window;
    }
unfolding normalize_tuning search_tuning
validate-search_tuning lib cfg h =
    let a = validate-IsTuned lib cfg h in
    let s : RetrievalSearchConfig = cfg.retrieval.search in
    simp (
      positive_or-nat_of s.adaptive_query_max_extra_queries 2 a.extra,
      unit_or-same lib s.adaptive_query_weak_lexical_threshold 0x3FE3D70A3D70A3D7 a.weak,
      unit_or-same lib s.adaptive_query_plan_confidence_threshold 0 a.confidence,
      positive_or-nat_of s.candidate_window_multiplier 5 a.multiplier,
      positive_or-nat_of s.candidate_window_min 50 a.min,
      positive_or-nat_of s.candidate_window_max 200 a.max,
      at_least-nat_of s.candidate_window_max s.candidate_window_min a.max a.min a.window,
      natural_or-nat_of s.candidate_window_temporal_boost 40 a.temporal,
      natural_or-nat_of s.candidate_window_multi_hop_boost 80 a.multi_hop,
      natural_or-nat_of s.candidate_window_filter_boost 30 a.filter,
      positive_or-nat_of s.early_rerank_base_window 25 a.base,
      positive_or-nat_of s.early_rerank_max_window 25 a.rerank,
      at_least-nat_of s.early_rerank_max_window s.early_rerank_base_window a.rerank a.base
          a.windows,
    )
