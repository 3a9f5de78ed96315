-- ===== src/Memories/Search.antt =====
-- The reads of the repository that search: SearchWithFilters, FindByCanonicalKey and ListBySourceTurnHash of
-- internal/repository/sqlite/memory.go, with memory_filters.go, and List of internal/core/memory/list.go. What the
-- full-text table matches, and the order in which it ranks, belong to SQLite and are parameters, as is the text of
-- its query that toFTSQuery makes.
use pali.Common.{
  ℕ, ℤ, String, str_eq, Bool, true, false, ◌&&◌, ◌||◌, ◌≡◌, Option, none, List, [], ◌∷◌, map,
  length, take, ◌≤◌, Result, ok, ◌>>=◌, guard, IfOk, invalid_input, if◌then◌else◌, ltb, ◌==◌,
  positive_or, All, All-take, All-mono, length-take-le, arith, inl, inr, Bool-cases,
}
use pali.Common.Sql.{select, find, order_by, All-order_by, select_sound}
use pali.Common.Text.{is_blank, is_empty}
use pali.Common.Unique.{unique_valid, has_text}
use pali.Clock.{stamp_leb}
use pali.Domain.Memories.{Memory, Kind, Tier, raw_turn, event, observation, kind_text, tier_text}
use pali.Memories.{Db}
use pali.Service.{ensure_tenant_exists}

-- MemorySearchFilters
pub record SearchFilters : Type 0 where
  pub tiers : List Tier
  pub kinds : List Kind

-- What SQLite's full-text search gives for a query: the rows that match, and their order.
pub record FullText : Type 0 where
  pub to_query : String → String
  pub is_match : String → Memory → Bool
  pub ranks : String → Memory → Memory → Bool

unfoldable pub is_known_kind : Kind → Bool
is_known_kind (Kind.other_kind s) = false
is_known_kind _ = true

unfoldable pub is_known_tier : Tier → Bool
is_known_tier Tier.working = true
is_known_tier Tier.episodic = true
is_known_tier Tier.semantic = true
is_known_tier _ = false

-- normalizeKindsForFilter and normalizeTiersForFilter
unfoldable pub kinds_for_filter : List Kind → List Kind
kinds_for_filter ks = unique_valid kind_text is_known_kind [] ks

unfoldable pub tiers_for_filter : List Tier → List Tier
tiers_for_filter ts = unique_valid tier_text is_known_tier [] ts

-- `column IN (…)`, a clause that is not there where the list is empty.
unfoldable pub one_of : List String → String → Bool
one_of [] s = true
one_of (t ∷ ts) s = has_text s (t ∷ ts)

-- appendMemoryFilterClause: what it adds to the WHERE clause.
unfoldable pub in_filters : SearchFilters → Memory → Bool
in_filters f m =
    one_of (map kind_text (kinds_for_filter f.kinds)) (kind_text m.kind)
    && one_of (map tier_text (tiers_for_filter f.tiers)) (tier_text m.tier)

unfoldable pub recent_first : Memory → Memory → Bool
recent_first a b = stamp_leb b.updated_at a.updated_at

-- ListMemoriesRecentSQL and SearchMemoriesSQL with the filters.
unfoldable pub recent_rows : String → SearchFilters → Db → List Memory
recent_rows tenant f db =
    order_by recent_first (select (λ m. str_eq m.tenant_id tenant && in_filters f m) db.memories)

unfoldable pub matched_rows : FullText → String → String → SearchFilters → Db → List Memory
matched_rows t tenant query f db =
    order_by (t.ranks query) (
      select (λ m. (str_eq m.tenant_id tenant && in_filters f m) && t.is_match query m) db.memories)

-- SearchWithFilters
unfoldable pub search_with_filters :
    FullText → String → String → ℤ → SearchFilters → Db → Result (List Memory)
search_with_filters t tenant query top_k f db = guard (is_blank tenant) invalid_input (
    ok (
      take (positive_or top_k 20) (
        if is_empty (t.to_query query)
        then recent_rows tenant f db
        else matched_rows t tenant (t.to_query query) f db)))

-- Search
unfoldable pub search : FullText → String → String → ℤ → Db → Result (List Memory)
search t tenant query top_k db =
    search_with_filters t tenant query top_k (record { tiers = []; kinds = [] }) db

-- FindByCanonicalKey
unfoldable pub find_by_canonical_key : String → String → Db → Option Memory
find_by_canonical_key tenant key db =
    if is_blank tenant || is_blank key
    then none
    else find (λ m. str_eq m.tenant_id tenant && str_eq m.canonical_key key) db.memories

-- The CASE of ListMemoriesBySourceTurnHashSQL
unfoldable pub kind_rank : Kind → ℕ
kind_rank raw_turn = 0
kind_rank event = 1
kind_rank observation = 2
kind_rank _ = 3

unfoldable pub turn_order : Memory → Memory → Bool
turn_order a b =
    if ltb (kind_rank a.kind) (kind_rank b.kind)
    then true
    else if kind_rank a.kind == kind_rank b.kind
    then stamp_leb b.updated_at a.updated_at
    else false

-- ListBySourceTurnHash
unfoldable pub list_by_source_turn_hash : String → String → ℤ → Db → List Memory
list_by_source_turn_hash tenant hash limit db =
    if is_blank tenant || is_blank hash
    then []
    else take (positive_or limit 10) (
        order_by turn_order
          (select (λ m. str_eq m.tenant_id tenant && str_eq m.source_turn_hash hash) db.memories))

-- List of the service.
unfoldable pub list_memories : FullText → String → ℤ → Db → Result (List Memory)
list_memories t tenant limit db =
    guard (is_blank tenant) invalid_input
      (ensure_tenant_exists tenant db >>= λ u. search t tenant "" (ℤ.pos (positive_or limit 50)) db)

-- Whatever the full-text search matches: a search returns at most as many memories as were asked for, or 20, all of the
-- tenant and in the filters.
search_with_filters-in_filters :
    (t : FullText) (tenant query : String) (top_k : ℤ) (f : SearchFilters) (db : Db)
    → IfOk
        (λ ms.
          (length ms ≤ positive_or top_k 20)
          × All (λ m. (str_eq m.tenant_id tenant && in_filters f m) ≡ true) ms)
        (search_with_filters t tenant query top_k f db)
unfolding search_with_filters recent_rows matched_rows
search_with_filters-in_filters t tenant query top_k f db = elim (Bool-cases (is_blank tenant)) [
  | inl e ↦ rw e tt
  | inr e ↦ elim (Bool-cases (is_empty (t.to_query query))) [
    | inl k ↦
        rw (e, k)
          (
            length-take-le (positive_or top_k 20) _,
            All-take _ (positive_or top_k 20) _
                (All-order_by _ recent_first _ (select_sound _ db.memories)),
          )
    | inr k ↦
        rw (e, k)
          (
            length-take-le (positive_or top_k 20) _,
            All-take _ (positive_or top_k 20) _ (
                All-order_by _ (t.ranks (t.to_query query)) _
                  (All-mono _ _ (λ m h. ground arith) _ (select_sound _ db.memories))),
          )
  ]
]
