-- ===== src/Facts/Service.antt =====
-- How the memory service stores facts and ends those that they supersede: storeEntityFacts and
-- invalidateSupersededEntityFacts of internal/core/memory/entity_facts.go, over the SQLite repository,
-- which stores batches and invalidates. The tables stay with the error, as a statement that
-- succeeded before is not undone.
use pali.Common.{
  ℕ, String, Bool, true, ◌&&◌, Option, none, some, List, [], ◌∷◌, Result, ok, err, if◌then◌else◌,
}
use Prim.Native.String
use pali.Common.Sql.{select}
use pali.Common.Text.{trim_space, is_empty}
use pali.Common.Unique.{has_text}
use pali.Clock.{Time, is_zero}
use pali.Facts.Relations.{is_singleton}
use pali.Facts.{EntityFact, FactTables, or_time, invalidate_entity_relation, store_facts}

-- filterActiveEntityFacts
unfoldable pub filter_active : List EntityFact → List EntityFact
filter_active fs =
    select (λ f. is_empty (trim_space f.invalidated_by_fact_id) && not_ended f.valid_to) fs
  where
    not_ended : Option Time → Bool
    not_ended none = true
    not_ended (some t) = is_zero t

-- The key by which storeEntityFacts knows a fact.
unfoldable pub fact_key : EntityFact → String
fact_key f = String.◌++◌ f.tenant_id (
    String.◌++◌ "|" (
      String.◌++◌ f.entity (
        String.◌++◌ "|" (
          String.◌++◌ f.relation
            (String.◌++◌ "|" (String.◌++◌ f.value (String.◌++◌ "|" f.memory_id)))))))

-- The loop of storeEntityFacts that drops repeated facts.
unfoldable pub unique_facts : List String → List EntityFact → List EntityFact
unique_facts seen [] = []
unique_facts seen (f ∷ fs) =
    let again = unique_facts seen fs in
    let kept = f ∷ unique_facts (fact_key f ∷ seen) fs in
    if has_text (fact_key f) seen then again else kept

-- The time at which a fact ends those that it supersedes.
unfoldable pub end_by : Time → EntityFact → Time
end_by clock f = or_time (or_time (or_time f.valid_from f.observed_at) f.created_at) clock

unfoldable pub invalidate_for :
    (String → String) → Time → EntityFact → FactTables → Result FactTables
invalidate_for lower clock f db =
    if is_singleton lower f.relation
    then invalidate_entity_relation lower f.tenant_id f.entity f.relation f.value f.id
        (end_by clock f) db
    else ok db

-- What follows a step: the first error ends the loop.
unfoldable pub and_then :
    Result FactTables
    → FactTables
    → (FactTables → Result {0} Unit × FactTables)
    → Result {0} Unit × FactTables
and_then (ok db') db next = next db'
and_then (err e) db next = (err e, db)

-- The loop of invalidateSupersededEntityFacts.
unfoldable pub invalidate_superseded :
    (String → String) → Time → List EntityFact → FactTables → Result {0} Unit × FactTables
invalidate_superseded lower clock [] db = (ok tt, db)
invalidate_superseded lower clock (f ∷ fs) db =
    and_then (invalidate_for lower clock f db) db (invalidate_superseded lower clock fs)

-- What follows StoreBatch; `singleton` is the option GraphSingletonInvalidation.
unfoldable pub after_stored :
    (String → String)
    → Time
    → Bool
    → Result (List EntityFact × FactTables)
    → FactTables
    → Result {0} Unit × FactTables
after_stored lower clock singleton (ok r) db =
    if singleton then invalidate_superseded lower clock r.0 r.1 else (ok tt, r.1)
after_stored lower clock singleton (err e) db = (err e, db)

-- storeEntityFacts
unfoldable pub store_entity_facts :
    (String → String)
    → (ℕ → String)
    → Time
    → Bool
    → List EntityFact
    → FactTables
    → Result {0} Unit × FactTables
store_entity_facts lower draws clock singleton [] db = (ok tt, db)
store_entity_facts lower draws clock singleton (f ∷ fs) db =
    after_stored lower clock singleton (store_facts lower draws clock (unique_facts [] (f ∷ fs)) db)
      db
