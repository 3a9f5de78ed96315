-- ===== src/Facts.antt =====
-- The facts of entities in SQLite: internal/repository/sqlite/entity_facts.go with its statements in
-- queries.go. `lower` is strings.ToLower.
--
-- A row is a fact whose `memory_id` is empty where the column is NULL, and whose times are 0 or
-- `none` where the text is empty; the confidence is not kept.
pub mod Keys
pub mod Relations
pub mod Consistency
pub mod Superseded
pub mod Service
pub mod Settled
pub mod Stored
use pali.Common.{
  ℕ, ℤ, suc, ◌+◌, String, str_eq, Bool, true, false, not, ◌&&◌, ◌||◌, Option, none, some, List, [],
  ◌∷◌, ◌++◌, map, Result, ok, err, ◌>>=◌, guard, invalid_input, constraint_failed, if◌then◌else◌,
  take, positive_or,
}
use pali.Common.Sql.{select, update, exists, order_by}
use pali.Common.Text.{trim_space, is_empty}
use pali.Common.Unique.{has_text}
use pali.Clock.{Time, is_zero, stamp_leb}
use pali.Domain.Memories.{Float64}
use pali.Facts.Keys.{normalize_key, normalize_value}

-- EntityFact
pub record EntityFact : Type 0 where
  pub id : String
  pub tenant_id : String
  pub entity : String
  pub relation : String
  pub relation_raw : String
  pub value : String
  pub memory_id : String
  pub created_at : Time
  pub observed_at : Time
  pub valid_from : Time
  pub valid_to : Option Time
  pub invalidated_by_fact_id : String
  pub confidence : Float64

-- The table entity_facts, and the ids of the table memories, to which its rows refer.
pub record FactTables : Type 0 where
  pub memory_ids : List String
  pub facts : List EntityFact

unfoldable pub or_text : String → String → String
or_text s default = if is_empty s then default else s

unfoldable pub or_time : Time → Time → Time
or_time t default = if is_zero t then default else t

-- The fact with its times and its id filled in.
unfoldable pub filled_in : String → Time → EntityFact → EntityFact
filled_in draw now f =
    let created = or_time f.created_at now in
    let observed = or_time f.observed_at created in
    record f {
      relation_raw = or_text f.relation_raw f.relation;
      id = or_text f.id draw;
      created_at = created;
      observed_at = observed;
      valid_from = or_time f.valid_from observed;
    }

-- The fact with its texts in normal form.
unfoldable pub with_keys : (String → String) → EntityFact → EntityFact
with_keys lower f = record f {
  tenant_id = trim_space f.tenant_id;
  entity = normalize_key lower f.entity;
  relation = normalize_key lower f.relation;
  relation_raw = normalize_key lower f.relation_raw;
  value = normalize_value f.value;
  memory_id = trim_space f.memory_id;
}

-- A fact without a tenant, an entity, a relation or a value.
unfoldable pub is_partial : EntityFact → Bool
is_partial f = is_empty f.tenant_id || is_empty f.entity || is_empty f.relation || is_empty f.value

-- prepareEntityFactForStore; `draw` is the new id.
unfoldable pub prepare_fact : (String → String) → String → Time → EntityFact → Result EntityFact
prepare_fact lower draw now f =
    guard (is_partial (with_keys lower f)) invalid_input
      (ok (filled_in draw now (with_keys lower f)))

-- formatTimeOrEmptyPtr
unfoldable pub end_of : Option Time → Option Time
end_of none = none
end_of (some t) = if is_zero t then none else some t

-- The row that the statement gives a new fact.
unfoldable pub row_of : EntityFact → EntityFact
row_of f = record f {
  valid_to = end_of f.valid_to;
  invalidated_by_fact_id = trim_space f.invalidated_by_fact_id;
  confidence = 0;
}

-- The unique index entity_facts_dedupe, in which NULL differs from NULL.
unfoldable pub is_same_fact : EntityFact → EntityFact → Bool
is_same_fact f g =
    not (is_empty f.memory_id)
    && str_eq g.memory_id f.memory_id
    && str_eq g.tenant_id f.tenant_id
    && str_eq g.entity f.entity
    && str_eq g.relation f.relation
    && str_eq g.value f.value

unfoldable pub or_end : Option Time → Option Time → Option Time
or_end none old = old
or_end (some t) old = some t

-- SET of InsertEntityFactSQL: what the new row has replaces what the old one has.
unfoldable pub merged : EntityFact → EntityFact → EntityFact
merged new old = record old {
  relation_raw = or_text new.relation_raw old.relation_raw;
  observed_at = or_time new.observed_at old.observed_at;
  valid_from = or_time new.valid_from old.valid_from;
  valid_to = or_end new.valid_to old.valid_to;
  invalidated_by_fact_id = or_text new.invalidated_by_fact_id old.invalidated_by_fact_id;
}

-- The memory of a row is NULL or exists.
unfoldable pub refers : List String → EntityFact → Bool
refers memories f = is_empty f.memory_id || has_text f.memory_id memories

-- InsertEntityFactSQL: the index of the conflict clause is looked at first.
unfoldable pub insert_fact : EntityFact → FactTables → Result FactTables
insert_fact new db =
    if exists (is_same_fact new) db.facts
    then ok (record db { facts = update (is_same_fact new) (merged new) db.facts })
    else if exists (λ g. str_eq g.id new.id) db.facts
    then err constraint_failed
    else if refers db.memory_ids new
    then ok (record db { facts = db.facts ++ new ∷ [] })
    else err constraint_failed

-- Store
unfoldable pub store_fact :
    (String → String) → String → Time → EntityFact → FactTables → Result (EntityFact × FactTables)
store_fact lower draw now f db =
    prepare_fact lower draw now f >>= λ g. insert_fact (row_of g) db >>= λ db'. ok (g, db')

-- StoreBatch, whose transaction is rolled back on an error; `draws i` is the new id of the i-th fact.
unfoldable pub store_facts_from :
    (String → String)
    → (ℕ → String)
    → Time
    → ℕ
    → List EntityFact
    → FactTables
    → Result (List EntityFact × FactTables)
store_facts_from lower draws now i [] db = ok ([], db)
store_facts_from lower draws now i (f ∷ fs) db = store_fact lower (draws i) now f db >>= λ r.
    store_facts_from lower draws now (suc i) fs r.1 >>= λ s. ok (r.0 ∷ s.0, s.1)

unfoldable pub store_facts :
    (String → String)
    → (ℕ → String)
    → Time
    → List EntityFact
    → FactTables
    → Result (List EntityFact × FactTables)
store_facts lower draws now fs db = store_facts_from lower draws now 0 fs db

unfoldable pub in_relation : String → String → String → EntityFact → Bool
in_relation tenant entity relation f =
    str_eq f.tenant_id tenant && str_eq f.entity entity && str_eq f.relation relation

-- ListByEntityRelation with ListEntityFactsByEntityRelationSQL
unfoldable pub list_by_entity_relation :
    (String → String) → String → String → String → ℤ → FactTables → Result (List EntityFact)
list_by_entity_relation lower tenant entity relation limit db =
    guard
      (is_empty (trim_space tenant)
        || is_empty (normalize_key lower entity)
        || is_empty (normalize_key lower relation))
      invalid_input
      (ok (
        take (positive_or limit 100) (
          order_by (λ f g. stamp_leb g.created_at f.created_at)
            (select
              (in_relation (trim_space tenant) (normalize_key lower entity)
                (normalize_key lower relation))
              db.facts))))

unfoldable pub is_none : Option Time → Bool
is_none none = true
is_none (some t) = false

-- Neither invalidated nor ended.
unfoldable pub is_active : EntityFact → Bool
is_active f = is_empty f.invalidated_by_fact_id && is_none f.valid_to

-- WHERE of InvalidateEntityFactsByRelationSQL
unfoldable pub is_superseded : String → String → String → String → EntityFact → Bool
is_superseded tenant entity relation active f =
    in_relation tenant entity relation f && is_active f && not (str_eq f.value active)

unfoldable pub ended : String → Time → EntityFact → EntityFact
ended by end f = record f { valid_to = some end; invalidated_by_fact_id = by }

-- InvalidateEntityFactsByRelationSQL
unfoldable pub end_superseded :
    String → String → String → String → String → Time → FactTables → FactTables
end_superseded tenant entity relation active by end db = record db {
  facts = update (is_superseded tenant entity relation active) (ended by end) db.facts;
}

-- InvalidateEntityRelation
unfoldable pub invalidate_entity_relation :
    (String → String)
    → String
    → String
    → String
    → String
    → String
    → Time
    → FactTables
    → Result FactTables
invalidate_entity_relation lower tenant entity relation active by end db =
    guard
      (is_empty (trim_space tenant)
        || is_empty (normalize_key lower entity)
        || is_empty (normalize_key lower relation)
        || is_empty (normalize_value active)
        || is_empty (trim_space by)
        || is_zero end)
      invalid_input
      (ok (
        end_superseded (trim_space tenant) (normalize_key lower entity)
          (normalize_key lower relation) (normalize_value active) (trim_space by) end db))
