-- ===== src/Facts/Stored.antt =====
-- Storing facts keeps the table of facts consistent.
use pali.Common.{
  ℕ, String, Bool, true, false, List, [], ◌∷◌, Result, ok, err, IfOk, inl, inr, Bool-cases,
}
use pali.Clock.{Time}
use pali.Facts.Relations.{is_singleton}
use pali.Facts.{EntityFact, FactTables}
use pali.Facts.Consistency.{
  IsConsistent, store_facts-IsConsistent, invalidate_entity_relation-IsConsistent,
}
use pali.Facts.Service.{
  invalidate_for, invalidate_superseded, after_stored, unique_facts, store_entity_facts,
}
use pali.Facts.Settled.{and_then-keeps}

invalidate_for-IsConsistent :
    (lower : String → String) (clock : Time) (f : EntityFact) (db : FactTables)
    → IsConsistent db
    → IfOk IsConsistent (invalidate_for lower clock f db)
unfolding invalidate_for
invalidate_for-IsConsistent lower clock f db c = elim (Bool-cases (is_singleton lower f.relation)) [
  | inl e ↦ rw e (invalidate_entity_relation-IsConsistent lower _ _ _ _ _ _ db c)
  | inr e ↦ rw e c
]

invalidate_superseded-IsConsistent :
    (lower : String → String) (clock : Time) (fs : List EntityFact) (db : FactTables)
    → IsConsistent db
    → IsConsistent (invalidate_superseded lower clock fs db).1
unfolding invalidate_superseded
invalidate_superseded-IsConsistent lower clock [] db c = c
invalidate_superseded-IsConsistent lower clock (f ∷ fs) db c =
    and_then-keeps IsConsistent (invalidate_for lower clock f db) db _ c
      (invalidate_for-IsConsistent lower clock f db c)
      (λ db' k. invalidate_superseded-IsConsistent lower clock fs db' k)

after_stored-IsConsistent :
    (lower : String → String) (clock : Time) (singleton : Bool)
    (r : Result (List EntityFact × FactTables)) (db : FactTables)
    → IsConsistent db
    → IfOk (λ s. IsConsistent s.1) r
    → IsConsistent (after_stored lower clock singleton r db).1
unfolding after_stored
after_stored-IsConsistent lower clock true (ok r) db c k =
    invalidate_superseded-IsConsistent lower clock r.0 r.1 k
after_stored-IsConsistent lower clock false (ok r) db c k = k
after_stored-IsConsistent lower clock singleton (err e) db c k = c

-- Whatever it is given, and whether it succeeds or fails, storeEntityFacts keeps the table of facts consistent: no
-- two rows share an id, no fact of a memory has two rows, each row has a tenant, an entity, a relation and
-- a value, and the memory to which it refers exists.
pub store_entity_facts-IsConsistent :
    (lower : String → String) (draws : ℕ → String) (clock : Time) (singleton : Bool)
    (fs : List EntityFact) (db : FactTables)
    → IsConsistent db
    → IsConsistent (store_entity_facts lower draws clock singleton fs db).1
unfolding store_entity_facts
store_entity_facts-IsConsistent lower draws clock singleton [] db c = c
store_entity_facts-IsConsistent lower draws clock singleton (f ∷ fs) db c =
    after_stored-IsConsistent lower clock singleton _ db c
      (store_facts-IsConsistent lower draws clock (unique_facts [] (f ∷ fs)) db c)
