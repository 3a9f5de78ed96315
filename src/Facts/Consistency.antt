-- ===== src/Facts/Consistency.antt =====
-- What stays true of the table of facts.
use pali.Common.{
  ℕ, suc, String, str_eq, true, false, ◌≡◌, List, [], ◌∷◌, ok, IfOk, IfOk-guard, IfOk-bind,
  invalid_input, inl, inr, Bool-cases, All, All-zip, All-append, AllPairs,
}
use pali.Common.Sql.{exists, All-update, AllPairs-update, AllPairs-snoc, All-of_not-exists}
use pali.Clock.{Time}
use pali.Facts.{
  EntityFact, FactTables, filled_in, with_keys, is_partial, prepare_fact, row_of, is_same_fact,
  merged, refers, insert_fact, store_fact, store_facts_from, store_facts, ended, end_superseded,
  invalidate_entity_relation,
}

-- Two rows have other ids, and are not the same fact of one memory.
abbrev Differ : EntityFact → EntityFact → Type 0
Differ a b = (str_eq a.id b.id ≡ false) × (is_same_fact b a ≡ false)

-- A row has a tenant, an entity, a relation and a value, and its memory exists.
abbrev IsWhole : List String → EntityFact → Type 0
IsWhole memories f = (is_partial f ≡ false) × (refers memories f ≡ true)

pub record IsConsistent (db : FactTables) : Type 0 where
  pub apart : AllPairs Differ db.facts
  pub whole : All (IsWhole db.memory_ids) db.facts

insert_fact-IsConsistent :
    (f : EntityFact) (db : FactTables)
    → is_partial f ≡ false
    → IsConsistent db
    → IfOk IsConsistent (insert_fact f db)
unfolding insert_fact merged is_same_fact is_partial refers
insert_fact-IsConsistent f db h c = elim (Bool-cases (exists (is_same_fact f) db.facts)) [
  | inl e ↦ rw e (record {
    apart = AllPairs-update Differ _ _ db.facts (λ a b r. r) (λ a b r. r) c.apart;
    whole = All-update (IsWhole db.memory_ids) _ _ db.facts (λ a _ k. k) c.whole;
  })
  | inr e ↦ elim (Bool-cases (exists (λ g. str_eq g.id f.id) db.facts)) [
    | inl i ↦ rw (e, i) tt
    | inr i ↦ elim (Bool-cases (refers db.memory_ids f)) [
      | inl j ↦
          rw (e, i, j)
            (record {
              apart = AllPairs-snoc Differ db.facts f c.apart (
                  All-zip _ _ db.facts (All-of_not-exists _ db.facts i)
                    (All-of_not-exists _ db.facts e));
              whole = All-append _ db.facts (f ∷ []) c.whole ((h, j), tt);
            })
      | inr j ↦ rw (e, i, j) tt
    ]
  ]
]

prepare_fact-whole :
    (lower : String → String) (draw : String) (now : Time) (f : EntityFact)
    → IfOk (λ g. is_partial (row_of g) ≡ false) (prepare_fact lower draw now f)
unfolding prepare_fact filled_in is_partial row_of
prepare_fact-whole lower draw now f = elim (Bool-cases (is_partial (with_keys lower f))) [
  | inl e ↦ rw e tt
  | inr e ↦ rw e e
]

store_fact-IsConsistent :
    (lower : String → String) (draw : String) (now : Time) (f : EntityFact) (db : FactTables)
    → IsConsistent db
    → IfOk (λ r. IsConsistent r.1) (store_fact lower draw now f db)
unfolding store_fact
store_fact-IsConsistent lower draw now f db c =
    IfOk-bind _ (λ r. IsConsistent r.1) (prepare_fact lower draw now f) _
      (prepare_fact-whole lower draw now f)
      (λ g h.
        IfOk-bind IsConsistent (λ r. IsConsistent r.1) (insert_fact (row_of g) db) _
          (insert_fact-IsConsistent (row_of g) db h c) (λ db' k. k))

store_facts_from-IsConsistent :
    (lower : String → String) (draws : ℕ → String) (now : Time) (i : ℕ) (fs : List EntityFact)
    (db : FactTables)
    → IsConsistent db
    → IfOk (λ r. IsConsistent r.1) (store_facts_from lower draws now i fs db)
unfolding store_facts_from
store_facts_from-IsConsistent lower draws now i [] db c = c
store_facts_from-IsConsistent lower draws now i (f ∷ fs) db c =
    IfOk-bind (λ r. IsConsistent r.1) (λ r. IsConsistent r.1) (store_fact lower (draws i) now f db)
      _ (store_fact-IsConsistent lower (draws i) now f db c)
      (λ r k.
        IfOk-bind (λ s. IsConsistent s.1) (λ s. IsConsistent s.1)
          (store_facts_from lower draws now (suc i) fs r.1) _
          (store_facts_from-IsConsistent lower draws now (suc i) fs r.1 k) (λ s l. l))

pub store_facts-IsConsistent :
    (lower : String → String) (draws : ℕ → String) (now : Time) (fs : List EntityFact)
    (db : FactTables)
    → IsConsistent db
    → IfOk (λ r. IsConsistent r.1) (store_facts lower draws now fs db)
unfolding store_facts
store_facts-IsConsistent lower draws now fs db c =
    store_facts_from-IsConsistent lower draws now 0 fs db c

end_superseded-IsConsistent :
    (tenant entity relation active by : String) (end : Time) (db : FactTables)
    → IsConsistent db
    → IsConsistent (end_superseded tenant entity relation active by end db)
unfolding end_superseded ended is_same_fact is_partial refers
end_superseded-IsConsistent tenant entity relation active by end db c = record {
  apart = AllPairs-update Differ _ _ db.facts (λ a b r. r) (λ a b r. r) c.apart;
  whole = All-update (IsWhole db.memory_ids) _ _ db.facts (λ a _ k. k) c.whole;
}

pub invalidate_entity_relation-IsConsistent :
    (lower : String → String) (tenant entity relation active by : String) (end : Time)
    (db : FactTables)
    → IsConsistent db
    → IfOk IsConsistent (invalidate_entity_relation lower tenant entity relation active by end db)
unfolding invalidate_entity_relation
invalidate_entity_relation-IsConsistent lower tenant entity relation active by end db c =
    IfOk-guard IsConsistent _ invalid_input (ok (end_superseded _ _ _ _ _ _ db))
      (end_superseded-IsConsistent _ _ _ _ _ _ db c)
