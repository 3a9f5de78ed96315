-- ===== src/Facts/Superseded.antt =====
-- What InvalidateEntityRelation leaves active.
use pali.Common.{
  String, str_eq, Bool, true, false, not, ◌&&◌, ◌≡◌, refl, List, [], ◌∷◌, ok, IfOk, IfOk-guard,
  invalid_input, inl, inr, Bool-cases, arith,
}
use pali.Common.Sql.{select, update}
use pali.Common.Text.{trim_space}
use pali.Clock.{Time}
use pali.Facts.Keys.{normalize_key, normalize_value}
use pali.Facts.{
  EntityFact, FactTables, in_relation, is_active, is_none, is_superseded, ended, end_superseded,
  invalidate_entity_relation,
}

-- What a WHERE clause names after an UPDATE that takes its rows out of it.
select-update {ℓ} :
    {A : Type ℓ} (p q r : A → Bool) (f : A → A) (xs : List A)
    → ((a : A) → p a ≡ true → q (f a) ≡ false)
    → ((a : A) → r a ≡ (q a && not (p a)))
    → select q (update p f xs) ≡ select r xs
unfolding select update
select-update p q r f [] h k = refl
select-update p q r f (a ∷ xs) h k = elim (Bool-cases (p a)) [
  | inl e ↦ rw (e, h a e, off a e) (select-update p q r f xs h k)
  | inr e ↦ rw (e, on a e, select-update p q r f xs h k) refl
]
  where
    off : (b : _) → p b ≡ true → r b ≡ false
    off b e = ground (arith, k b)

    on : (b : _) → p b ≡ false → r b ≡ q b
    on b e = ground (arith, k b)

abbrev pub active_in : String → String → String → EntityFact → Bool
active_in tenant entity relation f = in_relation tenant entity relation f && is_active f

abbrev outside : String → String → String → EntityFact → Bool
outside tenant entity relation f = not (in_relation tenant entity relation f)

-- What the statement leaves: the active facts of the relation are those that were active and have the active
-- value, and the rows outside the relation are those before.
abbrev pub OnlyActive : String → String → String → String → FactTables → FactTables → Type 0
OnlyActive tenant entity relation active before after =
    (select (active_in tenant entity relation) after.facts
      ≡ select (λ f. active_in tenant entity relation f && str_eq f.value active) before.facts)
    × (select (outside tenant entity relation) after.facts
        ≡ select (outside tenant entity relation) before.facts)

pub end_superseded-OnlyActive :
    (tenant entity relation active by : String) (end : Time) (db : FactTables)
    → OnlyActive tenant entity relation active db
        (end_superseded tenant entity relation active by end db)
unfolding end_superseded is_superseded ended in_relation is_active is_none
end_superseded-OnlyActive tenant entity relation active by end db = (
  select-update _ _ _ _ db.facts (λ f h. ground arith) (λ f. ground arith),
  select-update _ _ _ _ db.facts (λ f h. ground arith) (λ f. ground arith),
)

-- When InvalidateEntityRelation succeeds, with the texts in normal form: the active facts of the
-- relation are those that were active and have the active value, in the same order, and the rows outside the
-- relation are those before.
pub invalidate_entity_relation-OnlyActive :
    (lower : String → String) (tenant entity relation active by : String) (end : Time)
    (db : FactTables)
    → IfOk
        (OnlyActive
          (trim_space tenant)
          (normalize_key lower entity)
          (normalize_key lower relation)
          (normalize_value active)
          db)
        (invalidate_entity_relation lower tenant entity relation active by end db)
unfolding invalidate_entity_relation
invalidate_entity_relation-OnlyActive lower tenant entity relation active by end db =
    IfOk-guard (OnlyActive _ _ _ _ db) _ invalid_input (ok (end_superseded _ _ _ _ _ _ db))
      (end_superseded-OnlyActive _ _ _ _ (trim_space by) end db)
