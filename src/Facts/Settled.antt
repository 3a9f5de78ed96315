-- ===== src/Facts/Settled.antt =====
-- What storing facts leaves active.
use pali.Common.{
  String, str_eq, Bool, true, false, ◌≡◌, ◌≢◌, refl, List, [], ◌∷◌, Result, ok, err, IfOk, inl, inr,
  Bool-cases, All, All-mono, All-of, All-zip, arith, eq_iff, IfOk-guard, invalid_input,
}
use pali.Common.Sql.{select, update}
use pali.Common.Text.{trim_space}
use pali.Clock.{Time}
use pali.Facts.Keys.{normalize_key, normalize_value}
use pali.Facts.Relations.{is_singleton}
use pali.Facts.{
  EntityFact, FactTables, is_active, is_none, is_superseded, ended, end_superseded,
  invalidate_entity_relation,
}
use pali.Facts.Superseded.{active_in}
use pali.Facts.Service.{invalidate_for, and_then, invalidate_superseded}

-- The active facts of the relation of a fact have its value.
abbrev pub IsSettled : (String → String) → EntityFact → FactTables → Type 0
IsSettled lower f db =
    All
      (λ r.
        active_in (trim_space f.tenant_id) (normalize_key lower f.entity)
            (normalize_key lower f.relation) r
          ≡ true
        → str_eq r.value (normalize_value f.value) ≡ true)
      db.facts

pub All-update_of {ℓ} :
    {A : Type ℓ} (Q : A → Type 0) (p : A → Bool) (f : A → A) (xs : List A)
    → ((a : A) → p a ≡ true → Q (f a))
    → All (λ a. p a ≡ false → Q a) xs
    → All Q (update p f xs)
unfolding update
All-update_of Q p f [] h k = tt
All-update_of Q p f (a ∷ xs) h k = elim (Bool-cases (p a)) [
  | inl e ↦ rw e (h a e, All-update_of Q p f xs h k.1)
  | inr e ↦ rw e (k.0 e, All-update_of Q p f xs h k.1)
]

-- An ended fact is not active.
pub ended-inactive :
    (tenant entity relation by : String) (end : Time) (r : EntityFact)
    → active_in tenant entity relation (ended by end r) ≡ false
unfolding ended is_active is_none
ended-inactive tenant entity relation by end r = ground arith

-- The statement for another fact keeps a relation settled.
pub end_superseded-IsSettled :
    (lower : String → String) (f : EntityFact) (tenant entity relation active by : String)
    (end : Time) (db : FactTables)
    → IsSettled lower f db
    → IsSettled lower f (end_superseded tenant entity relation active by end db)
unfolding end_superseded
end_superseded-IsSettled lower f tenant entity relation active by end db s =
    All-update_of _ _ (ended by end) db.facts
      (λ r e i. absurd (clash i (ended-inactive _ _ _ by end r)))
      (All-mono _ _ (λ r k e i. k i) db.facts s)
  where
    clash : {b : Bool} → b ≡ true → b ≡ false → ⊥
    clash h k = cc

-- The statement for a fact settles its relation.
pub end_superseded-settles :
    (lower : String → String) (f : EntityFact) (by : String) (end : Time) (db : FactTables)
    → IsSettled lower f (
        end_superseded
          (trim_space f.tenant_id)
          (normalize_key lower f.entity)
          (normalize_key lower f.relation)
          (normalize_value f.value)
          by
          end
          db)
unfolding end_superseded is_superseded
end_superseded-settles lower f by end db =
    All-update_of _ _ (ended by end) db.facts
      (λ r e i. absurd (clash i (ended-inactive _ _ _ by end r)))
      (All-of _ (λ r e i. ground arith) db.facts)
  where
    clash : {b : Bool} → b ≡ true → b ≡ false → ⊥
    clash h k = cc

-- One step of the loop keeps what is settled, and settles the relation of its fact.
pub invalidate_for-IsSettled :
    (lower : String → String) (clock : Time) (f g : EntityFact) (db : FactTables)
    → IsSettled lower f db
    → IfOk (IsSettled lower f) (invalidate_for lower clock g db)
unfolding invalidate_for invalidate_entity_relation
invalidate_for-IsSettled lower clock f g db s = elim (Bool-cases (is_singleton lower g.relation)) [
  | inl e ↦ rw e (
      IfOk-guard (IsSettled lower f) _ invalid_input (ok (end_superseded _ _ _ _ _ _ db))
        (end_superseded-IsSettled lower f _ _ _ _ _ _ db s))
  | inr e ↦ rw e s
]

pub invalidate_for-settles :
    (lower : String → String) (clock : Time) (f : EntityFact) (db : FactTables)
    → is_singleton lower f.relation ≡ true
    → IfOk (IsSettled lower f) (invalidate_for lower clock f db)
unfolding invalidate_for invalidate_entity_relation
invalidate_for-settles lower clock f db h = rw h (
    IfOk-guard (IsSettled lower f) _ invalid_input (ok (end_superseded _ _ _ _ _ _ db))
      (end_superseded-settles lower f _ _ db))

-- What a step and the rest of the loop both keep.
pub and_then-keeps :
    (P : FactTables → Type 0) (r : Result FactTables) (db : FactTables)
    (next : FactTables → Result {0} Unit × FactTables)
    → P db
    → IfOk P r
    → ((db' : FactTables) → P db' → P (next db').1)
    → P (and_then r db next).1
unfolding and_then
and_then-keeps P (ok db') db next h k n = n db' k
and_then-keeps P (err e) db next h k n = h

pub invalidate_superseded-IsSettled :
    (lower : String → String) (clock : Time) (f : EntityFact) (fs : List EntityFact)
    (db : FactTables)
    → IsSettled lower f db
    → IsSettled lower f (invalidate_superseded lower clock fs db).1
unfolding invalidate_superseded
invalidate_superseded-IsSettled lower clock f [] db s = s
invalidate_superseded-IsSettled lower clock f (g ∷ fs) db s =
    and_then-keeps (IsSettled lower f) (invalidate_for lower clock g db) db _ s
      (invalidate_for-IsSettled lower clock f g db s)
      (λ db' k. invalidate_superseded-IsSettled lower clock f fs db' k)

abbrev pub is_ok : Result {0} Unit → Bool
is_ok (ok u) = true
is_ok (err e) = false

-- When invalidateSupersededEntityFacts succeeds: for each of its facts whose relation has one value at a time, the
-- active facts of the relation have the value of that fact.
pub invalidate_superseded-values :
    (lower : String → String) (clock : Time) (fs : List EntityFact) (db : FactTables)
    → is_ok (invalidate_superseded lower clock fs db).0 ≡ true
    → All
        (λ f.
          is_singleton lower f.relation ≡ true
          → IsSettled lower f (invalidate_superseded lower clock fs db).1)
        fs
unfolding invalidate_superseded and_then
invalidate_superseded-values lower clock [] db h = tt
invalidate_superseded-values lower clock (f ∷ fs) db h =
    step (invalidate_for lower clock f db) h (λ e. invalidate_for-settles lower clock f db e)
      (λ db' k. invalidate_superseded-values lower clock fs db' k)
  where
    step :
        (r : Result FactTables)
        → is_ok (and_then r db (invalidate_superseded lower clock fs)).0 ≡ true
        → (is_singleton lower f.relation ≡ true → IfOk (IsSettled lower f) r)
        → ((db' : FactTables)
            → is_ok (invalidate_superseded lower clock fs db').0 ≡ true
            → All
                (λ g.
                  is_singleton lower g.relation ≡ true
                  → IsSettled lower g (invalidate_superseded lower clock fs db').1)
                fs)
        → All
            (λ g.
              is_singleton lower g.relation ≡ true
              → IsSettled lower g (and_then r db (invalidate_superseded lower clock fs)).1)
            (f ∷ fs)
    step (ok db') k s n =
        ((λ e. invalidate_superseded-IsSettled lower clock f fs db' (s e)), n db' k)
    step (err e) k s n = cc

pub select_none {ℓ} :
    {A : Type ℓ} (p : A → Bool) (xs : List A) → All (λ a. p a ≡ false) xs → select p xs ≡ []
unfolding select
select_none p [] h = refl
select_none p (a ∷ xs) h = rw h.0 (select_none p xs h.1)

-- A row whose value would have to be two texts is not active.
pub two_values :
    (b : Bool) (v x y : String)
    → x ≢ y
    → (b ≡ true → str_eq v x ≡ true)
    → (b ≡ true → str_eq v y ≡ true)
    → b ≡ false
two_values true v x y d h k = ground (arith, eq_iff v x, eq_iff v y, h refl, k refl)
two_values false v x y d h k = refl

-- Two facts of a batch, of one relation that has one value at a time and with different values, end each
-- other: where invalidateSupersededEntityFacts succeeds, it leaves no fact of the relation active.
pub invalidate_superseded-rivals :
    (lower : String → String) (clock : Time) (f g : EntityFact) (db : FactTables)
    → trim_space g.tenant_id ≡ trim_space f.tenant_id
    → normalize_key lower g.entity ≡ normalize_key lower f.entity
    → g.relation ≡ f.relation
    → normalize_value f.value ≢ normalize_value g.value
    → is_singleton lower f.relation ≡ true
    → is_ok (invalidate_superseded lower clock (f ∷ g ∷ []) db).0 ≡ true
    → select
        (active_in
          (trim_space f.tenant_id)
          (normalize_key lower f.entity)
          (normalize_key lower f.relation))
        (invalidate_superseded lower clock (f ∷ g ∷ []) db).1.facts
      ≡ []
invalidate_superseded-rivals lower clock f g db t n r d h k =
    let after : FactTables = (invalidate_superseded lower clock (f ∷ g ∷ []) db).1 in
    let both = invalidate_superseded-values lower clock (f ∷ g ∷ []) db k in
    let second : is_singleton lower g.relation ≡ true = rw r h in
    select_none _ after.facts (
      All-mono _ _
        (λ x p.
          two_values
            (active_in (trim_space f.tenant_id) (normalize_key lower f.entity)
              (normalize_key lower f.relation) x)
            x.value (normalize_value f.value) (normalize_value g.value) d p.0 (rw (t, n, r) at p.1))
        after.facts (All-zip _ _ after.facts (both.0 h) (both.1.0 second)))
