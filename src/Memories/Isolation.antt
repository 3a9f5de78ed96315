-- ===== src/Memories/Isolation.antt =====
-- Tenants do not see or change one another's memories.
use pali.Common.{
  ℕ, String, str_eq, eq_iff, Bool, false, not, ◌||◌, ◌≡◌, refl, ap, ◌∙◌, List, [], ◌∷◌, ◌++◌,
  Result, ok, err, IfOk, IfOk-guard, IfOk-bind, IfOk-unit, suc, invalid_input, constraint_failed,
  arith, inl, inr, Bool-cases, All, ◌==◌,
}
use mathlib.Core.List.{append-nil}
use pali.Common.Sql.{select, count, exists}
use pali.Common.Sql.Laws.{select-update, select-append, select-select, select_none}
use pali.Common.Text.{is_blank}
use pali.Clock.{Time}
use pali.Domain.Memories.{Memory, upsert, delete, pending}
use pali.IndexJobs.{upsert_index_job}
use pali.Memories.{
  Db, is_nan, id_is, tenant_is, store_from, store_batch, is_memory, prepared, prepare_memory,
  insert_row, insert_memory, store, delete_memory, memory_in, touched, touch,
}

unfoldable pub owned_by : String → Memory → Bool
owned_by t m = str_eq m.tenant_id t

-- The memories of a tenant, in the order of the table.
unfoldable pub memories_of : String → Db → List Memory
unfolding owned_by
memories_of t db = select (owned_by t) db.memories

abbrev pub Keeps : String → Db → Db → Type 0
Keeps t db db' = memories_of t db' ≡ memories_of t db

insert_row-Keeps :
    (t : String) (m : Memory) (db : Db)
    → str_eq m.tenant_id t ≡ false
    → IfOk (Keeps t db) (insert_row m db)
unfolding insert_row memories_of select
insert_row-Keeps t m db d =
    IfOk-guard _ (is_nan m.importance) constraint_failed _
      (elim (Bool-cases
        (exists (id_is m.id) db.memories || not (exists (tenant_is m.tenant_id) db.tenants))) [
          | inl e ↦ rw e tt
          | inr e ↦ rw e (
              select-append (owned_by t) db.memories (m ∷ [])
              ∙ ap (λ r. select (owned_by t) db.memories ++ r)
                  (select_none (owned_by t) (m ∷ []) (d, tt))
              ∙ append-nil _)
        ])

insert_memory-Keeps :
    (t draw : String) (now : Time) (m : Memory) (db : Db)
    → str_eq m.tenant_id t ≡ false
    → IfOk (Keeps t db) (insert_memory draw now m db)
unfolding insert_memory memories_of
insert_memory-Keeps t draw now m db d =
    IfOk-bind (Keeps t db) _ (insert_row m db) _ (insert_row-Keeps t m db d) (λ db' k.
      IfOk-bind (λ js. Unit) _
        (upsert_index_job draw m.tenant_id m.id upsert pending "" now db'.index_jobs) _
        (IfOk-unit _) (λ js u. k))

store-Keeps :
    (t : String) (draw : String × String) (now : Time) (m : Memory) (db : Db)
    → str_eq m.tenant_id t ≡ false
    → IfOk (λ r. Keeps t db r.1) (store draw now m db)
unfolding store prepare_memory prepared
store-Keeps t draw now m db d = elim (Bool-cases (is_blank m.tenant_id || is_blank m.content)) [
  | inl e ↦ rw e tt
  | inr e ↦ rw e (
      IfOk-bind (Keeps t db) (λ r. Keeps t db r.1)
        (insert_memory draw.1 now (prepared draw.0 now m) db) _
        (insert_memory-Keeps t draw.1 now (prepared draw.0 now m) db d) (λ db' k. k))
]

store_from-Keeps :
    (t : String) (draw : ℕ → String × String) (now : Time) (i : ℕ) (ms : List Memory) (db : Db)
    → All (λ m. str_eq m.tenant_id t ≡ false) ms
    → IfOk (λ r. Keeps t db r.1) (store_from draw now i ms db)
unfolding store_from
store_from-Keeps t draw now i [] db d = refl
store_from-Keeps t draw now i (m ∷ ms) db d =
    IfOk-bind (λ r. Keeps t db r.1) _ (store (draw i) now m db) _
      (store-Keeps t (draw i) now m db d.0)
      (λ first k.
        IfOk-bind (λ r. Keeps t first.1 r.1) _ (store_from draw now (suc i) ms first.1) _
          (store_from-Keeps t draw now (suc i) ms first.1 d.1) (λ later l. l ∙ k))

touch-Keeps :
    (t : String) (now : Time) (tenant : String) (ids : List String) (db : Db)
    → str_eq tenant t ≡ false
    → IfOk (Keeps t db) (touch now tenant ids db)
unfolding touch memories_of memory_in touched
touch-Keeps t now tenant ids db d = IfOk-guard _ (is_blank tenant) invalid_input _ (
    select-update (owned_by t) (memory_in tenant _) (touched now) db.memories (λ a. refl)
      (λ a e. ground (arith, eq_iff a.tenant_id tenant, eq_iff a.tenant_id t, eq_iff tenant t)))

pub delete_memory-Keeps :
    (t draw : String) (now : Time) (tenant id : String) (db : Db)
    → str_eq tenant t ≡ false
    → IfOk (Keeps t db) (delete_memory draw now tenant id db)
unfolding delete_memory memories_of is_memory
delete_memory-Keeps t draw now tenant id db d =
    IfOk-bind (λ js. Unit) _ (upsert_index_job draw tenant id delete pending "" now db.index_jobs) _
      (IfOk-unit _)
      (λ js u. elim (Bool-cases (count (is_memory tenant id) db.memories == 0)) [
        | inl e ↦ rw e tt
        | inr e ↦ rw e (
            select-select (owned_by t) (λ m. not (is_memory tenant id m)) db.memories
              (λ a k.
                ground (arith, eq_iff a.tenant_id tenant, eq_iff a.tenant_id t, eq_iff tenant t)))
      ])

-- The operations that change the memories of one tenant or several.
pub data Operation : Type 0 where
  storing : (ℕ → String × String) → Time → List Memory → Operation
  deleting : String → Time → String → String → Operation
  touching : Time → String → List String → Operation

-- The tables after an operation; a failed one is rolled back.
unfoldable pub apply : Operation → Db → Db
apply (storing draw now ms) db = elim (store_batch draw now ms db) [ ok r ↦ r.1 | err e ↦ db ]
apply (deleting draw now tenant id) db = elim (delete_memory draw now tenant id db) [
  | ok db' ↦ db'
  | err e ↦ db
]
apply (touching now tenant ids) db = elim (touch now tenant ids db) [ ok db' ↦ db' | err e ↦ db ]

unfoldable pub apply_all : List Operation → Db → Db
apply_all [] db = db
apply_all (op ∷ ops) db = apply_all ops (apply op db)

-- The tenant that an operation names is another one.
abbrev pub IsOfOthers : String → Operation → Type 0
IsOfOthers t (storing draw now ms) = All (λ m. str_eq m.tenant_id t ≡ false) ms
IsOfOthers t (deleting draw now tenant id) = str_eq tenant t ≡ false
IsOfOthers t (touching now tenant ids) = str_eq tenant t ≡ false

settle :
    {A : Type 0} (t : String) (db : Db) (f : A → Db) (r : Result A)
    → IfOk (λ a. Keeps t db (f a)) r
    → Keeps t db (elim r [ ok a ↦ f a | err e ↦ db ])
settle t db f (ok a) h = h
settle t db f (err e) h = refl

apply-Keeps : (t : String) (op : Operation) (db : Db) → IsOfOthers t op → Keeps t db (apply op db)
unfolding apply store_batch
apply-Keeps t (storing draw now ms) db d =
    settle t db (λ r. r.1) (store_from draw now 0 ms db) (store_from-Keeps t draw now 0 ms db d)
apply-Keeps t (deleting draw now tenant id) db d =
    settle t db (λ r. r) (delete_memory draw now tenant id db)
      (delete_memory-Keeps t draw now tenant id db d)
apply-Keeps t (touching now tenant ids) db d =
    settle t db (λ r. r) (touch now tenant ids db) (touch-Keeps t now tenant ids db d)

-- Whatever sequence of batches, deletions and touches the other tenants run, failing ones
-- included, the memories of a tenant stay the same rows in the same order.
pub apply_all-isolated :
    (t : String) (ops : List Operation) (db : Db)
    → All (IsOfOthers t) ops
    → memories_of t (apply_all ops db) ≡ memories_of t db
unfolding apply_all
apply_all-isolated t [] db h = refl
apply_all-isolated t (op ∷ ops) db h =
    apply_all-isolated t ops (apply op db) h.1 ∙ apply-Keeps t op db h.0
