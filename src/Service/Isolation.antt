-- ===== src/Service/Isolation.antt =====
-- The service deletes memories of the tenant that it is given, and of no other.
use pali.Common.{
  ℕ, String, str_eq, false, ◌||◌, ◌≡◌, refl, ◌∙◌, Option, none, some, List, [], ◌∷◌, Result, ok,
  err, IfOk, Error, other_error, inl, inr, Bool-cases,
}
use pali.Common.Text.{trim_space, is_blank}
use pali.Clock.{Time}
use pali.Domain.Memories.{IndexOperation, IndexState, delete, pending, failed, tombstoned}
use pali.IndexJobs.{IndexJobs, mark_index_state}
use pali.Memories.{Db, delete_memory}
use pali.Memories.Isolation.{memories_of, Keeps, delete_memory-Keeps}
use pali.Service.{ensure_tenant_exists, mark_state, finish_delete, remove_memory, delete_by_service}

mark_state-Keeps :
    (t : String) (draw : ℕ → String) (now : Time) (tenant : String) (ids : List String)
    (op : IndexOperation) (state : IndexState) (last_error : String) (db : Db)
    → Keeps t db (mark_state draw now tenant ids op state last_error db)
unfolding mark_state memories_of
mark_state-Keeps t draw now tenant ids op state last_error db =
    go (mark_index_state draw tenant ids op state (trim_space last_error) now db.index_jobs)
  where
    go :
        (r : Result IndexJobs)
        → Keeps t db (elim r as (λ x. Db) [ ok js ↦ record db { index_jobs = js } | err e ↦ db ])
    go (ok js) = refl
    go (err e) = refl

finish_delete-Keeps {ℓ} :
    {V : Type ℓ} (t : String) (error_text : Error → String) (draw : ℕ → String) (now : Time)
    (tenant id : String) (e : Option Error) (db : Db) (v : V)
    → Keeps t db (finish_delete error_text draw now tenant id e db v).1
unfolding finish_delete
finish_delete-Keeps t error_text draw now tenant id none db v =
    mark_state-Keeps t draw now tenant (id ∷ []) delete tombstoned "" db
finish_delete-Keeps t error_text draw now tenant id (some e) db v =
    mark_state-Keeps t draw now tenant (id ∷ []) delete failed (error_text e) db

module _ {ℓ} {V : Type ℓ} (error_text : Error → String) (draw : ℕ → ℕ → String)
    (clock : ℕ → Time) where
  remove_memory-Keeps :
      (t : String) (remove : String → String → V → Option Error × V) (tenant id : String) (db : Db)
      (v : V)
      → str_eq tenant t ≡ false
      → Keeps t db (remove_memory error_text remove draw clock tenant id db v).1
  unfolding remove_memory
  remove_memory-Keeps t remove tenant id db v d =
      go (delete_memory (draw 1 0) (clock 1) tenant id db)
        (delete_memory-Keeps t (draw 1 0) (clock 1) tenant id db d)
    where
      go :
          (r : Result Db)
          → IfOk (Keeps t db) r
          → Keeps t db
              (elim r as (λ x. Option Error × Db × V) [
                | err e ↦ finish_delete error_text (draw 2) (clock 2) tenant id (some e) db v
                | ok db' ↦
                    finish_delete error_text
                      (draw 2)
                      (clock 2)
                      tenant
                      id
                      (remove tenant id v).0
                      db'
                      (remove tenant id v).1
              ]).1
      go (ok db') k =
          finish_delete-Keeps t error_text (draw 2) (clock 2) tenant id (remove tenant id v).0 db'
            (remove tenant id v).1
          ∙ k
      go (err e) k = finish_delete-Keeps t error_text (draw 2) (clock 2) tenant id (some e) db v

  pub delete_by_service-Keeps :
      (t : String) (vector : Option (String → String → V → Option Error × V)) (tenant id : String)
      (db : Db) (v : V)
      → str_eq tenant t ≡ false
      → Keeps t db (delete_by_service error_text vector draw clock tenant id db v).1
  unfolding delete_by_service
  delete_by_service-Keeps t vector tenant id db v d =
      elim (Bool-cases (is_blank tenant || is_blank id)) [
        | inl e ↦ rw e refl
        | inr e ↦ rw e (go (ensure_tenant_exists tenant db) vector)
      ]
    where
      go :
          (r : Result {0} Unit) (w : Option (String → String → V → Option Error × V))
          → Keeps t db
              (elim r as (λ x. Option Error × Db × V) [
                | err e ↦ (some e, db, v)
                | ok u ↦ elim w [
                  | none ↦ (some other_error, db, v)
                  | some remove ↦
                      remove_memory error_text remove draw clock tenant id
                        (mark_state (draw 0) (clock 0) tenant (id ∷ []) delete pending "" db)
                        v
                ]
              ]).1
      go (err e) w = refl
      go (ok u) none = refl
      go (ok u) (some remove) =
          remove_memory-Keeps t remove tenant id
            (mark_state (draw 0) (clock 0) tenant (id ∷ []) delete pending "" db) v d
          ∙ mark_state-Keeps t (draw 0) (clock 0) tenant (id ∷ []) delete pending "" db
