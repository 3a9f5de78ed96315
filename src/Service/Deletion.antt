-- ===== src/Service/Deletion.antt =====
-- What a deletion leaves as the state of the index.
use pali.Common.{
  ℕ, String, str_eq, eq_refl, true, false, ◌≡◌, refl, ◌∙◌, Option, none, some, [], ◌∷◌, Result, ok,
  err, ◌>>=◌, IfOk, Succeeds, Error, inl, inr, Bool-cases, ◌==◌,
}
use pali.Common.Sql.{update, count, exists}
use pali.Common.Sql.Laws.{exists-snoc}
use pali.Common.Text.{IsTidy, tidy_filled, trim_space, is_blank}
use pali.Clock.{Time}
use pali.Domain.Memories.{
  IndexState, delete, pending, failed, tombstoned, state_text, operation_text,
}
use pali.IndexJobs.{
  IndexJobs, is_job_of, set_state, upsert_index_job, mark_one, mark_each, mark_index_state,
}
use pali.Memories.Returned.{unique_non_empty-tidy}
use pali.Service.{ensure_tenant_exists, mark_state, finish_delete, remove_memory, delete_by_service}
use pali.Memories.{Db, is_memory, tenant_is, delete_memory}
use pali.Service.Marks.{
  delete_filled, pending_filled, final_state, HasState, update-HasState, count-exists,
  exists-set_state,
}

module _ (tenant id : String) (t : is_blank tenant ≡ false) (i : IsTidy id) where
  -- A mark of one memory is one round of the loop.
  mark_index_state-one :
      (draw : ℕ → String) (now : Time) (state : IndexState) (last_error : String) (js : IndexJobs)
      → is_blank (state_text state) ≡ false
      → mark_index_state draw tenant (id ∷ []) delete state last_error now js
        ≡ mark_one (draw 0) tenant id delete state (trim_space last_error) now js
  unfolding mark_index_state mark_each
  mark_index_state-one draw now state last_error js s =
      rw (t, delete_filled, s, unique_non_empty-tidy id i) (bind_ok _)
    where
      bind_ok : (r : Result IndexJobs) → (r >>= λ ks. ok ks) ≡ r
      bind_ok (ok ks) = refl
      bind_ok (err e) = refl

  mark_one-update :
      (draw : String) (now : Time) (state : IndexState) (last_error : String) (js : IndexJobs)
      → exists (is_job_of tenant id delete) js ≡ true
      → mark_one draw tenant id delete state last_error now js
        ≡ ok (update (is_job_of tenant id delete) (set_state state last_error now) js)
  unfolding mark_one
  mark_one-update draw now state last_error js h =
      rw (count-exists (is_job_of tenant id delete) js, h) refl

  -- A mark after the first one: the job is there and gets the state.
  mark_state-HasState :
      (draw : ℕ → String) (now : Time) (state : IndexState) (last_error : String) (db : Db)
      → is_blank (state_text state) ≡ false
      → exists (is_job_of tenant id delete) db.index_jobs ≡ true
      → HasState tenant id state
          (mark_state draw now tenant (id ∷ []) delete state last_error db).index_jobs
  unfolding mark_state
  mark_state-HasState draw now state last_error db s h =
      rw
        (
          mark_state,
          mark_index_state-one draw now state (trim_space last_error) db.index_jobs s,
          mark_one-update (draw 0) now state (trim_space (trim_space last_error)) db.index_jobs h,
        )
        (update-HasState tenant id (trim_space (trim_space last_error)) state now db.index_jobs h)

  mark_one-exists :
      (draw : String) (now : Time) (js : IndexJobs)
      → exists (λ j. str_eq j.id draw) js ≡ false
      → Succeeds
          (λ ks. exists (is_job_of tenant id delete) ks ≡ true)
          (mark_one draw tenant id delete pending "" now js)
  unfolding mark_one upsert_index_job is_job_of
  mark_one-exists draw now js fresh = elim (Bool-cases (exists (is_job_of tenant id delete) js)) [
    | inl e ↦
        rw (count-exists (is_job_of tenant id delete) js, e)
          (exists-set_state tenant id _ pending now js ∙ e)
    | inr e ↦
        rw (count-exists (is_job_of tenant id delete) js, e, fresh)
          (exists-snoc (is_job_of tenant id delete) js _
            (rw (eq_refl tenant, eq_refl id, eq_refl (operation_text delete)) refl))
  ]

  -- The first mark leaves a job, where its drawn id is new.
  first_mark :
      (draw : ℕ → String) (now : Time) (db : Db)
      → exists (λ j. str_eq j.id (draw 0)) db.index_jobs ≡ false
      → exists
          (is_job_of tenant id delete)
          (mark_state draw now tenant (id ∷ []) delete pending "" db).index_jobs
        ≡ true
  unfolding mark_state trim_space
  first_mark draw now db fresh =
      rw
        (
          mark_state,
          mark_index_state-one draw now pending (trim_space "") db.index_jobs pending_filled,
        )
        (settle (mark_one (draw 0) tenant id delete pending "" now db.index_jobs)
          (mark_one-exists (draw 0) now db.index_jobs fresh))
    where
      settle :
          (r : Result IndexJobs)
          → Succeeds (λ ks. exists (is_job_of tenant id delete) ks ≡ true) r
          → exists
              (is_job_of tenant id delete)
              (elim r as (λ x. Db) [
                | ok js ↦ record db { index_jobs = js }
                | err e ↦ db
              ]).index_jobs
            ≡ true
      settle (ok js) h = h
      settle (err e) h = absurd h

  finish_delete-HasState {ℓ} :
      {V : Type ℓ} (error_text : Error → String) (draw : ℕ → String) (now : Time) (e : Option Error)
      (db : Db) (v : V)
      → exists (is_job_of tenant id delete) db.index_jobs ≡ true
      → let done = finish_delete error_text draw now tenant id e db v in
        HasState tenant id (final_state done.0) done.1.index_jobs
  unfolding finish_delete is_blank state_text
  finish_delete-HasState error_text draw now none db v h =
      mark_state-HasState draw now tombstoned "" db refl h
  finish_delete-HasState error_text draw now (some e) db v h =
      mark_state-HasState draw now failed (error_text e) db refl h

  delete_memory-exists :
      (draw : String) (now : Time) (db : Db)
      → exists (is_job_of tenant id delete) db.index_jobs ≡ true
      → IfOk
          (λ db'. exists (is_job_of tenant id delete) db'.index_jobs ≡ true)
          (delete_memory draw now tenant id db)
  unfolding delete_memory upsert_index_job
  delete_memory-exists draw now db h =
      rw h (elim (Bool-cases (count (is_memory tenant id) db.memories == 0)) [
        | inl e ↦ rw e tt
        | inr e ↦ rw e (exists-set_state tenant id _ pending now db.index_jobs ∙ h)
      ])

  remove_memory-HasState {ℓ} :
      {V : Type ℓ} (error_text : Error → String) (remove : String → String → V → Option Error × V)
      (draw : ℕ → ℕ → String) (clock : ℕ → Time) (db : Db) (v : V)
      → exists (is_job_of tenant id delete) db.index_jobs ≡ true
      → let done = remove_memory error_text remove draw clock tenant id db v in
        HasState tenant id (final_state done.0) done.1.index_jobs
  unfolding remove_memory
  remove_memory-HasState {V} error_text remove draw clock db v h =
      go (delete_memory (draw 1 0) (clock 1) tenant id db)
        (delete_memory-exists (draw 1 0) (clock 1) db h)
    where
      go :
          (r : Result Db)
          → IfOk (λ db'. exists (is_job_of tenant id delete) db'.index_jobs ≡ true) r
          → let done = elim r as (λ x. Option Error × Db × V) [
            | err e ↦ finish_delete error_text (draw 2) (clock 2) tenant id (some e) db v
            | ok db' ↦
                finish_delete error_text
                  (draw 2)
                  (clock 2)
                  tenant
                  id
                  (remove tenant id v).0
                  db'
                  (remove tenant id v).1
          ] in
            HasState tenant id (final_state done.0) done.1.index_jobs
      go (ok db') k =
          finish_delete-HasState error_text (draw 2) (clock 2) (remove tenant id v).0 db'
            (remove tenant id v).1 k
      go (err e) k = finish_delete-HasState error_text (draw 2) (clock 2) (some e) db v h

  -- Where the tenant exists and the id of the first index job is new, and the tenant's id and the
  -- memory's are usable: whatever the repository and the vector store answer, the deletion's index job
  -- is there in the end, tombstoned if Delete returned no error, and failed if it returned one.
  pub delete_by_service-HasState {ℓ} :
      {V : Type ℓ} (error_text : Error → String) (remove : String → String → V → Option Error × V)
      (draw : ℕ → ℕ → String) (clock : ℕ → Time) (db : Db) (v : V)
      → exists (tenant_is tenant) db.tenants ≡ true
      → exists (λ j. str_eq j.id (draw 0 0)) db.index_jobs ≡ false
      → let done = delete_by_service error_text (some remove) draw clock tenant id db v in
        HasState tenant id (final_state done.0) done.1.index_jobs
  unfolding delete_by_service ensure_tenant_exists
  delete_by_service-HasState error_text remove draw clock db v housed fresh =
      rw (delete_by_service, t, tidy_filled id i, housed)
        (remove_memory-HasState error_text remove draw clock
          (mark_state (draw 0) (clock 0) tenant (id ∷ []) delete pending "" db) v
          (first_mark (draw 0) (clock 0) db fresh))
