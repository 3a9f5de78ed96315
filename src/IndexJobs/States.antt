-- ===== src/IndexJobs/States.antt =====
-- What MarkIndexState leaves as the states of the memories that it names.
use pali.Common.{
  ℕ, suc, String, str_eq, eq_iff, true, false, ◌≡◌, refl, ◌∙◌, some, List, [], ◌∷◌, length, Result,
  ok, err, Succeeds, All, All-mono, arith, inl, inr, Bool-cases, ◌==◌,
}
use mathlib.Core.Option
use pali.Common.Sql.{update, count, find, exists, length-update}
use pali.Common.Sql.Laws.{exists-update}
use pali.Common.Text.{trim_space, is_blank}
use pali.Common.Unique.{unique_non_empty}
use pali.Clock.{Time}
use pali.Domain.Memories.{IndexOperation, IndexState, operation_text, state_text}
use pali.IndexJobs.{IndexJobs, is_job_of, set_state, mark_one, mark_each, mark_index_state}

module _ (tenant : String) (op : IndexOperation) where
  -- There is a job for the memory.
  abbrev pub HasJob : IndexJobs → String → Type 0
  HasJob js id = exists (is_job_of tenant id op) js ≡ true

  -- There is a job for the memory, and the one that a query finds is in this state.
  abbrev pub JobIn : IndexState → IndexJobs → String → Type 0
  JobIn state js id = Option.map (λ j. j.state) (find (is_job_of tenant id op) js) ≡ some state

  -- A memory that had a job has one.
  abbrev pub Keeps : IndexJobs → IndexJobs → Type 0
  Keeps js ks = (x : String) → HasJob js x → HasJob ks x

  -- The memories other than these that were in a state are in it.
  abbrev pub Spares : List String → IndexJobs → IndexJobs → Type 0
  Spares ids js ks =
      (s : IndexState) (x : String)
      → All (λ id. str_eq x id ≡ false) ids
      → JobIn s js x
      → JobIn s ks x

  module _ (state : IndexState) (last_error : String) (now : Time) where
    abbrev marked : String → IndexJobs → IndexJobs
    marked id js = update (is_job_of tenant id op) (set_state state last_error now) js

    marked-HasJob : (id x : String) (js : IndexJobs) → HasJob js x → HasJob (marked id js) x
    unfolding is_job_of set_state
    marked-HasJob id x js h =
        exists-update (is_job_of tenant x op) (is_job_of tenant id op)
          (set_state state last_error now) js (λ j. refl)
        ∙ h

    -- The memory that is marked gets the state.
    marked-JobIn : (id : String) (js : IndexJobs) → HasJob js id → JobIn state (marked id js) id
    unfolding find exists update set_state is_job_of
    marked-JobIn id [] h = absurd cc
    marked-JobIn id (j ∷ js) h = elim (Bool-cases (is_job_of tenant id op j)) [
      | inl e ↦ simp e
      | inr e ↦ simp e (marked-JobIn id js (rw e at h))
    ]

    -- A memory that is in the state already stays in it.
    marked-JobIn_kept :
        (id x : String) (js : IndexJobs) → JobIn state js x → JobIn state (marked id js) x
    unfolding find update set_state is_job_of
    marked-JobIn_kept id x [] h = h
    marked-JobIn_kept id x (j ∷ js) h = elim (Bool-cases (is_job_of tenant x op j)) [
      | inl e ↦ elim (Bool-cases (is_job_of tenant id op j)) [
        | inl i ↦ simp (e, i)
        | inr i ↦ simp (e, i) (rw e at h)
      ]
      | inr e ↦ elim (Bool-cases (is_job_of tenant id op j)) [
        | inl i ↦ simp (e, i) (marked-JobIn_kept id x js (rw e at h))
        | inr i ↦ simp (e, i) (marked-JobIn_kept id x js (rw e at h))
      ]
    ]

    -- Another memory stays in its state.
    marked-Spares : (id : String) (js : IndexJobs) → Spares (id ∷ []) js (marked id js)
    unfolding find update set_state is_job_of
    marked-Spares id [] s x d h = h
    marked-Spares id (j ∷ js) s x d h = elim (Bool-cases (is_job_of tenant id op j)) [
      | inl i ↦
          let other : is_job_of tenant x op j ≡ false =
            ground (arith, eq_iff x id, eq_iff j.memory_id x, eq_iff j.memory_id id, d.0) in
          simp (i, other) (marked-Spares id js s x d (rw other at h))
      | inr i ↦ elim (Bool-cases (is_job_of tenant x op j)) [
        | inl e ↦ simp (i, e) (rw e at h)
        | inr e ↦ simp (i, e) (marked-Spares id js s x d (rw e at h))
      ]
    ]

    count-HasJob :
        (js : IndexJobs) (id : String)
        → HasJob js id
        → (count (is_job_of tenant id op) js == 0) ≡ false
    unfolding count exists
    count-HasJob js id h = go js h
      where
        go : (ks : IndexJobs) → HasJob ks id → (count (is_job_of tenant id op) ks == 0) ≡ false
        go [] k = cc
        go (j ∷ ks) k = elim (Bool-cases (is_job_of tenant id op j)) [
          | inl e ↦ rw e (ground arith)
          | inr e ↦ rw e (go ks (rw e at k))
        ]

    -- A round of the loop for a memory that has a job.
    mark_one-marked :
        (draw id : String) (js : IndexJobs)
        → HasJob js id
        → mark_one draw tenant id op state last_error now js ≡ ok (marked id js)
    unfolding mark_one
    mark_one-marked draw id js h = rw (count-HasJob js id h) refl

    -- The loop, over memories that have jobs: it sets their states, and those that are in the state stay in it.
    mark_each-JobIn :
        (draw : ℕ → String) (i : ℕ) (done ids : List String) (js : IndexJobs)
        → All (HasJob js) ids
        → All (JobIn state js) done
        → Succeeds
            (λ ks.
              (length ks ≡ length js)
              × All (JobIn state ks) done
              × All (JobIn state ks) ids
              × Keeps js ks
              × Spares ids js ks)
            (mark_each draw i tenant ids op state last_error now js)
    unfolding mark_each
    mark_each-JobIn draw i done [] js h d = (refl, d, tt, λ x k. k, λ s x n k. k)
    mark_each-JobIn draw i done (id ∷ ids) js h d = rw (mark_one-marked (draw i) id js h.0) (
        regroup (mark_each draw (suc i) tenant ids op state last_error now (marked id js)) (
          mark_each-JobIn draw (suc i) (id ∷ done) ids (marked id js)
            (All-mono _ _ (λ x k. marked-HasJob id x js k) ids h.1)
            (marked-JobIn id js h.0, All-mono _ _ (λ x k. marked-JobIn_kept id x js k) done d)))
      where
        regroup :
            (r : Result IndexJobs)
            → Succeeds
                (λ ks.
                  (length ks ≡ length (marked id js))
                  × All (JobIn state ks) (id ∷ done)
                  × All (JobIn state ks) ids
                  × Keeps (marked id js) ks
                  × Spares ids (marked id js) ks)
                r
            → Succeeds
                (λ ks.
                  (length ks ≡ length js)
                  × All (JobIn state ks) done
                  × All (JobIn state ks) (id ∷ ids)
                  × Keeps js ks
                  × Spares (id ∷ ids) js ks)
                r
        regroup (ok ks) g = (
          g.0 ∙ length-update (is_job_of tenant id op) (set_state state last_error now) js,
          g.1.1,
          (g.1.0, g.2),
          λ x k. g.3 x (marked-HasJob id x js k),
          λ s x n k. g.4 s x n.1 (marked-Spares id js s x (n.0, tt) k),
        )
        regroup (err e) g = g

-- MarkIndexState of memories that have jobs, with a tenant, an operation and a state that are not blank: it succeeds,
-- adds no row, changes no other memory's state, takes no memory's job away, and leaves the job of each memory that it names in the state, also where ids are repeated, blank
-- or have white space around them, which it trims or leaves out.
pub mark_index_state-JobIn :
    (draw : ℕ → String) (tenant : String) (ids : List String) (op : IndexOperation)
    (state : IndexState) (last_error : String) (now : Time) (js : IndexJobs)
    → is_blank tenant ≡ false
    → is_blank (operation_text op) ≡ false
    → is_blank (state_text state) ≡ false
    → All (HasJob tenant op js) (unique_non_empty ids)
    → Succeeds
        (λ ks.
          (length ks ≡ length js)
          × All (JobIn tenant op state ks) (unique_non_empty ids)
          × Keeps tenant op js ks
          × Spares tenant op (unique_non_empty ids) js ks)
        (mark_index_state draw tenant ids op state last_error now js)
unfolding mark_index_state
mark_index_state-JobIn draw tenant ids op state last_error now js t o s h =
    rw (t, o, s)
      (without_done
        (mark_each draw 0 tenant (unique_non_empty ids) op state (trim_space last_error) now js)
        (mark_each-JobIn tenant op state (trim_space last_error) now draw 0 []
          (unique_non_empty ids) js h tt))
  where
    without_done :
        (r : Result IndexJobs)
        → Succeeds
            (λ ks.
              (length ks ≡ length js)
              × Unit
              × All (JobIn tenant op state ks) (unique_non_empty ids)
              × Keeps tenant op js ks
              × Spares tenant op (unique_non_empty ids) js ks)
            r
        → Succeeds
            (λ ks.
              (length ks ≡ length js)
              × All (JobIn tenant op state ks) (unique_non_empty ids)
              × Keeps tenant op js ks
              × Spares tenant op (unique_non_empty ids) js ks)
            r
    without_done (ok ks) g = (g.0, g.2, g.3, g.4)
    without_done (err e) g = g
