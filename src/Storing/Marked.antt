-- ===== src/Storing/Marked.antt =====
-- What the marks of the index leave, for memories whose ids differ.
use pali.Common.{
  ℕ, String, str_eq, eq_iff, false, ◌≡◌, refl, sym, ap, subst, List, [], ◌∷◌, ◌++◌, length, Result,
  ok, err, Succeeds, All, All-mono, All-zip, AllPairs, arith,
}
use pali.Common.Text.{trim_space, is_blank, IsTidy}
use pali.Common.Unique.{has_text, unique_from, unique_non_empty}
use pali.Domain.Memories.{IndexState, upsert, indexed, state_text, operation_text}
use pali.IndexJobs.{IndexJobs, mark_index_state}
use pali.IndexJobs.States.{HasJob, JobIn, Keeps, Spares, mark_index_state-JobIn}
use pali.Memories.{Db}
use pali.Service.{mark_state}
use pali.Storing.Vectors.{Marks, mark, mark_some}

-- Two ids differ.
abbrev pub Differ : String → String → Type 0
Differ x y = str_eq x y ≡ false

-- Ids that differ, without white space around them, whose memories have jobs.
abbrev pub Ready : String → IndexJobs → List String → Type 0
Ready tenant js ids = All (λ id. IsTidy id × HasJob tenant upsert js id) ids × AllPairs Differ ids

module _ {ℓ κ} {A : Type ℓ} (P : A → Type κ) where
  pub All-front : (xs ys : List A) → All P (xs ++ ys) → All P xs
  All-front [] ys h = tt
  All-front (x ∷ xs) ys h = (h.0, All-front xs ys h.1)

  pub All-back : (xs ys : List A) → All P (xs ++ ys) → All P ys
  All-back [] ys h = h
  All-back (x ∷ xs) ys h = All-back xs ys h.1

module _ {ℓ κ} {A : Type ℓ} (R : A → A → Type κ) where
  AllPairs-front : (xs ys : List A) → AllPairs R (xs ++ ys) → AllPairs R xs
  AllPairs-front [] ys h = tt
  AllPairs-front (x ∷ xs) ys h = (All-front (R x) xs ys h.0, AllPairs-front xs ys h.1)

  AllPairs-back : (xs ys : List A) → AllPairs R (xs ++ ys) → AllPairs R ys
  AllPairs-back [] ys h = h
  AllPairs-back (x ∷ xs) ys h = AllPairs-back xs ys h.1

  pub AllPairs-across : (xs ys : List A) → AllPairs R (xs ++ ys) → All (λ x. All (R x) ys) xs
  AllPairs-across [] ys h = tt
  AllPairs-across (x ∷ xs) ys h = (All-back (R x) xs ys h.0, AllPairs-across xs ys h.1)

pub Ready-front :
    (tenant : String) (js : IndexJobs) (xs ys : List String)
    → Ready tenant js (xs ++ ys)
    → Ready tenant js xs
Ready-front tenant js xs ys h = (All-front _ xs ys h.0, AllPairs-front Differ xs ys h.1)

pub Ready-back :
    (tenant : String) (js : IndexJobs) (xs ys : List String)
    → Ready tenant js (xs ++ ys)
    → Ready tenant js ys
Ready-back tenant js xs ys h = (All-back _ xs ys h.0, AllPairs-back Differ xs ys h.1)

pub Ready-Keeps :
    (tenant : String) (js ks : IndexJobs) (ids : List String)
    → Keeps tenant upsert js ks
    → Ready tenant js ids
    → Ready tenant ks ids
Ready-Keeps tenant js ks ids k h = (All-mono _ _ (λ id r. (r.0, k id r.1)) ids h.0, h.1)

-- The loop that drops repeated and blank ids keeps ids that differ and are tidy.
unique_from-apart :
    (seen ids : List String)
    → All IsTidy ids
    → AllPairs Differ ids
    → All (λ id. has_text id seen ≡ false) ids
    → unique_from seen ids ≡ ids
unfolding unique_from has_text
unique_from-apart seen [] t d n = refl
unique_from-apart seen (id ∷ ids) t d n =
    let fresh : All (λ x. has_text x (id ∷ seen) ≡ false) ids =
      All-mono _ _ (λ x b. ground (arith, b.0, b.1, eq_iff id x, eq_iff x id)) ids
        (All-zip _ _ ids d.0 n.1) in
    rw (t.0.0, t.0.1, n.0) (ap (λ r. id ∷ r) (unique_from-apart (id ∷ seen) ids t.1 d.1 fresh))

unique_non_empty-apart :
    (tenant : String) (js : IndexJobs) (ids : List String)
    → Ready tenant js ids
    → unique_non_empty ids ≡ ids
unfolding unique_non_empty has_text
unique_non_empty-apart tenant js ids h =
    unique_from-apart [] ids (All-mono _ _ (λ x r. r.0) ids h.0) h.1
      (All-mono _ _ (λ x r. refl) ids h.0)

-- What a mark of these ids with a state does to the jobs: it sets their states, takes no job away,
-- and leaves the states of other memories.
abbrev pub Marked : String → IndexState → List String → IndexJobs → IndexJobs → Type 0
Marked tenant state ids js ks =
    All (JobIn tenant upsert state ks) ids
    × Keeps tenant upsert js ks
    × Spares tenant upsert ids js ks

module _ (ms : Marks) (tenant : String) (t : is_blank tenant ≡ false) where
  pub mark-Marked :
      (k : ℕ) (ids : List String) (state : IndexState) (last_error : String) (db : Db)
      → is_blank (state_text state) ≡ false
      → Ready tenant db.index_jobs ids
      → Marked tenant state ids db.index_jobs (mark ms k tenant ids state last_error db).index_jobs
  unfolding mark mark_state is_blank operation_text
  mark-Marked k ids state last_error db s h =
      let same : unique_non_empty ids ≡ ids = unique_non_empty-apart tenant db.index_jobs ids h in
      let jobs : All (HasJob tenant upsert db.index_jobs) (unique_non_empty ids) =
        subst (All (HasJob tenant upsert db.index_jobs)) (sym same)
          (All-mono _ _ (λ x r. r.1) ids h.0) in
      go same
        (mark_index_state (ms.draw k) tenant ids upsert state (trim_space last_error) (ms.clock k)
          db.index_jobs)
        (mark_index_state-JobIn (ms.draw k) tenant ids upsert state (trim_space last_error)
          (ms.clock k) db.index_jobs t refl s jobs)
    where
      go :
          unique_non_empty ids ≡ ids
          → (r : Result IndexJobs)
          → Succeeds
              (λ ks.
                (length ks ≡ length db.index_jobs)
                × All (JobIn tenant upsert state ks) (unique_non_empty ids)
                × Keeps tenant upsert db.index_jobs ks
                × Spares tenant upsert (unique_non_empty ids) db.index_jobs ks)
              r
          → Marked tenant state ids db.index_jobs
              (elim r as (λ x. Db) [
                | ok js ↦ record db { index_jobs = js }
                | err e ↦ db
              ]).index_jobs
      go e (ok ks) g = subst (λ xs. Marked tenant state xs db.index_jobs ks) e (g.1, g.2, g.3)
      go e (err f) g = absurd g

  pub mark_some-Marked :
      (k : ℕ) (ids : List String) (db : Db)
      → Ready tenant db.index_jobs ids
      → Marked tenant indexed ids db.index_jobs (mark_some ms k tenant ids indexed db).index_jobs
  unfolding mark_some is_blank state_text
  mark_some-Marked k [] db h = (tt, λ x j. j, λ s x n j. j)
  mark_some-Marked k (id ∷ ids) db h = mark-Marked k (id ∷ ids) indexed "" db refl h
