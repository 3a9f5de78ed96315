-- ===== src/Queue/Consistency.antt =====
-- What holds of the table of jobs between two operations, and that each operation keeps it.
use pali.Common.{
  ℕ, ℤ, suc, ◌<◌, String, str_eq, eq_iff, Bool, true, false, not, ◌≡◌, refl, none, List, [], ◌∷◌,
  IfOk, IfOk-guard, IfOk-bind, Option-cases, positive_or, invalid_input, arith, inl, inr,
  Bool-cases, All, AllPairs, All-append, positive_or_pos,
}
use pali.Common.Sql.{
  update, exists, find, All-update, AllPairs-update, AllPairs-snoc, All-of_not-exists,
}
use pali.Common.Text.{trim_space}
use pali.Clock.{Time}
use pali.Domain.Jobs.{JobStatus, running, type_text, PostprocessJob, JobEnqueue}
use pali.Queue.{
  Jobs, same_key, has_id, requeue, upsert_row, new_row, upsert_job, resolved, is_valid_enqueue,
  enqueue_from, enqueue, with_defaults,
}

abbrev pub is_running : JobStatus → Bool
is_running running = true
is_running _ = false

-- A row holds a lease only while it runs, allows at least one attempt, and has an id that
-- `TrimSpace` leaves as it is.
pub record RowOk (j : PostprocessJob) : Type 0 where
  pub unleased : is_running j.status ≡ false → j.leased_until ≡ none
  pub capped : 0 < j.max_attempts
  pub trimmed : trim_space j.id ≡ j.id

abbrev pub KeysDiffer : PostprocessJob → PostprocessJob → Type 0
KeysDiffer a b = same_key a b ≡ false

abbrev pub IdsDiffer : PostprocessJob → PostprocessJob → Type 0
IdsDiffer a b = has_id a.id b ≡ false

-- The constraints UNIQUE(tenant_id, memory_id, job_type) and PRIMARY KEY hold, and so does `RowOk`.
pub record IsConsistent (js : Jobs) : Type 0 where
  pub keys : AllPairs KeysDiffer js
  pub ids : AllPairs IdsDiffer js
  pub rows : All RowOk js

-- An update that leaves the key and the id of a row.
pub record KeepsKeys (f : PostprocessJob → PostprocessJob) : Type 0 where
  pub id : (j : PostprocessJob) → (f j).id ≡ j.id
  pub tenant : (j : PostprocessJob) → (f j).tenant_id ≡ j.tenant_id
  pub memory : (j : PostprocessJob) → (f j).memory_id ≡ j.memory_id
  pub job_type : (j : PostprocessJob) → (f j).job_type ≡ j.job_type

pub update-IsConsistent :
    {js : Jobs} (p : PostprocessJob → Bool) (f : PostprocessJob → PostprocessJob)
    → KeepsKeys f
    → ((j : PostprocessJob) → p j ≡ true → RowOk j → RowOk (f j))
    → IsConsistent js
    → IsConsistent (update p f js)
unfolding same_key has_id
update-IsConsistent {js} p f k r h = record {
  keys =
      AllPairs-update KeysDiffer p f js (λ a b e. rw (k.tenant a, k.memory a, k.job_type a) e)
        (λ a b e. rw (k.tenant b, k.memory b, k.job_type b) e) h.keys;
  ids = AllPairs-update IdsDiffer p f js (λ a b e. rw (k.id a) e) (λ a b e. rw (k.id b) e) h.ids;
  rows = All-update RowOk p f js r h.rows;
}

str_eq_comm : (s t : String) → str_eq s t ≡ str_eq t s
str_eq_comm s t = ground (arith, eq_iff s t, eq_iff t s)

same_key_comm : (a b : PostprocessJob) → same_key a b ≡ same_key b a
unfolding same_key
same_key_comm a b = simp (
  str_eq_comm a.tenant_id b.tenant_id,
  str_eq_comm a.memory_id b.memory_id,
  str_eq_comm (type_text a.job_type) (type_text b.job_type),
)

pub IdsDiffer-comm : (a b : PostprocessJob) → IdsDiffer a b → IdsDiffer b a
unfolding has_id
IdsDiffer-comm a b h = ground (arith, eq_iff a.id b.id, eq_iff b.id a.id)

flip_keys : (n : PostprocessJob) (js : Jobs) → All (KeysDiffer n) js → All (λ j. KeysDiffer j n) js
flip_keys n [] h = tt
flip_keys n (j ∷ js) h = (rw (same_key_comm j n) h.0, flip_keys n js h.1)

pub flip_ids :
    (n : PostprocessJob) (js : Jobs)
    → All (λ j. has_id n.id j ≡ false) js
    → All (λ j. IdsDiffer j n) js
unfolding has_id
flip_ids n [] h = tt
flip_ids n (j ∷ js) h = (rw (str_eq_comm n.id j.id) h.0, flip_ids n js h.1)

requeue-KeepsKeys : (n : PostprocessJob) → KeepsKeys (requeue n)
unfolding requeue
requeue-KeepsKeys n = record {
  id = λ j. refl;
  tenant = λ j. refl;
  memory = λ j. refl;
  job_type = λ j. refl;
}

requeue-RowOk : (n j : PostprocessJob) → RowOk n → RowOk j → RowOk (requeue n j)
unfolding requeue
requeue-RowOk n j h k = record { unleased = λ e. refl; capped = h.capped; trimmed = k.trimmed }

pub upsert_row-IsConsistent :
    (n : PostprocessJob) (js : Jobs)
    → RowOk n
    → IsConsistent js
    → IfOk IsConsistent (upsert_row n js)
unfolding upsert_row
upsert_row-IsConsistent n js r h = elim (Bool-cases (exists (same_key n) js)) [
  | inl old ↦ rw old (
      update-IsConsistent (same_key n) (requeue n) (requeue-KeepsKeys n)
        (λ j _. requeue-RowOk n j r) h)
  | inr new ↦ elim (Bool-cases (exists (has_id n.id) js)) [
    | inl taken ↦ rw (new, taken) tt
    | inr free ↦
        rw (new, free)
          (record {
            keys =
                AllPairs-snoc KeysDiffer js n h.keys
                  (flip_keys n js (All-of_not-exists (same_key n) js new));
            ids =
                AllPairs-snoc IdsDiffer js n h.ids
                  (flip_ids n js (All-of_not-exists (has_id n.id) js free));
            rows = All-append RowOk js (n ∷ []) h.rows (r, tt);
          })
  ]
]

new_row-RowOk :
    (draw : String × String) (job : JobEnqueue) (now : Time)
    → trim_space draw.1 ≡ draw.1
    → RowOk (new_row draw job now)
unfolding new_row
new_row-RowOk draw job now t = record {
  trimmed = t;
  unleased = λ e. refl;
  capped = positive_or_pos job.max_attempts 5 (omega arith);
}

resolved-IsConsistent :
    (n : PostprocessJob) (js : Jobs)
    → IsConsistent js
    → IfOk (λ (r : String × Jobs). IsConsistent r.1) (resolved n js)
unfolding resolved
resolved-IsConsistent n js h = elim (Option-cases (find (same_key n) js)) [
  | inl e ↦ rw (e, resolved) tt
  | inr (j, e) ↦ rw (e, resolved) h
]

pub upsert_job-IsConsistent :
    (draw : String × String) (job : JobEnqueue) (now : Time) (js : Jobs)
    → trim_space draw.1 ≡ draw.1
    → IsConsistent js
    → IfOk (λ (r : String × Jobs). IsConsistent r.1) (upsert_job draw job now js)
unfolding upsert_job
upsert_job-IsConsistent draw job now js t h =
    IfOk-guard _ (not (is_valid_enqueue job)) invalid_input _ (
      IfOk-bind IsConsistent _ (upsert_row (new_row draw job now) js) _
        (upsert_row-IsConsistent (new_row draw job now) js (new_row-RowOk draw job now t) h)
        (resolved-IsConsistent (new_row draw job now)))

enqueue_from-IsConsistent :
    (draw : ℕ → String × String) (max : ℕ) (now : Time) (i : ℕ) (jobs : List JobEnqueue) (js : Jobs)
    → ((k : ℕ) → trim_space (draw k).1 ≡ (draw k).1)
    → IsConsistent js
    → IfOk
        (λ (r : List PostprocessJob × Jobs). IsConsistent r.1)
        (enqueue_from draw max now i jobs js)
unfolding enqueue_from
enqueue_from-IsConsistent draw max now i [] js t h = h
enqueue_from-IsConsistent draw max now i (job ∷ jobs) js t h =
    IfOk-guard _ (not (is_valid_enqueue job)) invalid_input _ (
      IfOk-bind (λ (r : String × Jobs). IsConsistent r.1) _
        (upsert_job (draw i) (with_defaults max (draw i).0 job) now js) _
        (upsert_job-IsConsistent (draw i) (with_defaults max (draw i).0 job) now js (t i) h)
        (λ written k.
          IfOk-bind (λ (r : List PostprocessJob × Jobs). IsConsistent r.1) _
            (enqueue_from draw max now (suc i) jobs written.1) _
            (enqueue_from-IsConsistent draw max now (suc i) jobs written.1 t k) (λ later l. l)))

pub enqueue-IsConsistent :
    (draw : ℕ → String × String) (clock : Time) (jobs : List JobEnqueue) (max : ℤ) (js : Jobs)
    → ((k : ℕ) → trim_space (draw k).1 ≡ (draw k).1)
    → IsConsistent js
    → IfOk (λ (r : List PostprocessJob × Jobs). IsConsistent r.1) (enqueue draw clock jobs max js)
unfolding enqueue
enqueue-IsConsistent draw clock jobs max js t h =
    enqueue_from-IsConsistent draw (positive_or max 5) clock 0 jobs js t h
