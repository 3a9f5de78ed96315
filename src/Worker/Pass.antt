-- ===== src/Worker/Pass.antt =====
-- A round of a worker: the claim, and the marks of the jobs that it returned.
use mathlib.Core.Option
use pali.Common.{
  String, str_eq, eq_iff, eq_refl, true, false, ◌≡◌, refl, sym, ap, ◌∙◌, ◌+◌, Option, none, some,
  List, [], ◌∷◌, Result, ok, err, not_found, arith, inl, inr, Option-cases, All, AllPairs,
}
use pali.Common.Sql.{find, find_sound}
use pali.Common.Sql.Laws.{updated, map-updated-none}
use pali.Common.Text.{trim_space, is_empty}
use pali.Clock.{Time}
use pali.Domain.Jobs.{PostprocessJob}
use pali.Queue.{Jobs, has_id}
use pali.Queue.Mark.{succeed, fail, time_or, is_failure}
use pali.Queue.Mark.Results.{mark_succeeded-find, mark_failed-find}
use pali.Queue.History.{table_of}
use pali.Queue.Consistency.{IdsDiffer}
use pali.Worker.{
  NormalOptions, failure_status, next_available, process_job, settled_row, process_all,
}

-- What a mark by the id `id` answers, and finds under `i` afterwards.
abbrev Marks : String → String → (PostprocessJob → PostprocessJob) → Jobs → Result Jobs → Type 0
Marks id i f js r =
    (find (has_id id) js ≡ none → r ≡ err not_found)
    × ((j : PostprocessJob)
        → find (has_id id) js ≡ some j
        → (js' : Jobs) × (r ≡ ok js')
          × (find (has_id i) js' ≡ Option.map (updated (has_id id) f) (find (has_id i) js)))

table_of-find :
    (id i : String) (f : PostprocessJob → PostprocessJob) (js : Jobs) (r : Result Jobs)
    → Marks id i f js r
    → find (has_id i) (table_of js (λ ks. ks) r)
      ≡ Option.map (updated (has_id id) f) (find (has_id i) js)
table_of-find id i f js r m = elim (Option-cases (find (has_id id) js)) [
  | inl e ↦ rw (m.0 e) (sym (map-updated-none (has_id i) (has_id id) f js e))
  | inr (j, e) ↦ let (ks, p, q) = m.1 j e in rw p q
]

-- What a mark of `job` makes of the row `a`.
mark_row : NormalOptions → Time → PostprocessJob → Option String → PostprocessJob → PostprocessJob
mark_row opts now job none a = succeed (time_or now now) a
mark_row opts now job (some error) a =
    fail (failure_status opts job) (job.attempts + 1)
      (time_or (next_available opts now job) (time_or now now)) (trim_space (trim_space error))
      (time_or now now) a

failure_status-is_failure :
    (opts : NormalOptions) (job : PostprocessJob) → is_failure (failure_status opts job) ≡ true
unfolding failure_status is_failure
failure_status-is_failure opts job = ground arith

process_job-find :
    (opts : NormalOptions) (now : Time) (job : PostprocessJob) (outcome : Option String) (js : Jobs)
    (i : String)
    → trim_space job.id ≡ job.id
    → is_empty job.id ≡ false
    → find (has_id i) (process_job opts now job outcome js)
      ≡ Option.map (updated (has_id job.id) (mark_row opts now job outcome)) (find (has_id i) js)
unfolding process_job mark_row
process_job-find opts now job none js i t n =
    table_of-find job.id i _ js _ (rw t at (mark_succeeded-find job.id i now now js (rw t n)))
process_job-find opts now job (some error) js i t n = table_of-find job.id i _ js _ (
    rw t at (
      mark_failed-find job.id i now (next_available opts now job) (job.attempts + 1)
        (failure_status opts job) (trim_space error) now js (rw t n)
        (failure_status-is_failure opts job)))

mark_row-eq-settled :
    (opts : NormalOptions) (now : Time) (job : PostprocessJob) (outcome : Option String)
    → mark_row opts now job outcome job ≡ settled_row opts now outcome job
unfolding mark_row settled_row
mark_row-eq-settled opts now job none = refl
mark_row-eq-settled opts now job (some error) = refl

-- A job as a claim returns it: with a trimmed id that is not empty, and found under it.
pub record IsHeld (js : Jobs) (j : PostprocessJob) : Type 0 where
  pub trimmed : trim_space j.id ≡ j.id
  pub named : is_empty j.id ≡ false
  pub found : find (has_id j.id) js ≡ some j

process_job_self :
    (opts : NormalOptions) (now : Time) (job : PostprocessJob) (outcome : Option String) (js : Jobs)
    → IsHeld js job
    → find (has_id job.id) (process_job opts now job outcome js)
      ≡ some (settled_row opts now outcome job)
unfolding has_id
process_job_self opts now job outcome js h =
    process_job-find opts now job outcome js job.id h.trimmed h.named
    ∙ rw (h.found, eq_refl job.id) (ap some (mark_row-eq-settled opts now job outcome))

not_named :
    (id i : String) (a : PostprocessJob)
    → str_eq id i ≡ false
    → has_id i a ≡ true
    → has_id id a ≡ false
unfolding has_id
not_named id i a d e = ground (arith, eq_iff a.id i, eq_iff a.id id, eq_iff id i)

flip_ne : (j k : PostprocessJob) → IdsDiffer j k → str_eq j.id k.id ≡ false
unfolding has_id
flip_ne j k d = ground (arith, eq_iff j.id k.id, eq_iff k.id j.id)

other_row :
    (id i : String) (f : PostprocessJob → PostprocessJob) (js : Jobs)
    → str_eq id i ≡ false
    → Option.map (updated (has_id id) f) (find (has_id i) js) ≡ find (has_id i) js
other_row id i f js d = elim (Option-cases (find (has_id i) js)) [
  | inl e ↦ rw e
  | inr (a, e) ↦ rw (e, not_named id i a d (find_sound (has_id i) js a e))
]

process_job-other :
    (opts : NormalOptions) (now : Time) (job : PostprocessJob) (outcome : Option String) (js : Jobs)
    (i : String)
    → IsHeld js job
    → str_eq job.id i ≡ false
    → find (has_id i) (process_job opts now job outcome js) ≡ find (has_id i) js
process_job-other opts now job outcome js i h d =
    process_job-find opts now job outcome js i h.trimmed h.named ∙ other_row job.id i _ js d

module _ (opts : NormalOptions) (now : PostprocessJob → Time)
    (outcome : PostprocessJob → Option String) where
  still-IsHeld :
      (job : PostprocessJob) (js : Jobs) (ks : List PostprocessJob)
      → IsHeld js job
      → All (IdsDiffer job) ks
      → All (IsHeld js) ks
      → All (IsHeld (process_job opts (now job) job (outcome job) js)) ks
  still-IsHeld job js [] h d r = tt
  still-IsHeld job js (k ∷ ks) h d r = (
    record {
      trimmed = r.0.trimmed;
      named = r.0.named;
      found =
          process_job-other opts (now job) job (outcome job) js k.id h (flip_ne job k d.0)
          ∙ r.0.found;
    },
    still-IsHeld job js ks h d.1 r.1,
  )

  process_all-other :
      (job : PostprocessJob) (ks : List PostprocessJob) (js : Jobs)
      → AllPairs IdsDiffer ks
      → All (IdsDiffer job) ks
      → All (IsHeld js) ks
      → find (has_id job.id) (process_all opts now outcome ks js) ≡ find (has_id job.id) js
  unfolding process_all has_id
  process_all-other job [] js p d h = refl
  process_all-other job (k ∷ ks) js p d h =
      process_all-other job ks _ p.1 d.1 (still-IsHeld k js ks h.0 p.0 h.1)
      ∙ process_job-other opts (now k) k (outcome k) js job.id h.0 d.0

  pub process_all-settles :
      (jobs : List PostprocessJob) (js : Jobs)
      → AllPairs IdsDiffer jobs
      → All (IsHeld js) jobs
      → All
          (λ j.
            find (has_id j.id) (process_all opts now outcome jobs js)
            ≡ some (settled_row opts (now j) (outcome j) j))
          jobs
  unfolding process_all
  process_all-settles [] js p h = tt
  process_all-settles (j ∷ jobs) js p h = (
    process_all-other j jobs _ p.1 p.0 (still-IsHeld j js jobs h.0 p.0 h.1)
        ∙ process_job_self opts (now j) j (outcome j) js h.0,
    process_all-settles jobs _ p.1 (still-IsHeld j js jobs h.0 p.0 h.1),
  )
