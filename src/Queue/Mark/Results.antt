-- ===== src/Queue/Mark/Results.antt =====
-- What the marks make of the table.
use pali.Common.{
  ℕ, ℤ, String, true, false, not, ◌≡◌, refl, none, some, ok, err, IfOk, IfOk-guard, invalid_input,
  not_found, inl, inr, Bool-cases, ◌==◌,
}
use mathlib.Core.Option
use pali.Common.Sql.{update, count, find}
use pali.Common.Sql.Laws.{find-update, updated, count-find}
use pali.Common.Text.{trim_space, is_empty}
use pali.Clock.{Time}
use pali.Domain.Jobs.{JobStatus, PostprocessJob}
use pali.Queue.{Jobs, has_id}
use pali.Queue.Mark.{
  succeed, time_or, update_by_id, mark_succeeded, fail, is_failure, fail_by_id, mark_failed,
}
use pali.Queue.Consistency.{IsConsistent, KeepsKeys, RowOk, update-IsConsistent}

succeed-KeepsKeys : (now : Time) → KeepsKeys (succeed now)
unfolding succeed
succeed-KeepsKeys now = record {
  id = λ j. refl;
  tenant = λ j. refl;
  memory = λ j. refl;
  job_type = λ j. refl;
}

succeed-RowOk : (now : Time) (j : PostprocessJob) → RowOk j → RowOk (succeed now j)
unfolding succeed
succeed-RowOk now j h = record { unleased = λ e. refl; capped = h.capped; trimmed = h.trimmed }

module _ (status : JobStatus) (attempts : ℕ) (next : Time) (last_error : String) (now : Time) where
  fail-KeepsKeys : KeepsKeys (fail status attempts next last_error now)
  unfolding fail
  fail-KeepsKeys = record {
    id = λ j. refl;
    tenant = λ j. refl;
    memory = λ j. refl;
    job_type = λ j. refl;
  }

  fail-RowOk : (j : PostprocessJob) → RowOk j → RowOk (fail status attempts next last_error now j)
  unfolding fail
  fail-RowOk j h = record { unleased = λ e. refl; capped = h.capped; trimmed = h.trimmed }

update_by_id-IsConsistent :
    (id : String) (f : PostprocessJob → PostprocessJob) (js : Jobs)
    → KeepsKeys f
    → ((j : PostprocessJob) → RowOk j → RowOk (f j))
    → IsConsistent js
    → IfOk IsConsistent (update_by_id id f js)
unfolding update_by_id
update_by_id-IsConsistent id f js k r h = elim (Bool-cases (count (has_id id) js == 0)) [
  | inl e ↦ rw e tt
  | inr e ↦ rw e (update-IsConsistent (has_id id) f k (λ j _. r j) h)
]

pub mark_succeeded-IsConsistent :
    (id : String) (now clock : Time) (js : Jobs)
    → IsConsistent js
    → IfOk IsConsistent (mark_succeeded id now clock js)
unfolding mark_succeeded
mark_succeeded-IsConsistent id now clock js h =
    IfOk-guard _ (is_empty (trim_space id)) invalid_input _
      (update_by_id-IsConsistent _ _ js (succeed-KeepsKeys _) (succeed-RowOk _) h)

fail_by_id-IsConsistent :
    (id : String) (now next : Time) (attempts : ℤ) (status : JobStatus) (last_error : String)
    (js : Jobs)
    → IsConsistent js
    → IfOk IsConsistent (fail_by_id id now next attempts status last_error js)
unfolding fail_by_id
fail_by_id-IsConsistent id now next (ℤ.pos n) status last_error js h =
    update_by_id-IsConsistent _ _ js (fail-KeepsKeys _ _ _ _ _) (fail-RowOk _ _ _ _ _) h
fail_by_id-IsConsistent id now next (ℤ.negsuc n) status last_error js h = tt

pub mark_failed-IsConsistent :
    (id : String) (now next : Time) (attempts : ℤ) (status : JobStatus) (last_error : String)
    (clock : Time) (js : Jobs)
    → IsConsistent js
    → IfOk IsConsistent (mark_failed id now next attempts status last_error clock js)
unfolding mark_failed
mark_failed-IsConsistent id now next attempts status last_error clock js h =
    IfOk-guard _ (is_empty (trim_space id)) invalid_input _ (
      IfOk-guard _ (not (is_failure status)) invalid_input _
        (fail_by_id-IsConsistent _ _ next attempts status last_error js h))

-- An update by id is an error where no row has the id; else it changes that row, and no other.
update_by_id-find :
    (id i : String) (f : PostprocessJob → PostprocessJob) (js : Jobs)
    → KeepsKeys f
    → (find (has_id id) js ≡ none → update_by_id id f js ≡ err not_found)
      × ((j : PostprocessJob)
          → find (has_id id) js ≡ some j
          → (js' : Jobs) × (update_by_id id f js ≡ ok js')
            × (find (has_id i) js' ≡ Option.map (updated (has_id id) f) (find (has_id i) js)))
unfolding update_by_id has_id
update_by_id-find id i f js k = (
  (λ e. rw (count-find (has_id id) js) (rw e)),
  (λ j e. (
    update (has_id id) f js,
    rw (count-find (has_id id) js) (rw e),
    find-update (has_id i) (has_id id) f js (λ a. rw (k.id a)),
  )),
)

-- With an id that is not blank: where no row has it (trimmed), MarkPostprocessJobSucceeded answers
-- ErrNotFound; else it succeeds, the row is marked, and under every id the table finds what it found
-- before but for that mark.
pub mark_succeeded-find :
    (id i : String) (now clock : Time) (js : Jobs)
    → is_empty (trim_space id) ≡ false
    → (find (has_id (trim_space id)) js ≡ none → mark_succeeded id now clock js ≡ err not_found)
      × ((j : PostprocessJob)
          → find (has_id (trim_space id)) js ≡ some j
          → (js' : Jobs) × (mark_succeeded id now clock js ≡ ok js')
            × (find (has_id i) js'
                ≡ Option.map
                    (updated (has_id (trim_space id)) (succeed (time_or now clock)))
                    (find (has_id i) js)))
unfolding mark_succeeded
mark_succeeded-find id i now clock js h =
    rw h
      (update_by_id-find (trim_space id) i (succeed (time_or now clock)) js (succeed-KeepsKeys _))

-- The same of MarkPostprocessJobFailed, where besides the status is `failed` or `dead_letter`, and
-- `attempts` is not negative.
pub mark_failed-find :
    (id i : String) (now next : Time) (n : ℕ) (status : JobStatus) (last_error : String)
    (clock : Time) (js : Jobs)
    → is_empty (trim_space id) ≡ false
    → is_failure status ≡ true
    → (find (has_id (trim_space id)) js ≡ none
        → mark_failed id now next (ℤ.pos n) status last_error clock js ≡ err not_found)
      × ((j : PostprocessJob)
          → find (has_id (trim_space id)) js ≡ some j
          → (js' : Jobs) × (mark_failed id now next (ℤ.pos n) status last_error clock js ≡ ok js')
            × (find (has_id i) js'
                ≡ Option.map
                    (updated (has_id (trim_space id)) (
                      fail status n
                        (time_or next (time_or now clock))
                        (trim_space last_error)
                        (time_or now clock)))
                    (find (has_id i) js)))
unfolding mark_failed fail_by_id
mark_failed-find id i now next n status last_error clock js h k =
    rw (h, k) (update_by_id-find (trim_space id) i _ js (fail-KeepsKeys _ _ _ _ _))
