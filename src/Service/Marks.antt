-- ===== src/Service/Marks.antt =====
-- What a mark does to the job that a deletion has in the index.
use pali.Common.{
  String, Bool, true, false, not, ◌≡◌, refl, Option, none, some, List, [], ◌∷◌, Error, arith, inl,
  inr, Bool-cases, ◌==◌,
}
use mathlib.Core.Option
use pali.Common.Sql.{update, count, find, exists}
use pali.Common.Sql.Laws.{exists-update}
use pali.Common.Text.{is_blank}
use pali.Clock.{Time}
use pali.Domain.Memories.{
  IndexState, delete, pending, failed, tombstoned, state_text, operation_text,
}
use pali.IndexJobs.{IndexJobs, is_job_of, set_state}

pub delete_filled : is_blank (operation_text delete) ≡ false
unfolding is_blank operation_text
delete_filled = refl

pub pending_filled : is_blank (state_text pending) ≡ false
unfolding is_blank state_text
pending_filled = refl

-- The state that an answer of Delete goes with.
abbrev pub final_state : Option Error → IndexState
final_state none = tombstoned
final_state (some e) = failed

-- There is a job for the deletion, and the one that a query finds is in this state.
abbrev pub HasState : String → String → IndexState → IndexJobs → Type 0
HasState tenant id state js =
    Option.map (λ j. j.state) (find (is_job_of tenant id delete) js) ≡ some state

-- A job that is there is set to the state.
pub update-HasState :
    (tenant id last_error : String) (state : IndexState) (now : Time) (js : IndexJobs)
    → exists (is_job_of tenant id delete) js ≡ true
    → HasState tenant id state
        (update (is_job_of tenant id delete) (set_state state last_error now) js)
unfolding find exists update set_state is_job_of
update-HasState tenant id last_error state now [] h = absurd cc
update-HasState tenant id last_error state now (j ∷ js) h =
    elim (Bool-cases (is_job_of tenant id delete j)) [
      | inl e ↦ simp e
      | inr e ↦ simp e (update-HasState tenant id last_error state now js (rw e at h))
    ]

pub count-exists : {A : Type 0} (p : A → Bool) (xs : List A) → (count p xs == 0) ≡ not (exists p xs)
unfolding count exists
count-exists p [] = refl
count-exists p (a ∷ xs) = elim (Bool-cases (p a)) [
  | inl e ↦ rw e (ground arith)
  | inr e ↦ rw e (count-exists p xs)
]

pub exists-set_state :
    (tenant id last_error : String) (state : IndexState) (now : Time) (js : IndexJobs)
    → exists
        (is_job_of tenant id delete)
        (update (is_job_of tenant id delete) (set_state state last_error now) js)
      ≡ exists (is_job_of tenant id delete) js
unfolding is_job_of set_state
exists-set_state tenant id last_error state now js =
    exists-update (is_job_of tenant id delete) (is_job_of tenant id delete)
      (set_state state last_error now) js (λ j. refl)
