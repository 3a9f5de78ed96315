-- ===== src/Queue/History.antt =====
-- Every sequence of the queue's operations, failed ones included.
use pali.Common.{ℕ, ℤ, String, ◌≡◌, List, [], ◌∷◌, Result, ok, err, IfOk, All}
use pali.Common.Text.{trim_space}
use pali.Clock.{Time}
use pali.Domain.Jobs.{JobStatus, PostprocessJob, JobEnqueue, ClaimOptions}
use pali.Queue.{Jobs, enqueue}
use pali.Queue.Claim.{claim}
use pali.Queue.Claim.Settled.{claim-IsConsistent}
use pali.Queue.Mark.{mark_succeeded, mark_failed}
use pali.Queue.Mark.Results.{mark_succeeded-IsConsistent, mark_failed-IsConsistent}
use pali.Queue.Consistency.{IsConsistent, enqueue-IsConsistent}

pub data QueueOp : Type 0 where
  enqueue_op : (ℕ → String × String) → Time → List JobEnqueue → ℤ → QueueOp
  claim_op : ClaimOptions → Time → QueueOp
  succeeded_op : String → Time → Time → QueueOp
  failed_op : String → Time → Time → ℤ → JobStatus → String → Time → QueueOp

-- The table that a result leaves: an error leaves the old one.
abbrev pub table_of {ℓ} : {A : Type ℓ} → Jobs → (A → Jobs) → Result A → Jobs
table_of js f (ok a) = f a
table_of js f (err e) = js

unfoldable pub run_op : QueueOp → Jobs → Jobs
run_op (enqueue_op draw clock jobs max) js =
    table_of js (λ (r : List PostprocessJob × Jobs). r.1) (enqueue draw clock jobs max js)
run_op (claim_op opts clock) js =
    table_of js (λ (r : List PostprocessJob × Jobs). r.1) (claim opts clock js)
run_op (succeeded_op id now clock) js = table_of js (λ ks. ks) (mark_succeeded id now clock js)
run_op (failed_op id now next attempts status last_error clock) js =
    table_of js (λ ks. ks) (mark_failed id now next attempts status last_error clock js)

unfoldable pub run : List QueueOp → Jobs → Jobs
unfolding run_op
run [] js = js
run (op ∷ ops) js = run ops (run_op op js)

-- The ids that `newID` draws have no space at either end.
abbrev pub DrawsTrimmed : QueueOp → Type 0
DrawsTrimmed (enqueue_op draw clock jobs max) = (k : ℕ) → trim_space (draw k).1 ≡ (draw k).1
DrawsTrimmed _ = Unit

pub table_of-IsConsistent {ℓ} :
    {A : Type ℓ} (js : Jobs) (f : A → Jobs) (r : Result A)
    → IsConsistent js
    → IfOk (λ a. IsConsistent (f a)) r
    → IsConsistent (table_of js f r)
table_of-IsConsistent js f (ok a) h k = k
table_of-IsConsistent js f (err e) h k = h

pub run_op-IsConsistent :
    (op : QueueOp) (js : Jobs) → DrawsTrimmed op → IsConsistent js → IsConsistent (run_op op js)
unfolding run_op
run_op-IsConsistent (enqueue_op draw clock jobs max) js t h =
    table_of-IsConsistent js _ _ h (enqueue-IsConsistent draw clock jobs max js t h)
run_op-IsConsistent (claim_op opts clock) js t h =
    table_of-IsConsistent js _ _ h (claim-IsConsistent opts clock js h)
run_op-IsConsistent (succeeded_op id now clock) js t h =
    table_of-IsConsistent js _ _ h (mark_succeeded-IsConsistent id now clock js h)
run_op-IsConsistent (failed_op id now next attempts status last_error clock) js t h =
    table_of-IsConsistent js _ _ h
      (mark_failed-IsConsistent id now next attempts status last_error clock js h)

run-IsConsistent_from :
    (ops : List QueueOp) (js : Jobs)
    → All DrawsTrimmed ops
    → IsConsistent js
    → IsConsistent (run ops js)
unfolding run
run-IsConsistent_from [] js t h = h
run-IsConsistent_from (op ∷ ops) js t h =
    run-IsConsistent_from ops (run_op op js) t.1 (run_op-IsConsistent op js t.0 h)

-- Every table that enqueuing, claiming and marking reach from the empty one, in any order and number
-- and with failed operations among them, is consistent: no two rows have one key or one id, a lease
-- is held by running rows only, attempt limits are positive, and ids are trimmed, if the drawn ids
-- are.
pub run-IsConsistent : (ops : List QueueOp) → All DrawsTrimmed ops → IsConsistent (run ops [])
run-IsConsistent ops t = run-IsConsistent_from ops [] t (record { keys = tt; ids = tt; rows = tt })
