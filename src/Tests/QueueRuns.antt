-- ===== src/Tests/QueueRuns.antt =====
-- The queue at concrete inputs.
use pali.Common.{
  ℤ, ◌+◌, ◌*◌, false, ◌≡◌, refl, none, some, List, [], ◌∷◌, ok, err, IfOk, All, length, ◌≤◌, ◌&&◌,
  arith, not_found,
}
use mathlib.Core.Option
use pali.Common.Sql.{update, find, exists, select, count, order_by, insert_by}
use pali.Common.Sql.Laws.{updated}
use pali.Common.Text.{trim_space, is_empty, is_blank}
use pali.Common.Unique.{unique_non_empty, index_of}
use pali.Clock.{Time, second, stamp_leb, suffix, text_leb, stamp_leb-whole_second}
use pali.Domain.Jobs.{
  vector_upsert, queued, running, failed, PostprocessJob, JobEnqueue, ClaimOptions,
}
use pali.Queue.{
  Jobs, same_key, has_id, new_row, upsert_job, is_valid_enqueue, is_job_type_supported,
}
use pali.Queue.Claim.{
  is_claimable, is_waiting, is_lease_free, claimable_rows, claim_order, mark_claimed, lease_to,
  list_by_ids, by_index, has_id_in, claim, claim_time, claim_lease, claim_tx,
}
use pali.Queue.Claim.Settled.{after_claims, after_claims-settled, is_claimable-eq-waiting}
use pali.Queue.Claim.Counted.{Leased}
use pali.Queue.Claim.Leases.{claim-Leased}
use pali.Queue.Claim.Exclusive.{claim-exclusive}
use pali.Queue.Mark.{succeed, fail, time_or, is_failure, mark_succeeded, mark_failed}
use pali.Queue.Mark.Results.{mark_succeeded-find, mark_failed-find}
use pali.Queue.Consistency.{IsConsistent, IdsDiffer}
use pali.Queue.Requeue.{Requeued, upsert_job-Requeued}
use pali.Queue.History.{QueueOp, enqueue_op, claim_op, run, run-IsConsistent}

abbrev pub noon : Time
noon = 63_900_000_000 * second

abbrev pub waiting_job : PostprocessJob
waiting_job = record {
  id = "ppj_1";
  ingest_id = "ing_1";
  tenant_id = "acme";
  memory_id = "mem_1";
  job_type = vector_upsert;
  status = queued;
  attempts = 0;
  max_attempts = 5;
  available_at = noon;
  lease_owner = "";
  leased_until = none;
  last_error = "";
  created_at = noon;
  updated_at = noon;
}

-- A job whose worker stopped: its lease ended an hour ago.
abbrev running_job : PostprocessJob
running_job = record waiting_job {
  id = "ppj_2";
  memory_id = "mem_2";
  status = running;
  lease_owner = "worker";
  leased_until = some (noon + second);
}

abbrev pub table : Jobs
table = waiting_job ∷ running_job ∷ []

pub table-IsConsistent : IsConsistent table
unfolding same_key has_id trim_space
table-IsConsistent = record {
  keys = ((refl, tt), (tt, tt));
  ids = ((refl, tt), (tt, tt));
  rows = (
    record { unleased = λ e. refl; capped = omega arith; trimmed = refl },
    (record { unleased = λ e. cc; capped = omega arith; trimmed = refl }, tt),
  );
}

abbrev by_worker : ClaimOptions
by_worker = record {
  owner = " w1 ";
  limit = ℤ.pos 8;
  now = noon + 3600 * second;
  lease_until = noon + 3630 * second;
}

abbrev first_claim : List PostprocessJob × Jobs
first_claim = claim_tx "w1" (noon + 3630 * second) (noon + 3600 * second) 8 table

abbrev second_claim : List PostprocessJob × Jobs
second_claim = claim_tx "w1" (noon + 3630 * second) (noon + 3600 * second) 8 first_claim.1

first_claim_ok : claim by_worker noon table ≡ ok first_claim
unfolding claim trim_space claim_lease claim_time is_empty
first_claim_ok = refl

second_claim_ok : claim by_worker noon first_claim.1 ≡ ok second_claim
unfolding claim trim_space claim_lease claim_time is_empty
second_claim_ok = refl

claim-exclusive_example : All (λ a. All (IdsDiffer a) second_claim.0) first_claim.0
claim-exclusive_example =
    claim-exclusive by_worker by_worker noon noon table {r₁ = first_claim} {r₂ = second_claim}
      table-IsConsistent first_claim_ok second_claim_ok

claim-Leased_example :
    IfOk
      (λ (r : List PostprocessJob × Jobs).
        All (Leased (trim_space " w1 ") (claim_lease by_worker (claim_time by_worker noon))) r.0
        × (length r.0 ≤ 8))
      (claim by_worker noon table)
claim-Leased_example = claim-Leased by_worker noon table table-IsConsistent

-- The job whose lease has expired is never claimed again.
after_claims-settled_example :
    find (has_id "ppj_2") (after_claims ((by_worker, noon) ∷ (by_worker, noon) ∷ []) table)
    ≡ some running_job
unfolding find has_id is_waiting
after_claims-settled_example =
    after_claims-settled "ppj_2" running_job ((by_worker, noon) ∷ (by_worker, noon) ∷ []) table
      table-IsConsistent refl refl

is_claimable-eq-waiting_example :
    All (λ j. is_claimable noon j ≡ (stamp_leb j.available_at noon && is_waiting j.status)) table
is_claimable-eq-waiting_example = is_claimable-eq-waiting noon table table-IsConsistent

-- The claim hands out the waiting job under its lease, and the second claim nothing.
claims_run :
    (first_claim.0
      ≡ record waiting_job {
        status = running;
        lease_owner = "w1";
        leased_until = some (noon + 3630 * second);
        updated_at = noon + 3600 * second;
      }
        ∷ [])
    × (second_claim.0 ≡ [])
unfolding claim_tx claimable_rows is_claimable is_waiting is_lease_free stamp_leb select order_by
    claim_order mark_claimed lease_to list_by_ids unique_non_empty by_index index_of has_id_in
    has_id update count trim_space is_empty text_leb suffix insert_by
claims_run = (refl, refl)

abbrev new_job : JobEnqueue
new_job = record {
  ingest_id = "ing_9";
  tenant_id = "acme";
  memory_id = "mem_2";
  job_type = vector_upsert;
  max_attempts = ℤ.pos 0;
}

-- Enqueuing the running job again requeues it.
upsert_job-Requeued_example :
    Requeued
      (new_row ("ing_x", "ppj_9") new_job noon)
      (upsert_job ("ing_x", "ppj_9") new_job noon table)
unfolding is_valid_enqueue is_blank exists has_id is_job_type_supported new_row
upsert_job-Requeued_example =
    upsert_job-Requeued ("ing_x", "ppj_9") new_job noon table table-IsConsistent refl refl

mark_succeeded-find_example :
    (find (has_id "ppj_2") table ≡ none → mark_succeeded " ppj_2 " noon noon table ≡ err not_found)
    × ((j : PostprocessJob)
        → find (has_id "ppj_2") table ≡ some j
        → (js : Jobs) × (mark_succeeded " ppj_2 " noon noon table ≡ ok js)
          × (find (has_id "ppj_1") js
              ≡ Option.map
                  (updated (has_id "ppj_2") (succeed (time_or noon noon)))
                  (find (has_id "ppj_1") table)))
unfolding trim_space is_empty
mark_succeeded-find_example = mark_succeeded-find " ppj_2 " "ppj_1" noon noon table refl

mark_failed-find_example :
    (find (has_id "ppj_2") table ≡ none
      → mark_failed "ppj_2" noon noon (ℤ.pos 1) failed "timeout" noon table ≡ err not_found)
    × ((j : PostprocessJob)
        → find (has_id "ppj_2") table ≡ some j
        → (js : Jobs) × (mark_failed "ppj_2" noon noon (ℤ.pos 1) failed "timeout" noon table
            ≡ ok js)
          × (find (has_id "ppj_1") js
              ≡ Option.map
                  (updated (has_id "ppj_2") (
                    fail failed 1 (time_or noon (time_or noon noon)) "timeout" (time_or noon noon)))
                  (find (has_id "ppj_1") table)))
unfolding trim_space is_empty is_failure
mark_failed-find_example =
    mark_failed-find "ppj_2" "ppj_1" noon noon 1 failed "timeout" noon table refl refl

abbrev history : List QueueOp
history =
    enqueue_op (λ k. ("ing_1", "ppj_1")) noon (new_job ∷ []) (ℤ.pos 3)
    ∷ claim_op by_worker noon
    ∷ []

run-IsConsistent_example : IsConsistent (run history [])
unfolding trim_space
run-IsConsistent_example = run-IsConsistent history ((λ k. refl), (tt, tt))

-- A job that is due at noon is not found due a millisecond later.
stamp_leb-whole_second_example :
    stamp_leb (63_900_000_000 * second) (63_900_000_000 * second + 1_000_000) ≡ false
stamp_leb-whole_second_example =
    stamp_leb-whole_second 63_900_000_000 1_000_000 (omega arith) (omega arith)
