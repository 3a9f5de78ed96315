-- ===== src/Queue/Claim/Settled.antt =====
-- A claim and the rows that it does not take.
use pali.Common.{
  ℕ, String, Bool, true, false, ◌&&◌, ◌≡◌, refl, ◌∙◌, none, some, List, [], ◌∷◌, ok, err, IfOk,
  IfOk-guard, invalid_input, arith, inl, inr, List-cases, guard, All, All-mono,
}
use pali.Common.Sql.{find}
use pali.Common.Sql.Laws.{find-update, find-All}
use pali.Common.Text.{trim_space, is_empty}
use pali.Clock.{Time, stamp_leb}
use pali.Domain.Jobs.{PostprocessJob, ClaimOptions}
use pali.Queue.{Jobs, has_id}
use pali.Queue.Claim.{
  is_waiting, is_lease_free, is_claimable, claimable_rows, lease_to, mark_claimed, has_id_in,
  claim_tx, claim,
}
use pali.Queue.Claim.Effect.{
  ids_of, mark_claimed-eq-update, mark_claimed-IsConsistent, claimable_rows-ids,
}
use pali.Queue.Consistency.{IsConsistent, RowOk}

module _ (owner : String) (lease now : Time) (limit : ℕ) (js : Jobs) where
  abbrev pub marked : Jobs
  marked = (mark_claimed owner lease now (ids_of (claimable_rows now limit js)) js).1

  -- A transaction leaves the table or marks the claimed rows.
  pub claim_tx-cases :
      (P : Jobs → Type 0) → P js → P marked → P (claim_tx owner lease now limit js).1
  unfolding claim_tx
  claim_tx-cases P h k =
      elim (List-cases (mark_claimed owner lease now (ids_of (claimable_rows now limit js)) js).0) [
        | inl e ↦ rw (e, claim_tx) h
        | inr (i, is, e) ↦ rw (e, claim_tx) k
      ]

  pub claim_tx-IsConsistent : IsConsistent js → IsConsistent (claim_tx owner lease now limit js).1
  claim_tx-IsConsistent h =
      claim_tx-cases IsConsistent h (mark_claimed-IsConsistent owner lease now _ js h)

  claim_tx-settled :
      (id : String) (j : PostprocessJob)
      → IsConsistent js
      → is_claimable now j ≡ false
      → find (has_id id) js ≡ some j
      → find (has_id id) (claim_tx owner lease now limit js).1 ≡ some j
  unfolding has_id lease_to
  claim_tx-settled id j h n e =
      claim_tx-cases (λ ks. find (has_id id) ks ≡ some j) e
        (rw (mark_claimed-eq-update owner lease now (ids_of (claimable_rows now limit js)) js) (
          find-update (has_id id) (has_id_in (ids_of (claimable_rows now limit js)))
            (lease_to owner lease now) js (λ a. refl)
          ∙ (rw e (rw (find-All _ (has_id id) js j (claimable_rows-ids now limit js h) e n)))))

-- ClaimPostprocessJobs keeps the table consistent.
pub claim-IsConsistent :
    (opts : ClaimOptions) (clock : Time) (js : Jobs)
    → IsConsistent js
    → IfOk (λ (r : List PostprocessJob × Jobs). IsConsistent r.1) (claim opts clock js)
unfolding claim
claim-IsConsistent opts clock js h =
    IfOk-guard _ (is_empty (trim_space opts.owner)) invalid_input _
      (claim_tx-IsConsistent _ _ _ _ js h)

-- The table after a claim; where the claim is refused it is as it was.
unfoldable pub after_claim : ClaimOptions × Time → Jobs → Jobs
after_claim c js = elim (claim c.0 c.1 js) [ ok r ↦ r.1 | err e ↦ js ]

unfoldable pub after_claims : List (ClaimOptions × Time) → Jobs → Jobs
unfolding after_claim
after_claims [] js = js
after_claims (c ∷ cs) js = after_claims cs (after_claim c js)

pub after_claim-IsConsistent :
    (c : ClaimOptions × Time) (js : Jobs) → IsConsistent js → IsConsistent (after_claim c js)
unfolding after_claim
after_claim-IsConsistent c js h =
    elim (claim c.0 c.1 js)
        as (λ r.
          IfOk (λ (r : List PostprocessJob × Jobs). IsConsistent r.1) r
          → IsConsistent (elim r [ ok r ↦ r.1 | err e ↦ js ])) [ ok r ↦ λ k. k | err e ↦ λ k. h ]
      (claim-IsConsistent c.0 c.1 js h)

pub not_waiting-not_claimable :
    (now : Time) (j : PostprocessJob) → is_waiting j.status ≡ false → is_claimable now j ≡ false
unfolding is_claimable
not_waiting-not_claimable now j h = ground arith

claim_result-settled :
    (id : String) (j : PostprocessJob) (b : Bool) (js : Jobs) (r : List PostprocessJob × Jobs)
    → find (has_id id) js ≡ some j
    → find (has_id id) r.1 ≡ some j
    → find (has_id id) (elim (guard b invalid_input (ok r)) [ ok r ↦ r.1 | err e ↦ js ]) ≡ some j
claim_result-settled id j true js r h k = h
claim_result-settled id j false js r h k = k

after_claim-settled :
    (id : String) (j : PostprocessJob) (c : ClaimOptions × Time) (js : Jobs)
    → IsConsistent js
    → is_waiting j.status ≡ false
    → find (has_id id) js ≡ some j
    → find (has_id id) (after_claim c js) ≡ some j
unfolding after_claim claim
after_claim-settled id j c js h n e =
    claim_result-settled id j (is_empty (trim_space c.0.owner)) js _ e
      (claim_tx-settled _ _ _ _ js id j h (not_waiting-not_claimable _ j n) e)

-- In a consistent table a job that is neither queued nor failed (it runs, succeeded or is dead) is
-- left exactly as it is, lease included, by every sequence of claims, whenever they are made: so
-- also a running job whose lease has expired.
pub after_claims-settled :
    (id : String) (j : PostprocessJob) (cs : List (ClaimOptions × Time)) (js : Jobs)
    → IsConsistent js
    → is_waiting j.status ≡ false
    → find (has_id id) js ≡ some j
    → find (has_id id) (after_claims cs js) ≡ some j
unfolding after_claims
after_claims-settled id j [] js h n e = e
after_claims-settled id j (c ∷ cs) js h n e =
    after_claims-settled id j cs (after_claim c js) (after_claim-IsConsistent c js h) n
      (after_claim-settled id j c js h n e)

waiting-unleased :
    (j : PostprocessJob) → RowOk j → is_waiting j.status ≡ true → j.leased_until ≡ none
unfolding is_waiting
waiting-unleased j r e = ground (arith, r.unleased)

row_claimable :
    (now : Time) (j : PostprocessJob)
    → RowOk j
    → is_claimable now j ≡ (stamp_leb j.available_at now && is_waiting j.status)
unfolding is_claimable is_lease_free
row_claimable now j r = ground (arith, waiting-unleased j r)

-- In a consistent table the lease decides nothing: a row is claimable exactly when it is queued or
-- failed and the text of its `available_at` is not after that of `now`.
pub is_claimable-eq-waiting :
    (now : Time) (js : Jobs)
    → IsConsistent js
    → All (λ j. is_claimable now j ≡ (stamp_leb j.available_at now && is_waiting j.status)) js
is_claimable-eq-waiting now js h = All-mono RowOk _ (row_claimable now) js h.rows
