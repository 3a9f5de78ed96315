-- ===== src/Queue/Claim.antt =====
-- ClaimPostprocessJobs and listPostprocessJobsByIDsTx of
-- internal/repository/sqlite/memory_jobs.go.
pub mod Effect
pub mod Settled
pub mod Counted
pub mod Leases
pub mod Exclusive
pub mod Returned
use pali.Common.{
  ℕ, ◌+◌, ◌*◌, String, str_eq, Bool, true, false, not, ◌&&◌, ◌||◌, Option, none, some, List, [],
  ◌∷◌, map, Result, ok, guard, invalid_input, if◌then◌else◌, ltb, leb, positive_or, take,
}
use pali.Common.Sql.{select, update, count, order_by}
use pali.Common.Text.{trim_space, is_empty}
use pali.Common.Unique.{has_text, unique_non_empty, index_of}
use pali.Clock.{Time, second, is_zero, stamp_leb}
use pali.Domain.Jobs.{JobStatus, queued, running, failed, PostprocessJob, ClaimOptions}
use pali.Queue.{Jobs, has_id}

-- status IN ('queued', 'failed')
unfoldable pub is_waiting : JobStatus → Bool
is_waiting queued = true
is_waiting failed = true
is_waiting _ = false

-- leased_until = '' OR leased_until <= ?
unfoldable pub is_lease_free : Time → Option Time → Bool
is_lease_free now none = true
is_lease_free now (some t) = stamp_leb t now

-- The WHERE clause of ListMemoryPostprocessJobIDsForClaimSQL.
unfoldable pub is_claimable : Time → PostprocessJob → Bool
is_claimable now j =
    stamp_leb j.available_at now && is_waiting j.status && is_lease_free now j.leased_until

-- Its ORDER BY available_at ASC, created_at ASC.
unfoldable pub claim_order : PostprocessJob → PostprocessJob → Bool
claim_order a b =
    if stamp_leb a.available_at b.available_at
    then not (stamp_leb b.available_at a.available_at) || stamp_leb a.created_at b.created_at
    else false

unfoldable pub claimable_rows : Time → ℕ → Jobs → Jobs
claimable_rows now limit js = take limit (order_by claim_order (select (is_claimable now) js))

-- MarkMemoryPostprocessJobClaimedSQL
unfoldable pub lease_to : String → Time → Time → PostprocessJob → PostprocessJob
lease_to owner lease now j = record j {
  status = running;
  lease_owner = owner;
  leased_until = some lease;
  updated_at = now;
}

-- The loop over the ids, with the ids whose update affected a row.
unfoldable pub mark_claimed : String → Time → Time → List String → Jobs → List String × Jobs
mark_claimed owner lease now [] js = ([], js)
mark_claimed owner lease now (id ∷ ids) js =
    let rest =
      mark_claimed owner lease now ids (update (has_id id) (lease_to owner lease now) js) in
    (if ltb 0 (count (has_id id) js) then id ∷ rest.0 else rest.0, rest.1)

unfoldable pub by_index : List String → PostprocessJob → PostprocessJob → Bool
by_index ids a b = leb (index_of ids a.id) (index_of ids b.id)

unfoldable pub has_id_in : List String → PostprocessJob → Bool
has_id_in ids j = has_text j.id ids

-- listPostprocessJobsByIDsTx
unfoldable pub list_by_ids : List String → Jobs → List PostprocessJob
list_by_ids ids js =
    order_by (by_index (unique_non_empty ids)) (select (has_id_in (unique_non_empty ids)) js)

-- `now` of ClaimPostprocessJobs
unfoldable pub claim_time : ClaimOptions → Time → Time
claim_time opts clock = if is_zero opts.now then clock else opts.now

-- `leaseUntil`: the default is half a minute.
unfoldable pub claim_lease : ClaimOptions → Time → Time
claim_lease opts now =
    if is_zero opts.lease_until || not (ltb now opts.lease_until)
    then now + 30 * second
    else opts.lease_until

-- The transaction: where no id is found or none is updated it is rolled back.
unfoldable pub claim_tx : String → Time → Time → ℕ → Jobs → List PostprocessJob × Jobs
claim_tx owner lease now limit js =
    let ids = map (λ j. j.id) (claimable_rows now limit js) in
    elim (mark_claimed owner lease now ids js).0 [
      | [] ↦ ([], js)
      | i ∷ is ↦ (
        list_by_ids (i ∷ is) (mark_claimed owner lease now ids js).1,
        (mark_claimed owner lease now ids js).1,
      )
    ]

-- ClaimPostprocessJobs
unfoldable pub claim : ClaimOptions → Time → Jobs → Result (List PostprocessJob × Jobs)
claim opts clock js =
    let now = claim_time opts clock in
    guard (is_empty (trim_space opts.owner)) invalid_input (
      ok
        (claim_tx (trim_space opts.owner) (claim_lease opts now) now (positive_or opts.limit 1) js))
