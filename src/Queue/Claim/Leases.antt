-- ===== src/Queue/Claim/Leases.antt =====
-- The jobs that a claim returns.
use pali.Common.{
  ℕ, ◌≤◌, String, true, ◌≡◌, ap, List, [], ◌∷◌, IfOk, IfOk-guard, invalid_input, arith, inl, inr,
  List-cases, positive_or, All, All-mono, length, length-take-le, All-of,
}
use pali.Common.Sql.{select, order_by, All-select_of, All-select, All-order_by}
use pali.Common.Unique.{unique_from, unique_non_empty}
use pali.Common.Text.{trim_space, is_empty}
use pali.Clock.{Time}
use pali.Domain.Jobs.{PostprocessJob, ClaimOptions}
use pali.Queue.{Jobs}
use pali.Queue.Claim.{
  is_claimable, claim_order, claimable_rows, mark_claimed, has_id_in, by_index, list_by_ids,
  claim_time, claim_lease, claim_tx, claim,
}
use pali.Queue.Claim.Effect.{ids_of, mark_claimed-eq-update, mark_claimed-IsConsistent}
use pali.Queue.Consistency.{IsConsistent}
use pali.Queue.Claim.Counted.{
  Within, mark_claimed-Within, length-mark_claimed, Leased, update-Leased, IsTrimmed,
  mark_claimed-IsTrimmed, IsConsistent-HasTrimmedIds, ids_of-IsTrimmed,
  claimable_rows-HasTrimmedIds, unique_from-Within, length-list_by_ids, length-ids_of,
}

module _ (owner : String) (lease now : Time) (limit : ℕ) (js : Jobs) where
  abbrev pub wanted : List String
  wanted = ids_of (claimable_rows now limit js)

  abbrev pub claimed : List String
  claimed = (mark_claimed owner lease now wanted js).0

  listed-Leased :
      (ids : List String)
      → All IsTrimmed ids
      → Within ids wanted
      → All (Leased owner lease) (list_by_ids ids (mark_claimed owner lease now wanted js).1)
  unfolding list_by_ids unique_non_empty has_id_in
  listed-Leased ids t w = All-order_by _ (by_index (unique_from [] ids)) _ (
      All-select_of _ (has_id_in (unique_from [] ids)) _ (
        rw (mark_claimed-eq-update owner lease now wanted js) (
          All-mono _ _ (λ j k e. k (w j.id (unique_from-Within [] ids t j.id e))) _
            (update-Leased owner lease now wanted js))))

  length-claimed : length claimed ≤ limit
  unfolding claimable_rows
  length-claimed = omega (
    arith,
    length-mark_claimed owner lease now wanted js,
    length-ids_of (claimable_rows now limit js),
    length-take-le limit (order_by claim_order (select (is_claimable now) js)),
  )

  -- What a transaction returns: leased rows, no more than `limit`.
  pub claim_tx-Leased :
      IsConsistent js
      → All (Leased owner lease) (claim_tx owner lease now limit js).0
        × (length (claim_tx owner lease now limit js).0 ≤ limit)
  unfolding claim_tx
  claim_tx-Leased h = elim (List-cases claimed) [
    | inl e ↦ rw (e, claim_tx) (tt, omega arith)
    | inr (i, is, e) ↦
        rw (e, claim_tx)
          (
            listed-Leased (i ∷ is)
                (rw e at (
                  mark_claimed-IsTrimmed owner lease now wanted js (
                    ids_of-IsTrimmed _ (
                      claimable_rows-HasTrimmedIds now limit js
                        (IsConsistent-HasTrimmedIds js h)))))
                (rw e at (mark_claimed-Within owner lease now wanted js)),
            omega (
              arith,
              length-claimed,
              ap length e,
              length-list_by_ids (i ∷ is) (mark_claimed owner lease now wanted js).1
                  (mark_claimed-IsConsistent owner lease now wanted js h).ids,
            ),
          )
  ]

module _ (owner : String) (lease now : Time) (limit : ℕ) (js : Jobs) where
  -- What holds of all rows of the table holds of the jobs that are read from it.
  pub claim_tx-All :
      (P : PostprocessJob → Type 0)
      → All P (claim_tx owner lease now limit js).1
      → All P (claim_tx owner lease now limit js).0
  unfolding claim_tx list_by_ids
  claim_tx-All P h = elim (List-cases (claimed owner lease now limit js)) [
    | inl e ↦ rw (e, claim_tx) tt
    | inr (i, is, e) ↦
        rw (e, claim_tx) (All-order_by P _ _ (All-select P _ _ (rw (e, claim_tx) at h)))
  ]

  -- Each job that is returned has an id of a row that was claimable.
  pub claim_tx-ids :
      IsConsistent js
      → All
          (λ j. has_id_in (wanted owner lease now limit js) j ≡ true)
          (claim_tx owner lease now limit js).0
  unfolding claim_tx list_by_ids unique_non_empty has_id_in
  claim_tx-ids h = elim (List-cases (claimed owner lease now limit js)) [
    | inl e ↦ rw (e, claim_tx) tt
    | inr (i, is, e) ↦
        rw (e, claim_tx)
          (All-order_by _ _ _ (
            All-select_of _ _ _ (
              All-of _
                (λ j k.
                  (rw e at
                      (mark_claimed-Within owner lease now (wanted owner lease now limit js) js))
                    j.id
                    (unique_from-Within [] (i ∷ is)
                      (rw e at (
                        mark_claimed-IsTrimmed owner lease now (wanted owner lease now limit js) js
                          (ids_of-IsTrimmed _ (
                            claimable_rows-HasTrimmedIds now limit js
                              (IsConsistent-HasTrimmedIds js h)))))
                      j.id k))
                _)))
  ]

-- In a consistent table, each job that a successful claim returns is running under the trimmed owner's name and the claim's lease, and their number is at
-- most the limit, or 1 where the limit is not positive.
pub claim-Leased :
    (opts : ClaimOptions) (clock : Time) (js : Jobs)
    → IsConsistent js
    → IfOk
        (λ (r : List PostprocessJob × Jobs).
          All (Leased (trim_space opts.owner) (claim_lease opts (claim_time opts clock))) r.0
          × (length r.0 ≤ positive_or opts.limit 1))
        (claim opts clock js)
unfolding claim
claim-Leased opts clock js h =
    IfOk-guard _ (is_empty (trim_space opts.owner)) invalid_input _ (claim_tx-Leased _ _ _ _ js h)
