-- ===== src/Queue/Claim/Exclusive.antt =====
-- Two claims in a row.
use pali.Common.{
  ℕ, String, eq_iff, Bool, true, false, ◌≡◌, List, [], ◌∷◌, ok, arith, guard, invalid_input, All,
  All-mono, All-zip, positive_or, subst,
}
use pali.Common.Text.{trim_space, is_empty}
use pali.Clock.{Time}
use pali.Domain.Jobs.{JobStatus, running, PostprocessJob, ClaimOptions}
use pali.Queue.{Jobs, has_id}
use pali.Queue.Claim.{
  is_waiting, is_claimable, claimable_rows, has_id_in, claim_time, claim_lease, claim_tx, claim,
}
use pali.Queue.Claim.Effect.{ids_of, claimable_rows-ids}
use pali.Queue.Claim.Settled.{claim_tx-IsConsistent, not_waiting-not_claimable}
use pali.Queue.Claim.Counted.{Leased}
use pali.Queue.Claim.Leases.{claim_tx-Leased, claim_tx-All, claim_tx-ids}
use pali.Queue.Consistency.{IsConsistent, IdsDiffer}

running-not_waiting : (s : JobStatus) → s ≡ running → is_waiting s ≡ false
unfolding is_waiting
running-not_waiting s e = rw e

differ_by_ids :
    (a : PostprocessJob) (ids : List String) (bs : List PostprocessJob)
    → has_id_in ids a ≡ false
    → All (λ b. has_id_in ids b ≡ true) bs
    → All (IdsDiffer a) bs
unfolding has_id_in has_id
differ_by_ids a ids [] n h = tt
differ_by_ids a ids (b ∷ bs) n h =
    (ground (arith, eq_iff b.id a.id, h.0, n), differ_by_ids a ids bs n h.1)

module _ (o₁ o₂ : String) (l₁ l₂ t₁ t₂ : Time) (n₁ n₂ : ℕ) (js : Jobs) where
  abbrev first : List PostprocessJob × Jobs
  first = claim_tx o₁ l₁ t₁ n₁ js

  not_again :
      (a : PostprocessJob)
      → (is_claimable t₂ a ≡ false → has_id_in (ids_of (claimable_rows t₂ n₂ first.1)) a ≡ false)
      → IsConsistent first.1
      → Leased o₁ l₁ a
      → All (IdsDiffer a) (claim_tx o₂ l₂ t₂ n₂ first.1).0
  not_again a k t r =
      differ_by_ids a _ _
        (k (not_waiting-not_claimable t₂ a (running-not_waiting a.status r.status)))
        (claim_tx-ids o₂ l₂ t₂ n₂ first.1 t)

  pub claim_tx_twice :
      IsConsistent js → All (λ a. All (IdsDiffer a) (claim_tx o₂ l₂ t₂ n₂ first.1).0) first.0
  claim_tx_twice h =
      All-mono _ _ (λ a k. not_again a k.1 (claim_tx-IsConsistent o₁ l₁ t₁ n₁ js h) k.0) first.0
        (All-zip _ _ first.0 (claim_tx-Leased o₁ l₁ t₁ n₁ js h).0 (
          claim_tx-All o₁ l₁ t₁ n₁ js _
            (claimable_rows-ids t₂ n₂ first.1 (claim_tx-IsConsistent o₁ l₁ t₁ n₁ js h))))

pub guard-ok :
    (b : Bool) (x r : List PostprocessJob × Jobs) → guard b invalid_input (ok x) ≡ ok r → x ≡ r
guard-ok true x r h = cc
guard-ok false x r h = cc

-- Two successful claims, the second on the table that the first left, whatever their owners, limits
-- and times: from a consistent table, no job is returned by both.
pub claim-exclusive :
    (c₁ c₂ : ClaimOptions) (clock₁ clock₂ : Time) (js : Jobs) {r₁ r₂ : List PostprocessJob × Jobs}
    → IsConsistent js
    → claim c₁ clock₁ js ≡ ok r₁
    → claim c₂ clock₂ r₁.1 ≡ ok r₂
    → All (λ a. All (IdsDiffer a) r₂.0) r₁.0
unfolding claim
claim-exclusive c₁ c₂ clock₁ clock₂ js {r₁} {r₂} h e₁ e₂ =
    let p₁ = guard-ok (is_empty (trim_space c₁.owner)) _ r₁ e₁ in
    let p₂ = guard-ok (is_empty (trim_space c₂.owner)) _ r₂ e₂ in
    subst (λ (r : List PostprocessJob × Jobs). All (λ a. All (IdsDiffer a) r.0) r₁.0) p₂
      (subst
        (λ (r : List PostprocessJob × Jobs).
          All
            (λ a.
              All (IdsDiffer a)
                (claim_tx (trim_space c₂.owner) (claim_lease c₂ (claim_time c₂ clock₂))
                  (claim_time c₂ clock₂) (positive_or c₂.limit 1) r.1).0)
            r.0)
        p₁ (claim_tx_twice _ _ _ _ _ _ _ _ js h))
