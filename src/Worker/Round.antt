-- ===== src/Worker/Round.antt =====
-- What a round of a worker does to the jobs that it claims.
use pali.Common.{ℕ, String, ◌≡◌, Option, some, List, ok, All, All-mono, All-zip, AllPairs, subst}
use pali.Common.Sql.{find}
use pali.Common.Text.{trim_space, is_empty}
use pali.Clock.{Time}
use pali.Domain.Jobs.{PostprocessJob, ClaimOptions}
use pali.Queue.{Jobs, has_id}
use pali.Queue.Claim.{claim, claim_tx}
use pali.Queue.Claim.Exclusive.{guard-ok}
use pali.Queue.Claim.Returned.{claim_tx_named, claim_tx-AllPairs, claim_tx_found, claim_tx_trimmed}
use pali.Queue.Consistency.{IsConsistent, IdsDiffer}
use pali.Worker.{NormalOptions, settled_row, round_claim, worker_round}
use pali.Worker.Pass.{IsHeld, process_all-settles}

-- What a successful claim returns: distinct jobs, each held.
abbrev Held : List PostprocessJob × Jobs → Type 0
Held r = AllPairs IdsDiffer r.0 × All (IsHeld r.1) r.0

claim_tx-Held :
    (owner : String) (lease now : Time) (limit : ℕ) (js : Jobs)
    → IsConsistent js
    → Held (claim_tx owner lease now limit js)
claim_tx-Held owner lease now limit js h = (
  claim_tx-AllPairs owner lease now limit js h,
  All-mono _ _ (λ j r. record { trimmed = r.0; named = r.1.0; found = r.1.1 }) _
      (All-zip _ _ _ (claim_tx_trimmed owner lease now limit js h) (
        All-zip _ _ _ (claim_tx_named owner lease now limit js)
          (claim_tx_found owner lease now limit js h))),
)

claim-Held :
    (c : ClaimOptions) (clock : Time) (js : Jobs) (r : List PostprocessJob × Jobs)
    → IsConsistent js
    → claim c clock js ≡ ok r
    → Held r
unfolding claim
claim-Held c clock js r h e =
    subst Held (guard-ok (is_empty (trim_space c.owner)) _ r e) (claim_tx-Held _ _ _ _ js h)

-- If the claim of a worker's round succeeds on a consistent table, then after the round each claimed
-- job is found as its outcome settles it: succeeded, or failed with one more attempt, due after the
-- retry delay, or dead at its limit; and so with no lease.
pub worker_round-settles :
    (opts : NormalOptions) (owner : String) (clock : Time) (now : PostprocessJob → Time)
    (outcome : PostprocessJob → Option String) (js : Jobs) {r : List PostprocessJob × Jobs}
    → IsConsistent js
    → claim (round_claim opts owner clock) clock js ≡ ok r
    → All
        (λ j.
          find (has_id j.id) (worker_round opts owner clock now outcome js)
          ≡ some (settled_row opts (now j) (outcome j) j))
        r.0
unfolding worker_round
worker_round-settles opts owner clock now outcome js {r} h e =
    let held = claim-Held (round_claim opts owner clock) clock js r h e in
    rw e (process_all-settles opts now outcome r.0 r.1 held.0 held.1)
