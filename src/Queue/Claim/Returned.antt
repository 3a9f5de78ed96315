-- ===== src/Queue/Claim/Returned.antt =====
-- The jobs that a claim returns, and how the table finds them.
use pali.Common.{
  ℕ, String, str_eq, eq_iff, eq_refl, true, false, ◌||◌, ◌≡◌, some, List, [], ◌∷◌, arith, inl, inr,
  Bool-cases, List-cases, All, All-of, All-mono, All-zip, AllPairs,
}
use pali.Common.Sql.{find, All-select_of, All-order_by, AllPairs-select, AllPairs-order_by}
use pali.Common.Text.{trim_space, is_empty}
use pali.Common.Unique.{has_text, unique_from, unique_non_empty}
use pali.Clock.{Time}
use pali.Domain.Jobs.{PostprocessJob}
use pali.Queue.{Jobs, has_id}
use pali.Queue.Claim.{has_id_in, list_by_ids, claim_tx}
use pali.Queue.Claim.Leases.{claimed, claim_tx-All}
use pali.Queue.Claim.Settled.{claim_tx-IsConsistent}
use pali.Queue.Consistency.{IdsDiffer-comm, IsConsistent, IdsDiffer, RowOk}

cons_found :
    (j k : PostprocessJob) (js : Jobs)
    → IdsDiffer j k
    → find (has_id k.id) js ≡ some k
    → find (has_id k.id) (j ∷ js) ≡ some k
unfolding find
cons_found j k js d e = rw (IdsDiffer-comm j k d) e

self_found : (j : PostprocessJob) (js : Jobs) → find (has_id j.id) (j ∷ js) ≡ some j
unfolding find has_id
self_found j js = rw (eq_refl j.id)

-- The table finds every row by its id.
pub rows_found : (js : Jobs) → AllPairs IdsDiffer js → All (λ j. find (has_id j.id) js ≡ some j) js
rows_found [] h = tt
rows_found (j ∷ js) h = (
  self_found j js,
  All-mono _ _ (λ k r. cons_found j k js r.0 r.1) js (All-zip _ _ js h.0 (rows_found js h.1)),
)

empty_ne : (s t : String) → is_empty t ≡ false → str_eq s t ≡ true → is_empty s ≡ false
empty_ne s t n e = rw ((eq_iff s t).0 e) n

unique_from_named :
    (seen vs : List String) (s : String)
    → has_text s (unique_from seen vs) ≡ true
    → is_empty s ≡ false
unfolding unique_from has_text
unique_from_named seen [] s h = cc
unique_from_named seen (v ∷ vs) s h =
    elim (Bool-cases (is_empty (trim_space v) || has_text (trim_space v) seen)) [
      | inl e ↦ unique_from_named seen vs s (rw e at h)
      | inr e ↦ elim (Bool-cases (str_eq s (trim_space v))) [
        | inl f ↦ empty_ne s (trim_space v) (ground arith) f
        | inr f ↦ unique_from_named (trim_space v ∷ seen) vs s (ground arith)
      ]
    ]

module _ (owner : String) (lease now : Time) (limit : ℕ) (js : Jobs) where
  pub claim_tx_named : All (λ j. is_empty j.id ≡ false) (claim_tx owner lease now limit js).0
  unfolding claim_tx list_by_ids unique_non_empty has_id_in
  claim_tx_named = elim (List-cases (claimed owner lease now limit js)) [
    | inl e ↦ rw (e, claim_tx) tt
    | inr (i, is, e) ↦
        rw (e, claim_tx)
          (All-order_by _ _ _
            (All-select_of _ _ _ (All-of _ (λ j k. unique_from_named [] (i ∷ is) j.id k) _)))
  ]

  pub claim_tx-AllPairs : IsConsistent js → AllPairs IdsDiffer (claim_tx owner lease now limit js).0
  unfolding claim_tx list_by_ids
  claim_tx-AllPairs h = elim (List-cases (claimed owner lease now limit js)) [
    | inl e ↦ rw (e, claim_tx) tt
    | inr (i, is, e) ↦
        rw (e, claim_tx)
          (AllPairs-order_by IdsDiffer IdsDiffer-comm _ _ (
            AllPairs-select IdsDiffer _ _
              (rw (e, claim_tx) at ((claim_tx-IsConsistent owner lease now limit js h).ids))))
  ]

  pub claim_tx_found :
      IsConsistent js
      → All
          (λ j. find (has_id j.id) (claim_tx owner lease now limit js).1 ≡ some j)
          (claim_tx owner lease now limit js).0
  claim_tx_found h =
      claim_tx-All owner lease now limit js _
        (rows_found _ (claim_tx-IsConsistent owner lease now limit js h).ids)

  pub claim_tx_trimmed :
      IsConsistent js → All (λ j. trim_space j.id ≡ j.id) (claim_tx owner lease now limit js).0
  claim_tx_trimmed h = claim_tx-All owner lease now limit js _ (
      All-mono RowOk _ (λ j r. r.trimmed) _ (claim_tx-IsConsistent owner lease now limit js h).rows)
