-- ===== src/Queue/Claim/Counted.antt =====
-- How many rows a claim leases and lists, and that their ids are trimmed.
use pali.Common.{
  ℕ, ◌≤◌, ◌+◌, String, str_eq, eq_iff, true, false, ◌||◌, ◌≡◌, refl, ap, some, List, [], ◌∷◌, arith,
  inl, inr, Bool-cases, All, All-mono, AllPairs, length, All-take, suc, ltb,
}
use pali.Common.Sql.{select, update, count, All-select, All-order_by, count_zero}
use pali.Common.Sql.Laws.{length-select, length-order_by, count-or}
use pali.Common.Unique.{has_text, unique_from, unique_non_empty}
use pali.Common.Text.{trim_space, is_empty}
use pali.Clock.{Time}
use pali.Domain.Jobs.{running, PostprocessJob}
use pali.Queue.{Jobs, has_id}
use pali.Queue.Claim.{claimable_rows, lease_to, mark_claimed, has_id_in, by_index, list_by_ids}
use pali.Queue.Claim.Effect.{ids_of}
use pali.Queue.Consistency.{IsConsistent, IdsDiffer, RowOk}

-- A list of texts within another.
abbrev pub Within : List String → List String → Type 0
Within ts ss = (s : String) → has_text s ts ≡ true → has_text s ss ≡ true

pub mark_claimed-Within :
    (owner : String) (lease now : Time) (ids : List String) (js : Jobs)
    → Within (mark_claimed owner lease now ids js).0 ids
unfolding mark_claimed has_text
mark_claimed-Within owner lease now [] js s h = h
mark_claimed-Within owner lease now (id ∷ ids) js s h =
    elim (Bool-cases (ltb 0 (count (has_id id) js))) [
      | inl e ↦ ground (
        arith,
        mark_claimed-Within owner lease now ids (update (has_id id) (lease_to owner lease now) js)
            s,
      )
      | inr e ↦ ground (
        arith,
        mark_claimed-Within owner lease now ids (update (has_id id) (lease_to owner lease now) js)
            s,
      )
    ]

pub length-mark_claimed :
    (owner : String) (lease now : Time) (ids : List String) (js : Jobs)
    → length (mark_claimed owner lease now ids js).0 ≤ length ids
unfolding mark_claimed
length-mark_claimed owner lease now [] js = omega arith
length-mark_claimed owner lease now (id ∷ ids) js = ground (
  arith,
  length-mark_claimed owner lease now ids (update (has_id id) (lease_to owner lease now) js),
)

-- Under a lease of this claim.
pub record Leased (owner : String) (lease : Time) (j : PostprocessJob) : Type 0 where
  pub status : j.status ≡ running
  pub owned : j.lease_owner ≡ owner
  pub until : j.leased_until ≡ some lease

pub update-Leased :
    (owner : String) (lease now : Time) (ids : List String) (js : Jobs)
    → All
        (λ j. has_id_in ids j ≡ true → Leased owner lease j)
        (update (has_id_in ids) (lease_to owner lease now) js)
unfolding update lease_to has_id_in
update-Leased owner lease now ids [] = tt
update-Leased owner lease now ids (j ∷ js) = (ground arith, update-Leased owner lease now ids js)

abbrev pub IsTrimmed : String → Type 0
IsTrimmed s = trim_space s ≡ s

abbrev pub HasTrimmedIds : Jobs → Type 0
HasTrimmedIds js = All (λ j. trim_space j.id ≡ j.id) js

pub mark_claimed-IsTrimmed :
    (owner : String) (lease now : Time) (ids : List String) (js : Jobs)
    → All IsTrimmed ids
    → All IsTrimmed (mark_claimed owner lease now ids js).0
unfolding mark_claimed
mark_claimed-IsTrimmed owner lease now [] js h = tt
mark_claimed-IsTrimmed owner lease now (id ∷ ids) js h =
    elim (Bool-cases (ltb 0 (count (has_id id) js))) [
      | inl e ↦ rw e (h.0, mark_claimed-IsTrimmed owner lease now ids _ h.1)
      | inr e ↦ rw e (mark_claimed-IsTrimmed owner lease now ids _ h.1)
    ]

pub IsConsistent-HasTrimmedIds : (js : Jobs) → IsConsistent js → HasTrimmedIds js
IsConsistent-HasTrimmedIds js h = All-mono RowOk _ (λ j r. r.trimmed) js h.rows

pub ids_of-IsTrimmed : (rows : Jobs) → HasTrimmedIds rows → All IsTrimmed (ids_of rows)
ids_of-IsTrimmed [] h = tt
ids_of-IsTrimmed (j ∷ rows) h = (h.0, ids_of-IsTrimmed rows h.1)

pub claimable_rows-HasTrimmedIds :
    (now : Time) (limit : ℕ) (js : Jobs)
    → HasTrimmedIds js
    → HasTrimmedIds (claimable_rows now limit js)
unfolding claimable_rows
claimable_rows-HasTrimmedIds now limit js h =
    All-take _ limit _ (All-order_by _ _ _ (All-select _ _ js h))

pub unique_from-Within :
    (seen vs : List String) → All IsTrimmed vs → Within (unique_from seen vs) vs
unfolding unique_from has_text
unique_from-Within seen [] h s k = k
unique_from-Within seen (v ∷ vs) h s k =
    elim (Bool-cases (is_empty (trim_space v) || has_text (trim_space v) seen)) [
      | inl e ↦ ground (arith, unique_from-Within seen vs h.1 s)
      | inr e ↦ ground (arith, unique_from-Within (trim_space v ∷ seen) vs h.1 s)
    ]

pub length-unique_from : (seen vs : List String) → length (unique_from seen vs) ≤ length vs
unfolding unique_from
length-unique_from seen [] = omega arith
length-unique_from seen (v ∷ vs) =
    ground (arith, length-unique_from seen vs, length-unique_from (trim_space v ∷ seen) vs)

pub same_id :
    (id : String) (j k : PostprocessJob) → has_id id j ≡ true → IdsDiffer j k → has_id id k ≡ false
unfolding has_id
same_id id j k e d = ground (arith, eq_iff j.id id, eq_iff k.id id, eq_iff k.id j.id)

pub others :
    (id : String) (j : PostprocessJob) (ks : Jobs)
    → has_id id j ≡ true
    → All (IdsDiffer j) ks
    → All (λ k. has_id id k ≡ false) ks
others id j [] e d = tt
others id j (k ∷ ks) e d = (same_id id j k e d.0, others id j ks e d.1)

-- An id names one row at most, so as many ids name as many rows at most.
pub count-has_id : (id : String) (js : Jobs) → AllPairs IdsDiffer js → count (has_id id) js ≤ 1
unfolding count
count-has_id id [] h = omega arith
count-has_id id (j ∷ js) h = elim (Bool-cases (has_id id j)) [
  | inl e ↦ rw e (omega (arith, count_zero (has_id id) js (others id j js e h.0)))
  | inr e ↦ rw e (count-has_id id js h.1)
]

pub count-no_id : (js : Jobs) → count (has_id_in []) js ≡ 0
unfolding count has_id_in has_text
count-no_id [] = refl
count-no_id (j ∷ js) = count-no_id js

pub count-has_id_in-cons :
    (id : String) (ids : List String) (js : Jobs)
    → count (has_id_in (id ∷ ids)) js ≤ count (has_id id) js + count (has_id_in ids) js
unfolding has_id has_id_in has_text
count-has_id_in-cons id ids js = count-or (λ j. str_eq j.id id) (λ j. has_text j.id ids) js

pub count-has_id_in :
    (ids : List String) (js : Jobs) → AllPairs IdsDiffer js → count (has_id_in ids) js ≤ length ids
count-has_id_in [] js h = omega (arith, count-no_id js)
count-has_id_in (id ∷ ids) js h =
    omega (arith, count-has_id_in-cons id ids js, count-has_id id js h, count-has_id_in ids js h)

pub length-list_by_ids :
    (ids : List String) (js : Jobs)
    → AllPairs IdsDiffer js
    → length (list_by_ids ids js) ≤ length ids
unfolding list_by_ids unique_non_empty
length-list_by_ids ids js h = omega (
  arith,
  length-order_by (by_index (unique_from [] ids)) (select (has_id_in (unique_from [] ids)) js),
  length-select (has_id_in (unique_from [] ids)) js,
  count-has_id_in (unique_from [] ids) js h,
  length-unique_from [] ids,
)

pub length-ids_of : (js : Jobs) → length (ids_of js) ≡ length js
length-ids_of [] = refl
length-ids_of (j ∷ js) = ap suc (length-ids_of js)
