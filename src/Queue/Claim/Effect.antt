-- ===== src/Queue/Claim/Effect.antt =====
-- What a claim makes of the table: the claimed rows are leased, and the others are as they were.
use pali.Common.{
  ℕ, String, eq_iff, Bool, false, ◌≡◌, refl, sym, ap, ◌∙◌, List, [], ◌∷◌, map, arith, inl, inr,
  Bool-cases, All, AllPairs, All-take, All-mono,
}
use pali.Common.Sql.{select, update, All-select, All-order_by}
use pali.Common.Sql.Laws.{update-update}
use pali.Common.Unique.{has_text}
use pali.Clock.{Time}
use pali.Domain.Jobs.{PostprocessJob}
use pali.Queue.{Jobs, has_id}
use pali.Queue.Claim.{is_claimable, claim_order, claimable_rows, lease_to, mark_claimed, has_id_in}
use pali.Queue.Consistency.{
  IdsDiffer-comm, IdsDiffer, IsConsistent, KeepsKeys, update-IsConsistent, RowOk,
}

abbrev pub ids_of : Jobs → List String
ids_of = map (λ j. j.id)

update-has_id_in :
    (owner : String) (lease now : Time) (id : String) (ids : List String) (js : Jobs)
    → update
        (has_id_in ids)
        (lease_to owner lease now)
        (update (has_id id) (lease_to owner lease now) js)
      ≡ update (has_id_in (id ∷ ids)) (lease_to owner lease now) js
unfolding has_id has_id_in has_text lease_to
update-has_id_in owner lease now id ids js =
    update-update (has_id id) (has_id_in ids) (lease_to owner lease now) js (λ j. refl) (λ j. refl)

update-no_id : (f : PostprocessJob → PostprocessJob) (js : Jobs) → update (has_id_in []) f js ≡ js
unfolding update has_id_in has_text
update-no_id f [] = refl
update-no_id f (j ∷ js) = ap (λ r. j ∷ r) (update-no_id f js)

-- The loop of updates is one update of the rows with these ids.
pub mark_claimed-eq-update :
    (owner : String) (lease now : Time) (ids : List String) (js : Jobs)
    → (mark_claimed owner lease now ids js).1 ≡ update (has_id_in ids) (lease_to owner lease now) js
unfolding mark_claimed
mark_claimed-eq-update owner lease now [] js = sym (update-no_id (lease_to owner lease now) js)
mark_claimed-eq-update owner lease now (id ∷ ids) js =
    mark_claimed-eq-update owner lease now ids (update (has_id id) (lease_to owner lease now) js)
    ∙ update-has_id_in owner lease now id ids js

pub lease_to-KeepsKeys : (owner : String) (lease now : Time) → KeepsKeys (lease_to owner lease now)
unfolding lease_to
lease_to-KeepsKeys owner lease now = record {
  id = λ j. refl;
  tenant = λ j. refl;
  memory = λ j. refl;
  job_type = λ j. refl;
}

lease_to-RowOk :
    (owner : String) (lease now : Time) (j : PostprocessJob)
    → RowOk j
    → RowOk (lease_to owner lease now j)
unfolding lease_to
lease_to-RowOk owner lease now j h = record {
  unleased = λ e. cc;
  capped = h.capped;
  trimmed = h.trimmed;
}

pub mark_claimed-IsConsistent :
    (owner : String) (lease now : Time) (ids : List String) (js : Jobs)
    → IsConsistent js
    → IsConsistent (mark_claimed owner lease now ids js).1
mark_claimed-IsConsistent owner lease now ids js h =
    rw (mark_claimed-eq-update owner lease now ids js) (
      update-IsConsistent (has_id_in ids) (lease_to owner lease now)
        (lease_to-KeepsKeys owner lease now) (λ j _. lease_to-RowOk owner lease now j) h)

module _ (p : PostprocessJob → Bool) where
  abbrev Apart : Jobs → PostprocessJob → Type 0
  Apart js j = p j ≡ false → All (IdsDiffer j) (select p js)

  Apart-cons : (a j : PostprocessJob) (js : Jobs) → IdsDiffer a j → Apart js j → Apart (a ∷ js) j
  unfolding select
  Apart-cons a j js d r n = elim (Bool-cases (p a)) [
    | inl e ↦ rw e (IdsDiffer-comm a j d, r n)
    | inr e ↦ rw e (r n)
  ]

  All-Apart-cons :
      (a : PostprocessJob) (js ks : Jobs)
      → All (IdsDiffer a) ks
      → All (Apart js) ks
      → All (Apart (a ∷ js)) ks
  All-Apart-cons a js [] d r = tt
  All-Apart-cons a js (k ∷ ks) d r = (Apart-cons a k js d.0 r.0, All-Apart-cons a js ks d.1 r.1)

  head-Apart : (a : PostprocessJob) (js : Jobs) → All (IdsDiffer a) js → Apart (a ∷ js) a
  unfolding select
  head-Apart a js h n = rw n (All-select (IdsDiffer a) p js h)

  -- A row that the clause does not name has an id that no named row has.
  select-ids : (js : Jobs) → AllPairs IdsDiffer js → All (Apart js) js
  select-ids [] h = tt
  select-ids (a ∷ js) h = (head-Apart a js h.0, All-Apart-cons a js js h.0 (select-ids js h.1))

has_id_in_none :
    (j : PostprocessJob) (rows : Jobs) → All (IdsDiffer j) rows → has_id_in (ids_of rows) j ≡ false
unfolding has_id_in has_text has_id
has_id_in_none j [] h = refl
has_id_in_none j (k ∷ rows) h =
    ground (arith, has_id_in_none j rows h.1, eq_iff j.id k.id, eq_iff k.id j.id, h.0)

-- A row that is not claimable is not among those that are claimed.
pub claimable_rows-ids :
    (now : Time) (limit : ℕ) (js : Jobs)
    → IsConsistent js
    → All
        (λ j.
          is_claimable now j ≡ false → has_id_in (ids_of (claimable_rows now limit js)) j ≡ false)
        js
unfolding claimable_rows
claimable_rows-ids now limit js h =
    All-mono _ _
      (λ j k n.
        has_id_in_none j _
          (All-take (IdsDiffer j) limit _ (All-order_by (IdsDiffer j) claim_order _ (k n))))
      js (select-ids (is_claimable now) js h.ids)
