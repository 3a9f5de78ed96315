-- ===== src/Queue/Requeue.antt =====
-- What an enqueued job is found as.
use pali.Common.{
  String, eq_refl, Bool, true, false, ◌≡◌, refl, ◌∙◌, subst, none, some, [], ◌∷◌, ◌++◌, Result, ok,
  arith, inl, inr, Bool-cases, All, AllPairs, All-append, All-mono,
}
use pali.Common.Sql.{
  update, find, exists, find_sound, find_complete, AllPairs-update, AllPairs-snoc,
  All-of_not-exists,
}
use pali.Common.Sql.Laws.{find-All, exists-update, exists-snoc}
use pali.Clock.{Time}
use pali.Domain.Jobs.{queued, type_text, PostprocessJob, JobEnqueue}
use pali.Queue.{
  Jobs, same_key, has_id, requeue, upsert_row, new_row, upsert_job, resolved, is_valid_enqueue,
}
use pali.Queue.Consistency.{IdsDiffer-comm, IsConsistent, IdsDiffer, flip_ids}

-- A row as an enqueued job has it, at `now` and with these fresh ids.
pub record IsFresh (n j : PostprocessJob) : Type 0 where
  pub key : same_key n j ≡ true
  pub status : j.status ≡ queued
  pub attempts : j.attempts ≡ 0
  pub max_attempts : j.max_attempts ≡ n.max_attempts
  pub available : j.available_at ≡ n.available_at
  pub unleased : j.leased_until ≡ none
  pub ingest : j.ingest_id ≡ n.ingest_id

same_key_refl : (n : PostprocessJob) → same_key n n ≡ true
unfolding same_key
same_key_refl n =
    ground (arith, eq_refl n.tenant_id, eq_refl n.memory_id, eq_refl (type_text n.job_type))

update-IsFresh :
    (n : PostprocessJob) (js : Jobs)
    → All (λ j. same_key n j ≡ true → IsFresh n j) (update (same_key n) (requeue n) js)
unfolding update requeue same_key
update-IsFresh n [] = tt
update-IsFresh n (j ∷ js) = (ground arith, update-IsFresh n js)

has_id_refl : (j : PostprocessJob) → has_id j.id j ≡ true
unfolding has_id
has_id_refl j = eq_refl j.id

new_row-IsFresh :
    (draw : String × String) (job : JobEnqueue) (now : Time)
    → IsFresh (new_row draw job now) (new_row draw job now)
unfolding new_row
new_row-IsFresh draw job now = record {
  key = same_key_refl _;
  status = refl;
  attempts = refl;
  max_attempts = refl;
  available = refl;
  unleased = refl;
  ingest = refl;
}

same_row : (k j : PostprocessJob) → some k ≡ some j → k ≡ j
same_row k j e = cc

-- A row that is found is found again by its id.
pub find-has_id :
    (p : PostprocessJob → Bool) (js : Jobs) (j : PostprocessJob)
    → AllPairs IdsDiffer js
    → find p js ≡ some j
    → find (has_id j.id) js ≡ some j
unfolding find
find-has_id p [] j h e = cc
find-has_id p (k ∷ js) j h e = elim (Bool-cases (p k)) [
  | inl i ↦ found (same_row k j (rw i at e))
  | inr i ↦ rw (later (rw i at e)) (find-has_id p js j h.1 (rw i at e))
]
  where
    found : k ≡ j → find (has_id j.id) (k ∷ js) ≡ some j
    found q =
        subst (λ (x : PostprocessJob). find (has_id x.id) (k ∷ js) ≡ some x) q (rw (has_id_refl k))

    later : find p js ≡ some j → has_id j.id k ≡ false
    later q = IdsDiffer-comm k j (find-All (IdsDiffer k) p js j h.0 q)

-- The row of a new job, where no row has its key.
snoc-IsFresh :
    (draw : String × String) (job : JobEnqueue) (now : Time) (js : Jobs)
    → All (λ j. same_key (new_row draw job now) j ≡ false) js
    → All
        (λ j. same_key (new_row draw job now) j ≡ true → IsFresh (new_row draw job now) j)
        (js ++ new_row draw job now ∷ [])
snoc-IsFresh draw job now js h =
    All-append _ js (new_row draw job now ∷ []) (All-mono _ _ (λ j n e. absurd (cc)) js h)
      ((λ e. new_row-IsFresh draw job now), tt)

-- The row that the upsert leaves under the key of `n`.
abbrev pub Requeued : PostprocessJob → Result (String × Jobs) → Type 0
Requeued n r =
    (id : String) × (js : Jobs) × (j : PostprocessJob) × (r ≡ ok (id, js))
    × (find (has_id id) js ≡ some j)
    × IsFresh n j

resolved-Requeued :
    (n : PostprocessJob) (js : Jobs)
    → AllPairs IdsDiffer js
    → exists (same_key n) js ≡ true
    → All (λ j. same_key n j ≡ true → IsFresh n j) js
    → Requeued n (resolved n js)
unfolding resolved
resolved-Requeued n js h x f =
    let (j, e) = find_complete (same_key n) js x in
    (
      j.id,
      js,
      j,
      rw (e, resolved),
      find-has_id (same_key n) js j h e,
      find-All _ (same_key n) js j f e (find_sound (same_key n) js j e),
    )

module _ (draw : String × String) (job : JobEnqueue) (now : Time) (js : Jobs) where
  abbrev pub fresh : PostprocessJob
  fresh = new_row draw job now

  updated-Requeued :
      IsConsistent js
      → exists (same_key fresh) js ≡ true
      → Requeued fresh (resolved fresh (update (same_key fresh) (requeue fresh) js))
  unfolding requeue has_id same_key
  updated-Requeued h x =
      resolved-Requeued fresh _
        (AllPairs-update IdsDiffer (same_key fresh) (requeue fresh) js (λ a b e. e) (λ a b e. e)
          h.ids)
        (exists-update (same_key fresh) (same_key fresh) (requeue fresh) js (λ a. refl) ∙ x)
        (update-IsFresh fresh js)

  added-Requeued :
      IsConsistent js
      → exists (same_key fresh) js ≡ false
      → exists (has_id fresh.id) js ≡ false
      → Requeued fresh (resolved fresh (js ++ fresh ∷ []))
  added-Requeued h x y =
      resolved-Requeued fresh _
        (AllPairs-snoc IdsDiffer js fresh h.ids
          (flip_ids fresh js (All-of_not-exists (has_id fresh.id) js y)))
        (exists-snoc (same_key fresh) js fresh (same_key_refl fresh))
        (snoc-IsFresh draw job now js (All-of_not-exists (same_key fresh) js x))

  -- From a consistent table, the upsert of a valid job whose drawn id no row has succeeds. Under the
  -- id that it returns the new table finds a row with the job's key that is queued now, with no
  -- attempt made, no lease, and the job's ingest id and attempt limit or their defaults: so also
  -- where the row was running, succeeded or dead.
  pub upsert_job-Requeued :
      IsConsistent js
      → is_valid_enqueue job ≡ true
      → exists (has_id fresh.id) js ≡ false
      → Requeued fresh (upsert_job draw job now js)
  unfolding upsert_job upsert_row
  upsert_job-Requeued h v y = elim (Bool-cases (exists (same_key fresh) js)) [
    | inl x ↦ rw (v, x) (updated-Requeued h x)
    | inr x ↦ rw (v, x, y) (added-Requeued h x y)
  ]
