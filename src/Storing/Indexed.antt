-- ===== src/Storing/Indexed.antt =====
-- The states of the index that upsertStoredEmbeddings leaves.
use pali.Common.{
  String, true, false, ◌≡◌, refl, sym, ap, subst, Option, none, some, List, [], ◌∷◌, ◌++◌, map,
  length, Error, All, All-mono, All-zip, ◌==◌, arith,
}
use mathlib.Core.List.{append_assoc, append-nil}
use pali.Common.Text.{is_blank}
use pali.Domain.Memories.{Memory, upsert, pending, indexed, failed, state_text}
use pali.IndexJobs.States.{JobIn}
use pali.Memories.{Db}
use pali.Storing.Models.{Embedding}
use pali.Storing.Vectors.{
  VectorUpsert, VectorCalls, Marks, mark, mark_some, upserts_of, after_batch, after_one,
  upsert_each, upsert_stored,
}
use pali.Storing.Marked.{
  Differ, Ready, Ready-front, Ready-back, Ready-Keeps, AllPairs-across, mark-Marked,
  mark_some-Marked,
}

-- The ids of some upserts.
abbrev pub ids_of : List VectorUpsert → List String
ids_of us = map (λ u. u.memory_id) us

-- The memories whose index is in this state.
abbrev pub AllIndexed : String → Db → List String → Type 0
AllIndexed tenant db ids = All (JobIn tenant upsert indexed db.index_jobs) ids

abbrev pub AllFailed : String → Db → List String → Type 0
AllFailed tenant db ids = All (JobIn tenant upsert failed db.index_jobs) ids

shift :
    (done : List String) (u : VectorUpsert) (us : List VectorUpsert)
    → (done ++ u.memory_id ∷ []) ++ ids_of us ≡ done ++ u.memory_id ∷ ids_of us
shift done u us = append_assoc done (u.memory_id ∷ []) (ids_of us)

module _ {V : Type 0} where
  -- The vector store accepts these upserts one by one, and goes from one state to another.
  abbrev pub Accepts : (VectorUpsert → V → Option Error × V) → List VectorUpsert → V → V → Type 0
  Accepts one [] v w = v ≡ w
  Accepts one (u ∷ us) v w = (x : V) × (one u v ≡ (none, x)) × Accepts one us x w

  -- What the answer of the loop says, after the memories `done`: the store accepted all upserts, and all
  -- are indexed; or it accepted some and then answered with the error, and those are indexed and the
  -- rest failed.
  abbrev pub LoopOutcome :
      (VectorUpsert → V → Option Error × V)
      → String
      → List String
      → List VectorUpsert
      → V
      → Option Error × Db × V
      → Type 0
  LoopOutcome one tenant done us v (none, db, w) =
      Accepts one us v w × AllIndexed tenant db (done ++ ids_of us)
  LoopOutcome one tenant done us v (some e, db, w) =
      (taken : List VectorUpsert) × (u : VectorUpsert) × (rest : List VectorUpsert) × (last : V)
      × (us ≡ taken ++ u ∷ rest)
      × Accepts one taken v last
      × (one u last ≡ (some e, w))
      × AllIndexed tenant db (done ++ ids_of taken)
      × AllFailed tenant db (ids_of (u ∷ rest))

  -- What the answer says: of the one call for a batch, where there is one, or of the loop.
  abbrev pub HasOutcome :
      Option (List VectorUpsert → V → Option Error × V)
      → (VectorUpsert → V → Option Error × V)
      → String
      → List VectorUpsert
      → V
      → Option Error × Db × V
      → Type 0
  HasOutcome none one tenant us v r = LoopOutcome one tenant [] us v r
  HasOutcome (some batch) one tenant us v (none, db, w) =
      (batch us v ≡ (none, w)) × AllIndexed tenant db (ids_of us)
  HasOutcome (some batch) one tenant us v (some e, db, w) =
      (batch us v ≡ (some e, w)) × AllFailed tenant db (ids_of us)

  -- An accepted upsert before the rest of the loop.
  accepted-LoopOutcome :
      (one : VectorUpsert → V → Option Error × V) (tenant : String) (done : List String)
      (u : VectorUpsert) (us : List VectorUpsert) (v x : V) (r : Option Error × Db × V)
      → one u v ≡ (none, x)
      → LoopOutcome one tenant (done ++ u.memory_id ∷ []) us x r
      → LoopOutcome one tenant done (u ∷ us) v r
  accepted-LoopOutcome one tenant done u us v x (none, db, w) e h =
      ((x, e, h.0), subst (AllIndexed tenant db) (shift done u us) h.1)
  accepted-LoopOutcome one tenant done u us v x (some f, db, w) e
        (taken, y, rest, last, split, runs, stops, good, bad) =
      (
        u ∷ taken,
        y,
        rest,
        last,
        ap (λ l. u ∷ l) split,
        (x, e, runs),
        stops,
        subst (AllIndexed tenant db) (shift done u taken) good,
        bad,
      )

  module _ (ms : Marks) (tenant : String) (t : is_blank tenant ≡ false) where
    after_one-LoopOutcome :
        (one : VectorUpsert → V → Option Error × V) (done : List String) (u : VectorUpsert)
        (us : List VectorUpsert) (db : Db) (v : V) (x : Option Error × V)
        (next : V → Option Error × Db × V)
        → one u v ≡ x
        → Ready tenant db.index_jobs (done ++ u.memory_id ∷ ids_of us)
        → ((w : V) → LoopOutcome one tenant (done ++ u.memory_id ∷ []) us w (next w))
        → LoopOutcome one tenant done (u ∷ us) v (after_one ms tenant done u us db x next)
    unfolding after_one is_blank state_text
    after_one-LoopOutcome one done u us db v (none, w) next e h k =
        accepted-LoopOutcome one tenant done u us v w (next w) e (k w)
    after_one-LoopOutcome one done u us db v (some f, w) next e h k =
        let rest = ids_of (u ∷ us) in
        let first = mark_some ms 1 tenant done indexed db in
        let good =
          mark_some-Marked ms tenant t 1 done db (Ready-front tenant db.index_jobs done rest h) in
        let bad = mark-Marked ms tenant t 2 rest failed (ms.error_text f) first refl (
          Ready-Keeps tenant db.index_jobs first.index_jobs rest good.1
            (Ready-back tenant db.index_jobs done rest h)) in
        (
          [],
          u,
          us,
          v,
          refl,
          refl,
          e,
          subst (AllIndexed tenant (mark ms 2 tenant rest failed (ms.error_text f) first))
              (sym (append-nil done))
              (All-mono _ _ (λ y d. bad.2 indexed y d.0 d.1) done
                (All-zip _ _ done (AllPairs-across Differ done rest h.1) good.0)),
          bad.0,
        )

    upsert_each-LoopOutcome :
        (one : VectorUpsert → V → Option Error × V) (done : List String) (us : List VectorUpsert)
        (db : Db) (v : V)
        → Ready tenant db.index_jobs (done ++ ids_of us)
        → LoopOutcome one tenant done us v (upsert_each ms one tenant done us db v)
    unfolding upsert_each
    upsert_each-LoopOutcome one done [] db v h = (
      refl,
      subst (AllIndexed tenant (mark_some ms 1 tenant done indexed db)) (sym (append-nil done))
          (mark_some-Marked ms tenant t 1 done db
            (subst (Ready tenant db.index_jobs) (append-nil done) h)).0,
    )
    upsert_each-LoopOutcome one done (u ∷ us) db v h =
        after_one-LoopOutcome one done u us db v (one u v)
          (upsert_each ms one tenant (done ++ u.memory_id ∷ []) us db) refl h
          (λ w.
            upsert_each-LoopOutcome one (done ++ u.memory_id ∷ []) us db w
              (subst (Ready tenant db.index_jobs) (sym (shift done u us)) h))

    after_batch-HasOutcome :
        (batch : List VectorUpsert → V → Option Error × V)
        (one : VectorUpsert → V → Option Error × V) (us : List VectorUpsert) (db : Db) (v : V)
        (x : Option Error × V)
        → batch us v ≡ x
        → Ready tenant db.index_jobs (ids_of us)
        → HasOutcome (some batch) one tenant us v (after_batch ms tenant (ids_of us) x db)
    unfolding after_batch is_blank state_text
    after_batch-HasOutcome batch one us db v (none, w) e h =
        (e, (mark-Marked ms tenant t 1 (ids_of us) indexed "" db refl h).0)
    after_batch-HasOutcome batch one us db v (some f, w) e h =
        (e, (mark-Marked ms tenant t 1 (ids_of us) failed (ms.error_text f) db refl h).0)

ids-upserts_of :
    (stored : List Memory) (es : List Embedding)
    → length stored ≡ length es
    → ids_of (upserts_of stored es) ≡ map (λ m. m.id) stored
unfolding upserts_of
ids-upserts_of [] es h = refl
ids-upserts_of (m ∷ stored) [] h = absurd (omega arith)
ids-upserts_of (m ∷ stored) (e ∷ es) h =
    ap (λ ids. m.id ∷ ids) (ids-upserts_of stored es (omega arith))

module _ {V : Type 0} where
  -- For stored memories whose ids differ, have no white space around them and have index jobs of the
  -- tenant of the first one, with an embedding for each, and for any vector store: there is an
  -- upsert for each memory, and the jobs say what the vector store did. With a call for a batch, that
  -- call got all the upserts and gave the answer that is returned, and all the jobs are indexed where
  -- that is no error, or failed where it is one. Without one, either the store accepted every upsert,
  -- one after the other, there is no error, and all the jobs are indexed; or it accepted some and
  -- answered the next with the error that is returned, the jobs of those that it accepted are
  -- indexed, and the jobs of that one and all after it are failed.
  pub upsert_stored-HasOutcome :
      (ms : Marks) (calls : VectorCalls V) (m : Memory) (stored : List Memory) (es : List Embedding)
      (db : Db) (v : V)
      → is_blank m.tenant_id ≡ false
      → length (m ∷ stored) ≡ length es
      → Ready m.tenant_id db.index_jobs (map (λ n. n.id) (m ∷ stored))
      → (ids_of (upserts_of (m ∷ stored) es) ≡ map (λ n. n.id) (m ∷ stored))
        × HasOutcome calls.upsert_batch calls.upsert_one m.tenant_id
            (upserts_of (m ∷ stored) es)
            v
            (upsert_stored ms calls (m ∷ stored) es db v)
  unfolding upsert_stored is_blank state_text
  upsert_stored-HasOutcome ms calls m stored es db v t l h =
      let same : (length (m ∷ stored) == length es) ≡ true = ground arith in
      (each_one, rw same (go calls.upsert_batch))
    where
      ids : List String
      ids = map (λ n. n.id) (m ∷ stored)

      us : List VectorUpsert
      us = upserts_of (m ∷ stored) es

      each_one : ids_of us ≡ ids
      each_one = ids-upserts_of (m ∷ stored) es l

      marked : Db
      marked = mark ms 0 m.tenant_id ids pending "" db

      ready : Ready m.tenant_id marked.index_jobs (ids_of us)
      ready = subst (Ready m.tenant_id marked.index_jobs) (sym each_one) (
          Ready-Keeps m.tenant_id db.index_jobs marked.index_jobs ids
            (mark-Marked ms m.tenant_id t 0 ids pending "" db refl h).1 h)

      go :
          (f : Option (List VectorUpsert → V → Option Error × V))
          → HasOutcome f calls.upsert_one m.tenant_id us v (elim f as (λ x. Option Error × Db × V) [
            | some g ↦ after_batch ms m.tenant_id ids (g us v) marked
            | none ↦ upsert_each ms calls.upsert_one m.tenant_id [] us marked v
          ])
      go none = upsert_each-LoopOutcome ms m.tenant_id t calls.upsert_one [] us marked v ready
      go (some f) =
          subst
            (λ xs.
              HasOutcome (some f) calls.upsert_one m.tenant_id us v
                (after_batch ms m.tenant_id xs (f us v) marked))
            each_one
            (after_batch-HasOutcome ms m.tenant_id t f calls.upsert_one us marked v (f us v) refl
              ready)
