-- ===== src/Storing/Vectors.antt =====
-- The embeddings of stored memories in the vector store, upsertStoredEmbeddings of internal/core/memory/store.go.
-- The vector store is a parameter with a state `V`: it may have a call for a batch, and has one for a
-- memory. The marks of the index are numbered: `draw k i` and `clock k` are the ids and the time of the k-th one.
use pali.Common.{
  ℕ, String, Option, none, some, List, [], ◌∷◌, ◌++◌, map, length, Error, other_error,
  if◌then◌else◌, ◌==◌,
}
use pali.Clock.{Time}
use pali.Domain.Memories.{Memory, IndexState, upsert, pending, indexed, failed}
use pali.Memories.{Db}
use pali.Service.{mark_state}
use pali.Storing.Models.{Embedding, is_nil}

-- VectorUpsert
pub record VectorUpsert : Type 0 where
  pub tenant_id : String
  pub memory_id : String
  pub embedding : Embedding

-- VectorStore and VectorBatchStore
pub record VectorCalls (V : Type 0) : Type 0 where
  pub upsert_batch : Option (List VectorUpsert → V → Option Error × V)
  pub upsert_one : VectorUpsert → V → Option Error × V

-- What the marks take from outside.
pub record Marks : Type 0 where
  pub draw : ℕ → ℕ → String
  pub clock : ℕ → Time
  pub error_text : Error → String

unfoldable pub mark : Marks → ℕ → String → List String → IndexState → String → Db → Db
mark ms k tenant ids state last_error db =
    mark_state (ms.draw k) (ms.clock k) tenant ids upsert state last_error db

-- `if len(indexedIDs) > 0`
unfoldable pub mark_some : Marks → ℕ → String → List String → IndexState → Db → Db
mark_some ms k tenant [] state db = db
mark_some ms k tenant (id ∷ ids) state db = mark ms k tenant (id ∷ ids) state "" db

unfoldable pub upserts_of : List Memory → List Embedding → List VectorUpsert
upserts_of [] es = []
upserts_of (m ∷ ms) [] = []
upserts_of (m ∷ ms) (e ∷ es) =
    record { tenant_id = m.tenant_id; memory_id = m.id; embedding = e } ∷ upserts_of ms es

module _ {V : Type 0} where
  -- The end of the call for a batch.
  unfoldable pub after_batch :
      Marks → String → List String → Option Error × V → Db → Option Error × Db × V
  after_batch ms tenant ids (none, v) db = (none, mark ms 1 tenant ids indexed "" db, v)
  after_batch ms tenant ids (some e, v) db =
      (some e, mark ms 1 tenant ids failed (ms.error_text e) db, v)

  -- After one call: the loop goes on, or it stops with its marks.
  unfoldable pub after_one :
      Marks
      → String
      → List String
      → VectorUpsert
      → List VectorUpsert
      → Db
      → Option Error × V
      → (V → Option Error × Db × V)
      → Option Error × Db × V
  after_one ms tenant done u us db (none, v) next = next v
  after_one ms tenant done u us db (some e, v) next = (
    some e,
    mark ms 2 tenant (u.memory_id ∷ map (λ w. w.memory_id) us) failed (ms.error_text e)
        (mark_some ms 1 tenant done indexed db),
    v,
  )

  -- The loop over the memories, after those that are `done`.
  unfoldable pub upsert_each :
      Marks
      → (VectorUpsert → V → Option Error × V)
      → String
      → List String
      → List VectorUpsert
      → Db
      → V
      → Option Error × Db × V
  upsert_each ms one tenant done [] db v = (none, mark_some ms 1 tenant done indexed db, v)
  upsert_each ms one tenant done (u ∷ us) db v =
      after_one ms tenant done u us db (one u v)
        (upsert_each ms one tenant (done ++ u.memory_id ∷ []) us db)

  -- upsertStoredEmbeddings
  unfoldable pub upsert_stored :
      Marks → VectorCalls V → List Memory → List Embedding → Db → V → Option Error × Db × V
  upsert_stored ms calls [] es db v = if is_nil es then (none, db, v) else (some other_error, db, v)
  upsert_stored ms calls (m ∷ stored) es db v =
      let ids = map (λ n. n.id) (m ∷ stored) in
      let marked = mark ms 0 m.tenant_id ids pending "" db in
      if length (m ∷ stored) == length es
      then elim calls.upsert_batch [
        | some f ↦ after_batch ms m.tenant_id ids (f (upserts_of (m ∷ stored) es) v) marked
        | none ↦
            upsert_each ms calls.upsert_one m.tenant_id [] (upserts_of (m ∷ stored) es) marked v
      ]
      else (some other_error, db, v)
