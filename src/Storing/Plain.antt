-- ===== src/Storing/Plain.antt =====
-- storeBatchWithoutParser of internal/core/memory/store.go: scores, embeddings, the batch of the repository
-- and the vector store. What writeCanonicalStructuredDerived does with a stored memory is the parameter `derive`.
use pali.Common.{
  ℕ, suc, String, Bool, ◌≡◌, refl, Option, none, some, List, [], ◌∷◌, map, length, Result, ok, err,
  IfOk, IfOk-guard, IfOk-bind, IfOk-unit, other_error, if◌then◌else◌, ◌==◌, arith, inl, inr,
  Bool-cases, Error,
}
use pali.Clock.{Time}
use pali.Common.Text.{is_blank}
use pali.Domain.Memories.{Memory, Float64}
use pali.Memories.{Db, prepared, prepare_memory, insert_memory, store, store_from, store_batch}
use pali.Storing.{PreparedInput, is_raw, with_raw_identity, with_identity}
use pali.Storing.Ingest.{memory_of}
use pali.Storing.Models.{Embedding, Scorer, Embedder, score_contents, embed_contents}
use pali.Storing.Vectors.{VectorCalls, Marks, upsert_stored}
use pali.Storing.Places.{Matches}
use pali.Storing.Aligned.{Answers}

-- The memories of the inputs with their scores, and storeInRepo's identities.
unfoldable pub scored_memories :
    (List String → String) → List PreparedInput → List Float64 → List Memory
scored_memories digest [] xs = []
scored_memories digest (p ∷ ps) [] = []
scored_memories digest (p ∷ ps) (x ∷ xs) =
    with_identity digest (record (memory_of p) { importance = x }) ∷ scored_memories digest ps xs

-- The parts of the service that a store without parser uses.
pub record Parts (V : Type 0) : Type 0 where
  pub digest : List String → String
  pub less : Float64 → Float64 → Bool
  pub scorer : Scorer
  pub embedder : Embedder
  pub calls : VectorCalls V
  pub marks : Marks
  pub draw : ℕ → String × String
  pub now : Time
  pub derive : Memory → Db × V → Option Error × (Db × V)

module _ {V : Type 0} where
  -- The loop over the stored memories that derives others: the first error ends it.
  unfoldable pub derive_each :
      (Memory → Db × V → Option Error × (Db × V))
      → List Memory
      → Option Error × (Db × V)
      → Option Error × (Db × V)
  derive_each derive ms (some e, s) = (some e, s)
  derive_each derive [] (none, s) = (none, s)
  derive_each derive (m ∷ ms) (none, s) = derive_each derive ms (derive m s)

  unfoldable pub answered : List Memory → Option Error × (Db × V) → Result (List Memory) × (Db × V)
  answered ms (none, s) = (ok ms, s)
  answered ms (some e, s) = (err e, s)

  abbrev grouped : Option Error × Db × V → Option Error × (Db × V)
  grouped x = (x.0, (x.1, x.2))

  -- The vector store and the derived memories, after the batch of the repository.
  unfoldable pub after_batch_stored :
      Parts V
      → List Embedding
      → Result (List Memory × Db)
      → Db × V
      → Result (List Memory) × (Db × V)
  after_batch_stored c es (err e) s = (err e, s)
  after_batch_stored c es (ok r) s =
      if length r.0 == length es
      then answered r.0
          (derive_each c.derive r.0 (grouped (upsert_stored c.marks c.calls r.0 es r.1 s.1)))
      else (err other_error, (r.1, s.1))

  unfoldable pub after_embedded :
      Parts V
      → List PreparedInput
      → List Float64
      → Result (List Embedding)
      → Db × V
      → Result (List Memory) × (Db × V)
  after_embedded c items xs (err e) s = (err e, s)
  after_embedded c items xs (ok es) s =
      after_batch_stored c es (store_batch c.draw c.now (scored_memories c.digest items xs) s.0) s

  unfoldable pub after_scored :
      Parts V
      → List PreparedInput
      → Result (List Float64)
      → Db × V
      → Result (List Memory) × (Db × V)
  after_scored c items (err e) s = (err e, s)
  after_scored c items (ok xs) s =
      if length xs == length items
      then after_embedded c items xs (embed_contents c.embedder (map (λ p. p.input.content) items))
          s
      else (err other_error, s)

  -- storeBatchWithoutParser
  unfoldable pub store_plain :
      Parts V → List PreparedInput → Db × V → Result (List Memory) × (Db × V)
  store_plain c [] s = (ok [], s)
  store_plain c (p ∷ ps) s =
      after_scored c (p ∷ ps) (score_contents c.less c.scorer (map (λ q. q.input.content) (p ∷ ps)))
        s

-- The memory has what the input says.
abbrev pub SaysTheSame : PreparedInput → Memory → Type 0
SaysTheSame p m =
    (m.tenant_id ≡ p.input.tenant_id)
    × (m.content ≡ p.input.content)
    × (m.tags ≡ p.input.tags)
    × (m.source ≡ p.input.source)

with_identity-same :
    (digest : List String → String) (p : PreparedInput) (x : Float64)
    → SaysTheSame p (with_identity digest (record (memory_of p) { importance = x }))
unfolding with_identity with_raw_identity memory_of
with_identity-same digest p x = elim (Bool-cases (is_raw p.resolved_kind)) [
  | inl e ↦ rw e (elim (Bool-cases (is_blank "")) [
    | inl k ↦ rw k (refl, refl, refl, refl)
    | inr k ↦ rw k (refl, refl, refl, refl)
  ])
  | inr e ↦ rw e (refl, refl, refl, refl)
]

store-same :
    (p : PreparedInput) (draw : String × String) (now : Time) (m : Memory) (db : Db)
    → SaysTheSame p m
    → IfOk (λ r. SaysTheSame p r.0) (store draw now m db)
unfolding store prepare_memory prepared
store-same p draw now m db h =
    IfOk-bind (SaysTheSame p) _ (prepare_memory draw.0 now m) _
      (IfOk-guard (SaysTheSame p) _ _ (ok (prepared draw.0 now m)) h)
      (λ m' k.
        IfOk-bind (λ u. Unit) _ (insert_memory draw.1 now m' db) _ (IfOk-unit _) (λ db' u. k))

store_from-Matches :
    (digest : List String → String) (draw : ℕ → String × String) (now : Time) (i : ℕ)
    (items : List PreparedInput) (xs : List Float64) (db : Db)
    → length xs ≡ length items
    → IfOk
        (λ r. Matches SaysTheSame items r.0)
        (store_from draw now i (scored_memories digest items xs) db)
unfolding store_from scored_memories
store_from-Matches digest draw now i [] xs db h = tt
store_from-Matches digest draw now i (p ∷ ps) [] db h = absurd (omega arith)
store_from-Matches digest draw now i (p ∷ ps) (x ∷ xs) db h =
    IfOk-bind (λ r. SaysTheSame p r.0) _
      (store (draw i) now (with_identity digest (record (memory_of p) { importance = x })) db) _
      (store-same p (draw i) now _ db (with_identity-same digest p x))
      (λ first k.
        IfOk-bind (λ r. Matches SaysTheSame ps r.0) _
          (store_from draw now (suc i) (scored_memories digest ps xs) first.1) _
          (store_from-Matches digest draw now (suc i) ps xs first.1 (omega arith))
          (λ later l. (k, l)))

module _ {V : Type 0} where
  answered-Matches :
      (items : List PreparedInput) (ms : List Memory) (x : Option Error × (Db × V))
      → Matches SaysTheSame items ms
      → IfOk (Matches SaysTheSame items) (answered ms x).0
  unfolding answered
  answered-Matches items ms (none, s) h = h
  answered-Matches items ms (some e, s) h = tt

  after_batch_stored-Matches :
      (c : Parts V) (items : List PreparedInput) (es : List Embedding)
      (r : Result (List Memory × Db)) (s : Db × V)
      → IfOk (λ q. Matches SaysTheSame items q.0) r
      → IfOk (Matches SaysTheSame items) (after_batch_stored c es r s).0
  unfolding after_batch_stored
  after_batch_stored-Matches c items es (err e) s h = tt
  after_batch_stored-Matches c items es (ok r) s h = elim (Bool-cases (length r.0 == length es)) [
    | inl e ↦ rw e (answered-Matches items r.0 _ h)
    | inr e ↦ rw e tt
  ]

  after_embedded-Matches :
      (c : Parts V) (items : List PreparedInput) (xs : List Float64) (r : Result (List Embedding))
      (s : Db × V)
      → length xs ≡ length items
      → IfOk (Matches SaysTheSame items) (after_embedded c items xs r s).0
  unfolding after_embedded store_batch
  after_embedded-Matches c items xs (err e) s h = tt
  after_embedded-Matches c items xs (ok es) s h =
      after_batch_stored-Matches c items es
        (store_batch c.draw c.now (scored_memories c.digest items xs) s.0) s
        (store_from-Matches c.digest c.draw c.now 0 items xs s.0 h)

  after_scored-Matches :
      (c : Parts V) (items : List PreparedInput) (r : Result (List Float64)) (s : Db × V)
      → IfOk (Matches SaysTheSame items) (after_scored c items r s).0
  unfolding after_scored
  after_scored-Matches c items (err e) s = tt
  after_scored-Matches c items (ok xs) s = elim (Bool-cases (length xs == length items)) [
    | inl e ↦ rw e (after_embedded-Matches c items xs _ s (ground arith))
    | inr e ↦ rw e tt
  ]

  -- Whatever the models, the vector store and the derivation do: when storeBatchWithoutParser succeeds, it returns a memory
  -- for each input, in their order, with the tenant, the content, the tags and the source of the input.
  pub store_plain-Answers : (c : Parts V) → Answers SaysTheSame (store_plain c)
  unfolding store_plain
  store_plain-Answers c [] s = tt
  store_plain-Answers c (p ∷ ps) s = after_scored-Matches c (p ∷ ps) _ s
