-- ===== src/Storing/Models.antt =====
-- The scores and the embeddings of contents, scoreContents and embedContents of
-- internal/core/memory/store.go. The scorer and the embedder are parameters: each may have a call for a batch, and
-- has one for a content, which here also has the position of the content.
use pali.Common.{
  ℕ, suc, String, Bool, true, false, not, ◌||◌, Option, none, some, List, [], ◌∷◌, map, length,
  Result, ok, err, ◌>>=◌, guard, other_error, if◌then◌else◌, ◌==◌,
}
use pali.Domain.Memories.{Float64}

-- ImportanceScorer and BatchImportanceScorer
pub record Scorer : Type 0 where
  pub batch_score : Option (List String → Result (List Float64))
  pub score : ℕ → String → Result Float64

-- A vector of float32, by their bits.
abbrev pub Embedding : Type 0
Embedding = List ℕ

-- Embedder and BatchEmbedder
pub record Embedder : Type 0 where
  pub batch_embed : Option (List String → Result (List Embedding))
  pub embed : ℕ → String → Result Embedding

-- The bits of 1.
abbrev one_bits : Float64
one_bits = 0x3FF0000000000000

unfoldable pub clamped : (Float64 → Float64 → Bool) → Float64 → Float64
clamped less x = if less x 0 then 0 else if less one_bits x then one_bits else x

unfoldable pub score_each :
    (Float64 → Float64 → Bool)
    → (ℕ → String → Result Float64)
    → ℕ
    → List String
    → Result (List Float64)
score_each less one i [] = ok []
score_each less one i (c ∷ cs) =
    one i c >>= λ x. score_each less one (suc i) cs >>= λ later. ok (clamped less x ∷ later)

-- A batch of the right length, or an error.
unfoldable pub batch_scores :
    (Float64 → Float64 → Bool) → List String → List Float64 → Result (List Float64)
batch_scores less cs xs =
    guard (not (length xs == length cs)) other_error (ok (map (clamped less) xs))

-- scoreContents: an error of the call for a batch leads to the calls for each content.
unfoldable pub score_contents :
    (Float64 → Float64 → Bool) → Scorer → List String → Result (List Float64)
score_contents less s [] = ok []
score_contents less s (c ∷ cs) = elim s.batch_score [
  | none ↦ score_each less s.score 0 (c ∷ cs)
  | some f ↦ elim (f (c ∷ cs)) [
    | ok xs ↦ batch_scores less (c ∷ cs) xs
    | err e ↦ score_each less s.score 0 (c ∷ cs)
  ]
]

abbrev pub is_nil {ℓ} : {A : Type ℓ} → List A → Bool
is_nil [] = true
is_nil (x ∷ xs) = false

unfoldable pub has_nil : List Embedding → Bool
has_nil [] = false
has_nil (e ∷ es) = is_nil e || has_nil es

unfoldable pub embed_each :
    (ℕ → String → Result Embedding) → ℕ → List String → Result (List Embedding)
embed_each one i [] = ok []
embed_each one i (c ∷ cs) = one i c >>= λ e.
    guard (is_nil e) other_error (embed_each one (suc i) cs >>= λ later. ok (e ∷ later))

unfoldable pub batch_embeddings : List String → List Embedding → Result (List Embedding)
batch_embeddings cs es =
    guard (not (length es == length cs)) other_error (guard (has_nil es) other_error (ok es))

-- embedContents
unfoldable pub embed_contents : Embedder → List String → Result (List Embedding)
embed_contents m [] = ok []
embed_contents m (c ∷ cs) = elim m.batch_embed [
  | none ↦ embed_each m.embed 0 (c ∷ cs)
  | some f ↦ elim (f (c ∷ cs)) [
    | ok es ↦ batch_embeddings (c ∷ cs) es
    | err e ↦ embed_each m.embed 0 (c ∷ cs)
  ]
]
