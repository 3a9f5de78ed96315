-- ===== src/Storing/Aligned.antt =====
-- The result of StoreBatch for an input stands at the place of the input.
use pali.Common.{
  ℕ, zero, suc, ◌+◌, ◌≤◌, ◌<◌, String, Bool, not, ◌≡◌, refl, sym, ap, ◌∙◌, subst, List, [], ◌∷◌,
  length, get_or, drop, replicate, length-replicate, Result, ok, err, IfOk, All, All-mono, AllPairs,
  arith, IfOk-mono,
}
use pali.Common.Sql.{select, All-select, AllPairs-select}
use pali.Domain.Memories.{Memory}
use pali.Memories.{Db}
use pali.Storing.{StoreInput, PreparedInput}
use pali.Storing.Inputs.{
  prepare_inputs, prepared_input, numbered, IsPrepared, prepare_inputs-IsPrepared,
}
use pali.Storing.Batch.{zero_memory, is_parsed, place, placed, run_part, store_parts, store_inputs}
use pali.Storing.Places.{
  Matches, at_place, Apart, length-place, place-own, place-kept, parts-Apart, All-of_parts,
}

numbered_from :
    (lower : String → String) (i : ℕ) (ins : List StoreInput)
    → All (λ p. i ≤ p.idx) (numbered lower i ins)
unfolding numbered prepared_input
numbered_from lower i [] = tt
numbered_from lower i (in_ ∷ ins) = (
  omega arith,
  All-mono _ _ (λ p k. omega arith) (numbered lower (suc i) ins) (numbered_from lower (suc i) ins),
)

numbered_below :
    (lower : String → String) (i : ℕ) (ins : List StoreInput)
    → All (λ p. p.idx < i + length ins) (numbered lower i ins)
unfolding numbered prepared_input
numbered_below lower i [] = tt
numbered_below lower i (in_ ∷ ins) = (
  omega arith,
  All-mono _ _ (λ p k. omega arith) (numbered lower (suc i) ins) (numbered_below lower (suc i) ins),
)

numbered-Apart :
    (lower : String → String) (i : ℕ) (ins : List StoreInput)
    → AllPairs Apart (numbered lower i ins)
unfolding numbered prepared_input
numbered-Apart lower i [] = tt
numbered-Apart lower i (in_ ∷ ins) = (
  All-mono _ _ (λ p k e. absurd (omega (arith, k, e))) (numbered lower (suc i) ins)
      (numbered_from lower (suc i) ins),
  numbered-Apart lower (suc i) ins,
)

length-numbered :
    (lower : String → String) (i : ℕ) (ins : List StoreInput)
    → length (numbered lower i ins) ≡ length ins
unfolding numbered
length-numbered lower i [] = refl
length-numbered lower i (in_ ∷ ins) = ap suc (length-numbered lower (suc i) ins)

drop-get_or :
    (i : ℕ) (rs : List Memory)
    → i < length rs
    → drop i rs ≡ get_or zero_memory rs i ∷ drop (suc i) rs
drop-get_or i [] h = absurd (omega arith)
drop-get_or zero (r ∷ rs) h = refl
drop-get_or (suc i) (r ∷ rs) h = drop-get_or i rs (omega arith)

drop_all : (i : ℕ) (rs : List Memory) → length rs ≡ i → drop i rs ≡ []
drop_all zero [] h = refl
drop_all zero (r ∷ rs) h = absurd (omega arith)
drop_all (suc i) [] h = refl
drop_all (suc i) (r ∷ rs) h = drop_all i rs (omega arith)

module _ (R : PreparedInput → Memory → Type 0) where
  Matches-of_places :
      (lower : String → String) (i : ℕ) (ins : List StoreInput) (rs : List Memory)
      → length rs ≡ i + length ins
      → All (λ p. R p (at_place rs p)) (numbered lower i ins)
      → Matches R (numbered lower i ins) (drop i rs)
  unfolding numbered prepared_input
  Matches-of_places lower i [] rs l h = rw (drop_all i rs (omega arith)) tt
  Matches-of_places lower i (in_ ∷ ins) rs l h =
      rw (drop-get_or i rs (omega arith))
        (h.0, Matches-of_places lower (suc i) ins rs (omega arith) h.1)

  -- The places of these items, of a result of this length, are filled.
  abbrev Filled : ℕ → List PreparedInput → List Memory → Type 0
  Filled n ps rs = (length rs ≡ n) × All (λ p. R p (at_place rs p)) ps

module _ {ℓ} {S : Type ℓ} (R : PreparedInput → Memory → Type 0) where
  -- What stores a part answers each of its inputs as `R` says.
  abbrev pub Answers : (List PreparedInput → S → Result (List Memory) × S) → Type ℓ
  Answers f = (items : List PreparedInput) (s : S) → IfOk (Matches R items) (f items s).0

  run_part-Filled :
      (f : List PreparedInput → S → Result (List Memory) × S) (n : ℕ)
      (qs items : List PreparedInput) (x : Result (List Memory) × S)
      → Answers f
      → All (λ q. All (λ p. Apart p q) items) qs
      → AllPairs Apart items
      → All (λ p. p.idx < n) items
      → IfOk (Filled R n qs) x.0
      → IfOk (λ rs. Filled R n qs rs × Filled R n items rs) (run_part f items x).0
  unfolding run_part placed
  run_part-Filled f n qs items (err e, s) answers a b c h = tt
  run_part-Filled f n qs [] (ok rs, s) answers a b c h = (h, (h.0, tt))
  run_part-Filled f n qs (p ∷ ps) (ok rs, s) answers a b c h =
      go (f (p ∷ ps) s) (answers (p ∷ ps) s)
    where
      go :
          (y : Result (List Memory) × S)
          → IfOk (Matches R (p ∷ ps)) y.0
          → IfOk (λ rs'. Filled R n qs rs' × Filled R n (p ∷ ps) rs') (placed (p ∷ ps) rs y).0
      go (err e, s') k = tt
      go (ok ms, s') k =
          let sized : length (place (p ∷ ps) ms rs) ≡ n = length-place (p ∷ ps) ms rs ∙ h.0 in
          (
            (sized, place-kept R qs (p ∷ ps) ms rs a h.1),
            (
              sized,
              place-own R (p ∷ ps) ms rs b
                  (All-mono _ _ (λ r l. subst (λ m. r.idx < m) (sym h.0) l) (p ∷ ps) c) k,
            ),
          )

  module _ (parsed plain : List PreparedInput → S → Result (List Memory) × S) where
    store_parts-Matches :
        (lower : String → String) (parses : Bool) (ins : List StoreInput) (s : S)
        → Answers parsed
        → Answers plain
        → IfOk
            (Matches R (numbered lower 0 ins))
            (store_parts parsed plain parses (ok (numbered lower 0 ins)) s).0
    unfolding store_parts
    store_parts-Matches lower parses ins s h k =
        let ps : List PreparedInput = numbered lower 0 ins in
        let n : ℕ = length ps in
        let below : All (λ p. p.idx < n) ps =
          All-mono _ _ (λ p l. omega (arith, l, length-numbered lower 0 ins)) ps
            (numbered_below lower 0 ins) in
        let empty : List Memory = replicate n zero_memory in
        IfOk-mono _ (Matches R ps) _
          (run_part-Filled plain n (select (is_parsed parses) ps)
            (select (λ p. not (is_parsed parses p)) ps) _ k
            (parts-Apart (is_parsed parses) ps (numbered-Apart lower 0 ins))
            (AllPairs-select Apart _ ps (numbered-Apart lower 0 ins)) (All-select _ _ ps below)
            (IfOk-mono _ (Filled R n (select (is_parsed parses) ps)) _
              (run_part-Filled parsed n [] (select (is_parsed parses) ps) (ok empty, s) h tt
                (AllPairs-select Apart _ ps (numbered-Apart lower 0 ins)) (All-select _ _ ps below)
                (length-replicate n zero_memory, tt))
              (λ rs g. g.1)))
          (λ rs g.
            Matches-of_places R lower 0 ins rs (omega (arith, g.0.0, length-numbered lower 0 ins))
              (All-of_parts (is_parsed parses) _ ps g.0.1 g.1.1))

    -- Whatever stores the two parts, and whatever it makes of each input: where both answer the inputs that they are
    -- given one by one, in their order, StoreBatch answers its own inputs one by one, in their order.
    pub store_inputs-Matches :
        (tables : S → Db) (lower : String → String) (ready parses : Bool) (ins : List StoreInput)
        (s : S)
        → Answers parsed
        → Answers plain
        → IfOk
            (Matches R (numbered lower 0 ins))
            (store_inputs parsed plain tables lower ready parses ins s).0
    unfolding store_inputs numbered store_parts
    store_inputs-Matches tables lower ready parses [] s h k = tt
    store_inputs-Matches tables lower ready parses (in_ ∷ ins) s h k =
        go (prepare_inputs lower ready (in_ ∷ ins) (tables s))
          (prepare_inputs-IsPrepared lower ready (in_ ∷ ins) (tables s))
      where
        go :
            (r : Result (List PreparedInput))
            → IfOk (λ ps. (ps ≡ numbered lower 0 (in_ ∷ ins)) × All (IsPrepared (tables s)) ps) r
            → IfOk
                (Matches R (numbered lower 0 (in_ ∷ ins)))
                (store_parts parsed plain parses r s).0
        go (err e) g = tt
        go (ok ps) g =
            subst
              (λ qs.
                IfOk (Matches R (numbered lower 0 (in_ ∷ ins)))
                  (store_parts parsed plain parses (ok qs) s).0)
              (sym g.0) (store_parts-Matches lower parses (in_ ∷ ins) s h k)
