-- ===== src/Storing/Places.antt =====
-- What the placing of results keeps and fills.
use pali.Common.{
  ◌<◌, Bool, not, ◌≡◌, ◌≢◌, refl, sym, ◌∙◌, subst, List, [], ◌∷◌, length, set, get_or, length-set,
  get_or-set_self, get_or-set_other, inl, inr, Bool-cases, All, All-mono, All-zip, AllPairs,
}
use pali.Common.Sql.{select, All-select}
use pali.Domain.Memories.{Memory}
use pali.Storing.{PreparedInput}
use pali.Storing.Batch.{zero_memory, place}

-- As many memories as inputs, each one as `R` says for its input.
abbrev pub Matches : (PreparedInput → Memory → Type 0) → List PreparedInput → List Memory → Type 0
Matches R [] [] = Unit
Matches R [] (m ∷ ms) = ⊥
Matches R (p ∷ ps) [] = ⊥
Matches R (p ∷ ps) (m ∷ ms) = R p m × Matches R ps ms

abbrev pub at_place : List Memory → PreparedInput → Memory
at_place rs p = get_or zero_memory rs p.idx

abbrev pub Apart : PreparedInput → PreparedInput → Type 0
Apart p r = p.idx ≢ r.idx

pub length-place :
    (ps : List PreparedInput) (ms rs : List Memory) → length (place ps ms rs) ≡ length rs
unfolding place
length-place [] ms rs = refl
length-place (p ∷ ps) [] rs = refl
length-place (p ∷ ps) (m ∷ ms) rs = length-place ps ms (set rs p.idx m) ∙ length-set rs p.idx m

-- A place that is of none of the items stays as it was.
place-other :
    (r : PreparedInput) (ps : List PreparedInput) (ms rs : List Memory)
    → All (λ p. Apart p r) ps
    → at_place (place ps ms rs) r ≡ at_place rs r
unfolding place
place-other r [] ms rs h = refl
place-other r (p ∷ ps) [] rs h = refl
place-other r (p ∷ ps) (m ∷ ms) rs h =
    place-other r ps ms (set rs p.idx m) h.1 ∙ get_or-set_other zero_memory rs p.idx r.idx m h.0

module _ (R : PreparedInput → Memory → Type 0) where
  pub place-own :
      (ps : List PreparedInput) (ms rs : List Memory)
      → AllPairs Apart ps
      → All (λ p. p.idx < length rs) ps
      → Matches R ps ms
      → All (λ p. R p (at_place (place ps ms rs) p)) ps
  unfolding place
  place-own [] ms rs a b h = tt
  place-own (p ∷ ps) [] rs a b h = absurd h
  place-own (p ∷ ps) (m ∷ ms) rs a b h = (
    subst (R p)
        (sym (
          place-other p ps ms (set rs p.idx m) (All-mono _ _ (λ r k e. k (sym e)) ps a.0)
          ∙ get_or-set_self zero_memory rs p.idx m b.0))
        h.0,
    place-own ps ms (set rs p.idx m) a.1
        (All-mono _ _ (λ r k. subst (λ n. r.idx < n) (sym (length-set rs p.idx m)) k) ps b.1) h.1,
  )

  pub place-kept :
      (qs ps : List PreparedInput) (ms rs : List Memory)
      → All (λ q. All (λ p. Apart p q) ps) qs
      → All (λ q. R q (at_place rs q)) qs
      → All (λ q. R q (at_place (place ps ms rs) q)) qs
  place-kept qs ps ms rs a h =
      All-mono _ _ (λ q k. subst (R q) (sym (place-other q ps ms rs k.0)) k.1) qs
        (All-zip _ _ qs a h)

module _ (q : PreparedInput → Bool) where
  -- Items of the two parts have different places.
  pub parts-Apart :
      (ps : List PreparedInput)
      → AllPairs Apart ps
      → All (λ p. All (λ r. Apart r p) (select (λ s. not (q s)) ps)) (select q ps)
  unfolding select
  parts-Apart [] a = tt
  parts-Apart (p ∷ ps) a = elim (Bool-cases (q p)) [
    | inl e ↦ rw e (
      All-select _ (λ s. not (q s)) ps (All-mono _ _ (λ r k c. k (sym c)) ps a.0),
      parts-Apart ps a.1,
    )
    | inr e ↦ rw e (All-zip _ _ (select q ps) (All-select _ q ps a.0) (parts-Apart ps a.1))
  ]

  pub All-of_parts :
      (P : PreparedInput → Type 0) (ps : List PreparedInput)
      → All P (select q ps)
      → All P (select (λ s. not (q s)) ps)
      → All P ps
  unfolding select
  All-of_parts P [] h k = tt
  All-of_parts P (p ∷ ps) h k = elim (Bool-cases (q p)) [
    | inl e ↦
        let g : P p × All P (select q ps) = rw e at h in (g.0, All-of_parts P ps g.1 (rw e at k))
    | inr e ↦
        let g : P p × All P (select (λ s. not (q s)) ps) = rw e at k in
        (g.0, All-of_parts P ps (rw e at h) g.1)
  ]
