-- ===== src/Common/Sql.antt =====
-- The clauses of SQL that the repositories use, over a table that is the list of its rows.
pub mod Laws
use Prim.Native.Nat.{ℕ, suc}
use mathlib.Core.Path.{◌≡◌, refl, ap}
use mathlib.Core.Logic.{inl, inr}
use mathlib.Core.Bool.{Bool, true, false, ◌||◌}
use mathlib.Core.List.{List, [], ◌∷◌, ◌++◌}
use mathlib.Core.Option.{Option, none, some}
use native.Mathlib.Omega.{arith}
use pali.Common.Tests.{if◌then◌else◌, Bool-cases}
use pali.Common.Lists.{length, All, AllPairs, All-append}

module _ {ℓ} {A : Type ℓ} where
  -- SELECT … WHERE p
  unfoldable pub select : (A → Bool) → List A → List A
  select p [] = []
  select p (a ∷ xs) = let rest = select p xs in if p a then a ∷ rest else rest

  -- UPDATE … SET f WHERE p
  unfoldable pub update : (A → Bool) → (A → A) → List A → List A
  update p f [] = []
  update p f (a ∷ xs) = (if p a then f a else a) ∷ update p f xs

  -- The rows that a WHERE clause names, as `RowsAffected` and `COUNT(1)` give them.
  unfoldable pub count : (A → Bool) → List A → ℕ
  count p [] = 0
  count p (a ∷ xs) = let rest = count p xs in if p a then suc rest else rest

  -- SELECT … LIMIT 1
  unfoldable pub find : (A → Bool) → List A → Option A
  find p [] = none
  find p (a ∷ xs) = let rest = find p xs in if p a then some a else rest

  unfoldable pub exists : (A → Bool) → List A → Bool
  exists p [] = false
  exists p (a ∷ xs) = p a || exists p xs

  -- ORDER BY: rows that compare equal stay in the order of the table.
  unfoldable pub insert_by : (A → A → Bool) → A → List A → List A
  insert_by le a [] = a ∷ []
  insert_by le a (b ∷ xs) = if le a b then a ∷ b ∷ xs else b ∷ insert_by le a xs

  unfoldable pub order_by : (A → A → Bool) → List A → List A
  unfolding insert_by
  order_by le [] = []
  order_by le (a ∷ xs) = insert_by le a (order_by le xs)

module _ {ℓ κ} {A : Type ℓ} (P : A → Type κ) where
  pub All-select : (p : A → Bool) (xs : List A) → All P xs → All P (select p xs)
  unfolding select
  All-select p [] h = tt
  All-select p (a ∷ xs) h = elim (Bool-cases (p a)) [
    | inl e ↦ rw e (h.0, All-select p xs h.1)
    | inr e ↦ rw e (All-select p xs h.1)
  ]

  pub All-update :
      (p : A → Bool) (f : A → A) (xs : List A)
      → ((a : A) → p a ≡ true → P a → P (f a))
      → All P xs
      → All P (update p f xs)
  unfolding update
  All-update p f [] k h = tt
  All-update p f (a ∷ xs) k h = elim (Bool-cases (p a)) [
    | inl e ↦ rw e (k a e h.0, All-update p f xs k h.1)
    | inr e ↦ rw e (h.0, All-update p f xs k h.1)
  ]

  pub All-insert_by :
      (le : A → A → Bool) (a : A) (xs : List A) → P a → All P xs → All P (insert_by le a xs)
  unfolding insert_by
  All-insert_by le a [] h k = (h, tt)
  All-insert_by le a (b ∷ xs) h k = elim (Bool-cases (le a b)) [
    | inl e ↦ rw e (h, (k.0, k.1))
    | inr e ↦ rw e (k.0, All-insert_by le a xs h k.1)
  ]

  pub All-order_by : (le : A → A → Bool) (xs : List A) → All P xs → All P (order_by le xs)
  unfolding order_by
  All-order_by le [] h = tt
  All-order_by le (a ∷ xs) h = All-insert_by le a (order_by le xs) h.0 (All-order_by le xs h.1)

-- What a WHERE clause returns satisfies the clause.
pub select_sound {ℓ} :
    {A : Type ℓ} (p : A → Bool) (xs : List A) → All (λ a. p a ≡ true) (select p xs)
unfolding select
select_sound p [] = tt
select_sound p (a ∷ xs) = elim (Bool-cases (p a)) [
  | inl e ↦ rw e (e, select_sound p xs)
  | inr e ↦ rw e (select_sound p xs)
]

module _ {ℓ κ} {A : Type ℓ} (R : A → A → Type κ) where
  -- An update that keeps what the relation reads keeps it between all rows.
  pub AllPairs-update :
      (p : A → Bool) (f : A → A) (xs : List A)
      → ((a b : A) → R a b → R (f a) b)
      → ((a b : A) → R a b → R a (f b))
      → AllPairs R xs
      → AllPairs R (update p f xs)
  unfolding update
  AllPairs-update p f [] k l h = tt
  AllPairs-update p f (a ∷ xs) k l h = elim (Bool-cases (p a)) [
    | inl e ↦ rw e (
      All-update (R (f a)) p f xs (λ b _ r. l (f a) b r) (go xs h.0),
      AllPairs-update p f xs k l h.1,
    )
    | inr e ↦ rw e (All-update (R a) p f xs (λ b _ r. l a b r) h.0, AllPairs-update p f xs k l h.1)
  ]
    where
      go : (ys : List A) → All (R a) ys → All (R (f a)) ys
      go [] r = tt
      go (b ∷ ys) r = (k a b r.0, go ys r.1)

module _ {ℓ} {A : Type ℓ} where
  pub length-update : (p : A → Bool) (f : A → A) (xs : List A) → length (update p f xs) ≡ length xs
  unfolding update
  length-update p f [] = refl
  length-update p f (a ∷ xs) = ap suc (length-update p f xs)

  -- An UPDATE whose WHERE clause names no row changes nothing.
  pub update_none :
      (p : A → Bool) (f : A → A) (xs : List A) → All (λ a. p a ≡ false) xs → update p f xs ≡ xs
  unfolding update
  update_none p f [] h = refl
  update_none p f (a ∷ xs) h = rw (h.0, update_none p f xs h.1)

-- What no row satisfies is false of every row.
pub All-of_not-exists {ℓ} :
    {A : Type ℓ} (p : A → Bool) (xs : List A) → exists p xs ≡ false → All (λ a. p a ≡ false) xs
unfolding exists
All-of_not-exists p [] h = tt
All-of_not-exists p (a ∷ xs) h = (ground arith, All-of_not-exists p xs (ground arith))

pub AllPairs-snoc {ℓ κ} :
    {A : Type ℓ} (R : A → A → Type κ) (xs : List A) (a : A)
    → AllPairs R xs
    → All (λ b. R b a) xs
    → AllPairs R (xs ++ a ∷ [])
AllPairs-snoc R [] a h k = (tt, tt)
AllPairs-snoc R (b ∷ xs) a h k =
    (All-append (R b) xs (a ∷ []) h.0 (k.0, tt), AllPairs-snoc R xs a h.1 k.1)

module _ {ℓ} {A : Type ℓ} where
  pub count_zero : (p : A → Bool) (xs : List A) → All (λ a. p a ≡ false) xs → count p xs ≡ 0
  unfolding count
  count_zero p [] h = refl
  count_zero p (a ∷ xs) h = rw h.0 (count_zero p xs h.1)

  -- The row that LIMIT 1 returns satisfies the clause, and there is one where a row does.
  pub find_sound : (p : A → Bool) (xs : List A) (a : A) → find p xs ≡ some a → p a ≡ true
  unfolding find
  find_sound p [] a h = cc
  find_sound p (b ∷ xs) a h = elim (Bool-cases (p b)) [
    | inl e ↦ ground arith
    | inr e ↦ find_sound p xs a (rw e at h)
  ]

  pub find_complete :
      (p : A → Bool) (xs : List A) → exists p xs ≡ true → (a : A) × (find p xs ≡ some a)
  unfolding find exists
  find_complete p [] h = cc
  find_complete p (b ∷ xs) h = elim (Bool-cases (p b)) [
    | inl e ↦ (b, rw e)
    | inr e ↦ rw e (find_complete p xs (rw e at h))
  ]

pub All-select_of {ℓ κ} :
    {A : Type ℓ} (P : A → Type κ) (p : A → Bool) (xs : List A)
    → All (λ a. p a ≡ true → P a) xs
    → All P (select p xs)
unfolding select
All-select_of P p [] h = tt
All-select_of P p (a ∷ xs) h = elim (Bool-cases (p a)) [
  | inl e ↦ rw e (h.0 e, All-select_of P p xs h.1)
  | inr e ↦ rw e (All-select_of P p xs h.1)
]

module _ {ℓ κ} {A : Type ℓ} (R : A → A → Type κ) where
  pub AllPairs-select : (p : A → Bool) (xs : List A) → AllPairs R xs → AllPairs R (select p xs)
  unfolding select
  AllPairs-select p [] h = tt
  AllPairs-select p (a ∷ xs) h = elim (Bool-cases (p a)) [
    | inl e ↦ rw e (All-select (R a) p xs h.0, AllPairs-select p xs h.1)
    | inr e ↦ rw e (AllPairs-select p xs h.1)
  ]

module _ {ℓ κ} {A : Type ℓ} (R : A → A → Type κ) (flip : (a b : A) → R a b → R b a) where
  AllPairs-insert_by :
      (le : A → A → Bool) (a : A) (xs : List A)
      → All (R a) xs
      → AllPairs R xs
      → AllPairs R (insert_by le a xs)
  unfolding insert_by
  AllPairs-insert_by le a [] h k = (tt, tt)
  AllPairs-insert_by le a (b ∷ xs) h k = elim (Bool-cases (le a b)) [
    | inl e ↦ rw e (h, k)
    | inr e ↦
        rw e (All-insert_by (R b) le a xs (flip a b h.0) k.0, AllPairs-insert_by le a xs h.1 k.1)
  ]

  -- Sorting keeps what holds between all rows, either way round.
  pub AllPairs-order_by :
      (le : A → A → Bool) (xs : List A) → AllPairs R xs → AllPairs R (order_by le xs)
  unfolding order_by
  AllPairs-order_by le [] h = tt
  AllPairs-order_by le (a ∷ xs) h =
      AllPairs-insert_by le a (order_by le xs) (All-order_by (R a) le xs h.0)
        (AllPairs-order_by le xs h.1)
