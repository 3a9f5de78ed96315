-- ===== src/Common/Sql/Laws.antt =====
-- How the clauses of SQL combine.
use Prim.Native.Nat.{ℕ, suc, ◌+◌, ◌≤◌}
use mathlib.Core.Path.{◌≡◌, refl, ap, ◌∙◌, subst}
use mathlib.Core.Logic.{inl, inr}
use mathlib.Core.Bool.{Bool, true, false, not, ◌&&◌, ◌||◌}
use mathlib.Core.List.{List, [], ◌∷◌, ◌++◌, map}
use mathlib.Core.Option.{Option, none, some}
use mathlib.Core.Option
use native.Mathlib.Omega.{arith}
use pali.Common.Tests.{if◌then◌else◌, Bool-cases, ◌==◌, leb}
use pali.Common.Lists.{length, All, AllPairs, All-mono}
use pali.Common.Sql.{select, update, count, find, exists, insert_by, order_by, All-insert_by}

module _ {ℓ} {A : Type ℓ} where
  -- What an UPDATE makes of one row.
  abbrev pub updated : (A → Bool) → (A → A) → A → A
  updated q f a = if q a then f a else a

  pub find-update :
      (p q : A → Bool) (f : A → A) (xs : List A)
      → ((a : A) → p (f a) ≡ p a)
      → find p (update q f xs) ≡ Option.map (updated q f) (find p xs)
  unfolding find update
  find-update p q f [] k = refl
  find-update p q f (a ∷ xs) k = elim (Bool-cases (q a)) [
    | inl e ↦ elim (Bool-cases (p a)) [
      | inl i ↦ simp (e, k a, i)
      | inr i ↦ simp (e, k a, i) (find-update p q f xs k)
    ]
    | inr e ↦ elim (Bool-cases (p a)) [
      | inl i ↦ simp (e, i)
      | inr i ↦ simp (e, i) (find-update p q f xs k)
    ]
  ]

  pub update-update :
      (p q : A → Bool) (f : A → A) (xs : List A)
      → ((a : A) → q (f a) ≡ q a)
      → ((a : A) → f (f a) ≡ f a)
      → update q f (update p f xs) ≡ update (λ a. p a || q a) f xs
  unfolding update
  update-update p q f [] k l = refl
  update-update p q f (a ∷ xs) k l = elim (Bool-cases (p a)) [
    | inl e ↦ elim (Bool-cases (q a)) [
      | inl i ↦ simp (e, k a, i, l a, update-update p q f xs k l)
      | inr i ↦ simp (e, k a, i, update-update p q f xs k l)
    ]
    | inr e ↦ simp (e, update-update p q f xs k l)
  ]

  -- The row that LIMIT 1 returns has what every row has.
  pub find-All {κ} :
      (P : A → Type κ) (p : A → Bool) (xs : List A) (a : A) → All P xs → find p xs ≡ some a → P a
  unfolding find
  find-All P p [] a h e = absurd (cc)
  find-All P p (b ∷ xs) a h e = elim (Bool-cases (p b)) [
    | inl i ↦ subst P (ground arith) h.0
    | inr i ↦ find-All P p xs a h.1 (rw i at e)
  ]

  pub length-select : (p : A → Bool) (xs : List A) → length (select p xs) ≡ count p xs
  unfolding select count
  length-select p [] = refl
  length-select p (a ∷ xs) = ground (arith, length-select p xs)

  pub count-or :
      (p q : A → Bool) (xs : List A) → count (λ a. p a || q a) xs ≤ count p xs + count q xs
  unfolding count
  count-or p q [] = omega arith
  count-or p q (a ∷ xs) = ground (arith, count-or p q xs)

  length-insert_by :
      (le : A → A → Bool) (a : A) (xs : List A) → length (insert_by le a xs) ≡ suc (length xs)
  unfolding insert_by
  length-insert_by le a [] = refl
  length-insert_by le a (b ∷ xs) = ground (arith, length-insert_by le a xs)

  pub length-order_by : (le : A → A → Bool) (xs : List A) → length (order_by le xs) ≡ length xs
  unfolding order_by
  length-order_by le [] = refl
  length-order_by le (a ∷ xs) =
      length-insert_by le a (order_by le xs) ∙ ap suc (length-order_by le xs)

  -- No row is counted exactly where none is found.
  pub count-find :
      (p : A → Bool) (xs : List A)
      → (count p xs == 0) ≡ elim (find p xs) [ none ↦ true | some a ↦ false ]
  unfolding count find
  count-find p [] = refl
  count-find p (a ∷ xs) = elim (Bool-cases (p a)) [
    | inl e ↦ rw e (ground arith)
    | inr e ↦ rw e (count-find p xs)
  ]

  pub exists-update :
      (p q : A → Bool) (f : A → A) (xs : List A)
      → ((a : A) → p (f a) ≡ p a)
      → exists p (update q f xs) ≡ exists p xs
  unfolding exists update
  exists-update p q f [] k = refl
  exists-update p q f (a ∷ xs) k = elim (Bool-cases (q a)) [
    | inl e ↦ simp (e, k a, exists-update p q f xs k)
    | inr e ↦ simp (e, exists-update p q f xs k)
  ]

  pub exists-snoc :
      (p : A → Bool) (xs : List A) (a : A) → p a ≡ true → exists p (xs ++ a ∷ []) ≡ true
  unfolding exists
  exists-snoc p [] a h = rw h
  exists-snoc p (b ∷ xs) a h = ground (arith, exists-snoc p xs a h)

  -- An update that changes no row that is found leaves what is found.
  pub map-updated-none :
      (p q : A → Bool) (f : A → A) (xs : List A)
      → find q xs ≡ none
      → Option.map (updated q f) (find p xs) ≡ find p xs
  unfolding find
  map-updated-none p q f [] h = refl
  map-updated-none p q f (a ∷ xs) h = elim (Bool-cases (q a)) [
    | inl e ↦ absurd (clash (rw e at h))
    | inr e ↦ elim (Bool-cases (p a)) [
      | inl i ↦ rw (i, e)
      | inr i ↦ rw i (map-updated-none p q f xs (rw e at h))
    ]
  ]
    where
      clash : some a ≡ none → ⊥
      clash k = cc

  -- An update of rows that a clause does not name leaves what the clause selects.
  pub select-update :
      (q p : A → Bool) (f : A → A) (xs : List A)
      → ((a : A) → q (f a) ≡ q a)
      → ((a : A) → p a ≡ true → q a ≡ false)
      → select q (update p f xs) ≡ select q xs
  unfolding select update
  select-update q p f [] k l = refl
  select-update q p f (a ∷ xs) k l = elim (Bool-cases (p a)) [
    | inl e ↦ simp (e, k a, l a e, select-update q p f xs k l)
    | inr e ↦ simp (e, select-update q p f xs k l)
  ]

  pub select-append :
      (q : A → Bool) (xs ys : List A) → select q (xs ++ ys) ≡ select q xs ++ select q ys
  unfolding select
  select-append q [] ys = refl
  select-append q (a ∷ xs) ys = elim (Bool-cases (q a)) [
    | inl e ↦ simp (e, select-append q xs ys)
    | inr e ↦ simp (e, select-append q xs ys)
  ]

  -- What a stronger clause would take from the rows is not lost.
  pub select-select :
      (q p : A → Bool) (xs : List A)
      → ((a : A) → q a ≡ true → p a ≡ true)
      → select q (select p xs) ≡ select q xs
  unfolding select
  select-select q p [] k = refl
  select-select q p (a ∷ xs) k = elim (Bool-cases (p a)) [
    | inl e ↦ simp e (ap (λ r. if q a then a ∷ r else r) (select-select q p xs k))
    | inr e ↦ elim (Bool-cases (q a)) [
      | inl i ↦ absurd (clash e (k a i))
      | inr i ↦ simp (e, i, select-select q p xs k)
    ]
  ]
    where
      clash : {b : Bool} → b ≡ false → b ≡ true → ⊥
      clash u v = cc

  pub select_none : (q : A → Bool) (xs : List A) → All (λ a. q a ≡ false) xs → select q xs ≡ []
  unfolding select
  select_none q [] h = refl
  select_none q (a ∷ xs) h = rw h.0 (select_none q xs h.1)

-- Rows that stand for other rows are selected with them.
pub select-map {ℓ κ} :
    {A : Type ℓ} {B : Type κ} (f : A → B) (p : A → Bool) (q : B → Bool) (xs : List A)
    → ((a : A) → q (f a) ≡ p a)
    → select q (map f xs) ≡ map f (select p xs)
unfolding select
select-map f p q [] k = refl
select-map f p q (a ∷ xs) k = elim (Bool-cases (p a)) [
  | inl e ↦ simp (e, k a, select-map f p q xs k)
  | inr e ↦ simp (e, k a, select-map f p q xs k)
]

pub map-update {ℓ κ} :
    {A : Type ℓ} {B : Type κ} (g : A → B) (p : A → Bool) (f : A → A) (xs : List A)
    → ((a : A) → g (f a) ≡ g a)
    → map g (update p f xs) ≡ map g xs
unfolding update
map-update g p f [] k = refl
map-update g p f (a ∷ xs) k = elim (Bool-cases (p a)) [
  | inl e ↦ simp (e, k a, map-update g p f xs k)
  | inr e ↦ simp (e, map-update g p f xs k)
]

pub map-append {ℓ κ} :
    {A : Type ℓ} {B : Type κ} (f : A → B) (xs ys : List A) → map f (xs ++ ys) ≡ map f xs ++ map f ys
map-append f [] ys = refl
map-append f (a ∷ xs) ys = ap (◌∷◌ (f a)) (map-append f xs ys)

module _ {ℓ} {A : Type ℓ} where
  -- After a DELETE no row satisfies its clause.
  pub count-select-not : (p : A → Bool) (xs : List A) → count p (select (λ a. not (p a)) xs) ≡ 0
  unfolding count select
  count-select-not p [] = refl
  count-select-not p (a ∷ xs) = elim (Bool-cases (p a)) [
    | inl e ↦ simp (e, count-select-not p xs)
    | inr e ↦ simp (e, count-select-not p xs)
  ]

  pub count-select :
      (p q r : A → Bool) (xs : List A)
      → ((a : A) → (p a && q a) ≡ r a)
      → count p (select q xs) ≡ count r xs
  unfolding count select
  count-select p q r [] k = refl
  count-select p q r (a ∷ xs) k = elim (Bool-cases (q a)) [
    | inl e ↦
        let same : p a ≡ r a = ground (arith, k a) in rw (e, same, count-select p q r xs k) refl
    | inr e ↦ let none : r a ≡ false = ground (arith, k a) in rw (e, none) (count-select p q r xs k)
  ]

  count-insert_by :
      (p : A → Bool) (le : A → A → Bool) (a : A) (xs : List A)
      → count p (insert_by le a xs) ≡ count p (a ∷ xs)
  unfolding count insert_by
  count-insert_by p le a [] = refl
  count-insert_by p le a (b ∷ xs) = ground (arith, count-insert_by p le a xs)

  -- Sorting loses no row and adds none.
  pub count-order_by :
      (p : A → Bool) (le : A → A → Bool) (xs : List A) → count p (order_by le xs) ≡ count p xs
  unfolding count order_by
  count-order_by p le [] = refl
  count-order_by p le (a ∷ xs) =
      count-insert_by p le a (order_by le xs)
      ∙ ap (λ n. if p a then suc n else n) (count-order_by p le xs)

module _ {ℓ} {A : Type ℓ} (key : A → ℕ) where
  abbrev by_key : A → A → Bool
  by_key a b = leb (key a) (key b)

  insert_by-sorted :
      (a : A) (xs : List A)
      → AllPairs (λ x y. key x ≤ key y) xs
      → AllPairs (λ x y. key x ≤ key y) (insert_by by_key a xs)
  unfolding insert_by
  insert_by-sorted a [] h = (tt, tt)
  insert_by-sorted a (b ∷ xs) h = elim (Bool-cases (by_key a b)) [
    | inl e ↦
        let least : key a ≤ key b = ground arith in
        rw e ((least, All-mono _ _ (λ x l. ground arith) xs h.0), h)
    | inr e ↦
        let below : key b ≤ key a = ground arith in
        rw e (All-insert_by _ by_key a xs below h.0, insert_by-sorted a xs h.1)
  ]

  -- Rows sorted by a number are in its order.
  pub order_by-sorted :
      (xs : List A) → AllPairs (λ x y. key x ≤ key y) (order_by (λ x y. leb (key x) (key y)) xs)
  unfolding order_by
  order_by-sorted [] = tt
  order_by-sorted (a ∷ xs) = insert_by-sorted a (order_by by_key xs) (order_by-sorted xs)
