-- ===== src/Prelude/Sorting.antt =====
-- Counting by a test, and Python's `sorted`, which is stable, as an insertion sort.
use Prim.Native.Nat.{ℕ, suc, ◌+◌, ◌≤◌}
use mathlib.Core.Path.{◌≡◌, refl}
use mathlib.Core.Bool.{Bool, true, false, ◌&&◌}
use mathlib.Core.List.{List, [], ◌∷◌, ◌++◌}
use native.Mathlib.Omega.{arith}
use voteit.Prelude.Tests.{◌==◌, leb, if◌then◌else◌}
use voteit.Prelude.Lists.{select, every}

module _ {ℓ} {A : Type ℓ} where
  -- how many elements pass the test
  abbrev pub tally : (A → Bool) → List A → ℕ
  tally p [] = 0
  tally p (x ∷ xs) = let rest = tally p xs in if p x then suc rest else rest

  pub tally-append : (p : A → Bool) (xs ys : List A) → tally p (xs ++ ys) ≡ tally p xs + tally p ys
  tally-append p [] ys = omega arith
  tally-append p (x ∷ xs) ys = ground (arith, tally-append p xs ys)

  pub tally-select :
      (p q : A → Bool) (xs : List A) → tally p (select q xs) ≡ tally (λ x. q x && p x) xs
  tally-select p q [] = refl
  tally-select p q (x ∷ xs) = ground (arith, tally-select p q xs)

  module _ (le : A → A → Bool) where
    abbrev pub insert_with : A → List A → List A
    insert_with x [] = x ∷ []
    insert_with x (y ∷ ys) = let rest = insert_with x ys in if le x y then x ∷ y ∷ ys else y ∷ rest

    abbrev pub sort_with : List A → List A
    sort_with [] = []
    sort_with (x ∷ xs) = insert_with x (sort_with xs)

    tally-insert_with :
        (p : A → Bool) (x : A) (xs : List A) → tally p (insert_with x xs) ≡ tally p (x ∷ xs)
    tally-insert_with p x [] = refl
    tally-insert_with p x (y ∷ ys) = ground (arith, tally-insert_with p x ys)

    -- Sorting keeps every element as often as it is there.
    pub tally-sort_with : (p : A → Bool) (xs : List A) → tally p (sort_with xs) ≡ tally p xs
    tally-sort_with p [] = refl
    tally-sort_with p (x ∷ xs) =
        ground (arith, tally-insert_with p x (sort_with xs), tally-sort_with p xs)

    every-insert_with :
        (p : A → Bool) (x : A) (xs : List A) → every p (insert_with x xs) ≡ (p x && every p xs)
    every-insert_with p x [] = refl
    every-insert_with p x (y ∷ ys) = ground (arith, every-insert_with p x ys)

    pub every-sort_with : (p : A → Bool) (xs : List A) → every p (sort_with xs) ≡ every p xs
    every-sort_with p [] = refl
    every-sort_with p (x ∷ xs) =
        ground (arith, every-insert_with p x (sort_with xs), every-sort_with p xs)

  -- no element has a larger key than one after it
  abbrev pub ascending : (A → ℕ) → List A → Bool
  ascending key [] = true
  ascending key (x ∷ xs) = every (λ y. leb (key x) (key y)) xs && ascending key xs

  every-leb_key :
      (key : A → ℕ) (x y : A) (xs : List A)
      → key x ≤ key y
      → every (λ z. leb (key y) (key z)) xs ≡ true
      → every (λ z. leb (key x) (key z)) xs ≡ true
  every-leb_key key x y [] h k = refl
  every-leb_key key x y (z ∷ zs) h k = ground (arith, every-leb_key key x y zs)

  -- an order that compares keys first
  module _ (le : A → A → Bool) (key : A → ℕ) (below : (x y : A) → le x y ≡ true → key x ≤ key y)
      (above : (x y : A) → le x y ≡ false → key y ≤ key x) where
    ascending-insert_with :
        (x : A) (xs : List A) → ascending key xs ≡ true → ascending key (insert_with le x xs) ≡ true
    ascending-insert_with x [] h = refl
    ascending-insert_with x (y ∷ ys) h = ground (
      arith,
      ascending-insert_with x ys,
      every-insert_with le (λ z. leb (key y) (key z)) x ys,
      every-leb_key key x y ys,
      below x y,
      above x y,
    )

    pub ascending-sort_with : (xs : List A) → ascending key (sort_with le xs) ≡ true
    ascending-sort_with [] = refl
    ascending-sort_with (x ∷ xs) =
        ascending-insert_with x (sort_with le xs) (ascending-sort_with xs)

  module _ (key : A → ℕ) where
    abbrev pub by_key : A → A → Bool
    by_key x y = leb (key x) (key y)

    select-insert_with :
        (k : ℕ) (x : A) (xs : List A)
        → select (λ y. key y == k) (insert_with by_key x xs) ≡ select (λ y. key y == k) (x ∷ xs)
    select-insert_with k x [] = refl
    select-insert_with k x (y ∷ ys) = ground (arith, select-insert_with k x ys)

    -- Elements with one key stay in their order.
    pub select-sort_with :
        (k : ℕ) (xs : List A)
        → select (λ y. key y == k) (sort_with by_key xs) ≡ select (λ y. key y == k) xs
    select-sort_with k [] = refl
    select-sort_with k (x ∷ xs) =
        ground (arith, select-insert_with k x (sort_with by_key xs), select-sort_with k xs)

  module _ (le le' : A → A → Bool) (p : A → Bool)
      (agree : (x y : A) → p x ≡ true → p y ≡ true → le x y ≡ le' x y) where
    insert_with-agree :
        (x : A) (xs : List A)
        → p x ≡ true
        → every p xs ≡ true
        → insert_with le x xs ≡ insert_with le' x xs
    insert_with-agree x [] hx h = refl
    insert_with-agree x (y ∷ ys) hx h = ground (arith, insert_with-agree x ys, agree x y)

    -- Two orders that agree on the elements sort them alike.
    pub sort_with-agree : (xs : List A) → every p xs ≡ true → sort_with le xs ≡ sort_with le' xs
    sort_with-agree [] h = refl
    sort_with-agree (x ∷ xs) h = ground (
      arith,
      sort_with-agree xs,
      insert_with-agree x (sort_with le' xs),
      every-sort_with le' p xs,
    )
