-- ===== src/Speaker/Methods/Priority.antt =====
-- The order of the method `priority`.
use voteit.Prelude.{
  ℕ, ◌≡◌, refl, ap, ◌∙◌, Bool, true, false, not, List, [], ◌∷◌, ◌==◌, map, every, select, member,
  distinct, tally, insert_with, sort_with, by_key, ascending, tally-sort_with, ascending-sort_with,
  select-sort_with, sort_with-agree, arith,
}
use voteit.Speaker.{Speaker, ListMethod}
use voteit.Speaker.Methods.{priority, priority_le, priority_reorder, simple_reorder}

every-other_pk :
    (x : Speaker) (xs : List Speaker)
    → member x.pk (map (λ s. s.pk) xs) ≡ false
    → every (λ s. not (x.pk == s.pk)) xs ≡ true
every-other_pk x [] h = refl
every-other_pk x (y ∷ ys) h = ground (arith, every-other_pk x ys)

module _ (key : Speaker → ℕ) where
  -- a speaker before all of these: his position is 0, and theirs are one more
  shift :
      (x y z : Speaker) (xs : List Speaker)
      → not (x.pk == y.pk) ≡ true
      → not (x.pk == z.pk) ≡ true
      → priority_le key (x ∷ xs) y z ≡ priority_le key xs y z
  shift x y z xs hy hz = ground arith

  -- the least position stays in front of equal keys
  insert-first :
      (x : Speaker) (xs ys : List Speaker)
      → insert_with (priority_le key (x ∷ xs)) x ys ≡ insert_with (by_key key) x ys
  insert-first x xs [] = refl
  insert-first x xs (y ∷ ys) = ground (arith, insert-first x xs ys)

  -- Comparing positions where keys are equal sorts as a stable sort by the keys does.
  sort-stable :
      (xs : List Speaker)
      → distinct (map (λ s. s.pk) xs) ≡ true
      → sort_with (priority_le key xs) xs ≡ sort_with (by_key key) xs
  sort-stable [] h = refl
  sort-stable (x ∷ xs) h =
      let others = every-other_pk x xs (ground arith) in
      ap (insert_with (priority_le key (x ∷ xs)) x) (
        sort_with-agree (priority_le key (x ∷ xs)) (priority_le key xs) (λ s. not (x.pk == s.pk))
          (λ y z. shift x y z xs) xs others
        ∙ sort-stable xs (ground arith))
      ∙ insert-first x xs (sort_with (by_key key) xs)

-- The order of the method `priority` is the stable sort of the speakers by how often they spoke, where
-- no speaker is there twice.
pub priority_reorder-stable :
    (max_times : ℕ) (items safe incoming : List Speaker)
    → distinct (map (λ s. s.pk) incoming) ≡ true
    → priority_reorder max_times items safe incoming
      ≡ sort_with (by_key (priority max_times items)) incoming
unfolding priority_reorder
priority_reorder-stable max_times items safe incoming h =
    sort-stable (priority max_times items) incoming h

-- Who spoke less often comes first, up to the limit of the settings; speakers who count alike keep
-- the order in which they came, where no speaker is there twice.
pub priority_reorder_lem :
    (max_times : ℕ) (items safe incoming : List Speaker) (k : ℕ)
    → distinct (map (λ s. s.pk) incoming) ≡ true
    → (ascending (priority max_times items) (priority_reorder max_times items safe incoming) ≡ true)
      × (select
            (λ s. priority max_times items s == k)
            (priority_reorder max_times items safe incoming)
          ≡ select (λ s. priority max_times items s == k) incoming)
priority_reorder_lem max_times items safe incoming k h =
    let key = priority max_times items in
    rw (priority_reorder-stable max_times items safe incoming h) (
      ascending-sort_with (by_key key) key (λ x y. ground arith) (λ x y. ground arith) incoming,
      select-sort_with key k incoming,
    )

pub tally-priority_reorder :
    (max_times : ℕ) (items safe incoming : List Speaker) (p : Speaker → Bool)
    → tally p (priority_reorder max_times items safe incoming) ≡ tally p incoming
unfolding priority_reorder
tally-priority_reorder max_times items safe incoming p =
    tally-sort_with (priority_le (priority max_times items) incoming) p incoming

abbrev pub priority_method : ℕ → ListMethod
priority_method max_times = record {
  reorder = priority_reorder max_times;
  tally-reorder = tally-priority_reorder max_times;
}

abbrev pub simple_method : ListMethod
simple_method = record { reorder = simple_reorder; tally-reorder = λ items safe incoming p. refl }
