-- ===== src/Speaker/Methods/Gender/Whole.antt =====
-- The whole order of the method `gender_prio`: its groups, one after another.
use voteit.Prelude.{
  ℕ, ◌≤◌, ◌<◌, ◌≡◌, refl, sym, ap, ◌∙◌, Bool, true, false, ◌&&◌, List, [], ◌∷◌, ◌++◌, ◌==◌, ltb,
  leb, map, every, select, length, distinct, tally, ascending, tally-append, arith,
}
use voteit.Speaker.{Speaker, ListMethod}
use voteit.Speaker.Methods.{
  priority, priority_reorder, onto_run, group_by, alternate, alternate_all, GenderSettings, is_prio,
  last_not_prio, gender_reorder,
}
use voteit.Speaker.Methods.Priority.{tally-priority_reorder, priority_reorder_lem}
use voteit.Speaker.Methods.Gender.{fair, alike, alternate-Rounds, alternate-fair}

module _ (key : Speaker → ℕ) where
  abbrev flat : List (List Speaker) → List Speaker
  flat [] = []
  flat (g ∷ gs) = g ++ flat gs

  -- every group has one key, which is smaller than all keys after it
  abbrev parted : List (List Speaker) → Bool
  parted [] = true
  parted ([] ∷ gs) = false
  parted ((x ∷ xs) ∷ gs) =
      every (λ y. key y == key x) xs && every (λ y. ltb (key x) (key y)) (flat gs) && parted gs

  every-append :
      (p : Speaker → Bool) (xs ys : List Speaker) → every p (xs ++ ys) ≡ (every p xs && every p ys)
  every-append p [] ys = refl
  every-append p (x ∷ xs) ys = ground (arith, every-append p xs ys)

  every_mono :
      (p q : Speaker → Bool) (xs : List Speaker)
      → ((x : Speaker) → p x ≡ true → q x ≡ true)
      → every p xs ≡ true
      → every q xs ≡ true
  every_mono p q [] m h = refl
  every_mono p q (x ∷ xs) m h = ground (arith, every_mono p q xs m, m x)

  flat-onto_run : (x : Speaker) (gs : List (List Speaker)) → flat (onto_run key x gs) ≡ x ∷ flat gs
  flat-onto_run x [] = refl
  flat-onto_run x ([] ∷ gs) = refl
  flat-onto_run x ((y ∷ ys) ∷ gs) = ground arith

  flat-group_by : (xs : List Speaker) → flat (group_by key xs) ≡ xs
  flat-group_by [] = refl
  flat-group_by (x ∷ xs) = flat-onto_run x (group_by key xs) ∙ ap (◌∷◌ x) (flat-group_by xs)

  parted-onto_run :
      (x : Speaker) (gs : List (List Speaker))
      → parted gs ≡ true
      → every (λ y. leb (key x) (key y)) (flat gs) ≡ true
      → parted (onto_run key x gs) ≡ true
  parted-onto_run x [] h k = refl
  parted-onto_run x ([] ∷ gs) h k = ground arith
  parted-onto_run x ((y ∷ ys) ∷ gs) h k = ground (
    arith,
    every-append (λ z. ltb (key x) (key z)) ys (flat gs),
    λ (e : key x ≡ key y).
        every_mono (λ z. key z == key y) (λ z. key z == key x) ys (λ z. ground arith),
    λ (e : key x ≤ key y).
        every_mono (λ z. ltb (key y) (key z)) (λ z. ltb (key x) (key z)) (flat gs)
          (λ z. ground arith),
    λ (e : key x < key y).
        every_mono (λ z. key z == key y) (λ z. ltb (key x) (key z)) ys (λ z. ground arith),
  )

  parted-group_by : (xs : List Speaker) → ascending key xs ≡ true → parted (group_by key xs) ≡ true
  parted-group_by [] h = refl
  parted-group_by (x ∷ xs) h =
      parted-onto_run x (group_by key xs) (parted-group_by xs (ground arith))
        (rw (flat-group_by xs) (ground arith))

  tally-later :
      (k : ℕ) (xs : List Speaker)
      → every (λ y. ltb k (key y)) xs ≡ true
      → tally (λ y. key y == k) xs ≡ 0
  tally-later k [] h = refl
  tally-later k (x ∷ xs) h = ground (arith, tally-later k xs)

  select-append :
      (p : Speaker → Bool) (xs ys : List Speaker) → select p (xs ++ ys) ≡ select p xs ++ select p ys
  select-append p [] ys = refl
  select-append p (x ∷ xs) ys = ground (arith, select-append p xs ys)

  ascending-append :
      (k : ℕ) (xs ys : List Speaker)
      → every (λ y. key y == k) xs ≡ true
      → every (λ y. ltb k (key y)) ys ≡ true
      → ascending key ys ≡ true
      → ascending key (xs ++ ys) ≡ true
  ascending-append k [] ys hx hy h = h
  ascending-append k (x ∷ xs) ys hx hy h = ground (
    arith,
    ascending-append k xs ys,
    every-append (λ y. leb (key x) (key y)) xs ys,
    λ (e : key x ≡ k).
        every_mono (λ y. key y == k) (λ y. leb (key x) (key y)) xs (λ y. ground arith),
    λ (e : key x ≡ k).
        every_mono (λ y. ltb k (key y)) (λ y. leb (key x) (key y)) ys (λ y. ground arith),
  )

  module _ (prio : Speaker → Bool) where
    tally-alternate_all :
        (p : Speaker → Bool) (flag : Bool) (gs : List (List Speaker))
        → tally p (alternate_all prio flag gs) ≡ tally p (flat gs)
    tally-alternate_all p flag [] = refl
    tally-alternate_all p flag (g ∷ gs) =
        let (out, flag') = alternate prio (length g) flag g in
        let r = alternate-Rounds prio (length g) flag g (omega arith) in
        omega (
          arith,
          tally-append p out (alternate_all prio flag' gs),
          r.same_tally p,
          tally-alternate_all p flag' gs,
          tally-append p g (flat gs),
        )

    every-alternate_all :
        (p : Speaker → Bool) (flag : Bool) (gs : List (List Speaker))
        → every p (alternate_all prio flag gs) ≡ every p (flat gs)
    every-alternate_all p flag [] = refl
    every-alternate_all p flag (g ∷ gs) =
        let (out, flag') = alternate prio (length g) flag g in
        let r = alternate-Rounds prio (length g) flag g (omega arith) in
        cc (
          every-append p out (alternate_all prio flag' gs),
          r.same_every p,
          every-alternate_all p flag' gs,
          every-append p g (flat gs),
        )

    select-alternate_all :
        (b : Bool) (k : ℕ) (flag : Bool) (gs : List (List Speaker))
        → select (alike prio key b k) (alternate_all prio flag gs)
          ≡ select (alike prio key b k) (flat gs)
    select-alternate_all b k flag [] = refl
    select-alternate_all b k flag (g ∷ gs) =
        let (out, flag') = alternate prio (length g) flag g in
        let r = alternate-Rounds prio (length g) flag g (omega arith) in
        let p = alike prio key b k in
        cc (
          select-append p out (alternate_all prio flag' gs),
          r.same_order key b k,
          select-alternate_all b k flag' gs,
          select-append p g (flat gs),
        )

    ascending-alternate_all :
        (flag : Bool) (gs : List (List Speaker))
        → parted gs ≡ true
        → ascending key (alternate_all prio flag gs) ≡ true
    ascending-alternate_all flag [] h = refl
    ascending-alternate_all flag ([] ∷ gs) h = ground arith
    ascending-alternate_all flag ((x ∷ xs) ∷ gs) h =
        let (out, flag') = alternate prio (length (x ∷ xs)) flag (x ∷ xs) in
        let r = alternate-Rounds prio (length (x ∷ xs)) flag (x ∷ xs) (omega arith) in
        ascending-append (key x) out (alternate_all prio flag' gs)
          (r.same_every (λ y. key y == key x) ∙ ground (arith, h))
          (every-alternate_all (λ y. ltb (key x) (key y)) flag' gs ∙ ground (arith, h))
          (ascending-alternate_all flag' gs (ground (arith, h)))

    fair-alternate_all :
        (flag : Bool) (gs : List (List Speaker))
        → parted gs ≡ true
        → fair prio key flag (alternate_all prio flag gs) ≡ true
    fair-alternate_all flag [] h = refl
    fair-alternate_all flag ([] ∷ gs) h = ground arith
    fair-alternate_all flag ((x ∷ xs) ∷ gs) h =
        let (out, flag') = alternate prio (length (x ∷ xs)) flag (x ∷ xs) in
        let rest = alternate_all prio flag' gs in
        alternate-fair prio (length (x ∷ xs)) flag (x ∷ xs) rest key (key x) (omega arith)
          (ground (arith, h))
          (tally-later (key x) rest
            (every-alternate_all (λ y. ltb (key x) (key y)) flag' gs ∙ ground (arith, h)))
          (fair-alternate_all flag' gs (ground (arith, h)))

-- A selection by less is found in one by more.
select-alike :
    (prio : Speaker → Bool) (key : Speaker → ℕ) (b : Bool) (k : ℕ) (xs : List Speaker)
    → select (alike prio key b k) (select (λ s. key s == k) xs) ≡ select (alike prio key b k) xs
select-alike prio key b k [] = refl
select-alike prio key true k (x ∷ xs) = ground (arith, select-alike prio key true k xs)
select-alike prio key false k (x ∷ xs) = ground (arith, select-alike prio key false k xs)

-- Where no speaker is there twice: who spoke less often comes first, up to the limit of the settings;
-- among speakers who count alike, nobody without priority follows another such speaker, the last one
-- in a safe position included, while somebody with priority is behind him; and of those who count
-- alike, the ones with priority keep the order in which they came, and so do the ones without.
pub gender_reorder_lem :
    (c : GenderSettings) (items safe incoming : List Speaker) (b : Bool) (k : ℕ)
    → distinct (map (λ s. s.pk) incoming) ≡ true
    → (ascending (priority c.max_times items) (gender_reorder c items safe incoming) ≡ true)
      × (fair
            (is_prio c)
            (priority c.max_times items)
            (last_not_prio (is_prio c) safe)
            (gender_reorder c items safe incoming)
          ≡ true)
      × (select
            (alike (is_prio c) (priority c.max_times items) b k)
            (gender_reorder c items safe incoming)
          ≡ select (alike (is_prio c) (priority c.max_times items) b k) incoming)
unfolding gender_reorder
gender_reorder_lem c items safe incoming b k h =
    let key = priority c.max_times items in
    let prio = is_prio c in
    let flag = last_not_prio prio safe in
    let xs = priority_reorder c.max_times items safe incoming in
    let (sorted, stable) = priority_reorder_lem c.max_times items safe incoming k h in
    let whole = parted-group_by key xs sorted in
    (
      ascending-alternate_all key prio flag (group_by key xs) whole,
      fair-alternate_all key prio flag (group_by key xs) whole,
      select-alternate_all key prio b k flag (group_by key xs)
          ∙ ap (select (alike prio key b k)) (flat-group_by key xs)
          ∙ sym (select-alike prio key b k xs)
          ∙ ap (select (alike prio key b k)) stable
          ∙ select-alike prio key b k incoming,
    )

pub tally-gender_reorder :
    (c : GenderSettings) (items safe incoming : List Speaker) (p : Speaker → Bool)
    → tally p (gender_reorder c items safe incoming) ≡ tally p incoming
unfolding gender_reorder
tally-gender_reorder c items safe incoming p =
    let key = priority c.max_times items in
    let xs = priority_reorder c.max_times items safe incoming in
    tally-alternate_all key (is_prio c) p (last_not_prio (is_prio c) safe) (group_by key xs)
    ∙ ap (tally p) (flat-group_by key xs)
    ∙ tally-priority_reorder c.max_times items safe incoming p

abbrev pub gender_method : GenderSettings → ListMethod
gender_method c = record { reorder = gender_reorder c; tally-reorder = tally-gender_reorder c }
