-- ===== src/Core/Roles/Closure.antt =====
-- Assigned roles stay closed under requirements (voteit/core/models.py, `Roles.add` and `remove`).
use voteit.Prelude.{
  ℕ, zero, suc, ◌<◌, ◌≡◌, refl, Bool, true, false, ◌&&◌, ◌||◌, not, some, List, [], ◌∷◌, ◌++◌,
  select, Eq, arith, Bool-cases, Option-cases, inl, inr,
}
use voteit.Core.Roles.{
  has, difference, intersection, union, is_empty, validate_roles, get_required_roles,
  get_reverse_required_roles, add, remove, Role, role_eq, participant, valid_roles, requires,
}

module _ {R : Type 0} ⦃e : Eq R⦄ where
  pub has-append : (r : R) (xs ys : List R) → has r (xs ++ ys) ≡ (has r xs || has r ys)
  has-append r [] ys = refl
  has-append r (x ∷ xs) ys = ground (arith, has-append r xs ys)

  pub has-select : (p : R → Bool) (r : R) (xs : List R) → has r (select p xs) ≡ (has r xs && p r)
  has-select p r [] = refl
  has-select p r (x ∷ xs) = ground (arith, has-select p r xs, e.beq_iff x r)

  pub has-union : (r : R) (a b : List R) → has r (union a b) ≡ (has r a || has r b)
  has-union r a b =
      ground (arith, has-append r a (difference b a), has-select (λ x. not (has x a)) r b)

  pub has-is_empty : (r : R) (xs : List R) → has r xs ≡ true → is_empty xs ≡ false
  has-is_empty r [] h = cc
  has-is_empty r (x ∷ xs) h = refl

  pub is_empty-has : (r : R) (xs : List R) → is_empty xs ≡ true → has r xs ≡ false
  is_empty-has r [] h = refl
  is_empty-has r (x ∷ xs) h = cc

  is_empty-intersection :
      (xs to_check : List R)
      → ((z : R) → has z xs ≡ false)
      → is_empty (intersection xs to_check) ≡ true
  is_empty-intersection [] to_check none_of = refl
  is_empty-intersection (x ∷ xs) to_check none_of =
      absurd (ground (arith, none_of x, e.beq_iff x x))

module _ {R : Type 0} ⦃e : Eq R⦄ (valid : List R) (requires : R → List R) where
  -- Whatever an assigned role requires is assigned.
  abbrev Closed : List R → Type 0
  Closed a = (r y : R) → has r a ≡ true → has y (requires r) ≡ true → has y a ≡ true

  pub record IsClosed (a : List R) : Type 0 where
    pub closed : Closed a

  has-required :
      (fuel : ℕ) (roles : List R) (r : R)
      → has r roles ≡ true
      → has r (get_required_roles valid requires (suc fuel) roles) ≡ true
  unfolding get_required_roles
  has-required fuel [] r h = cc
  has-required fuel (x ∷ xs) r h = ground (
    arith,
    has-required fuel xs r,
    has-append r (get_required_roles valid requires fuel (requires x))
        (get_required_roles valid requires (suc fuel) xs),
  )

  pub has-validate_roles :
      (roles checked : List R) (r : R)
      → validate_roles valid requires roles ≡ some checked
      → has r checked ≡ has r roles
  unfolding validate_roles
  has-validate_roles [] checked r h = cc
  has-validate_roles (x ∷ xs) checked r h = elim (Bool-cases (has x valid)) [
    | inr bad ↦ absurd (ground arith)
    | inl good ↦ elim (Option-cases (validate_roles valid requires xs)) [
      | inl stop ↦ absurd (ground arith)
      | inr (found, more) ↦ ground (arith, has-validate_roles xs found r more)
    ]
  ]

  has-required_pos :
      (fuel : ℕ) (roles : List R) (r : R)
      → 0 < fuel
      → has r roles ≡ true
      → has r (get_required_roles valid requires fuel roles) ≡ true
  has-required_pos zero roles r p h = absurd (omega arith)
  has-required_pos (suc fuel) roles r p h = has-required fuel roles r h

  module _ (rank : R → ℕ) (descends : (x y : R) → has y (requires x) ≡ true → rank y < rank x) where
    -- With requirements that descend and fuel above every rank, the expansion is closed.
    required-Closed :
        (fuel : ℕ) (roles : List R)
        → ((x : R) → has x roles ≡ true → rank x < fuel)
        → Closed (get_required_roles valid requires fuel roles)
    unfolding get_required_roles
    required-Closed zero roles low r y h k = cc
    required-Closed (suc fuel) [] low r y h k = cc
    required-Closed (suc fuel) (x ∷ xs) low r y h k =
        let below : (z : R) → has z (requires x) ≡ true → rank z < fuel =
          λ z hz. omega (arith, descends x z hz, low x (ground (arith, e.beq_iff x x))) in
        let later : (z : R) → has z xs ≡ true → rank z < suc fuel = λ z hz. low z (ground arith) in
        let a : List R = get_required_roles valid requires fuel (requires x) in
        let b : List R = get_required_roles valid requires (suc fuel) xs in
        elim (Bool-cases (e.beq x r)) [
          | inl same ↦
              let wanted : has y (requires x) ≡ true = cc ((e.beq_iff x r).0 same) in
              ground (
                arith,
                has-append y a b,
                has-required_pos fuel (requires x) y (omega (arith, below y wanted)) wanted,
              )
          | inr other ↦ ground (
            arith,
            has-append r a b,
            has-append y a b,
            required-Closed fuel (requires x) below r y,
            required-Closed (suc fuel) xs later r y,
          )
        ]

    add-Closed :
        (fuel : ℕ) (assigned roles after : List R)
        → ((x : R) → rank x < fuel)
        → Closed assigned
        → add valid requires fuel assigned roles ≡ some after
        → Closed after
    unfolding add
    add-Closed fuel assigned roles after low closed done r y h k =
        elim (Option-cases (validate_roles valid requires roles)) [
          | inl stop ↦ absurd (ground arith)
          | inr (checked, found) ↦
              let wanted : List R = get_required_roles valid requires fuel checked in
              let fresh : List R = difference wanted assigned in
              ground (
                arith,
                closed r y,
                required-Closed fuel checked (λ x _. low x) r y,
                has-union r assigned fresh,
                has-union y assigned fresh,
                has-select (λ x. not (has x assigned)) r wanted,
                has-select (λ x. not (has x assigned)) y wanted,
                is_empty-has y fresh,
              )
        ]

    -- With requirements that descend and recursion depth above every rank, `add` keeps the assigned
    -- roles closed under requirements, whatever roles it is given.
    pub add-IsClosed :
        (fuel : ℕ) (assigned roles after : List R)
        → ((x : R) → rank x < fuel)
        → IsClosed assigned
        → add valid requires fuel assigned roles ≡ some after
        → IsClosed after
    add-IsClosed fuel assigned roles after low before done = record {
      closed = add-Closed fuel assigned roles after low before.closed done;
    }

  pub has-reverse :
      (to_check : List R) (r : R)
      → has r (get_reverse_required_roles valid requires to_check)
        ≡ (has r valid && (not (is_empty (intersection (requires r) to_check)) || has r to_check))
  unfolding get_reverse_required_roles
  has-reverse to_check r =
      has-select
        (λ role. not (is_empty (intersection (requires role) to_check)) || has role to_check) r
        valid

  -- a role one of whose requirements goes away goes away too
  kept_apart :
      (to_check : List R) (r y : R)
      → has y (requires r) ≡ true
      → has y to_check ≡ true
      → is_empty (intersection (requires r) to_check) ≡ false
  kept_apart to_check r y k t =
      has-is_empty y (intersection (requires r) to_check)
        (ground (arith, has-select (λ x. has x to_check) y (requires r)))

  remove-Closed :
      (assigned roles after : List R)
      → ((x y z : R) → has y (requires x) ≡ true → has z (requires y) ≡ false)
      → ((x : R) → has x assigned ≡ true → has x valid ≡ true)
      → Closed assigned
      → remove valid requires assigned roles ≡ some after
      → Closed after
  unfolding remove
  remove-Closed assigned roles after flat known closed done r y h k =
      elim (Option-cases (validate_roles valid requires roles)) [
        | inl stop ↦ absurd (ground arith)
        | inr (checked, found) ↦
            let reverse : List R = get_reverse_required_roles valid requires checked in
            let removed : List R = intersection assigned reverse in
            ground (
              arith,
              closed r y,
              known r,
              has-select (λ x. not (has x removed)) r assigned,
              has-select (λ x. not (has x removed)) y assigned,
              has-select (λ x. has x reverse) r assigned,
              has-select (λ x. has x reverse) y assigned,
              has-reverse checked r,
              has-reverse checked y,
              kept_apart checked r y,
              is_empty-intersection (requires y) checked (λ z. flat r y z k),
            )
      ]

  -- Where no required role has requirements of its own, `remove` keeps assigned roles that the context
  -- has closed under requirements.
  pub remove-IsClosed :
      (assigned roles after : List R)
      → ((x y z : R) → has y (requires x) ≡ true → has z (requires y) ≡ false)
      → ((x : R) → has x assigned ≡ true → has x valid ≡ true)
      → IsClosed assigned
      → remove valid requires assigned roles ≡ some after
      → IsClosed after
  remove-IsClosed assigned roles after flat known before done = record {
    closed = remove-Closed assigned roles after flat known before.closed done;
  }

module _ {R : Type 0} ⦃e : Eq R⦄ where
  select_all : (p : R → Bool) (xs : List R) → ((x : R) → p x ≡ true) → select p xs ≡ xs
  select_all p [] h = refl
  select_all p (x ∷ xs) h = ground (arith, h x, select_all p xs h)

  select_none :
      (p : R → Bool) (xs : List R) → ((x : R) → has x xs ≡ true → p x ≡ false) → select p xs ≡ []
  select_none p [] h = refl
  select_none p (x ∷ xs) h =
      ground
        (arith, h x, e.beq_iff x x, select_none p xs (λ y m. h y (ground (arith, e.beq_iff x y))))

  difference_self : (xs : List R) → difference xs xs ≡ []
  difference_self xs = select_none (λ x. not (has x xs)) xs (λ x m. rw m)

all_depend :
    (r : Role) → has r (get_reverse_required_roles valid_roles requires (participant ∷ [])) ≡ true
unfolding get_reverse_required_roles
all_depend r = ground arith

-- Removing the participant role takes every meeting role away, so that the row is deleted.
pub remove-participant :
    (assigned : List Role) → remove valid_roles requires assigned (participant ∷ []) ≡ some []
unfolding remove
remove-participant assigned =
    let reverse = get_reverse_required_roles valid_roles requires (participant ∷ []) in
    rw (select_all (λ r. has r reverse) assigned all_depend)
      (ground (arith, difference_self assigned))
