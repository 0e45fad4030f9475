-- ===== src/Core/Roles.antt =====
-- voteit/core/models.py, class `Roles`, and voteit/core/role.py: assigned roles, where one role may
-- require others. A Python set is a list read by membership.
pub mod Closure
pub mod Rows
use voteit.Prelude.{
  ℕ, zero, suc, ◌≡◌, ◌↔◌, refl, Bool, true, false, ◌&&◌, ◌||◌, not, Option, none, some, List, [],
  ◌∷◌, ◌++◌, if◌then◌else◌, select, exists, Eq, arith,
}

module _ {R : Type 0} ⦃e : Eq R⦄ where
  -- `r in roles`
  abbrev pub has : R → List R → Bool
  has r [] = false
  has r (x ∷ xs) = e.beq x r || has r xs

  -- `a - b`, `a & b` and `a | b`
  abbrev pub difference : List R → List R → List R
  difference a b = select (λ r. not (has r b)) a

  abbrev pub intersection : List R → List R → List R
  intersection a b = select (λ r. has r b) a

  abbrev pub union : List R → List R → List R
  union a b = a ++ difference b a

  abbrev pub is_empty : List R → Bool
  is_empty [] = true
  is_empty (_ ∷ _) = false

module _ {R : Type 0} ⦃e : Eq R⦄ (valid : List R) (requires : R → List R) where
  -- `validate_roles`: none is the exception on a role that the context does not have.
  unfoldable pub validate_roles : List R → Option (List R)
  validate_roles [] = some []
  validate_roles (x ∷ xs) =
      if has x valid
      then elim (validate_roles xs) [ none ↦ none | some found ↦ some (x ∷ found) ]
      else none

  -- Python's recursion depth is the fuel, which runs out only where requirements are cyclic.
  unfoldable pub get_required_roles : ℕ → List R → List R
  get_required_roles zero roles = []
  get_required_roles (suc fuel) [] = []
  get_required_roles (suc fuel) (x ∷ xs) =
      x ∷ (get_required_roles fuel (requires x) ++ get_required_roles (suc fuel) xs)

  unfoldable pub get_reverse_required_roles : List R → List R
  get_reverse_required_roles to_check =
      select (λ role. not (is_empty (intersection (requires role) to_check)) || has role to_check)
        valid

  -- What `add` leaves assigned. `valid_roles[x]` maps the stored texts to roles, so `assigned`
  -- is a list of valid roles.
  unfoldable pub add : ℕ → List R → List R → Option (List R)
  unfolding validate_roles get_required_roles
  add fuel assigned roles = elim (validate_roles roles) [
    | none ↦ none
    | some checked ↦
        let new_roles = difference (get_required_roles fuel checked) assigned in
        some (if is_empty new_roles then assigned else union assigned new_roles)
  ]

  -- What `remove` leaves assigned; with nothing left the row itself is deleted.
  unfoldable pub remove : List R → List R → Option (List R)
  unfolding validate_roles get_reverse_required_roles
  remove assigned roles = elim (validate_roles roles) [
    | none ↦ none
    | some checked ↦
        let removed = intersection assigned (get_reverse_required_roles checked) in
        some (if is_empty removed then assigned else difference assigned removed)
  ]

-- voteit/meeting/roles.py
pub data Role : Type 0 where
  participant moderator potential_voter discusser proposer : Role

abbrev pub role_beq : Role → Role → Bool
role_beq participant participant = true
role_beq moderator moderator = true
role_beq potential_voter potential_voter = true
role_beq discusser discusser = true
role_beq proposer proposer = true
role_beq _ _ = false

pub role_beq_iff : (a b : Role) → (role_beq a b ≡ true) ↔ (a ≡ b)
role_beq_iff a b = ground arith

instance abbrev pub role_eq : Eq Role
role_eq = record { beq = role_beq; beq_iff = role_beq_iff }

-- `MeetingRoles.valid_roles`
abbrev pub valid_roles : List Role
valid_roles = discusser ∷ moderator ∷ participant ∷ potential_voter ∷ proposer ∷ []

-- the calls of `add_requirement`
abbrev pub requires : Role → List Role
requires participant = []
requires _ = participant ∷ []
