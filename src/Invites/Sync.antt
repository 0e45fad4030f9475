-- ===== src/Invites/Sync.antt =====
-- The roles that a change of an accepted invite leaves its user.
use voteit.Prelude.{
  ◌≡◌, refl, ◌∙◌, ap, true, false, ◌&&◌, ◌||◌, not, none, some, List, [], ◌∷◌, if◌then◌else◌, arith,
}
use voteit.Core.Roles.{
  has, Role, role_eq, role_beq, participant, moderator, potential_voter, discusser, proposer,
  requires, valid_roles, add, remove, difference, intersection, is_empty, validate_roles,
  get_required_roles, get_reverse_required_roles,
}
use voteit.Core.Roles.Closure.{has-select, has-union, is_empty-has, has-validate_roles, has-reverse}
use voteit.Core.Roles.Rows.{assigned_of, Row, depth, add_roles, remove_roles}
use voteit.Invites.{update_assigned_roles}

valid_role : (r : Role) → has r valid_roles ≡ true
valid_role r = ground arith

validate_roles_ok :
    (roles : List Role)
    → (checked : List Role) × (validate_roles valid_roles requires roles ≡ some checked)
unfolding validate_roles
validate_roles_ok [] = ([], refl)
validate_roles_ok (x ∷ xs) =
    let (found, e) = validate_roles_ok xs in (x ∷ found, ground (arith, e, valid_role x))

has-required_roles :
    (roles : List Role) (r : Role)
    → has r (get_required_roles valid_roles requires depth roles)
      ≡ (has r roles || role_beq r participant && not (is_empty roles))
unfolding get_required_roles
has-required_roles [] r = ground arith
has-required_roles (participant ∷ xs) r = ground (arith, has-required_roles xs r)
has-required_roles (moderator ∷ xs) r = ground (arith, has-required_roles xs r)
has-required_roles (potential_voter ∷ xs) r = ground (arith, has-required_roles xs r)
has-required_roles (discusser ∷ xs) r = ground (arith, has-required_roles xs r)
has-required_roles (proposer ∷ xs) r = ground (arith, has-required_roles xs r)

is_empty-validated :
    (roles checked : List Role)
    → validate_roles valid_roles requires roles ≡ some checked
    → is_empty checked ≡ is_empty roles
unfolding validate_roles
is_empty-validated [] checked e = ground arith
is_empty-validated (x ∷ xs) checked e = ground (arith, valid_role x)

-- the roles after `add_roles`
pub has-add_roles :
    (roles : List Role) (row : Row) (r : Role)
    → has r (assigned_of (add_roles roles row))
      ≡ (has r (assigned_of row) || (has r roles || role_beq r participant && not (is_empty roles)))
unfolding add_roles add
has-add_roles roles row r =
    let (checked, e) = validate_roles_ok roles in
    let wanted : List Role = get_required_roles valid_roles requires depth checked in
    let fresh : List Role = difference wanted (assigned_of row) in
    ground (
      arith,
      e,
      has-validate_roles valid_roles requires roles checked r e,
      is_empty-validated roles checked e,
      has-required_roles checked r,
      has-union r (assigned_of row) fresh,
      has-select (λ x. not (has x (assigned_of row))) r wanted,
      is_empty-has r fresh,
    )

depends :
    (checked : List Role) (r : Role)
    → (not (is_empty (intersection (requires r) checked)) || has r checked)
      ≡ (has r checked || has participant checked)
depends checked participant = ground arith
depends checked r = ground arith

-- the roles after `remove_roles`: with `participant` all go
pub has-remove_roles :
    (roles : List Role) (row : Row) (r : Role)
    → has r (assigned_of (remove_roles roles row))
      ≡ (has r (assigned_of row) && not (has r roles || has participant roles))
unfolding remove_roles remove
has-remove_roles roles none r = refl
has-remove_roles roles (some assigned) r =
    let (checked, e) = validate_roles_ok roles in
    let reverse : List Role = get_reverse_required_roles valid_roles requires checked in
    let removed : List Role = intersection assigned reverse in
    let after : List Role = difference assigned removed in
    ground (
      arith,
      e,
      has-validate_roles valid_roles requires roles checked r e,
      has-validate_roles valid_roles requires roles checked participant e,
      has-reverse valid_roles requires checked r,
      depends checked r,
      valid_role r,
      has-select (λ x. not (has x removed)) r assigned,
      has-select (λ x. has x reverse) r assigned,
      is_empty-has r after,
      is_empty-has r removed,
    )

has-both :
    (a b c : List Role) (r : Role)
    → has r (difference (difference a b) c) ≡ (has r a && not (has r b) && not (has r c))
has-both a b c r =
    ground (
      arith,
      has-select (λ x. not (has x c)) r (difference a b),
      has-select (λ x. not (has x b)) r a,
    )

empty_difference : (a b : List Role) → is_empty a ≡ true → difference a b ≡ []
empty_difference [] b h = refl
empty_difference (x ∷ xs) b h = cc

-- `if remove_roles:` and `if add_roles:` change nothing
has-dropped :
    (roles : List Role) (row : Row) (r : Role)
    → has r (assigned_of (if is_empty roles then row else remove_roles roles row))
      ≡ (has r (assigned_of row) && not (has r roles || has participant roles))
has-dropped [] row r = ground arith
has-dropped (x ∷ xs) row r = has-remove_roles (x ∷ xs) row r

has-given :
    (roles : List Role) (row : Row) (r : Role)
    → has r (assigned_of (if is_empty roles then row else add_roles roles row))
      ≡ (has r (assigned_of row) || (has r roles || role_beq r participant && not (is_empty roles)))
has-given [] row r = ground arith
has-given (x ∷ xs) row r = has-add_roles (x ∷ xs) row r

-- the roles after an update, in terms of those before
has-update :
    (ignore set_roles : List Role) (row : Row) (r : Role)
    → let to_remove = difference (difference (assigned_of row) set_roles) ignore in
      let to_add = difference (difference set_roles (assigned_of row)) ignore in
      has r (assigned_of (update_assigned_roles ignore set_roles row)) ≡ (
        has r (assigned_of row) && not (has r to_remove || has participant to_remove)
        || (has r to_add || role_beq r participant && not (is_empty to_add)))
unfolding update_assigned_roles
has-update ignore set_roles row r =
    let to_remove = difference (difference (assigned_of row) set_roles) ignore in
    let to_add = difference (difference set_roles (assigned_of row)) ignore in
    let row' = if is_empty to_remove then row else remove_roles to_remove row in
    has-given to_add row' r
    ∙ ap (λ b. b || (has r to_add || role_beq r participant && not (is_empty to_add)))
        (has-dropped to_remove row r)

-- Where an invite names the role participant, which the dialect does not block, an update gives its
-- user each role that is not blocked exactly if the invite names it, and leaves blocked ones alone.
pub update_assigned_roles_lem :
    (ignore set_roles : List Role) (row : Row) (r : Role)
    → has participant set_roles ≡ true
    → has participant ignore ≡ false
    → has r (assigned_of (update_assigned_roles ignore set_roles row))
      ≡ (if has r ignore then has r (assigned_of row) else has r set_roles)
update_assigned_roles_lem ignore set_roles row participant named free = ground (
  arith,
  has-update ignore set_roles row participant,
  has-both (assigned_of row) set_roles ignore participant,
  has-both set_roles (assigned_of row) ignore participant,
)
update_assigned_roles_lem ignore set_roles row r named free = ground (
  arith,
  has-update ignore set_roles row r,
  has-both (assigned_of row) set_roles ignore r,
  has-both set_roles (assigned_of row) ignore r,
  has-both (assigned_of row) set_roles ignore participant,
)

-- Where an invite does not name the role participant, though its user has it, and names roles only
-- that he has, an update takes every role from him, the named ones too.
pub unnamed_participant_loses_all :
    (ignore set_roles : List Role) (row : Row) (r : Role)
    → has participant set_roles ≡ false
    → has participant ignore ≡ false
    → has participant (assigned_of row) ≡ true
    → is_empty (difference set_roles (assigned_of row)) ≡ true
    → has r (assigned_of (update_assigned_roles ignore set_roles row)) ≡ false
unnamed_participant_loses_all ignore set_roles row r unnamed free before nothing_new = ground (
  arith,
  has-update ignore set_roles row r,
  has-both (assigned_of row) set_roles ignore participant,
  empty_difference (difference set_roles (assigned_of row)) ignore nothing_new,
)
